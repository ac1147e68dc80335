-- ===== src/PromiseUtil.antt =====
-- local-modules/@bayou/promise-util: a mutex and a condition variable over promises.
pub mod Mutex
pub mod Condition
