-- ===== src/StateMachine.antt =====
-- local-modules/@bayou/state-machine/StateMachine.js: the handlers' table, and the queue of events.
pub mod Table
pub mod Machine
