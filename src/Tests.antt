-- ===== src/Tests.antt =====
-- Runs at concrete inputs.
mod Files
mod Documents
mod Carets
mod LocalFiles
mod Updates
mod Machines
mod Numbers
mod Values
mod Parts
mod Controls
