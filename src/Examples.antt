-- ===== src/Examples.antt =====
-- Runs of the definitions, and the theorems at concrete inputs.
mod Conversation
mod Machine
mod Wire
mod Errors
mod Runs
mod Exceptions
mod Bounds
mod Grammar
mod Messages
