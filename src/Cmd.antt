-- ===== src/Cmd.antt =====
-- src/cmd.c, the command interface: the registry of commands and the editor for their input.
pub mod State
pub mod Registry
pub mod Editor
pub mod Lookup
pub mod Typing
pub mod Completion
mod Tests
