-- ===== src/Sysfile.antt =====
-- kernel/sysfile.c: the system calls on files. An argument that a user's process passes is a parameter, with
-- `none` where argstr() returns -1; begin_op() and end_op() change none of this state.
pub mod Fds
pub mod Paths
pub mod Make
pub mod Open
pub mod Counts
pub mod Slots
pub mod Calls
pub mod Pipes
pub mod Back
pub mod PipeCall
pub mod Undo
mod Tests
mod LinkTests
