-- ===== src/Syscall.antt =====
-- src/syscall.rs: the wrappers of the system calls, a module for each group of them.
pub mod Raw
pub mod Io
pub mod Fd
pub mod Flags
pub mod Restart
pub mod Sched
pub mod Candidate
pub mod Exec
pub mod Priority
pub mod Limits
