-- ===== src/Lib.antt =====
-- A model of avfork, a Rust library that starts processes with a fork that shares the parent's
-- memory (through the C library aspawn) and that gives the child system calls which are safe to
-- make there.
--
-- The program's parts, and the modules that model them:
--   src/error.rs        Error: `toResult`, `SyscallError` and the table of messages. Every system
--                       call reports its code through `toResult`.
--   src/syscall.rs      Syscall: the wrappers of the system calls. Raw has those that only report a
--                       code, Io reading, writing and exit, Fd the descriptors and their boxes
--                       (Fd.Table a client that opens and drops boxes), Flags the flag words,
--                       Restart `autorestart`, Sched and Priority the scheduler, Limits prlimit and
--                       sigprocmask, Candidate the checked arguments of the exec functions, Exec
--                       the functions.
--   src/utility.rs      Utility: the fatal errors, which write to STDERR with Syscall.Io and exit.
--   src/lowlevel.rs and src/aspawn.rs
--                       Lowlevel: Stack has `Stack` and the allocator's state, Alloc `alloc_obj`
--                       (`Allocator` is `StackObjectAllocator`), Fork `avfork` and `avfork_rec`.
--   src/SignalFd.rs     SignalFd: the task that collects the children that have ended. Round and Reap
--                       look at its loops alone, Concurrent at children that end while it runs and
--                       at `wait` beside it, Waiting at `wait` alone, Status at `ExitInfo`, Setup at
--                       `SigChldFd::new`.
--   src/StacksQueue.rs  StacksQueue: the queue of stacks. Fifo looks at its order, Pool at who owns
--                       the stacks.
--   examples/avfork.rs and the tests that fork
--                       Programs: the functions that run in the child (Child), the loop around
--                       them (Rounds, and Unwind where calls fail), the tests of the allocator
--                       (Allocating), the exec tests of src/syscall.rs and the tests of
--                       src/utility.rs (Forked), which put the parts together, and the tests of
--                       `autorestart` (Restarting).
--   build.rs            Build: the build script over the commands that it runs. Laws and Steps have
--                       the events that it is to cause.
-- Base and its children have the helpers; Outcome has the monad: a call takes a
-- world `W` to an `Outcome`, which is a Rust `Ok` or `Err` or an end at which control does not come
-- back (exit, an exec that succeeds, a panic, undefined behaviour), and the next world.
--
-- What is not under src/ is a parameter. Kernel is the record of the C functions behind
-- `binding` (`psys_*`) with the constants of libc; `StackLib` and `SpawnLib` are aspawn, `SignalLib`
-- and `SetupLib` are libc, tokio and waitmap as SignalFd.rs calls them, `SegQueue` is the queue of
-- crossbeam, `Console` has println!, `ProcessLib` fork and waitpid, `BuildLib` what the build script
-- calls. A theorem that relies on what one of them does has a record of laws (`WriteLaws`,
-- `BumpLaws`, `ReapLaws`, `TaskLaws`, `WaitLaws`, `SetupLaws`, `QueueLaws`, `PoolLaws`, `SchedLaws`,
-- `NiceLaws`, `WaitMacros`, `TableLaws`, `ForkLaws`, `FailLaws`, `ReserveLaws`, `DirLaws`,
-- `ExitLaws`, `AccessLaws`, `BuildLaws`), and Tests has a concrete world in which the laws hold.
-- Error.Display and Syscall.Sched.Text have the texts of errors and policies; where a fatal error prints one, it is a
-- parameter, as are the Debug texts of boxes and stacks.
--
-- Machine integers: a C int is a ℤ in its range, `toResult` casts with `to_u32` and `to_i32`, and
-- where the source subtracts or adds at u64, i32 or usize the model panics or wraps as a build with
-- or without overflow checks does (`debug_assertions` stands for both options). usize has 64 bits.
--
-- Memory: the objects that `alloc_obj` places are kept by the address of their first byte, with their
-- sizes, and a write destroys every object of which it overwrites a byte.
--
-- Loops: the searches of `execvel` and `fexecvel` and the checks of the constructors are structural.
-- The others have fuel, and where it is used up the outcome is `out_of_fuel`: `write_all` needs more
-- than the bytes and the interruptions to come, `reap` more than the children that have ended, and
-- `autorestart` more than the interruptions. `read_loop` runs for ever in the source; its first fuel
-- bounds the rounds that are looked at.
--
-- Panics: one that unwinds drops what its scopes own (`dropping` and `dropping_on_panic`
-- of Outcome).
--
-- Not modelled: the methods that bitflags generates (a value of such a type is a number) and pointer
-- casts. src/lib.rs and src/process.rs declare modules. A box is its descriptor, and
-- Syscall.Fd.Table follows who owns it.
pub mod Base
pub mod Outcome
pub mod Kernel
pub mod Error
pub mod Syscall
pub mod Utility
pub mod Lowlevel
pub mod SignalFd
pub mod StacksQueue
pub mod Programs
pub mod Build
pub mod Tests
