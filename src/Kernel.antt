-- ===== src/Kernel.antt =====
-- What the library takes from outside: the constants of the libc crate, and the functions of the
-- C library aspawn (a git submodule) and of the operating system behind it.
use avfork.Base.{ℕ, Bool, List, Option}
use avfork.Base.Int.{ℤ}
use avfork.Outcome.{Sys}

abbrev pub Bytes : Type 0
Bytes = List ℕ

-- Constants and pure functions of the libc crate, and of the generated bindings.
pub record Libc : Type 0 where
  pub eintr : ℕ
  pub eacces : ℕ
  pub enoent : ℕ
  pub estale : ℕ
  pub enotdir : ℕ
  pub enodev : ℕ
  pub etimedout : ℕ
  pub o_rdonly : ℕ
  pub o_wronly : ℕ
  pub o_rdwr : ℕ
  pub o_creat : ℕ
  pub o_excl : ℕ
  pub o_tmpfile : ℕ
  pub o_cloexec : ℕ
  pub o_path : ℕ
  pub o_directory : ℕ
  pub o_nofollow : ℕ
  pub sched_other : ℕ
  pub sched_fifo : ℕ
  pub sched_rr : ℕ
  pub sched_batch : ℕ
  pub sched_idle : ℕ
  pub prio_process : ℕ
  pub prio_pgrp : ℕ
  pub prio_user : ℕ
  pub sig_block : ℕ
  pub sig_unblock : ℕ
  pub sig_setmask : ℕ
  pub at_fdcwd : ℤ

-- The foreign functions over a state `W`. A buffer that the callee fills is part of the result;
-- where the caller's buffer starts uninitialised, `none` says that it was not written.
pub record Kernel (W : Type 0) : Type 0 where
  pub libc : Libc
  pub open libc use *
  -- `cfg!(debug_assertions)`, which also turns the overflow checks on
  pub debug_assertions : Bool
  pub psys_openat : ℤ → Bytes → ℕ → ℕ → W → ℤ × W
  pub psys_dup : ℤ → W → ℤ × W
  pub psys_dup3 : ℤ → ℤ → ℕ → W → ℤ × W
  pub psys_pipe2 : ℤ × ℤ → ℕ → W → ℤ × (ℤ × ℤ) × W
  pub psys_close : ℤ → W → ℤ × W
  -- the bytes that the kernel has stored at the front of a buffer of the given length
  pub psys_read : ℤ → ℕ → W → ℤ × Bytes × W
  pub psys_write : ℤ → Bytes → W → ℤ × W
  pub psys_fchdir : ℤ → W → ℤ × W
  pub psys_chdir : Bytes → W → ℤ × W
  pub psys_setresuid : ℕ → ℕ → ℕ → W → ℤ × W
  pub psys_setresgid : ℕ → ℕ → ℕ → W → ℤ × W
  pub psys_setgroups : ℕ → List ℕ → W → ℤ × W
  pub psys_sched_setparam : ℤ → ℤ → W → ℤ × W
  pub psys_sched_getparam : ℤ → W → ℤ × Option ℤ × W
  pub psys_sched_getscheduler : ℤ → W → ℤ × W
  -- the last argument is the parameter's pointer, `none` if it is null
  pub psys_sched_setscheduler : ℤ → ℕ → Option ℤ → W → ℤ × W
  pub psys_prlimit : ℕ → Option (ℕ × ℕ) → W → ℤ × Option (ℕ × ℕ) × W
  pub psys_getpriority : ℕ → ℤ → W → ℤ × W
  pub psys_setpriority : ℕ → ℤ → ℤ → W → ℤ × W
  pub psys_sigprocmask : ℕ → Option ℕ → W → ℤ × Option ℕ × W
  pub psys_getpid : W → ℤ × W
  pub psys_get_pagesz : W → ℤ × W
  -- the signal sets that these two store
  pub pure_sigemptyset : Option ℕ
  pub pure_sigfillset : Option ℕ
  -- the end of the process: what the world looks like after it
  pub psys_exit : ℤ → W → W
  -- an exec that succeeds ends in `replaced`, one that fails returns its result
  pub psys_execve : Bytes → List Bytes → List Bytes → Sys W ℤ
  pub psys_execveat : ℤ → Bytes → List Bytes → List Bytes → ℕ → Sys W ℤ
