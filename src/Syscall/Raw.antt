-- ===== src/Syscall/Raw.antt =====
-- The wrappers of src/syscall.rs that turn a result code into `Result<(), SyscallError>`, and those
-- that also hand out what the kernel has stored through a pointer.
pub mod Results
use avfork.Base.{ℕ, List, Option, length}
use avfork.Base.Int.{ℤ, to_usize}
use avfork.Outcome.{Sys, pure, lift, call, assume_init, ◌>>=◌, ◌>>◌}
use avfork.Kernel.{Kernel, Bytes}
use avfork.Error.{to_result}

module _ {W : Type 0} (sys : Kernel W) where
  -- `toResult(unsafe { f() } as i64)?`
  unfoldable pub syscall : (W → ℤ × W) → Sys W ℕ
  syscall f = call f >>= λ r. lift (to_result sys.debug_assertions r)

  -- the same, for a call that fills a buffer of the caller
  unfoldable pub syscall_out : {A : Type 0} → (W → ℤ × A × W) → Sys W A
  syscall_out f w = let (r, a, w') = f w in (lift (to_result sys.debug_assertions r) >> pure a) w'

  -- the same, where the buffer starts uninitialised
  unfoldable pub syscall_init : {A : Type 0} → (W → ℤ × Option A × W) → Sys W A
  syscall_init f = syscall_out f >>= λ o. lift (assume_init o)

  unfoldable pub fchdir : ℤ → Sys W (Unit {0})
  fchdir fd = syscall (sys.psys_fchdir fd) >> pure tt

  unfoldable pub chdir : Bytes → Sys W (Unit {0})
  chdir pathname = syscall (sys.psys_chdir pathname) >> pure tt

  unfoldable pub setresuid : ℕ → ℕ → ℕ → Sys W (Unit {0})
  setresuid ruid euid suid = syscall (sys.psys_setresuid ruid euid suid) >> pure tt

  unfoldable pub setresgid : ℕ → ℕ → ℕ → Sys W (Unit {0})
  setresgid rgid egid sgid = syscall (sys.psys_setresgid rgid egid sgid) >> pure tt

  unfoldable pub setgroups : List ℕ → Sys W (Unit {0})
  setgroups list = syscall (sys.psys_setgroups (length list) list) >> pure tt

  unfoldable pub sched_setparam : ℤ → ℤ → Sys W (Unit {0})
  sched_setparam pid param = syscall (sys.psys_sched_setparam pid param) >> pure tt

  unfoldable pub sched_getparam : ℤ → Sys W ℤ
  sched_getparam pid = syscall_init (sys.psys_sched_getparam pid)

  -- `getpid`, and `get_pagesz`, whose result is cast to usize
  unfoldable pub getpid : Sys W ℤ
  getpid = call sys.psys_getpid

  unfoldable pub get_pagesz : Sys W ℕ
  get_pagesz = call sys.psys_get_pagesz >>= λ size. pure (to_usize size)
