-- ===== src/Syscall/Limits.antt =====
-- `prlimit` and `sigprocmask` of src/syscall.rs: calls that hand out an old value.
pub mod Outputs
use avfork.Base.{ℕ, Option, none, some}
use avfork.Outcome.{Outcome, assume_init, Sys}
use avfork.Kernel.{Libc, Kernel}
use avfork.Syscall.Raw.{syscall_init}

pub data PrlimitResource : Type 0 where
  rlimit_as rlimit_core rlimit_cpu rlimit_data rlimit_fsize rlimit_locks : PrlimitResource
  rlimit_memlock rlimit_msgqueue rlimit_nice rlimit_nofile rlimit_nproc : PrlimitResource
  rlimit_rss rlimit_rtprio rlimit_rttime rlimit_sigpending rlimit_stack : PrlimitResource

-- `binding::rlimit64`
pub record Rlimit : Type 0 where
  pub rlim_cur : ℕ
  pub rlim_max : ℕ

-- `&mut new_limit as *mut _`, or the null pointer
abbrev pub limit_pointer : Option Rlimit → Option (ℕ × ℕ)
limit_pointer none = none
limit_pointer (some limit) = some (limit.rlim_cur, limit.rlim_max)

-- What is stored through a pointer to an `rlimit64`.
abbrev pub stored_limit : {W R : Type 0} → R × Option (ℕ × ℕ) × W → R × Option Rlimit × W
stored_limit (r, none, w) = (r, none, w)
stored_limit (r, some (cur, max), w) = (r, some (record { rlim_cur = cur; rlim_max = max }), w)

pub data SigprocmaskHow : Type 0 where
  sig_block sig_unblock sig_setmask : SigprocmaskHow

-- `how as c_int`
unfoldable pub how_bits : Libc → SigprocmaskHow → ℕ
how_bits libc sig_block = libc.sig_block
how_bits libc sig_unblock = libc.sig_unblock
how_bits libc sig_setmask = libc.sig_setmask

module _ {W : Type 0} (sys : Kernel W) where
  -- `prlimit`; `rlimits` gives the numbers that libc has for the resources.
  unfoldable pub prlimit : (PrlimitResource → ℕ) → PrlimitResource → Option Rlimit → Sys W Rlimit
  prlimit rlimits resource new_limit =
      syscall_init sys
        (λ w. stored_limit (sys.psys_prlimit (rlimits resource) (limit_pointer new_limit) w))

  -- `sigprocmask`; a signal set is a number.
  unfoldable pub sigprocmask : SigprocmaskHow → Option ℕ → Sys W ℕ
  sigprocmask how new_set = syscall_init sys (sys.psys_sigprocmask (how_bits sys.libc how) new_set)

  -- `sigemptyset` and `sigfillset`
  unfoldable pub sigemptyset : Outcome ℕ
  sigemptyset = assume_init sys.pure_sigemptyset

  unfoldable pub sigfillset : Outcome ℕ
  sigfillset = assume_init sys.pure_sigfillset
