-- ===== src/Syscall/Limits/Outputs.antt =====
-- The calls of src/syscall.rs that hand out what the kernel has stored: `sched_getparam`, `prlimit`
-- and `sigprocmask`.
use avfork.Base.{ℕ, suc, ◌≡◌, refl, Option, none, some}
use avfork.Base.Int.{ℤ, pos, negsuc, IsI32}
use avfork.Outcome.{Outcome, ok, err, undefined, Sys}
use avfork.Kernel.{Kernel}
use avfork.Error.Codes.{to_result_nonneg, to_result_negative}
use avfork.Syscall.Raw.{syscall_init, syscall_out, sched_getparam}
use avfork.Syscall.Limits.{
  PrlimitResource, Rlimit, limit_pointer, stored_limit, SigprocmaskHow, how_bits, prlimit,
  sigprocmask,
}

-- The calls with their arguments, and the type of what each hands out.
pub data OutCall : Type 0 where
  getparams : ℤ → OutCall
  prlimits : PrlimitResource → Option Rlimit → OutCall
  sigprocmasks : SigprocmaskHow → Option ℕ → OutCall

abbrev pub Out : OutCall → Type 0
Out (getparams pid) = ℤ
Out (prlimits resource new_limit) = Rlimit
Out (sigprocmasks how new_set) = ℕ

-- The result for a code and what was stored: a success without a stored value reads memory that
-- was never written.
abbrev pub handed_out : {A : Type 0} → ℤ → Option A → Outcome A
handed_out (pos n) (some a) = ok a
handed_out (pos n) none = undefined
handed_out (negsuc n) o = err (record { errno = suc n })

module _ {W : Type 0} (sys : Kernel W) (rlimits : PrlimitResource → ℕ) where
  abbrev pub out_call : (c : OutCall) → Sys W (Out c)
  out_call (getparams pid) = sched_getparam sys pid
  out_call (prlimits resource new_limit) = prlimit sys rlimits resource new_limit
  out_call (sigprocmasks how new_set) = sigprocmask sys how new_set

  -- The system call behind each.
  abbrev pub out_raw : (c : OutCall) → W → ℤ × Option (Out c) × W
  out_raw (getparams pid) w = sys.psys_sched_getparam pid w
  out_raw (prlimits resource new_limit) w =
      stored_limit (sys.psys_prlimit (rlimits resource) (limit_pointer new_limit) w)
  out_raw (sigprocmasks how new_set) w = sys.psys_sigprocmask (how_bits sys.libc how) new_set w

  syscall_init-handed_out :
      {A : Type 0} (f : W → ℤ × Option A × W) (r : ℤ) (o : Option A) (w w' : W)
      → f w ≡ (r, o, w')
      → IsI32 r
      → syscall_init sys f w ≡ (handed_out r o, w')
  unfolding syscall_init syscall_out
  syscall_init-handed_out f (pos n) none w w' e h =
      rw (e, syscall_init) (rw (to_result_nonneg sys.debug_assertions n) refl)
  syscall_init-handed_out f (pos n) (some a) w w' e h =
      rw (e, syscall_init) (rw (to_result_nonneg sys.debug_assertions n) refl)
  syscall_init-handed_out f (negsuc n) o w w' e h =
      rw (e, syscall_init) (rw (to_result_negative sys.debug_assertions n h.1) refl)

  -- `sched_getparam`, `prlimit` and `sigprocmask` make one system call and hand out exactly what
  -- the kernel has stored, if the code is 0 or more; a negative code is the error of that number,
  -- whatever was stored. Only a kernel that answers success and stores nothing leads to undefined
  -- behaviour. The code is to be a c_int.
  pub out_call-handed_out :
      (c : OutCall) (r : ℤ) (o : Option (Out c)) (w w' : W)
      → out_raw c w ≡ (r, o, w')
      → IsI32 r
      → out_call c w ≡ (handed_out r o, w')
  unfolding sched_getparam prlimit sigprocmask
  out_call-handed_out (getparams pid) r o w w' e h = syscall_init-handed_out _ r o w w' e h
  out_call-handed_out (prlimits resource new_limit) r o w w' e h =
      syscall_init-handed_out _ r o w w' e h
  out_call-handed_out (sigprocmasks how new_set) r o w w' e h =
      syscall_init-handed_out _ r o w w' e h
