-- ===== src/Syscall/Sched/RoundTrip.antt =====
-- What `sched_setscheduler` of src/syscall.rs sets, `sched_getscheduler` reads back.
use avfork.Base.{ℕ, ◌≡◌, refl, ◌∙◌, Bool, true, false, Option, none, some, arith}
use avfork.Base.Int.{ℤ, pos, negsuc, to_i32}
use avfork.Outcome.{ok, err}
use avfork.Kernel.{Libc, Kernel}
use avfork.Error.Codes.{to_result_nonneg}
use avfork.Syscall.Raw.{syscall_out, syscall_init, sched_getparam}
use avfork.Syscall.Raw.Results.{unit-eq_ok, syscall_ok, syscall_err}
use avfork.Syscall.Sched.{
  SchedPolicy, sched_other, sched_batch, sched_idle, sched_fifo, sched_rr, policy_of,
  sched_getscheduler, sched_setter, sched_setscheduler,
}

-- The numbers of the policies, from sched.h of Linux.
pub record IsLinuxSched (libc : Libc) : Type 0 where
  pub other_is : libc.sched_other ≡ 0
  pub fifo_is : libc.sched_fifo ≡ 1
  pub rr_is : libc.sched_rr ≡ 2
  pub batch_is : libc.sched_batch ≡ 3
  pub idle_is : libc.sched_idle ≡ 5

module _ {W : Type 0} (sys : Kernel W) (pid : ℤ) where
  -- sched_setscheduler(2), where it succeeds: the two getters then answer what was set.
  pub record SchedLaws : Type 0 where
    pub policy_is_kept :
        (policy : ℕ) (param : Option ℤ) (w w' : W) (n : ℕ)
        → sys.psys_sched_setscheduler pid policy param w ≡ (pos n, w')
        → sys.psys_sched_getscheduler pid w' ≡ (pos policy, w')
    pub param_is_kept :
        (policy : ℕ) (param : ℤ) (w w' : W) (n : ℕ)
        → sys.psys_sched_setscheduler pid policy (some param) w ≡ (pos n, w')
        → sys.psys_sched_getparam pid w' ≡ (pos 0, some param, w')

  setter-eq_ok :
      (policy : ℕ) (param : Option ℤ) (w w' : W)
      → sched_setter sys pid policy param w ≡ (ok tt, w')
      → (n : ℕ) × (sys.psys_sched_setscheduler pid policy param w ≡ (pos n, w'))
  unfolding sched_setter
  setter-eq_ok policy param w w' h = unit-eq_ok sys _ w w' h

  getscheduler_answer :
      (fuel policy : ℕ) (w : W)
      → sys.psys_sched_getscheduler pid w ≡ (pos policy, w)
      → sched_getscheduler sys fuel pid w ≡ policy_of sys fuel pid (to_i32 policy) w
  unfolding sched_getscheduler
  getscheduler_answer fuel policy w e =
      rw (syscall_ok sys (sys.psys_sched_getscheduler pid) w w policy e) refl

  getparam_answer :
      (param : ℤ) (w : W)
      → sys.psys_sched_getparam pid w ≡ (pos 0, some param, w)
      → sched_getparam sys pid w ≡ (ok param, w)
  unfolding sched_getparam syscall_init syscall_out
  getparam_answer param w e = rw (e, syscall_init) (rw (to_result_nonneg sys.debug_assertions 0))

  -- Where `sched_setscheduler` has set a policy, `sched_getscheduler` answers that policy with its
  -- parameter. The policies are to have the numbers of Linux, and the kernel's getters to answer
  -- what was set (`SchedLaws`).
  pub getscheduler-setscheduler :
      (fuel : ℕ) (policy : SchedPolicy) (w w' : W)
      → IsLinuxSched sys.libc
      → SchedLaws
      → sched_setscheduler sys pid policy w ≡ (ok tt, w')
      → sched_getscheduler sys fuel pid w' ≡ (ok policy, w')
  unfolding sched_setscheduler policy_of
  getscheduler-setscheduler fuel sched_other w w' linux laws h =
      let (n, e) = setter-eq_ok sys.sched_other none w w' h in
      getscheduler_answer fuel sys.sched_other w' (laws.policy_is_kept _ _ w w' n e)
      ∙ simp (linux.other_is)
  getscheduler-setscheduler fuel sched_batch w w' linux laws h =
      let (n, e) = setter-eq_ok sys.sched_batch none w w' h in
      getscheduler_answer fuel sys.sched_batch w' (laws.policy_is_kept _ _ w w' n e)
      ∙ simp (linux.other_is, linux.batch_is)
  getscheduler-setscheduler fuel sched_idle w w' linux laws h =
      let (n, e) = setter-eq_ok sys.sched_idle none w w' h in
      getscheduler_answer fuel sys.sched_idle w' (laws.policy_is_kept _ _ w w' n e)
      ∙ simp (linux.other_is, linux.batch_is, linux.idle_is)
  getscheduler-setscheduler fuel (sched_fifo param) w w' linux laws h =
      let (n, e) = setter-eq_ok sys.sched_fifo (some param) w w' h in
      getscheduler_answer fuel sys.sched_fifo w' (laws.policy_is_kept _ _ w w' n e)
      ∙ simp (
        linux.other_is,
        linux.batch_is,
        linux.idle_is,
        linux.fifo_is,
        getparam_answer param w' (laws.param_is_kept _ param w w' n e),
      )
  getscheduler-setscheduler fuel (sched_rr param) w w' linux laws h =
      let (n, e) = setter-eq_ok sys.sched_rr (some param) w w' h in
      getscheduler_answer fuel sys.sched_rr w' (laws.policy_is_kept _ _ w w' n e)
      ∙ simp (
        linux.other_is,
        linux.batch_is,
        linux.idle_is,
        linux.fifo_is,
        linux.rr_is,
        getparam_answer param w' (laws.param_is_kept _ param w w' n e),
      )

  -- The policies that are not real-time ones are set with a null pointer for the parameter.
  abbrev pub is_normal : SchedPolicy → Bool
  is_normal (sched_fifo _) = false
  is_normal (sched_rr _) = false
  is_normal sched_other = true
  is_normal _ = true

  -- If the kernel answers a null parameter with -22 (EINVAL), as sched_setscheduler(2) says of
  -- Linux, then none of SCHED_OTHER, SCHED_BATCH and SCHED_IDLE can be set: each call fails with
  -- EINVAL and leaves the world as the kernel's refusal does.
  pub setscheduler_null :
      (policy : SchedPolicy) (w w' : W)
      → ((number : ℕ) → sys.psys_sched_setscheduler pid number none w ≡ (negsuc 21, w'))
      → is_normal policy ≡ true
      → sched_setscheduler sys pid policy w ≡ (err (record { errno = 22 }), w')
  unfolding sched_setscheduler sched_setter
  setscheduler_null sched_other w w' null h =
      rw (syscall_err sys _ w w' 21 (omega arith) (null sys.sched_other))
  setscheduler_null sched_batch w w' null h =
      rw (syscall_err sys _ w w' 21 (omega arith) (null sys.sched_batch))
  setscheduler_null sched_idle w w' null h =
      rw (syscall_err sys _ w w' 21 (omega arith) (null sys.sched_idle))
  setscheduler_null (sched_fifo _) w w' null h = cc
  setscheduler_null (sched_rr _) w w' null h = cc
