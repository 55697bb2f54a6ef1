-- ===== src/Syscall/Sched.antt =====
-- The scheduler calls of src/syscall.rs.
pub mod RoundTrip
pub mod Text
use avfork.Base.{ℕ, [], ◌∷◌, List, Option, none, some, codes, if◌then◌else◌}
use avfork.Base.Int.{ℤ, pos, to_i32, eqb_ℤ}
use avfork.Outcome.{Sys, pure, ◌>>=◌, ◌>>◌}
use avfork.Kernel.{Kernel, Bytes}
use avfork.Syscall.Raw.{syscall, sched_getparam}
use avfork.Utility.{errx_impl}

-- The payload is the field `sched_priority` of `sched_param`.
pub data SchedPolicy : Type 0 where
  sched_other : SchedPolicy
  sched_batch : SchedPolicy
  sched_idle : SchedPolicy
  sched_fifo : ℤ → SchedPolicy
  sched_rr : ℤ → SchedPolicy

module _ {W : Type 0} (sys : Kernel W) where
  -- The text of the fatal error.
  abbrev pub unexpected_policy : List Bytes
  unexpected_policy = codes "Unexpected scheduler policy in sched_getscheduler" ∷ []

  -- The `match` of `sched_getscheduler` on the kernel's answer.
  unfoldable pub policy_of : ℕ → ℤ → ℤ → Sys W SchedPolicy
  policy_of fuel pid result =
      if eqb_ℤ result (pos sys.sched_other)
      then pure sched_other
      else if eqb_ℤ result (pos sys.sched_batch)
      then pure sched_batch
      else if eqb_ℤ result (pos sys.sched_idle)
      then pure sched_idle
      else if eqb_ℤ result (pos sys.sched_fifo)
      then (sched_getparam sys pid >>= λ param. pure (sched_fifo param))
      else if eqb_ℤ result (pos sys.sched_rr)
      then (sched_getparam sys pid >>= λ param. pure (sched_rr param))
      else errx_impl sys fuel (pos 1) unexpected_policy

  unfoldable pub sched_getscheduler : ℕ → ℤ → Sys W SchedPolicy
  sched_getscheduler fuel pid =
      syscall sys (sys.psys_sched_getscheduler pid) >>= λ r. policy_of fuel pid (to_i32 r)

  -- The closure `setter`.
  unfoldable pub sched_setter : ℤ → ℕ → Option ℤ → Sys W (Unit {0})
  sched_setter pid policy param =
      syscall sys (sys.psys_sched_setscheduler pid policy param) >> pure tt

  unfoldable pub sched_setscheduler : ℤ → SchedPolicy → Sys W (Unit {0})
  sched_setscheduler pid sched_other = sched_setter pid sys.sched_other none
  sched_setscheduler pid sched_batch = sched_setter pid sys.sched_batch none
  sched_setscheduler pid sched_idle = sched_setter pid sys.sched_idle none
  sched_setscheduler pid (sched_fifo param) = sched_setter pid sys.sched_fifo (some param)
  sched_setscheduler pid (sched_rr param) = sched_setter pid sys.sched_rr (some param)
