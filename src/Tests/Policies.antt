-- ===== src/Tests/Policies.antt =====
-- The theorems on the scheduler, the priorities and the limits of src/syscall.rs at concrete inputs.
use avfork.Base.{ℕ, ◌+◌, ◌≡◌, ◌↔◌, refl, sym, ap, true, Option, some, none, arith}
use avfork.Base.Int.{ℤ, pos, negsuc, pos_part, ◌-ℤ◌}
use avfork.Outcome.{ok, err}
use avfork.Kernel.{Kernel}
use avfork.Error.{to_result}
use avfork.Syscall.Raw.{syscall}
use avfork.Syscall.Limits.{rlimit_nofile}
use avfork.Syscall.Limits.Outputs.{prlimits, out_call, out_call-handed_out}
use avfork.Syscall.Sched.{
  sched_fifo, sched_batch, sched_setter, sched_getscheduler, sched_setscheduler,
}
use avfork.Syscall.Sched.RoundTrip.{
  IsLinuxSched, SchedLaws, getscheduler-setscheduler, setscheduler_null,
}
use avfork.Syscall.Priority.{
  new_priority, PriorityWhichAndWho, prio_process, sub_i32, getpriority, setpriority,
}
use avfork.Syscall.Priority.Nice.{NiceLaws, clamp_nice, getpriority_lem, getpriority-setpriority}
use avfork.Tests.World.{linux, idle_kernel}

-- The scheduler of one process: its policy and parameter. A null parameter is refused.
abbrev set_policy : ℕ → Option ℤ → ℕ × ℤ → ℤ × (ℕ × ℤ)
set_policy policy none w = (negsuc 21, w)
set_policy policy (some param) w = (pos 0, (policy, param))

abbrev scheduler : Kernel (ℕ × ℤ)
scheduler = record (idle_kernel true) {
  psys_sched_setscheduler = λ pid policy param w. set_policy policy param w;
  psys_sched_getscheduler = λ pid w. (pos w.0, w);
  psys_sched_getparam = λ pid w. (pos 0, some w.1, w);
}

policy_kept :
    (policy : ℕ) (param : Option ℤ) (w w' : ℕ × ℤ) (n : ℕ)
    → set_policy policy param w ≡ (pos n, w')
    → ◌≡◌ {A = ℤ × (ℕ × ℤ)} (pos w'.0, w') (pos policy, w')
policy_kept policy none w w' n e = ground arith
policy_kept policy (some param) w w' n e = ap (λ p. (pos p, w')) (ground arith)

param_kept :
    (policy : ℕ) (param : ℤ) (w w' : ℕ × ℤ) (n : ℕ)
    → set_policy policy (some param) w ≡ (pos n, w')
    → ◌≡◌ {A = ℤ × Option ℤ × (ℕ × ℤ)} (pos 0, some w'.1, w') (pos 0, some param, w')
param_kept policy param w w' n e = ap (λ p. (pos 0, some p, w')) (ground arith)

scheduler-SchedLaws : SchedLaws scheduler (pos 0)
scheduler-SchedLaws = record {
  policy_is_kept = λ policy param w w' n e. policy_kept policy param w w' n e;
  param_is_kept = λ policy param w w' n e. param_kept policy param w w' n e;
}

linux-IsLinuxSched : IsLinuxSched linux
linux-IsLinuxSched = record {
  other_is = refl;
  fifo_is = refl;
  rr_is = refl;
  batch_is = refl;
  idle_is = refl;
}

getscheduler-setscheduler_example :
    sched_getscheduler scheduler 9 (pos 0) (1, pos 50) ≡ (ok (sched_fifo (pos 50)), (1, pos 50))
unfolding sched_setscheduler sched_setter syscall to_result
getscheduler-setscheduler_example =
    getscheduler-setscheduler scheduler (pos 0) 9 (sched_fifo (pos 50)) (0, pos 0) (1, pos 50)
      linux-IsLinuxSched scheduler-SchedLaws refl

setscheduler_null_example :
    sched_setscheduler scheduler (pos 0) sched_batch (0, pos 0)
    ≡ (err (record { errno = 22 }), (0, pos 0))
setscheduler_null_example =
    setscheduler_null scheduler (pos 0) sched_batch (0, pos 0) (0, pos 0) (λ number. refl) refl

-- The nice value of one process, as Linux keeps it.
abbrev niceness : Kernel ℤ
niceness = record (idle_kernel true) {
  psys_setpriority = λ which who value w. (pos 0, clamp_nice value);
  psys_getpriority = λ which who w. (pos (pos_part (pos 20 -ℤ w)), w);
}

abbrev self_process : PriorityWhichAndWho
self_process = prio_process (pos 0)

niceness-NiceLaws : NiceLaws niceness self_process (λ w. w)
niceness-NiceLaws = record { sets = λ value w w' n e. sym (ap (λ p. p.1) e); gets = λ w. refl }

getpriority_lem_example :
    (getpriority niceness self_process (pos 5) ≡ (ok (record { prio = pos 5 }), pos 5))
    × (new_priority (pos 5) ≡ some (record { prio = pos 5 }))
getpriority_lem_example =
    getpriority_lem niceness self_process (pos 5) (pos 5) 15 refl (omega arith) (omega arith)

-- After 5 has been set, 15 is read.
getpriority-setpriority_example :
    (getpriority niceness self_process (pos 15) ≡ (ok (record { prio = pos 15 }), pos 15))
    × ((pos 15 ≡ pos 5) ↔ (pos 5 ≡ pos 10))
unfolding setpriority sub_i32 syscall to_result
getpriority-setpriority_example =
    getpriority-setpriority niceness self_process (λ w. w) (pos 5) (pos 0) (pos 15)
      niceness-NiceLaws (omega arith) (omega arith) refl

-- A kernel that answers with the limits it had.
abbrev limiting : Kernel ℕ
limiting = record (idle_kernel true) {
  psys_prlimit = λ resource limit w. (pos 0, some (1024, 4096), w + resource);
}

out_call-handed_out_example :
    out_call limiting (λ r. 7) (prlimits rlimit_nofile none) 0
    ≡ (ok (record { rlim_cur = 1024; rlim_max = 4096 }), 7)
out_call-handed_out_example =
    out_call-handed_out limiting (λ r. 7) (prlimits rlimit_nofile none) (pos 0)
      (some (record { rlim_cur = 1024; rlim_max = 4096 })) 0 7 refl (omega arith)
