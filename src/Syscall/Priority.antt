-- ===== src/Syscall/Priority.antt =====
-- `Priority`, `getpriority` and `setpriority` of src/syscall.rs.
pub mod Nice
use avfork.Base.{ℕ, ◌+◌, ◌-◌, ◌^◌, Bool, ◌&&◌, Option, none, some, leb, ltb, if◌then◌else◌}
use avfork.Base.Int.{ℤ, pos, negsuc, pos_part, neg_part, leb_ℤ, ◌-ℤ◌, to_u32, to_i32}
use avfork.Outcome.{Outcome, ok, panicked, Sys, pure, lift, ◌>>=◌, ◌>>◌}
use avfork.Kernel.{Libc, Kernel}
use avfork.Syscall.Raw.{syscall}

pub record Priority : Type 0 where
  pub prio : ℤ

-- `Priority::new`
unfoldable pub new_priority : ℤ → Option Priority
new_priority prio =
    if leb_ℤ (negsuc 19) prio && leb_ℤ prio (pos 19) then some (record { prio = prio }) else none

pub data PriorityWhichAndWho : Type 0 where
  prio_process prio_pgrp : ℤ → PriorityWhichAndWho
  prio_user : ℕ → PriorityWhichAndWho

-- The two arguments that the kernel gets.
unfoldable pub which_of : Libc → PriorityWhichAndWho → ℕ
which_of libc (prio_process pid) = libc.prio_process
which_of libc (prio_pgrp pgid) = libc.prio_pgrp
which_of libc (prio_user uid) = libc.prio_user

unfoldable pub who_of : PriorityWhichAndWho → ℤ
who_of (prio_process pid) = pid
who_of (prio_pgrp pgid) = pgid
who_of (prio_user uid) = pos uid

-- `a - b` at the types u64 and i32: with overflow checks a wrapped result is a panic.
unfoldable pub sub_u64 : Bool → ℕ → ℕ → Outcome ℕ
sub_u64 checks a b =
    if leb b a then ok (a - b) else if checks then panicked else ok (a + 2 ^ 64 - b)

unfoldable pub sub_i32 : Bool → ℤ → ℤ → Outcome ℤ
sub_i32 checks a b =
    if ltb (pos_part (a -ℤ b)) (2 ^ 31) && leb (neg_part (a -ℤ b)) (2 ^ 31)
    then ok (a -ℤ b)
    else if checks
    then panicked
    else ok (to_i32 (to_u32 (a -ℤ b)))

module _ {W : Type 0} (sys : Kernel W) where
  -- `knice` has the type u64 that `toResult` returns, and so has `20 - knice`.
  unfoldable pub getpriority : PriorityWhichAndWho → Sys W Priority
  getpriority which_and_who =
      syscall sys (sys.psys_getpriority (which_of sys.libc which_and_who) (who_of which_and_who))
      >>= λ knice. lift (sub_u64 sys.debug_assertions 20 knice) >>= λ prio.
          pure (record { prio = to_i32 prio })

  unfoldable pub setpriority : PriorityWhichAndWho → Priority → Sys W (Unit {0})
  setpriority which_and_who prio =
      lift (sub_i32 sys.debug_assertions (pos 20) prio.prio) >>= λ knice.
      syscall sys
        (sys.psys_setpriority (which_of sys.libc which_and_who) (who_of which_and_who) knice)
      >> pure tt
