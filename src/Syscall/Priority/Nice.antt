-- ===== src/Syscall/Priority/Nice.antt =====
-- What `getpriority` and `setpriority` of src/syscall.rs do over the system calls of Linux.
use avfork.Base.{ℕ, ◌≤◌, ◌≡◌, refl, ◌∙◌, ◌↔◌, ◌&&◌, some, arith, ltb, if◌then◌else◌}
use avfork.Base.Int.{ℤ, pos, negsuc, pos_part, leb_ℤ, ◌-ℤ◌, ◌≤ℤ◌}
use avfork.Outcome.{ok, panicked}
use avfork.Kernel.{Kernel}
use avfork.Syscall.Raw.Results.{syscall_ok, unit-eq_ok}
use avfork.Syscall.Priority.{
  Priority, new_priority, PriorityWhichAndWho, which_of, who_of, sub_u64, sub_i32, getpriority,
  setpriority,
}

-- `Priority::new` accepts exactly the numbers from -20 to 19, and keeps them.
pub new_priority_iff :
    (n : ℤ) (p : Priority)
    → (new_priority n ≡ some p) ↔ ((negsuc 19 ≤ℤ n) × (n ≤ℤ pos 19) × (p.prio ≡ n))
unfolding new_priority
new_priority_iff n p = (λ e. ground arith, λ h. ground arith)

-- A nice value, cut off at its bounds.
abbrev pub clamp_nice : ℤ → ℤ
clamp_nice v = if leb_ℤ v (negsuc 19) then negsuc 19 else if leb_ℤ (pos 19) v then pos 19 else v

module _ {W : Type 0} (sys : Kernel W) (target : PriorityWhichAndWho) where
  -- An answer k from 1 to 40 of the kernel becomes the priority 20 - k, and that is a priority that
  -- `Priority::new` accepts; but for k > 20, a negative priority, a build with overflow checks
  -- panics.
  pub getpriority_lem :
      (w w' : W) (k : ℕ)
      → sys.psys_getpriority (which_of sys.libc target) (who_of target) w ≡ (pos k, w')
      → 1 ≤ k
      → k ≤ 40
      → (getpriority sys target w ≡ (
        (if sys.debug_assertions && ltb 20 k
            then panicked
            else ok (record { prio = pos 20 -ℤ pos k })),
        w',
      ))
        × (new_priority (pos 20 -ℤ pos k) ≡ some (record { prio = pos 20 -ℤ pos k }))
  unfolding getpriority sub_u64
  getpriority_lem w w' k e lo hi = (
    rw (syscall_ok sys (sys.psys_getpriority (which_of sys.libc target) (who_of target)) w w' k e)
        (ground arith),
    (new_priority_iff (pos 20 -ℤ pos k) (record { prio = pos 20 -ℤ pos k })).1
        (ground arith, ground arith, refl),
  )

  -- setpriority(2) and getpriority(2) of Linux: the first sets the nice value itself, cut off at
  -- -20 and 19, and the second answers 20 minus the nice value.
  pub record NiceLaws (nice : W → ℤ) : Type 0 where
    pub sets :
        (value : ℤ) (w w' : W) (n : ℕ)
        → sys.psys_setpriority (which_of sys.libc target) (who_of target) value w ≡ (pos n, w')
        → nice w' ≡ clamp_nice value
    pub gets :
        (w : W)
        → sys.psys_getpriority (which_of sys.libc target) (who_of target) w
          ≡ (pos (pos_part (pos 20 -ℤ nice w)), w)

  -- The priority that is read back after `n` has been set.
  abbrev pub reread : ℤ → ℤ
  reread n = if leb_ℤ n (pos 0) then pos 19 else pos 20 -ℤ n

  sub_i32_ok :
      (n : ℤ)
      → negsuc 19 ≤ℤ n
      → n ≤ℤ pos 19
      → sub_i32 sys.debug_assertions (pos 20) n ≡ ok (pos 20 -ℤ n)
  unfolding sub_i32
  sub_i32_ok n lo hi = ground arith

  setpriority-eq_ok :
      (n : ℤ) (w w' : W)
      → negsuc 19 ≤ℤ n
      → n ≤ℤ pos 19
      → setpriority sys target (record { prio = n }) w ≡ (ok tt, w')
      → (k : ℕ) × (sys.psys_setpriority (which_of sys.libc target) (who_of target) (pos 20 -ℤ n) w
          ≡ (pos k, w'))
  unfolding setpriority
  setpriority-eq_ok n w w' lo hi h = unit-eq_ok sys _ w w' (rw (sub_i32_ok n lo hi) at h)

  reread_clamp : (n : ℤ) → negsuc 19 ≤ℤ n → n ≤ℤ pos 19 → clamp_nice (pos 20 -ℤ n) ≡ reread n
  reread_clamp n lo hi = ground arith

  getpriority-reread :
      (n : ℤ) (w : W)
      → sys.psys_getpriority (which_of sys.libc target) (who_of target) w
        ≡ (pos (pos_part (pos 20 -ℤ reread n)), w)
      → negsuc 19 ≤ℤ n
      → n ≤ℤ pos 19
      → getpriority sys target w ≡ (ok (record { prio = reread n }), w)
  getpriority-reread n w e lo hi =
      (getpriority_lem w w _ e (ground arith) (ground arith)).0 ∙ ground arith

  -- Over a kernel in which setpriority(2) sets the nice value itself, cut off at -20 and 19, and
  -- getpriority(2) answers 20 minus it (`NiceLaws`), a successful `setpriority` of a priority p
  -- from -20 to 19 has the effect that `getpriority` answers 19 if p ≤ 0 and 20 - p otherwise: p is
  -- read back for p = 10 only.
  pub getpriority-setpriority :
      (nice : W → ℤ) (n : ℤ) (w w' : W)
      → NiceLaws nice
      → negsuc 19 ≤ℤ n
      → n ≤ℤ pos 19
      → setpriority sys target (record { prio = n }) w ≡ (ok tt, w')
      → (getpriority sys target w' ≡ (ok (record { prio = reread n }), w'))
        × ((reread n ≡ n) ↔ (n ≡ pos 10))
  getpriority-setpriority nice n w w' laws lo hi h =
      let (k, e) = setpriority-eq_ok n w w' lo hi h in
      let set : nice w' ≡ reread n = laws.sets (pos 20 -ℤ n) w w' k e ∙ reread_clamp n lo hi in
      (
        getpriority-reread n w' (rw set at (laws.gets w')) lo hi,
        ((λ q. ground arith), (λ q. ground arith)),
      )
