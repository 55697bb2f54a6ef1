-- ===== src/Syscall/Restart.antt =====
-- `autorestart` of src/syscall.rs: run a call again for as long as it is interrupted.
use avfork.Base.{ℕ, zero, suc, ◌<◌, ◌≡◌, refl, ◌∙◌, ◌≢◌, ◌↔◌, subst, Bool, true, false, arith}
use avfork.Base.Int.{pos, eqb_ℤ, eqb_ℤ_iff}
use avfork.Outcome.{Outcome, ok, err, out_of_fuel, Sys}
use avfork.Error.{get_errno}

-- The test `err.get_errno() == libc::EINTR` on a result.
unfoldable pub is_interrupted {ℓ} : {A : Type ℓ} → ℕ → Outcome A → Bool
unfolding get_errno
is_interrupted eintr (err e) = eqb_ℤ (get_errno e) (pos eintr)
is_interrupted eintr (ok _) = false
is_interrupted eintr _ = false

-- A result that is the error EINTR, and one that is not.
abbrev pub IsInterrupted {ℓ} : {A : Type ℓ} → ℕ → Outcome A → Type 0
IsInterrupted eintr (err e) = get_errno e ≡ pos eintr
IsInterrupted eintr (ok _) = ⊥
IsInterrupted eintr _ = ⊥

abbrev pub IsSettled {ℓ} : {A : Type ℓ} → ℕ → Outcome A → Type 0
IsSettled eintr (err e) = get_errno e ≢ pos eintr
IsSettled eintr (ok _) = Unit
IsSettled eintr _ = Unit

is_interrupted-true_iff :
    {A : Type 0} (eintr : ℕ) (o : Outcome A)
    → (is_interrupted eintr o ≡ true) ↔ IsInterrupted eintr o
unfolding is_interrupted
is_interrupted-true_iff eintr (err e) = eqb_ℤ_iff (get_errno e) (pos eintr)
is_interrupted-true_iff eintr (ok a) = (λ h. cc, λ h. elim h [ ])
is_interrupted-true_iff eintr _ = (λ h. cc, λ h. elim h [ ])

-- A test that decides a claim is false where the claim is.
false_iff : {P : Type 0} (b : Bool) → (b ≡ true) ↔ P → (b ≡ false) ↔ (P → ⊥)
false_iff true i = (λ h. cc, λ n. absurd (n (i.0 refl)))
false_iff false i = (λ h p. let q : false ≡ true = i.1 p in cc, λ n. refl)

is_interrupted-false_iff :
    {A : Type 0} (eintr : ℕ) (o : Outcome A) → (is_interrupted eintr o ≡ false) ↔ IsSettled eintr o
unfolding is_interrupted
is_interrupted-false_iff eintr (err e) = false_iff _ (eqb_ℤ_iff (get_errno e) (pos eintr))
is_interrupted-false_iff eintr (ok a) = (λ h. tt, λ h. refl)
is_interrupted-false_iff eintr _ = (λ h. tt, λ h. refl)

module _ {W A : Type 0} (eintr : ℕ) (f : Sys W A) where
  -- The loop, with fuel for its rounds.
  unfoldable pub autorestart : ℕ → Sys W A
  autorestart zero w = (out_of_fuel, w)
  autorestart (suc fuel) w =
      let (ret, w') = f w in
      elim (is_interrupted eintr ret) [ true ↦ autorestart fuel w' | false ↦ (ret, w') ]

  -- The behaviour of the loop, with no fuel: `n` interrupted calls of `f`, then one that is not.
  pub data Restarts : W → ℕ → Outcome A × W → Type 0 where
    finish :
        {w w' : W} {ret : Outcome A}
        → f w ≡ (ret, w')
        → IsSettled eintr ret
        → Restarts w 0 (ret, w')
    again :
        {w w' : W} {ret : Outcome A} {n : ℕ} {end : Outcome A × W}
        → f w ≡ (ret, w')
        → IsInterrupted eintr ret
        → Restarts w' n end
        → Restarts w (suc n) end

  autorestart_finish :
      (fuel : ℕ) (w : W) {end : Outcome A × W}
      → f w ≡ end
      → is_interrupted eintr end.0 ≡ false
      → autorestart (suc fuel) w ≡ end
  unfolding autorestart
  autorestart_finish fuel w e =
      subst (λ t. is_interrupted eintr t.0 ≡ false → autorestart (suc fuel) w ≡ t) e
        (λ stop. rw (autorestart, stop))

  autorestart_again :
      (fuel : ℕ) (w : W) {next : Outcome A × W}
      → f w ≡ next
      → is_interrupted eintr next.0 ≡ true
      → autorestart (suc fuel) w ≡ autorestart fuel next.1
  unfolding autorestart
  autorestart_again fuel w e =
      subst (λ t. is_interrupted eintr t.0 ≡ true → autorestart (suc fuel) w ≡ autorestart fuel t.1)
        e (λ more. rw (autorestart, more))

  autorestart-Restarts :
      {w : W} {n : ℕ} {end : Outcome A × W} (fuel : ℕ)
      → n < fuel
      → Restarts w n end
      → autorestart fuel w ≡ end
  autorestart-Restarts zero h r = absurd (omega arith)
  autorestart-Restarts {w} (suc fuel) h (finish e stop) =
      autorestart_finish fuel w e ((is_interrupted-false_iff eintr _).1 stop)
  autorestart-Restarts {w} (suc fuel) h (again {w' = w'} e more r) =
      autorestart_again fuel w e ((is_interrupted-true_iff eintr _).1 more)
      ∙ autorestart-Restarts {w = w'} fuel (omega arith) r

  Restarts-autorestart :
      (fuel : ℕ) (w : W)
      → (autorestart fuel w).0 ≢ out_of_fuel
      → (n : ℕ) × (n < fuel) × Restarts w n (autorestart fuel w)
  unfolding autorestart
  Restarts-autorestart zero w h = absurd (h refl)
  Restarts-autorestart (suc fuel) w h =
      split (Restarts-autorestart fuel (f w).1) (is_interrupted eintr (f w).0) refl h
    where
      split :
          ((autorestart fuel (f w).1).0 ≢ out_of_fuel
            → (n : ℕ) × (n < fuel) × Restarts (f w).1 n (autorestart fuel (f w).1))
          → (b : Bool) → is_interrupted eintr (f w).0 ≡ b
          → (elim b as (λ _. Outcome A × W) [ true ↦ autorestart fuel (f w).1 | false ↦ f w ]).0
            ≢ out_of_fuel
          → (n : ℕ) × (n < suc fuel)
            × Restarts w n
                (elim b as (λ _. Outcome A × W) [ true ↦ autorestart fuel (f w).1 | false ↦ f w ])
      split ih true e k =
          let (n, h, r) = ih k in
          (suc n, omega arith, again refl ((is_interrupted-true_iff eintr _).0 e) r)
      split ih false e k = (0, omega arith, finish refl ((is_interrupted-false_iff eintr _).0 e))

  -- The loop ends in `end`, which is not the end of its fuel, exactly when, after fewer
  -- interruptions than it has fuel, a call ends in `end` and not with the error EINTR.
  pub autorestart_iff :
      (fuel : ℕ) (w : W) (end : Outcome A × W)
      → end.0 ≢ out_of_fuel
      → (autorestart fuel w ≡ end) ↔ ((n : ℕ) × (n < fuel) × Restarts w n end)
  autorestart_iff fuel w end h = (
    λ e.
        subst (λ t. (n : ℕ) × (n < fuel) × Restarts w n t) e (Restarts-autorestart fuel w (rw e h)),
    λ (n, k, r). autorestart-Restarts fuel k r,
  )
