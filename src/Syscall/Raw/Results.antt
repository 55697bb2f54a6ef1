-- ===== src/Syscall/Raw/Results.antt =====
-- How the wrappers of src/syscall.rs report the result code of the kernel.
use avfork.Base.{ℕ, suc, ◌^◌, ◌<◌, ◌≡◌, refl, ◌∙◌, ◌⊎◌, inl, inr, List, length, arith}
use avfork.Base.Int.{ℤ, pos, negsuc, IsI32}
use avfork.Outcome.{Outcome, ok, err, continue_with, pure, ◌>>◌, Sys}
use avfork.Kernel.{Kernel, Bytes}
use avfork.Error.{to_result}
use avfork.Error.Codes.{to_result_negative, to_result_nonneg}
use avfork.Syscall.Raw.{syscall, fchdir, chdir, setresuid, setresgid, setgroups, sched_setparam}

-- `o` reports the code `r`: a code from 0 on as a success, one below as the error -r.
abbrev pub Reports : {A : Type 0} → ℤ → (ℕ → A) → Outcome A → Type 0
Reports (pos n) value o = o ≡ ok (value n)
Reports (negsuc n) value o = o ≡ err (record { errno = suc n })

module _ {W : Type 0} (sys : Kernel W) where
  -- The two ways in which a call can end, for a C function that returns an int.
  pub syscall-cases :
      (f : W → ℤ × W) (w : W)
      → IsI32 (f w).0
      → ((n : ℕ) × (w' : W) × (f w ≡ (pos n, w')) × (n < 2 ^ 31) × (syscall sys f w ≡ (ok n, w')))
        ⊎ ((n : ℕ) × (w' : W) × (f w ≡ (negsuc n, w'))
            × (n < 2 ^ 31)
            × (syscall sys f w ≡ (err (record { errno = suc n }), w')))
  unfolding syscall
  syscall-cases f w h = split (f w) refl h
    where
      split :
          (p : ℤ × W)
          → f w ≡ p
          → IsI32 p.0
          → ((n : ℕ) × (w' : W) × (p ≡ (pos n, w')) × (n < 2 ^ 31) × (syscall sys f w ≡ (ok n, w')))
            ⊎ ((n : ℕ) × (w' : W) × (p ≡ (negsuc n, w'))
                × (n < 2 ^ 31)
                × (syscall sys f w ≡ (err (record { errno = suc n }), w')))
      split (pos n, w') e b =
          inl (n, w', refl, b.0, rw (e, to_result_nonneg sys.debug_assertions n) refl)
      split (negsuc n, w') e b =
          inr (n, w', refl, b.1, rw (e, to_result_negative sys.debug_assertions n b.1) refl)

  pub syscall_ok :
      (f : W → ℤ × W) (w w' : W) (n : ℕ) → f w ≡ (pos n, w') → syscall sys f w ≡ (ok n, w')
  unfolding syscall
  syscall_ok f w w' n e = rw (e, syscall, to_result_nonneg sys.debug_assertions n) refl

  pub syscall_err :
      (f : W → ℤ × W) (w w' : W) (n : ℕ)
      → n < 2 ^ 31
      → f w ≡ (negsuc n, w')
      → syscall sys f w ≡ (err (record { errno = suc n }), w')
  unfolding syscall
  syscall_err f w w' n small e =
      rw (e, syscall, to_result_negative sys.debug_assertions n small) refl

  -- A call that has succeeded comes from a code that is not negative.
  pub syscall-eq_ok :
      (f : W → ℤ × W) (w w' : W) (n : ℕ) → syscall sys f w ≡ (ok n, w') → f w ≡ (pos n, w')
  unfolding syscall to_result
  syscall-eq_ok f w w' n = split (f w)
    where
      split :
          (p : ℤ × W)
          → ◌≡◌ {A = Outcome ℕ × W} (to_result sys.debug_assertions p.0, p.1) (ok n, w')
          → p ≡ (pos n, w')
      split (pos m, v) h = ground arith
      split (negsuc m, v) h = ground arith

  -- The same for a wrapper that reports only the success.
  pub unit-eq_ok :
      (f : W → ℤ × W) (w w' : W)
      → (syscall sys f >> pure tt) w ≡ (ok tt, w')
      → (n : ℕ) × (f w ≡ (pos n, w'))
  unit-eq_ok f w w' = split (syscall sys f w) refl
    where
      split :
          (p : Outcome ℕ × W)
          → syscall sys f w ≡ p
          → continue_with p.0 (λ _. pure tt) p.1 ≡ (ok tt, w')
          → (n : ℕ) × (f w ≡ (pos n, w'))
      split (ok n, v) e h = (n, syscall-eq_ok f w w' n (e ∙ ground arith))
      split (err x, v) e h = ground arith
      split (_, v) e h = ground arith

-- The wrappers that only report success, with their arguments.
pub data UnitCall : Type 0 where
  fchdirs : ℤ → UnitCall
  chdirs : Bytes → UnitCall
  setresuids : ℕ → ℕ → ℕ → UnitCall
  setresgids : ℕ → ℕ → ℕ → UnitCall
  sets_groups : List ℕ → UnitCall
  sched_setparams : ℤ → ℤ → UnitCall

module _ {W : Type 0} (sys : Kernel W) where
  abbrev pub unit_call : UnitCall → Sys W (Unit {0})
  unit_call (fchdirs fd) = fchdir sys fd
  unit_call (chdirs pathname) = chdir sys pathname
  unit_call (setresuids r e s) = setresuid sys r e s
  unit_call (setresgids r e s) = setresgid sys r e s
  unit_call (sets_groups list) = setgroups sys list
  unit_call (sched_setparams pid param) = sched_setparam sys pid param

  -- The system call behind each.
  abbrev pub unit_raw : UnitCall → W → ℤ × W
  unit_raw (fchdirs fd) = sys.psys_fchdir fd
  unit_raw (chdirs pathname) = sys.psys_chdir pathname
  unit_raw (setresuids r e s) = sys.psys_setresuid r e s
  unit_raw (setresgids r e s) = sys.psys_setresgid r e s
  unit_raw (sets_groups list) = sys.psys_setgroups (length list) list
  unit_raw (sched_setparams pid param) = sys.psys_sched_setparam pid param

  Reports-unit :
      (f : W → ℤ × W) (r : ℤ) (w w' : W)
      → f w ≡ (r, w')
      → IsI32 r
      → Reports r (λ _. tt) ((syscall sys f >> pure tt) w).0
        × (((syscall sys f >> pure tt) w).1 ≡ w')
  Reports-unit f (pos n) w w' e h = rw (syscall_ok sys f w w' n e) (refl, refl)
  Reports-unit f (negsuc n) w w' e h = rw (syscall_err sys f w w' n h.1 e) (refl, refl)

  -- `fchdir`, `chdir`, `setresuid`, `setresgid`, `setgroups` and `sched_setparam` each make one
  -- system call with their arguments as they are, `setgroups` with the length of its list; a code
  -- from 0 on is a success, a negative one the error of that number, and the world is the one after
  -- the call. The code is to be a c_int.
  pub unit_call-Reports :
      (c : UnitCall) (r : ℤ) (w w' : W)
      → unit_raw c w ≡ (r, w')
      → IsI32 r
      → Reports r (λ _. tt) (unit_call c w).0 × ((unit_call c w).1 ≡ w')
  unfolding fchdir chdir setresuid setresgid setgroups sched_setparam
  unit_call-Reports (fchdirs fd) r w w' e h = Reports-unit _ r w w' e h
  unit_call-Reports (chdirs pathname) r w w' e h = Reports-unit _ r w w' e h
  unit_call-Reports (setresuids a b c) r w w' e h = Reports-unit _ r w w' e h
  unit_call-Reports (setresgids a b c) r w w' e h = Reports-unit _ r w w' e h
  unit_call-Reports (sets_groups list) r w w' e h = Reports-unit _ r w w' e h
  unit_call-Reports (sched_setparams pid param) r w w' e h = Reports-unit _ r w w' e h
