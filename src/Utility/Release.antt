-- ===== src/Utility/Release.antt =====
-- `release` of Utility, the common part of the drops of descriptors and of stacks.
use avfork.Base.{
  ℕ, suc, ◌+◌, ◌^◌, ◌<◌, ◌≡◌, refl, sym, subst, Bool, true, false, List, ◌∷◌, ◌++◌, codes, length,
  All, Bool-cases, inl, inr, if◌then◌else◌,
}
use avfork.Base.Int.{ℤ, pos, negsuc, IsI32}
use avfork.Outcome.{SyscallError, Outcome, ok, pure, continue_with, ◌>>◌}
use avfork.Kernel.{Kernel, Bytes}
use avfork.Error.Codes.{to_result_nonneg, to_result_negative}
use avfork.Syscall.Io.WriteAll.{WriteLaws}
use avfork.Utility.{fatal_text, expect_fmt, errx_impl, release}
use avfork.Utility.Fatal.{Exits, errx_impl-Exits}

module _ {W : Type 0} (sys : Kernel W) where
  release_quietly :
      (fuel : ℕ) (debug : SyscallError → List Bytes) (args : List Bytes) (f : W → ℤ × W) (r : ℤ)
      (w w' : W)
      → f w ≡ (r, w')
      → sys.debug_assertions ≡ false
      → release sys fuel debug args f w ≡ (ok tt, w')
  unfolding release
  release_quietly fuel debug args f r w w' e off = rw (e, release, off) refl

  -- A release that works, in either build.
  pub release_done :
      (fuel : ℕ) (debug : SyscallError → List Bytes) (args : List Bytes) (f : W → ℤ × W) (n : ℕ)
      (w w' : W)
      → f w ≡ (pos n, w')
      → release sys fuel debug args f w ≡ (ok tt, w')
  unfolding release expect_fmt
  release_done fuel debug args f n w w' e = elim (Bool-cases sys.debug_assertions) [
    | inl on ↦ rw (e, release, on, to_result_nonneg true n) refl
    | inr off ↦ release_quietly fuel debug args f (pos n) w w' e off
  ]

module _ {W : Type 0} (sys : Kernel W) (stream : W → Bytes) (interruptions : W → ℕ)
    (laws : WriteLaws sys (pos 2) stream interruptions) where
  -- The message of a release that fails.
  abbrev pub release_text : List Bytes → List Bytes → List Bytes
  release_text args debug = fatal_text (args ++ (codes ": " ∷ debug))

  -- How a release ends after a call that has answered `r`.
  abbrev pub Released :
      ℤ → (SyscallError → List Bytes) → List Bytes → W → Outcome (Unit {0}) × W → Type 0
  Released (pos n) debug args w' r = r ≡ (ok tt, w')
  Released (negsuc n) debug args w' r =
      if sys.debug_assertions
      then Exits sys stream interruptions laws (pos 1)
          (release_text args (debug (record { errno = suc n }))) w' r
      else r ≡ (ok tt, w')

  by_test : (b : Bool) (P Q : Type 0) → (b ≡ true → P) → (b ≡ false → Q) → if b then P else Q
  by_test true P Q on off = on refl
  by_test false P Q on off = off refl

  release_failed :
      (fuel : ℕ) (debug : SyscallError → List Bytes) (args : List Bytes) (f : W → ℤ × W) (n : ℕ)
      (w w' : W)
      → f w ≡ (negsuc n, w')
      → n < 2 ^ 31
      → sys.debug_assertions ≡ true
      → release sys fuel debug args f w
        ≡ (errx_impl sys fuel {A = ℕ}
                (pos 1)
                (args ++ (codes ": " ∷ debug (record { errno = suc n })))
              >> pure tt)
            w'
  unfolding release expect_fmt
  release_failed fuel debug args f n w w' e small on =
      simp (e, release, on, to_result_negative true n small)

  Exits-pure :
      (text : List Bytes) (w : W) (r : Outcome ℕ × W)
      → Exits sys stream interruptions laws (pos 1) text w r
      → Exits sys stream interruptions laws {A = Unit {0}}
          (pos 1)
          text
          w
          (continue_with r.0 (λ _. pure tt) r.1)
  Exits-pure text w r (v, o, e, d) = (v, o, rw e refl, d)

  pub release-Released :
      (fuel : ℕ) (debug : SyscallError → List Bytes) (args : List Bytes) (f : W → ℤ × W) (r : ℤ)
      (w w' : W)
      → f w ≡ (r, w')
      → IsI32 r
      → ((e : SyscallError)
          → All (λ p. length p + interruptions w' < fuel) (release_text args (debug e)))
      → Released r debug args w' (release sys fuel debug args f w)
  release-Released fuel debug args f (pos n) w w' e h enough =
      release_done sys fuel debug args f n w w' e
  release-Released fuel debug args f (negsuc n) w w' e h enough =
      by_test sys.debug_assertions _ _
        (λ on.
          subst
            (Exits sys stream interruptions laws (pos 1)
              (release_text args (debug (record { errno = suc n }))) w')
            (sym (release_failed fuel debug args f n w w' e h.1 on))
            (Exits-pure (release_text args (debug (record { errno = suc n }))) w' _
              (errx_impl-Exits sys stream interruptions laws fuel (pos 1) _ w' (enough _))))
        (λ off. release_quietly sys fuel debug args f (negsuc n) w w' e off)
