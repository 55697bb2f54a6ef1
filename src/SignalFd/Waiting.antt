-- ===== src/SignalFd/Waiting.antt =====
-- `SigChldFd::wait` of src/SignalFd.rs, on a child that the task has collected.
use avfork.Base.{
  ℕ, suc, ◌<◌, ◌≡◌, ◌≢◌, refl, sym, ap, ◌∙◌, ◌⊎◌, inl, inr, subst, List, [], ◌∷◌, Option, none,
  some, All, Bool-cases, length, if◌then◌else◌,
}
use avfork.Base.Int.{ℤ, eqb_ℤ, eqb_ℤ_iff}
use avfork.Outcome.{ok}
use avfork.SignalFd.{SigInfo, ExitInfo, SignalLib, exit_info, reap, wait}
use avfork.SignalFd.Round.{record_all}
use avfork.SignalFd.Reap.{ReapLaws, reap_lem}

-- The newest entry of a process id.
abbrev pub lookup : ℤ → List (ℤ × ExitInfo) → Option ExitInfo
lookup pid [] = none
lookup pid ((p, info) ∷ rest) = if eqb_ℤ p pid then some info else lookup pid rest

abbrev pub IsIn : SigInfo → List SigInfo → Type 0
IsIn z [] = ⊥
IsIn z (y ∷ ys) = (z ≡ y) ⊎ IsIn z ys

-- No two of these children have the same process id.
abbrev pub IsDistinct : List SigInfo → Type 0
IsDistinct [] = Unit
IsDistinct (y ∷ ys) = All (λ z. z.si_pid ≢ y.si_pid) ys × IsDistinct ys

lookup-record_all_others :
    (pid : ℤ) (ys : List SigInfo) (entries : List (ℤ × ExitInfo))
    → All (λ y. y.si_pid ≢ pid) ys
    → lookup pid (record_all ys entries) ≡ lookup pid entries
lookup-record_all_others pid [] entries h = refl
lookup-record_all_others pid (y ∷ ys) entries (other, rest) =
    lookup-record_all_others pid ys ((y.si_pid, exit_info y) ∷ entries) rest
    ∙ elim (Bool-cases (eqb_ℤ y.si_pid pid)) [
      | inl same ↦ absurd (other ((eqb_ℤ_iff y.si_pid pid).0 same))
      | inr differs ↦ rw differs refl
    ]

pub lookup-record_all_first :
    (y : SigInfo) (ys : List SigInfo) (entries : List (ℤ × ExitInfo))
    → All (λ z. z.si_pid ≢ y.si_pid) ys
    → lookup y.si_pid (record_all (y ∷ ys) entries) ≡ some (exit_info y)
lookup-record_all_first y ys entries h =
    lookup-record_all_others y.si_pid ys ((y.si_pid, exit_info y) ∷ entries) h
    ∙ rw ((eqb_ℤ_iff y.si_pid y.si_pid).1 refl) refl

lookup-record_all :
    (z : SigInfo) (zs : List SigInfo) (entries : List (ℤ × ExitInfo))
    → IsIn z zs
    → IsDistinct zs
    → lookup z.si_pid (record_all zs entries) ≡ some (exit_info z)
lookup-record_all z [] entries h d = elim h [ ]
lookup-record_all z (y ∷ ys) entries (inl same) (apart, d) =
    subst (λ x. lookup x.si_pid (record_all (y ∷ ys) entries) ≡ some (exit_info x)) (sym same)
      (lookup-record_all_first y ys entries apart)
lookup-record_all z (y ∷ ys) entries (inr later) (apart, d) =
    lookup-record_all z ys ((y.si_pid, exit_info y) ∷ entries) later d

module _ {W : Type 0} (lib : SignalLib W) (entries : W → List (ℤ × ExitInfo)) where
  -- `WaitMap::wait` on a key that the map has: it answers the value that is there.
  pub record WaitLaws : Type 0 where
    pub answers :
        (pid : ℤ) (info : ExitInfo) (w : W)
        → lookup pid (entries w) ≡ some info
        → (w' : W) × (lib.map_wait pid w ≡ (some info, w'))

  pub wait-lookup :
      (fuel : ℕ) (pid : ℤ) (info : ExitInfo) (w : W)
      → WaitLaws
      → lookup pid (entries w) ≡ some info
      → (wait lib (suc fuel) pid w).0 ≡ ok info
  unfolding wait
  wait-lookup fuel pid info w laws h = let (w', e) = laws.answers pid info w h in rw (e, wait) refl

module _ {W : Type 0} (lib : SignalLib W) (zombies : W → List SigInfo) (alive : W → ℕ)
    (entries : W → List (ℤ × ExitInfo)) (echild : ℕ) where
  -- Once the task's inner loop has run over children with different process ids, `wait` answers for
  -- each of them, in its first round, exactly what waitid has told of that child. This is under
  -- `ReapLaws` and `WaitLaws`, with more fuel for the inner loop than children have ended.
  pub wait-reap :
      (fuel rounds : ℕ) (z : SigInfo) (w : W)
      → ReapLaws lib zombies alive entries echild
      → WaitLaws lib entries
      → length (zombies w) < fuel
      → IsIn z (zombies w)
      → IsDistinct (zombies w)
      → (wait lib (suc rounds) z.si_pid (reap lib fuel w).1).0 ≡ ok (exit_info z)
  wait-reap fuel rounds z w laws waits h member distinct =
      let (_, _, all) = reap_lem lib zombies alive entries echild fuel w laws h in
      wait-lookup lib entries rounds z.si_pid (exit_info z) (reap lib fuel w).1 waits
        (ap (lookup z.si_pid) all ∙ lookup-record_all z (zombies w) (entries w) member distinct)
