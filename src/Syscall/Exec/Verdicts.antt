-- ===== src/Syscall/Exec/Verdicts.antt =====
-- What the error of an attempt says, in the `match` of `execvel` and `fexecvel` (src/syscall.rs).
use avfork.Base.{
  ℕ, ◌≡◌, ◌≢◌, ◌⊎◌, inl, inr, subst, true, false, List, [], ◌∷◌, All, Bool-cases, if◌then◌else◌,
}
use avfork.Base.Int.{ℤ, pos, eqb_ℤ, eqb_ℤ_iff}
use avfork.Outcome.{SyscallError}
use avfork.Kernel.{Kernel}
use avfork.Error.{get_errno}
use avfork.Syscall.Exec.{Verdict, denied, missing, fatal, verdict}

abbrev pub IsOneOf : ℤ → List ℕ → Type 0
IsOneOf x [] = ⊥
IsOneOf x (m ∷ ms) = (x ≡ pos m) ⊎ IsOneOf x ms

-- The tests for these numbers one after the other, and what their result says.
abbrev chain : ℤ → List ℕ → Verdict
chain x [] = fatal
chain x (m ∷ ms) = if eqb_ℤ x (pos m) then missing else chain x ms

abbrev Chained : ℤ → List ℕ → Verdict → Type 0
Chained x ms denied = ⊥
Chained x ms missing = IsOneOf x ms
Chained x ms fatal = All (λ m. x ≢ pos m) ms

Chained-cons :
    (x : ℤ) (m : ℕ) (ms : List ℕ) (v : Verdict) → x ≢ pos m → Chained x ms v → Chained x (m ∷ ms) v
Chained-cons x m ms denied n c = c
Chained-cons x m ms missing n c = inr c
Chained-cons x m ms fatal n c = (n, c)

differs : (x : ℤ) (m : ℕ) → eqb_ℤ x (pos m) ≡ false → x ≢ pos m
differs x m h e = let q : eqb_ℤ x (pos m) ≡ true = (eqb_ℤ_iff x (pos m)).1 e in cc

chain-Chained : (x : ℤ) (ms : List ℕ) → Chained x ms (chain x ms)
chain-Chained x [] = tt
chain-Chained x (m ∷ ms) = elim (Bool-cases (eqb_ℤ x (pos m))) [
  | inl same ↦ rw same (inl ((eqb_ℤ_iff x (pos m)).0 same))
  | inr other ↦ rw other (Chained-cons x m ms (chain x ms) (differs x m other) (chain-Chained x ms))
]

module _ {W : Type 0} (sys : Kernel W) where
  -- The errors that say that the file is not there, or cannot be run by us.
  abbrev pub not_here : List ℕ
  not_here = sys.enoent ∷ sys.estale ∷ sys.enotdir ∷ sys.enodev ∷ sys.etimedout ∷ []

  abbrev pub IsDenied : SyscallError → Type 0
  IsDenied e = get_errno e ≡ pos sys.eacces

  abbrev pub IsNotHere : SyscallError → Type 0
  IsNotHere e = (get_errno e ≢ pos sys.eacces) × IsOneOf (get_errno e) not_here

  abbrev pub IsOther : SyscallError → Type 0
  IsOther e = (get_errno e ≢ pos sys.eacces) × All (λ m. get_errno e ≢ pos m) not_here

  -- The meaning of a verdict.
  abbrev pub Means : SyscallError → Verdict → Type 0
  Means e denied = IsDenied e
  Means e missing = IsNotHere e
  Means e fatal = IsOther e

  Chained-Means :
      (e : SyscallError) (v : Verdict)
      → get_errno e ≢ pos sys.eacces
      → Chained (get_errno e) not_here v
      → Means e v
  Chained-Means e denied n c = elim c [ ]
  Chained-Means e missing n c = (n, c)
  Chained-Means e fatal n c = (n, c)

  pub verdict-Means : (e : SyscallError) → Means e (verdict sys e)
  unfolding verdict
  verdict-Means e = elim (Bool-cases (eqb_ℤ (get_errno e) (pos sys.eacces))) [
    | inl same ↦ rw same ((eqb_ℤ_iff (get_errno e) (pos sys.eacces)).0 same)
    | inr other ↦ rw other (
        Chained-Means e (chain (get_errno e) not_here) (differs (get_errno e) sys.eacces other)
          (chain-Chained (get_errno e) not_here))
  ]

  pub verdict-eq_Means : (e : SyscallError) (v : Verdict) → verdict sys e ≡ v → Means e v
  verdict-eq_Means e v h = subst (Means e) h (verdict-Means e)
