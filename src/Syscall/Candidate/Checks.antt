-- ===== src/Syscall/Candidate/Checks.antt =====
-- What the constructors of src/syscall.rs accept: `CStrArray::new`, `Filename::new`,
-- `ExecvelCandidate::new`.
use avfork.Base.{
  ℕ, ◌+◌, ◌≤◌, ◌≡◌, refl, ◌↔◌, ◌≢◌, inl, inr, true, false, List, [], ◌∷◌, Option, none, some, arith,
  All, length, Bool-cases,
}
use avfork.Outcome.{ok}
use avfork.Kernel.{Bytes}
use avfork.Syscall.Candidate.{
  CStrArray, last_is_null, new_cstr_array, pointed_strings, path_max, filename_max, Filename,
  has_slash, new_filename, ExecvelCandidate, refuses, new_candidate,
}

-- The pointers in front of the first null one.
abbrev pub before_null : List (Option Bytes) → List Bytes
before_null [] = []
before_null (none ∷ ps) = []
before_null (some s ∷ ps) = s ∷ before_null ps

pointed_strings-before_null :
    (arr : List (Option Bytes))
    → last_is_null arr ≡ true
    → pointed_strings arr ≡ ok (before_null arr)
unfolding last_is_null pointed_strings
pointed_strings-before_null [] h = cc
pointed_strings-before_null (none ∷ ps) h = refl
pointed_strings-before_null (some s ∷ []) h = cc
pointed_strings-before_null (some s ∷ q ∷ ps) h = rw (pointed_strings-before_null (q ∷ ps) h)

-- An array that `CStrArray::new` accepts is read without running off its end: the callee finds the
-- strings in front of the first null pointer.
pub pointed_strings-new :
    (arr : List (Option Bytes)) (a : CStrArray)
    → new_cstr_array arr ≡ some a
    → pointed_strings a.arr ≡ ok (before_null arr)
unfolding new_cstr_array
pointed_strings-new arr a h = elim (Bool-cases (last_is_null arr)) [
  | inl ends ↦ let e : arr ≡ a.arr = ground arith in rw (← e) (pointed_strings-before_null arr ends)
  | inr open_ended ↦ ground arith
]

has_slash_iff : (s : Bytes) → (has_slash s ≡ false) ↔ All (λ b. b ≢ b'/') s
unfolding has_slash
has_slash_iff [] = (λ _. tt, λ _. refl)
has_slash_iff (b ∷ bs) =
    (λ h. ground (arith, (has_slash_iff bs).0), λ h. ground (arith, (has_slash_iff bs).1))

-- `Filename::new` accepts exactly the names of 1 to 255 bytes with no slash, and keeps them.
pub new_filename_iff :
    (s : Bytes) (f : Filename)
    → (new_filename s ≡ some f)
      ↔ ((1 ≤ length s) × (length s ≤ filename_max) × All (λ b. b ≢ b'/') s × (f.filename ≡ s))
unfolding new_filename
new_filename_iff s f =
    (λ h. ground (arith, (has_slash_iff s).0), λ h. ground (arith, (has_slash_iff s).1))

-- A path that fits in front of a filename of the given length.
abbrev pub IsSearchable : ℕ → Bytes → Type 0
IsSearchable filename_sz path = (1 ≤ length path) × (filename_sz + length path + 2 ≤ path_max)

refuses_iff : (n : ℕ) (paths : List Bytes) → (refuses n paths ≡ false) ↔ All (IsSearchable n) paths
unfolding refuses
refuses_iff n [] = (λ _. tt, λ _. refl)
refuses_iff n (p ∷ ps) =
    (λ h. ground (arith, (refuses_iff n ps).0), λ h. ground (arith, (refuses_iff n ps).1))

-- `ExecvelCandidate::new` accepts exactly a list of paths that is not empty, in which no path is
-- empty and each leaves room for a slash, the filename and a NUL in PATH_MAX bytes.
pub new_candidate_iff :
    (f : Filename) (paths : List Bytes) (c : ExecvelCandidate)
    → (new_candidate f paths ≡ some c) ↔ (
        (paths ≢ [])
        × All (IsSearchable (length f.filename)) paths
        × (c.file ≡ f)
        × (c.paths ≡ paths))
unfolding new_candidate
new_candidate_iff f [] c = (λ h. ground arith, λ h. absurd (h.0 refl))
new_candidate_iff f (p ∷ ps) c = (
  λ h. ground (arith, (refuses_iff (length f.filename) (p ∷ ps)).0),
  λ h. ground (arith, (refuses_iff (length f.filename) (p ∷ ps)).1),
)
