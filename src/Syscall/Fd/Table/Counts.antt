-- ===== src/Syscall/Fd/Table/Counts.antt =====
-- How often a descriptor is open, and how often it is in the boxes of a client of Table.
use avfork.Base.{
  ℕ, zero, suc, ◌+◌, ◌≤◌, ◌≡◌, refl, inl, inr, Bool, true, false, List, [], ◌∷◌, some, get_elem?,
  arith, Bool-cases,
}
use avfork.Base.Int.{ℤ, eqb_ℤ, eqb_ℤ_iff}
use avfork.Syscall.Fd.Ownership.{Box, box_up}
use avfork.Syscall.Fd.Table.{raw_fd, raw_fds, one, count, remove_at}

-- The open descriptors are those of the boxes and those of `base`, and each is there once.
pub record Owns (base : List ℤ) (owned : List Box) (fds : List ℤ) : Type 0 where
  pub balanced : (x : ℤ) → count x fds ≡ count x (raw_fds owned) + count x base
  pub distinct : (x : ℤ) → count x fds ≤ 1

pub count_self : (x : ℤ) → one x x ≡ 1
count_self x = rw ((eqb_ℤ_iff x x).1 refl) refl

-- A new number is counted at most once.
pub fresh_at_most_once :
    (y x : ℤ) (fds : List ℤ) → count y fds ≡ 0 → count x fds ≤ 1 → one x y + count x fds ≤ 1
fresh_at_most_once y x fds new once = elim (Bool-cases (eqb_ℤ y x)) [
  | inl same ↦ rw (same, ← (eqb_ℤ_iff y x).0 same, new) (omega arith)
  | inr other ↦ rw other (omega arith)
]

pub count-remove_at :
    (i : ℕ) (owned : List Box) (b : Box) (x : ℤ)
    → get_elem? owned i ≡ some b
    → one x (raw_fd b) + count x (raw_fds (remove_at i owned)) ≡ count x (raw_fds owned)
count-remove_at i [] b x e = cc
count-remove_at zero (c ∷ cs) b x e = let same : c ≡ b = ground arith in rw same refl
count-remove_at (suc i) (c ∷ cs) b x e = omega (arith, count-remove_at i cs b x e)

pub Owns-more :
    (base : List ℤ) (owned : List Box) (b : Box) (y : ℤ) (fds : List ℤ)
    → raw_fd b ≡ y
    → count y fds ≡ 0
    → Owns base owned fds
    → Owns base (b ∷ owned) (y ∷ fds)
Owns-more base owned b y fds e new own = record {
  balanced = λ x. rw e (omega (arith, own.balanced x));
  distinct = λ x. fresh_at_most_once y x fds new (own.distinct x);
}

pub Owns-less :
    (base : List ℤ) (owned : List Box) (i : ℕ) (b : Box) (fds fds' : List ℤ)
    → get_elem? owned i ≡ some b
    → ((x : ℤ) → one x (raw_fd b) + count x fds' ≡ count x fds)
    → Owns base owned fds
    → Owns base (remove_at i owned) fds'
Owns-less base owned i b fds fds' e closed own = record {
  balanced = λ x. omega (arith, own.balanced x, closed x, count-remove_at i owned b x e);
  distinct = λ x. omega (arith, own.distinct x, closed x);
}

pub raw_fd-box_up : (path : Bool) (fd : ℤ) → raw_fd (box_up path fd) ≡ fd
raw_fd-box_up true fd = refl
raw_fd-box_up false fd = refl

pub not_same : (r s : ℤ) → eqb_ℤ r s ≡ false → eqb_ℤ s r ≡ false
not_same r s apart = elim (Bool-cases (eqb_ℤ s r)) [
  | inl same ↦
      let equal : s ≡ r = (eqb_ℤ_iff s r).0 same in
      let self : eqb_ℤ r r ≡ true = (eqb_ℤ_iff r r).1 refl in cc
  | inr other ↦ other
]
