-- ===== src/Lowlevel/Alloc/Rounding.antt =====
-- The rounding of a size to the alignment, in `alloc_obj` of src/lowlevel.rs.
use native.Mathlib.Nat.{mod-lt, mod_self, mod-add-mod}
use avfork.Base.{
  ℕ, ◌+◌, ◌-◌, ◌%◌, ◌^◌, ◌≤◌, ◌<◌, ◌≡◌, sym, ◌∙◌, ap, Bool, inl, inr, arith, ◌==◌, if◌then◌else◌,
  Bool-cases,
}
use avfork.Outcome.{ok}
use avfork.Lowlevel.Alloc.{add_usize, rounded_size}

-- The bytes up to the next multiple of the alignment.
abbrev pub padding : ℕ → ℕ → ℕ
padding align size = if size % align == 0 then 0 else align - size % align

padding-mod : (align size : ℕ) → 0 < align → (size + padding align size) % align ≡ 0
padding-mod align size p = elim (Bool-cases (size % align == 0)) [
  | inl even ↦ rw even (let e : size + 0 ≡ size = omega arith in rw e (ground arith))
  | inr odd ↦ rw odd (
      sym (mod-add-mod size align (align - size % align))
      ∙ ap (λ t. t % align) (omega (arith, mod-lt size p))
      ∙ mod_self align)
]

pub padding-lt : (align size : ℕ) → 0 < align → padding align size < align
padding-lt align size p = ground (arith, mod-lt size p)

pub rounded_size-padding :
    (checks : Bool) (align size : ℕ)
    → 0 < align
    → size + align ≤ 2 ^ 64
    → rounded_size checks align size ≡ ok (size + padding align size)
unfolding rounded_size add_usize
rounded_size-padding checks align size p fits = ground (arith, padding-lt align size p)

-- The rounded size is the least multiple of the alignment that is not below the size: it is a
-- multiple, and exceeds the size by less than the alignment. There is no overflow where the size
-- and the alignment add up to at most 2 ^ 64.
pub rounded_size_lem :
    (checks : Bool) (align size : ℕ)
    → 0 < align
    → size + align ≤ 2 ^ 64
    → (r : ℕ) × (rounded_size checks align size ≡ ok r)
      × (r % align ≡ 0)
      × (size ≤ r)
      × (r < size + align)
rounded_size_lem checks align size p fits = (
  size + padding align size,
  rounded_size-padding checks align size p fits,
  padding-mod align size p,
  omega arith,
  omega (arith, padding-lt align size p),
)
