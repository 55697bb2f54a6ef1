-- ===== src/Utility/CStrings.antt =====
-- `to_cstr` of src/utility.rs, which hands its argument to `CStr::from_bytes_with_nul`.
use avfork.Base.{
  ℕ, ◌≡◌, ◌≢◌, refl, ap, subst, ◌∙◌, ◌↔◌, false, inl, inr, [], ◌∷◌, ◌++◌, some, All, arith, ◌==◌,
  Bool-cases, Option-cases,
}
use avfork.Kernel.{Bytes}
use avfork.Utility.{to_cstr}

-- A C string that is terminated is accepted, and its bytes are kept.
to_cstr-append : (s : Bytes) → All (λ b. b ≢ 0) s → to_cstr (s ++ (0 ∷ [])) ≡ some s
unfolding to_cstr
to_cstr-append [] h = refl
to_cstr-append (b ∷ s) (n, h) =
    let e : (b == 0) ≡ false = ground arith in rw (e, to_cstr, to_cstr-append s h) refl

IsText-cons :
    (b : ℕ) (bs t s : Bytes)
    → b ≢ 0
    → some (b ∷ t) ≡ some s
    → (bs ≡ t ++ (0 ∷ [])) × All (λ c. c ≢ 0) t
    → (b ∷ bs ≡ s ++ (0 ∷ [])) × All (λ c. c ≢ 0) s
IsText-cons b bs t s n e (same, h) =
    let q : b ∷ t ≡ s = ground arith in
    subst (λ u. (b ∷ bs ≡ u ++ (0 ∷ [])) × All (λ c. c ≢ 0) u) q (ap (λ l. b ∷ l) same, (n, h))

to_cstr_other :
    (b : ℕ) (bs s : Bytes)
    → b ≢ 0
    → to_cstr (b ∷ bs) ≡ some s
    → (t : Bytes) × (to_cstr bs ≡ some t) × (some (b ∷ t) ≡ some s)
unfolding to_cstr
to_cstr_other b bs s n h = elim (Option-cases (to_cstr bs)) [
  | inl refused ↦
      let e : (b == 0) ≡ false = ground arith in absurd (ground (arith, (rw (e, refused) at h)))
  | inr (t, accepted) ↦
      let e : (b == 0) ≡ false = ground arith in (t, accepted, rw (e, accepted) at h)
]

to_cstr_nul :
    (b : ℕ) (bs s : Bytes)
    → b ≡ 0
    → to_cstr (b ∷ bs) ≡ some s
    → (b ∷ bs ≡ s ++ (0 ∷ [])) × All (λ c. c ≢ 0) s
unfolding to_cstr
to_cstr_nul b [] [] z h = (ap (λ c. c ∷ []) z, tt)
to_cstr_nul b [] (c ∷ s) z h = ground arith
to_cstr_nul b (c ∷ bs) s z h = ground arith

to_cstr-eq_some : (bs s : Bytes) → to_cstr bs ≡ some s → (bs ≡ s ++ (0 ∷ [])) × All (λ b. b ≢ 0) s
unfolding to_cstr
to_cstr-eq_some [] s h = cc
to_cstr-eq_some (b ∷ bs) s h = elim (Bool-cases (b == 0)) [
  | inl nul ↦ to_cstr_nul b bs s (ground arith) h
  | inr other ↦
      let (t, accepted, e) = to_cstr_other b bs s (ground arith) h in
      IsText-cons b bs t s (ground arith) e (to_cstr-eq_some bs t accepted)
]

-- `to_cstr` accepts exactly a text without NULs and one NUL behind it, and answers that text.
pub to_cstr_iff :
    (bs s : Bytes) → (to_cstr bs ≡ some s) ↔ ((bs ≡ s ++ (0 ∷ [])) × All (λ b. b ≢ 0) s)
to_cstr_iff bs s = (to_cstr-eq_some bs s, λ (e, h). ap to_cstr e ∙ to_cstr-append s h)
