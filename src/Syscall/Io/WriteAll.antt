-- ===== src/Syscall/Io/WriteAll.antt =====
-- The loop of `write_all` over `Fd::write`: short writes and interruptions lose no byte.
use avfork.Base.{
  ℕ, zero, suc, ◌+◌, ◌^◌, ◌≤◌, ◌<◌, ◌≡◌, sym, ◌∙◌, ap, inl, inr, [], ◌∷◌, ◌++◌, append_assoc,
  append-nil, Option, none, some, arith, length, length-drop, take, drop, take-append-drop,
  take-add, drop-add, subst, refl, false, le→leb, Bool-cases,
}
use avfork.Base.Int.{ℤ, pos, negsuc, IsI32, eqb_ℤ, to_i32}
use avfork.Outcome.{Outcome, ok, err, Sys}
use avfork.Kernel.{Kernel, Bytes}
use avfork.Error.{get_errno}
use avfork.Syscall.Raw.Results.{syscall-cases}
use avfork.Syscall.Io.{IoError, os, write_zero, io_error, write, after_write, write_all}

module _ {W : Type 0} (sys : Kernel W) (fd : ℤ) where
  -- What write(2) promises of a descriptor: the first `n` bytes go to its stream where `n` is
  -- returned, none where the call fails, and it is not interrupted for ever.
  pub record WriteLaws (stream : W → Bytes) (interruptions : W → ℕ) : Type 0 where
    pub is_int : (buf : Bytes) (w : W) → IsI32 (sys.psys_write fd buf w).0
    pub accepted :
        (buf : Bytes) (w w' : W) (n : ℕ)
        → sys.psys_write fd buf w ≡ (pos n, w')
        → (n ≤ length buf)
          × (stream w' ≡ stream w ++ take n buf)
          × (interruptions w' ≤ interruptions w)
    pub refused :
        (buf : Bytes) (w w' : W) (n : ℕ)
        → sys.psys_write fd buf w ≡ (negsuc n, w')
        → (stream w' ≡ stream w) × (interruptions w' ≤ interruptions w)
    pub interrupted :
        (buf : Bytes) (w w' : W) (n : ℕ)
        → sys.psys_write fd buf w ≡ (negsuc n, w')
        → suc n ≡ sys.eintr
        → interruptions w' < interruptions w

module _ {W : Type 0} (sys : Kernel W) (fd : ℤ) (stream : W → Bytes) (interruptions : W → ℕ)
    (laws : WriteLaws sys fd stream interruptions) where
  -- A write(2) of `buf` that has failed and led to `w'`: nothing was accepted, or there was an error
  -- other than an interruption; `e` says which.
  abbrev pub Failed : Bytes → IoError → W → Type 0
  Failed buf write_zero w' = (u : W) × (sys.psys_write fd buf u ≡ (pos 0, w'))
  Failed buf (os code) w' =
      (u : W) × (n : ℕ) × (sys.psys_write fd buf u ≡ (negsuc n, w'))
      × (code ≡ to_i32 (suc n))
      × (eqb_ℤ code (pos sys.eintr) ≡ false)

  -- The end of a `write_all` of `buf` that began at `w`: where it is an error, the write of what is
  -- left after the first `k` bytes has failed with it.
  abbrev pub Written : W → Bytes → Outcome (Option IoError) × W → Type 0
  Written w buf (ok none, w') = (stream w' ≡ stream w ++ buf) × (interruptions w' ≤ interruptions w)
  Written w buf (ok (some e), w') =
      (k : ℕ) × (k < length buf) × (stream w' ≡ stream w ++ take k buf) × Failed (drop k buf) e w'
  Written w buf _ = ⊥

  -- The part `take n buf` has been written, and then `rest` was.
  Written-prepend :
      (w w' : W) (n : ℕ) (buf : Bytes) (r : Outcome (Option IoError) × W)
      → stream w' ≡ stream w ++ take n buf
      → n ≤ length buf
      → interruptions w' ≤ interruptions w
      → Written w' (drop n buf) r
      → Written w buf r
  Written-prepend w w' n buf (ok none, v) s h q (t, u) = (
    t
        ∙ ap (λ l. l ++ drop n buf) s
        ∙ append_assoc (stream w) (take n buf) (drop n buf)
        ∙ ap (λ l. stream w ++ l) (take-append-drop n buf),
    omega arith,
  )
  Written-prepend w w' n buf (ok (some e), v) s h q (k, lt, t, f) = (
    n + k,
    omega (arith, length-drop n buf),
    t
        ∙ ap (λ l. l ++ take k (drop n buf)) s
        ∙ append_assoc (stream w) (take n buf) (take k (drop n buf))
        ∙ ap (λ l. stream w ++ l) (sym (take-add n k buf)),
    subst (λ b. Failed b e v) (drop-add n k buf) f,
  )
  Written-prepend w w' n buf _ s h q t = elim t [ ]

  after_accepted :
      (again : Bytes → Sys W (Option IoError)) (n : ℕ) (buf : Bytes) (w w' : W)
      → 0 < length buf
      → sys.psys_write fd buf w ≡ (pos n, w')
      → n ≤ length buf
      → stream w' ≡ stream w ++ take n buf
      → interruptions w' ≤ interruptions w
      → (0 < n → Written w' (drop n buf) (again (drop n buf) w'))
      → Written w buf (after_write sys buf again (ok n) w')
  unfolding after_write
  after_accepted again zero buf w w' p e h s q ih = (0, p, s, (w, e))
  after_accepted again (suc n) buf w w' p e h s q ih =
      rw (le→leb (suc n) (length buf) h)
        (Written-prepend w w' (suc n) buf _ s h q (ih (omega arith)))

  after_refused :
      (again : Bytes → Sys W (Option IoError)) (n : ℕ) (buf : Bytes) (w w' : W)
      → 0 < length buf
      → n < 2 ^ 31
      → sys.psys_write fd buf w ≡ (negsuc n, w')
      → stream w' ≡ stream w
      → interruptions w' ≤ interruptions w
      → (suc n ≡ sys.eintr → Written w' buf (again buf w'))
      → Written w buf (after_write sys buf again (err (record { errno = suc n })) w')
  unfolding after_write get_errno io_error
  after_refused again n buf w w' p small e s q ih =
      elim (Bool-cases (eqb_ℤ (to_i32 (suc n)) (pos sys.eintr))) [
        | inl eq ↦ rw eq (
            Written-prepend w w' 0 buf _ (s ∙ sym (append-nil (stream w))) (omega arith) q
              (ih (ground arith)))
        | inr ne ↦ rw ne (0, p, s ∙ sym (append-nil (stream w)), (w, n, e, refl, ne))
      ]

  -- With fuel for every byte and every interruption, `write_all` on a descriptor with `WriteLaws`
  -- comes back: after a success the stream has got exactly the buffer, and after an error only a
  -- proper part at its front, and the write of the rest has failed with that error.
  pub write_all-Written :
      (fuel : ℕ) (buf : Bytes) (w : W)
      → length buf + interruptions w < fuel
      → Written w buf (write_all sys fuel fd buf w)
  unfolding write_all write
  write_all-Written zero buf w h = absurd (omega arith)
  write_all-Written (suc fuel) [] w h = (sym (append-nil (stream w)), omega arith)
  write_all-Written (suc fuel) (b ∷ buf) w h =
      elim (syscall-cases sys (sys.psys_write fd (b ∷ buf)) w (laws.is_int (b ∷ buf) w)) [
        | inl (n, w', e, _, s) ↦ rw s (
            after_accepted (write_all sys fuel fd) n (b ∷ buf) w w' (omega arith) e
              (laws.accepted (b ∷ buf) w w' n e).0 (laws.accepted (b ∷ buf) w w' n e).1
              (laws.accepted (b ∷ buf) w w' n e).2
              (λ p.
                write_all-Written fuel (drop n (b ∷ buf)) w'
                  (omega (arith, length-drop n (b ∷ buf), (laws.accepted (b ∷ buf) w w' n e).2))))
        | inr (n, w', e, small, s) ↦ rw s (
            after_refused (write_all sys fuel fd) n (b ∷ buf) w w' (omega arith) small e
              (laws.refused (b ∷ buf) w w' n e).0 (laws.refused (b ∷ buf) w w' n e).1
              (λ q.
                write_all-Written fuel (b ∷ buf) w'
                  (omega (arith, laws.interrupted (b ∷ buf) w w' n e q))))
      ]
