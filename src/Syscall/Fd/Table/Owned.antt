-- ===== src/Syscall/Fd/Table/Owned.antt =====
-- No descriptor is leaked and none is closed twice, for every sequence of calls on boxes.
use avfork.Base.{
  pair_eq, ℕ, suc, ◌+◌, ◌^◌, ◌<◌, ◌≡◌, refl, sym, subst, false, List, [], ◌∷◌, Option, none, some,
  get_elem?, All, arith,
}
use avfork.Base.Int.{ℤ, pos, negsuc, eqb_ℤ}
use avfork.Outcome.{
  Outcome, ok, err, exited, replaced, panicked, undefined, out_of_fuel, Sys, continue_with,
}
use avfork.Kernel.{Kernel}
use avfork.Error.Codes.{to_result_nonneg, to_result_negative}
use avfork.Syscall.Raw.{syscall_out}
use avfork.Syscall.Fd.{box_from_raw, pipe2, drop_box, drop_path_box}
use avfork.Syscall.Fd.Ownership.{
  OpenCall, Box, file_box, path_box, box_up, boxes_path, opens, dup3s, dup3s_path, open_call,
  open_raw, open_call-Reports,
}
use avfork.Syscall.Fd.Table.{
  raw_fd, one, count, BoxOp, opens_box, makes_pipe, drops, BoxFormats, drop_any, keep_box,
  keep_pipe, drop_at, box_step, run_boxes,
}
use avfork.Utility.Release.{release_done}
use avfork.Syscall.Fd.Table.Counts.{
  Owns, count_self, count-remove_at, Owns-more, Owns-less, raw_fd-box_up, not_same,
}

-- Every call but dup3, which takes the number of its descriptor from the caller.
abbrev pub IsPlain : BoxOp → Type 0
IsPlain (opens_box (dup3s fd newfd flags)) = ⊥
IsPlain (opens_box (dup3s_path fd newfd flags)) = ⊥
IsPlain (opens_box (opens dir path acc flags)) = Unit
IsPlain _ = Unit

module _ {W : Type 0} (sys : Kernel W) (table : W → List ℤ) where
  -- A call that opens descriptors: a number that was not open before, or an error.
  pub data OpenAnswer (w : W) : ℤ × W → Type 0 where
    opened :
        (n : ℕ) (w' : W)
        → n < 2 ^ 31
        → count (pos n) (table w) ≡ 0
        → table w' ≡ pos n ∷ table w
        → OpenAnswer w (pos n, w')
    refused : (n : ℕ) (w' : W) → n < 2 ^ 31 → table w' ≡ table w → OpenAnswer w (negsuc n, w')

  pub data PipeAnswer (w : W) : ℤ × (ℤ × ℤ) × W → Type 0 where
    piped :
        (n : ℕ) (r s : ℤ) (w' : W)
        → count r (table w) ≡ 0
        → count s (table w) ≡ 0
        → eqb_ℤ r s ≡ false
        → table w' ≡ r ∷ s ∷ table w
        → PipeAnswer w (pos n, (r, s), w')
    no_pipe :
        (n : ℕ) (fds : ℤ × ℤ) (w' : W)
        → n < 2 ^ 31
        → table w' ≡ table w
        → PipeAnswer w (negsuc n, fds, w')

  -- open(2), dup(2), pipe(2), and close(2) of an open descriptor, where it does not fail.
  pub record TableLaws : Type 0 where
    pub opens_fresh :
        (c : OpenCall) (w : W) → IsPlain (opens_box c) → OpenAnswer w (open_raw sys c w)
    pub pipes_fresh : (flag : ℕ) (w : W) → PipeAnswer w (sys.psys_pipe2 (negsuc 0, negsuc 0) flag w)
    pub closes :
        (fd : ℤ) (w : W)
        → 0 < count fd (table w)
        → (n : ℕ) × (w' : W) × (sys.psys_close fd w ≡ (pos n, w'))
          × ((x : ℤ) → one x fd + count x (table w') ≡ count x (table w))

  -- The end of a run.
  abbrev pub EndsOwning : List ℤ → Outcome (List Box) × W → Type 0
  EndsOwning base (ok owned, w) = Owns base owned (table w)
  EndsOwning base _ = ⊥

  module _ (laws : TableLaws) (formats : BoxFormats) (fuel : ℕ) (base : List ℤ) where
    -- A call that opens one descriptor.
    box_step-opens :
        (c : OpenCall) (owned : List Box) (w : W)
        → IsPlain (opens_box c)
        → Owns base owned (table w)
        → EndsOwning base (keep_box sys formats fuel owned (open_call sys c w))
    box_step-opens c owned w plain own = go (open_raw sys c w) refl (laws.opens_fresh c w plain)
      where
        go :
            (t : ℤ × W)
            → open_raw sys c w ≡ t
            → OpenAnswer w t
            → EndsOwning base (keep_box sys formats fuel owned (open_call sys c w))
        go t e (opened n w' small new tab) =
            rw
              (pair_eq (open_call sys c w) _ _
                (open_call-Reports sys c (pos n) w w' e (small, omega arith)).0
                (open_call-Reports sys c (pos n) w w' e (small, omega arith)).1)
              (subst (λ fds. Owns base (box_up (boxes_path c) (pos n) ∷ owned) fds) (sym tab)
                (Owns-more base owned (box_up (boxes_path c) (pos n)) (pos n) (table w)
                  (raw_fd-box_up (boxes_path c) (pos n)) new own))
        go t e (refused n w' small tab) =
            rw
              (pair_eq (open_call sys c w) _ _
                (open_call-Reports sys c (negsuc n) w w' e (omega arith, omega arith)).0
                (open_call-Reports sys c (negsuc n) w w' e (omega arith, omega arith)).1)
              (subst (Owns base owned) (sym tab) own)

    pipe2_done :
        (flag n : ℕ) (r s : ℤ) (w w' : W)
        → sys.psys_pipe2 (negsuc 0, negsuc 0) flag w ≡ (pos n, (r, s), w')
        → pipe2 sys flag w ≡ (ok (box_from_raw r, box_from_raw s), w')
    unfolding pipe2 syscall_out
    pipe2_done flag n r s w w' e =
        rw (pipe2, syscall_out, e) (rw (to_result_nonneg sys.debug_assertions n) refl)

    pipe2_refused :
        (flag n : ℕ) (fds : ℤ × ℤ) (w w' : W)
        → n < 2 ^ 31
        → sys.psys_pipe2 (negsuc 0, negsuc 0) flag w ≡ (negsuc n, fds, w')
        → pipe2 sys flag w ≡ (err (record { errno = suc n }), w')
    unfolding pipe2 syscall_out
    pipe2_refused flag n fds w w' small e =
        rw (pipe2, syscall_out, e) (rw (to_result_negative sys.debug_assertions n small) refl)

    -- The end of a step, where the answer of its call is known.
    box_step-pipes :
        (flag : ℕ) (owned : List Box) (w : W)
        → Owns base owned (table w)
        → EndsOwning base (keep_pipe sys formats fuel owned (pipe2 sys flag w))
    unfolding box_from_raw
    box_step-pipes flag owned w own = go _ refl (laws.pipes_fresh flag w)
      where
        go :
            (t : ℤ × (ℤ × ℤ) × W)
            → sys.psys_pipe2 (negsuc 0, negsuc 0) flag w ≡ t
            → PipeAnswer w t
            → EndsOwning base (keep_pipe sys formats fuel owned (pipe2 sys flag w))
        go t e (piped n r s w' new_r new_s apart tab) = rw (pipe2_done flag n r s w w' e) (
            subst (λ fds. Owns base (box_up false r ∷ box_up false s ∷ owned) fds) (sym tab)
              (Owns-more base (box_up false s ∷ owned) (box_up false r) r (s ∷ table w) refl
                (rw (not_same r s apart, new_r) refl)
                (Owns-more base owned (box_up false s) s (table w) refl new_s own)))
        go t e (no_pipe n fds w' small tab) =
            rw (pipe2_refused flag n fds w w' small e) (subst (Owns base owned) (sym tab) own)

    drop_any_done :
        (b : Box) (n : ℕ) (w w' : W)
        → sys.psys_close (raw_fd b) w ≡ (pos n, w')
        → drop_any sys formats fuel b w ≡ (ok tt, w')
    unfolding drop_box drop_path_box
    drop_any_done (file_box b) n w w' e = release_done sys fuel _ _ _ n w w' e
    drop_any_done (path_box b) n w w' e = release_done sys fuel _ _ _ n w w' e

    -- A box that the client has stands for an open descriptor.
    owned_is_open :
        (i : ℕ) (owned : List Box) (b : Box) (fds : List ℤ)
        → get_elem? owned i ≡ some b
        → Owns base owned fds
        → 0 < count (raw_fd b) fds
    owned_is_open i owned b fds e own = omega (
      arith,
      own.balanced (raw_fd b),
      count-remove_at i owned b (raw_fd b) e,
      count_self (raw_fd b),
    )

    box_step-drops :
        (i : ℕ) (owned : List Box) (o : Option Box) (w : W)
        → get_elem? owned i ≡ o
        → Owns base owned (table w)
        → EndsOwning base (drop_at sys formats fuel i owned o w)
    box_step-drops i owned none w e own = own
    box_step-drops i owned (some b) w e own =
        let (n, w', closed, kept) =
          laws.closes (raw_fd b) w (owned_is_open i owned b (table w) e own) in
        rw (drop_any_done b n w w' closed)
          (Owns-less base owned i b (table w) (table w') e kept own)

    box_step-Owns :
        (op : BoxOp) (owned : List Box) (w : W)
        → IsPlain op
        → Owns base owned (table w)
        → EndsOwning base (box_step sys formats fuel op owned w)
    unfolding box_step
    box_step-Owns (opens_box c) owned w plain own = box_step-opens c owned w plain own
    box_step-Owns (makes_pipe flag) owned w plain own = box_step-pipes flag owned w own
    box_step-Owns (drops i) owned w plain own =
        box_step-drops i owned (get_elem? owned i) w refl own

    continue_owning :
        (p : Outcome (List Box) × W) (f : List Box → Sys W (List Box))
        → EndsOwning base p
        → ((owned : List Box) (w : W) → Owns base owned (table w) → EndsOwning base (f owned w))
        → EndsOwning base (continue_with p.0 f p.1)
    continue_owning (ok owned, w) f own next = next owned w own
    continue_owning (err e, w) f own next = elim own [ ]
    continue_owning (exited c, w) f own next = elim own [ ]
    continue_owning (replaced, w) f own next = elim own [ ]
    continue_owning (panicked, w) f own next = elim own [ ]
    continue_owning (undefined, w) f own next = elim own [ ]
    continue_owning (out_of_fuel, w) f own next = elim own [ ]

    -- For every sequence of opening, duplicating, making pipes and dropping boxes, the open
    -- descriptors are those that the client's boxes hold and those of `base`, if they are at the
    -- start: none is leaked by a call, an error included, no descriptor stands in two boxes, and
    -- each drop closes a descriptor that is open, once, so that the run ends neither in a message
    -- nor in an exit. The calls are all but `dup3`, which takes the number of its descriptor from
    -- the caller; the kernel answers new numbers, and closes what is open without an error
    -- (`TableLaws`).
    pub run_boxes-Owns :
        (ops : List BoxOp) (owned : List Box) (w : W)
        → All IsPlain ops
        → Owns base owned (table w)
        → EndsOwning base (run_boxes sys formats fuel ops owned w)
    unfolding run_boxes
    run_boxes-Owns [] owned w plain own = own
    run_boxes-Owns (op ∷ ops) owned w plain own =
        continue_owning (box_step sys formats fuel op owned w) _
          (box_step-Owns op owned w plain.0 own) (λ more w'. run_boxes-Owns ops more w' plain.1)
