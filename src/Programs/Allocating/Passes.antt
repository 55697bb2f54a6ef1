-- ===== src/Programs/Allocating/Passes.antt =====
-- The tests of Programs.Allocating run to their end without a panic.
use avfork.Base.{
  ℕ, zero, suc, ◌+◌, ◌*◌, ◌^◌, ◌≤◌, ◌<◌, ◌≡◌, refl, ap, ◌∙◌, List, [], ◌∷◌, ◌++◌, Option, some,
  arith, le→leb, All,
}
use avfork.Base.Int.{pos}
use avfork.Outcome.{ok, and_then, Sys, pure, bind_eq, ◌>>◌, at_scope_end}
use avfork.Kernel.{Kernel}
use avfork.Error.Codes.{to_result_nonneg}
use avfork.Utility.Release.{release_done}
use avfork.Lowlevel.Stack.{
  StackT, StackLib, Allocator, new_allocator, new_stack_t, reserve, drop_stack,
}
use avfork.Lowlevel.Alloc.Overlap.{write_obj-above, write_obj-found}
use avfork.Lowlevel.Alloc.{Stored, Memory, StackBox, boxed, write_obj, deref, deref_mut, alloc_obj}
use avfork.Lowlevel.Alloc.Accounting.{alloc_obj-allocated}
use avfork.Lowlevel.Alloc.Boxes.{BumpLaws}
use avfork.Lowlevel.Fork.{SpawnLib}
use avfork.Programs.{Console, boxed_or_panic, reserve_or_panic, with_stack}
use avfork.Programs.Allocating.{
  assert_value, assert_values, assert_rejected, test_stack_impossible_alloc, fill_boxes,
  reserve_rounds, test_stack_reserve,
}

-- An i64 or u64 behind a box.
abbrev pub eight : ℕ → Option (Stored ℕ)
eight v = some (record { bytes = 8; value = v })

assert_value_done :
    (b : StackBox) (v : ℕ) (mem : Memory ℕ) → mem b.ptr ≡ eight v → assert_value b v mem ≡ ok tt
unfolding assert_value deref
assert_value_done b v mem e = rw (assert_value, deref, e) (ground arith)

assert_values_done :
    (bs : List StackBox) (v : ℕ) (mem : Memory ℕ)
    → All (λ b. mem b.ptr ≡ eight v) bs
    → assert_values bs v mem ≡ ok tt
unfolding assert_values
assert_values_done [] v mem h = refl
assert_values_done (b ∷ bs) v mem (e, h) =
    rw (assert_value_done b v mem e) (assert_values_done bs v mem h)

-- The boxes are above an address, and each has this value behind it.
abbrev HeldAbove : ℕ → ℕ → Memory ℕ → List StackBox → Type 0
HeldAbove low v mem bs = All (λ b. (low ≤ b.ptr) × (mem b.ptr ≡ eight v)) bs

HeldAbove-append :
    (low low' v : ℕ) (mem mem' : Memory ℕ) (bs : List StackBox) (b : StackBox)
    → ((p : ℕ) → low ≤ p → mem' p ≡ mem p)
    → low' ≤ low
    → low' ≤ b.ptr
    → mem' b.ptr ≡ eight v
    → HeldAbove low v mem bs
    → HeldAbove low' v mem' (bs ++ b ∷ [])
HeldAbove-append low low' v mem mem' [] b same below above e h = ((above, e), tt)
HeldAbove-append low low' v mem mem' (c ∷ bs) b same below above e ((l, f), h) = (
  (omega arith, same c.ptr l ∙ f),
  HeldAbove-append low low' v mem mem' bs b same below above e h,
)

HeldAbove-values :
    (low v : ℕ) (mem : Memory ℕ) (bs : List StackBox)
    → HeldAbove low v mem bs
    → All (λ b. mem b.ptr ≡ eight v) bs
HeldAbove-values low v mem [] h = tt
HeldAbove-values low v mem (b ∷ bs) ((l, e), h) = (e, HeldAbove-values low v mem bs h)

-- A value that is put into a fresh box and then assigned to it.
deref_mut-found : (b : StackBox) (v : ℕ) (mem : Memory ℕ) → deref_mut 8 b v mem b.ptr ≡ eight v
unfolding deref_mut
deref_mut-found b v mem = write_obj-found 8 b.ptr v mem (omega arith)

deref_mut-write_obj :
    (addr v v' p : ℕ) (mem : Memory ℕ)
    → addr + 8 ≤ p
    → deref_mut 8 (record { ptr = addr }) v' (write_obj 8 addr v mem) p ≡ mem p
unfolding deref_mut
deref_mut-write_obj addr v v' p mem h =
    write_obj-above 8 addr p v' (write_obj 8 addr v mem) (omega arith) h
    ∙ write_obj-above 8 addr p v mem (omega arith) h

module _ {W : Type 0} (sys : Kernel W) (stacks : StackLib W) (spawn : SpawnLib W)
    (console : Console W) where
  -- Reserving works and gives a stack with room for the objects, and so does the clean-up.
  pub record ReserveLaws : Type 0 where
    pub reserves :
        (s : StackT) (a b : ℕ) (w : W)
        → (n : ℕ) × (s' : StackT) × (w' : W) × (stacks.reserve_stack s a b w ≡ (pos n, s', w'))
          × (b ≤ s'.size)
    pub cleans :
        (s : StackT) (w : W) → (n : ℕ) × (w' : W) × (stacks.cleanup_stack s w ≡ (pos n, w'))

  -- What is left of the reservation, and of the stack under it.
  pub record HasLeft (needed : ℕ) (a : Allocator) : Type 0 where
    pub counted : a.alloc_obj_sz + needed ≤ a.reserved_obj_sz
    pub large : a.reserved_obj_sz < 2 ^ 63
    pub room : a.reserved_obj_sz ≤ a.alloc_obj_sz + a.stack_impl.size

  alloc_obj-eight :
      (v needed : ℕ) (a : Allocator) (mem : Memory ℕ)
      → HasLeft (8 + needed) a
      → let (addr, stack) = stacks.allocate_obj_on_stack a.stack_impl 8 in
        alloc_obj sys.debug_assertions stacks 8 8 v a mem
        ≡ ok (
          boxed (record { ptr = addr }),
          record a { stack_impl = stack; alloc_obj_sz = a.alloc_obj_sz + 8 },
          write_obj 8 addr v mem,
        )
  alloc_obj-eight v needed a mem left =
      alloc_obj-allocated sys.debug_assertions stacks 8 8 v a mem (omega arith) (omega arith)
        (omega (arith, left.counted)) left.large
      ∙ rw (le→leb (a.alloc_obj_sz + 8) a.reserved_obj_sz (omega (arith, left.counted))) refl

  module _ (laws : BumpLaws stacks) (fuel : ℕ) where
    fill_boxes_done :
        (left i : ℕ) (vars : List StackBox) (a : Allocator) (mem : Memory ℕ)
        → HasLeft (8 * left) a
        → HeldAbove (a.stack_impl.addr + a.stack_impl.size) 2000 mem vars
        → (vars' : List StackBox) × (a' : Allocator) × (mem' : Memory ℕ) × (fill_boxes sys stacks
              spawn console fuel left i vars a mem
            ≡ ok (vars', a', mem'))
          × All (λ b. mem' b.ptr ≡ eight 2000) vars'
    unfolding fill_boxes boxed_or_panic
    fill_boxes_done zero i vars a mem left held = (
      vars,
      a,
      mem,
      refl,
      HeldAbove-values (a.stack_impl.addr + a.stack_impl.size) 2000 mem vars held,
    )
    fill_boxes_done (suc n) i vars a mem left held =
        let (addr, stack) = stacks.allocate_obj_on_stack a.stack_impl 8 in
        let b : StackBox = record { ptr = addr } in
        let a' : Allocator = record a { stack_impl = stack; alloc_obj_sz = a.alloc_obj_sz + 8 } in
        let mem1 = write_obj 8 addr i mem in
        let mem2 = deref_mut 8 b 2000 mem1 in
        let fits : 8 ≤ a.stack_impl.size = omega (arith, left.counted, left.room) in
        let lowered = laws.size_lowered a.stack_impl 8 fits in
        let kept = laws.base_kept a.stack_impl 8 in
        let above = laws.above_free a.stack_impl 8 fits in
        let left0 : HasLeft (8 + 8 * n) a = record {
          counted = omega (arith, left.counted);
          large = left.large;
          room = left.room;
        } in
        let left' : HasLeft (8 * n) a' = record {
          counted = omega (arith, left.counted);
          large = left.large;
          room = omega (arith, left.room);
        } in
        let (vars', last, mem', e, all) = fill_boxes_done n (suc i) (vars ++ b ∷ []) a' mem2 left' (
          HeldAbove-append (a.stack_impl.addr + a.stack_impl.size) (stack.addr + stack.size) 2000
            mem mem2 vars b (λ p h. deref_mut-write_obj addr i 2000 p mem (omega arith))
            (omega arith) (omega arith) (deref_mut-found b 2000 mem1) held) in
        (
          vars',
          last,
          mem',
          rw
              (
                alloc_obj-eight i (8 * n) a mem left0,
                assert_value_done b i mem1 (write_obj-found 8 addr i mem (omega arith)),
                assert_value_done b 2000 mem2 (deref_mut-found b 2000 mem1),
              )
              e,
          all,
        )

    reserved :
        (reserved_stack_sz reserved_obj_sz : ℕ) (s : StackT) (w : W)
        → ReserveLaws
        → (s' : StackT) × (w' : W) × (reserve_or_panic sys stacks spawn console fuel
              reserved_stack_sz reserved_obj_sz
              (s, w)
            ≡ (ok (new_allocator s' reserved_obj_sz), (s', w')))
          × (reserved_obj_sz ≤ s'.size)
    unfolding reserve_or_panic reserve
    reserved reserved_stack_sz reserved_obj_sz s w works =
        let (n, s', w', e, room) = works.reserves s reserved_stack_sz reserved_obj_sz w in
        (
          s',
          w',
          rw (reserve_or_panic, reserve, e) (rw (to_result_nonneg sys.debug_assertions n) refl),
          room,
        )

    -- A fresh allocator has all that was reserved.
    new_allocator-HasLeft :
        (s : StackT) (needed size : ℕ)
        → needed ≤ size
        → size < 2 ^ 63
        → size ≤ s.size
        → HasLeft needed (new_allocator s size)
    unfolding new_allocator
    new_allocator-HasLeft s needed size fits large room = record {
      counted = omega arith;
      large = large;
      room = omega arith;
    }

    with_stack_done :
        {A : Type 0} (body : Sys (StackT × W) A) (w : W)
        → ReserveLaws
        → (a : A) × (s : StackT) × (w' : W) × (body (new_stack_t stacks, w) ≡ (ok a, (s, w')))
        → (w' : W) × (with_stack sys stacks spawn console fuel body w ≡ (ok tt, w'))
    unfolding with_stack drop_stack
    with_stack_done body w works (a, s, w1, e) =
        let (n, w2, c) = works.cleans s w1 in
        (
          w2,
          ap
                (λ r.
                  (at_scope_end
                        (drop_stack sys stacks fuel console.error_format console.stack_format r.1.0)
                        r.0
                      >> pure tt)
                    r.1.1)
                e
              ∙ rw (drop_stack, release_done sys fuel _ _ _ n w1 w2 c) refl,
        )

    reserve_rounds_done :
        (rounds : ℕ) (mem : Memory ℕ) (s : StackT) (w : W)
        → ReserveLaws
        → (mem' : Memory ℕ) × (s' : StackT) × (w' : W) × (reserve_rounds sys stacks spawn console
              fuel rounds mem
              (s, w)
            ≡ (ok mem', (s', w')))
    unfolding reserve_rounds
    reserve_rounds_done zero mem s w works = (mem, s, w, refl)
    reserve_rounds_done (suc rounds) mem s w works =
        let (s1, w1, e1, room) = reserved 0 1600 s w works in
        let (vars, a, mem1, e2, all) =
          fill_boxes_done 100 0 [] (new_allocator s1 1600) mem
            (new_allocator-HasLeft s1 (8 * 100) 1600 (omega arith) (omega arith) room) tt in
        let checked : and_then
              (fill_boxes sys stacks spawn console fuel 100 0 [] (new_allocator s1 1600) mem)
              (λ (vars, a, mem'). and_then (assert_values vars 2000 mem') λ _. ok mem')
            ≡ ok mem1 =
          rw (e2, assert_values_done vars 2000 mem1 all) refl in
        let (mem', s', w', e3) = reserve_rounds_done rounds mem1 s1 w1 works in
        (mem', s', w', bind_eq _ _ _ e1 ∙ bind_eq _ _ _ (ap (λ o. (o, (s1, w1))) checked) ∙ e3)

    impossible_alloc_done :
        (mem : Memory ℕ) (s : StackT)
        → 8 ≤ s.size
        → and_then (alloc_obj sys.debug_assertions stacks 8 8 1 (new_allocator s 8) mem) (λ first.
          and_then (boxed_or_panic sys stacks spawn console fuel first) λ (i1, allocator', mem').
            and_then
              (alloc_obj sys.debug_assertions stacks 4 4 2333 allocator' mem')
              λ second. assert_rejected 2333 second)
          ≡ ok tt
    unfolding boxed_or_panic assert_rejected new_allocator
    impossible_alloc_done mem s room =
        let (addr, stack) = stacks.allocate_obj_on_stack s 8 in
        let fresh : Allocator = record { stack_impl = s; alloc_obj_sz = 0; reserved_obj_sz = 8 } in
        let full : Allocator = record {
          stack_impl = stack;
          alloc_obj_sz = 8;
          reserved_obj_sz = 8;
        } in
        let left : HasLeft (8 + 0) fresh = record {
          counted = omega arith;
          large = omega arith;
          room = omega arith;
        } in
        rw
          (
            alloc_obj-eight 1 0 fresh mem left,
            alloc_obj-allocated sys.debug_assertions stacks 4 4 2333 full (write_obj 8 addr 1 mem)
                (omega arith) (omega arith) (omega arith) (omega arith),
          )
          refl

  -- Over a C library that takes the objects from the upper end of the stack (`BumpLaws`), reserves
  -- what it is asked for and cleans up without an error (`ReserveLaws`), `test_stack_reserve` and
  -- `test_stack_impossible_alloc` run to their end: in each of three rounds a hundred boxes hold
  -- what is put into them and what is assigned, and still do after all of them have been written;
  -- and an i32 is handed back after a u64 has used up the reservation.
  pub test_stack_done :
      (fuel : ℕ) (mem : Memory ℕ) (w : W)
      → BumpLaws stacks
      → ReserveLaws
      → ((w' : W) × (test_stack_reserve sys stacks spawn console fuel mem w ≡ (ok tt, w')))
        × ((w' : W) × (test_stack_impossible_alloc sys stacks spawn console fuel mem w
              ≡ (ok tt, w')))
  unfolding test_stack_reserve test_stack_impossible_alloc
  test_stack_done fuel mem w laws works =
      let (s, w1, e, room) = reserved laws fuel 0 8 (new_stack_t stacks) w works in
      (
        with_stack_done laws fuel _ w works
            (reserve_rounds_done laws fuel 3 mem (new_stack_t stacks) w works),
        with_stack_done laws fuel _ w works (
          tt,
          s,
          w1,
          bind_eq _ _ _ e ∙ ap (λ o. (o, (s, w1))) (impossible_alloc_done laws fuel mem s room),
        ),
      )
