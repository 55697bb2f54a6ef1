-- ===== src/Lowlevel/Alloc/Writes/Refinement.antt =====
-- The client of Writes over an allocator of src/lowlevel.rs does what its specification does.
use avfork.Base.{
  ℕ, zero, suc, ◌+◌, ◌^◌, ◌≤◌, ◌<◌, ◌≡◌, refl, sym, ap, subst, ◌∙◌, inl, inr, Bool, List, [], ◌∷◌,
  some, Option, get_elem?, arith, leb, All, Bool-cases,
}
use avfork.Outcome.{Outcome, ok}
use avfork.Lowlevel.Stack.{StackT, StackLib, Allocator, new_allocator}
use avfork.Lowlevel.Alloc.{Stored, Memory, Allocation, boxed, rejected, value_of, deref, deref_mut}
use avfork.Lowlevel.Alloc.Overlap.{write_obj-above, write_obj-below, write_obj-found}
use avfork.Lowlevel.Alloc.Accounting.{allocated, alloc_obj-allocated}
use avfork.Lowlevel.Alloc.Boxes.{
  BumpLaws, Block, stored, Stacked, Stacked-write, total_bytes, Request, needed, keep_block,
  IsSound, allocated-IsSound,
}
use avfork.Lowlevel.Alloc.Writes.{
  ObjectOp, allocates, assigns, reads, IsSizedOp, Boxes, keep_box, assign, read_box, run_objects,
  set_at, run_values,
}

-- The boxes and the contents of the blocks in use.
abbrev boxes_of : {V : Type 0} → List (Block V) → Boxes
boxes_of [] = []
boxes_of (b ∷ bs) = (b.object_size, record { ptr = b.start }) ∷ boxes_of bs

abbrev contents : {V : Type 0} → List (Block V) → List V
contents [] = []
contents (b ∷ bs) = b.content ∷ contents bs

abbrev set_content : {V : Type 0} → ℕ → V → List (Block V) → List (Block V)
set_content i obj [] = []
set_content zero obj (b ∷ bs) = record b { content = obj } ∷ bs
set_content (suc i) obj (b ∷ bs) = b ∷ set_content i obj bs

total_bytes-set_content :
    {V : Type 0} (i : ℕ) (obj : V) (bs : List (Block V))
    → total_bytes (set_content i obj bs) ≡ total_bytes bs
total_bytes-set_content i obj [] = refl
total_bytes-set_content zero obj (b ∷ bs) = refl
total_bytes-set_content (suc i) obj (b ∷ bs) = omega (arith, total_bytes-set_content i obj bs)

boxes_of-set_content :
    {V : Type 0} (i : ℕ) (obj : V) (bs : List (Block V))
    → boxes_of (set_content i obj bs) ≡ boxes_of bs
boxes_of-set_content i obj [] = refl
boxes_of-set_content zero obj (b ∷ bs) = refl
boxes_of-set_content (suc i) obj (b ∷ bs) =
    ap (λ l. (b.object_size, record { ptr = b.start }) ∷ l) (boxes_of-set_content i obj bs)

contents-set_content :
    {V : Type 0} (i : ℕ) (obj : V) (bs : List (Block V))
    → contents (set_content i obj bs) ≡ set_at i obj (contents bs)
contents-set_content i obj [] = refl
contents-set_content zero obj (b ∷ bs) = refl
contents-set_content (suc i) obj (b ∷ bs) = ap (λ l. b.content ∷ l) (contents-set_content i obj bs)

-- An assignment leaves an object that ends below the blocks.
assign_below :
    {V : Type 0} (mem : Memory V) (low : ℕ) (bs : List (Block V)) (top i j : ℕ) (obj : V)
    (o : Stored V)
    → Stacked mem low bs top
    → 0 < o.bytes
    → mem j ≡ some o
    → j + o.bytes ≤ low
    → assign (get_elem? (boxes_of bs) i) obj mem j ≡ some o
unfolding deref_mut
assign_below mem low [] top i j obj o s q e h = e
assign_below mem low (c ∷ cs) top zero j obj o (l, p, f, d, r) q e h =
    write_obj-below c.object_size c.start j obj mem o q e (omega arith)
assign_below mem low (c ∷ cs) top (suc i) j obj o (l, p, f, d, r) q e h =
    assign_below mem (c.start + c.extent) cs top i j obj o r q e (omega arith)

Stacked-assign :
    {V : Type 0} (mem : Memory V) (low : ℕ) (bs : List (Block V)) (top i : ℕ) (obj : V)
    → Stacked mem low bs top
    → Stacked (assign (get_elem? (boxes_of bs) i) obj mem) low (set_content i obj bs) top
unfolding deref_mut
Stacked-assign mem low [] top i obj s = s
Stacked-assign mem low (c ∷ cs) top zero obj (l, p, f, d, r) = (
  l,
  p,
  f,
  write_obj-found c.object_size c.start obj mem p,
  Stacked-write mem _ (c.start + c.extent) cs top
      (λ j k. write_obj-above c.object_size c.start j obj mem p (omega arith)) r,
)
Stacked-assign mem low (c ∷ cs) top (suc i) obj (l, p, f, d, r) = (
  l,
  p,
  f,
  assign_below mem (c.start + c.extent) cs top i c.start obj (stored c) r p d (omega arith),
  Stacked-assign mem (c.start + c.extent) cs top i obj r,
)

read_box-contents :
    {V : Type 0} (mem : Memory V) (low : ℕ) (bs : List (Block V)) (top i : ℕ)
    → Stacked mem low bs top
    → read_box (get_elem? (boxes_of bs) i) mem ≡ get_elem? (contents bs) i
unfolding deref
read_box-contents mem low [] top i s = refl
read_box-contents mem low (c ∷ cs) top zero (l, p, f, d, r) = ap value_of d
read_box-contents mem low (c ∷ cs) top (suc i) (l, p, f, d, r) =
    read_box-contents mem (c.start + c.extent) cs top i r

module _ {W V : Type 0} (checks : Bool) (lib : StackLib W) where
  boxes_of-keep_block :
      (q : Request V) (o : Allocation V) (bs : List (Block V))
      → boxes_of (keep_block checks lib q o bs) ≡ keep_box q.type_size o (boxes_of bs)
  boxes_of-keep_block q (boxed b) bs = refl
  boxes_of-keep_block q (rejected v) bs = refl

  -- The allocator takes an object exactly where the specification does.
  run_values-allocated :
      (q : Request V) (ops : List (ObjectOp V)) (bs : List (Block V)) (a : Allocator)
      (mem : Memory V)
      → let (o, a', mem') = allocated checks lib (needed q) q.type_size q.obj a mem in
        run_values a.reserved_obj_sz ops (contents (keep_block checks lib q o bs)) a'.alloc_obj_sz
        ≡ run_values a.reserved_obj_sz (allocates q ∷ ops) (contents bs) a.alloc_obj_sz
  unfolding run_values
  run_values-allocated q ops bs a mem =
      elim (Bool-cases (leb (a.alloc_obj_sz + needed q) a.reserved_obj_sz)) [
        | inl fits ↦ rw (run_values, fits) refl
        | inr full ↦ rw (run_values, full) refl
      ]

  assign-IsSound :
      (i : ℕ) (obj : V) (bs : List (Block V)) (a : Allocator) (mem : Memory V) (top limit : ℕ)
      → IsSound checks lib bs a mem top limit
      → IsSound checks lib
          (set_content i obj bs)
          a
          (assign (get_elem? (boxes_of bs) i) obj mem)
          top
          limit
  assign-IsSound i obj bs a mem top limit s = record {
    has_room = s.has_room;
    stacked = Stacked-assign mem (a.stack_impl.addr + a.stack_impl.size) bs top i obj s.stacked;
    counted = total_bytes-set_content i obj bs ∙ s.counted;
    reserved_is = s.reserved_is;
  }

  run_objects-IsSound :
      (ops : List (ObjectOp V)) (bs : List (Block V)) (a : Allocator) (mem : Memory V)
      (top limit : ℕ)
      → BumpLaws lib
      → All IsSizedOp ops
      → limit < 2 ^ 63
      → IsSound checks lib bs a mem top limit
      → run_objects checks lib ops (boxes_of bs) a mem
        ≡ ok (run_values limit ops (contents bs) a.alloc_obj_sz)
  unfolding run_objects run_values
  run_objects-IsSound [] bs a mem top limit laws h large s = refl
  run_objects-IsSound (allocates q ∷ ops) bs a mem top limit laws (sized, rest) large s =
      let (o, a', mem') = allocated checks lib (needed q) q.type_size q.obj a mem in
      rw
        (alloc_obj-allocated checks lib q.align q.type_size q.obj a mem sized.aligned sized.small
          s.has_room.within (omega (arith, s.reserved_is)))
        (ap (λ l. run_objects checks lib ops l a' mem') (sym (boxes_of-keep_block q o bs))
          ∙ run_objects-IsSound ops (keep_block checks lib q o bs) a' mem' top limit laws rest large
              (allocated-IsSound checks lib q bs a mem top limit laws sized s)
          ∙ subst
              (λ r.
                ◌≡◌ {A = Outcome (List (Option V))}
                  (ok (run_values r ops (contents (keep_block checks lib q o bs)) a'.alloc_obj_sz))
                  (ok (run_values r (allocates q ∷ ops) (contents bs) a.alloc_obj_sz)))
              s.reserved_is (ap ok (run_values-allocated q ops bs a mem)))
  run_objects-IsSound (assigns i obj ∷ ops) bs a mem top limit laws (sized, rest) large s =
      ap (λ l. run_objects checks lib ops l a (assign (get_elem? (boxes_of bs) i) obj mem))
        (sym (boxes_of-set_content i obj bs))
      ∙ run_objects-IsSound ops (set_content i obj bs) a _ top limit laws rest large
          (assign-IsSound i obj bs a mem top limit s)
      ∙ ap (λ vs. ok (run_values limit ops vs a.alloc_obj_sz)) (contents-set_content i obj bs)
  run_objects-IsSound (reads i ∷ ops) bs a mem top limit laws (sized, rest) large s =
      rw
        (
          run_objects-IsSound ops bs a mem top limit laws rest large s,
          read_box-contents mem (a.stack_impl.addr + a.stack_impl.size) bs top i s.stacked,
        )
        refl

  -- A client that allocates objects on a fresh allocator, assigns and reads through its boxes, in
  -- whatever order, reads what it would read from a list of variables of its own: the last value
  -- that was assigned through that box, or the one that it was allocated with. An allocation is
  -- turned down exactly where the rounded sizes would add up to more than was reserved, and no call
  -- panics. Each object is to have at least one byte and a size and an alignment that add up to at
  -- most 2 ^ 62, the reservation to be below 2 ^ 63 bytes, the stack to have that many, and the C
  -- library to take the bytes from the upper end of what is free (`BumpLaws`).
  pub run_objects-run_values :
      (ops : List (ObjectOp V)) (stack : StackT) (reserved : ℕ) (mem : Memory V)
      → BumpLaws lib
      → All IsSizedOp ops
      → reserved < 2 ^ 63
      → reserved ≤ stack.size
      → run_objects checks lib ops [] (new_allocator stack reserved) mem
        ≡ ok (run_values reserved ops [] 0)
  unfolding new_allocator
  run_objects-run_values ops stack reserved mem laws sized large fits =
      run_objects-IsSound ops [] (new_allocator stack reserved) mem (stack.addr + stack.size)
        reserved laws sized large
        (record {
          has_room = omega arith;
          stacked = omega arith;
          counted = refl;
          reserved_is = refl;
        })
