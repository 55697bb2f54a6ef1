-- ===== src/Lowlevel/Alloc/Boxes.antt =====
-- The boxes that an allocator of src/lowlevel.rs hands out do not overlap, and stay readable.
use avfork.Base.{
  ℕ, ◌+◌, ◌^◌, ◌≤◌, ◌<◌, ◌≡◌, refl, sym, ◌∙◌, Bool, inl, inr, List, [], ◌∷◌, some, arith, leb,
  leb→le, Bool-cases, subst, All,
}
use avfork.Outcome.{Outcome, ok, and_then}
use avfork.Lowlevel.Stack.{StackT, StackLib, Allocator, new_allocator}
use avfork.Lowlevel.Alloc.{Stored, Memory, Allocation, boxed, rejected, write_obj, alloc_obj}
use avfork.Lowlevel.Alloc.Overlap.{write_obj-above, write_obj-found}
use avfork.Lowlevel.Alloc.Rounding.{padding}
use avfork.Lowlevel.Alloc.Accounting.{allocated, alloc_obj-allocated}

-- The C library's stacks, as far as the boxes rely on them: an allocation takes its bytes from the
-- upper end of the free part.
pub record BumpLaws {W : Type 0} (lib : StackLib W) : Type 0 where
  pub base_kept : (s : StackT) (n : ℕ) → (lib.allocate_obj_on_stack s n).1.addr ≡ s.addr
  pub size_lowered :
      (s : StackT) (n : ℕ) → n ≤ s.size → (lib.allocate_obj_on_stack s n).1.size + n ≡ s.size
  pub above_free :
      (s : StackT) (n : ℕ)
      → n ≤ s.size
      → (lib.allocate_obj_on_stack s n).0
        ≡ (lib.allocate_obj_on_stack s n).1.addr + (lib.allocate_obj_on_stack s n).1.size

-- A box that has been handed out: where it is, how many bytes it takes, how many of them are the
-- object's, and what was put into it.
pub record Block (V : Type 0) : Type 0 where
  pub start : ℕ
  pub extent : ℕ
  pub object_size : ℕ
  pub content : V

-- What is stored in a block.
abbrev pub stored : {V : Type 0} → Block V → Stored V
stored b = record { bytes = b.object_size; value = b.content }

-- The blocks lie one behind the other between two addresses, each holds its content.
abbrev pub Stacked : {V : Type 0} → Memory V → ℕ → List (Block V) → ℕ → Type 0
Stacked mem low [] top = low ≤ top
Stacked mem low (b ∷ bs) top =
    (low ≤ b.start)
    × (0 < b.object_size)
    × (b.object_size ≤ b.extent)
    × (mem b.start ≡ some (stored b))
    × Stacked mem (b.start + b.extent) bs top

-- The allocator's counters, and that its stack has room for what is still reserved.
pub record HasRoom (a : Allocator) : Type 0 where
  pub within : a.alloc_obj_sz ≤ a.reserved_obj_sz
  pub room : a.reserved_obj_sz ≤ a.alloc_obj_sz + a.stack_impl.size

pub Stacked-write :
    {V : Type 0} (mem mem' : Memory V) (low : ℕ) (bs : List (Block V)) (top : ℕ)
    → ((i : ℕ) → low ≤ i → mem' i ≡ mem i)
    → Stacked mem low bs top
    → Stacked mem' low bs top
Stacked-write mem mem' low [] top same s = s
Stacked-write mem mem' low (b ∷ bs) top same (l, p, f, c, r) = (
  l,
  p,
  f,
  same b.start l ∙ c,
  Stacked-write mem mem' (b.start + b.extent) bs top (λ i h. same i (omega arith)) r,
)

-- The bytes of all the blocks.
abbrev pub total_bytes : {V : Type 0} → List (Block V) → ℕ
total_bytes [] = 0
total_bytes (b ∷ bs) = b.extent + total_bytes bs

-- An object written in front of the blocks.
Stacked-push :
    {V : Type 0} (type_size addr r : ℕ) (obj : V) (mem : Memory V) (bs : List (Block V)) (top : ℕ)
    → 0 < type_size
    → type_size ≤ r
    → Stacked mem (addr + r) bs top
    → Stacked
        (write_obj type_size addr obj mem)
        addr
        (record { start = addr; extent = r; object_size = type_size; content = obj } ∷ bs)
        top
Stacked-push type_size addr r obj mem bs top p fits s = (
  omega arith,
  p,
  fits,
  write_obj-found type_size addr obj mem p,
  Stacked-write mem _ (addr + r) bs top
      (λ i h. write_obj-above type_size addr i obj mem p (omega arith)) s,
)

-- A call of `alloc_obj`.
pub record Request (V : Type 0) : Type 0 where
  pub align : ℕ
  pub type_size : ℕ
  pub obj : V

-- A type that is neither empty nor huge.
pub record IsSized {V : Type 0} (q : Request V) : Type 0 where
  pub aligned : 0 < q.align
  pub not_empty : 0 < q.type_size
  pub small : q.type_size + q.align ≤ 2 ^ 62

-- The bytes that a request takes.
abbrev pub needed : {V : Type 0} → Request V → ℕ
needed q = q.type_size + padding q.align q.type_size

module _ {W V : Type 0} (checks : Bool) (lib : StackLib W) where
  -- The blocks in use, newest first, after one more call.
  abbrev pub keep_block : Request V → Allocation V → List (Block V) → List (Block V)
  keep_block q (boxed box) bs =
      record { start = box.ptr; extent = needed q; object_size = q.type_size; content = q.obj } ∷ bs
  keep_block q (rejected _) bs = bs

  -- Calls of `alloc_obj` one after the other on one allocator.
  unfoldable pub alloc_many :
      List (Request V)
      → List (Block V)
      → Allocator
      → Memory V
      → Outcome (List (Block V) × Allocator × Memory V)
  alloc_many [] bs a mem = ok (bs, a, mem)
  alloc_many (q ∷ qs) bs a mem =
      and_then (alloc_obj checks lib q.align q.type_size q.obj a mem)
        λ (o, a', mem'). alloc_many qs (keep_block q o bs) a' mem'

  -- What holds between the calls.
  pub record IsSound (bs : List (Block V)) (a : Allocator) (mem : Memory V) (top limit : ℕ)
      : Type 0 where
    pub has_room : HasRoom a
    pub stacked : Stacked mem (a.stack_impl.addr + a.stack_impl.size) bs top
    pub counted : total_bytes bs ≡ a.alloc_obj_sz
    pub reserved_is : a.reserved_obj_sz ≡ limit

  pub allocated-IsSound :
      (q : Request V) (bs : List (Block V)) (a : Allocator) (mem : Memory V) (top limit : ℕ)
      → BumpLaws lib
      → IsSized q
      → IsSound bs a mem top limit
      → let (o, a', mem') = allocated checks lib (needed q) q.type_size q.obj a mem in
        IsSound (keep_block q o bs) a' mem' top limit
  allocated-IsSound q bs a mem top limit laws sized s =
      elim (Bool-cases (leb (a.alloc_obj_sz + needed q) a.reserved_obj_sz)) [
        | inr full ↦ rw full s
        | inl fits ↦
            let taken : a.alloc_obj_sz + needed q ≤ a.reserved_obj_sz = leb→le _ _ fits in
            let room : needed q ≤ a.stack_impl.size = omega arith in
            let kept = laws.base_kept a.stack_impl (needed q) in
            let lowered = laws.size_lowered a.stack_impl (needed q) room in
            let above = laws.above_free a.stack_impl (needed q) room in
            let end : (lib.allocate_obj_on_stack a.stack_impl (needed q)).0 + needed q
                ≡ a.stack_impl.addr + a.stack_impl.size =
              omega arith in
            rw fits (record {
              has_room = record { within = taken; room = omega arith };
              stacked =
                  subst
                    (λ low.
                      Stacked
                        (write_obj q.type_size (lib.allocate_obj_on_stack a.stack_impl (needed q)).0
                          q.obj mem)
                        low
                        (record {
                          start = (lib.allocate_obj_on_stack a.stack_impl (needed q)).0;
                          extent = needed q;
                          object_size = q.type_size;
                          content = q.obj;
                        }
                          ∷ bs)
                        top)
                    above
                    (Stacked-push q.type_size (lib.allocate_obj_on_stack a.stack_impl (needed q)).0
                      (needed q) q.obj mem bs top sized.not_empty (omega arith)
                      (subst (λ low. Stacked mem low bs top) (sym end) s.stacked));
              counted = omega (arith, s.counted);
              reserved_is = s.reserved_is;
            })
      ]

  -- A state that some calls of `alloc_obj` end in.
  abbrev pub EndsSound : ℕ → ℕ → Outcome (List (Block V) × Allocator × Memory V) → Type 0
  EndsSound top limit (ok (bs, a, mem)) = IsSound bs a mem top limit
  EndsSound top limit _ = ⊥

  alloc_many-IsSound :
      (qs : List (Request V)) (bs : List (Block V)) (a : Allocator) (mem : Memory V) (top limit : ℕ)
      → BumpLaws lib
      → All IsSized qs
      → a.reserved_obj_sz < 2 ^ 63
      → IsSound bs a mem top limit
      → EndsSound top limit (alloc_many qs bs a mem)
  unfolding alloc_many
  alloc_many-IsSound [] bs a mem top limit laws h large s = s
  alloc_many-IsSound (q ∷ qs) bs a mem top limit laws (sized, rest) large s =
      let (o, a', mem') = allocated checks lib (needed q) q.type_size q.obj a mem in
      let sound = allocated-IsSound q bs a mem top limit laws sized s in
      rw
        (alloc_obj-allocated checks lib q.align q.type_size q.obj a mem sized.aligned sized.small
          s.has_room.within large)
        (alloc_many-IsSound qs (keep_block q o bs) a' mem' top limit laws rest
          (omega (arith, sound.reserved_is, s.reserved_is)) sound)

  -- Whatever sequence of objects is allocated on a fresh allocator, over a stack with at least the
  -- reserved bytes: no call panics, the blocks in use lie one behind the other within the stack
  -- without overlap, each box still holds what was put into it, and their bytes add up to the
  -- allocator's counter, which is at most what was reserved. Each object is to have at least one
  -- byte and a size and an alignment that add up to at most 2 ^ 62, the reservation to be below 2 ^
  -- 63 bytes, and the C library to take the bytes from the upper end of what is free (`BumpLaws`).
  pub alloc_many-new_allocator :
      (qs : List (Request V)) (stack : StackT) (reserved : ℕ) (mem : Memory V)
      → BumpLaws lib
      → All IsSized qs
      → reserved < 2 ^ 63
      → reserved ≤ stack.size
      → EndsSound
          (stack.addr + stack.size)
          reserved
          (alloc_many qs [] (new_allocator stack reserved) mem)
  unfolding new_allocator
  alloc_many-new_allocator qs stack reserved mem laws sized large fits =
      alloc_many-IsSound qs [] (new_allocator stack reserved) mem (stack.addr + stack.size) reserved
        laws sized large
        (record {
          has_room = omega arith;
          stacked = omega arith;
          counted = refl;
          reserved_is = refl;
        })
