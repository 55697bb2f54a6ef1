-- ===== src/Lowlevel/Alloc/Writes.antt =====
-- A client of an allocator of src/lowlevel.rs that allocates, assigns and reads through its boxes:
-- it sees what it would see of variables of its own.
pub mod Refinement
use avfork.Base.{
  ℕ, zero, suc, ◌+◌, ◌^◌, ◌≤◌, ◌<◌, ◌≡◌, refl, sym, ap, subst, ◌∙◌, inl, inr, Bool, true, false,
  List, [], ◌∷◌, Option, none, some, get_elem?, arith, leb, ◌==◌, if◌then◌else◌, All, Bool-cases,
}
use avfork.Outcome.{Outcome, ok, and_then}
use avfork.Lowlevel.Stack.{StackT, StackLib, Allocator, new_allocator}
use avfork.Lowlevel.Alloc.{
  Memory, StackBox, Allocation, boxed, rejected, deref, deref_mut, alloc_obj,
}
use avfork.Lowlevel.Alloc.Accounting.{allocated, alloc_obj-allocated}
use avfork.Lowlevel.Alloc.Boxes.{
  BumpLaws, Block, Stacked, Stacked-write, HasRoom, total_bytes, Request, IsSized, needed,
  keep_block, IsSound, allocated-IsSound,
}

-- What the client does: it allocates, or it assigns or reads through the `i`-th newest box.
pub data ObjectOp (V : Type 0) : Type 0 where
  allocates : Request V → ObjectOp V
  assigns : ℕ → V → ObjectOp V
  reads : ℕ → ObjectOp V

abbrev pub IsSizedOp : {V : Type 0} → ObjectOp V → Type 0
IsSizedOp (allocates q) = IsSized q
IsSizedOp (assigns i obj) = Unit
IsSizedOp (reads i) = Unit

-- The boxes of the client, each with the size of its type.
abbrev pub Boxes : Type 0
Boxes = List (ℕ × StackBox)

abbrev pub keep_box : {V : Type 0} → ℕ → Allocation V → Boxes → Boxes
keep_box type_size (boxed b) boxes = (type_size, b) ∷ boxes
keep_box type_size (rejected _) boxes = boxes

abbrev pub assign : {V : Type 0} → Option (ℕ × StackBox) → V → Memory V → Memory V
assign none obj mem = mem
assign (some (type_size, b)) obj mem = deref_mut type_size b obj mem

abbrev pub read_box : {V : Type 0} → Option (ℕ × StackBox) → Memory V → Option V
read_box none mem = none
read_box (some (type_size, b)) mem = deref b mem

module _ {W V : Type 0} (checks : Bool) (lib : StackLib W) where
  -- The values that the client reads.
  unfoldable pub run_objects :
      List (ObjectOp V) → Boxes → Allocator → Memory V → Outcome (List (Option V))
  run_objects [] boxes a mem = ok []
  run_objects (allocates q ∷ ops) boxes a mem =
      and_then (alloc_obj checks lib q.align q.type_size q.obj a mem)
        λ (o, a', mem'). run_objects ops (keep_box q.type_size o boxes) a' mem'
  run_objects (assigns i obj ∷ ops) boxes a mem =
      run_objects ops boxes a (assign (get_elem? boxes i) obj mem)
  run_objects (reads i ∷ ops) boxes a mem =
      and_then (run_objects ops boxes a mem) λ out. ok (read_box (get_elem? boxes i) mem ∷ out)

-- The specification: a list of variables, and the bytes that are used.
abbrev pub set_at : {V : Type 0} → ℕ → V → List V → List V
set_at i obj [] = []
set_at zero obj (v ∷ vs) = obj ∷ vs
set_at (suc i) obj (v ∷ vs) = v ∷ set_at i obj vs

unfoldable pub run_values : {V : Type 0} → ℕ → List (ObjectOp V) → List V → ℕ → List (Option V)
run_values reserved [] vs used = []
run_values reserved (allocates q ∷ ops) vs used = elim (leb (used + needed q) reserved) [
  | true ↦ run_values reserved ops (q.obj ∷ vs) (used + needed q)
  | false ↦ run_values reserved ops vs used
]
run_values reserved (assigns i obj ∷ ops) vs used = run_values reserved ops (set_at i obj vs) used
run_values reserved (reads i ∷ ops) vs used = get_elem? vs i ∷ run_values reserved ops vs used
