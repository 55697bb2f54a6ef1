-- ===== src/Lowlevel/Alloc.antt =====
-- `StackObjectAllocator::alloc_obj` of src/lowlevel.rs, and the memory that its objects live in.
pub mod Overlap
pub mod Rounding
pub mod Accounting
pub mod Boxes
pub mod Writes
use avfork.Base.{
  ℕ, zero, suc, ◌+◌, ◌-◌, ◌%◌, ◌^◌, Bool, ◌&&◌, List, [], ◌∷◌, ◌++◌, codes, Option, none, some, leb,
  ltb, ◌==◌, if◌then◌else◌,
}
use avfork.Base.Decimal.{decimal}
use avfork.Outcome.{Outcome, ok, panicked, and_then, assume_init, Sys, lift, ◌>>=◌}
use avfork.Kernel.{Bytes}
use avfork.Lowlevel.Stack.{StackT, StackLib, Allocator}

-- `a + b` at the type usize of 64 bits.
unfoldable pub add_usize : Bool → ℕ → ℕ → Outcome ℕ
add_usize checks a b =
    if ltb (a + b) (2 ^ 64) then ok (a + b) else if checks then panicked else ok (a + b - 2 ^ 64)

-- The size of an object, made a multiple of its alignment.
unfoldable pub rounded_size : Bool → ℕ → ℕ → Outcome ℕ
rounded_size checks align size =
    let remnant = size % align in
    add_usize checks size (if remnant == 0 then 0 else align - remnant)

-- An object in memory: the bytes that it takes, and its value. `V` stands for the values of all the
-- types.
pub record Stored (V : Type 0) : Type 0 where
  pub bytes : ℕ
  pub value : V

-- The objects in memory, by the address of their first byte.
abbrev pub Memory : Type 0 → Type 0
Memory V = ℕ → Option (Stored V)

-- `StackBox`: its pointer.
pub record StackBox : Type 0 where
  pub ptr : ℕ

-- `Ok(StackBox)` or `Err(obj)`
pub data Allocation (V : Type 0) : Type 0 where
  boxed : StackBox → Allocation V
  rejected : V → Allocation V

-- What a write of `type_size` bytes from `addr` on leaves of an object that begins at `i`: an object
-- of which it overwrites a byte is lost.
abbrev pub spared : {V : Type 0} → ℕ → ℕ → ℕ → Option (Stored V) → Option (Stored V)
spared type_size addr i none = none
spared type_size addr i (some o) =
    if ltb i (addr + type_size) && ltb addr (i + o.bytes) then none else some o

-- `addr.write(obj)`; an object of size 0 has no memory.
unfoldable pub write_obj : {V : Type 0} → ℕ → ℕ → V → Memory V → Memory V
write_obj type_size addr obj mem i =
    if type_size == 0
    then mem i
    else if i == addr
    then some (record { bytes = type_size; value = obj })
    else spared type_size addr i (mem i)

-- `Deref for StackBox`
abbrev pub value_of : {V : Type 0} → Option (Stored V) → Option V
value_of none = none
value_of (some o) = some o.value

unfoldable pub deref : {V : Type 0} → StackBox → Memory V → Option V
deref self mem = value_of (mem self.ptr)

-- `*b = obj`, through `DerefMut for StackBox`, on a box of a type of this size
unfoldable pub deref_mut : {V : Type 0} → ℕ → StackBox → V → Memory V → Memory V
unfolding write_obj
deref_mut type_size self obj mem = write_obj type_size self.ptr obj mem

-- `Drop for StackBox`: the object is dropped where it lies; `drop_obj` is the drop of its type.
unfoldable pub drop_in_place :
    {W V : Type 0} → (V → Sys W (Unit {0})) → StackBox → Memory V → Sys W (Unit {0})
unfolding deref
drop_in_place drop_obj self mem = lift (assume_init (deref self mem)) >>= drop_obj

-- `Debug for StackObjectAllocator`: the pieces, with those of the stack.
unfoldable pub allocator_text : (StackT → List Bytes) → Allocator → List Bytes
unfolding decimal
allocator_text stack_format self =
    codes "{stack = "
    ∷ (stack_format self.stack_impl
        ++ (codes ", alloc_obj_sz = "
            ∷ decimal self.alloc_obj_sz
            ∷ codes ", reserved_obj_sz = "
            ∷ decimal self.reserved_obj_sz
            ∷ codes "}"
            ∷ []))

module _ {W V : Type 0} (checks : Bool) (lib : StackLib W) where
  -- `alloc_obj`, on an object of a type with the given alignment and size.
  unfoldable pub alloc_obj :
      ℕ → ℕ → V → Allocator → Memory V → Outcome (Allocation V × Allocator × Memory V)
  alloc_obj align type_size obj self mem = and_then (rounded_size checks align type_size) λ size.
      and_then (add_usize checks self.alloc_obj_sz size) λ total.
        if ltb self.reserved_obj_sz total
        then ok (rejected obj, self, mem)
        else (let (addr, stack_impl) = lib.allocate_obj_on_stack self.stack_impl size in
            and_then (add_usize checks self.alloc_obj_sz size) λ alloc_obj_sz. ok (
              boxed (record { ptr = addr }),
              record self { stack_impl = stack_impl; alloc_obj_sz = alloc_obj_sz },
              write_obj type_size addr obj mem,
            ))
