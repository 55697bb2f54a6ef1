-- ===== src/Lowlevel/Alloc/Accounting.antt =====
-- What `alloc_obj` of src/lowlevel.rs does on every branch, and that the boxes it hands out do not
-- overlap and stay readable.
use avfork.Base.{
  ℕ, ◌+◌, ◌^◌, ◌≤◌, ◌<◌, ◌≡◌, Bool, true, false, inl, inr, arith, ltb, leb, if◌then◌else◌,
  Bool-cases,
}
use avfork.Outcome.{ok}
use avfork.Lowlevel.Stack.{StackLib, Allocator}
use avfork.Lowlevel.Alloc.{
  add_usize, rounded_size, Memory, Allocation, boxed, rejected, write_obj, alloc_obj,
}
use avfork.Lowlevel.Alloc.Rounding.{padding, padding-lt, rounded_size-padding}

leb→ltb : (m n : ℕ) → leb n m ≡ true → ltb m n ≡ false
leb→ltb m n h = ground arith

leb→ltb_false : (m n : ℕ) → leb n m ≡ false → ltb m n ≡ true
leb→ltb_false m n h = ground arith

add_usize_ok : (checks : Bool) (a b : ℕ) → a + b < 2 ^ 64 → add_usize checks a b ≡ ok (a + b)
unfolding add_usize
add_usize_ok checks a b h = ground arith

module _ {W V : Type 0} (checks : Bool) (lib : StackLib W) where
  -- The end of an allocation that needs `r` bytes: it succeeds if they fit into what is reserved.
  abbrev pub allocated : ℕ → ℕ → V → Allocator → Memory V → Allocation V × Allocator × Memory V
  allocated r type_size obj self mem =
      let (addr, stack_impl) = lib.allocate_obj_on_stack self.stack_impl r in
      if leb (self.alloc_obj_sz + r) self.reserved_obj_sz
      then (
        boxed (record { ptr = addr }),
        record self { stack_impl = stack_impl; alloc_obj_sz = self.alloc_obj_sz + r },
        write_obj type_size addr obj mem,
      )
      else (rejected obj, self, mem)

  alloc_obj_rounded :
      (align type_size r : ℕ) (obj : V) (self : Allocator) (mem : Memory V)
      → rounded_size checks align type_size ≡ ok r
      → self.alloc_obj_sz + r < 2 ^ 64
      → alloc_obj checks lib align type_size obj self mem ≡ ok (allocated r type_size obj self mem)
  unfolding alloc_obj
  alloc_obj_rounded align type_size r obj self mem e fits =
      rw (e, alloc_obj, add_usize_ok checks self.alloc_obj_sz r fits)
        (elim (Bool-cases (leb (self.alloc_obj_sz + r) self.reserved_obj_sz)) [
          | inl room ↦ rw (room, leb→ltb self.reserved_obj_sz (self.alloc_obj_sz + r) room)
          | inr full ↦ rw (full, leb→ltb_false self.reserved_obj_sz (self.alloc_obj_sz + r) full)
        ])

  -- `alloc_obj` hands out the size rounded up to the alignment if that many bytes are left of the
  -- reserved ones, and counts them; if they are not, the object comes back and nothing has changed.
  -- The alignment is to be positive, the size and the alignment to add up to at most 2 ^ 62, the
  -- counter to be at most the reservation, and the reservation below 2 ^ 63 bytes.
  pub alloc_obj-allocated :
      (align type_size : ℕ) (obj : V) (self : Allocator) (mem : Memory V)
      → 0 < align
      → type_size + align ≤ 2 ^ 62
      → self.alloc_obj_sz ≤ self.reserved_obj_sz
      → self.reserved_obj_sz < 2 ^ 63
      → alloc_obj checks lib align type_size obj self mem
        ≡ ok (allocated (type_size + padding align type_size) type_size obj self mem)
  alloc_obj-allocated align type_size obj self mem p small within large =
      alloc_obj_rounded align type_size (type_size + padding align type_size) obj self mem
        (rounded_size-padding checks align type_size p (omega arith))
        (omega (arith, padding-lt align type_size p))
