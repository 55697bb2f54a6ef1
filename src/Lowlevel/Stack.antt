-- ===== src/Lowlevel/Stack.antt =====
-- `Stack` of src/lowlevel.rs and `new_stack_t` of src/aspawn.rs: a stack of the C library.
pub mod Drops
use avfork.Base.{ℕ, ◌∷◌, List, codes, if◌then◌else◌}
use avfork.Base.Int.{ℤ}
use avfork.Outcome.{SyscallError, Outcome, ok, and_then, Sys, pure, call, ◌>>=◌, ◌>>◌}
use avfork.Kernel.{Kernel, Bytes}
use avfork.Error.{to_result}
use avfork.Utility.{release}

-- `aspawn::Stack_t`
pub record StackT : Type 0 where
  pub addr : ℕ
  pub size : ℕ

-- The functions of the C library on stacks.
pub record StackLib (W : Type 0) : Type 0 where
  pub init_cached_stack : StackT → StackT
  pub reserve_stack : StackT → ℕ → ℕ → W → ℤ × StackT × W
  pub cleanup_stack : StackT → W → ℤ × W
  -- the address of the object, and the stack behind it
  pub allocate_obj_on_stack : StackT → ℕ → ℕ × StackT

-- `aspawn::new_stack_t`
unfoldable pub new_stack_t : {W : Type 0} → StackLib W → StackT
new_stack_t lib = lib.init_cached_stack (record { addr = 0; size = 0 })

-- `Stack::new` and `Default for Stack`
abbrev pub new_stack : {W : Type 0} → StackLib W → StackT
new_stack lib = new_stack_t lib

abbrev pub default_stack : {W : Type 0} → StackLib W → StackT
default_stack lib = new_stack lib

-- `StackObjectAllocator`: the copy of the stack and the two counters of bytes.
pub record Allocator : Type 0 where
  pub stack_impl : StackT
  pub alloc_obj_sz : ℕ
  pub reserved_obj_sz : ℕ

-- `StackObjectAllocator::new`
unfoldable pub new_allocator : StackT → ℕ → Allocator
new_allocator stack_impl reserved_obj_sz = record {
  stack_impl = stack_impl;
  alloc_obj_sz = 0;
  reserved_obj_sz = reserved_obj_sz;
}

module _ {W : Type 0} (sys : Kernel W) (lib : StackLib W) where
  -- `Stack::reserve`: the C function updates the stack in place, also where it fails.
  unfoldable pub reserve : StackT → ℕ → ℕ → W → Outcome Allocator × StackT × W
  reserve self reserved_stack_sz reserved_obj_sz w =
      let (r, stack_impl, w') = lib.reserve_stack self reserved_stack_sz reserved_obj_sz w in
      (
        and_then (to_result sys.debug_assertions r)
            (λ _. ok (new_allocator stack_impl reserved_obj_sz)),
        stack_impl,
        w',
      )

  -- `Drop for Stack`; `debug` and `shown` are the `Debug` formats of an error and a stack
  unfoldable pub drop_stack :
      ℕ → (SyscallError → List Bytes) → (StackT → List Bytes) → StackT → Sys W (Unit {0})
  drop_stack fuel debug shown self =
      release sys fuel debug (codes "Failed to deallocate the stack " ∷ shown self)
        (lib.cleanup_stack self)
