-- ===== src/Programs/Allocating.antt =====
-- The tests of src/lowlevel.rs that allocate.
pub mod Passes
use avfork.Base.{
  ℕ, zero, suc, ◌+◌, ◌*◌, ◌^◌, ◌≤◌, ◌<◌, ◌≡◌, refl, sym, ap, subst, ◌∙◌, Bool, true, false, List,
  [], ◌∷◌, ◌++◌, Option, none, some, codes, arith, leb, le→leb, ◌==◌, if◌then◌else◌, All,
}
use avfork.Base.Int.{ℤ, pos}
use avfork.Outcome.{
  Outcome, ok, panicked, and_then, assume_init, Sys, pure, lift, bind_eq, ◌>>=◌, ◌>>◌, on_world,
}
use avfork.Kernel.{Kernel}
use avfork.Error.Codes.{to_result_nonneg}
use avfork.Utility.Release.{release_done}
use avfork.Lowlevel.Stack.{
  StackT, StackLib, Allocator, new_allocator, new_stack_t, reserve, drop_stack,
}
use avfork.Lowlevel.Alloc.{
  Memory, StackBox, Allocation, boxed, rejected, write_obj, deref, deref_mut, alloc_obj,
}
use avfork.Lowlevel.Alloc.Accounting.{allocated, alloc_obj-allocated}
use avfork.Lowlevel.Alloc.Boxes.{BumpLaws}
use avfork.Lowlevel.Fork.{ChildFn, SpawnLib}
use avfork.Programs.{Console, boxed_or_panic, reserve_or_panic, with_stack}

-- `assert_eq!` on what is behind a box.
unfoldable pub assert_value : StackBox → ℕ → Memory ℕ → Outcome (Unit {0})
assert_value b v mem =
    and_then (assume_init (deref b mem)) λ found. if found == v then ok tt else panicked

unfoldable pub assert_values : List StackBox → ℕ → Memory ℕ → Outcome (Unit {0})
assert_values [] v mem = ok tt
assert_values (b ∷ bs) v mem = and_then (assert_value b v mem) λ _. assert_values bs v mem

-- `assert_matches!(…, Result::Err(v))`
unfoldable pub assert_rejected : ℕ → Allocation ℕ × Allocator × Memory ℕ → Outcome (Unit {0})
assert_rejected v (boxed b, a, mem) = panicked
assert_rejected v (rejected obj, a, mem) = if obj == v then ok tt else panicked

-- The address of what a pinned box holds.
abbrev pub pinned_ref : StackBox → ℕ
pinned_ref b = b.ptr

module _ {W : Type 0} (sys : Kernel W) (stacks : StackLib W) (spawn : SpawnLib W)
    (console : Console W) (fuel : ℕ) where
  -- `test_stack_init`
  unfoldable pub test_stack_init : Sys W (Unit {0})
  test_stack_init = with_stack sys stacks spawn console fuel (pure tt)

  -- `test_stack_impossible_alloc`: a u64, and then an i32 for which nothing is reserved.
  unfoldable pub test_stack_impossible_alloc : Memory ℕ → Sys W (Unit {0})
  test_stack_impossible_alloc mem = with_stack sys stacks spawn console fuel (
      reserve_or_panic sys stacks spawn console fuel 0 8 >>= λ allocator. lift (
        and_then (alloc_obj sys.debug_assertions stacks 8 8 1 allocator mem) λ first.
          and_then (boxed_or_panic sys stacks spawn console fuel first) λ (i1, allocator', mem').
            and_then (alloc_obj sys.debug_assertions stacks 4 4 2333 allocator' mem')
              λ second. assert_rejected 2333 second))

  -- The inner loop of `test_stack_reserve`, on boxes of 8 bytes with an i64 behind them.
  unfoldable pub fill_boxes :
      ℕ → ℕ → List StackBox → Allocator → Memory ℕ → Outcome (List StackBox × Allocator × Memory ℕ)
  fill_boxes zero i vars a mem = ok (vars, a, mem)
  fill_boxes (suc left) i vars a mem =
      and_then (alloc_obj sys.debug_assertions stacks 8 8 i a mem) λ allocation.
        and_then (boxed_or_panic sys stacks spawn console fuel allocation) λ (b, a', mem').
          and_then (assert_value b i mem') λ _.
            let mem2 = deref_mut 8 b 2000 mem' in
            and_then (assert_value b 2000 mem2)
              λ _. fill_boxes left (suc i) (vars ++ b ∷ []) a' mem2

  unfoldable pub reserve_rounds : ℕ → Memory ℕ → Sys (StackT × W) (Memory ℕ)
  reserve_rounds zero mem = pure mem
  reserve_rounds (suc rounds) mem =
      reserve_or_panic sys stacks spawn console fuel 0 (200 * 8) >>= λ allocator.
      lift (
        and_then (fill_boxes 100 0 [] allocator mem)
          λ (vars, a, mem'). and_then (assert_values vars 2000 mem') λ _. ok mem')
      >>= λ mem'. reserve_rounds rounds mem'

  -- `test_stack_reserve`
  unfoldable pub test_stack_reserve : Memory ℕ → Sys W (Unit {0})
  test_stack_reserve mem = with_stack sys stacks spawn console fuel (reserve_rounds 3 mem)

  -- `test_stackbox_pin`
  unfoldable pub test_stackbox_pin : Memory ℕ → Sys W (Unit {0})
  test_stackbox_pin mem = with_stack sys stacks spawn console fuel (
      reserve_or_panic sys stacks spawn console fuel 0 8 >>= λ allocator. lift (
        and_then (alloc_obj sys.debug_assertions stacks 8 8 2333 allocator mem) λ allocation.
          and_then (boxed_or_panic sys stacks spawn console fuel allocation)
            λ (b, a, mem'). if pinned_ref b == b.ptr then ok tt else panicked))
