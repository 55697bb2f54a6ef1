-- ===== src/Programs/Unwind/Rounds.antt =====
-- The programs of Programs where a call fails: they unwind, and give back every descriptor.
use avfork.Base.{
  ℕ, zero, suc, ◌+◌, ◌*◌, ◌^◌, ◌≡◌, refl, sym, ap, subst, ◌∙◌, inl, inr, List, codes, arith, ◌==◌,
  ◌&&◌, Bool-cases,
}
use avfork.Base.Int.{ℤ, pos, negsuc, to_i32, to_i32_small}
use avfork.Outcome.{
  Outcome, ok, err, exited, replaced, panicked, undefined, out_of_fuel, Sys, pure, lift,
  continue_with, and_then, ◌>>=◌, ◌>>◌,
}
use avfork.Kernel.{Kernel}
use avfork.Error.{to_result}
use avfork.Syscall.Fd.{FdBox, box_from_raw}
use avfork.Syscall.Fd.Table.{one, count}
use avfork.Utility.Release.{release_done}
use avfork.Lowlevel.Stack.{
  StackT, StackLib, Allocator, new_allocator, new_stack_t, reserve, drop_stack,
}
use avfork.Lowlevel.Alloc.{Memory, StackBox, Allocation, boxed, rejected, write_obj, deref}
use avfork.Lowlevel.Fork.{ChildFn, SpawnLib, aspawn_fn, avfork_call}
use avfork.Programs.{
  or_panic, panic_on_err, pinned, Console, await_child, boxed_or_panic, reserve_or_panic, round_on,
  fork_round, fork_rounds, with_stack, test_callback,
}
use avfork.Programs.Rounds.{Same}
use avfork.Programs.Unwind.{
  UnwindsIn, bind-UnwindsIn, at_scope_end-UnwindsIn, or_panic-to_result, to_result-UnwindsIn,
  Placed, alloc_obj-Placed,
}
use avfork.Programs.Unwind.Calls.{Opened, FailLaws, Held, print-UnwindsIn, await_child-UnwindsIn}

module _ {W : Type 0} (sys : Kernel W) (stacks : StackLib W) (spawn : SpawnLib W)
    (console : Console W) (table : W → List ℤ) (f : ChildFn W) where
  module _ (laws : FailLaws sys stacks spawn console table f) (fuel : ℕ) (base : List ℤ) where
    -- What follows the call of `aspawn`, where an error panics: after a success there is a box with
    -- the new descriptor.
    aspawn-UnwindsIn :
        {A : Type 0} (r pid : ℤ) (w w' : W) (next : FdBox × ℤ → Sys W A)
        → Opened sys stacks spawn console table f r (table w) (table w')
        → Same table base w
        → ((n : ℕ) (v : W)
            → Held sys stacks spawn console table f laws fuel base (pos n) v
            → UnwindsIn (Same table base) (next (box_from_raw (pos n), pid) v))
        → UnwindsIn (Same table base) (
            continue_with
              (or_panic (
                and_then
                  (to_result sys.debug_assertions r)
                  (λ fd. ok (box_from_raw (to_i32 fd), pid))))
              next
              w')
    unfolding to_result
    aspawn-UnwindsIn (pos n) pid w w' next (small, opened) same follow =
        rw (to_i32_small n small)
          (follow n w' (λ x. ap (count x) opened ∙ ap (λ k. one x (pos n) + k) (same x)))
    aspawn-UnwindsIn (negsuc n) pid w w' next kept same follow =
        let same' : Same table base w' = λ x. ap (count x) kept ∙ same x in
        elim (Bool-cases (sys.debug_assertions && (suc n == 2 ^ 63))) [
          | inl overflow ↦ rw overflow (tt, same')
          | inr fits ↦ rw fits (tt, same')
        ]

    pinned_box :
        (type_size : ℕ) (b : StackBox) (mem mem' : Memory (ChildFn W))
        → mem' ≡ write_obj type_size b.ptr f mem
        → pinned type_size f b mem' ≡ ok f
    unfolding pinned write_obj deref
    pinned_box type_size b mem mem' e = rw e (ground arith)

    -- The round from `avfork` on.
    avfork_call-UnwindsIn :
        (allocator : Allocator) (mem : Memory (ChildFn W)) (w : W)
        → Same table base w
        → UnwindsIn (Same table base) (
            (panic_on_err (avfork_call sys spawn allocator f) >>= λ (fd, _).
            await_child sys stacks spawn console fuel fd >> pure mem)
              w)
    unfolding avfork_call aspawn_fn
    avfork_call-UnwindsIn allocator mem w same =
        let (r, pid, w') =
          spawn.aspawn (pos 0) allocator.stack_impl (λ fd. f (record { fd = fd })) w in
        aspawn-UnwindsIn r pid w w' _ (laws.forks allocator.stack_impl w) same (λ n v held.
          bind-UnwindsIn (Same table base) (Same table base) _ _
            (await_child-UnwindsIn sys stacks spawn console table f laws fuel base (pos n) v held)
            (λ u h. h) (λ _ u e h. (tt, h)))

    -- The round from `alloc_obj` on.
    alloc_obj-UnwindsIn :
        (type_size : ℕ) (mem : Memory (ChildFn W)) (w : W)
        (o : Outcome (Allocation (ChildFn W) × Allocator × Memory (ChildFn W)))
        → Placed sys.debug_assertions stacks type_size f mem o
        → Same table base w
        → UnwindsIn (Same table base) (
            (lift o >>= λ allocation.
            lift (boxed_or_panic sys stacks spawn console fuel allocation)
            >>= λ (b, allocator', mem').
                console.println (codes "Calling avfork")
                >> (lift (pinned type_size f b mem') >>= λ func.
                    panic_on_err (avfork_call sys spawn allocator' func) >>= λ (fd, _).
                    await_child sys stacks spawn console fuel fd >> pure mem'))
              w)
    unfolding boxed_or_panic
    alloc_obj-UnwindsIn type_size mem w (ok (boxed b, allocator, mem')) placed same =
        bind-UnwindsIn (Same table base) (Same table base) _ _
          (print-UnwindsIn sys stacks spawn console table f laws fuel base
            (λ fds. (x : ℤ) → count x fds ≡ count x base) (codes "Calling avfork") w same)
          (λ v h. h)
          (λ _ v e h.
            rw (pinned_box type_size b mem mem' placed) (avfork_call-UnwindsIn allocator mem' v h))
    alloc_obj-UnwindsIn type_size mem w (ok (rejected v, allocator, mem')) placed same = (tt, same)
    alloc_obj-UnwindsIn type_size mem w panicked placed same = (tt, same)
    alloc_obj-UnwindsIn type_size mem w (err e) placed same = elim placed [ ]
    alloc_obj-UnwindsIn type_size mem w (exited c) placed same = elim placed [ ]
    alloc_obj-UnwindsIn type_size mem w replaced placed same = elim placed [ ]
    alloc_obj-UnwindsIn type_size mem w undefined placed same = elim placed [ ]
    alloc_obj-UnwindsIn type_size mem w out_of_fuel placed same = elim placed [ ]

    module _ (show : Allocator → Sys W (Unit {0})) (align type_size : ℕ)
        (shows : (a : Allocator) (v : W) → UnwindsIn (λ v'. table v' ≡ table v) (show a v)) where
      -- A round on the allocator, after which the descriptors are as before.
      round_on-UnwindsIn :
          (mem : Memory (ChildFn W)) (a : Allocator) (w : W)
          → Same table base w
          → UnwindsIn
              (Same table base)
              (round_on sys stacks spawn console fuel show align type_size f mem a w)
      unfolding round_on
      round_on-UnwindsIn mem a w same =
          bind-UnwindsIn (Same table base) (Same table base) _ _
            (let (u, kept) = shows a w in
              (u, subst (λ (fds : List ℤ). (x : ℤ) → count x fds ≡ count x base) (sym kept) same))
            (λ v h. h)
            (λ _ v e h.
              alloc_obj-UnwindsIn type_size mem v _
                (alloc_obj-Placed sys.debug_assertions stacks align type_size f a mem) h)

      abbrev Kept : StackT × W → Type 0
      Kept (stack, w) = Same table base w

      fork_round-UnwindsIn :
          (reserved_stack_sz : ℕ) (mem : Memory (ChildFn W)) (stack : StackT) (w : W)
          → Same table base w
          → UnwindsIn Kept (
              fork_round sys stacks spawn console fuel reserved_stack_sz show align type_size f mem
                (stack, w))
      unfolding fork_round reserve_or_panic reserve
      fork_round-UnwindsIn reserved_stack_sz mem stack w same =
          let (r, stack', w') = stacks.reserve_stack stack reserved_stack_sz 100 w in
          let same' : Same table base w' =
            λ x. ap (count x) (laws.reserves stack reserved_stack_sz 100 w) ∙ same x in
          to_result-UnwindsIn Kept (to_result sys.debug_assertions r)
            (λ _. new_allocator stack' 100) _ (stack', w')
            (or_panic-to_result sys.debug_assertions r) same'
            (λ _. round_on-UnwindsIn mem (new_allocator stack' 100) w' same')

      fork_rounds-UnwindsIn :
          (rounds reserved_stack_sz : ℕ) (mem : Memory (ChildFn W)) (stack : StackT) (w : W)
          → Same table base w
          → UnwindsIn Kept (
              fork_rounds sys stacks spawn console fuel rounds reserved_stack_sz show align
                type_size f mem
                (stack, w))
      unfolding fork_rounds
      fork_rounds-UnwindsIn zero reserved_stack_sz mem stack w same = (tt, same)
      fork_rounds-UnwindsIn (suc rounds) reserved_stack_sz mem stack w same =
          bind-UnwindsIn Kept Kept _ _ (fork_round-UnwindsIn reserved_stack_sz mem stack w same)
            (λ v h. h)
            (λ mem' (stack', w') e h.
              fork_rounds-UnwindsIn rounds reserved_stack_sz mem' stack' w' h)

      dropped :
          (s : StackT) (w : W)
          → Same table base w
          → (w' : W) × (drop_stack sys stacks fuel console.error_format console.stack_format s w
              ≡ (ok tt, w'))
            × Same table base w'
      unfolding drop_stack
      dropped s w same =
          let (n, w', e, t) = laws.cleans s w in
          (w', release_done sys fuel _ _ _ n w w' e, λ x. ap (count x) t ∙ same x)

      with_stack-UnwindsIn :
          {A : Type 0} (body : Sys (StackT × W) A) (w : W)
          → UnwindsIn Kept (body (new_stack_t stacks, w))
          → UnwindsIn (Same table base) (with_stack sys stacks spawn console fuel body w)
      unfolding with_stack
      with_stack-UnwindsIn body w u =
          let (o, (stack, w')) = body (new_stack_t stacks, w) in
          bind-UnwindsIn (Same table base) (Same table base) _ _
            (at_scope_end-UnwindsIn (Same table base) (Same table base) _ (o, w') u
              (λ v h. dropped stack v h))
            (λ v h. h) (λ _ v e h. (tt, h))

  -- Whichever of its calls fail, and whatever the size and the alignment of the function,
  -- `test_callback` returns or panics, and in either case the open descriptors at the end are those
  -- at the start: unwinding drops the box of the child and the stack. The releases work, and
  -- `aspawn` opens a descriptor where it succeeds and none where it fails (`FailLaws`).
  pub test_callback-UnwindsIn :
      (laws : FailLaws sys stacks spawn console table f) (fuel : ℕ)
      (show : Allocator → Sys W (Unit {0})) (align type_size : ℕ) (mem : Memory (ChildFn W)) (w : W)
      → ((a : Allocator) (v : W) → UnwindsIn (λ v'. table v' ≡ table v) (show a v))
      → UnwindsIn
          (Same table (table w))
          (test_callback sys stacks spawn console fuel show align type_size f mem w)
  unfolding test_callback
  test_callback-UnwindsIn laws fuel show align type_size mem w shows =
      with_stack-UnwindsIn laws fuel (table w) show align type_size shows
        (fork_rounds sys stacks spawn console fuel 10 (4096 * 100) show align type_size f mem) w
        (fork_rounds-UnwindsIn laws fuel (table w) show align type_size shows 10 (4096 * 100) mem
          (new_stack_t stacks) w (λ x. refl))
