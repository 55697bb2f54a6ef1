-- ===== src/Programs/Rounds/Run.antt =====
-- The programs of Programs run to their end, and give back every descriptor that they were given.
use avfork.Base.{
  ℕ, zero, suc, ◌+◌, ◌*◌, ◌^◌, ◌≤◌, ◌<◌, ◌≡◌, refl, ap, ◌∙◌, List, codes, arith, le→leb,
}
use avfork.Base.Int.{ℤ, pos}
use avfork.Outcome.{bind_eq, ok, Sys, pure, at_scope_end, ◌>>◌}
use avfork.Kernel.{Kernel}
use avfork.Syscall.Fd.{FdBox, box_from_raw}
use avfork.Syscall.Fd.Table.{one, count}
use avfork.Utility.Release.{release_done}
use avfork.Lowlevel.Stack.{StackT, StackLib, Allocator, new_allocator, new_stack_t, drop_stack}
use avfork.Lowlevel.Alloc.{Memory, boxed, write_obj, alloc_obj}
use avfork.Lowlevel.Alloc.Rounding.{padding}
use avfork.Lowlevel.Alloc.Accounting.{alloc_obj-allocated}
use avfork.Lowlevel.Fork.{ChildFn, SpawnLib, avfork_call}
use avfork.Programs.{
  or_panic, pinned, Console, await_child, boxed_or_panic, reserve_or_panic, round_on, fork_round,
  fork_rounds, with_stack, test_callback, test_avfork_naive, test_avfork_exec, test_avfork_cd_exec,
  return_callback, echo_callback, main, cd_exec_callback,
}
use avfork.Programs.Rounds.{
  Same, ForkLaws, await_child-Same, avfork_done, reserve_done, pinned-write_obj,
}

module _ {W : Type 0} (sys : Kernel W) (stacks : StackLib W) (spawn : SpawnLib W)
    (console : Console W) (table : W → List ℤ) (Gone : ℤ → W → Type 0) (f : ChildFn W) where
  module _ (laws : ForkLaws sys stacks spawn console table Gone f) (fuel : ℕ) (base : List ℤ) where
    -- The allocator after the function has been put onto the stack.
    abbrev with_object : StackT → ℕ → Allocator
    with_object s size = record { stack_impl = s; alloc_obj_sz = 0 + size; reserved_obj_sz = 100 }

    alloc_obj_done :
        (align type_size : ℕ) (stack : StackT) (mem : Memory (ChildFn W))
        → 0 < align
        → type_size + padding align type_size ≤ 100
        → align ≤ 2 ^ 61
        → let (addr, stack2) =
            stacks.allocate_obj_on_stack stack (type_size + padding align type_size) in
          alloc_obj sys.debug_assertions stacks align type_size f (new_allocator stack 100) mem
          ≡ ok (
            boxed (record { ptr = addr }),
            with_object stack2 (type_size + padding align type_size),
            write_obj type_size addr f mem,
          )
    unfolding new_allocator
    alloc_obj_done align type_size stack mem positive fits small =
        alloc_obj-allocated sys.debug_assertions stacks align type_size f (new_allocator stack 100)
          mem positive (omega arith) (omega arith) (omega arith)
        ∙ rw (le→leb (0 + (type_size + padding align type_size)) 100 (omega arith)) refl

    round_on_done :
        (show : Allocator → Sys W (Unit {0})) (align type_size addr : ℕ)
        (mem mem' : Memory (ChildFn W)) (a allocator : Allocator) (fd : FdBox) (pid : ℤ)
        (w1 w2 w3 w4 w5 : W)
        → show a w1 ≡ (ok tt, w2)
        → alloc_obj sys.debug_assertions stacks align type_size f a mem
          ≡ ok (boxed (record { ptr = addr }), allocator, mem')
        → console.println (codes "Calling avfork") w2 ≡ (ok tt, w3)
        → pinned type_size f (record { ptr = addr }) mem' ≡ ok f
        → avfork_call sys spawn allocator f w3 ≡ (ok (fd, pid), w4)
        → await_child sys stacks spawn console fuel fd w4 ≡ (ok tt, w5)
        → round_on sys stacks spawn console fuel show align type_size f mem a w1 ≡ (ok mem', w5)
    unfolding round_on boxed_or_panic
    round_on_done show align type_size addr mem mem' a allocator fd pid w1 w2 w3 w4 w5 e2 ea e3 ep
          e4 e5 =
        bind_eq _ _ _ e2
        ∙ bind_eq _ _ _ (ap (λ o. (o, w2)) ea)
        ∙ bind_eq _ _ _ e3
        ∙ bind_eq _ _ _ (ap (λ o. (o, w3)) ep)
        ∙ bind_eq _ _ _ (ap (λ p. (or_panic p.0, p.1)) e4)
        ∙ bind_eq _ _ _ e5

    fork_round_done :
        (reserved_stack_sz : ℕ) (show : Allocator → Sys W (Unit {0})) (align type_size : ℕ)
        (stack stack' : StackT) (mem mem' : Memory (ChildFn W)) (a : Allocator) (w w1 w5 : W)
        → reserve_or_panic sys stacks spawn console fuel reserved_stack_sz 100 (stack, w)
          ≡ (ok a, (stack', w1))
        → round_on sys stacks spawn console fuel show align type_size f mem a w1 ≡ (ok mem', w5)
        → fork_round sys stacks spawn console fuel reserved_stack_sz show align type_size f mem
            (stack, w)
          ≡ (ok mem', (stack', w5))
    unfolding fork_round
    fork_round_done reserved_stack_sz show align type_size stack stack' mem mem' a w w1 w5 e1 er =
        bind_eq _ _ _ e1 ∙ ap (λ p. (p.0, (stack', p.1))) er

    -- The descriptors after a round are those before it.
    fork_round-Same :
        (reserved_stack_sz : ℕ) (show : Allocator → Sys W (Unit {0})) (align type_size : ℕ)
        (mem : Memory (ChildFn W)) (stack : StackT) (w : W)
        → ((a : Allocator) (v : W) → (v' : W) × (show a v ≡ (ok tt, v')) × (table v' ≡ table v))
        → 0 < align
        → type_size + padding align type_size ≤ 100
        → align ≤ 2 ^ 61
        → Same table base w
        → (mem' : Memory (ChildFn W)) × (stack' : StackT) × (w' : W) × (fork_round sys stacks spawn
              console fuel reserved_stack_sz show align type_size f mem
              (stack, w)
            ≡ (ok mem', (stack', w')))
          × Same table base w'
    fork_round-Same reserved_stack_sz show align type_size mem stack w shows positive fits small
          same =
        let (n, stack', w1, e1, t1) = laws.reserves stack reserved_stack_sz 100 w in
        let (w2, e2, t2) = shows (new_allocator stack' 100) w1 in
        let (w3, e3, t3, g3) = laws.prints (codes "Calling avfork") w2 in
        let (addr, stack2) =
          stacks.allocate_obj_on_stack stack' (type_size + padding align type_size) in
        let (m, pid, w4, e4, small_fd, t4, gone) = laws.forks stack2 w3 in
        let (w5, e5, same5) =
          await_child-Same sys stacks spawn console table Gone f laws fuel base (pos m) w4 (
            gone,
            λ x. rw t4 (
                ap (λ fds. one x (pos m) + count x fds) (t3 ∙ t2 ∙ t1)
                ∙ ap (λ k. one x (pos m) + k) (same x)),
          ) in
        (
          write_obj type_size addr f mem,
          stack',
          w5,
          fork_round_done reserved_stack_sz show align type_size stack stack' mem
              (write_obj type_size addr f mem) (new_allocator stack' 100) w w1 w5
              (reserve_done sys stacks spawn console table Gone f laws fuel base reserved_stack_sz n
                stack stack' w w1 e1)
              (round_on_done show align type_size addr mem (write_obj type_size addr f mem)
                (new_allocator stack' 100)
                (with_object stack2 (type_size + padding align type_size)) (box_from_raw (pos m))
                pid w1 w2 w3 w4 w5 e2
                (alloc_obj_done align type_size stack' mem positive fits small) e3
                (pinned-write_obj sys stacks spawn console table Gone f laws fuel base type_size
                  addr mem)
                (avfork_done sys stacks spawn console table Gone f laws fuel base
                  (with_object stack2 (type_size + padding align type_size)) m pid w3 w4 e4
                  small_fd)
                e5),
          same5,
        )

    fork_rounds-Same :
        (rounds reserved_stack_sz : ℕ) (show : Allocator → Sys W (Unit {0})) (align type_size : ℕ)
        (mem : Memory (ChildFn W)) (stack : StackT) (w : W)
        → ((a : Allocator) (v : W) → (v' : W) × (show a v ≡ (ok tt, v')) × (table v' ≡ table v))
        → 0 < align
        → type_size + padding align type_size ≤ 100
        → align ≤ 2 ^ 61
        → Same table base w
        → (mem' : Memory (ChildFn W)) × (stack' : StackT) × (w' : W) × (fork_rounds sys stacks spawn
              console fuel rounds reserved_stack_sz show align type_size f mem
              (stack, w)
            ≡ (ok mem', (stack', w')))
          × Same table base w'
    unfolding fork_rounds
    fork_rounds-Same zero reserved_stack_sz show align type_size mem stack w shows positive fits
          small same =
        (mem, stack, w, refl, same)
    fork_rounds-Same (suc rounds) reserved_stack_sz show align type_size mem stack w shows positive
          fits small same =
        let (mem1, stack1, w1, e, same1) =
          fork_round-Same reserved_stack_sz show align type_size mem stack w shows positive fits
            small same in
        let (mem2, stack2, w2, e2, same2) =
          fork_rounds-Same rounds reserved_stack_sz show align type_size mem1 stack1 w1 shows
            positive fits small same1 in
        (mem2, stack2, w2, bind_eq _ _ _ e ∙ e2, same2)

    -- The stack is dropped when the rounds are over.
    dropped :
        (s : StackT) (w : W)
        → Same table base w
        → (w' : W) × (drop_stack sys stacks fuel console.error_format console.stack_format s w
            ≡ (ok tt, w'))
          × Same table base w'
    unfolding drop_stack
    dropped s w same =
        let (n, w', e, t) = laws.cleans s w in
        (w', release_done sys fuel _ _ _ n w w' e, λ x. ap (count x) t ∙ same x)

    -- A scope around uses of a stack that work.
    with_stack_done :
        (body : Sys (StackT × W) (Memory (ChildFn W))) (mem' : Memory (ChildFn W)) (stack' : StackT)
        (w w1 w2 : W)
        → body (new_stack_t stacks, w) ≡ (ok mem', (stack', w1))
        → drop_stack sys stacks fuel console.error_format console.stack_format stack' w1
          ≡ (ok tt, w2)
        → with_stack sys stacks spawn console fuel body w ≡ (ok tt, w2)
    unfolding with_stack
    with_stack_done body mem' stack' w w1 w2 e d =
        ap
          (λ r.
            (at_scope_end
                  (drop_stack sys stacks fuel console.error_format console.stack_format r.1.0) r.0
                >> pure tt)
              r.1.1)
          e
        ∙ rw d refl

    -- The rounds, and the stack around them.
    rounds_done :
        (rounds reserved_stack_sz : ℕ) (show : Allocator → Sys W (Unit {0})) (align type_size : ℕ)
        (mem : Memory (ChildFn W)) (w : W)
        → ((a : Allocator) (v : W) → (v' : W) × (show a v ≡ (ok tt, v')) × (table v' ≡ table v))
        → 0 < align
        → type_size + padding align type_size ≤ 100
        → align ≤ 2 ^ 61
        → Same table base w
        → (w' : W) × (with_stack sys stacks spawn console fuel
              (fork_rounds sys stacks spawn console fuel rounds reserved_stack_sz show align
                type_size f mem)
              w
            ≡ (ok tt, w'))
          × Same table base w'
    rounds_done rounds reserved_stack_sz show align type_size mem w shows positive fits small same =
        let (mem', stack', w1, e, same1) =
          fork_rounds-Same rounds reserved_stack_sz show align type_size mem (new_stack_t stacks) w
            shows positive fits small same in
        let (w2, e2, same2) = dropped stack' w1 same1 in
        (w2, with_stack_done _ mem' stack' w w1 w2 e e2, same2)

  -- `test_callback`, with a function of at most 100 bytes, its padding included, and an alignment of
  -- at most 2 ^ 61, runs its ten rounds to the end: the function always fits on the stack and is the
  -- one that the child runs, no unwrap and no assertion panics, and each pipe is closed, so that the
  -- open descriptors at the end are those at the start. The prints and the calls of the C libraries
  -- work, as `ForkLaws` says: each fork opens one descriptor, and reading it finds its end.
  pub test_callback_lem :
      (laws : ForkLaws sys stacks spawn console table Gone f) (fuel : ℕ)
      (show : Allocator → Sys W (Unit {0})) (align type_size : ℕ) (mem : Memory (ChildFn W)) (w : W)
      → ((a : Allocator) (v : W) → (v' : W) × (show a v ≡ (ok tt, v')) × (table v' ≡ table v))
      → 0 < align
      → type_size + padding align type_size ≤ 100
      → align ≤ 2 ^ 61
      → (w' : W) × (test_callback sys stacks spawn console fuel show align type_size f mem w
          ≡ (ok tt, w'))
        × Same table (table w) w'
  unfolding test_callback
  test_callback_lem laws fuel show align type_size mem w shows positive fits small =
      rounds_done laws fuel (table w) 10 (4096 * 100) show align type_size mem w shows positive fits
        small (λ x. refl)

-- The same holds for the three tests that fork, whatever they print of the allocator.
tests_avfork_lem :
    {W : Type 0} (sys : Kernel W) (stacks : StackLib W) (spawn : SpawnLib W) (console : Console W)
    (table : W → List ℤ) (Gone : ℤ → W → Type 0) (fuel : ℕ) (show : Allocator → Sys W (Unit {0}))
    → ((f : ChildFn W) → ForkLaws sys stacks spawn console table Gone f)
    → ((a : Allocator) (v : W) → (v' : W) × (show a v ≡ (ok tt, v')) × (table v' ≡ table v))
    → (mem : Memory (ChildFn W)) (w : W)
    → ((w' : W) × (test_avfork_naive sys stacks spawn console fuel show mem w ≡ (ok tt, w'))
        × Same table (table w) w')
      × ((w' : W) × (test_avfork_exec sys stacks spawn console fuel show mem w ≡ (ok tt, w'))
          × Same table (table w) w')
      × ((w' : W) × (test_avfork_cd_exec sys stacks spawn console fuel show mem w ≡ (ok tt, w'))
          × Same table (table w) w')
unfolding test_avfork_naive test_avfork_exec test_avfork_cd_exec
tests_avfork_lem {W} sys stacks spawn console table Gone fuel show laws shows mem w =
    let passes = λ (f : ChildFn W).
      test_callback_lem sys stacks spawn console table Gone f (laws f) fuel show 1 0 mem w shows
        (omega arith) (omega arith) (omega arith) in
    (
      passes return_callback,
      passes (echo_callback sys fuel console.error_format),
      passes (cd_exec_callback sys fuel console.error_format),
    )

-- The same holds for the example.
main_lem :
    {W : Type 0} (sys : Kernel W) (stacks : StackLib W) (spawn : SpawnLib W) (console : Console W)
    (table : W → List ℤ) (Gone : ℤ → W → Type 0) (fuel : ℕ)
    → ForkLaws sys stacks spawn console table Gone (cd_exec_callback sys fuel console.error_format)
    → (mem : Memory (ChildFn W)) (w : W)
    → (w' : W) × (main sys stacks spawn console fuel mem w ≡ (ok tt, w')) × Same table (table w) w'
unfolding main
main_lem sys stacks spawn console table Gone fuel laws mem w =
    rounds_done sys stacks spawn console table Gone (cd_exec_callback sys fuel console.error_format)
      laws fuel (table w) 10 0 (λ _. pure tt) 1 0 mem w (λ a v. (v, refl, refl)) (omega arith)
      (omega arith) (omega arith) (λ x. refl)
