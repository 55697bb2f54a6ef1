-- ===== src/Programs/Rounds.antt =====
-- What the loops of Programs rely on, and the calls of one round.
pub mod Run
use avfork.Base.{
  pair_eq, ℕ, zero, suc, ◌+◌, ◌*◌, ◌^◌, ◌≤◌, ◌<◌, ◌≡◌, refl, sym, ap, subst, ◌∙◌, inl, inr, Bool,
  true, false, List, [], ◌∷◌, Option, none, some, codes, arith, ltb, leb, le→leb, ◌==◌, ◌&&◌,
  Bool-cases, if◌then◌else◌,
}
use avfork.Base.Int.{ℤ, pos, negsuc, IsI32}
use avfork.Outcome.{Outcome, ok, Sys, pure, lift, continue_with, ◌>>=◌, ◌>>◌}
use avfork.Kernel.{Kernel, Bytes}
use avfork.Error.Codes.{to_result_nonneg}
use avfork.Syscall.Io.{read}
use avfork.Syscall.Fd.{Fd, FdBox, box_from_raw, drop_box}
use avfork.Syscall.Fd.Table.{one, count}
use avfork.Syscall.Fd.Table.Counts.{count_self}
use avfork.Utility.Release.{release_done}
use avfork.Lowlevel.Stack.{
  StackT, StackLib, Allocator, new_allocator, new_stack_t, reserve, drop_stack,
}
use avfork.Lowlevel.Alloc.{Memory, StackBox, boxed, write_obj, deref, alloc_obj}
use avfork.Lowlevel.Alloc.Rounding.{padding}
use avfork.Lowlevel.Alloc.Accounting.{allocated, alloc_obj-allocated}
use avfork.Lowlevel.Fork.{ChildFn, SpawnLib, avfork_call}
use avfork.Lowlevel.Fork.Results.{avforks, fork_call-Forked}
use avfork.Programs.{
  or_panic, panic_on_err, pinned, Console, await_child, boxed_or_panic, reserve_or_panic,
  fork_round, fork_rounds, test_callback, main, cd_exec_callback,
}

-- The open descriptors are those of `base`, each as often.
abbrev pub Same : {W : Type 0} → (W → List ℤ) → List ℤ → W → Type 0
Same table base w = (x : ℤ) → count x (table w) ≡ count x base

module _ {W : Type 0} (sys : Kernel W) (stacks : StackLib W) (spawn : SpawnLib W)
    (console : Console W) (table : W → List ℤ) (Gone : ℤ → W → Type 0) (f : ChildFn W) where
  abbrev pub Holds : List ℤ → ℤ → W → Type 0
  Holds base fd w = Gone fd w × ((x : ℤ) → count x (table w) ≡ one x fd + count x base)

  -- The calls of the programs, where they work: `table` has the open descriptors, and `Gone fd` says
  -- that the child behind the pipe `fd` has closed its end or will.
  pub record ForkLaws : Type 0 where
    pub prints :
        (text : Bytes) (w : W)
        → (w' : W) × (console.println text w ≡ (ok tt, w'))
          × (table w' ≡ table w)
          × ((fd : ℤ) → Gone fd w → Gone fd w')
    pub reserves :
        (s : StackT) (a b : ℕ) (w : W)
        → (n : ℕ) × (s' : StackT) × (w' : W) × (stacks.reserve_stack s a b w ≡ (pos n, s', w'))
          × (table w' ≡ table w)
    pub forks :
        (s : StackT) (w : W)
        → (n : ℕ) × (pid : ℤ) × (w' : W) × (spawn.aspawn (pos 0) s (λ fd. f (record { fd = fd })) w
            ≡ (pos n, pid, w'))
          × (n < 2 ^ 31)
          × (table w' ≡ pos n ∷ table w)
          × Gone (pos n) w'
    pub reads_end :
        (fd : ℤ) (w : W)
        → Gone fd w
        → (stored : Bytes) × (w' : W) × (sys.psys_read fd 1 w ≡ (pos 0, stored, w'))
          × (table w' ≡ table w)
    pub closes :
        (fd : ℤ) (w : W)
        → 0 < count fd (table w)
        → (n : ℕ) × (w' : W) × (sys.psys_close fd w ≡ (pos n, w'))
          × ((x : ℤ) → one x fd + count x (table w') ≡ count x (table w))
    pub cleans :
        (s : StackT) (w : W)
        → (n : ℕ) × (w' : W) × (stacks.cleanup_stack s w ≡ (pos n, w')) × (table w' ≡ table w)

  module _ (laws : ForkLaws) (fuel : ℕ) (base : List ℤ) where
    read_nothing :
        (fd : ℤ) (w w' : W) (stored : Bytes)
        → sys.psys_read fd 1 w ≡ (pos 0, stored, w')
        → read sys fd 1 w ≡ (ok (0, stored), w')
    unfolding read
    read_nothing fd w w' stored e = rw (read, e) (rw (to_result_nonneg sys.debug_assertions 0) refl)

    -- The descriptor of the round is closed.
    closing :
        (fd : ℤ) (w : W)
        → ((x : ℤ) → count x (table w) ≡ one x fd + count x base)
        → (n : ℕ) × (w' : W) × (sys.psys_close fd w ≡ (pos n, w')) × Same table base w'
    closing fd w held =
        let open_fd : 0 < count fd (table w) = omega (arith, held fd, count_self fd) in
        let (n, w', e, kept) = laws.closes fd w open_fd in
        (n, w', e, λ x. omega (arith, kept x, held x))

    -- The end of a round, on the box of the fork.
    pub await_child-Same :
        (fd : ℤ) (w : W)
        → Holds base fd w
        → (w' : W) × (await_child sys stacks spawn console fuel (box_from_raw fd) w ≡ (ok tt, w'))
          × Same table base w'
    unfolding await_child box_from_raw drop_box
    await_child-Same fd w (gone, held) =
        let (w1, e1, t1, g1) = laws.prints (codes "avfork is done") w in
        let (w2, e2, t2, g2) = laws.prints (codes "Wait for child process to exit or exec") w1 in
        let (stored, w3, e3, t3) = laws.reads_end fd w2 (g2 fd (g1 fd gone)) in
        let (w4, e4, t4, g4) = laws.prints (codes "Test completed") w3 in
        let (n, w5, e5, same) = closing fd w4 (λ x. ap (count x) (t4 ∙ t3 ∙ t2 ∙ t1) ∙ held x) in
        (
          w5,
          rw (await_child, e1)
              (rw e2 (
                rw (read_nothing fd w2 w3 stored e3)
                  (rw e4 (rw (drop_box, release_done sys fuel _ _ _ n w4 w5 e5) refl)))),
          same,
        )

    pub avfork_done :
        (allocator : Allocator) (n : ℕ) (pid : ℤ) (w w' : W)
        → spawn.aspawn (pos 0) allocator.stack_impl (λ fd. f (record { fd = fd })) w
          ≡ (pos n, pid, w')
        → n < 2 ^ 31
        → avfork_call sys spawn allocator f w ≡ (ok (box_from_raw (pos n), pid), w')
    unfolding box_from_raw
    avfork_done allocator n pid w w' e small =
        let (o, v) =
          fork_call-Forked sys spawn allocator f avforks w w' (pos n) pid e (small, omega arith) in
        pair_eq (avfork_call sys spawn allocator f w) _ _ o v

    pub reserve_done :
        (reserved_stack_sz n : ℕ) (stack stack' : StackT) (w w' : W)
        → stacks.reserve_stack stack reserved_stack_sz 100 w ≡ (pos n, stack', w')
        → reserve_or_panic sys stacks spawn console fuel reserved_stack_sz 100 (stack, w)
          ≡ (ok (new_allocator stack' 100), (stack', w'))
    unfolding reserve_or_panic reserve
    reserve_done reserved_stack_sz n stack stack' w w' e =
        rw (reserve_or_panic, reserve, e) (rw (to_result_nonneg sys.debug_assertions n) refl)

    -- The function is read back from where `alloc_obj` has put it.
    pub pinned-write_obj :
        (type_size addr : ℕ) (mem : Memory (ChildFn W))
        → pinned type_size f (record { ptr = addr }) (write_obj type_size addr f mem) ≡ ok f
    unfolding pinned write_obj deref
    pinned-write_obj type_size addr mem = ground arith
