-- ===== src/Programs/Unwind/Calls.antt =====
-- The calls of the programs of Programs, where each may fail but the releases.
use avfork.Base.{
  ℕ, ◌+◌, ◌^◌, ◌<◌, ◌≡◌, sym, subst, inl, inr, List, ◌∷◌, codes, arith, ◌==◌, Bool-cases,
}
use avfork.Base.Int.{ℤ, pos, negsuc}
use avfork.Outcome.{
  Outcome, ok, err, exited, replaced, panicked, undefined, out_of_fuel, pure, lift, ◌>>=◌,
}
use avfork.Kernel.{Kernel, Bytes}
use avfork.Error.{to_result}
use avfork.Syscall.Io.{read}
use avfork.Syscall.Fd.{box_from_raw, drop_box}
use avfork.Syscall.Fd.Table.{one, count}
use avfork.Syscall.Fd.Table.Counts.{count_self}
use avfork.Utility.Release.{release_done}
use avfork.Lowlevel.Stack.{StackT, StackLib}
use avfork.Lowlevel.Fork.{ChildFn, SpawnLib}
use avfork.Programs.{or_panic, panic_on_err, Console, await_child}
use avfork.Programs.Rounds.{Same}
use avfork.Programs.Unwind.{
  IsUnwound, UnwindsIn, bind-UnwindsIn, at_scope_end-UnwindsIn, or_panic-to_result,
}

module _ {W : Type 0} (sys : Kernel W) (stacks : StackLib W) (spawn : SpawnLib W)
    (console : Console W) (table : W → List ℤ) (f : ChildFn W) where
  -- What `aspawn` does to the open descriptors: after a success there is one more.
  abbrev pub Opened : ℤ → List ℤ → List ℤ → Type 0
  Opened (pos n) fds fds' = (n < 2 ^ 31) × (fds' ≡ pos n ∷ fds)
  Opened (negsuc n) fds fds' = fds' ≡ fds

  -- The calls of the programs, of which any may fail but the releases: `table` has the open
  -- descriptors. A `println!` that fails panics.
  pub record FailLaws : Type 0 where
    pub prints :
        (text : Bytes) (w : W) → UnwindsIn (λ v. table v ≡ table w) (console.println text w)
    pub reserves : (s : StackT) (a b : ℕ) (w : W) → table (stacks.reserve_stack s a b w).2 ≡ table w
    pub forks :
        (s : StackT) (w : W)
        → let (r, pid, w') = spawn.aspawn (pos 0) s (λ fd. f (record { fd = fd })) w in
          Opened r (table w) (table w')
    pub reads : (fd : ℤ) (n : ℕ) (w : W) → table (sys.psys_read fd n w).2 ≡ table w
    pub closes :
        (fd : ℤ) (w : W)
        → 0 < count fd (table w)
        → (n : ℕ) × (w' : W) × (sys.psys_close fd w ≡ (pos n, w'))
          × ((x : ℤ) → one x fd + count x (table w') ≡ count x (table w))
    pub cleans :
        (s : StackT) (w : W)
        → (n : ℕ) × (w' : W) × (stacks.cleanup_stack s w ≡ (pos n, w')) × (table w' ≡ table w)

  module _ (laws : FailLaws) (fuel : ℕ) (base : List ℤ) where
    -- The open descriptors are those of `base` and the one of the box.
    abbrev pub Held : ℤ → W → Type 0
    Held fd w = (x : ℤ) → count x (table w) ≡ one x fd + count x base

    pub print-UnwindsIn :
        (P : List ℤ → Type 0) (text : Bytes) (w : W)
        → P (table w)
        → UnwindsIn (λ v. P (table v)) (console.println text w)
    print-UnwindsIn P text w p = let (u, same) = laws.prints text w in (u, subst P (sym same) p)

    after_code :
        {A : Type 0} (P : W → Type 0) (o : Outcome ℕ) (g : ℕ → A) (w : W)
        → IsUnwound (or_panic o)
        → P w
        → UnwindsIn P (panic_on_err (lift o >>= λ n. pure (g n)) w)
    after_code P (ok a) g w u p = (tt, p)
    after_code P (err e) g w u p = (tt, p)
    after_code P panicked g w u p = (tt, p)
    after_code P (exited c) g w u p = elim u [ ]
    after_code P replaced g w u p = elim u [ ]
    after_code P undefined g w u p = elim u [ ]
    after_code P out_of_fuel g w u p = elim u [ ]

    read-UnwindsIn :
        (P : List ℤ → Type 0) (fd : ℤ) (w : W)
        → P (table w)
        → UnwindsIn (λ v. P (table v)) (panic_on_err (read sys fd 1) w)
    unfolding read
    read-UnwindsIn P fd w p =
        let (r, stored, w') = sys.psys_read fd 1 w in
        after_code (λ v. P (table v)) (to_result sys.debug_assertions r) (λ n. (n, stored)) w'
          (or_panic-to_result sys.debug_assertions r) (subst P (sym (laws.reads fd 1 w)) p)

    drop_box_done :
        (fd : ℤ) (w : W)
        → Held fd w
        → (w' : W) × (drop_box sys fuel console.error_format console.box_format (box_from_raw fd) w
            ≡ (ok tt, w'))
          × Same table base w'
    unfolding drop_box box_from_raw
    drop_box_done fd w held =
        let open_fd : 0 < count fd (table w) = omega (arith, held fd, count_self fd) in
        let (n, w', e, kept) = laws.closes fd w open_fd in
        (w', release_done sys fuel _ _ _ n w w' e, λ x. omega (arith, kept x, held x))

    pub await_child-UnwindsIn :
        (fd : ℤ) (w : W)
        → Held fd w
        → UnwindsIn
            (Same table base)
            (await_child sys stacks spawn console fuel (box_from_raw fd) w)
    unfolding await_child box_from_raw
    await_child-UnwindsIn fd w held =
        let H = λ (fds : List ℤ). (x : ℤ) → count x fds ≡ one x fd + count x base in
        at_scope_end-UnwindsIn (Held fd) (Same table base) _ _
          (bind-UnwindsIn (Held fd) (Held fd) _ _
            (bind-UnwindsIn (Held fd) (Held fd) _ _
              (bind-UnwindsIn (Held fd) (Held fd) _ _
                (print-UnwindsIn H (codes "avfork is done") w held) (λ v h. h)
                (λ a v e h. print-UnwindsIn H (codes "Wait for child process to exit or exec") v h))
              (λ v h. h) (λ a v e h. read-UnwindsIn H fd v h))
            (λ v h. h)
            (λ (cnt, stored) v e h. elim (Bool-cases (cnt == 0)) [
              | inl end ↦ rw end (print-UnwindsIn H (codes "Test completed") v h)
              | inr more ↦ rw more (tt, h)
            ]))
          (λ v h. drop_box_done fd v h)
