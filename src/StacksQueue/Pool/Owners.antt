-- ===== src/StacksQueue/Pool/Owners.antt =====
-- Every stack of src/StacksQueue.rs has one owner, a client or the queue, and its memory is released
-- with it.
use avfork.Base.{
  ℕ, zero, suc, ◌+◌, ◌≤◌, ◌<◌, ◌≡◌, refl, sym, ap, ◌∙◌, ◌⊎◌, inl, inr, List, [], ◌∷◌, Option, none,
  some, get_elem?, ◌==◌, arith, Bool-cases, Option-cases,
}
use avfork.Base.Int.{ℤ, pos, negsuc, IsI32}
use avfork.Outcome.{SyscallError, Outcome, ok, bind_eq, and_then}
use avfork.Kernel.{Kernel, Bytes}
use avfork.Error.{to_result}
use avfork.Error.Codes.{to_result_nonneg, to_result_negative}
use avfork.Utility.Release.{release_done}
use avfork.Syscall.Fd.Table.{remove_at}
use avfork.Lowlevel.Stack.{
  StackT, StackLib, Allocator, new_allocator, new_stack_t, reserve, drop_stack,
}
use avfork.Lowlevel.Alloc.Writes.{set_at}
use avfork.StacksQueue.{SegQueue, unwrap_or_new, get, put}
use avfork.StacksQueue.Pool.{
  at_addr, count_at, count_addr, PoolOp, gets, puts, reserves_on, drops_stack, keep_reserved,
  on_stack, pool_step, run_pool, Popped, PoolLaws,
}

at_addr_self : (x : ℕ) → at_addr x x ≡ 1
at_addr_self x = ground arith

count_at-remove_at :
    (x i : ℕ) (owned : List StackT) (s : StackT)
    → get_elem? owned i ≡ some s
    → at_addr x s.addr + count_at x (remove_at i owned) ≡ count_at x owned
count_at-remove_at x i [] s e = cc
count_at-remove_at x zero (c ∷ cs) s e = let same : c ≡ s = ground arith in rw same refl
count_at-remove_at x (suc i) (c ∷ cs) s e = omega (arith, count_at-remove_at x i cs s e)

count_at-set_at :
    (x i : ℕ) (owned : List StackT) (s s' : StackT)
    → get_elem? owned i ≡ some s
    → at_addr x s.addr + count_at x (set_at i s' owned) ≡ at_addr x s'.addr + count_at x owned
count_at-set_at x i [] s s' e = cc
count_at-set_at x zero (c ∷ cs) s s' e = let same : c ≡ s = ground arith in rw same (omega arith)
count_at-set_at x (suc i) (c ∷ cs) s s' e = omega (arith, count_at-set_at x i cs s s' e)

module _ {W : Type 0} (sys : Kernel W) (lib : StackLib W) (queue : SegQueue W)
    (contents : W → List StackT) (mapped : W → List ℕ) where
  -- The memory that is mapped is that of the clients' stacks and of those in the queue, and no two
  -- of these share any.
  pub record Exclusive (owned : List StackT) (w : W) : Type 0 where
    pub balanced :
        (x : ℕ) → 0 < x → count_addr x (mapped w) ≡ count_at x owned + count_at x (contents w)
    pub distinct : (x : ℕ) → 0 < x → count_addr x (mapped w) ≤ 1

  module _ (laws : PoolLaws lib queue contents mapped) (fuel : ℕ)
      (debug : SyscallError → List Bytes) (shown : StackT → List Bytes) where
    -- A step of the clients that comes back with the memory accounted for.
    abbrev Stays : Outcome (List StackT) × W → Type 0
    Stays r = (owned' : List StackT) × (w' : W) × (r ≡ (ok owned', w')) × Exclusive owned' w'

    drop_stack_done :
        (s : StackT) (w : W)
        → (s.addr ≡ 0) ⊎ (0 < count_addr s.addr (mapped w))
        → (w' : W) × (drop_stack sys lib fuel debug shown s w ≡ (ok tt, w'))
          × ((x : ℕ)
              → 0 < x
              → at_addr x s.addr + count_addr x (mapped w') ≡ count_addr x (mapped w))
          × (contents w' ≡ contents w)
    unfolding drop_stack
    drop_stack_done s w has =
        let (n, w', e, gone, kept) = laws.cleaned s w has in
        (w', release_done sys fuel _ _ _ n w w' e, gone, kept)

    -- The memory of a stack that a client has is mapped.
    owned_mapped :
        (i : ℕ) (owned : List StackT) (s : StackT) (w : W)
        → get_elem? owned i ≡ some s
        → Exclusive owned w
        → (s.addr ≡ 0) ⊎ (0 < count_addr s.addr (mapped w))
    owned_mapped i owned s w e own = elim (Bool-cases (s.addr == 0)) [
      | inl null ↦ inl (ground arith)
      | inr real ↦
          let positive : 0 < s.addr = ground arith in
          inr (
            omega (
              arith,
              own.balanced s.addr positive,
              count_at-remove_at s.addr i owned s e,
              at_addr_self s.addr,
            ))
    ]

    -- A new stack has no memory.
    null_at : (x : ℕ) → 0 < x → at_addr x (new_stack_t lib).addr ≡ 0
    null_at x h = rw (laws.fresh) (ground arith)

    get-Stays :
        (owned : List StackT) (w : W) (p : Option StackT × W)
        → queue.pop w ≡ p
        → Popped lib queue contents mapped w p
        → Exclusive owned w
        → Stays (pool_step sys lib queue fuel debug shown gets owned w)
    unfolding pool_step get unwrap_or_new
    get-Stays owned w (none, w') raw (same, kept) own = (
      new_stack_t lib ∷ owned,
      w',
      bind_eq _ _ _ (ap (unwrap_or_new sys lib queue fuel debug shown) raw),
      record {
        balanced =
            λ x h. omega (arith, ap (count_addr x) kept, own.balanced x h, same x, null_at x h);
        distinct = λ x h. omega (arith, ap (count_addr x) kept, own.distinct x h);
      },
    )
    get-Stays owned w (some s, w') raw (taken, kept) own =
        let (w2, dropped, gone, same) = drop_stack_done (new_stack_t lib) w' (inl laws.fresh) in
        (
          s ∷ owned,
          w2,
          bind_eq _ _ _
              (ap (unwrap_or_new sys lib queue fuel debug shown) raw ∙ bind_eq _ _ _ dropped),
          record {
            balanced = λ x h. omega (
              arith,
              gone x h,
              ap (count_addr x) kept,
              own.balanced x h,
              taken x,
              ap (count_at x) same,
              null_at x h,
            );
            distinct = λ x h.
                omega (arith, gone x h, ap (count_addr x) kept, own.distinct x h, null_at x h);
          },
        )

    put-Stays :
        (i : ℕ) (owned : List StackT) (s : StackT) (w : W)
        → get_elem? owned i ≡ some s
        → Exclusive owned w
        → Stays (pool_step sys lib queue fuel debug shown (puts i) owned w)
    unfolding pool_step put
    put-Stays i owned s w e own =
        let (queued, kept) = laws.pushed s w in
        (
          remove_at i owned,
          queue.push s w,
          ap (λ o. on_stack sys lib queue fuel debug shown (puts i) owned o w) e,
          record {
            balanced = λ x h. omega (
              arith,
              ap (count_addr x) kept,
              own.balanced x h,
              queued x,
              count_at-remove_at x i owned s e,
            );
            distinct = λ x h. omega (arith, ap (count_addr x) kept, own.distinct x h);
          },
        )

    drop-Stays :
        (i : ℕ) (owned : List StackT) (s : StackT) (w : W)
        → get_elem? owned i ≡ some s
        → Exclusive owned w
        → Stays (pool_step sys lib queue fuel debug shown (drops_stack i) owned w)
    unfolding pool_step
    drop-Stays i owned s w e own =
        let (w', dropped, gone, same) = drop_stack_done s w (owned_mapped i owned s w e own) in
        (
          remove_at i owned,
          w',
          ap (λ o. on_stack sys lib queue fuel debug shown (drops_stack i) owned o w) e
              ∙ bind_eq _ _ _ dropped,
          record {
            balanced = λ x h. omega (
              arith,
              gone x h,
              own.balanced x h,
              ap (count_at x) same,
              count_at-remove_at x i owned s e,
            );
            distinct = λ x h. omega (arith, gone x h, own.distinct x h);
          },
        )

    keep_reserved_done :
        (r : ℤ) (i : ℕ) (owned : List StackT) (a : Allocator) (s : StackT) (w : W)
        → IsI32 r
        → keep_reserved sys lib queue fuel debug shown i owned
            (and_then (to_result sys.debug_assertions r) (λ _. ok a), s, w)
          ≡ (ok (set_at i s owned), w)
    keep_reserved_done (pos n) i owned a s w h = rw (to_result_nonneg sys.debug_assertions n) refl
    keep_reserved_done (negsuc n) i owned a s w h =
        rw (to_result_negative sys.debug_assertions n h.1) refl

    -- Memory in the place of other memory is mapped once.
    still_distinct :
        (x old new before after : ℕ)
        → (new ≡ old) ⊎ (new ≡ x → before ≡ 0)
        → at_addr x old + after ≡ at_addr x new + before
        → before ≤ 1
        → after ≤ 1
    still_distinct x old new before after (inl same) e once = omega (arith, ap (at_addr x) same)
    still_distinct x old new before after (inr free) e once = elim (Bool-cases (new == x)) [
      | inl here ↦
          let empty = free (ground arith) in
          let unit : at_addr x new ≡ 1 = rw here refl in omega arith
      | inr there ↦ let unit : at_addr x new ≡ 0 = rw there refl in omega arith
    ]

    reserve-Stays :
        (i a b : ℕ) (owned : List StackT) (s : StackT) (w : W)
        → get_elem? owned i ≡ some s
        → Exclusive owned w
        → Stays (pool_step sys lib queue fuel debug shown (reserves_on i a b) owned w)
    unfolding pool_step reserve
    reserve-Stays i a b owned s w e own =
        let (r, s', w') = lib.reserve_stack s a b w in
        let (is_int, free, moved, same) = laws.reserved s a b w (owned_mapped i owned s w e own) in
        (
          set_at i s' owned,
          w',
          ap (λ o. on_stack sys lib queue fuel debug shown (reserves_on i a b) owned o w) e
              ∙ keep_reserved_done r i owned (new_allocator s' b) s' w' is_int,
          record {
            balanced = λ x h. omega (
              arith,
              moved x h,
              own.balanced x h,
              ap (count_at x) same,
              count_at-set_at x i owned s s' e,
            );
            distinct = λ x h. elim free [
              | inl kept ↦
                  still_distinct x s.addr s'.addr (count_addr x (mapped w))
                    (count_addr x (mapped w')) (inl kept) (moved x h) (own.distinct x h)
              | inr unmapped ↦
                  still_distinct x s.addr s'.addr (count_addr x (mapped w))
                    (count_addr x (mapped w'))
                    (inr (λ here. ap (λ y. count_addr y (mapped w)) (sym here) ∙ unmapped))
                    (moved x h) (own.distinct x h)
            ];
          },
        )

    pool_step-Stays :
        (op : PoolOp) (owned : List StackT) (w : W)
        → Exclusive owned w
        → Stays (pool_step sys lib queue fuel debug shown op owned w)
    unfolding pool_step
    pool_step-Stays gets owned w own = get-Stays owned w (queue.pop w) refl (laws.popped w) own
    pool_step-Stays (puts i) owned w own = elim (Option-cases (get_elem? owned i)) [
      | inl none_there ↦ (owned, w, rw none_there refl, own)
      | inr (s, e) ↦ put-Stays i owned s w e own
    ]
    pool_step-Stays (reserves_on i a b) owned w own = elim (Option-cases (get_elem? owned i)) [
      | inl none_there ↦ (owned, w, rw none_there refl, own)
      | inr (s, e) ↦ reserve-Stays i a b owned s w e own
    ]
    pool_step-Stays (drops_stack i) owned w own = elim (Option-cases (get_elem? owned i)) [
      | inl none_there ↦ (owned, w, rw none_there refl, own)
      | inr (s, e) ↦ drop-Stays i owned s w e own
    ]

    -- Whatever sequence of `get`, `put`, `reserve` and drop the clients of the queue run, errors of
    -- `reserve` included, it ends well, and at its end each mapped piece of memory belongs to
    -- exactly one stack, which is a client's or in the queue: no memory is leaked, also not by the
    -- stack that `get` makes in vain, and no two stacks share any. It is to be so at the start. The
    -- queue gives back what was put, each once, the C library maps new memory where it maps, and
    -- unmaps what is mapped without an error (`PoolLaws`).
    pub run_pool-Exclusive :
        (ops : List PoolOp) (owned : List StackT) (w : W)
        → Exclusive owned w
        → (owned' : List StackT) × (w' : W) × (run_pool sys lib queue fuel debug shown ops owned w
            ≡ (ok owned', w'))
          × Exclusive owned' w'
    unfolding run_pool
    run_pool-Exclusive [] owned w own = (owned, w, refl, own)
    run_pool-Exclusive (op ∷ ops) owned w own =
        let (more, w1, e, own1) = pool_step-Stays op owned w own in
        let (last, w2, e2, own2) = run_pool-Exclusive ops more w1 own1 in
        (last, w2, bind_eq _ _ _ e ∙ e2, own2)
