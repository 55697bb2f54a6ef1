-- ===== src/Tests/Pools.antt =====
-- The theorem on the owners of stacks at a concrete input.
use avfork.Base.{
  ℕ, zero, suc, ◌+◌, ◌≤◌, ◌<◌, ◌≡◌, refl, sym, ap, ◌⊎◌, inl, inr, List, [], ◌∷◌, Option, none, some,
  true, ◌==◌, if◌then◌else◌, arith, Bool-cases,
}
use avfork.Base.Int.{ℤ, pos, negsuc, IsI32}
use avfork.Outcome.{SyscallError, ok}
use avfork.Kernel.{Bytes}
use avfork.Lowlevel.Stack.{StackT, StackLib, new_stack_t}
use avfork.StacksQueue.{SegQueue}
use avfork.StacksQueue.Pool.{
  at_addr, count_at, count_addr, PoolOp, gets, puts, reserves_on, drops_stack, run_pool, Popped,
  PoolLaws,
}
use avfork.StacksQueue.Pool.Owners.{Exclusive, run_pool-Exclusive}
use avfork.Tests.World.{idle_kernel}

-- The queue and the mapped addresses.
record Pool : Type 0 where
  queued : List StackT
  live : List ℕ

-- An address behind all that are mapped.
abbrev above : List ℕ → ℕ
above [] = 1
above (a ∷ rest) = a + above rest

abbrev remove_addr : ℕ → List ℕ → List ℕ
remove_addr a [] = []
remove_addr a (b ∷ rest) = if b == a then rest else b ∷ remove_addr a rest

above_positive : (live : List ℕ) → 0 < above live
above_positive [] = omega arith
above_positive (a ∷ rest) = omega (arith, above_positive rest)

above_free : (x : ℕ) (live : List ℕ) → above live ≤ x → count_addr x live ≡ 0
above_free x [] h = refl
above_free x (a ∷ rest) h =
    let none_later = above_free x rest (omega arith) in ground (arith, above_positive rest)

remove_addr-count :
    (a x : ℕ) (live : List ℕ)
    → 0 < count_addr a live
    → at_addr x a + count_addr x (remove_addr a live) ≡ count_addr x live
remove_addr-count a x [] h = absurd (omega arith)
remove_addr-count a x (b ∷ rest) h = elim (Bool-cases (b == a)) [
  | inl same ↦ let found : b ≡ a = ground arith in rw same (omega (arith, ap (at_addr x) found))
  | inr other ↦
      let unit : at_addr a b ≡ 0 = rw other refl in
      rw other (omega (arith, remove_addr-count a x rest (omega arith)))
]

-- A stack of which the memory is to be mapped, by its address.
abbrev map_at : ℕ → StackT → ℕ → Pool → ℤ × StackT × Pool
map_at zero s size w =
    (pos 0, record { addr = above w.live; size = size }, record w { live = above w.live ∷ w.live })
map_at (suc a) s size w = (negsuc 11, s, w)

abbrev unmap_at : ℕ → Pool → ℤ × Pool
unmap_at zero w = (pos 0, w)
unmap_at (suc a) w = (pos 0, record w { live = remove_addr (suc a) w.live })

abbrev pop_one : List StackT → Pool → Option StackT × Pool
pop_one [] w = (none, w)
pop_one (s ∷ ss) w = (some s, record w { queued = ss })

-- Memory is mapped for a stack that has none, and no stack grows.
abbrev memory : StackLib Pool
memory = record {
  init_cached_stack = λ s. s;
  reserve_stack = λ s a b w. map_at s.addr s (a + b) w;
  cleanup_stack = λ s w. unmap_at s.addr w;
  allocate_obj_on_stack = λ s n. (s.addr, s);
}

abbrev last_in : SegQueue Pool
last_in = record { push = λ s w. record w { queued = s ∷ w.queued }; pop = λ w. pop_one w.queued w }

pop_one-Popped :
    (ss : List StackT) (w : Pool)
    → w.queued ≡ ss
    → Popped memory last_in (λ w. w.queued) (λ w. w.live) w (pop_one ss w)
pop_one-Popped [] w e = (λ x. refl, refl)
pop_one-Popped (s ∷ ss) w e = (λ x. ap (count_at x) (sym e), refl)

nowhere : (x : ℕ) → 0 < x → at_addr x 0 ≡ 0
nowhere x h = ground arith

unmap_at_done :
    (n : ℕ) (w : Pool)
    → (n ≡ 0) ⊎ (0 < count_addr n w.live)
    → (m : ℕ) × (w' : Pool) × (unmap_at n w ≡ (pos m, w'))
      × ((x : ℕ) → 0 < x → at_addr x n + count_addr x w'.live ≡ count_addr x w.live)
      × (w'.queued ≡ w.queued)
unmap_at_done zero w h = (0, w, refl, λ x p. omega (arith, nowhere x p), refl)
unmap_at_done (suc a) w (inr h) = (
  0,
  record w { live = remove_addr (suc a) w.live },
  refl,
  λ x p. remove_addr-count (suc a) x w.live h,
  refl,
)
unmap_at_done (suc a) w (inl e) = absurd (omega arith)

map_at_done :
    (n size : ℕ) (s : StackT) (w : Pool)
    → s.addr ≡ n
    → let (r, s', w') = map_at n s size w in
      IsI32 r
      × ((s'.addr ≡ n) ⊎ (count_addr s'.addr w.live ≡ 0))
      × ((x : ℕ)
          → 0 < x
          → at_addr x n + count_addr x w'.live ≡ at_addr x s'.addr + count_addr x w.live)
      × (w'.queued ≡ w.queued)
map_at_done zero size s w e = (
  (omega arith, omega arith),
  inr (above_free (above w.live) w.live (omega arith)),
  λ x p. omega (arith, nowhere x p),
  refl,
)
map_at_done (suc a) size s w e =
    ((omega arith, omega arith), inl e, λ x p. omega (arith, ap (at_addr x) e), refl)

memory-fresh : (new_stack_t memory).addr ≡ 0
unfolding new_stack_t
memory-fresh = refl

memory-PoolLaws : PoolLaws memory last_in (λ w. w.queued) (λ w. w.live)
memory-PoolLaws = record {
  fresh = memory-fresh;
  pushed = λ s w. (λ x. refl, refl);
  popped = λ w. pop_one-Popped w.queued w refl;
  cleaned = λ s w h. unmap_at_done s.addr w h;
  reserved = λ s a b w h. map_at_done s.addr (a + b) s w refl;
}

abbrev nothing_mapped : Pool
nothing_mapped = record { queued = []; live = [] }

nothing_mapped-Exclusive :
    Exclusive (idle_kernel true) memory last_in (λ w. w.queued) (λ w. w.live) [] nothing_mapped
nothing_mapped-Exclusive = record { balanced = λ x h. refl; distinct = λ x h. omega arith }

-- Two stacks are reserved, one is put back and got again, and the other dropped.
abbrev pool_ops : List PoolOp
pool_ops =
    gets
    ∷ reserves_on 0 4096 100
    ∷ gets
    ∷ reserves_on 0 4096 0
    ∷ puts 1
    ∷ gets
    ∷ reserves_on 0 9000 0
    ∷ drops_stack 1
    ∷ []

abbrev quiet : SyscallError → List Bytes
quiet e = []

run_pool-Exclusive_example :
    (owned' : List StackT) × (w' : Pool) × (run_pool
        (idle_kernel true)
        memory
        last_in
        5
        quiet
        (λ s. [])
        pool_ops
        []
        nothing_mapped
      ≡ (ok owned', w'))
    × Exclusive (idle_kernel true) memory last_in (λ w. w.queued) (λ w. w.live) owned' w'
run_pool-Exclusive_example =
    run_pool-Exclusive (idle_kernel true) memory last_in (λ w. w.queued) (λ w. w.live)
      memory-PoolLaws 5 quiet (λ s. []) pool_ops [] nothing_mapped nothing_mapped-Exclusive
