-- ===== src/StacksQueue/Pool.antt =====
-- Clients that share the queue of src/StacksQueue.rs: they get stacks, reserve on them, put them
-- back or drop them, in any order; and the memory that the C library has mapped for the stacks.
pub mod Owners
use avfork.Base.{
  ℕ, zero, suc, ◌+◌, ◌≤◌, ◌<◌, ◌≡◌, ◌⊎◌, List, [], ◌∷◌, Option, none, some, get_elem?, ◌==◌,
  if◌then◌else◌,
}
use avfork.Base.Int.{ℤ, pos, IsI32}
use avfork.Outcome.{
  SyscallError, Outcome, ok, err, exited, replaced, panicked, undefined, out_of_fuel, Sys, pure,
  ◌>>=◌, ◌>>◌,
}
use avfork.Kernel.{Kernel, Bytes}
use avfork.Syscall.Fd.Table.{remove_at}
use avfork.Lowlevel.Stack.{StackT, StackLib, Allocator, new_stack_t, reserve, drop_stack}
use avfork.Lowlevel.Alloc.Writes.{set_at}
use avfork.StacksQueue.{SegQueue, get, put}

-- 1 if the stack has its memory at this address.
abbrev pub at_addr : ℕ → ℕ → ℕ
at_addr x addr = if addr == x then 1 else 0

-- How many of the stacks have their memory at an address.
abbrev pub count_at : ℕ → List StackT → ℕ
count_at x [] = 0
count_at x (s ∷ ss) = at_addr x s.addr + count_at x ss

-- How often an address is in a list.
abbrev pub count_addr : ℕ → List ℕ → ℕ
count_addr x [] = 0
count_addr x (a ∷ rest) = at_addr x a + count_addr x rest

-- A client gets a stack, or does something to the `i`-th that the clients have.
pub data PoolOp : Type 0 where
  gets : PoolOp
  puts : ℕ → PoolOp
  reserves_on : ℕ → ℕ → ℕ → PoolOp
  drops_stack : ℕ → PoolOp

module _ {W : Type 0} (sys : Kernel W) (lib : StackLib W) (queue : SegQueue W) (fuel : ℕ)
    (debug : SyscallError → List Bytes) (shown : StackT → List Bytes) where
  -- `reserve` changes the stack also where it fails.
  abbrev pub keep_reserved :
      ℕ → List StackT → Outcome Allocator × StackT × W → Outcome (List StackT) × W
  keep_reserved i owned (ok a, s, w) = (ok (set_at i s owned), w)
  keep_reserved i owned (err e, s, w) = (ok (set_at i s owned), w)
  keep_reserved i owned (exited c, s, w) = (exited c, w)
  keep_reserved i owned (replaced, s, w) = (replaced, w)
  keep_reserved i owned (panicked, s, w) = (panicked, w)
  keep_reserved i owned (undefined, s, w) = (undefined, w)
  keep_reserved i owned (out_of_fuel, s, w) = (out_of_fuel, w)

  abbrev pub on_stack : PoolOp → List StackT → Option StackT → Sys W (List StackT)
  on_stack gets owned s = pure owned
  on_stack (puts i) owned none = pure owned
  on_stack (puts i) owned (some s) = put sys lib queue s >> pure (remove_at i owned)
  on_stack (reserves_on i a b) owned none = pure owned
  on_stack (reserves_on i a b) owned (some s) = λ w. keep_reserved i owned (reserve sys lib s a b w)
  on_stack (drops_stack i) owned none = pure owned
  on_stack (drops_stack i) owned (some s) =
      drop_stack sys lib fuel debug shown s >> pure (remove_at i owned)

  -- The stacks that the clients have after an operation.
  unfoldable pub pool_step : PoolOp → List StackT → Sys W (List StackT)
  pool_step gets owned = get sys lib queue fuel debug shown >>= λ s. pure (s ∷ owned)
  pool_step (puts i) owned = on_stack (puts i) owned (get_elem? owned i)
  pool_step (reserves_on i a b) owned = on_stack (reserves_on i a b) owned (get_elem? owned i)
  pool_step (drops_stack i) owned = on_stack (drops_stack i) owned (get_elem? owned i)

  unfoldable pub run_pool : List PoolOp → List StackT → Sys W (List StackT)
  run_pool [] owned = pure owned
  run_pool (op ∷ ops) owned = pool_step op owned >>= λ more. run_pool ops more

module _ {W : Type 0} (lib : StackLib W) (queue : SegQueue W) (contents : W → List StackT)
    (mapped : W → List ℕ) where
  -- What is taken out of the queue was in it.
  abbrev pub Popped : W → Option StackT × W → Type 0
  Popped w (none, w') =
      ((x : ℕ) → count_at x (contents w') ≡ count_at x (contents w)) × (mapped w' ≡ mapped w)
  Popped w (some s, w') =
      ((x : ℕ) → at_addr x s.addr + count_at x (contents w') ≡ count_at x (contents w))
      × (mapped w' ≡ mapped w)

  -- The queue and the C library, as far as the owners rely on them; `mapped` has the addresses of
  -- the memory that the stacks have, and the address 0 is that of no memory.
  pub record PoolLaws : Type 0 where
    pub fresh : (new_stack_t lib).addr ≡ 0
    pub pushed :
        (s : StackT) (w : W)
        → ((x : ℕ)
            → count_at x (contents (queue.push s w)) ≡ at_addr x s.addr + count_at x (contents w))
          × (mapped (queue.push s w) ≡ mapped w)
    pub popped : (w : W) → Popped w (queue.pop w)
    -- munmap(2) of memory that is mapped, or of none
    pub cleaned :
        (s : StackT) (w : W)
        → (s.addr ≡ 0) ⊎ (0 < count_addr s.addr (mapped w))
        → (n : ℕ) × (w' : W) × (lib.cleanup_stack s w ≡ (pos n, w'))
          × ((x : ℕ)
              → 0 < x
              → at_addr x s.addr + count_addr x (mapped w') ≡ count_addr x (mapped w))
          × (contents w' ≡ contents w)
    -- the memory is kept, or there is other memory in its place
    pub reserved :
        (s : StackT) (a b : ℕ) (w : W)
        → (s.addr ≡ 0) ⊎ (0 < count_addr s.addr (mapped w))
        → let (r, s', w') = lib.reserve_stack s a b w in
          IsI32 r
          × ((s'.addr ≡ s.addr) ⊎ (count_addr s'.addr (mapped w) ≡ 0))
          × ((x : ℕ)
              → 0 < x
              → at_addr x s.addr + count_addr x (mapped w')
                ≡ at_addr x s'.addr + count_addr x (mapped w))
          × (contents w' ≡ contents w)
