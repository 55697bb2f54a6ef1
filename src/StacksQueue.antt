-- ===== src/StacksQueue.antt =====
-- src/StacksQueue.rs: the global queue of stacks. The queue itself is that of crossbeam.
pub mod Fifo
pub mod Pool
use avfork.Base.{ℕ, Option, none, some, List}
use avfork.Outcome.{SyscallError, Outcome, Sys, ok, pure, ◌>>◌}
use avfork.Kernel.{Kernel, Bytes}
use avfork.Lowlevel.Stack.{StackT, StackLib, new_stack_t, drop_stack}

-- `SegQueue<Stack>::push` and `pop`, on the static `QUEUE` in the world.
pub record SegQueue (W : Type 0) : Type 0 where
  pub push : StackT → W → W
  pub pop : W → Option StackT × W

module _ {W : Type 0} (sys : Kernel W) (lib : StackLib W) (queue : SegQueue W) where
  -- `unwrap_or(Stack::new())`: the new stack is made in any case, and dropped if it is not needed.
  unfoldable pub unwrap_or_new :
      ℕ
      → (SyscallError → List Bytes)
      → (StackT → List Bytes)
      → Option StackT × W
      → Outcome StackT × W
  unwrap_or_new fuel debug shown (none, w) = (ok (new_stack_t lib), w)
  unwrap_or_new fuel debug shown (some stack, w) =
      (drop_stack sys lib fuel debug shown (new_stack_t lib) >> pure stack) w

  -- `get`
  unfoldable pub get : ℕ → (SyscallError → List Bytes) → (StackT → List Bytes) → Sys W StackT
  get fuel debug shown w = unwrap_or_new fuel debug shown (queue.pop w)

  -- `put`
  unfoldable pub put : StackT → Sys W (Unit {0})
  put stack w = (ok tt, queue.push stack w)
