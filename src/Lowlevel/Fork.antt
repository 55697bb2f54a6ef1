-- ===== src/Lowlevel/Fork.antt =====
-- `avfork` and `avfork_rec` of src/lowlevel.rs, over the functions of the C library aspawn.
pub mod Results
use avfork.Base.{ℕ}
use avfork.Base.Int.{ℤ, pos, to_i32}
use avfork.Outcome.{Outcome, ok, and_then, Sys}
use avfork.Kernel.{Kernel}
use avfork.Error.{to_result}
use avfork.Syscall.Fd.{Fd, FdBox, box_from_raw}
use avfork.Lowlevel.Stack.{StackT, Allocator}

-- The function that runs in the child: it gets the write end of the pipe and the parent's signal
-- set, which it may change, and returns its exit status.
abbrev pub ChildFn : Type 0 → Type 0
ChildFn W = Fd → ℕ → Sys W (ℤ × ℕ)

-- The callback that the C library calls: raw descriptor and signal set.
abbrev pub Callback : Type 0 → Type 0
Callback W = ℤ → ℕ → Sys W (ℤ × ℕ)

-- The C functions: they get the process id's old content, the stack and the callback, and return a
-- code and the new content. `aspawn_rec` gets the signal set of the caller's parent too.
pub record SpawnLib (W : Type 0) : Type 0 where
  pub aspawn : ℤ → StackT → Callback W → W → ℤ × ℤ × W
  pub aspawn_rec : ℤ → StackT → Callback W → ℕ → W → ℤ × ℤ × W

-- `aspawn_fn`
unfoldable pub aspawn_fn : {W : Type 0} → ChildFn W → Callback W
aspawn_fn func write_end_fd old_sigset = func (record { fd = write_end_fd }) old_sigset

module _ {W : Type 0} (sys : Kernel W) (lib : SpawnLib W) where
  -- `avfork`: the read end of the pipe, in a box, and the process id of the child.
  unfoldable pub avfork_call : Allocator → ChildFn W → Sys W (FdBox × ℤ)
  avfork_call stack_alloc func w =
      let (r, pid, w') = lib.aspawn (pos 0) stack_alloc.stack_impl (aspawn_fn func) w in
      (and_then (to_result sys.debug_assertions r) (λ fd. ok (box_from_raw (to_i32 fd), pid)), w')

  -- `avfork_rec`
  unfoldable pub avfork_rec_call : Allocator → ChildFn W → ℕ → Sys W (FdBox × ℤ)
  avfork_rec_call stack_alloc func old_sigset w =
      let (r, pid, w') =
        lib.aspawn_rec (pos 0) stack_alloc.stack_impl (aspawn_fn func) old_sigset w in
      (and_then (to_result sys.debug_assertions r) (λ fd. ok (box_from_raw (to_i32 fd), pid)), w')
