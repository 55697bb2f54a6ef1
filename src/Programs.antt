-- ===== src/Programs.antt =====
-- The programs of the repository that put the library together: the example of examples/avfork.rs,
-- and the functions that the tests of src/lowlevel.rs run in the child and around it.
pub mod Allocating
pub mod Child
pub mod Forked
pub mod Restarting
pub mod Rounds
pub mod Unwind
use avfork.Base.{ℕ, zero, suc, ◌*◌, List, [], ◌∷◌, codes, ◌==◌, if◌then◌else◌}
use avfork.Base.Int.{ℤ, pos}
use avfork.Outcome.{
  SyscallError, Outcome, ok, err, exited, replaced, panicked, undefined, out_of_fuel, and_then,
  assume_init, Sys, pure, lift, ◌>>=◌, ◌>>◌, at_scope_end, dropping, on_world,
}
use avfork.Kernel.{Kernel, Bytes}
use avfork.Syscall.Raw.{chdir}
use avfork.Syscall.Candidate.{CStrArray, cstr_array}
use avfork.Syscall.Exec.{execve}
use avfork.Utility.{errx_macro, unwrap}
use avfork.Syscall.Io.{read}
use avfork.Syscall.Fd.{FdBox, drop_box}
use avfork.Lowlevel.Stack.{StackT, StackLib, Allocator, new_stack_t, reserve, drop_stack}
use avfork.Lowlevel.Alloc.{Memory, StackBox, Allocation, boxed, rejected, deref, alloc_obj}
use avfork.Lowlevel.Fork.{ChildFn, SpawnLib, avfork_call}

module _ {W : Type 0} (sys : Kernel W) (fuel : ℕ) (debug : SyscallError → List Bytes) where
  -- `let err = execve(…); errx!(1, "execve failed: {}", err)`; `debug` is the text of an error.
  unfoldable pub exec_or_die : Bytes → List Bytes → List Bytes → Sys W (ℤ × ℕ)
  exec_or_die pathname argv envp = execve sys pathname (cstr_array argv) (cstr_array envp) >>= λ e.
      errx_macro sys fuel (pos 1) (codes "execve failed: " ∷ debug e)

  -- `test_avfork_exec_callback`
  unfoldable pub echo_callback : ChildFn W
  echo_callback fd old_sigset =
      exec_or_die (codes "/bin/echo") (codes "/bin/echo" ∷ codes "Hello" ∷ codes "World!" ∷ [])
        (codes "A=B" ∷ [])

  -- `test_avfork_cd_exec_callback`
  unfoldable pub cd_exec_callback : ChildFn W
  cd_exec_callback fd old_sigset w =
      let (o, w') = chdir sys (codes "/tmp") w in
      (unwrap sys fuel debug o
          >> exec_or_die (codes "/bin/ls") (codes "/bin/ls" ∷ []) (codes "A=B" ∷ []))
        w'

  -- `dummy_avfork_callback` of the example
  unfoldable pub dummy_avfork_callback : ChildFn W
  dummy_avfork_callback = cd_exec_callback

-- `dummy_avfork_callback` of the tests
unfoldable pub return_callback : {W : Type 0} → ChildFn W
return_callback fd old_sigset = pure (pos 0, old_sigset)

-- `Result::unwrap` of the standard library, and the arms of a `match` that panic.
abbrev pub or_panic : {A : Type 0} → Outcome A → Outcome A
or_panic (ok a) = ok a
or_panic (err e) = panicked
or_panic (exited c) = exited c
or_panic replaced = replaced
or_panic panicked = panicked
or_panic undefined = undefined
or_panic out_of_fuel = out_of_fuel

abbrev pub panic_on_err : {W A : Type 0} → Sys W A → Sys W A
panic_on_err m w = let (o, w') = m w in (or_panic o, w')

-- The function behind a pinned box; one whose type has the size 0 is the only value of its type.
unfoldable pub pinned :
    {W : Type 0} → ℕ → ChildFn W → StackBox → Memory (ChildFn W) → Outcome (ChildFn W)
pinned type_size f b mem = if type_size == 0 then ok f else assume_init (deref b mem)

-- What the programs use beside the library: `println!`, and the formats of an error, a box and a
-- stack.
pub record Console (W : Type 0) : Type 0 where
  pub println : Bytes → Sys W (Unit {0})
  pub error_format : SyscallError → List Bytes
  pub box_format : FdBox → List Bytes
  pub stack_format : StackT → List Bytes

module _ {W : Type 0} (sys : Kernel W) (stacks : StackLib W) (spawn : SpawnLib W)
    (console : Console W) (fuel : ℕ) where
  -- From the message after `avfork` to the end of the round, where the box is dropped.
  unfoldable pub await_child : FdBox → Sys W (Unit {0})
  await_child fd = dropping (drop_box sys fuel console.error_format console.box_format fd) (
      console.println (codes "avfork is done")
      >> console.println (codes "Wait for child process to exit or exec")
      >> panic_on_err (read sys fd.boxed.fd 1)
      >>= λ (cnt, _).
          (if cnt == 0 then pure tt else lift panicked) >> console.println (codes "Test completed"))

  -- `alloc_obj(…)` where a rejection panics.
  unfoldable pub boxed_or_panic :
      {V : Type 0} → Allocation V × Allocator × Memory V → Outcome (StackBox × Allocator × Memory V)
  boxed_or_panic (boxed b, allocator, mem) = ok (b, allocator, mem)
  boxed_or_panic (rejected f, allocator, mem) = panicked

  -- `stack.reserve(…).unwrap()`, on the variable `stack` of the caller.
  unfoldable pub reserve_or_panic : ℕ → ℕ → Sys (StackT × W) Allocator
  reserve_or_panic reserved_stack_sz reserved_obj_sz (stack, w) =
      let (o, stack', w') = reserve sys stacks stack reserved_stack_sz reserved_obj_sz w in
      (or_panic o, (stack', w'))

  -- A round on the allocator: `show` is what the test prints of it, and the function is of a type
  -- of the given alignment and size.
  unfoldable pub round_on :
      (Allocator → Sys W (Unit {0}))
      → ℕ
      → ℕ
      → ChildFn W
      → Memory (ChildFn W)
      → Allocator
      → Sys W (Memory (ChildFn W))
  round_on show align type_size f mem allocator =
      show allocator
      >> (lift (alloc_obj sys.debug_assertions stacks align type_size f allocator mem)
          >>= λ allocation. lift (boxed_or_panic allocation) >>= λ (b, allocator', mem').
              console.println (codes "Calling avfork")
              >> (lift (pinned type_size f b mem') >>= λ func.
                  panic_on_err (avfork_call sys spawn allocator' func) >>= λ (fd, _).
                  await_child fd >> pure mem'))

  -- One round of the loops, on the variable `stack`.
  unfoldable pub fork_round :
      ℕ
      → (Allocator → Sys W (Unit {0}))
      → ℕ
      → ℕ
      → ChildFn W
      → Memory (ChildFn W)
      → Sys (StackT × W) (Memory (ChildFn W))
  fork_round reserved_stack_sz show align type_size f mem =
      reserve_or_panic reserved_stack_sz 100 >>= λ allocator.
      on_world (round_on show align type_size f mem allocator)

  unfoldable pub fork_rounds :
      ℕ
      → ℕ
      → (Allocator → Sys W (Unit {0}))
      → ℕ
      → ℕ
      → ChildFn W
      → Memory (ChildFn W)
      → Sys (StackT × W) (Memory (ChildFn W))
  fork_rounds zero reserved_stack_sz show align type_size f mem = pure mem
  fork_rounds (suc rounds) reserved_stack_sz show align type_size f mem =
      fork_round reserved_stack_sz show align type_size f mem >>= λ mem'.
      fork_rounds rounds reserved_stack_sz show align type_size f mem'

  -- A scope around some uses of a new stack, which is dropped at its end.
  unfoldable pub with_stack : {A : Type 0} → Sys (StackT × W) A → Sys W (Unit {0})
  with_stack body w =
      let (o, (stack, w')) = body (new_stack_t stacks, w) in
      (at_scope_end (drop_stack sys stacks fuel console.error_format console.stack_format stack) o
          >> pure tt)
        w'

  -- `test_callback`
  unfoldable pub test_callback :
      (Allocator → Sys W (Unit {0})) → ℕ → ℕ → ChildFn W → Memory (ChildFn W) → Sys W (Unit {0})
  test_callback show align type_size f mem =
      with_stack (fork_rounds 10 (4096 * 100) show align type_size f mem)

  -- `test_avfork_naive`, `test_avfork_exec` and `test_avfork_cd_exec`: the functions are items, of a
  -- type with the alignment 1 and the size 0.
  unfoldable pub test_avfork_naive :
      (Allocator → Sys W (Unit {0})) → Memory (ChildFn W) → Sys W (Unit {0})
  test_avfork_naive show mem = test_callback show 1 0 return_callback mem

  unfoldable pub test_avfork_exec :
      (Allocator → Sys W (Unit {0})) → Memory (ChildFn W) → Sys W (Unit {0})
  test_avfork_exec show mem =
      test_callback show 1 0 (echo_callback sys fuel console.error_format) mem

  unfoldable pub test_avfork_cd_exec :
      (Allocator → Sys W (Unit {0})) → Memory (ChildFn W) → Sys W (Unit {0})
  test_avfork_cd_exec show mem =
      test_callback show 1 0 (cd_exec_callback sys fuel console.error_format) mem

  -- `main` of the example, whose function is an item: its type has the alignment 1 and the size 0.
  unfoldable pub main : Memory (ChildFn W) → Sys W (Unit {0})
  main mem =
      with_stack
        (fork_rounds 10 0 (λ _. pure tt) 1 0 (cd_exec_callback sys fuel console.error_format) mem)
