-- ===== src/Programs/Forked.antt =====
-- The tests of src/utility.rs and src/syscall.rs that run something in a forked process.
pub mod Passes
pub mod Closes
pub mod Failures
use avfork.Base.{ℕ, Bool, true, List, [], ◌∷◌, ◌++◌, Option, none, some, codes, if◌then◌else◌}
use avfork.Base.Int.{ℤ, pos, eqb_ℤ}
use avfork.Outcome.{
  SyscallError, Outcome, ok, panicked, and_then, Sys, pure, lift, ◌>>=◌, ◌>>◌, dropping,
  dropping_on_panic,
}
use avfork.Kernel.{Kernel, Bytes}
use avfork.Syscall.Io.{exit}
use avfork.Syscall.Flags.{any_path}
use avfork.Syscall.Fd.{FdPath, FdPathBox, at_fdcwd, path_openat, drop_path_box}
use avfork.Syscall.Candidate.{
  CStrArray, new_cstr_array, cstr_array, new_filename, ExecvelCandidate, new_candidate,
  FexecvelCandidate, new_fd_candidate,
}
use avfork.Syscall.Exec.{execvel, fexecvel}
use avfork.Utility.{to_cstr, errx_macro}
use avfork.Programs.{panic_on_err}

-- fork(2), whose child runs a program of its own and whose parent gets a process id; waitpid(2),
-- which answers the id and the status; and the macro WEXITSTATUS.
pub record ProcessLib (W : Type 0) : Type 0 where
  pub fork : Sys W (Unit {0}) → W → ℤ × W
  pub waitpid : ℤ → W → ℤ × ℤ × W
  pub wexitstatus : ℤ → ℤ

-- `Option::unwrap`
abbrev pub some_or_panic : {A : Type 0} → Option A → Outcome A
some_or_panic none = panicked
some_or_panic (some a) = ok a

-- The pointers to some C strings, each unwrapped, and a null pointer pushed behind them.
unfoldable pub pointers_of : List Bytes → Outcome (List (Option Bytes))
pointers_of [] = ok (none ∷ [])
pointers_of (s ∷ ss) =
    and_then (some_or_panic (to_cstr s)) λ c. and_then (pointers_of ss) λ cs. ok (some c ∷ cs)

unfoldable pub array_of : List Bytes → Outcome CStrArray
unfolding pointers_of
array_of ss = and_then (pointers_of ss) λ arr. some_or_panic (new_cstr_array arr)

abbrev pub nul : Bytes → Bytes
nul s = s ++ 0 ∷ []

module _ {W : Type 0} (sys : Kernel W) (procs : ProcessLib W) (fuel : ℕ)
    (debug : SyscallError → List Bytes) (box_format : FdPathBox → List Bytes) where
  -- `run`, as its parent goes through it; the child runs `f` and exits.
  unfoldable pub run : Sys W (Unit {0}) → Sys W ℤ
  run f w =
      let (pid, w') = procs.fork (f >> exit sys (pos 0)) w in
      let (waited, status, w'') = procs.waitpid pid w' in
      (if eqb_ℤ pid waited then ok (procs.wexitstatus status) else panicked, w'')

  -- `assert_eq!(run(…), expected)`
  unfoldable pub assert_run : Sys W (Unit {0}) → ℤ → Sys W (Unit {0})
  assert_run f expected =
      run f >>= λ status. if eqb_ℤ status expected then pure tt else lift panicked

  unfoldable pub test_errx : Sys W (Unit {0})
  test_errx =
      assert_run (errx_macro sys fuel (pos 0) (codes "Hello, world from test_errx!" ∷ [])) (pos 0)
      >> assert_run (errx_macro sys fuel (pos 0) (codes "Hello, world from test_errx!" ∷ []))
          (pos 0)

  -- `errx!(1, "{}", execvel(…))`, and the same with `fexecvel`
  unfoldable pub execvel_child : ExecvelCandidate → CStrArray → CStrArray → Sys W (Unit {0})
  execvel_child candidate argv envp =
      execvel sys candidate argv envp >>= λ e. errx_macro sys fuel (pos 1) (debug e)

  unfoldable pub fexecvel_child : FexecvelCandidate → CStrArray → CStrArray → Sys W (Unit {0})
  fexecvel_child candidate argv envp =
      fexecvel sys candidate argv envp >>= λ e. errx_macro sys fuel (pos 1) (debug e)

  -- The closures `run_program`
  unfoldable pub run_by_path : List Bytes → CStrArray → Bytes → CStrArray → Sys W (Unit {0})
  run_by_path paths envp filename argv = lift (some_or_panic (new_filename filename)) >>= λ f.
      lift (some_or_panic (new_candidate f paths)) >>= λ candidate.
      assert_run (execvel_child candidate argv envp) (pos 0)

  unfoldable pub run_by_dir : List FdPath → CStrArray → Bytes → CStrArray → Sys W (Unit {0})
  run_by_dir paths envp filename argv = lift (some_or_panic (new_filename filename)) >>= λ f.
      lift (some_or_panic (new_fd_candidate f paths)) >>= λ candidate.
      assert_run (fexecvel_child candidate argv envp) (pos 0)

  unfoldable pub test_execvel : Sys W (Unit {0})
  test_execvel =
      let paths = codes "/bin" ∷ codes "/usr/bin" ∷ [] in
      lift (array_of (nul (codes "echo") ∷ nul (codes "Hello") ∷ [])) >>= λ argv.
      lift (array_of (nul (codes "A=B") ∷ [])) >>= λ envp.
      run_by_path paths envp (codes "echo") argv
      >> run_by_path paths envp (codes "env") (cstr_array (codes "env" ∷ []))

  -- The two boxes are dropped in their order, and the first one also if the second cannot be opened.
  unfoldable pub with_dirs : (FdPathBox → FdPathBox → Sys W (Unit {0})) → Sys W (Unit {0})
  with_dirs body =
      let cwd = at_fdcwd sys in
      let drop = drop_path_box sys fuel debug box_format in
      panic_on_err (path_openat sys cwd (codes "/bin") any_path true) >>= λ b1.
      dropping_on_panic (drop b1)
        (panic_on_err (path_openat sys cwd (codes "/usr/bin") any_path true))
      >>= λ b2. dropping (drop b1 >> drop b2) (body b1 b2)

  unfoldable pub test_fexecvel : Sys W (Unit {0})
  test_fexecvel =
      let envp = cstr_array (codes "A=B" ∷ []) in
      with_dirs (λ b1 b2.
        run_by_dir (b1.boxed_path ∷ b2.boxed_path ∷ []) envp (codes "echo")
          (cstr_array (codes "echo" ∷ codes "Hello" ∷ []))
        >> run_by_dir (b1.boxed_path ∷ b2.boxed_path ∷ []) envp (codes "env")
            (cstr_array (codes "env" ∷ [])))
