-- ===== src/Programs/Forked/Passes.antt =====
-- Tests of Programs/Forked pass.
use avfork.Base.{ℕ, ◌≡◌, refl, ◌∙◌, List, [], ◌∷◌, ◌++◌, none, some, codes}
use avfork.Base.Int.{ℤ, pos, eqb_ℤ_iff}
use avfork.Outcome.{bind_eq, SyscallError, ok, replaced, Sys, ◌>>◌}
use avfork.Kernel.{Kernel, Bytes}
use avfork.Syscall.Io.{exit}
use avfork.Syscall.Fd.{FdPathBox}
use avfork.Syscall.Candidate.{
  CStrArray, last_is_null, new_cstr_array, cstr_array, Filename, has_slash, refuses,
  ExecvelCandidate, new_filename, new_candidate, pointed_strings,
}
use avfork.Syscall.Exec.{execve}
use avfork.Syscall.Exec.Buffer.{until_nul}
use avfork.Syscall.Exec.Search.{search}
use avfork.Syscall.Exec.Refinement.{exec_path, execvel-search}
use avfork.Utility.{to_cstr}
use avfork.Programs.Forked.{
  ProcessLib, run, assert_run, array_of, pointers_of, execvel_child, run_by_path, test_execvel,
}

module _ {W : Type 0} (sys : Kernel W) (procs : ProcessLib W) where
  -- A child has been waited for, and this was its exit status.
  abbrev pub WaitedFor : Sys W (Unit {0}) → ℤ → W → Type 0
  WaitedFor p status w =
      (pid : ℤ) × (raw : ℤ) × (w' : W) × (w'' : W) × (procs.fork p w ≡ (pid, w'))
      × (procs.waitpid pid w' ≡ (pid, raw, w''))
      × (procs.wexitstatus raw ≡ status)

  -- The programs that are executed succeed.
  pub record RunLaws : Type 0 where
    pub replaced_well : (p : Sys W (Unit {0})) (w : W) → (p w).0 ≡ replaced → WaitedFor p (pos 0) w

  module _ (laws : RunLaws) (fuel : ℕ) (debug : SyscallError → List Bytes)
      (box_format : FdPathBox → List Bytes) where
    run_replaced :
        (f : Sys W (Unit {0})) (w : W)
        → (f w).0 ≡ replaced
        → (w' : W) × (assert_run sys procs fuel debug box_format f (pos 0) w ≡ (ok tt, w'))
    unfolding run assert_run
    run_replaced f w e =
        let child : ((f >> exit sys (pos 0)) w).0 ≡ replaced = rw e refl in
        let (pid, raw, w', w'', forked, waited, status) =
          laws.replaced_well (f >> exit sys (pos 0)) w child in
        (
          w'',
          rw (assert_run, run, forked) (rw waited (rw ((eqb_ℤ_iff pid pid).1 refl, status) refl)),
        )

    execvel_child_replaced :
        (f : Filename) (path : Bytes) (paths : List Bytes) (c : ExecvelCandidate)
        (argv envp : CStrArray) (w : W)
        → new_candidate f (path ∷ paths) ≡ some c
        → (exec_path sys argv envp f path w).0 ≡ replaced
        → (execvel_child sys procs fuel debug box_format c argv envp w).0 ≡ replaced
    unfolding execvel_child search
    execvel_child_replaced f path paths c argv envp w built e =
        rw (execvel_child, execvel-search sys argv envp f (path ∷ paths) c w built)
          (rw (search, e) refl)

    exec_path_replaced :
        (f : Filename) (path : Bytes) (argv envp : CStrArray) (args envs : List Bytes) (w : W)
        → pointed_strings argv.arr ≡ ok args
        → pointed_strings envp.arr ≡ ok envs
        → (sys.psys_execve (until_nul (path ++ b'/' ∷ f.filename)) args envs w).0 ≡ replaced
        → (exec_path sys argv envp f path w).0 ≡ replaced
    unfolding execve
    exec_path_replaced f path argv envp args envs w a b e = rw (execve, a, b) (rw e refl)

    run_by_path_passes :
        (filename path : Bytes) (paths : List Bytes) (f : Filename) (c : ExecvelCandidate)
        (argv envp : CStrArray) (w : W)
        → new_filename filename ≡ some f
        → new_candidate f (path ∷ paths) ≡ some c
        → (exec_path sys argv envp f path w).0 ≡ replaced
        → (w' : W) × (run_by_path sys procs fuel debug box_format
              (path ∷ paths)
              envp
              filename
              argv
              w
            ≡ (ok tt, w'))
    unfolding run_by_path
    run_by_path_passes filename path paths f c argv envp w named built e =
        let (w', passes) =
          run_replaced (execvel_child sys procs fuel debug box_format c argv envp) w
            (execvel_child_replaced f path paths c argv envp w built e) in
        (w', rw (run_by_path, named) (rw built passes))

    -- `test_execvel` passes, from the C strings to the exit status, where /bin/echo and /bin/env can
    -- be executed with the arguments of the test and succeed: each array and each filename is
    -- accepted, no unwrap panics, and the child executes the path that is put together from "/bin"
    -- and the name.
    pub test_execvel_lem :
        (w : W)
        → ((v : W)
            → (sys.psys_execve
                (codes "/bin/echo")
                (codes "echo" ∷ codes "Hello" ∷ [])
                (codes "A=B" ∷ [])
                v).0
              ≡ replaced)
        → ((v : W)
            → (sys.psys_execve (codes "/bin/env") (codes "env" ∷ []) (codes "A=B" ∷ []) v).0
              ≡ replaced)
        → (w' : W) × (test_execvel sys procs fuel debug box_format w ≡ (ok tt, w'))
    unfolding test_execvel array_of pointers_of to_cstr new_cstr_array last_is_null cstr_array
        pointed_strings new_filename has_slash new_candidate refuses
    test_execvel_lem w echoes lists =
        let envp : CStrArray = record { arr = some (codes "A=B") ∷ none ∷ [] } in
        let argv : CStrArray = record {
          arr = some (codes "echo") ∷ some (codes "Hello") ∷ none ∷ [];
        } in
        let paths = codes "/usr/bin" ∷ [] in
        let echo : Filename = record { filename = codes "echo" } in
        let env : Filename = record { filename = codes "env" } in
        let (w1, e1) =
          run_by_path_passes (codes "echo") (codes "/bin") paths echo
            (record { file = echo; paths = codes "/bin" ∷ paths }) argv envp w refl refl
            (exec_path_replaced echo (codes "/bin") argv envp (codes "echo" ∷ codes "Hello" ∷ [])
              (codes "A=B" ∷ []) w refl refl (echoes w)) in
        let (w2, e2) =
          run_by_path_passes (codes "env") (codes "/bin") paths env
            (record { file = env; paths = codes "/bin" ∷ paths }) (cstr_array (codes "env" ∷ []))
            envp w1 refl refl
            (exec_path_replaced env (codes "/bin") (cstr_array (codes "env" ∷ [])) envp
              (codes "env" ∷ []) (codes "A=B" ∷ []) w1 refl refl (lists w1)) in
        (w2, bind_eq _ _ _ e1 ∙ e2)
