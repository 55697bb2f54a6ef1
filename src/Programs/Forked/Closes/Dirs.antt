-- ===== src/Programs/Forked/Closes/Dirs.antt =====
-- The test of Programs.Forked that opens directories closes them, whichever of its calls fail.
use avfork.Base.{ℕ, ◌+◌, ◌<◌, ◌≡◌, refl, sym, ap, subst, ◌∙◌, List, [], ◌∷◌, codes, arith, true}
use avfork.Base.Int.{ℤ, pos, negsuc}
use avfork.Outcome.{
  SyscallError, Outcome, ok, Sys, bind_eq, ◌>>=◌, ◌>>◌, dropping, at_unwinding, continue_with,
}
use avfork.Kernel.{Kernel, Bytes}
use avfork.Syscall.Flags.{any_path, path_flags}
use avfork.Syscall.Fd.{FdPath, FdPathBox, at_fdcwd, path_box_from_raw, path_openat, drop_path_box}
use avfork.Syscall.Fd.Table.{count}
use avfork.Syscall.Fd.Table.Counts.{count_self}
use avfork.Utility.Release.{release_done}
use avfork.Syscall.Candidate.{cstr_array}
use avfork.Programs.{panic_on_err}
use avfork.Programs.Rounds.{Same}
use avfork.Programs.Unwind.{UnwindsIn, at_scope_end-UnwindsIn}
use avfork.Programs.Forked.{ProcessLib, run_by_dir, with_dirs, test_fexecvel}
use avfork.Programs.Forked.Closes.{
  DirLaws, OpensOne, Quiet, Quiet-bind, Quiet-run_by_dir, path_openat_opened, path_openat_refused,
}

module _ {W : Type 0} (sys : Kernel W) (procs : ProcessLib W) (table : W → List ℤ) where
  module _ (laws : DirLaws sys procs table) (fuel : ℕ) (debug : SyscallError → List Bytes)
      (box_format : FdPathBox → List Bytes) where
    -- The open descriptors are some held ones and those of `base`.
    abbrev Beside : List ℤ → List ℤ → W → Type 0
    Beside held base w = (x : ℤ) → count x (table w) ≡ count x held + count x base

    abbrev drop_dir : ℤ → Sys W (Unit {0})
    drop_dir fd = drop_path_box sys fuel debug box_format (path_box_from_raw fd)

    drop_dir_lem :
        (fd : ℤ) (held base : List ℤ) (w : W)
        → Beside (fd ∷ held) base w
        → (w' : W) × (drop_dir fd w ≡ (ok tt, w')) × Beside held base w'
    unfolding drop_path_box path_box_from_raw
    drop_dir_lem fd held base w beside =
        let there : 0 < count fd (table w) = rw (beside fd, count_self fd) (omega arith) in
        let (n, w', e, less) = laws.closes fd w there in
        (
          w',
          release_done sys fuel debug _ _ n w w' e,
          λ x. let gone = less x in let before = beside x in omega arith,
        )

    none_held : (base : List ℤ) (w : W) → Beside [] base w → Same table base w
    none_held base w beside x = let same = beside x in omega arith

    drop_dirs_lem :
        (fd1 fd2 : ℤ) (base : List ℤ) (w : W)
        → Beside (fd1 ∷ fd2 ∷ []) base w
        → (w' : W) × ((drop_dir fd1 >> drop_dir fd2) w ≡ (ok tt, w')) × Same table base w'
    drop_dirs_lem fd1 fd2 base w beside =
        let (w1, e1, beside1) = drop_dir_lem fd1 (fd2 ∷ []) base w beside in
        let (w2, e2, beside2) = drop_dir_lem fd2 [] base w1 beside1 in
        (w2, bind_eq _ _ (λ _. drop_dir fd2) e1 ∙ e2, none_held base w2 beside2)

    -- The body of a program on two directories, and what follows the opening of the second one.
    abbrev Body : Type 0
    Body = FdPathBox → FdPathBox → Sys W (Unit {0})

    abbrev then_drop : Body → FdPathBox → FdPathBox → Sys W (Unit {0})
    then_drop body b1 b2 =
        let drop = drop_path_box sys fuel debug box_format in
        dropping (drop b1 >> drop b2) (body b1 b2)

    abbrev after_second : Body → FdPathBox → Outcome FdPathBox × W → Outcome (Unit {0}) × W
    after_second body b1 (o, w) =
        (at_unwinding (drop_path_box sys fuel debug box_format b1) o >>= then_drop body b1) w

    abbrev second_dir : FdPath → Body → FdPathBox → Sys W (Unit {0})
    second_dir cwd body b1 w =
        after_second body b1 (panic_on_err (path_openat sys cwd (codes "/usr/bin") any_path true) w)

    second_dir-UnwindsIn :
        (cwd : FdPath) (body : Body) (fd1 : ℤ) (base : List ℤ) (w : W) (r : ℤ × W)
        → ((b1 b2 : FdPathBox) → Quiet table (body b1 b2))
        → Beside (fd1 ∷ []) base w
        → OpensOne sys procs table (table w) r
        → sys.psys_openat cwd.path_fd (codes "/usr/bin") (path_flags sys.libc any_path true) 0 w ≡ r
        → UnwindsIn (Same table base) (second_dir cwd body (path_box_from_raw fd1) w)
    second_dir-UnwindsIn cwd body fd1 base w (pos n, w') quiet beside (small, opened) e =
        subst (λ o. UnwindsIn (Same table base) (after_second body (path_box_from_raw fd1) o))
          (sym (path_openat_opened sys procs table cwd _ any_path true n w w' small e))
          (at_scope_end-UnwindsIn (λ v. table v ≡ table w') (Same table base) _ _
            (quiet (path_box_from_raw fd1) (path_box_from_raw (pos n)) w')
            (λ v same. drop_dirs_lem fd1 (pos n) base v (λ x.
              let now = ap (count x) (same ∙ opened) in let before = beside x in omega arith)))
    second_dir-UnwindsIn cwd body fd1 base w (negsuc n, w') quiet beside (small, kept) e =
        subst (λ o. UnwindsIn (Same table base) (after_second body (path_box_from_raw fd1) o))
          (sym (path_openat_refused sys procs table cwd _ any_path true n w w' small e))
          (let (v, dropped, left) =
              drop_dir_lem fd1 [] base w' (λ x. ap (count x) kept ∙ beside x) in
            rw dropped (tt, none_held base v left))

    with_dirs-UnwindsIn :
        (body : Body) (w : W) (r : ℤ × W)
        → ((b1 b2 : FdPathBox) → Quiet table (body b1 b2))
        → OpensOne sys procs table (table w) r
        → sys.psys_openat
            (at_fdcwd sys).path_fd
            (codes "/bin")
            (path_flags sys.libc any_path true)
            0
            w
          ≡ r
        → UnwindsIn (Same table (table w)) (with_dirs sys procs fuel debug box_format body w)
    unfolding with_dirs
    with_dirs-UnwindsIn body w (pos n, w') quiet (small, opened) e =
        subst
          (λ o.
            UnwindsIn (Same table (table w))
              (continue_with o.0 (second_dir (at_fdcwd sys) body) o.1))
          (sym (path_openat_opened sys procs table (at_fdcwd sys) _ any_path true n w w' small e))
          (second_dir-UnwindsIn (at_fdcwd sys) body (pos n) (table w) w' _ quiet
            (λ x. let now = ap (count x) opened in omega arith)
            (laws.opens (at_fdcwd sys).path_fd (codes "/usr/bin")
              (path_flags sys.libc any_path true) 0 w')
            refl)
    with_dirs-UnwindsIn body w (negsuc n, w') quiet (small, kept) e =
        subst
          (λ o.
            UnwindsIn (Same table (table w))
              (continue_with o.0 (second_dir (at_fdcwd sys) body) o.1))
          (sym (path_openat_refused sys procs table (at_fdcwd sys) _ any_path true n w w' small e))
          (tt, λ x. ap (count x) kept)

  -- Whichever of its calls fail, `test_fexecvel` returns or panics, and in either case the open
  -- descriptors at the end are those at the start: each directory that was opened is closed, also
  -- where the second one cannot be opened, a fork fails or a child has another status. A close(2) of
  -- an open descriptor works (`DirLaws`).
  pub test_fexecvel-UnwindsIn :
      (laws : DirLaws sys procs table) (fuel : ℕ) (debug : SyscallError → List Bytes)
      (box_format : FdPathBox → List Bytes) (w : W)
      → UnwindsIn (Same table (table w)) (test_fexecvel sys procs fuel debug box_format w)
  unfolding test_fexecvel
  test_fexecvel-UnwindsIn laws fuel debug box_format w =
      with_dirs-UnwindsIn laws fuel debug box_format _ w _
        (λ b1 b2.
          let paths = b1.boxed_path ∷ b2.boxed_path ∷ [] in
          let envp = cstr_array (codes "A=B" ∷ []) in
          Quiet-bind table
            (run_by_dir sys procs fuel debug box_format paths envp (codes "echo")
              (cstr_array (codes "echo" ∷ codes "Hello" ∷ [])))
            (λ _.
              run_by_dir sys procs fuel debug box_format paths envp (codes "env")
                (cstr_array (codes "env" ∷ [])))
            (Quiet-run_by_dir sys procs table laws fuel debug box_format paths envp _ _)
            (λ _. Quiet-run_by_dir sys procs table laws fuel debug box_format paths envp _ _))
        (laws.opens (at_fdcwd sys).path_fd (codes "/bin") (path_flags sys.libc any_path true) 0 w)
        refl
