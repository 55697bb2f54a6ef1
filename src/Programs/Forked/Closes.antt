-- ===== src/Programs/Forked/Closes.antt =====
-- Programs.Forked where calls fail: what they do to the open descriptors.
pub mod Dirs
use avfork.Base.{
  ℕ, suc, ◌+◌, ◌^◌, ◌<◌, ◌≡◌, refl, sym, ap, subst, ◌∙◌, inl, inr, Bool, List, [], ◌∷◌, Option,
  none, some, codes, arith, Bool-cases, true, if◌then◌else◌,
}
use avfork.Base.Int.{ℤ, pos, negsuc, eqb_ℤ, to_i32_small}
use avfork.Outcome.{
  SyscallError, Outcome, ok, panicked, Sys, pure, lift, bind_eq, ◌>>=◌, ◌>>◌, dropping,
  dropping_on_panic, at_unwinding, continue_with,
}
use avfork.Kernel.{Kernel, Bytes}
use avfork.Syscall.Io.{exit}
use avfork.Syscall.Raw.Results.{syscall_ok, syscall_err}
use avfork.Syscall.Flags.{FdPathMode, any_path, path_flags}
use avfork.Syscall.Fd.{
  FdPath, FdPathBox, at_fdcwd, path_box_from_raw, openat_wrapper, path_openat, drop_path_box,
}
use avfork.Syscall.Fd.Table.{one, count}
use avfork.Syscall.Fd.Table.Counts.{count_self}
use avfork.Utility.Release.{release_done}
use avfork.Syscall.Candidate.{CStrArray, cstr_array, new_filename, new_fd_candidate}
use avfork.Programs.{panic_on_err}
use avfork.Programs.Rounds.{Same}
use avfork.Programs.Unwind.{UnwindsIn, bind-UnwindsIn, at_scope_end-UnwindsIn}
use avfork.Programs.Forked.{
  ProcessLib, some_or_panic, run, assert_run, fexecvel_child, run_by_dir, with_dirs, test_fexecvel,
}

-- A call over which the same descriptors stay open.
abbrev pub Quiet : {W A : Type 0} → (W → List ℤ) → Sys W A → Type 0
Quiet {W = W} table m = (w : W) → UnwindsIn (λ v. table v ≡ table w) (m w)

pub Quiet-bind :
    {W A B : Type 0} (table : W → List ℤ) (m : Sys W A) (f : A → Sys W B)
    → Quiet table m
    → ((a : A) → Quiet table (f a))
    → Quiet table (m >>= f)
Quiet-bind table m f h next w =
    bind-UnwindsIn (λ v. table v ≡ table w) (λ v. table v ≡ table w) (m w) f (h w) (λ v e. e)
      (λ a v _ e. let (u, same) = next a v in (u, same ∙ e))

pub Quiet-some_or_panic :
    {W A : Type 0} (table : W → List ℤ) (o : Option A) → Quiet table (lift (some_or_panic o))
Quiet-some_or_panic table none w = (tt, refl)
Quiet-some_or_panic table (some a) w = (tt, refl)

pub Quiet-choose :
    {W A : Type 0} (table : W → List ℤ) (b : Bool) (a : A) (w v : W)
    → table v ≡ table w
    → UnwindsIn (λ u. table u ≡ table w) (if b then ok a else panicked, v)
Quiet-choose table b a w v e = elim (Bool-cases b) [
  | inl yes_it_is ↦ rw yes_it_is (tt, e)
  | inr other ↦ rw other (tt, e)
]

module _ {W : Type 0} (sys : Kernel W) (procs : ProcessLib W) (table : W → List ℤ) where
  -- What openat(2) does to the open descriptors: after a success there is one more.
  abbrev pub OpensOne : List ℤ → ℤ × W → Type 0
  OpensOne fds (pos n, w') = (n < 2 ^ 31) × (table w' ≡ pos n ∷ fds)
  OpensOne fds (negsuc n, w') = (n < 2 ^ 31) × (table w' ≡ fds)

  -- The calls of the test, of which any may fail but close(2) of an open descriptor. A child has
  -- open descriptors of its own.
  pub record DirLaws : Type 0 where
    pub opens :
        (dir : ℤ) (path : Bytes) (flags mode : ℕ) (w : W)
        → OpensOne (table w) (sys.psys_openat dir path flags mode w)
    pub forks : (p : Sys W (Unit {0})) (w : W) → table (procs.fork p w).1 ≡ table w
    pub waits : (pid : ℤ) (w : W) → table (procs.waitpid pid w).2 ≡ table w
    pub closes :
        (fd : ℤ) (w : W)
        → 0 < count fd (table w)
        → (n : ℕ) × (w' : W) × (sys.psys_close fd w ≡ (pos n, w'))
          × ((x : ℤ) → one x fd + count x (table w') ≡ count x (table w))

  pub path_openat_opened :
      (dir : FdPath) (path : Bytes) (mode : FdPathMode) (cloexec : Bool) (n : ℕ) (w w' : W)
      → n < 2 ^ 31
      → sys.psys_openat dir.path_fd path (path_flags sys.libc mode cloexec) 0 w ≡ (pos n, w')
      → panic_on_err (path_openat sys dir path mode cloexec) w
        ≡ (ok (path_box_from_raw (pos n)), w')
  unfolding path_openat openat_wrapper
  path_openat_opened dir path mode cloexec n w w' small e =
      rw (path_openat, openat_wrapper, syscall_ok sys _ w w' n e) (rw (to_i32_small n small) refl)

  pub path_openat_refused :
      (dir : FdPath) (path : Bytes) (mode : FdPathMode) (cloexec : Bool) (n : ℕ) (w w' : W)
      → n < 2 ^ 31
      → sys.psys_openat dir.path_fd path (path_flags sys.libc mode cloexec) 0 w ≡ (negsuc n, w')
      → panic_on_err (path_openat sys dir path mode cloexec) w ≡ (panicked, w')
  unfolding path_openat openat_wrapper
  path_openat_refused dir path mode cloexec n w w' small e =
      rw (path_openat, openat_wrapper, syscall_err sys _ w w' n small e) refl

  module _ (laws : DirLaws) (fuel : ℕ) (debug : SyscallError → List Bytes)
      (box_format : FdPathBox → List Bytes) where
    Quiet-run : (f : Sys W (Unit {0})) → Quiet table (run sys procs fuel debug box_format f)
    unfolding run
    Quiet-run f w =
        let (pid, w') = procs.fork (f >> exit sys (pos 0)) w in
        let (waited, status, w'') = procs.waitpid pid w' in
        Quiet-choose table (eqb_ℤ pid waited) (procs.wexitstatus status) w w''
          (laws.waits pid w' ∙ laws.forks (f >> exit sys (pos 0)) w)

    Quiet-expected :
        (status expected : ℤ)
        → Quiet {A = Unit {0}} table (if eqb_ℤ status expected then pure tt else lift panicked)
    Quiet-expected status expected w = elim (Bool-cases (eqb_ℤ status expected)) [
      | inl same ↦ rw same (tt, refl)
      | inr other ↦ rw other (tt, refl)
    ]

    Quiet-assert_run :
        (f : Sys W (Unit {0})) (expected : ℤ)
        → Quiet table (assert_run sys procs fuel debug box_format f expected)
    unfolding assert_run
    Quiet-assert_run f expected =
        Quiet-bind table (run sys procs fuel debug box_format f)
          (λ status. if eqb_ℤ status expected then pure tt else lift panicked) (Quiet-run f)
          (λ status. Quiet-expected status expected)

    pub Quiet-run_by_dir :
        (paths : List FdPath) (envp : CStrArray) (filename : Bytes) (argv : CStrArray)
        → Quiet table (run_by_dir sys procs fuel debug box_format paths envp filename argv)
    unfolding run_by_dir
    Quiet-run_by_dir paths envp filename argv =
        Quiet-bind table (lift (some_or_panic (new_filename filename))) _
          (Quiet-some_or_panic table (new_filename filename))
          (λ f.
            Quiet-bind table (lift (some_or_panic (new_fd_candidate f paths))) _
              (Quiet-some_or_panic table (new_fd_candidate f paths))
              (λ candidate.
                Quiet-assert_run
                  (fexecvel_child sys procs fuel debug box_format candidate argv envp) (pos 0)))
