-- ===== src/Syscall/Exec/Refinement.antt =====
-- `execvel` and `fexecvel` of src/syscall.rs, whole: both are the search of Syscall/Exec/Search.
use avfork.Base.{
  ◌≡◌, refl, sym, ◌∙◌, ap, Bool, true, false, List, [], ◌∷◌, ◌++◌, some, arith, All, length, subst,
}
use avfork.Outcome.{SyscallError, Outcome, ok, Sys, pure, continue_with}
use avfork.Kernel.{Kernel, Bytes}
use avfork.Syscall.Fd.{FdPath}
use avfork.Syscall.Candidate.{
  CStrArray, Filename, ExecvelCandidate, FexecvelCandidate, new_candidate, new_fd_candidate,
}
use avfork.Syscall.Candidate.Checks.{IsSearchable, new_candidate_iff}
use avfork.Syscall.Exec.{
  Buffer, uninit, Verdict, denied, missing, fatal, execve, execveat, verdict, execvel_loop, execvel,
  fexecvel_loop, fexecvel,
}
use avfork.Syscall.Exec.Buffer.{until_nul, construct_path-read_cstr}
use avfork.Syscall.Exec.Search.{Searched, search, search-Searched}

-- Two continuations that agree after every success.
continue_with_congr :
    {W A B : Type 0} (r : Outcome A × W) (f g : A → Sys W B)
    → ((a : A) (w : W) → f a w ≡ g a w)
    → continue_with r.0 f r.1 ≡ continue_with r.0 g r.1
continue_with_congr (ok a, w) f g h = h a w
continue_with_congr (Outcome.err e, w) f g h = refl
continue_with_congr (_, w) f g h = refl

-- Two branchings on a verdict that agree where the search goes on.
verdict_congr :
    {W : Type 0} (v : Verdict) (a b c d : Sys W SyscallError) (stop : Sys W SyscallError) (w : W)
    → a w ≡ b w
    → c w ≡ d w
    → (elim v as (λ _. Sys W SyscallError) [ denied ↦ a | missing ↦ c | fatal ↦ stop ]) w
      ≡ (elim v as (λ _. Sys W SyscallError) [ denied ↦ b | missing ↦ d | fatal ↦ stop ]) w
verdict_congr denied a b c d stop w p q = p
verdict_congr missing a b c d stop w p q = q
verdict_congr fatal a b c d stop w p q = refl

module _ {W : Type 0} (sys : Kernel W) (argv envp : CStrArray) where
  -- One attempt of `execvel`: what the kernel sees of the path, a slash and the filename.
  abbrev pub exec_path : Filename → Bytes → Sys W SyscallError
  exec_path f path = execve sys (until_nul (path ++ b'/' ∷ f.filename)) argv envp

  -- One attempt of `fexecvel`.
  abbrev pub exec_fd : Filename → FdPath → Sys W SyscallError
  exec_fd f pathfd = execveat sys pathfd f.filename argv envp 0

  execvel_loop-search :
      (f : Filename) (paths : List Bytes) (got : Bool) (buf : Buffer) (w : W)
      → All (IsSearchable (length f.filename)) paths
      → execvel_loop sys f.filename argv envp paths got buf w ≡ search sys (exec_path f) paths got w
  unfolding execvel_loop search
  execvel_loop-search f [] got buf w h = refl
  execvel_loop-search f (path ∷ paths) got buf w (fits, rest) =
      let (buf', c, r) = construct_path-read_cstr path f.filename buf fits.1 in
      rw (c, r)
        (continue_with_congr (exec_path f path w) _ _ λ e v.
          verdict_congr (verdict sys e) _ _ _ _ (pure e) v
            (execvel_loop-search f paths true buf' v rest)
            (execvel_loop-search f paths got buf' v rest))

  fexecvel_loop-search :
      (f : Filename) (paths : List FdPath) (got : Bool) (w : W)
      → fexecvel_loop sys f.filename argv envp paths got w ≡ search sys (exec_fd f) paths got w
  unfolding fexecvel_loop search
  fexecvel_loop-search f [] got w = refl
  fexecvel_loop-search f (pathfd ∷ paths) got w =
      continue_with_congr (exec_fd f pathfd w) _ _ λ e v.
        verdict_congr (verdict sys e) _ _ _ _ (pure e) v (fexecvel_loop-search f paths true v)
          (fexecvel_loop-search f paths got v)

  pub execvel-search :
      (f : Filename) (paths : List Bytes) (c : ExecvelCandidate) (w : W)
      → new_candidate f paths ≡ some c
      → execvel sys c argv envp w ≡ search sys (exec_path f) paths false w
  unfolding execvel
  execvel-search f paths c w built =
      let (_, fit, same_file, same_paths) = (new_candidate_iff f paths c).0 built in
      sym (
        sym (execvel_loop-search f paths false uninit w fit)
        ∙ ap (λ g. execvel_loop sys g.filename argv envp paths false uninit w) (sym same_file)
        ∙ ap (λ ps. execvel_loop sys c.file.filename argv envp ps false uninit w) (sym same_paths))

  -- For a candidate that `ExecvelCandidate::new` has built, `execvel` follows the search over its
  -- paths in order, each attempt an execve of the path, a slash and the filename, up to the first
  -- NUL: it answers EACCES, if an attempt was denied, or ENOENT, where every attempt failed with
  -- EACCES, ENOENT, ESTALE, ENOTDIR, ENODEV or ETIMEDOUT; otherwise it ends as the first other
  -- attempt does, and tries no path behind it. The path buffer adds no undefined behaviour of its
  -- own.
  pub execvel-Searched :
      (f : Filename) (paths : List Bytes) (c : ExecvelCandidate) (w : W)
      → new_candidate f paths ≡ some c
      → Searched sys (exec_path f) false paths w (execvel sys c argv envp w)
  execvel-Searched f paths c w built =
      subst (λ r. Searched sys (exec_path f) false paths w r)
        (sym (execvel-search f paths c w built)) (search-Searched sys (exec_path f) paths false w)

  -- For a candidate that `FexecvelCandidate::new` has built, `fexecvel` follows the same search
  -- over its directories, each attempt an execveat of the filename in that directory.
  pub fexecvel-Searched :
      (f : Filename) (paths : List FdPath) (c : FexecvelCandidate) (w : W)
      → new_fd_candidate f paths ≡ some c
      → Searched sys (exec_fd f) false paths w (fexecvel sys c argv envp w)
  unfolding fexecvel new_fd_candidate
  fexecvel-Searched f [] c w built = cc
  fexecvel-Searched f (path ∷ paths) c w built =
      let same_file : f ≡ c.fd_file = ground arith in
      let same_paths : path ∷ paths ≡ c.fd_paths = ground arith in
      subst (λ r. Searched sys (exec_fd f) false (path ∷ paths) w r)
        (sym (fexecvel_loop-search f (path ∷ paths) false w)
          ∙ ap (λ g. fexecvel_loop sys g.filename argv envp (path ∷ paths) false w) same_file
          ∙ ap (λ ps. fexecvel_loop sys c.fd_file.filename argv envp ps false w) same_paths)
        (search-Searched sys (exec_fd f) (path ∷ paths) false w)
