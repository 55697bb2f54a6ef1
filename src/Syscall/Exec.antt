-- ===== src/Syscall/Exec.antt =====
-- `execve`, `execveat`, `execvel` and `fexecvel` of src/syscall.rs.
pub mod Buffer
pub mod Verdicts
pub mod Search
pub mod Refinement
use avfork.Base.{
  ℕ, zero, suc, ◌+◌, ◌-◌, Bool, true, false, ◌&&◌, List, [], ◌∷◌, Option, none, some, length,
  get_elem?, leb, ltb, ◌==◌, if◌then◌else◌,
}
use avfork.Base.Int.{ℤ, pos, eqb_ℤ}
use avfork.Outcome.{
  SyscallError, Outcome, ok, err, exited, replaced, panicked, undefined, out_of_fuel, Sys, pure,
  lift, and_then, ◌>>=◌,
}
use avfork.Kernel.{Kernel, Bytes}
use avfork.Error.{to_result, get_errno, new_error}
use avfork.Syscall.Fd.{FdPath}
use avfork.Syscall.Candidate.{
  CStrArray, pointed_strings, path_max, ExecvelCandidate, FexecvelCandidate,
}

-- The array `constructed_path`, with `none` where it is not initialised.
abbrev pub Buffer : Type 0
Buffer = ℕ → Option ℕ

abbrev pub uninit : Buffer
uninit i = none

-- The bytes of `src` from `offset` on, and `buf` elsewhere.
unfoldable pub overlay : ℕ → Bytes → Buffer → Buffer
overlay offset src buf i =
    if leb offset i
    then elim (get_elem? src (i - offset)) [ some b ↦ some b | none ↦ buf i ]
    else buf i

-- The closures `pmemcpy` and `write_one_byte` of `execvel`; beyond the array they are undefined.
unfoldable pub pmemcpy : ℕ → Bytes → Buffer → Outcome Buffer
pmemcpy offset src buf =
    if leb (offset + length src) path_max then ok (overlay offset src buf) else undefined

unfoldable pub write_one_byte : ℕ → ℕ → Buffer → Outcome Buffer
write_one_byte size byte buf =
    if ltb size path_max then ok (overlay size (byte ∷ []) buf) else undefined

-- The four writes of one round: path, slash, filename, NUL.
unfoldable pub construct_path : Bytes → Bytes → Buffer → Outcome Buffer
construct_path path filename buf = and_then (pmemcpy 0 path buf) λ b1.
    and_then (write_one_byte (length path) b'/' b1) λ b2.
      and_then (pmemcpy (length path + 1) filename b2)
        λ b3. write_one_byte (length path + 1 + length filename) 0 b3

-- The C string at index `i` of an array with `left` bytes from there on.
unfoldable pub read_cstr : ℕ → ℕ → Buffer → Outcome Bytes
read_cstr zero i buf = undefined
read_cstr (suc left) i buf =
    let rest = read_cstr left (suc i) buf in
    elim (buf i) [
      | none ↦ undefined
      | some b ↦ if b == 0 then ok [] else and_then rest (λ s. ok (b ∷ s))
    ]

-- What the search does after an attempt that failed.
pub data Verdict : Type 0 where
  denied missing fatal : Verdict

module _ {W : Type 0} (sys : Kernel W) where
  -- `match toResult(ret as i64) { Ok(_) => unreachable_unchecked(), Err(err) => err }`
  unfoldable pub exec_error : ℤ → Outcome SyscallError
  exec_error ret = elim (to_result sys.debug_assertions ret) [
    | ok _ ↦ undefined
    | err e ↦ ok e
    | exited c ↦ exited c
    | Outcome.replaced ↦ replaced
    | Outcome.panicked ↦ panicked
    | Outcome.undefined ↦ undefined
    | Outcome.out_of_fuel ↦ out_of_fuel
  ]

  unfoldable pub execve : Bytes → CStrArray → CStrArray → Sys W SyscallError
  execve pathname argv envp = lift (pointed_strings argv.arr) >>= λ args.
      lift (pointed_strings envp.arr) >>= λ envs.
      sys.psys_execve pathname args envs >>= λ ret. lift (exec_error ret)

  unfoldable pub execveat : FdPath → Bytes → CStrArray → CStrArray → ℕ → Sys W SyscallError
  execveat dirfd pathname argv envp flags = lift (pointed_strings argv.arr) >>= λ args.
      lift (pointed_strings envp.arr) >>= λ envs.
      sys.psys_execveat dirfd.path_fd pathname args envs flags >>= λ ret. lift (exec_error ret)

  -- The `match` on the error number, the same in both searches.
  unfoldable pub verdict : SyscallError → Verdict
  verdict e =
      let errno = get_errno e in
      if eqb_ℤ errno (pos sys.eacces)
      then denied
      else if eqb_ℤ errno (pos sys.enoent)
      then missing
      else if eqb_ℤ errno (pos sys.estale)
      then missing
      else if eqb_ℤ errno (pos sys.enotdir)
      then missing
      else if eqb_ℤ errno (pos sys.enodev)
      then missing
      else if eqb_ℤ errno (pos sys.etimedout)
      then missing
      else fatal

  -- The result when no path is left.
  unfoldable pub search_failed : Bool → SyscallError
  search_failed got_eaccess = new_error (if got_eaccess then sys.eacces else sys.enoent)

  -- The loop of `execvel`.
  unfoldable pub execvel_loop :
      Bytes → CStrArray → CStrArray → List Bytes → Bool → Buffer → Sys W SyscallError
  execvel_loop filename argv envp [] got_eaccess buf = pure (search_failed got_eaccess)
  execvel_loop filename argv envp (path ∷ paths) got_eaccess buf =
      lift (construct_path path filename buf) >>= λ buf'.
      lift (read_cstr path_max 0 buf') >>= λ constructed. execve constructed argv envp >>= λ e.
      elim (verdict e) [
        | denied ↦ execvel_loop filename argv envp paths true buf'
        | missing ↦ execvel_loop filename argv envp paths got_eaccess buf'
        | fatal ↦ pure e
      ]

  unfoldable pub execvel : ExecvelCandidate → CStrArray → CStrArray → Sys W SyscallError
  execvel candidate argv envp =
      execvel_loop candidate.file.filename argv envp candidate.paths false uninit

  -- The loop of `fexecvel`; `ExecveAtFlags::NONE` is 0.
  unfoldable pub fexecvel_loop :
      Bytes → CStrArray → CStrArray → List FdPath → Bool → Sys W SyscallError
  fexecvel_loop filename argv envp [] got_eaccess = pure (search_failed got_eaccess)
  fexecvel_loop filename argv envp (pathfd ∷ paths) got_eaccess =
      execveat pathfd filename argv envp 0 >>= λ e. elim (verdict e) [
        | denied ↦ fexecvel_loop filename argv envp paths true
        | missing ↦ fexecvel_loop filename argv envp paths got_eaccess
        | fatal ↦ pure e
      ]

  unfoldable pub fexecvel : FexecvelCandidate → CStrArray → CStrArray → Sys W SyscallError
  fexecvel candidate argv envp =
      fexecvel_loop candidate.fd_file.filename argv envp candidate.fd_paths false
