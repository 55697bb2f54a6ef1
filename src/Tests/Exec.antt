-- ===== src/Tests/Exec.antt =====
-- The searches of src/syscall.rs at concrete inputs.
use avfork.Base.{
  ℕ, ◌+◌, ◌≡◌, refl, true, false, List, [], ◌∷◌, some, none, codes, arith, ◌==◌, if◌then◌else◌,
}
use avfork.Base.Int.{ℤ, pos, negsuc}
use avfork.Outcome.{ok, Sys}
use avfork.Kernel.{Bytes, Kernel}
use avfork.Syscall.Fd.{FdPath}
use avfork.Syscall.Candidate.{
  CStrArray, Filename, refuses, ExecvelCandidate, new_candidate, FexecvelCandidate,
  new_fd_candidate, path_max,
}
use avfork.Syscall.Exec.{uninit, construct_path, read_cstr, execvel, fexecvel, Buffer}
use avfork.Syscall.Exec.Buffer.{construct_path-read_cstr}
use avfork.Syscall.Exec.Search.{Searched}
use avfork.Syscall.Exec.Refinement.{exec_path, exec_fd, execvel-Searched, fexecvel-Searched}
use avfork.Tests.World.{idle_kernel}

-- A kernel that counts the attempts. The first is refused with EACCES, later ones with ENOENT.
abbrev attempt : Sys ℕ ℤ
attempt w = (ok (if w == 0 then negsuc 12 else negsuc 1), w + 1)

abbrev refusing : Kernel ℕ
refusing = record (idle_kernel true) {
  psys_execve = λ path args envs. attempt;
  psys_execveat = λ dirfd path args envs flags. attempt;
}

abbrev ls_args : CStrArray
ls_args = record { arr = some (codes "ls") ∷ none ∷ [] }

abbrev no_env : CStrArray
no_env = record { arr = none ∷ [] }

abbrev ls_file : Filename
ls_file = record { filename = codes "ls" }

abbrev dirs : List Bytes
dirs = codes "/opt/bin" ∷ codes "/bin" ∷ []

abbrev ls_candidate : ExecvelCandidate
ls_candidate = record { file = ls_file; paths = dirs }

construct_path-read_cstr_example :
    (buf' : Buffer) × (construct_path (codes "/bin") (codes "ls") uninit ≡ ok buf')
    × (read_cstr path_max 0 buf' ≡ ok (codes "/bin/ls"))
construct_path-read_cstr_example =
    construct_path-read_cstr (codes "/bin") (codes "ls") uninit (omega arith)

execvel-Searched_example :
    Searched refusing
      (exec_path refusing ls_args no_env ls_file)
      false
      dirs
      0
      (execvel refusing ls_candidate ls_args no_env 0)
unfolding new_candidate refuses
execvel-Searched_example = execvel-Searched refusing ls_args no_env ls_file dirs ls_candidate 0 refl

abbrev fd_dirs : List FdPath
fd_dirs = record { path_fd = pos 3 } ∷ record { path_fd = pos 4 } ∷ []

abbrev ls_fd_candidate : FexecvelCandidate
ls_fd_candidate = record { fd_file = ls_file; fd_paths = fd_dirs }

fexecvel-Searched_example :
    Searched refusing
      (exec_fd refusing ls_args no_env ls_file)
      false
      fd_dirs
      0
      (fexecvel refusing ls_fd_candidate ls_args no_env 0)
unfolding new_fd_candidate
fexecvel-Searched_example =
    fexecvel-Searched refusing ls_args no_env ls_file fd_dirs ls_fd_candidate 0 refl
