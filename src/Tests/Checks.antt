-- ===== src/Tests/Checks.antt =====
-- The theorems on the flags and the checked arguments of src/syscall.rs, and on C strings, at
-- concrete inputs.
use avfork.Base.{
  ℕ, ◌%◌, ◌≡◌, refl, ◌↔◌, true, false, List, [], ◌∷◌, some, codes, All, length, ◌≢◌, ◌≤◌,
}
use avfork.Kernel.{Bytes}
use avfork.Syscall.Flags.{
  mode_bits, s_iroth, openat_flags, creatat_flags, access_bits, read_write, write_only, FdFlag,
  o_append, o_trunc, o_cloexec, o_async, o_dsync, o_sync, o_direct, o_largefile, o_noatime,
  o_noctty, o_nofollow, o_nonblock, fd_flags,
}
use avfork.Syscall.Flags.Access.{AccessLaws, access_of, access_kept}
use avfork.Syscall.Flags.ModeBits.{documented_bits, is_other, mode_bits-documented}
use avfork.Syscall.Candidate.{Filename, new_filename, filename_max, ExecvelCandidate, new_candidate}
use avfork.Syscall.Candidate.Checks.{new_filename_iff, IsSearchable, new_candidate_iff}
use avfork.Tests.World.{linux}

mode_bits-documented_example :
    (mode_bits s_iroth ≡ documented_bits s_iroth) ↔ (is_other s_iroth ≡ true)
mode_bits-documented_example = mode_bits-documented s_iroth

-- The values of Linux on x86-64.
abbrev linux_flags : FdFlag → ℕ
linux_flags o_append = 0o2000
linux_flags o_trunc = 0o1000
linux_flags o_cloexec = 0o2000000
linux_flags o_async = 0o20000
linux_flags o_dsync = 0o10000
linux_flags o_sync = 0o4010000
linux_flags o_direct = 0o40000
linux_flags o_largefile = 0
linux_flags o_noatime = 0o1000000
linux_flags o_noctty = 0o400
linux_flags o_nofollow = 0o400000
linux_flags o_nonblock = 0o4000

linux_flags_apart : (f : FdFlag) → linux_flags f % 4 ≡ 0
linux_flags_apart o_append = refl
linux_flags_apart o_trunc = refl
linux_flags_apart o_cloexec = refl
linux_flags_apart o_async = refl
linux_flags_apart o_dsync = refl
linux_flags_apart o_sync = refl
linux_flags_apart o_direct = refl
linux_flags_apart o_largefile = refl
linux_flags_apart o_noatime = refl
linux_flags_apart o_noctty = refl
linux_flags_apart o_nofollow = refl
linux_flags_apart o_nonblock = refl

linux-AccessLaws : AccessLaws linux linux_flags
linux-AccessLaws = record {
  rdonly_is = refl;
  wronly_is = refl;
  rdwr_is = refl;
  excl_apart = refl;
  creat_apart = refl;
  tmpfile_apart = refl;
  flags_apart = linux_flags_apart;
}

abbrev append_nonblock : List FdFlag
append_nonblock = o_append ∷ o_nonblock ∷ []

access_kept_example :
    (access_of (openat_flags linux read_write (fd_flags linux_flags append_nonblock))
      ≡ access_bits linux read_write)
    × (access_of (creatat_flags linux false (fd_flags linux_flags append_nonblock) true false)
        ≡ access_bits linux write_only)
access_kept_example =
    access_kept linux linux_flags linux-AccessLaws read_write append_nonblock false true false

abbrev ls_name : Filename
ls_name = record { filename = codes "ls" }

new_filename_iff_example : (new_filename (codes "ls") ≡ some ls_name) ↔ (
    (1 ≤ length (codes "ls"))
    × (length (codes "ls") ≤ filename_max)
    × All (λ b. b ≢ b'/') (codes "ls")
    × (ls_name.filename ≡ codes "ls"))
new_filename_iff_example = new_filename_iff (codes "ls") ls_name

abbrev two_dirs : List Bytes
two_dirs = codes "/opt/bin" ∷ codes "/bin" ∷ []

abbrev ls_in_dirs : ExecvelCandidate
ls_in_dirs = record { file = ls_name; paths = two_dirs }

new_candidate_iff_example : (new_candidate ls_name two_dirs ≡ some ls_in_dirs) ↔ (
    (two_dirs ≢ [])
    × All (IsSearchable 2) two_dirs
    × (ls_in_dirs.file ≡ ls_name)
    × (ls_in_dirs.paths ≡ two_dirs))
new_candidate_iff_example = new_candidate_iff ls_name two_dirs ls_in_dirs
