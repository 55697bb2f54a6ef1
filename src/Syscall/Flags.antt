-- ===== src/Syscall/Flags.antt =====
-- The flag types of src/syscall.rs: `AccessMode`, `FdFlags`, `FdPathMode` and `Mode`.
pub mod ModeBits
pub mod Access
use avfork.Base.{ℕ, Bool, List, [], ◌∷◌, bit_or, if◌then◌else◌}
use avfork.Kernel.{Libc}

pub data AccessMode : Type 0 where
  read_only write_only read_write : AccessMode

-- `accMode as i32`
unfoldable pub access_bits : Libc → AccessMode → ℕ
access_bits libc read_only = libc.o_rdonly
access_bits libc write_only = libc.o_wronly
access_bits libc read_write = libc.o_rdwr

pub data FdPathMode : Type 0 where
  any_path directory symlink : FdPathMode

-- `mode as c_int`
unfoldable pub path_mode_bits : Libc → FdPathMode → ℕ
path_mode_bits libc any_path = 0
path_mode_bits libc directory = libc.o_directory
path_mode_bits libc symlink = libc.o_nofollow

-- The constants of `FdFlags`. `values` gives the numbers that libc has for them.
pub data FdFlag : Type 0 where
  o_append o_trunc o_cloexec o_async o_dsync o_sync : FdFlag
  o_direct o_largefile o_noatime o_noctty o_nofollow o_nonblock : FdFlag

-- A union of constants.
unfoldable pub fd_flags : (FdFlag → ℕ) → List FdFlag → ℕ
fd_flags values [] = 0
fd_flags values (f ∷ fs) = bit_or (values f) (fd_flags values fs)

-- The constants of `ExecveAtFlags`
pub data ExecveAtFlag : Type 0 where
  no_flags at_empty_path at_symlink_nofollow : ExecveAtFlag

unfoldable pub execve_at_bits : ℕ → ℕ → ExecveAtFlag → ℕ
execve_at_bits empty nofollow no_flags = 0
execve_at_bits empty nofollow at_empty_path = empty
execve_at_bits empty nofollow at_symlink_nofollow = nofollow

-- The flags that `FdBox::openat` passes to the kernel.
unfoldable pub openat_flags : Libc → AccessMode → ℕ → ℕ
unfolding access_bits
openat_flags libc acc_mode flags = bit_or (access_bits libc acc_mode) flags

-- The flags that `FdBox::creatat` passes on, step by step as the code sets them.
unfoldable pub creatat_flags : Libc → Bool → ℕ → Bool → Bool → ℕ
creatat_flags libc readable flags tmpfile_or_regular_file exclusive =
    let exclusive_flags : ℕ = if exclusive then bit_or flags libc.o_excl else flags in
    let access_flags : ℕ =
      if readable
      then bit_or exclusive_flags libc.o_rdwr
      else bit_or exclusive_flags libc.o_wronly in
    if tmpfile_or_regular_file
    then bit_or access_flags libc.o_tmpfile
    else bit_or access_flags libc.o_creat

-- The flags that `FdPathBox::openat` passes on.
unfoldable pub path_flags : Libc → FdPathMode → Bool → ℕ
unfolding path_mode_bits
path_flags libc mode cloexec =
    bit_or (bit_or (if cloexec then libc.o_cloexec else 0) libc.o_path) (path_mode_bits libc mode)

-- The constants of `Mode`, the permission bits.
pub data ModeFlag : Type 0 where
  s_irwxu s_irusr s_iwusr s_ixusr : ModeFlag
  s_irwxg s_irgrp s_iwgrp s_ixgrp : ModeFlag
  s_irwxo s_iroth s_iwoth s_ixoth : ModeFlag
  s_isuid s_isgid s_isvtx : ModeFlag

-- Their values, which the source writes in hexadecimal.
unfoldable pub mode_bits : ModeFlag → ℕ
mode_bits s_irwxu = 0x00700
mode_bits s_irusr = 0x00400
mode_bits s_iwusr = 0x00200
mode_bits s_ixusr = 0x00100
mode_bits s_irwxg = 0x00070
mode_bits s_irgrp = 0x00040
mode_bits s_iwgrp = 0x00020
mode_bits s_ixgrp = 0x00010
mode_bits s_irwxo = 0x00007
mode_bits s_iroth = 0x00004
mode_bits s_iwoth = 0x00002
mode_bits s_ixoth = 0x00001
mode_bits s_isuid = 0x0004000
mode_bits s_isgid = 0x0002000
mode_bits s_isvtx = 0x0001000
