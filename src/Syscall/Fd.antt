-- ===== src/Syscall/Fd.antt =====
-- `Fd`, `FdPath`, `FdBox` and `FdPathBox` of src/syscall.rs: descriptors, and the boxes that close
-- them. A descriptor and its box are the same number; what differs is that a box is dropped.
pub mod Ownership
pub mod Table
use avfork.Base.{ℕ, ◌∷◌, [], List, Bool, true, false, none, some, bit_or, codes, if◌then◌else◌}
use avfork.Base.Int.{ℤ, pos, negsuc, to_i32}
use avfork.Outcome.{SyscallError, Sys, pure, call, ◌>>=◌, ◌>>◌}
use avfork.Kernel.{Kernel, Bytes}
use avfork.Error.{to_result}
use avfork.Syscall.Raw.{syscall, syscall_out}
use avfork.Syscall.Flags.{AccessMode, FdPathMode, openat_flags, creatat_flags, path_flags}
use avfork.Utility.{release}

pub record Fd : Type 0 where
  pub fd : ℤ

pub record FdBox : Type 0 where
  pub boxed : Fd

pub record FdPath : Type 0 where
  pub path_fd : ℤ

pub record FdPathBox : Type 0 where
  pub boxed_path : FdPath

-- `STDOUT` and `STDERR`
abbrev pub stdout : Fd
stdout = record { fd = pos 1 }

abbrev pub stderr : Fd
stderr = record { fd = pos 2 }

-- `FromRaw for FdBox` and `FromRaw for FdPathBox`
unfoldable pub box_from_raw : ℤ → FdBox
box_from_raw fd = record { boxed = record { fd = fd } }

unfoldable pub path_box_from_raw : ℤ → FdPathBox
path_box_from_raw fd = record { boxed_path = record { path_fd = fd } }

-- `trait FdBasicOp`: the descriptor, and the box that owns a copy of it (with its `FromRaw`).
pub record FdBasicOp (F : Type 0) : Type 1 where
  pub BoxedFd : Type 0
  pub get_fd : F → ℤ
  pub boxed_from_raw : ℤ → BoxedFd

instance abbrev pub fd_basic_op : FdBasicOp Fd
fd_basic_op = record { BoxedFd = FdBox; get_fd = λ self. self.fd; boxed_from_raw = box_from_raw }

instance abbrev pub fd_path_basic_op : FdBasicOp FdPath
fd_path_basic_op = record {
  BoxedFd = FdPathBox;
  get_fd = λ self. self.path_fd;
  boxed_from_raw = path_box_from_raw;
}

-- The macro `impl_AsRawFd_for!`
unfoldable pub as_raw_fd : {F : Type 0} ⦃op : FdBasicOp F⦄ → F → ℤ
as_raw_fd ⦃op⦄ self = op.get_fd self

-- `Deref for FdBox` and `Deref for FdPathBox`
unfoldable pub fd_of_box : FdBox → Fd
fd_of_box self = self.boxed

unfoldable pub path_of_box : FdPathBox → FdPath
path_of_box self = self.boxed_path

module _ {W : Type 0} (sys : Kernel W) where
  -- `AT_FDCWD`
  unfoldable pub at_fdcwd : FdPath
  at_fdcwd = record { path_fd = sys.at_fdcwd }

  -- `Ok(fd as c_int)`, in the module `binding`
  unfoldable pub openat_wrapper : FdPath → Bytes → ℕ → ℕ → Sys W ℤ
  openat_wrapper dirfd pathname flags mode =
      syscall sys (sys.psys_openat dirfd.path_fd pathname flags mode) >>= λ fd. pure (to_i32 fd)

  unfoldable pub binding_dup : ℤ → Sys W ℤ
  binding_dup oldfd = syscall sys (sys.psys_dup oldfd) >>= λ fd. pure (to_i32 fd)

  unfoldable pub binding_dup3 : ℤ → ℤ → ℕ → Sys W ℤ
  binding_dup3 oldfd newfd flags =
      syscall sys (sys.psys_dup3 oldfd newfd flags) >>= λ fd. pure (to_i32 fd)

  -- `FdBox::openat_impl`, `FdBox::openat` and `FdBox::creatat`
  unfoldable pub openat_impl : FdPath → Bytes → ℕ → ℕ → Sys W FdBox
  unfolding openat_wrapper box_from_raw
  openat_impl dirfd pathname flags mode =
      openat_wrapper dirfd pathname flags mode >>= λ fd. pure (box_from_raw fd)

  unfoldable pub openat : FdPath → Bytes → AccessMode → ℕ → Sys W FdBox
  unfolding openat_impl
  openat dirfd pathname acc_mode flags =
      openat_impl dirfd pathname (openat_flags sys.libc acc_mode flags) 0

  unfoldable pub creatat : FdPath → Bytes → Bool → ℕ → Bool → Bool → ℕ → Sys W FdBox
  unfolding openat_impl
  creatat dirfd pathname readable flags tmpfile_or_regular_file exclusive mode =
      openat_impl dirfd pathname
        (creatat_flags sys.libc readable flags tmpfile_or_regular_file exclusive) mode

  -- `FdPathBox::openat`
  unfoldable pub path_openat : FdPath → Bytes → FdPathMode → Bool → Sys W FdPathBox
  unfolding openat_wrapper path_box_from_raw
  path_openat dirfd pathname mode cloexec =
      openat_wrapper dirfd pathname (path_flags sys.libc mode cloexec) 0 >>= λ fd.
      pure (path_box_from_raw fd)

  -- `FdBasicOp::dup` and `dup3`, which every type with the trait has
  unfoldable pub dup : {F : Type 0} ⦃op : FdBasicOp F⦄ → F → Sys W op.BoxedFd
  unfolding binding_dup
  dup ⦃op⦄ self = binding_dup (op.get_fd self) >>= λ fd. pure (op.boxed_from_raw fd)

  unfoldable pub dup3 : {F : Type 0} ⦃op : FdBasicOp F⦄ → F → ℤ → ℕ → Sys W op.BoxedFd
  unfolding binding_dup3
  dup3 ⦃op⦄ self newfd flags =
      binding_dup3 (op.get_fd self) newfd flags >>= λ fd. pure (op.boxed_from_raw fd)

  -- `FdBox::pipe2`: (read end, write end)
  unfoldable pub pipe2 : ℕ → Sys W (FdBox × FdBox)
  unfolding syscall_out box_from_raw
  pipe2 flag = syscall_out sys (sys.psys_pipe2 (negsuc 0, negsuc 0) flag) >>= λ (r, w).
      pure (box_from_raw r, box_from_raw w)

  -- `Drop for FdBox` and for FdPathBox; `debug` and `shown` are the derived `Debug` formats of an
  -- error and a box
  unfoldable pub drop_box :
      ℕ → (SyscallError → List Bytes) → (FdBox → List Bytes) → FdBox → Sys W (Unit {0})
  drop_box fuel debug shown self =
      release sys fuel debug (codes "Failed to release the FdBox " ∷ shown self)
        (sys.psys_close self.boxed.fd)

  unfoldable pub drop_path_box :
      ℕ → (SyscallError → List Bytes) → (FdPathBox → List Bytes) → FdPathBox → Sys W (Unit {0})
  drop_path_box fuel debug shown self =
      release sys fuel debug (codes "Failed to release the FdPathBox " ∷ shown self)
        (sys.psys_close self.boxed_path.path_fd)
