-- ===== src/Syscall/Fd/Ownership.antt =====
-- The calls of src/syscall.rs that open a descriptor.
use avfork.Base.{ℕ, ◌≡◌, refl, Bool, true, false}
use avfork.Base.Int.{ℤ, pos, negsuc, IsI32, to_i32, to_i32_small}
use avfork.Outcome.{Sys, pure, ◌>>=◌}
use avfork.Kernel.{Kernel, Bytes}
use avfork.Syscall.Raw.{syscall}
use avfork.Syscall.Raw.Results.{Reports, syscall_ok, syscall_err}
use avfork.Syscall.Flags.{AccessMode, FdPathMode, openat_flags, creatat_flags, path_flags}
use avfork.Syscall.Fd.{
  Fd, FdBox, FdPath, FdPathBox, box_from_raw, path_box_from_raw, path_openat, fd_basic_op,
  fd_path_basic_op, openat_wrapper, binding_dup, binding_dup3, openat_impl, openat, creatat, dup,
  dup3,
}

-- The calls that answer one new descriptor.
pub data OpenCall : Type 0 where
  opens : FdPath → Bytes → AccessMode → ℕ → OpenCall
  creates : FdPath → Bytes → Bool → ℕ → Bool → Bool → ℕ → OpenCall
  opens_path : FdPath → Bytes → FdPathMode → Bool → OpenCall
  dups : Fd → OpenCall
  dups_path : FdPath → OpenCall
  dup3s : Fd → ℤ → ℕ → OpenCall
  dup3s_path : FdPath → ℤ → ℕ → OpenCall

-- The two kinds of box, and the box that a call makes of a descriptor.
pub data Box : Type 0 where
  file_box : FdBox → Box
  path_box : FdPathBox → Box

abbrev pub boxes_path : OpenCall → Bool
boxes_path (opens_path dir path mode cloexec) = true
boxes_path (dups_path fd) = true
boxes_path (dup3s_path fd newfd flags) = true
boxes_path (opens dir path acc flags) = false
boxes_path _ = false

abbrev pub box_up : Bool → ℤ → Box
box_up true fd = path_box (record { boxed_path = record { path_fd = fd } })
box_up false fd = file_box (record { boxed = record { fd = fd } })

module _ {W : Type 0} (sys : Kernel W) where
  abbrev pub open_call : OpenCall → Sys W Box
  open_call (opens dir path acc flags) = openat sys dir path acc flags >>= λ b. pure (file_box b)
  open_call (creates dir path readable flags tmpfile exclusive mode) =
      creatat sys dir path readable flags tmpfile exclusive mode >>= λ b. pure (file_box b)
  open_call (opens_path dir path mode cloexec) =
      path_openat sys dir path mode cloexec >>= λ b. pure (path_box b)
  open_call (dups fd) = dup sys fd >>= λ b. pure (file_box b)
  open_call (dups_path fd) = dup sys fd >>= λ b. pure (path_box b)
  open_call (dup3s fd newfd flags) = dup3 sys fd newfd flags >>= λ b. pure (file_box b)
  open_call (dup3s_path fd newfd flags) = dup3 sys fd newfd flags >>= λ b. pure (path_box b)

  -- The system call behind each: an existing file is opened with the mode 0.
  abbrev pub open_raw : OpenCall → W → ℤ × W
  open_raw (opens dir path acc flags) =
      sys.psys_openat dir.path_fd path (openat_flags sys.libc acc flags) 0
  open_raw (creates dir path readable flags tmpfile exclusive mode) =
      sys.psys_openat dir.path_fd path (creatat_flags sys.libc readable flags tmpfile exclusive)
        mode
  open_raw (opens_path dir path mode cloexec) =
      sys.psys_openat dir.path_fd path (path_flags sys.libc mode cloexec) 0
  open_raw (dups fd) = sys.psys_dup fd.fd
  open_raw (dups_path fd) = sys.psys_dup fd.path_fd
  open_raw (dup3s fd newfd flags) = sys.psys_dup3 fd.fd newfd flags
  open_raw (dup3s_path fd newfd flags) = sys.psys_dup3 fd.path_fd newfd flags

  Reports-open :
      {B : Type 0} (from_raw : ℤ → B) (box : B → Box) (f : W → ℤ × W) (r : ℤ) (w w' : W)
      → f w ≡ (r, w')
      → IsI32 r
      → let opened : Sys W Box =
          ((syscall sys f >>= λ fd. pure (to_i32 fd)) >>= λ fd. pure (from_raw fd)) >>= λ b.
          pure (box b) in
        Reports r (λ n. box (from_raw (pos n))) (opened w).0 × ((opened w).1 ≡ w')
  Reports-open from_raw box f (pos n) w w' e h =
      rw (syscall_ok sys f w w' n e) (rw (to_i32_small n h.0) refl, refl)
  Reports-open from_raw box f (negsuc n) w w' e h = rw (syscall_err sys f w w' n h.1 e) (refl, refl)

  -- `FdBox::openat`, `FdBox::creatat`, `FdPathBox::openat`, and `dup` and `dup3` of both kinds of
  -- descriptor make one system call; the descriptor that it answers, exactly, is in the box that
  -- comes back, of the caller's kind, and a negative code is the error of that number. The code is
  -- to be a c_int.
  pub open_call-Reports :
      (c : OpenCall) (r : ℤ) (w w' : W)
      → open_raw c w ≡ (r, w')
      → IsI32 r
      → Reports r (λ n. box_up (boxes_path c) (pos n)) (open_call c w).0 × ((open_call c w).1 ≡ w')
  unfolding openat creatat path_openat openat_impl openat_wrapper dup dup3 binding_dup binding_dup3
      box_from_raw path_box_from_raw
  open_call-Reports (opens dir path acc flags) r w w' e h =
      Reports-open box_from_raw file_box _ r w w' e h
  open_call-Reports (creates dir path a flags b c mode) r w w' e h =
      Reports-open box_from_raw file_box _ r w w' e h
  open_call-Reports (opens_path dir path mode cloexec) r w w' e h =
      Reports-open path_box_from_raw path_box _ r w w' e h
  open_call-Reports (dups fd) r w w' e h = Reports-open box_from_raw file_box _ r w w' e h
  open_call-Reports (dups_path fd) r w w' e h = Reports-open path_box_from_raw path_box _ r w w' e h
  open_call-Reports (dup3s fd newfd flags) r w w' e h =
      Reports-open box_from_raw file_box _ r w w' e h
  open_call-Reports (dup3s_path fd newfd flags) r w w' e h =
      Reports-open path_box_from_raw path_box _ r w w' e h
