-- ===== src/SignalFd/Setup.antt =====
-- `SigChldFd::new` of src/SignalFd.rs: SIGCHLD is blocked, a descriptor for it is opened and
-- registered, and the task is started.
pub mod Paths
use avfork.Base.{ℕ, Option, List, bit_or}
use avfork.Base.Int.{ℤ, pos, negsuc}
use avfork.Outcome.{
  SyscallError, Outcome, ok, err, Sys, lift, assume_init, ◌>>=◌, dropping_on_panic,
}
use avfork.Kernel.{Kernel, Bytes}
use avfork.Syscall.Fd.{FdBox, box_from_raw, drop_box}

-- The functions of libc and tokio that it calls. A signal set is a number, `none` if its memory
-- is not written yet.
pub record SetupLib (W : Type 0) : Type 0 where
  pub os_errno : W → ℕ
  pub sigchld : ℕ
  pub sig_block : ℕ
  pub sfd_nonblock : ℕ
  pub sfd_cloexec : ℕ
  pub sigemptyset_raw : W → ℤ × Option ℕ × W
  pub sigaddset_raw : Option ℕ → ℕ → W → ℤ × Option ℕ × W
  pub sigprocmask_raw : ℕ → ℕ → W → ℤ × W
  pub signalfd_raw : ℤ → ℕ → ℕ → W → ℤ × W
  -- the registration that `AsyncFd::with_interest` makes for the box that it has taken
  pub register_fd : FdBox → Sys W (Unit {0})
  -- `tokio::spawn` of the task that reads this descriptor
  pub spawn_read : FdBox → W → W

module _ {W : Type 0} (sys : Kernel W) (lib : SetupLib W) where
  -- `if ret < 0 { return Err(Error::last_os_error()) }`
  unfoldable pub os_result : {A : Type 0} → ℤ → A → W → Outcome A
  os_result (pos _) a w = ok a
  os_result (negsuc _) a w = err (record { errno = lib.os_errno w })

  unfoldable pub os_out : {A : Type 0} → (W → ℤ × A × W) → Sys W A
  os_out f w = let (ret, a, w') = f w in (os_result ret a w', w')

  unfoldable pub os_int : (W → ℤ × W) → Sys W ℤ
  os_int f w = let (ret, w') = f w in (os_result ret ret w', w')

  -- the set of the one signal SIGCHLD
  unfoldable pub sigchld_mask : Sys W ℕ
  sigchld_mask = os_out lib.sigemptyset_raw >>= λ empty.
      os_out (lib.sigaddset_raw empty lib.sigchld) >>= λ mask. lift (assume_init mask)

  -- `AsyncFd::with_interest`: it owns the box, so an error drops it.
  unfoldable pub with_interest :
      ℕ → (SyscallError → List Bytes) → (FdBox → List Bytes) → FdBox → Sys W (Unit {0})
  with_interest fuel debug box_format b =
      dropping_on_panic (drop_box sys fuel debug box_format b) (lib.register_fd b)

  -- `SigChldFd::new`: the box that the new value and its task share.
  unfoldable pub new_sig_chld_fd :
      ℕ → (SyscallError → List Bytes) → (FdBox → List Bytes) → Sys W FdBox
  new_sig_chld_fd fuel debug box_format = sigchld_mask >>= λ mask.
      os_int (lib.sigprocmask_raw lib.sig_block mask) >>= λ _.
      os_int (lib.signalfd_raw (negsuc 0) mask (bit_or lib.sfd_nonblock lib.sfd_cloexec)) >>= λ fd.
      with_interest fuel debug box_format (box_from_raw fd) >>= λ _ w.
      (ok (box_from_raw fd), lib.spawn_read (box_from_raw fd) w)
