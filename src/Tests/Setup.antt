-- ===== src/Tests/Setup.antt =====
-- The theorem on `SigChldFd::new` of src/SignalFd.rs at a concrete input.
use avfork.Base.{ℕ, Bool, true, false, ◌||◌, List, [], ◌∷◌, some, ◌==◌}
use avfork.Base.Int.{pos}
use avfork.Outcome.{SyscallError, err}
use avfork.Kernel.{Kernel, Bytes}
use avfork.Tests.World.{idle_kernel}
use avfork.Syscall.Fd.{FdBox, box_from_raw}
use avfork.SignalFd.Setup.{SetupLib}

-- Open descriptors, running tasks, blocked signals. Every registration fails, with EPERM.
record Desk : Type 0 where
  fds : List FdBox
  running : List FdBox
  mask : List ℕ

abbrev is_in : ℕ → List ℕ → Bool
is_in s [] = false
is_in s (n ∷ ns) = s == n || is_in s ns

abbrev close_first : List FdBox → List FdBox
close_first [] = []
close_first (b ∷ fds) = fds

-- A signal set that is the one signal of that number.
abbrev desk : SetupLib Desk
desk = record {
  os_errno = λ w. 1;
  sigchld = 17;
  sig_block = 0;
  sfd_nonblock = 0o4000;
  sfd_cloexec = 0o2000000;
  sigemptyset_raw = λ w. (pos 0, some 0, w);
  sigaddset_raw = λ m s w. (pos 0, some s, w);
  sigprocmask_raw = λ how m w. (pos 0, record w { mask = m ∷ w.mask });
  signalfd_raw = λ fd m flags w. (pos 8, record w { fds = box_from_raw (pos 8) ∷ w.fds });
  register_fd = λ b w. (err (record { errno = 1 }), w);
  spawn_read = λ b w. record w { running = b ∷ w.running };
}

abbrev closing : Kernel Desk
closing = record (idle_kernel true) {
  psys_close = λ fd w. (pos 0, record w { fds = close_first w.fds });
}

abbrev empty_desk : Desk
empty_desk = record { fds = []; running = []; mask = [] }

abbrev silent : SyscallError → List Bytes
silent e = []
