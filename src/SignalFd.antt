-- ===== src/SignalFd.antt =====
-- src/SignalFd.rs: the task that collects the children that have ended. The file's errors are
-- std::io errors made from an errno; they are modelled by that number, as an `err`.
pub mod Round
pub mod Reap
pub mod Concurrent
pub mod Status
pub mod Waiting
pub mod Setup
use avfork.Base.{
  ℕ, zero, suc, ◌*◌, ◌%◌, Bool, true, false, Option, none, some, List, ◌==◌, if◌then◌else◌,
}
use avfork.Base.Int.{ℤ, pos, negsuc, eqb_ℤ}
use avfork.Outcome.{
  SyscallError, Outcome, ok, err, panicked, out_of_fuel, Sys, pure, lift, ◌>>=◌, ◌>>◌,
}
use avfork.Kernel.{Kernel, Bytes}
use avfork.Error.{get_errno}
use avfork.Syscall.Fd.{Fd}
use avfork.Syscall.Io.{read}
use avfork.Syscall.Restart.{autorestart}

-- The fields of `libc::siginfo_t` that the file reads.
pub record SigInfo : Type 0 where
  pub si_pid : ℤ
  pub si_uid : ℕ
  pub si_status : ℤ
  pub si_utime : ℤ
  pub si_stime : ℤ

-- `MaybeUninit::zeroed()`
abbrev pub zeroed : SigInfo
zeroed = record {
  si_pid = pos 0;
  si_uid = 0;
  si_status = pos 0;
  si_utime = pos 0;
  si_stime = pos 0;
}

pub record ExitInfo : Type 0 where
  pub uid : ℕ
  pub wstatus : ℤ
  pub utime : ℤ
  pub stime : ℤ

-- `ExitInfo::get_uid`, `get_utime` and `get_stime`
unfoldable pub get_uid : ExitInfo → ℕ
get_uid self = self.uid

unfoldable pub get_utime : ExitInfo → ℤ
get_utime self = self.utime

unfoldable pub get_stime : ExitInfo → ℤ
get_stime self = self.stime

-- The functions of libc, tokio and waitmap that the file calls.
pub record SignalLib (W : Type 0) : Type 0 where
  -- the errno of the thread, for `Error::last_os_error()`
  pub last_os_error : W → ℕ
  -- `libc::waitid`: its arguments are the kind and number of the id, the options and the buffer
  pub waitid_raw : ℕ → ℕ → ℕ → SigInfo → W → ℤ × SigInfo × W
  pub p_all : ℕ
  -- WEXITED | WNOHANG
  pub waitid_option : ℕ
  pub eagain : ℕ
  -- size_of::<signalfd_siginfo>()
  pub siginfo_size : ℕ
  -- `AsyncFd::readable().await`
  pub readable : Sys W (Unit {0})
  -- `WaitMap::insert`, and `WaitMap::wait` with its value if it was not cancelled
  pub map_insert : ℤ → ExitInfo → W → W
  pub map_wait : ℤ → W → Option ExitInfo × W
  -- the macros on a wait status
  pub wifexited : ℤ → Bool
  pub wexitstatus : ℤ → ℤ
  pub wifsignaled : ℤ → Bool
  pub wtermsig : ℤ → ℤ

-- `SIGINFO_BUFSIZE`
abbrev pub siginfo_bufsize : ℕ
siginfo_bufsize = 20

-- The value that the task puts into the map.
unfoldable pub exit_info : SigInfo → ExitInfo
exit_info s = record {
  uid = s.si_uid;
  wstatus = s.si_status;
  utime = s.si_utime;
  stime = s.si_stime;
}

module _ {W : Type 0} (lib : SignalLib W) where
  -- `ExitInfo::get_exit_status` and `get_term_sig`
  unfoldable pub get_exit_status : ExitInfo → Option ℤ
  get_exit_status self =
      if lib.wifexited self.wstatus then some (lib.wexitstatus self.wstatus) else none

  unfoldable pub get_term_sig : ExitInfo → Option ℤ
  get_term_sig self =
      if lib.wifsignaled self.wstatus then some (lib.wtermsig self.wstatus) else none

  -- What `waitid` makes of the C function's answer.
  unfoldable pub waitid_result : ℤ → SigInfo → W → Outcome (Option SigInfo)
  waitid_result (negsuc _) siginfo w = err (record { errno = lib.last_os_error w })
  waitid_result (pos _) siginfo w =
      if eqb_ℤ siginfo.si_pid (pos 0) then ok none else ok (some siginfo)

  -- `waitid`
  unfoldable pub waitid : ℕ → ℕ → ℕ → Sys W (Option SigInfo)
  waitid idtype id options w =
      let (ret, siginfo, w') = lib.waitid_raw idtype id options zeroed w in
      (waitid_result ret siginfo w', w')

  -- The inner loop of `read`: `while let Some(siginfo) = waitid(…)? { … }`.
  unfoldable pub reap : ℕ → Sys W (Unit {0})
  reap zero w = (out_of_fuel, w)
  reap (suc fuel) w =
      (waitid lib.p_all 0 lib.waitid_option >>= λ found. elim found [
        | none ↦ pure tt
        | some s ↦ λ v. reap fuel (lib.map_insert s.si_pid (exit_info s) v)
      ])
        w

  -- `wait`: the loop ends with the first value that the map gives.
  unfoldable pub wait : ℕ → ℤ → Sys W ExitInfo
  wait zero pid w = (out_of_fuel, w)
  wait (suc fuel) pid w =
      let (found, w') = lib.map_wait pid w in
      elim found [ none ↦ wait fuel pid w' | some val ↦ (ok val, w') ]

module _ {W : Type 0} (sys : Kernel W) (lib : SignalLib W) where
  -- `try_io` answers `Err` for an error of the kind `WouldBlock`.
  unfoldable pub would_block : {A : Type 0} → Outcome A → Bool
  would_block (err e) = eqb_ℤ (get_errno e) (pos lib.eagain)
  would_block (ok _) = false
  would_block _ = false

  -- `read_bytes` into a buffer of `len` bytes; the first fuel is for the waits, the second for the
  -- interruptions of one read.
  unfoldable pub read_bytes : ℕ → ℕ → Fd → ℕ → Sys W (ℕ × Bytes)
  read_bytes zero restarts self len w = (out_of_fuel, w)
  read_bytes (suc fuel) restarts self len w =
      (lib.readable >>= λ _ v.
      (let (o, v') = autorestart sys.eintr (read sys self.fd len) restarts v in
        elim (would_block o) [ true ↦ read_bytes fuel restarts self len v' | false ↦ (o, v') ]))
        w

  -- One round of `read`: a signal, then every child that has ended.
  unfoldable pub read_round : ℕ → ℕ → ℕ → Fd → Sys W (Unit {0})
  read_round fuel restarts reaps self =
      read_bytes fuel restarts self (siginfo_bufsize * lib.siginfo_size) >>= λ (cnt, _).
      if cnt % lib.siginfo_size == 0 then reap lib reaps else lift panicked

  -- `read`: rounds for ever, until one fails.
  unfoldable pub read_loop : ℕ → ℕ → ℕ → ℕ → Fd → Sys W (Unit {0})
  read_loop zero fuel restarts reaps self w = (out_of_fuel, w)
  read_loop (suc rounds) fuel restarts reaps self w =
      (read_round fuel restarts reaps self >>= λ _ v. read_loop rounds fuel restarts reaps self v) w
