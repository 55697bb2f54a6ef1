-- ===== src/SignalFd/Setup/Paths.antt =====
-- Every path through `SigChldFd::new` of src/SignalFd.rs: what it leaves behind.
use avfork.Base.{ℕ, ◌≡◌, ◌⊎◌, Bool, true, ◌||◌, List, ◌∷◌, Option, some, bit_or}
use avfork.Base.Int.{ℤ, pos, negsuc}
use avfork.Outcome.{SyscallError, Outcome, ok, err, Sys, ◌>>=◌}
use avfork.Syscall.Fd.{FdBox, box_from_raw}
use avfork.SignalFd.Setup.{SetupLib, os_int, with_interest}
use avfork.Kernel.{Kernel, Bytes}

-- How a C function that returns an int ends: with a number from 0 on, or a negative one.
pub data IntAnswer {W : Type 0} (good : ℕ → W → Type 0) (bad : W → Type 0) : ℤ × W → Type 0 where
  worked : (n : ℕ) (w : W) → good n w → IntAnswer good bad (pos n, w)
  did_not : (n : ℕ) (w : W) → bad w → IntAnswer good bad (negsuc n, w)

-- The same of a function that fills a signal set.
pub data SetAnswer {W : Type 0} (good : ℕ → W → Type 0) (bad : W → Type 0)
    : ℤ × Option ℕ × W → Type 0 where
  filled : (n m : ℕ) (w : W) → good m w → SetAnswer good bad (pos n, some m, w)
  not_filled : (n : ℕ) (set : Option ℕ) (w : W) → bad w → SetAnswer good bad (negsuc n, set, w)

module _ {W : Type 0} (sys : Kernel W) (lib : SetupLib W) (blocks : W → ℕ → Bool)
    (holds : ℕ → ℕ → Bool) (opened : W → List FdBox) (tasks : W → List FdBox) where
  -- What is the same in both worlds, but for the blocked signals.
  pub record SameFds (w w' : W) : Type 0 where
    pub fds : opened w' ≡ opened w
    pub readers : tasks w' ≡ tasks w

  -- sigsetops(3), sigprocmask(2), signalfd(2), and the two functions of tokio.
  pub record SetupLaws : Type 0 where
    pub empties :
        (w : W)
        → SetAnswer
            (λ _ w'. SameFds w w' × ((s : ℕ) → blocks w' s ≡ blocks w s))
            (λ w'. SameFds w w' × ((s : ℕ) → blocks w' s ≡ blocks w s))
            (lib.sigemptyset_raw w)
    pub adds :
        (m sig : ℕ) (w : W)
        → SetAnswer
            (λ m' w'. (holds m' sig ≡ true) × SameFds w w' × ((s : ℕ) → blocks w' s ≡ blocks w s))
            (λ w'. SameFds w w' × ((s : ℕ) → blocks w' s ≡ blocks w s))
            (lib.sigaddset_raw (some m) sig w)
    pub masks :
        (mask : ℕ) (w : W)
        → IntAnswer
            (λ _ w'. SameFds w w' × ((s : ℕ) → blocks w' s ≡ (holds mask s || blocks w s)))
            (λ w'. SameFds w w' × ((s : ℕ) → blocks w' s ≡ blocks w s))
            (lib.sigprocmask_raw lib.sig_block mask w)
    pub opens :
        (mask flags : ℕ) (w : W)
        → IntAnswer
            (λ n w'.
              (opened w' ≡ box_from_raw (pos n) ∷ opened w)
              × (tasks w' ≡ tasks w)
              × ((s : ℕ) → blocks w' s ≡ blocks w s))
            (λ w'. SameFds w w' × ((s : ℕ) → blocks w' s ≡ blocks w s))
            (lib.signalfd_raw (negsuc 0) mask flags w)
    pub registers :
        (b : FdBox) (w : W)
        → (w' : W) × (opened w' ≡ opened w)
          × (tasks w' ≡ tasks w)
          × ((s : ℕ) → blocks w' s ≡ blocks w s)
          × ((lib.register_fd b w ≡ (ok tt, w'))
              ⊎ ((e : SyscallError) × (lib.register_fd b w ≡ (err e, w'))))
    pub closes :
        (b : FdBox) (fds : List FdBox) (w : W)
        → opened w ≡ b ∷ fds
        → (n : ℕ) × (w' : W) × (sys.psys_close b.boxed.fd w ≡ (pos n, w'))
          × (opened w' ≡ fds)
          × (tasks w' ≡ tasks w)
          × ((s : ℕ) → blocks w' s ≡ blocks w s)
    pub spawns :
        (b : FdBox) (w : W)
        → (tasks (lib.spawn_read b w) ≡ b ∷ tasks w)
          × (opened (lib.spawn_read b w) ≡ opened w)
          × ((s : ℕ) → blocks (lib.spawn_read b w) s ≡ blocks w s)

  -- No signal is unblocked.
  abbrev pub StillBlocked : W → W → Type 0
  StillBlocked w w' = (s : ℕ) → blocks w s ≡ true → blocks w' s ≡ true

  -- The call that has failed with this error, before this moment; behind a registration that fails
  -- the box is closed.
  pub data FailedCall (w : W) : SyscallError → Type 0 where
    no_empty_set :
        (v : W) (n : ℕ) (set : Option ℕ)
        → lib.sigemptyset_raw v ≡ (negsuc n, set, w)
        → FailedCall w (record { errno = lib.os_errno w })
    no_signal_added :
        (v : W) (m n : ℕ) (set : Option ℕ)
        → lib.sigaddset_raw (some m) lib.sigchld v ≡ (negsuc n, set, w)
        → FailedCall w (record { errno = lib.os_errno w })
    not_masked :
        (v : W) (mask n : ℕ)
        → lib.sigprocmask_raw lib.sig_block mask v ≡ (negsuc n, w)
        → FailedCall w (record { errno = lib.os_errno w })
    not_opened :
        (v : W) (mask flags n : ℕ)
        → lib.signalfd_raw (negsuc 0) mask flags v ≡ (negsuc n, w)
        → FailedCall w (record { errno = lib.os_errno w })
    not_registered :
        (v u : W) (b : FdBox) (n : ℕ) (e : SyscallError)
        → lib.register_fd b v ≡ (err e, u)
        → sys.psys_close b.boxed.fd u ≡ (pos n, w)
        → FailedCall w e

  -- A call of `new` that began at `w`.
  abbrev pub SetUp : W → Outcome FdBox × W → Type 0
  SetUp w (ok b, w') =
      (opened w' ≡ b ∷ opened w)
      × (tasks w' ≡ b ∷ tasks w)
      × (blocks w' lib.sigchld ≡ true)
      × StillBlocked w w'
  SetUp w (err e, w') =
      (opened w' ≡ opened w) × (tasks w' ≡ tasks w) × StillBlocked w w' × FailedCall w' e
  SetUp w _ = ⊥

  module _ (laws : SetupLaws) (fuel : ℕ) (debug : SyscallError → List Bytes)
      (box_format : FdBox → List Bytes) where
    register : ℤ → Sys W FdBox
    register fd = with_interest sys lib fuel debug box_format (box_from_raw fd) >>= λ _ w.
        (ok (box_from_raw fd), lib.spawn_read (box_from_raw fd) w)

    open_fd : ℕ → Sys W FdBox
    unfolding register
    open_fd mask =
        os_int sys lib (lib.signalfd_raw (negsuc 0) mask (bit_or lib.sfd_nonblock lib.sfd_cloexec))
        >>= register

    block_signal : ℕ → Sys W FdBox
    unfolding open_fd
    block_signal mask =
        os_int sys lib (lib.sigprocmask_raw lib.sig_block mask) >>= λ _. open_fd mask
