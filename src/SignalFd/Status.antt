-- ===== src/SignalFd/Status.antt =====
-- `ExitInfo::get_exit_status` and `get_term_sig` of src/SignalFd.rs, on what waitid reports.
use avfork.Base.{ℕ, ◌%◌, ◌<◌, ◌≡◌, ◌&&◌, none, some, leb, ◌==◌, if◌then◌else◌}
use avfork.Base.Int.{pos}
use avfork.SignalFd.{SigInfo, SignalLib, exit_info, get_exit_status, get_term_sig}

-- The macros on a wait status of 0 to 255, as in wait(2) of Linux: a status of which the low seven
-- bits are 0 is an exit with the status in the next byte, and one of which they are from 1 to 126
-- is a termination by that signal.
pub record WaitMacros {W : Type 0} (lib : SignalLib W) : Type 0 where
  pub exited_iff : (s : ℕ) → s < 256 → lib.wifexited (pos s) ≡ (s % 128 == 0)
  pub exit_byte : (s : ℕ) → s < 256 → lib.wexitstatus (pos s) ≡ pos 0
  pub signaled_iff :
      (s : ℕ) → s < 256 → lib.wifsignaled (pos s) ≡ (leb 1 (s % 128) && leb (s % 128) 126)
  pub signal_bits : (s : ℕ) → s < 256 → lib.wtermsig (pos s) ≡ pos (s % 128)

-- The field si_status of waitid is no wait status: for a child that has called exit it is the exit
-- status c itself, below 256. Then, under `WaitMacros`, `get_exit_status` answers nothing, unless c
-- is a multiple of 128, and 0 if it is; and for a c of which the low seven bits are from 1 to 126,
-- `get_term_sig` answers these bits as the signal that has killed the child, and nothing for any
-- other c.
pub exit_status_misread :
    {W : Type 0} (lib : SignalLib W) (s : SigInfo) (c : ℕ)
    → WaitMacros lib
    → s.si_status ≡ pos c
    → c < 256
    → (get_exit_status lib (exit_info s) ≡ (if c % 128 == 0 then some (pos 0) else none))
      × (get_term_sig lib (exit_info s)
          ≡ (if leb 1 (c % 128) && leb (c % 128) 126 then some (pos (c % 128)) else none))
unfolding get_exit_status get_term_sig exit_info
exit_status_misread lib s c macros e h = (
  rw (e, macros.exited_iff c h, macros.exit_byte c h),
  rw (e, macros.signaled_iff c h, macros.signal_bits c h),
)
