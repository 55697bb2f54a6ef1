-- ===== src/SignalFd/Concurrent/Wait.antt =====
-- `SigChldFd::wait` of src/SignalFd.rs beside the task, while children go on ending.
use avfork.Base.{
  ℕ, suc, ◌≡◌, ◌≢◌, sym, ap, ◌∙◌, Bool, List, ◌∷◌, ◌++◌, some, All, append_cancel_left,
  append_cancel_right,
}
use avfork.Base.Int.{ℤ}
use avfork.Outcome.{ok}
use avfork.Kernel.{Kernel}
use avfork.Syscall.Fd.{Fd}
use avfork.SignalFd.{SigInfo, ExitInfo, SignalLib, exit_info, read_loop, wait}
use avfork.SignalFd.Round.{record_all, record_all-append}
use avfork.SignalFd.Waiting.{lookup, lookup-record_all_first, WaitLaws, wait-lookup}
use avfork.SignalFd.Concurrent.{Meanwhile, TaskLaws, Accounted}
use avfork.SignalFd.Concurrent.Loop.{read_loop-Accounted}

lookup-record_all_last :
    (before after : List SigInfo) (z : SigInfo) (entries : List (ℤ × ExitInfo))
    → All (λ y. y.si_pid ≢ z.si_pid) after
    → lookup z.si_pid (record_all (before ++ z ∷ after) entries) ≡ some (exit_info z)
lookup-record_all_last before after z entries apart =
    ap (lookup z.si_pid) (record_all-append before (z ∷ after) entries)
    ∙ lookup-record_all_first z after (record_all before entries) apart

module _ {W : Type 0} (lib : SignalLib W) (zombies log : W → List SigInfo) (pending : W → Bool)
    (entries : W → List (ℤ × ExitInfo)) (to_come : W → ℕ) where
  -- What `wait` answers for the newest collected child of a process id.
  wait-Accounted :
      (n : ℕ) (before after : List SigInfo) (z : SigInfo) (w w' v : W)
      → WaitLaws lib entries
      → (a : Accounted lib zombies log pending entries to_come w w')
      → a.collected ≡ before ++ z ∷ after
      → All (λ y. y.si_pid ≢ z.si_pid) after
      → Meanwhile lib zombies log pending entries to_come w' v
      → (wait lib (suc n) z.si_pid v).0 ≡ ok (exit_info z)
  wait-Accounted n before after z w w' v waits a split apart m =
      wait-lookup lib entries n z.si_pid (exit_info z) v waits (
        ap (lookup z.si_pid) (m.kept ∙ a.recorded ∙ ap (λ zs. record_all zs (entries w)) split)
        ∙ lookup-record_all_last before after z (entries w) apart)

  -- Wherever the task has got to while children end: each child that has ended since it began, or was
  -- a zombie then, and is no zombie any more, is found by `wait`, which answers in its first round
  -- what waitid has told of it. That holds until the task has collected another child of the same
  -- process id, and also where such a child has ended meanwhile: the entry of the earlier one is
  -- never taken out. The children that have ended are those that `log` has got, z is such a child,
  -- and `after` are those behind it that are no zombies any more; this is under `TaskLaws` and
  -- `WaitLaws`, and whatever the fuel of the task.
  pub wait-read_loop :
      (sys : Kernel W) (self : Fd) (rounds fuel restarts reaps n : ℕ)
      (ended before after : List SigInfo) (z : SigInfo) (w v : W)
      → TaskLaws lib zombies log pending entries to_come sys self
      → WaitLaws lib entries
      → log (read_loop sys lib rounds fuel restarts reaps self w).1 ≡ log w ++ ended
      → zombies w ++ ended
        ≡ (before ++ z ∷ after) ++ zombies (read_loop sys lib rounds fuel restarts reaps self w).1
      → All (λ y. y.si_pid ≢ z.si_pid) after
      → Meanwhile lib zombies log pending entries to_come
          (read_loop sys lib rounds fuel restarts reaps self w).1
          v
      → (wait lib (suc n) z.si_pid v).0 ≡ ok (exit_info z)
  wait-read_loop sys self rounds fuel restarts reaps n ended before after z w v tasks waits logged
        gone apart m =
      let w' : W = (read_loop sys lib rounds fuel restarts reaps self w).1 in
      let a =
        read_loop-Accounted lib zombies log pending entries to_come sys self tasks rounds fuel
          restarts reaps w in
      let since : a.ended ≡ ended =
        append_cancel_left (log w) a.ended ended (sym a.logged ∙ logged) in
      let all : a.collected ≡ before ++ z ∷ after =
        append_cancel_right a.collected (before ++ z ∷ after) (zombies w')
          (sym a.none_lost ∙ ap (λ l. zombies w ++ l) since ∙ gone) in
      wait-Accounted n before after z w w' v waits a all apart m
