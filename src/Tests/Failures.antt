-- ===== src/Tests/Failures.antt =====
-- The theorem on the tests of src/utility.rs at a concrete input.
use avfork.Base.{◌≤◌, ◌≡◌, refl, ap, List, [], ◌∷◌, codes, arith}
use avfork.Base.Int.{ℤ, pos}
use avfork.Outcome.{SyscallError, Outcome, ok, exited, ◌>>◌}
use avfork.Kernel.{Bytes}
use avfork.Programs.Forked.{ProcessLib, test_errx}
use avfork.Programs.Forked.Failures.{
  test_expect, test_expect_fmt, test_unwrap, ExitLaws, utility_tests_lem,
}
use avfork.Tests.Calls.{Terminal, terminal, terminal-WriteLaws, busy}

abbrev status_of : Outcome (Unit {0}) → ℤ
status_of (exited c) = c
status_of _ = pos 0

-- The process id of a child is its exit status.
abbrev by_status : ProcessLib Terminal
by_status = record {
  fork = λ child w. (status_of (child w).0, w);
  waitpid = λ pid w. (pid, pid, w);
  wexitstatus = λ status. status;
}

by_status-ExitLaws : ExitLaws terminal by_status (λ w. w.shown) (λ w. w.signals)
by_status-ExitLaws = record {
  exits_with =
      λ p c w byte e. (pos c, pos c, w, w, ap (λ o. (status_of o, w)) e, refl, refl, omega arith);
}

abbrev quoted : Bytes → List Bytes
quoted s = codes "\"" ∷ s ∷ codes "\"" ∷ []

abbrev unsaid : SyscallError → List Bytes
unsaid e = []

utility_tests_lem_example :
    (w' : Terminal) × ((test_errx terminal by_status 50 unsaid (λ b. [])
          >> test_expect terminal by_status 50 unsaid (λ b. []) quoted
          >> test_expect_fmt terminal by_status 50 unsaid (λ b. []) quoted
          >> test_unwrap terminal by_status 50 unsaid (λ b. []) quoted)
        busy
      ≡ (ok tt, w'))
    × (w'.signals ≤ busy.signals)
utility_tests_lem_example =
    utility_tests_lem terminal by_status (λ w. w.shown) (λ w. w.signals)
      (terminal-WriteLaws (pos 2)) by_status-ExitLaws 50 unsaid (λ b. []) quoted busy (omega arith)
      (omega arith, (omega arith, (omega arith, tt)))
