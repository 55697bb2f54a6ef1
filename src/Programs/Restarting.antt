-- ===== src/Programs/Restarting.antt =====
-- The tests of `autorestart` in src/syscall.rs: a call that is interrupted once.
use avfork.Base.{ℕ, suc, ◌^◌, ◌<◌, ◌≡◌, refl, true, ◌&&◌, ◌==◌, if◌then◌else◌}
use avfork.Base.Int.{pos, eqb_ℤ_iff, to_i32_small}
use avfork.Outcome.{Outcome, ok, err, panicked, Sys}
use avfork.Error.{new_error, get_errno}
use avfork.Syscall.Restart.{is_interrupted, autorestart}

-- The macro `autorestart!`, whose block is the closure.
abbrev pub autorestart_macro : {W A : Type 0} → ℕ → Sys W A → ℕ → Sys W A
autorestart_macro eintr block fuel = autorestart eintr block fuel

-- The closure of both tests; its state is `cnt`.
unfoldable pub interrupted_once : ℕ → Sys ℕ ℕ
interrupted_once eintr cnt = if cnt == 0 then (err (new_error eintr), 1) else (ok 1, cnt)

-- `assert_matches!(result, Ok(1))` and `assert_eq!(cnt, 1)`
unfoldable pub assert_restarted : Outcome ℕ × ℕ → Outcome (Unit {0})
assert_restarted (ok n, cnt) = if n == 1 && cnt == 1 then ok tt else panicked
assert_restarted (_, cnt) = panicked

unfoldable pub test_autorestart : ℕ → ℕ → Outcome (Unit {0})
test_autorestart eintr fuel = assert_restarted (autorestart eintr (interrupted_once eintr) fuel 0)

unfoldable pub test_autorestart_macro : ℕ → ℕ → Outcome (Unit {0})
test_autorestart_macro eintr fuel =
    assert_restarted (autorestart_macro eintr (interrupted_once eintr) fuel 0)

interrupted :
    (eintr : ℕ) → eintr < 2 ^ 31 → is_interrupted {A = ℕ} eintr (err (new_error eintr)) ≡ true
unfolding is_interrupted get_errno new_error
interrupted eintr small = (eqb_ℤ_iff _ (pos eintr)).1 (to_i32_small eintr small)

-- Both tests pass, with fuel for two rounds.
test_autorestart_lem :
    (eintr fuel : ℕ)
    → eintr < 2 ^ 31
    → (test_autorestart eintr (suc (suc fuel)) ≡ ok tt)
      × (test_autorestart_macro eintr (suc (suc fuel)) ≡ ok tt)
unfolding test_autorestart test_autorestart_macro assert_restarted interrupted_once autorestart
    is_interrupted
test_autorestart_lem eintr fuel small = (
  rw (test_autorestart, autorestart, interrupted eintr small) refl,
  rw (test_autorestart_macro, autorestart, interrupted eintr small) refl,
)
