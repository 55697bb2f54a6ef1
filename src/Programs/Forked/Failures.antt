-- ===== src/Programs/Forked/Failures.antt =====
-- The tests of src/utility.rs: each runs a fatal error in a forked process.
use avfork.Base.{
  ℕ, ◌+◌, ◌≤◌, ◌<◌, ◌≡◌, refl, ◌∙◌, ◌⊎◌, inr, List, [], ◌∷◌, ◌++◌, codes, arith, length, All,
}
use avfork.Base.Int.{ℤ, pos, eqb_ℤ_iff}
use avfork.Outcome.{SyscallError, Outcome, ok, exited, Sys, bind_eq, ◌>>◌}
use avfork.Kernel.{Kernel, Bytes}
use avfork.Syscall.Io.{exit}
use avfork.Syscall.Io.WriteAll.{WriteLaws}
use avfork.Syscall.Fd.{FdPathBox}
use avfork.Utility.{fatal_text, errx_impl, expect_fmt_on, expect_on, unwrap_on}
use avfork.Utility.Fatal.{errx_impl-Exits}
use avfork.Programs.Forked.{ProcessLib, run, assert_run, test_errx}

-- `ERR`, of type `Result<(), &'static str>`
abbrev test_error : Unit {0} ⊎ Bytes
test_error = inr (codes "Error")

module _ {W : Type 0} (sys : Kernel W) (procs : ProcessLib W) (fuel : ℕ)
    (debug : SyscallError → List Bytes) (box_format : FdPathBox → List Bytes)
    (str_debug : Bytes → List Bytes) where
  unfoldable pub test_expect : Sys W (Unit {0})
  test_expect =
      assert_run sys procs fuel debug box_format
        (expect_on sys fuel str_debug test_error (codes "Expected failure")) (pos 1)

  -- `expect!(ERR, "Expected failure {}", 1)`
  unfoldable pub test_expect_fmt : Sys W (Unit {0})
  test_expect_fmt =
      assert_run sys procs fuel debug box_format
        (expect_fmt_on sys fuel str_debug test_error (codes "Expected failure " ∷ codes "1" ∷ []))
        (pos 1)

  unfoldable pub test_unwrap : Sys W (Unit {0})
  test_unwrap =
      assert_run sys procs fuel debug box_format (unwrap_on sys fuel str_debug test_error) (pos 1)

module _ {W : Type 0} (sys : Kernel W) (procs : ProcessLib W) (stream : W → Bytes)
    (interruptions : W → ℕ) where
  -- A child that calls exit(2) is waited for, and WEXITSTATUS is its status, a byte; meanwhile no
  -- signals are added to those that interrupt writes.
  pub record ExitLaws : Type 0 where
    pub exits_with :
        (p : Sys W (Unit {0})) (c : ℕ) (w : W)
        → c < 256
        → (p w).0 ≡ exited (pos c)
        → (pid : ℤ) × (raw : ℤ) × (w' : W) × (w'' : W) × (procs.fork p w ≡ (pid, w'))
          × (procs.waitpid pid w' ≡ (pid, raw, w''))
          × (procs.wexitstatus raw ≡ pos c)
          × (interruptions w'' ≤ interruptions w)

  module _ (writes : WriteLaws sys (pos 2) stream interruptions) (laws : ExitLaws) (fuel : ℕ)
      (debug : SyscallError → List Bytes) (box_format : FdPathBox → List Bytes) where
    abbrev Passing : W → Outcome (Unit {0}) × W → Type 0
    Passing w r = (w' : W) × (r ≡ (ok tt, w')) × (interruptions w' ≤ interruptions w)

    Passing-bind :
        (m k : Sys W (Unit {0})) (w : W)
        → Passing w (m w)
        → ((v : W) → interruptions v ≤ interruptions w → Passing v (k v))
        → Passing w ((m >> k) w)
    Passing-bind m k w (v, e, f) next =
        let (u, e', f') = next v f in (u, bind_eq (m w) (ok tt, v) (λ _. k) e ∙ e', omega arith)

    -- A test that expects a fatal error with this status and message.
    assert_run-errx_impl :
        (c : ℕ) (args : List Bytes) (w : W)
        → c < 256
        → All (λ p. length p + interruptions w < fuel) (fatal_text args)
        → Passing w
            (assert_run sys procs fuel debug box_format (errx_impl sys fuel (pos c) args) (pos c) w)
    unfolding assert_run run
    assert_run-errx_impl c args w byte enough =
        let (v, o, ends, _) =
          errx_impl-Exits sys stream interruptions writes {A = Unit {0}} fuel (pos c) args w
            enough in
        let fails : Sys W (Unit {0}) = errx_impl sys fuel (pos c) args in
        let child_program : Sys W (Unit {0}) = fails >> exit sys (pos 0) in
        let child : (child_program w).0 ≡ exited (pos c) = rw ends refl in
        let (pid, raw, w', w'', forked, waited, status, fewer) =
          laws.exits_with child_program c w byte child in
        (
          w'',
          rw (assert_run, run, forked)
              (rw waited (
                rw ((eqb_ℤ_iff pid pid).1 refl, status)
                  (rw ((eqb_ℤ_iff (pos c) (pos c)).1 refl) refl))),
          fewer,
        )

    abbrev Room : List Bytes → W → Type 0
    Room pieces w = All (λ p. length p + interruptions w < fuel) pieces

    Room-later :
        (pieces : List Bytes) (w v : W)
        → interruptions v ≤ interruptions w
        → Room pieces w
        → Room pieces v
    Room-later [] w v fewer h = tt
    Room-later (p ∷ ps) w v fewer (here, rest) = (omega arith, Room-later ps w v fewer rest)

    Room-line :
        (pieces : List Bytes) (w : W)
        → Room pieces w
        → 40 + interruptions w < fuel
        → Room (pieces ++ ((10 ∷ []) ∷ [])) w
    Room-line [] w h room = (omega arith, tt)
    Room-line (p ∷ ps) w (here, rest) room = (here, Room-line ps w rest room)

    test_errx-Passing :
        (w : W)
        → 40 + interruptions w < fuel
        → Passing w (test_errx sys procs fuel debug box_format w)
    unfolding test_errx
    test_errx-Passing w room =
        let hello = codes "Hello, world from test_errx!" ∷ [] in
        let once : Sys W (Unit {0}) =
          assert_run sys procs fuel debug box_format (errx_impl sys fuel (pos 0) hello) (pos 0) in
        let passes : (v : W) → interruptions v ≤ interruptions w → Passing v (once v) = λ v fewer.
          assert_run-errx_impl 0 hello v (omega arith)
            (omega arith, (omega arith, (omega arith, tt))) in
        Passing-bind once once w (passes w (omega arith)) passes

    -- A test that expects the error of the three other tests behind a text.
    expected-Passing :
        (str_debug : Bytes → List Bytes) (args : List Bytes) (w : W)
        → 40 + interruptions w < fuel
        → Room (str_debug (codes "Error")) w
        → (Room (codes ": " ∷ str_debug (codes "Error")) w
            → Room (args ++ (codes ": " ∷ str_debug (codes "Error"))) w)
        → Passing w (
            assert_run sys procs fuel debug box_format
              (expect_fmt_on sys fuel str_debug test_error args)
              (pos 1)
              w)
    expected-Passing str_debug args w room shown put_before =
        let all = put_before (omega arith, shown) in
        assert_run-errx_impl 1 (args ++ (codes ": " ∷ str_debug (codes "Error"))) w (omega arith)
          (omega arith, Room-line _ w all room)

    -- The four tests of utility.rs pass: the child ends with the status that the test expects,
    -- whether its message can be written or not, and none of them panics. There is fuel for each
    -- piece of the messages and the interruptions, `WriteLaws` hold for STDERR, and a child that
    -- exits is waited for (`ExitLaws`).
    pub utility_tests_lem :
        (str_debug : Bytes → List Bytes) (w : W)
        → 40 + interruptions w < fuel
        → All (λ p. length p + interruptions w < fuel) (str_debug (codes "Error"))
        → (w' : W) × ((test_errx sys procs fuel debug box_format
                >> test_expect sys procs fuel debug box_format str_debug
                >> test_expect_fmt sys procs fuel debug box_format str_debug
                >> test_unwrap sys procs fuel debug box_format str_debug)
              w
            ≡ (ok tt, w'))
          × (interruptions w' ≤ interruptions w)
    unfolding test_expect test_expect_fmt test_unwrap
    utility_tests_lem str_debug w room shown =
        let room_later : (v : W) → interruptions v ≤ interruptions w → 40 + interruptions v < fuel =
          λ v fewer. omega arith in
        let shown_later : (v : W)
            → interruptions v ≤ interruptions w
            → Room (str_debug (codes "Error")) v =
          λ v fewer. Room-later (str_debug (codes "Error")) w v fewer shown in
        let errx : Sys W (Unit {0}) = test_errx sys procs fuel debug box_format in
        let msg : Sys W (Unit {0}) = test_expect sys procs fuel debug box_format str_debug in
        let msg_fmt : Sys W (Unit {0}) =
          test_expect_fmt sys procs fuel debug box_format str_debug in
        Passing-bind (errx >> msg >> msg_fmt)
          (test_unwrap sys procs fuel debug box_format str_debug) w
          (Passing-bind (errx >> msg) msg_fmt w
            (Passing-bind errx msg w (test_errx-Passing w room) (λ v fewer.
              expected-Passing str_debug (codes "Expected failure" ∷ []) v (room_later v fewer)
                (shown_later v fewer) (λ h. (omega arith, h))))
            (λ v fewer.
              expected-Passing str_debug (codes "Expected failure " ∷ codes "1" ∷ []) v
                (room_later v fewer) (shown_later v fewer) (λ h. (omega arith, (omega arith, h)))))
          (λ v fewer.
            expected-Passing str_debug (codes "unwrap failed" ∷ []) v (room_later v fewer)
              (shown_later v fewer) (λ h. (omega arith, h)))
