-- ===== src/Utility.antt =====
-- src/utility.rs: the fatal errors, and the conversion of texts to C strings.
pub mod Fatal
pub mod Release
pub mod CStrings
use avfork.Base.{
  ◌⊎◌, inl, inr, ℕ, suc, Bool, true, false, List, [], ◌∷◌, ◌++◌, Option, none, some, codes, ◌==◌,
  if◌then◌else◌,
}
use avfork.Base.Int.{ℤ, pos}
use avfork.Outcome.{
  call, ◌>>=◌, SyscallError, Outcome, ok, err, exited, replaced, panicked, undefined, out_of_fuel,
  Sys, pure, lift, ◌>>◌,
}
use avfork.Error.{to_result}
use avfork.Kernel.{Kernel, Bytes}
use avfork.Syscall.Io.{write_fmt, exit}

-- `CStr::from_bytes_with_nul`: the bytes before the terminator, which is to be the only NUL.
unfoldable pub to_cstr : Bytes → Option Bytes
to_cstr [] = none
to_cstr (b ∷ bs) =
    let rest = to_cstr bs in
    let shorter : Option Bytes = elim rest [ none ↦ none | some s ↦ some (b ∷ s) ] in
    if b == 0 then elim bs [ [] ↦ some [] | _ ∷ _ ↦ none ] else shorter

-- The pieces that `writeln!(…, "Fatal Error: {}", args)` hands to the stream.
abbrev pub fatal_text : List Bytes → List Bytes
fatal_text args = codes "Fatal Error: " ∷ (args ++ ((10 ∷ []) ∷ []))

module _ {W : Type 0} (sys : Kernel W) (fuel : ℕ) where
  -- `errx_impl`: the result of the write is ignored. STDERR is descriptor 2.
  unfoldable pub errx_impl : {A : Type 0} → ℤ → List Bytes → Sys W A
  errx_impl exit_status args = write_fmt sys fuel (pos 2) (fatal_text args) >> exit sys exit_status

  -- `expect_fmt`, `expect` and `unwrap`, over any type of errors; `debug` is its `Debug` format.
  abbrev pub expect_fmt_on : {A E : Type 0} → (E → List Bytes) → A ⊎ E → List Bytes → Sys W A
  expect_fmt_on debug (inl val) args = pure val
  expect_fmt_on debug (inr e) args = errx_impl (pos 1) (args ++ (codes ": " ∷ debug e))

  abbrev pub expect_on : {A E : Type 0} → (E → List Bytes) → A ⊎ E → Bytes → Sys W A
  expect_on debug result msg = expect_fmt_on debug result (msg ∷ [])

  abbrev pub unwrap_on : {A E : Type 0} → (E → List Bytes) → A ⊎ E → Sys W A
  unwrap_on debug result = expect_on debug result (codes "unwrap failed")

  -- `expect_fmt`, on the result of an earlier call.
  unfoldable pub expect_fmt :
      {A : Type 0} → (SyscallError → List Bytes) → Outcome A → List Bytes → Sys W A
  expect_fmt debug (ok val) args = expect_fmt_on debug (inl val) args
  expect_fmt debug (err e) args = expect_fmt_on debug (inr e) args
  expect_fmt debug (exited c) args = lift (exited c)
  expect_fmt debug Outcome.replaced args = lift replaced
  expect_fmt debug Outcome.panicked args = lift panicked
  expect_fmt debug Outcome.undefined args = lift undefined
  expect_fmt debug Outcome.out_of_fuel args = lift out_of_fuel

  -- `expect` and `unwrap`
  unfoldable pub expect : {A : Type 0} → (SyscallError → List Bytes) → Outcome A → Bytes → Sys W A
  expect debug result msg = expect_fmt debug result (msg ∷ [])

  unfoldable pub unwrap : {A : Type 0} → (SyscallError → List Bytes) → Outcome A → Sys W A
  unfolding expect
  unwrap debug result = expect debug result (codes "unwrap failed")

  -- The macros `errx!` and `expect!`: their text is handed on in its pieces.
  abbrev pub errx_macro : {A : Type 0} → ℤ → List Bytes → Sys W A
  errx_macro status args = errx_impl status args

  abbrev pub expect_macro :
      {A : Type 0} → (SyscallError → List Bytes) → Outcome A → List Bytes → Sys W A
  expect_macro debug result args = expect_fmt debug result args

  -- What the three `Drop` implementations do: the call `f` that releases something, and in a
  -- debug build `expect!` on its result; `args` are the pieces of the message.
  unfoldable pub release : (SyscallError → List Bytes) → List Bytes → (W → ℤ × W) → Sys W (Unit {0})
  release debug args f = call f >>= λ ret.
      if sys.debug_assertions
      then (expect_macro debug (to_result sys.debug_assertions ret) args >> pure tt)
      else pure tt
