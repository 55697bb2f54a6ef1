-- ===== src/Syscall/Io.antt =====
-- `Fd::read`, `Fd::write` and `exit` of src/syscall.rs, and the loops of the standard library's
-- `std::io::Write` that src/utility.rs runs over `Fd::write`.
pub mod WriteAll
use avfork.Base.{
  ℕ, zero, suc, List, [], ◌∷◌, Option, none, some, length, drop, leb, ◌⊎◌, inl, inr, if◌then◌else◌,
}
use avfork.Base.Int.{ℤ, pos, eqb_ℤ}
use avfork.Outcome.{
  SyscallError, Outcome, ok, err, exited, replaced, panicked, undefined, out_of_fuel, Sys, pure,
  lift, ◌>>=◌,
}
use avfork.Kernel.{Kernel, Bytes}
use avfork.Error.{to_result, get_errno}
use avfork.Syscall.Raw.{syscall}

-- The errors of std::io that `write_all` can meet.
pub data IoError : Type 0 where
  os : ℤ → IoError
  write_zero : IoError

-- `From<SyscallError> for std::io::Error`.
unfoldable pub io_error : SyscallError → IoError
io_error e = os (get_errno e)

-- `?` from a `SyscallError` to an error of std::io; the result is a value here.
unfoldable pub io_result : {A : Type 0} → Outcome A → Outcome (IoError ⊎ A)
io_result (ok a) = ok (inr a)
io_result (err e) = ok (inl (io_error e))
io_result (exited c) = exited c
io_result replaced = replaced
io_result panicked = panicked
io_result undefined = undefined
io_result out_of_fuel = out_of_fuel

module _ {W : Type 0} (sys : Kernel W) where
  -- `Fd::read` into a buffer of `buf_len` bytes: the count, and what the kernel has stored.
  unfoldable pub read : ℤ → ℕ → Sys W (ℕ × Bytes)
  read fd buf_len w =
      let (r, stored, w') = sys.psys_read fd buf_len w in
      (lift (to_result sys.debug_assertions r) >>= λ n. pure (n, stored)) w'

  -- `Read for Fd`: the error is one of std::io.
  unfoldable pub read_io : ℤ → ℕ → Sys W (IoError ⊎ (ℕ × Bytes))
  unfolding read
  read_io fd buf_len w = let (o, w') = read fd buf_len w in (io_result o, w')

  -- `Fd::write`
  unfoldable pub write : ℤ → Bytes → Sys W ℕ
  write fd buffer = syscall sys (sys.psys_write fd buffer)

  -- What `write_all` does with the result of one `write`; `again` goes on with the rest.
  unfoldable pub after_write :
      Bytes → (Bytes → Sys W (Option IoError)) → Outcome ℕ → Sys W (Option IoError)
  after_write buf again (ok zero) = pure (some write_zero)
  after_write buf again (ok (suc n)) =
      if leb (suc n) (length buf) then again (drop (suc n) buf) else lift panicked
  after_write buf again (err e) =
      if eqb_ℤ (get_errno e) (pos sys.eintr) then again buf else pure (some (io_error e))
  after_write buf again (exited c) = lift (exited c)
  after_write buf again replaced = lift replaced
  after_write buf again panicked = lift panicked
  after_write buf again undefined = lift undefined
  after_write buf again out_of_fuel = lift out_of_fuel

  -- `Write::write_all` for `Fd`; `none` is `Ok(())`.
  unfoldable pub write_all : ℕ → ℤ → Bytes → Sys W (Option IoError)
  write_all fuel fd [] w = (ok none, w)
  write_all zero fd (b ∷ buf) w = (out_of_fuel, w)
  write_all (suc fuel) fd (b ∷ buf) w =
      let (o, w') = write fd (b ∷ buf) w in after_write (b ∷ buf) (write_all fuel fd) o w'

  -- `Write::write_fmt`: the pieces of the text one by one, until one fails.
  unfoldable pub write_fmt : ℕ → ℤ → List Bytes → Sys W (Option IoError)
  write_fmt fuel fd [] = pure none
  write_fmt fuel fd (piece ∷ pieces) = write_all fuel fd piece >>= λ o. elim o [
    | none ↦ write_fmt fuel fd pieces
    | some e ↦ pure (some e)
  ]

  -- `exit`
  unfoldable pub exit : {A : Type 0} → ℤ → Sys W A
  exit status w = (exited status, sys.psys_exit status w)
