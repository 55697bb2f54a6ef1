-- ===== src/Error/Codes.antt =====
-- `toResult` and `SyscallError::get_errno` of src/error.rs: nothing of a result code is lost.
use avfork.Base.{ℕ, suc, ◌^◌, ◌<◌, ◌≡◌, refl, Bool, arith}
use avfork.Base.Int.{ℤ, pos, negsuc, neg, neg_part}
use avfork.Outcome.{Outcome, ok, err}
use avfork.Error.{to_result, new_error, get_errno}

-- The result code that a Rust result stands for: a value, or minus the error's number.
abbrev pub raw_result : Outcome ℕ → ℤ
raw_result (ok n) = pos n
raw_result (err e) = neg e.errno
raw_result _ = pos 0

-- A result code above -2 ^ 32, as every c_int is, can be read back from the Rust result that
-- `toResult` makes of it, with the overflow checks on or off.
pub raw_result-to_result :
    (checks : Bool) (r : ℤ) → neg_part r < 2 ^ 32 → raw_result (to_result checks r) ≡ r
unfolding to_result
raw_result-to_result checks (pos n) h = refl
raw_result-to_result checks (negsuc n) h = ground arith

-- The code -n of an error number n with 0 < n < 2 ^ 31 becomes an error on which `get_errno`
-- answers n; an error built by `SyscallError::new` from n is the same one.
pub get_errno-to_result :
    (checks : Bool) (n : ℕ)
    → 0 < n
    → n < 2 ^ 31
    → (to_result checks (neg n) ≡ err (new_error n)) × (get_errno (new_error n) ≡ pos n)
unfolding to_result new_error get_errno
get_errno-to_result checks n p h = (ground arith, ground arith)

-- What `to_result` does with the result of a C function that returns an int.
pub to_result_negative :
    (checks : Bool) (n : ℕ)
    → n < 2 ^ 31
    → to_result checks (negsuc n) ≡ err (record { errno = suc n })
unfolding to_result
to_result_negative checks n h = ground arith

pub to_result_nonneg : (checks : Bool) (n : ℕ) → to_result checks (pos n) ≡ ok n
unfolding to_result
to_result_nonneg checks n = refl
