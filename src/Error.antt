-- ===== src/Error.antt =====
-- src/error.rs: the result convention of the system calls, and the table of messages.
pub mod Codes
pub mod Utf8
pub mod Messages
pub mod Display
use avfork.Base.{
  ℕ, zero, suc, ◌^◌, Bool, ◌&&◌, List, [], ◌∷◌, Option, none, some, codes, get_elem?, leb, ◌==◌,
  if◌then◌else◌,
}
use avfork.Base.Int.{ℤ, pos, negsuc, to_u32, to_i32}
use avfork.Outcome.{SyscallError, Outcome, ok, err, panicked, Sys, pure, lift, ◌>>=◌}
use avfork.Kernel.{Bytes}
use Utf8.{is_utf8}

-- `toResult`. The negation of i64::MIN overflows: with overflow checks it panics, without them it
-- wraps, and the cast to u32 gives 0, as the residue of 2 ^ 63 does.
unfoldable pub to_result : Bool → ℤ → Outcome ℕ
to_result checks (pos n) = ok n
to_result checks (negsuc n) =
    if checks && (suc n == 2 ^ 63) then panicked else err (record { errno = to_u32 (pos (suc n)) })

-- `SyscallError::new` and `get_errno`.
unfoldable pub new_error : ℕ → SyscallError
new_error errno = record { errno = errno }

unfoldable pub get_errno : SyscallError → ℤ
get_errno e = to_i32 e.errno

-- The strings that the C library keeps, `errno_msgs_sz` of them.
pub record ErrnoTable : Type 0 where
  pub errno_msgs_sz : ℕ
  pub cstr_at : ℕ → Bytes

-- The static `ERRNO_MSGS`.
abbrev pub OnceCell : Type 0
OnceCell = Option (List Bytes)

-- The loop over `strs`: `i` is the next index, and the first argument counts the entries left.
unfoldable pub fill_msgs : ErrnoTable → ℕ → ℕ → Outcome (List Bytes)
unfolding is_utf8
fill_msgs t zero i = ok []
fill_msgs t (suc left) i =
    let rest = fill_msgs t left (suc i) in
    if is_utf8 (t.cstr_at i)
    then elim rest [ ok msgs ↦ ok (t.cstr_at i ∷ msgs) | failed ↦ failed ]
    else panicked

unfoldable pub get_errno_msgs : ErrnoTable → Sys OnceCell (List Bytes)
unfolding fill_msgs
get_errno_msgs t (some msgs) = (ok msgs, some msgs)
get_errno_msgs t none = elim (fill_msgs t t.errno_msgs_sz 0) [
  | ok msgs ↦ (ok msgs, some msgs)
  | failed ↦ (failed, none)
]

-- `msgs[errno as usize - 1]`: the subtraction or the index check panics.
unfoldable pub index_msgs : ℕ → List Bytes → Outcome Bytes
index_msgs zero msgs = panicked
index_msgs (suc i) msgs = elim (get_elem? msgs i) [ none ↦ panicked | some msg ↦ ok msg ]

unfoldable pub get_msg : ErrnoTable → SyscallError → Sys OnceCell Bytes
unfolding get_errno_msgs index_msgs
get_msg t e =
    if leb e.errno t.errno_msgs_sz
    then (get_errno_msgs t >>= λ msgs. lift (index_msgs e.errno msgs))
    else pure (codes "Unknown errno code")
