-- ===== src/Error/Display.antt =====
-- `Display for SyscallError` of src/error.rs, which is its `Debug` too: an error can be read back
-- from its text.
use avfork.Base.{
  ℕ, zero, suc, ◌≡◌, refl, sym, ap, ◌∙◌, ◌⊎◌, inl, inr, leb, Bool-cases, append-nil, List, [], ◌∷◌,
  ◌++◌, codes, drop, joined,
}
use avfork.Base.Decimal.{decimal, read_number, read_number-decimal}
use avfork.Outcome.{SyscallError, Outcome, ok, panicked, Sys, pure, continue_with, ◌>>=◌}
use avfork.Kernel.{Bytes}
use avfork.Error.{ErrnoTable, OnceCell, get_msg}
use avfork.Error.Messages.{IsReadable, IsCell, message, get_msg-message}

-- `write!(f, "Errno {}: {}", self.errno, self.get_msg())`: the pieces that are written.
unfoldable pub error_text : ErrnoTable → SyscallError → Sys OnceCell (List Bytes)
error_text t e =
    get_msg t e >>= λ msg. pure (codes "Errno " ∷ decimal e.errno ∷ codes ": " ∷ msg ∷ [])

-- The reader of such a text: the number, and the message.
abbrev pub read_error : Bytes → ℕ × Bytes
read_error s = let (n, rest) = read_number 0 (drop 6 s) in (n, drop 2 rest)

-- The end of a print. The number and the message of the table can be read from the text; where
-- there is no message, for the number 0, it is a panic.
abbrev pub Shows : ErrnoTable → SyscallError → Outcome (List Bytes) → Type 0
Shows t e (ok text) =
    (message t e.errno ≡ ok (read_error (joined text)).1) × ((read_error (joined text)).0 ≡ e.errno)
Shows t e panicked = e.errno ≡ 0
Shows t e _ = ⊥

read_error-pieces :
    (n : ℕ) (msg : Bytes)
    → read_error (joined (codes "Errno " ∷ decimal n ∷ codes ": " ∷ msg ∷ [])) ≡ (n, msg)
read_error-pieces n msg =
    rw (read_number-decimal n (codes ": " ++ (msg ++ [])), append-nil msg) refl

message-cases :
    (t : ErrnoTable) (n : ℕ)
    → ((n ≡ 0) × (message t n ≡ panicked)) ⊎ ((msg : Bytes) × (message t n ≡ ok msg))
message-cases t zero = inl (refl, refl)
message-cases t (suc n) = elim (Bool-cases (leb (suc n) t.errno_msgs_sz)) [
  | inl known ↦ inr (t.cstr_at n, rw known refl)
  | inr unknown ↦ inr (codes "Unknown errno code", rw unknown refl)
]

-- The text of an error, for Display and for Debug, determines the error: the number and the message
-- that the table has for it are read back from the text. Printing panics for the number 0 and for
-- no other. The static stays valid; the table is to be UTF-8.
pub error_text-Shows :
    (t : ErrnoTable) (e : SyscallError) (cell : OnceCell)
    → IsReadable t
    → IsCell t cell
    → Shows t e (error_text t e cell).0 × IsCell t (error_text t e cell).1
unfolding error_text
error_text-Shows t e cell h c =
    let (got, kept) = get_msg-message t e cell h c in
    go (get_msg t e cell) got kept (message-cases t e.errno)
  where
    print : Outcome Bytes × OnceCell → Outcome (List Bytes) × OnceCell
    print (o, cell') =
        continue_with o (λ msg. pure (codes "Errno " ∷ decimal e.errno ∷ codes ": " ∷ msg ∷ []))
          cell'

    go :
        (r : Outcome Bytes × OnceCell)
        → r.0 ≡ message t e.errno
        → IsCell t r.1
        → ((e.errno ≡ 0) × (message t e.errno ≡ panicked))
          ⊎ ((msg : Bytes) × (message t e.errno ≡ ok msg))
        → Shows t e (print r).0 × IsCell t (print r).1
    go (o, cell') got kept (inl (none_for, fails)) = rw (got ∙ fails) (none_for, kept)
    go (o, cell') got kept (inr (msg, found)) = rw (got ∙ found) (
      (
        found ∙ ap (λ p. ok p.1) (sym (read_error-pieces e.errno msg)),
        ap (λ p. p.0) (read_error-pieces e.errno msg),
      ),
      kept,
    )
