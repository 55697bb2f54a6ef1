-- ===== src/Error/Messages.antt =====
-- `get_errno_msgs` and `SyscallError::get_msg` of src/error.rs.
use avfork.Base.{
  ℕ, zero, suc, ◌+◌, ◌≤◌, ◌<◌, ◌≡◌, refl, sym, ◌∙◌, ap, ◌⊎◌, inl, inr, true, false, List, [], ◌∷◌,
  none, some, arith, codes, get_elem?, leb, leb→le, Bool-cases, if◌then◌else◌,
}
use avfork.Outcome.{SyscallError, Outcome, ok, panicked}
use avfork.Kernel.{Bytes}
use avfork.Error.{ErrnoTable, OnceCell, fill_msgs, get_errno_msgs, index_msgs, get_msg}
use avfork.Error.Utf8.{is_utf8}

-- Every string of the C library can be used in Rust.
abbrev pub IsReadable : ErrnoTable → Type 0
IsReadable t = (i : ℕ) → i < t.errno_msgs_sz → is_utf8 (t.cstr_at i) ≡ true

-- The strings of the C library from index `i` on.
abbrev pub entries : ErrnoTable → ℕ → ℕ → List Bytes
entries t zero i = []
entries t (suc left) i = t.cstr_at i ∷ entries t left (suc i)

-- The static is empty, or holds the strings.
abbrev pub IsCell : ErrnoTable → OnceCell → Type 0
IsCell t cell = (cell ≡ none) ⊎ (cell ≡ some (entries t t.errno_msgs_sz 0))

fill_msgs-entries :
    (t : ErrnoTable)
    → IsReadable t
    → (left i : ℕ) → i + left ≤ t.errno_msgs_sz
    → fill_msgs t left i ≡ ok (entries t left i)
unfolding fill_msgs
fill_msgs-entries t h zero i b = refl
fill_msgs-entries t h (suc left) i b =
    rw (h i (omega arith), fill_msgs-entries t h left (suc i) (omega arith))

-- Whatever valid content the static has, `get_errno_msgs` returns the strings of the C library in
-- order, if they are UTF-8, and leaves them in the static.
pub get_errno_msgs-entries :
    (t : ErrnoTable) (cell : OnceCell)
    → IsReadable t
    → IsCell t cell
    → get_errno_msgs t cell ≡ (ok (entries t t.errno_msgs_sz 0), some (entries t t.errno_msgs_sz 0))
unfolding get_errno_msgs
get_errno_msgs-entries t cell h (inl e) =
    rw (e, get_errno_msgs, fill_msgs-entries t h t.errno_msgs_sz 0 (omega arith))
get_errno_msgs-entries t cell h (inr e) = rw e

get_elem?-entries :
    (t : ErrnoTable) (left i j : ℕ)
    → j < left
    → get_elem? (entries t left i) j ≡ some (t.cstr_at (i + j))
get_elem?-entries t zero i j h = elim h [ ]
get_elem?-entries t (suc left) i zero h = ap (λ k. some (t.cstr_at k)) (omega arith)
get_elem?-entries t (suc left) i (suc j) h =
    get_elem?-entries t left (suc i) j (omega arith) ∙ ap (λ k. some (t.cstr_at k)) (omega arith)

-- The message that an error number stands for; the number 0 has none.
abbrev pub message : ErrnoTable → ℕ → Outcome Bytes
message t zero = panicked
message t (suc n) =
    if leb (suc n) t.errno_msgs_sz then ok (t.cstr_at n) else ok (codes "Unknown errno code")

index_msgs-message :
    (t : ErrnoTable) (n : ℕ)
    → leb n t.errno_msgs_sz ≡ true
    → index_msgs n (entries t t.errno_msgs_sz 0) ≡ message t n
unfolding index_msgs
index_msgs-message t zero h = refl
index_msgs-message t (suc n) h =
    rw
      (
        h,
        index_msgs,
        get_elem?-entries t t.errno_msgs_sz 0 n (omega (arith, leb→le (suc n) t.errno_msgs_sz h)),
      )
      (ap (λ k. ok (t.cstr_at k)) (omega arith))

message_unknown :
    (t : ErrnoTable) (n : ℕ)
    → leb n t.errno_msgs_sz ≡ false
    → message t n ≡ ok (codes "Unknown errno code")
message_unknown t zero h = ground arith
message_unknown t (suc n) h = rw h

-- `get_msg` answers the entry errno - 1 of the table for 1 ≤ errno ≤ errno_msgs_sz and a fixed
-- text above that; for errno = 0 it panics. The static stays valid. The table is to be UTF-8.
pub get_msg-message :
    (t : ErrnoTable) (e : SyscallError) (cell : OnceCell)
    → IsReadable t
    → IsCell t cell
    → ((get_msg t e cell).0 ≡ message t e.errno) × IsCell t (get_msg t e cell).1
unfolding get_msg
get_msg-message t e cell h c = elim (Bool-cases (leb e.errno t.errno_msgs_sz)) [
  | inl known ↦
      rw (known, get_errno_msgs-entries t cell h c) (index_msgs-message t e.errno known, inr refl)
  | inr unknown ↦ rw unknown (sym (message_unknown t e.errno unknown), c)
]
