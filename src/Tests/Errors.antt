-- ===== src/Tests/Errors.antt =====
-- The theorems on src/error.rs at concrete inputs.
use avfork.Base.{ℕ, ◌≡◌, refl, ◌∷◌, [], inl, none, codes}
use avfork.Outcome.{SyscallError}
use avfork.Error.{ErrnoTable, get_msg}
use avfork.Error.Utf8.{is_utf8, utf8_from}
use avfork.Error.Display.{error_text, Shows, error_text-Shows}
use avfork.Error.Messages.{IsReadable, IsCell, message, get_msg-message}

-- Two messages, one of them beyond ASCII.
abbrev two_texts : ErrnoTable
two_texts = record {
  errno_msgs_sz = 2;
  cstr_at = λ i. elim i [ ℕ.zero ↦ codes "Operation not permitted" | ℕ.suc _ ↦ 0xc3 ∷ 0xa9 ∷ [] ];
}

two_texts-IsReadable : IsReadable two_texts
unfolding is_utf8 utf8_from
two_texts-IsReadable ℕ.zero h = refl
two_texts-IsReadable (ℕ.suc i) h = refl

abbrev second : SyscallError
second = record { errno = 2 }

get_msg-message_example :
    ((get_msg two_texts second none).0 ≡ message two_texts 2)
    × IsCell two_texts (get_msg two_texts second none).1
get_msg-message_example = get_msg-message two_texts second none two_texts-IsReadable (inl refl)

error_text-Shows_example :
    Shows two_texts second (error_text two_texts second none).0
    × IsCell two_texts (error_text two_texts second none).1
error_text-Shows_example = error_text-Shows two_texts second none two_texts-IsReadable (inl refl)
