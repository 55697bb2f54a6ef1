-- ===== src/Syscall/Sched/Text.antt =====
-- `Debug for SchedPolicy` of src/syscall.rs: a policy can be read back from its text.
use avfork.Base.{
  ℕ, suc, ◌≡◌, refl, ap, List, [], ◌∷◌, ◌++◌, Option, none, some, codes, drop, joined, get_elem?,
  arith, ◌==◌, if◌then◌else◌,
}
use avfork.Base.Decimal.{signed_decimal, read_number, read_number-decimal}
use avfork.Base.Int.{ℤ, pos, negsuc, neg}
use avfork.Kernel.{Bytes}
use avfork.Syscall.Sched.{SchedPolicy, sched_other, sched_batch, sched_idle, sched_fifo, sched_rr}

-- The pieces that are written; a `sched_param` is its priority.
unfoldable pub policy_text : SchedPolicy → List Bytes
policy_text sched_other = codes "SCHED_OTHER" ∷ []
policy_text sched_batch = codes "SCHED_BATCH" ∷ []
policy_text sched_idle = codes "SCHED_IDLE" ∷ []
policy_text (sched_fifo priority) =
    codes "SCHED_FIFO(" ∷ (signed_decimal priority ++ codes ")" ∷ [])
policy_text (sched_rr priority) = codes "SCHED_RR(" ∷ (signed_decimal priority ++ codes ")" ∷ [])

-- A reader of such a text: it tells the policies apart by their seventh letter.
abbrev pub with_sign : ℕ → Bytes → ℤ
with_sign n [] = pos n
with_sign n (c ∷ s) = if c == 45 then neg (read_number 0 s).0 else pos n

abbrev pub read_signed : Bytes → ℤ
read_signed s = let (n, rest) = read_number 0 s in with_sign n rest

abbrev pub read_policy : Bytes → Option SchedPolicy
read_policy s = elim (get_elem? s 6) [
  | none ↦ none
  | some c ↦
      if c == 79
      then some sched_other
      else if c == 66
      then some sched_batch
      else if c == 73
      then some sched_idle
      else if c == 70
      then some (sched_fifo (read_signed (drop 11 s)))
      else if c == 82
      then some (sched_rr (read_signed (drop 9 s)))
      else none
]

read_signed-signed_decimal : (z : ℤ) → read_signed (joined (signed_decimal z ++ codes ")" ∷ [])) ≡ z
unfolding signed_decimal
read_signed-signed_decimal (pos n) = rw (read_number-decimal n (codes ")")) refl
read_signed-signed_decimal (negsuc n) = rw (read_number-decimal (suc n) (codes ")")) (ground arith)

-- Different policies have different texts: each of the five, with its priority, negative ones
-- included, is read back from what Debug writes for it.
pub read_policy-policy_text : (p : SchedPolicy) → read_policy (joined (policy_text p)) ≡ some p
unfolding policy_text
read_policy-policy_text sched_other = refl
read_policy-policy_text sched_batch = refl
read_policy-policy_text sched_idle = refl
read_policy-policy_text (sched_fifo z) =
    ap (λ x. some (sched_fifo x)) (read_signed-signed_decimal z)
read_policy-policy_text (sched_rr z) = ap (λ x. some (sched_rr x)) (read_signed-signed_decimal z)
