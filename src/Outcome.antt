-- ===== src/Outcome.antt =====
-- What a call of the library can do, and the state monad of such calls. A Rust function that
-- returns `Result<T, SyscallError>` ends in `ok` or `err`; one that returns a plain `T` never
-- ends in `err`. The other ends are those at which control does not come back to the caller.
use avfork.Base.{◌≡◌, ap, ℕ, Option, none, some}
use avfork.Base.Int.{ℤ}

-- error.rs, `struct SyscallError`.
pub record SyscallError : Type 0 where
  pub errno : ℕ

-- `exited`: the process has called `exit` with a status. `replaced`: an exec has succeeded.
-- `panicked`: a Rust panic. `undefined`: undefined behaviour, as behind `unreachable_unchecked`.
-- `out_of_fuel`: a loop that still runs when the fuel of the model is used up.
pub data Outcome {ℓ} (A : Type ℓ) : Type ℓ where
  ok : A → Outcome A
  err : SyscallError → Outcome A
  exited : ℤ → Outcome A
  replaced : Outcome A
  panicked : Outcome A
  undefined : Outcome A
  out_of_fuel : Outcome A

-- `?`, and sequencing: every end but `ok` is passed on.
abbrev pub and_then {ℓ κ} : {A : Type ℓ} {B : Type κ} → Outcome A → (A → Outcome B) → Outcome B
and_then (ok a) f = f a
and_then (err e) f = err e
and_then (exited c) f = exited c
and_then replaced f = replaced
and_then panicked f = panicked
and_then undefined f = undefined
and_then out_of_fuel f = out_of_fuel

-- A call over the state of the world outside of the program.
abbrev pub Sys : Type 0 → Type 0 → Type 0
Sys W A = W → Outcome A × W

-- What follows a call that has ended.
abbrev pub continue_with : {W A B : Type 0} → Outcome A → (A → Sys W B) → W → Outcome B × W
continue_with (ok a) f w = f a w
continue_with (err e) f w = (err e, w)
continue_with (exited c) f w = (exited c, w)
continue_with replaced f w = (replaced, w)
continue_with panicked f w = (panicked, w)
continue_with undefined f w = (undefined, w)
continue_with out_of_fuel f w = (out_of_fuel, w)

infixl 5 ◌>>=◌ ◌>>◌
abbrev pub ◌>>=◌ : {W A B : Type 0} → Sys W A → (A → Sys W B) → Sys W B
◌>>=◌ m f w = let (o, w') = m w in continue_with o f w'

abbrev pub ◌>>◌ : {W A B : Type 0} → Sys W A → Sys W B → Sys W B
m >> k = m >>= λ _. k

abbrev pub pure : {W A : Type 0} → A → Sys W A
pure a w = (ok a, w)

abbrev pub lift : {W A : Type 0} → Outcome A → Sys W A
lift o w = (o, w)

-- `result as i64`, of an int that a C function has returned.
abbrev pub call : {W : Type 0} → (W → ℤ × W) → Sys W ℤ
call f w = let (r, w') = f w in (ok r, w')

-- What follows the end of a scope that owns a value: the value is dropped, also where the scope is
-- left by `?` or by a panic, which unwinds.
abbrev pub at_scope_end : {W A : Type 0} → Sys W (Unit {0}) → Outcome A → Sys W A
at_scope_end drop (ok a) = drop >> pure a
at_scope_end drop (err e) = drop >> lift (err e)
at_scope_end drop (exited c) = lift (exited c)
at_scope_end drop replaced = lift replaced
at_scope_end drop panicked = drop >> lift panicked
at_scope_end drop undefined = lift undefined
at_scope_end drop out_of_fuel = lift out_of_fuel

abbrev pub dropping : {W A : Type 0} → Sys W (Unit {0}) → Sys W A → Sys W A
dropping drop body w = let (o, w') = body w in at_scope_end drop o w'

-- The same for a value that is handed on where the scope is not left: it is dropped by unwinding
-- only.
abbrev pub at_unwinding : {W A : Type 0} → Sys W (Unit {0}) → Outcome A → Sys W A
at_unwinding drop (ok a) = pure a
at_unwinding drop (err e) = drop >> lift (err e)
at_unwinding drop (exited c) = lift (exited c)
at_unwinding drop replaced = lift replaced
at_unwinding drop panicked = drop >> lift panicked
at_unwinding drop undefined = lift undefined
at_unwinding drop out_of_fuel = lift out_of_fuel

abbrev pub dropping_on_panic : {W A : Type 0} → Sys W (Unit {0}) → Sys W A → Sys W A
dropping_on_panic drop body w = let (o, w') = body w in at_unwinding drop o w'

-- A call that leaves the caller's variables.
abbrev pub on_world : {V W A : Type 0} → Sys W A → Sys (V × W) A
on_world m (v, w) = let (o, w') = m w in (o, (v, w'))

-- `assume_init`, of memory that the callee was to fill; `none` is memory never written.
abbrev pub assume_init {ℓ} : {A : Type ℓ} → Option A → Outcome A
assume_init none = undefined
assume_init (some a) = ok a

-- What follows two ends that are equal.
pub bind_eq :
    {W A B : Type 0} (p q : Outcome A × W) (f : A → Sys W B)
    → p ≡ q
    → continue_with p.0 f p.1 ≡ continue_with q.0 f q.1
bind_eq p q f e = ap (λ r. continue_with r.0 f r.1) e
