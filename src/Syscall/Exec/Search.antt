-- ===== src/Syscall/Exec/Search.antt =====
-- The search of `execvel` and `fexecvel` (src/syscall.rs) against its rules: an error that means
-- "not here" goes on to the next path, any other end of an attempt is the end of the search.
use avfork.Base.{◌≡◌, refl, ap, Bool, true, false, ◌||◌, List, [], ◌∷◌, ◌++◌, if◌then◌else◌}
use avfork.Outcome.{SyscallError, Outcome, ok, Sys, pure, continue_with, ◌>>=◌}
use avfork.Kernel.{Kernel}
use avfork.Error.{new_error}
use avfork.Syscall.Exec.Verdicts.{IsDenied, IsNotHere, IsOther, verdict-eq_Means}
use avfork.Syscall.Exec.{Verdict, denied, missing, fatal, verdict, search_failed}

module _ {W P : Type 0} (sys : Kernel W) (attempt : P → Sys W SyscallError) where
  -- All of these paths were tried, from the first world to the second, and each attempt failed
  -- with an error that lets the search go on. The flag says whether one of them was EACCES.
  pub data Skips : List P → W → Bool → W → Type 0 where
    none_tried : {w : W} → Skips [] w false w
    was_denied :
        {p : P} {ps : List P} {w w' w'' : W} {b : Bool} {e : SyscallError}
        → attempt p w ≡ (ok e, w')
        → IsDenied sys e
        → Skips ps w' b w''
        → Skips (p ∷ ps) w true w''
    was_missing :
        {p : P} {ps : List P} {w w' w'' : W} {b : Bool} {e : SyscallError}
        → attempt p w ≡ (ok e, w')
        → IsNotHere sys e
        → Skips ps w' b w''
        → Skips (p ∷ ps) w b w''

  -- An attempt ends so that the search is over.
  abbrev pub IsFinal : Outcome SyscallError × W → Type 0
  IsFinal (ok e, w) = IsOther sys e
  IsFinal _ = Unit

  -- The ways in which a search can end; `got` says whether there was an EACCES before it.
  pub data Searched (got : Bool) (paths : List P) (w : W) (end : Outcome SyscallError × W)
      : Type 0 where
    exhausted :
        (b : Bool) (w' : W)
        → Skips paths w b w'
        → end ≡ (ok (record { errno = if got || b then sys.eacces else sys.enoent }), w')
        → Searched got paths w end
    stopped :
        (before after : List P) (p : P) (b : Bool) (w' : W)
        → paths ≡ before ++ p ∷ after
        → Skips before w b w'
        → attempt p w' ≡ end
        → IsFinal end
        → Searched got paths w end

  -- The loop that both functions run, over any kind of attempt.
  unfoldable pub search : List P → Bool → Sys W SyscallError
  search [] got_eaccess = pure (search_failed sys got_eaccess)
  search (p ∷ ps) got_eaccess = attempt p >>= λ e. elim (verdict sys e) [
    | denied ↦ search ps true
    | missing ↦ search ps got_eaccess
    | fatal ↦ pure e
  ]

  or_true : (b : Bool) → (b || true) ≡ true
  or_true true = refl
  or_true false = refl

  or_false : (b : Bool) → (b || false) ≡ b
  or_false true = refl
  or_false false = refl

  -- A search that has gone past its first path.
  Searched-denied :
      {p : P} {ps : List P} {w w' : W} {e : SyscallError} {end : Outcome SyscallError × W}
      {got : Bool}
      → attempt p w ≡ (ok e, w')
      → IsDenied sys e
      → Searched true ps w' end
      → Searched got (p ∷ ps) w end
  Searched-denied {got = got} a v (exhausted b w'' sk eq) =
      exhausted true w'' (was_denied a v sk) (rw (or_true got) eq)
  Searched-denied {p} a v (stopped before after q b w'' eq sk at fin) =
      stopped (p ∷ before) after q true w'' (ap (λ l. p ∷ l) eq) (was_denied a v sk) at fin

  Searched-missing :
      {p : P} {ps : List P} {w w' : W} {e : SyscallError} {end : Outcome SyscallError × W}
      {got : Bool}
      → attempt p w ≡ (ok e, w')
      → IsNotHere sys e
      → Searched got ps w' end
      → Searched got (p ∷ ps) w end
  Searched-missing a v (exhausted b w'' sk eq) = exhausted b w'' (was_missing a v sk) eq
  Searched-missing {p} a v (stopped before after q b w'' eq sk at fin) =
      stopped (p ∷ before) after q b w'' (ap (λ l. p ∷ l) eq) (was_missing a v sk) at fin

  -- The rest of the search, after its first attempt.
  abbrev after_error : List P → Bool → SyscallError → Verdict → Sys W SyscallError
  after_error ps got e denied = search ps true
  after_error ps got e missing = search ps got
  after_error ps got e fatal = pure e

  after_error-Searched :
      (p : P) (ps : List P) (got : Bool) (w w' : W) (e : SyscallError)
      → ((g : Bool) (v : W) → Searched g ps v (search ps g v))
      → attempt p w ≡ (ok e, w')
      → (v : Verdict) → verdict sys e ≡ v
      → Searched got (p ∷ ps) w (after_error ps got e v w')
  after_error-Searched p ps got w w' e ih a denied h =
      Searched-denied a (verdict-eq_Means sys e denied h) (ih true w')
  after_error-Searched p ps got w w' e ih a missing h =
      Searched-missing a (verdict-eq_Means sys e missing h) (ih got w')
  after_error-Searched p ps got w w' e ih a fatal h =
      stopped [] ps p false w refl none_tried a (verdict-eq_Means sys e fatal h)

  pub search-Searched : (ps : List P) (got : Bool) (w : W) → Searched got ps w (search ps got w)
  unfolding search search_failed new_error
  search-Searched [] got w = exhausted false w none_tried (rw (or_false got))
  search-Searched (p ∷ ps) got w = first (attempt p w) refl (λ g v. search-Searched ps g v)
    where
      first :
          (r : Outcome SyscallError × W)
          → attempt p w ≡ r
          → ((g : Bool) (v : W) → Searched g ps v (search ps g v))
          → Searched got
              (p ∷ ps)
              w
              (continue_with r.0 (λ e. after_error ps got e (verdict sys e)) r.1)
      first (ok e, v) a ih = after_error-Searched p ps got w v e ih a (verdict sys e) refl
      first (Outcome.err e, v) a ih = stopped [] ps p false w refl none_tried a tt
      first (_, v) a ih = stopped [] ps p false w refl none_tried a tt
