-- ===== src/Build/Steps.antt =====
-- What a build script does to the world outside, as a list of events, and the order of them.
use avfork.Base.{◌≡◌, refl, sym, ap, ◌∙◌, List, ◌++◌, append_assoc, Option, none, some}
use avfork.Base.Int.{ℤ}
use avfork.Outcome.{
  Outcome, ok, err, exited, replaced, panicked, undefined, out_of_fuel, Sys, continue_with,
  on_world,
}
use avfork.Kernel.{Bytes}
use avfork.Build.{ExitStatus, Command}

-- A variable is set, a line printed, a command run, or a file of bindings written.
pub data Event : Type 0 where
  set_env : Bytes → Bytes → Event
  printed : Bytes → Event
  ran : Command → ExitStatus → Event
  wrote : Bytes → Bytes → Event

module _ {W : Type 0} (log : W → List Event) where
  -- Only the first of these events have happened.
  abbrev pub Begun : List Event → List Event → W → Type 0
  Begun base steps w =
      (begun : List Event) × (left : List Event) × (steps ≡ begun ++ left) × (log w ≡ base ++ begun)

  -- All of these events have happened where a call comes back, and the first ones where it panics.
  abbrev pub Happens : {A : Type 0} → List Event → List Event → Outcome A × W → Type 0
  Happens base steps (ok a, w) = log w ≡ base ++ steps
  Happens base steps (panicked, w) = Begun base steps w
  Happens _ _ _ = ⊥

module _ {V W : Type 0} (log : W → List Event) (Kept : V → Type 0) where
  -- Either all of these events have happened, one after the other, and the run returns or, where
  -- `stop` has a status, exits with it; or the first ones have, and it panics.
  abbrev pub Ends : {A : Type 0} → Option ℤ → List Event → List Event → Outcome A × (V × W) → Type 0
  Ends none base steps (ok a, (v, w)) = Kept v × (log w ≡ base ++ steps)
  Ends (some status) base steps (exited c, (v, w)) = (c ≡ status) × (log w ≡ base ++ steps)
  Ends stop base steps (panicked, (v, w)) = Begun log base steps w
  Ends _ base steps _ = ⊥

  pub on_world-Ends :
      {A : Type 0} (base steps : List Event) (m : Sys W A) (v : V) (w : W)
      → Kept v
      → Happens log base steps (m w)
      → Ends none base steps (on_world m (v, w))
  on_world-Ends {A} base steps m v w kept h = happened (m w) h
    where
      happened :
          (r : Outcome A × W) → Happens log base steps r → Ends none base steps (r.0, (v, r.1))
      happened (ok a, w') e = (kept, e)
      happened (panicked, w') e = e
      happened (err e, w') h = elim h [ ]
      happened (exited c, w') h = elim h [ ]
      happened (replaced, w') h = elim h [ ]
      happened (undefined, w') h = elim h [ ]
      happened (out_of_fuel, w') h = elim h [ ]

  pub Ends-more :
      {A : Type 0} (stop : Option ℤ) (base first steps : List Event) (r : Outcome A × (V × W))
      → Ends stop (base ++ first) steps r
      → Ends stop base (first ++ steps) r
  Ends-more none base first steps (ok a, (v, w)) (kept, h) =
      (kept, h ∙ append_assoc base first steps)
  Ends-more (some status) base first steps (exited c, (v, w)) (e, h) =
      (e, h ∙ append_assoc base first steps)
  Ends-more none base first steps (panicked, (v, w)) (begun, left, split, h) = (
    first ++ begun,
    left,
    ap (λ l. first ++ l) split ∙ sym (append_assoc first begun left),
    h ∙ append_assoc base first begun,
  )
  Ends-more (some status) base first steps (panicked, (v, w)) (begun, left, split, h) = (
    first ++ begun,
    left,
    ap (λ l. first ++ l) split ∙ sym (append_assoc first begun left),
    h ∙ append_assoc base first begun,
  )
  Ends-more (some status) base first steps (ok a, (v, w)) h = elim h [ ]
  Ends-more none base first steps (exited c, (v, w)) h = elim h [ ]
  Ends-more none base first steps (err e, (v, w)) h = elim h [ ]
  Ends-more (some status) base first steps (err e, (v, w)) h = elim h [ ]
  Ends-more none base first steps (replaced, (v, w)) h = elim h [ ]
  Ends-more (some status) base first steps (replaced, (v, w)) h = elim h [ ]
  Ends-more none base first steps (undefined, (v, w)) h = elim h [ ]
  Ends-more (some status) base first steps (undefined, (v, w)) h = elim h [ ]
  Ends-more none base first steps (out_of_fuel, (v, w)) h = elim h [ ]
  Ends-more (some status) base first steps (out_of_fuel, (v, w)) h = elim h [ ]

  Begun-more :
      (base first steps : List Event) (w : W)
      → Begun log base first w
      → Begun log base (first ++ steps) w
  Begun-more base first steps w (begun, left, split, h) =
      (begun, left ++ steps, ap (λ l. l ++ steps) split ∙ append_assoc begun left steps, h)

  -- One part of a run after the other.
  pub bind-Ends :
      {A B : Type 0} (stop : Option ℤ) (base first steps : List Event) (r : Outcome A × (V × W))
      (f : A → Sys (V × W) B)
      → Ends none base first r
      → ((a : A) (v : V) (w : W)
          → r.0 ≡ ok a
          → Kept v
          → log w ≡ base ++ first
          → Ends stop (base ++ first) steps (f a (v, w)))
      → Ends stop base (first ++ steps) (continue_with r.0 f r.1)
  bind-Ends stop base first steps (ok a, (v, w)) f (kept, h) next =
      Ends-more stop base first steps (f a (v, w)) (next a v w refl kept h)
  bind-Ends none base first steps (panicked, (v, w)) f h next = Begun-more base first steps w h
  bind-Ends (some status) base first steps (panicked, (v, w)) f h next =
      Begun-more base first steps w h
  bind-Ends stop base first steps (err e, (v, w)) f h next = elim h [ ]
  bind-Ends stop base first steps (exited c, (v, w)) f h next = elim h [ ]
  bind-Ends stop base first steps (replaced, (v, w)) f h next = elim h [ ]
  bind-Ends stop base first steps (undefined, (v, w)) f h next = elim h [ ]
  bind-Ends stop base first steps (out_of_fuel, (v, w)) f h next = elim h [ ]

  -- A part that exits is the end.
  pub exit-Ends :
      {A B : Type 0} (status : ℤ) (base steps : List Event) (r : Outcome A × (V × W))
      (f : A → Sys (V × W) B)
      → Ends (some status) base steps r
      → Ends (some status) base steps (continue_with r.0 f r.1)
  exit-Ends status base steps (exited c, (v, w)) f h = h
  exit-Ends status base steps (panicked, (v, w)) f h = h
  exit-Ends status base steps (ok a, (v, w)) f h = elim h [ ]
  exit-Ends status base steps (err e, (v, w)) f h = elim h [ ]
  exit-Ends status base steps (replaced, (v, w)) f h = elim h [ ]
  exit-Ends status base steps (undefined, (v, w)) f h = elim h [ ]
  exit-Ends status base steps (out_of_fuel, (v, w)) f h = elim h [ ]
