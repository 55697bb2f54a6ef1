-- ===== src/Utility/Fatal.antt =====
-- The fatal errors of src/utility.rs end the process, whatever comes of the message.
use avfork.Base.{
  ℕ, ◌+◌, ◌≤◌, ◌<◌, ◌≡◌, refl, sym, ◌∙◌, ap, append_assoc, append-nil, List, [], ◌∷◌, ◌++◌, Option,
  none, some, arith, length, joined, All, take, drop, length-drop, take-append-drop,
}
use avfork.Base.Int.{ℤ, pos}
use avfork.Outcome.{Outcome, ok, exited, continue_with, pure}
use avfork.Kernel.{Kernel, Bytes}
use avfork.Syscall.Io.{IoError, write_all, write_fmt, exit}
use avfork.Syscall.Io.WriteAll.{WriteLaws, Failed, Written, write_all-Written}
use avfork.Utility.{fatal_text, errx_impl}

module _ {W : Type 0} (sys : Kernel W) (stream : W → Bytes) (interruptions : W → ℕ)
    (laws : WriteLaws sys (pos 2) stream interruptions) where
  -- The end of a `write_fmt` of these pieces that began at `w`: all of it is on the stream; or a part
  -- of it is, and a write of bytes that are next has failed with this error.
  abbrev pub Printed : W → List Bytes → Outcome (Option IoError) × W → Type 0
  Printed w pieces (ok none, w') = stream w' ≡ stream w ++ joined pieces
  Printed w pieces (ok (some e), w') =
      (done : Bytes) × (next : Bytes) × (later : Bytes) × (joined pieces ≡ done ++ (next ++ later))
      × (0 < length next)
      × (stream w' ≡ stream w ++ done)
      × Failed sys (pos 2) stream interruptions laws next e w'
  Printed w pieces _ = ⊥

  Printed-prepend :
      (w v : W) (p : Bytes) (ps : List Bytes) (r : Outcome (Option IoError) × W)
      → stream v ≡ stream w ++ p
      → Printed v ps r
      → Printed w (p ∷ ps) r
  Printed-prepend w v p ps (ok none, u) s d =
      d ∙ ap (λ l. l ++ joined ps) s ∙ append_assoc (stream w) p (joined ps)
  Printed-prepend w v p ps (ok (some e), u) s (done, rest, later, split, some_left, t, f) = (
    p ++ done,
    rest,
    later,
    ap (λ l. p ++ l) split ∙ sym (append_assoc p done (rest ++ later)),
    some_left,
    t ∙ ap (λ l. l ++ done) s ∙ append_assoc (stream w) p done,
    f,
  )
  Printed-prepend w v p ps (_, u) s d = elim d [ ]

  write_fmt-Printed :
      (fuel budget : ℕ) (pieces : List Bytes) (w : W)
      → All (λ p. length p + budget < fuel) pieces
      → interruptions w ≤ budget
      → Printed w pieces (write_fmt sys fuel (pos 2) pieces w)
  unfolding write_fmt
  write_fmt-Printed fuel budget [] w h q = sym (append-nil (stream w))
  write_fmt-Printed fuel budget (p ∷ ps) w (long, rest) q =
      next (write_all sys fuel (pos 2) p w)
        (write_all-Written sys (pos 2) stream interruptions laws fuel p w (omega arith))
        (λ v k. write_fmt-Printed fuel budget ps v rest k)
    where
      next :
          (r : Outcome (Option IoError) × W)
          → Written sys (pos 2) stream interruptions laws w p r
          → ((v : W) → interruptions v ≤ budget → Printed v ps (write_fmt sys fuel (pos 2) ps v))
          → Printed w (p ∷ ps) (
              continue_with r.0
                (λ o. elim o [ none ↦ write_fmt sys fuel (pos 2) ps | some e ↦ pure (some e) ])
                r.1)
      next (ok none, v) (s, u) ih = Printed-prepend w v p ps _ s (ih v (omega arith))
      next (ok (some e), v) (k, short, s, f) ih = (
        take k p,
        drop k p,
        joined ps,
        ap (λ l. l ++ joined ps) (sym (take-append-drop k p))
            ∙ append_assoc (take k p) (drop k p) (joined ps),
        omega (arith, length-drop k p),
        s,
        f,
      )
      next (_, v) d ih = elim d [ ]

  -- A `write_fmt` of the text, then `exit`.
  abbrev pub Exits : {A : Type 0} → ℤ → List Bytes → W → Outcome A × W → Type 0
  Exits status text w r =
      (v : W) × (o : Option IoError) × (r ≡ (exited status, sys.psys_exit status v))
      × Printed w text (ok o, v)

  exit_after :
      {A : Type 0} (status : ℤ) (text : List Bytes) (w : W) (r : Outcome (Option IoError) × W)
      → Printed w text r
      → Exits {A = A} status text w (continue_with r.0 (λ _. exit sys status) r.1)
  unfolding exit
  exit_after status text w (ok o, v) d = (v, o, refl, d)
  exit_after status text w (_, v) d = elim d [ ]

  -- With fuel for the bytes of each piece and the interruptions, and `WriteLaws` for STDERR,
  -- `errx_impl` ends the process with the given status, whether the message could be written or
  -- not. Before that, STDERR has got "Fatal Error: ", the message and a newline; or it has got a
  -- part at the front of that, and a write(2) of bytes that are next has failed.
  pub errx_impl-Exits :
      {A : Type 0} (fuel : ℕ) (status : ℤ) (args : List Bytes) (w : W)
      → All (λ p. length p + interruptions w < fuel) (fatal_text args)
      → Exits {A = A} status (fatal_text args) w (errx_impl sys fuel status args w)
  unfolding errx_impl
  errx_impl-Exits fuel status args w h =
      exit_after status (fatal_text args) w (write_fmt sys fuel (pos 2) (fatal_text args) w)
        (write_fmt-Printed fuel (interruptions w) (fatal_text args) w h (omega arith))
