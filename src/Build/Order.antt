-- ===== src/Build/Order.antt =====
-- What build.rs does, in which order, and where it stops.
use avfork.Base.{
  ◌≡◌, refl, sym, ap, subst, ◌∙◌, Bool, true, false, List, [], ◌∷◌, ◌++◌, append-nil, Option, none,
  some, codes, if◌then◌else◌, Bool-cases, inl, inr,
}
use avfork.Base.Int.{ℤ, pos}
use avfork.Outcome.{ok, bind_eq, ◌>>=◌, ◌>>◌, on_world}
use avfork.Kernel.{Bytes}
use avfork.Build.{
  ExitStatus, Command, BuildLib, str_eq, or_panics, Statics, force_out_dir, force_out_path,
  make_command, unused, set_debug, after_make, build_main,
}
use avfork.Build.Steps.{Event, printed, ran, Happens, Ends, Ends-more, bind-Ends, on_world-Ends}
use avfork.Build.Laws.{BuildLaws, Ran, make_steps, last_steps, stop_status, profile_steps}
use avfork.Build.Parts.{Forced, print-Ends, linked-Adds, failed-Ends}

module _ {W : Type 0} (lib : BuildLib W) (log : W → List Event) (text_of : Bytes → Bytes)
    (verdict : ExitStatus) where
  module _ (laws : BuildLaws lib log text_of verdict) (out_dir : Bytes) where
    by_verdict :
        (b : Bool) (P : Option ℤ → List Event → Type 0) (x y : List Event)
        → (b ≡ true → P none x)
        → (b ≡ false → P (some (pos 1)) y)
        → P (if b then none else some (pos 1)) (if b then x else y)
    by_verdict true P x y on off = on refl
    by_verdict false P x y on off = off refl

    after_make-Ends :
        (build_dir : Bytes) (base : List Event) (v : Statics) (w : W)
        → (Forced lib log text_of verdict laws out_dir) v
        → log w ≡ base
        → Ends log
            (Forced lib log text_of verdict laws out_dir)
            (stop_status lib log text_of verdict)
            base
            (last_steps lib log text_of verdict out_dir build_dir)
            (after_make lib build_dir verdict (v, w))
    after_make-Ends build_dir base v w kept e =
        by_verdict verdict.success
          (λ stop steps.
            Ends log (Forced lib log text_of verdict laws out_dir) stop base steps
              (after_make lib build_dir verdict (v, w)))
          _ _
          (λ works.
            linked-Adds lib log text_of verdict laws out_dir build_dir works base v w kept e)
          (λ fails.
            failed-Ends lib log text_of verdict laws out_dir build_dir base v w fails kept e)

    started :
        (command : Command) (base : List Event) (p : Option ExitStatus × W)
        → Ran lib log text_of verdict command base p
        → Happens log base (ran command verdict ∷ []) (or_panics p.0, p.1)
          × ((s : ExitStatus) → or_panics p.0 ≡ ok s → s ≡ verdict)
    started command base (none, w) h =
        (([], ran command verdict ∷ [], refl, h ∙ sym (append-nil base)), λ s e. cc)
    started command base (some status, w) (same, h) = (h, λ s e. cc)

    -- From the line that names the directory to the end.
    make-Ends :
        (build_dir : Bytes) (base : List Event) (v : Statics) (w : W)
        → (Forced lib log text_of verdict laws out_dir) v
        → log w ≡ base
        → Ends log
            (Forced lib log text_of verdict laws out_dir)
            (stop_status lib log text_of verdict)
            base
            (make_steps lib log text_of verdict build_dir
              ++ last_steps lib log text_of verdict out_dir build_dir)
            ((on_world (lib.println (codes "build_dir = " ++ build_dir))
                >> (on_world (λ w.
                      let (status, w') = lib.status (make_command lib build_dir) w in
                      (or_panics status, w'))
                    >>= λ status. after_make lib build_dir status))
              (v, w))
    make-Ends build_dir base v w kept e =
        let line = codes "build_dir = " ++ build_dir in
        let command = make_command lib build_dir in
        let base1 = base ++ printed line ∷ [] in
        bind-Ends log (Forced lib log text_of verdict laws out_dir)
          (stop_status lib log text_of verdict) base (printed line ∷ [])
          (ran command verdict ∷ last_steps lib log text_of verdict out_dir build_dir)
          (on_world (lib.println line) (v, w)) _
          (print-Ends lib log text_of verdict laws out_dir line base v w kept e)
          (λ _ v1 w1 _ kept1 now.
            let p = lib.status command w1 in
            let (happens, exact) =
              started command base1 p
                (subst (λ b. Ran lib log text_of verdict command b p) now (laws.runs command w1)) in
            bind-Ends log (Forced lib log text_of verdict laws out_dir)
              (stop_status lib log text_of verdict) base1 (ran command verdict ∷ [])
              (last_steps lib log text_of verdict out_dir build_dir) (or_panics p.0, (v1, p.1)) _
              (on_world-Ends log (Forced lib log text_of verdict laws out_dir) base1
                (ran command verdict ∷ []) (λ u. (or_panics p.0, p.1)) v1 w1 kept1 happens)
              (λ status v2 w2 found kept2 now2.
                subst
                  (λ s.
                    Ends log (Forced lib log text_of verdict laws out_dir)
                      (stop_status lib log text_of verdict) (base1 ++ ran command verdict ∷ [])
                      (last_steps lib log text_of verdict out_dir build_dir)
                      (after_make lib build_dir s (v2, w2)))
                  (sym (exact status found))
                  (after_make-Ends build_dir (base1 ++ ran command verdict ∷ []) v2 w2 kept2 now2)))

  set_debug-log :
      (profile : Bytes) (w : W)
      → BuildLaws lib log text_of verdict
      → log (set_debug lib profile w) ≡ log w ++ profile_steps lib log text_of verdict profile
  unfolding set_debug
  set_debug-log profile w laws = elim (Bool-cases (str_eq profile (codes "debug"))) [
    | inl debug ↦ rw debug (laws.sets (codes "DEBUG") (codes "true") w)
    | inr release ↦ rw release (sym (append-nil (log w)))
  ]

  force_out_path_first :
      (out_dir : Bytes) (w : W)
      → lib.env_var (codes "OUT_DIR") w ≡ some out_dir
      → force_out_path lib (unused, w)
        ≡ (ok out_dir, (record { out_dir = some out_dir; out_path = some out_dir }, w))
  unfolding force_out_path force_out_dir
  force_out_path_first out_dir w e = simp (e)

  -- Where the directories can be found, the script does its steps in this order: it sets DEBUG for
  -- a debug profile, prints the build directory, has make run in aspawn/ with that directory in
  -- BUILD_DIR, and only if make has succeeded tells cargo to link the library from the same
  -- directory and writes the bindings of the three headers to OUT_DIR. If make has failed, the script
  -- says so and exits with the status 1. Whatever else fails on the way, it panics and does none of
  -- the later steps. `BuildLaws` says what each call adds to the events.
  pub build_main-Ends :
      (profile out_dir root build_dir : Bytes) (w : W)
      → BuildLaws lib log text_of verdict
      → lib.env_var (codes "PROFILE") w ≡ some profile
      → lib.env_var (codes "OUT_DIR") (set_debug lib profile w) ≡ some out_dir
      → lib.canonicalize out_dir (set_debug lib profile w) ≡ some root
      → lib.to_str (lib.join root (codes "aspawn_build")) ≡ some build_dir
      → Ends log
          (λ statics. statics.out_path ≡ some out_dir)
          (stop_status lib log text_of verdict)
          (log w)
          (profile_steps lib log text_of verdict profile
            ++ (make_steps lib log text_of verdict build_dir
                ++ last_steps lib log text_of verdict out_dir build_dir))
          (build_main lib (unused, w))
  unfolding build_main
  build_main-Ends profile out_dir root build_dir w laws e1 e2 e3 e4 =
      let steps =
        make_steps lib log text_of verdict build_dir
        ++ last_steps lib log text_of verdict out_dir build_dir in
      let w1 = set_debug lib profile w in
      let forced : Statics = record { out_dir = some out_dir; out_path = some out_dir } in
      let path =
        bind_eq _ _ _ (ap (λ o. (or_panics o, (unused, w))) e1)
        ∙ bind_eq _ _ _ (force_out_path_first out_dir w1 e2)
        ∙ bind_eq _ _ _ (ap (λ o. (or_panics o, (forced, w1))) e3)
        ∙ bind_eq _ _ _ (ap (λ o. (or_panics o, (forced, w1))) e4) in
      subst
        (Ends log (Forced lib log text_of verdict laws out_dir)
          (stop_status lib log text_of verdict) (log w)
          (profile_steps lib log text_of verdict profile ++ steps))
        (sym path)
        (Ends-more log (Forced lib log text_of verdict laws out_dir)
          (stop_status lib log text_of verdict) (log w)
          (profile_steps lib log text_of verdict profile) steps _
          (make-Ends laws out_dir build_dir (log w ++ profile_steps lib log text_of verdict profile)
            forced w1 refl (set_debug-log profile w laws)))
