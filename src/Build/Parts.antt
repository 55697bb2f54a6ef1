-- ===== src/Build/Parts.antt =====
-- The parts of build.rs behind make: the lines for cargo and the bindings.
use avfork.Base.{
  ◌≡◌, refl, sym, subst, ◌∙◌, Bool, true, false, not, List, [], ◌∷◌, ◌++◌, append-nil, Option, none,
  some, codes, if◌then◌else◌,
}
use avfork.Base.Int.{pos}
use avfork.Outcome.{ok, exited, Sys, pure, lift, bind_eq, ◌>>◌, on_world}
use avfork.Kernel.{Bytes}
use avfork.Build.{
  ExitStatus, BuildLib, or_panics, must, Statics, force_out_path, gen_binding, after_make,
}
use avfork.Build.Steps.{Event, printed, wrote, Happens, Ends, bind-Ends, exit-Ends, on_world-Ends}
use avfork.Build.Laws.{BuildLaws, Generated, Written, link_steps, binding_steps}

module _ {W : Type 0} (lib : BuildLib W) (log : W → List Event) (text_of : Bytes → Bytes)
    (verdict : ExitStatus) where
  module _ (laws : BuildLaws lib log text_of verdict) (out_dir : Bytes) where
    -- `OUT_PATH` has been computed.
    abbrev pub Forced : Statics → Type 0
    Forced statics = statics.out_path ≡ some out_dir

    pub print-Ends :
        (text : Bytes) (base : List Event) (v : Statics) (w : W)
        → Forced v
        → log w ≡ base
        → Ends log Forced none base (printed text ∷ []) (on_world (lib.println text) (v, w))
    print-Ends text base v w kept e =
        on_world-Ends log Forced base (printed text ∷ []) (lib.println text) v w kept (
          subst (λ b. Happens log b (printed text ∷ []) (lib.println text w)) e
            (laws.prints text w))

    generated :
        (header : Bytes) (base : List Event) (p : Option Bytes × W)
        → Generated lib log text_of verdict header base p
        → Happens log base [] (or_panics p.0, p.1)
          × ((b : Bytes) → or_panics p.0 ≡ ok b → b ≡ text_of header)
    generated header base (none, w) h = (([], [], refl, h ∙ sym (append-nil base)), λ b e. cc)
    generated header base (some bindings, w) (text, h) = (h ∙ sym (append-nil base), λ b e. cc)

    written :
        (path bindings : Bytes) (base : List Event) (p : Bool × W)
        → Written lib log text_of verdict path bindings base p
        → Happens log base (wrote path bindings ∷ []) (must p.0, p.1)
    written path bindings base (true, w) h = h
    written path bindings base (false, w) h =
        ([], wrote path bindings ∷ [], refl, h ∙ sym (append-nil base))

    -- A file written with bindings, of which one knows what they are.
    write-Ends :
        (path bindings text : Bytes) (base : List Event) (v : Statics) (w : W)
        → bindings ≡ text
        → Forced v
        → log w ≡ base
        → Ends log Forced none base (wrote path text ∷ []) (
            on_world
              (λ w. let (done, w') = lib.write_to_file bindings path w in (must done, w'))
              (v, w))
    write-Ends path bindings text base v w exact kept e =
        subst
          (λ t. Ends log Forced none base (wrote path t ∷ []) (
            on_world (λ w. let (done, w') = lib.write_to_file bindings path w in (must done, w'))
              (v, w)))
          exact
          (on_world-Ends log Forced base (wrote path bindings ∷ [])
            (λ w. let (done, w') = lib.write_to_file bindings path w in (must done, w')) v w kept
            (written path bindings base (lib.write_to_file bindings path w) (
              subst
                (λ b.
                  Written lib log text_of verdict path bindings b
                    (lib.write_to_file bindings path w))
                e (laws.writes bindings path w))))

    force_out_path_again :
        (v : Statics) (w : W) → Forced v → force_out_path lib (v, w) ≡ (ok out_dir, (v, w))
    unfolding force_out_path
    force_out_path_again v w kept = simp (kept)

    gen_binding-Ends :
        (header output : Bytes) (base : List Event) (v : Statics) (w : W)
        → Forced v
        → log w ≡ base
        → Ends log Forced none base
            (wrote (lib.join out_dir output) (text_of header) ∷ [])
            (gen_binding lib header output (v, w))
    unfolding gen_binding
    gen_binding-Ends header output base v w kept e =
        let p = lib.generate header w in
        let (happens, exact) =
          generated header base p (
            subst (λ b. Generated lib log text_of verdict header b p) e
              (laws.generates header w)) in
        bind-Ends log Forced none base [] (wrote (lib.join out_dir output) (text_of header) ∷ [])
          (or_panics p.0, (v, p.1)) _
          (on_world-Ends log Forced base [] (λ u. (or_panics p.0, p.1)) v w kept happens)
          (λ bindings v' w' found kept' now.
            subst
              (Ends log Forced none (base ++ [])
                (wrote (lib.join out_dir output) (text_of header) ∷ []))
              (sym (bind_eq _ _ _ (force_out_path_again v' w' kept')))
              (write-Ends (lib.join out_dir output) bindings (text_of header) (base ++ []) v' w'
                (exact bindings found) kept' now))

    -- A part of the run that adds these events, wherever it starts.
    abbrev Adds : List Event → Sys (Statics × W) (Unit {0}) → Type 0
    Adds steps m =
        (base : List Event) (v : Statics) (w : W)
        → Forced v
        → log w ≡ base
        → Ends log Forced none base steps (m (v, w))

    Adds->> :
        (first steps : List Event) (m k : Sys (Statics × W) (Unit {0}))
        → Adds first m
        → Adds steps k
        → Adds (first ++ steps) (m >> k)
    Adds->> first steps m k does next base v w kept e =
        bind-Ends log Forced none base first steps (m (v, w)) (λ _. k) (does base v w kept e)
          (λ _ v' w' _ kept' now. next (base ++ first) v' w' kept' now)

    skipped-Ends :
        (b : Bool) (m : Sys (Statics × W) (Unit {0})) (base : List Event) (v : Statics) (w : W)
        → b ≡ true
        → Forced v
        → log w ≡ base
        → Ends log Forced none base [] ((if not b then m else pure tt) (v, w))
    skipped-Ends true m base v w h kept e = (kept, e ∙ sym (append-nil base))
    skipped-Ends false m base v w h kept e = cc

    stopped-Ends :
        (b : Bool) (text : Bytes) (base : List Event) (v : Statics) (w : W)
        → b ≡ false
        → Forced v
        → log w ≡ base
        → Ends log Forced (some (pos 1)) base (printed text ∷ []) (
            (if not b
                then (on_world (lib.println text) >> lift {A = Unit {0}} (exited (pos 1)))
                else pure tt)
              (v, w))
    stopped-Ends false text base v w h kept e =
        bind-Ends log Forced (some (pos 1)) base (printed text ∷ []) []
          (on_world (lib.println text) (v, w)) (λ _. lift (exited (pos 1)))
          (print-Ends text base v w kept e)
          (λ _ v' w' _ kept' now. (refl, now ∙ sym (append-nil (base ++ printed text ∷ []))))
    stopped-Ends true text base v w h kept e = cc

    -- After a make that has succeeded: the lines for cargo, then the bindings.
    abbrev link_lines : Bytes → Sys (Statics × W) (Unit {0}) → Sys (Statics × W) (Unit {0})
    link_lines build_dir m =
        m
        >> on_world (lib.println (codes "cargo:rustc-link-search=native=" ++ build_dir))
        >> on_world (lib.println (codes "cargo:rustc-link-lib=static=aspawn"))
        >> on_world (lib.println (codes "cargo:rerun-if-changed=aspawn"))

    abbrev checked : Sys (Statics × W) (Unit {0})
    checked =
        if not verdict.success
        then (on_world (
              lib.println (
                codes "failed to build submodule aspawn: exit code = "
                ++ lib.code_format verdict.code))
            >> lift (exited (pos 1)))
        else pure tt

    link_lines-Adds :
        (build_dir : Bytes) (m : Sys (Statics × W) (Unit {0}))
        → Adds [] m
        → Adds (link_steps lib log text_of verdict build_dir) (link_lines build_dir m)
    link_lines-Adds build_dir m does =
        let search = codes "cargo:rustc-link-search=native=" ++ build_dir in
        let library = codes "cargo:rustc-link-lib=static=aspawn" in
        let changed = codes "cargo:rerun-if-changed=aspawn" in
        Adds->> (printed search ∷ printed library ∷ []) (printed changed ∷ [])
          (m >> on_world (lib.println search) >> on_world (lib.println library))
          (on_world (lib.println changed))
          (Adds->> (printed search ∷ []) (printed library ∷ []) (m >> on_world (lib.println search))
            (on_world (lib.println library))
            (Adds->> [] (printed search ∷ []) m (on_world (lib.println search)) does
              (print-Ends search))
            (print-Ends library))
          (print-Ends changed)

    bindings-Adds :
        (m : Sys (Statics × W) (Unit {0})) (steps : List Event)
        → Adds steps m
        → Adds
            (((steps
                  ++ wrote
                      (lib.join out_dir (codes "aspawn_binding.rs"))
                      (text_of (codes "aspawn/aspawn.h"))
                    ∷ [])
                ++ wrote
                    (lib.join out_dir (codes "syscall_binding.rs"))
                    (text_of (codes "aspawn/syscall/syscall.h"))
                  ∷ [])
              ++ wrote
                  (lib.join out_dir (codes "errno_msgs_binding.rs"))
                  (text_of (codes "aspawn/syscall/errno_msgs.h"))
                ∷ [])
            (m
              >> gen_binding lib (codes "aspawn/aspawn.h") (codes "aspawn_binding.rs")
              >> gen_binding lib (codes "aspawn/syscall/syscall.h") (codes "syscall_binding.rs")
              >> gen_binding lib
                  (codes "aspawn/syscall/errno_msgs.h")
                  (codes "errno_msgs_binding.rs"))
    bindings-Adds m steps does =
        let g1 = gen_binding lib (codes "aspawn/aspawn.h") (codes "aspawn_binding.rs") in
        let g2 = gen_binding lib (codes "aspawn/syscall/syscall.h") (codes "syscall_binding.rs") in
        let g3 =
          gen_binding lib (codes "aspawn/syscall/errno_msgs.h") (codes "errno_msgs_binding.rs") in
        Adds->> _ _ (m >> g1 >> g2) g3
          (Adds->> _ _ (m >> g1) g2
            (Adds->> steps _ m g1 does
              (gen_binding-Ends (codes "aspawn/aspawn.h") (codes "aspawn_binding.rs")))
            (gen_binding-Ends (codes "aspawn/syscall/syscall.h") (codes "syscall_binding.rs")))
          (gen_binding-Ends (codes "aspawn/syscall/errno_msgs.h") (codes "errno_msgs_binding.rs"))

    pub linked-Adds :
        (build_dir : Bytes)
        → verdict.success ≡ true
        → Adds
            (link_steps lib log text_of verdict build_dir
              ++ binding_steps lib log text_of verdict out_dir)
            (after_make lib build_dir verdict)
    unfolding after_make
    linked-Adds build_dir works =
        bindings-Adds (link_lines build_dir checked) (link_steps lib log text_of verdict build_dir)
          (link_lines-Adds build_dir checked
            (λ base v w kept e. skipped-Ends verdict.success _ base v w works kept e))

    pub failed-Ends :
        (build_dir : Bytes) (base : List Event) (v : Statics) (w : W)
        → verdict.success ≡ false
        → Forced v
        → log w ≡ base
        → Ends log Forced
            (some (pos 1))
            base
            (printed (
                codes "failed to build submodule aspawn: exit code = "
                ++ lib.code_format verdict.code)
              ∷ [])
            (after_make lib build_dir verdict (v, w))
    unfolding after_make
    failed-Ends build_dir base v w fails kept e =
        let text =
          codes "failed to build submodule aspawn: exit code = " ++ lib.code_format verdict.code in
        let steps = printed text ∷ [] in
        exit-Ends log Forced (pos 1) base steps _ _ (
          exit-Ends log Forced (pos 1) base steps _ _ (
            exit-Ends log Forced (pos 1) base steps _ _ (
              exit-Ends log Forced (pos 1) base steps _ _ (
                exit-Ends log Forced (pos 1) base steps _ _ (
                  exit-Ends log Forced (pos 1) base steps _ _
                    (stopped-Ends verdict.success text base v w fails kept e))))))
