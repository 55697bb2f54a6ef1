-- ===== src/Tests/Building.antt =====
-- The theorem on build.rs at a concrete input: a debug build in /out.
use avfork.Base.{◌≡◌, refl, true, false, List, [], ◌∷◌, ◌++◌, some, codes, if◌then◌else◌}
use avfork.Base.Int.{pos}
use avfork.Outcome.{ok}
use avfork.Build.{ExitStatus, BuildLib, str_eq, unused, build_main}
use avfork.Build.Steps.{Event, set_env, printed, ran, wrote, Ends}
use avfork.Build.Laws.{BuildLaws, profile_steps, make_steps, last_steps, stop_status}
use avfork.Build.Order.{build_main-Ends}

-- make fails with the status 2.
abbrev make_failed : ExitStatus
make_failed = record { success = false; code = some (pos 2) }

-- The world is what has happened.
abbrev debug_build : BuildLib (List Event)
debug_build = record {
  env_var = λ name w. some (if str_eq name (codes "PROFILE") then codes "debug" else codes "/out");
  set_var = λ name value w. w ++ set_env name value ∷ [];
  canonicalize = λ path w. some (codes "/out");
  join = λ a b. a ++ (codes "/" ++ b);
  to_str = λ path. some path;
  status = λ command w. (some make_failed, w ++ ran command make_failed ∷ []);
  println = λ text w. (ok tt, w ++ printed text ∷ []);
  code_format = λ code. codes "Some(2)";
  generate = λ header w. (some header, w);
  write_to_file = λ bindings path w. (true, w ++ wrote path bindings ∷ []);
}

debug_build-BuildLaws : BuildLaws debug_build (λ w. w) (λ header. header) make_failed
debug_build-BuildLaws = record {
  sets = λ name value w. refl;
  prints = λ text w. refl;
  runs = λ command w. (refl, refl);
  generates = λ header w. (refl, refl);
  writes = λ bindings path w. refl;
}

build_main-Ends_example :
    Ends
      (λ w. w)
      (λ statics. statics.out_path ≡ some (codes "/out"))
      (stop_status debug_build (λ w. w) (λ header. header) make_failed)
      []
      (profile_steps debug_build (λ w. w) (λ header. header) make_failed (codes "debug")
        ++ (make_steps debug_build
              (λ w. w)
              (λ header. header)
              make_failed
              (codes "/out/aspawn_build")
            ++ last_steps debug_build
                (λ w. w)
                (λ header. header)
                make_failed
                (codes "/out")
                (codes "/out/aspawn_build")))
      (build_main debug_build (unused, []))
build_main-Ends_example =
    build_main-Ends debug_build (λ w. w) (λ header. header) make_failed (codes "debug")
      (codes "/out") (codes "/out") (codes "/out/aspawn_build") [] debug_build-BuildLaws refl refl
      refl refl
