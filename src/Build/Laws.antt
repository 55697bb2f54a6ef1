-- ===== src/Build/Laws.antt =====
-- What build.rs is to do, and what its calls add to the events.
use avfork.Base.{
  ◌≡◌, Bool, true, false, List, [], ◌∷◌, ◌++◌, Option, none, some, codes, if◌then◌else◌,
}
use avfork.Base.Int.{ℤ, pos}
use avfork.Kernel.{Bytes}
use avfork.Build.{ExitStatus, Command, BuildLib, str_eq, make_command}
use avfork.Build.Steps.{Event, set_env, printed, ran, wrote, Happens}

module _ {W : Type 0} (lib : BuildLib W) (log : W → List Event) (text_of : Bytes → Bytes)
    (verdict : ExitStatus) where
  -- What a call that can fail adds to the events.
  abbrev pub Ran : Command → List Event → Option ExitStatus × W → Type 0
  Ran command events (none, w) = log w ≡ events
  Ran command events (some status, w) =
      (status ≡ verdict) × (log w ≡ events ++ ran command verdict ∷ [])

  abbrev pub Generated : Bytes → List Event → Option Bytes × W → Type 0
  Generated header events (none, w) = log w ≡ events
  Generated header events (some bindings, w) = (bindings ≡ text_of header) × (log w ≡ events)

  abbrev pub Written : Bytes → Bytes → List Event → Bool × W → Type 0
  Written path bindings events (false, w) = log w ≡ events
  Written path bindings events (true, w) = log w ≡ events ++ wrote path bindings ∷ []

  -- The calls of the script, which may all fail: `log` has the events, `text_of` the bindings of a
  -- header, and `verdict` is how make ends, if it can be started.
  pub record BuildLaws : Type 0 where
    pub sets :
        (name value : Bytes) (w : W)
        → log (lib.set_var name value w) ≡ log w ++ set_env name value ∷ []
    pub prints :
        (text : Bytes) (w : W) → Happens log (log w) (printed text ∷ []) (lib.println text w)
    pub runs : (command : Command) (w : W) → Ran command (log w) (lib.status command w)
    pub generates : (header : Bytes) (w : W) → Generated header (log w) (lib.generate header w)
    pub writes :
        (bindings path : Bytes) (w : W)
        → Written path bindings (log w) (lib.write_to_file bindings path w)

  -- What the script is to do for the profile, in the directory `build_dir`, with the bindings in
  -- `out_dir`.
  abbrev pub profile_steps : Bytes → List Event
  profile_steps profile =
      if str_eq profile (codes "debug") then set_env (codes "DEBUG") (codes "true") ∷ [] else []

  abbrev pub binding_steps : Bytes → List Event
  binding_steps out_dir =
      wrote (lib.join out_dir (codes "aspawn_binding.rs")) (text_of (codes "aspawn/aspawn.h"))
      ∷ wrote (lib.join out_dir (codes "syscall_binding.rs"))
          (text_of (codes "aspawn/syscall/syscall.h"))
      ∷ wrote (lib.join out_dir (codes "errno_msgs_binding.rs"))
          (text_of (codes "aspawn/syscall/errno_msgs.h"))
      ∷ []

  abbrev pub link_steps : Bytes → List Event
  link_steps build_dir =
      printed (codes "cargo:rustc-link-search=native=" ++ build_dir)
      ∷ printed (codes "cargo:rustc-link-lib=static=aspawn")
      ∷ printed (codes "cargo:rerun-if-changed=aspawn")
      ∷ []

  abbrev pub make_steps : Bytes → List Event
  make_steps build_dir =
      printed (codes "build_dir = " ++ build_dir) ∷ ran (make_command lib build_dir) verdict ∷ []

  abbrev pub last_steps : Bytes → Bytes → List Event
  last_steps out_dir build_dir =
      if verdict.success
      then link_steps build_dir ++ binding_steps out_dir
      else printed
          (codes "failed to build submodule aspawn: exit code = " ++ lib.code_format verdict.code)
        ∷ []

  abbrev pub stop_status : Option ℤ
  stop_status = if verdict.success then none else some (pos 1)
