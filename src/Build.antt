-- ===== src/Build.antt =====
-- build.rs: the build script, which makes the C library aspawn and generates the bindings.
pub mod Steps
pub mod Laws
pub mod Parts
pub mod Order
use avfork.Base.{
  ℕ, Bool, true, false, not, ◌&&◌, List, [], ◌∷◌, ◌++◌, Option, none, some, codes, ◌==◌,
  if◌then◌else◌,
}
use avfork.Base.Int.{ℤ, pos}
use avfork.Outcome.{Outcome, ok, exited, panicked, Sys, pure, lift, ◌>>=◌, ◌>>◌, on_world}
use avfork.Kernel.{Bytes}

-- `std::process::ExitStatus`: its test and its code.
pub record ExitStatus : Type 0 where
  pub success : Bool
  pub code : Option ℤ

-- `std::process::Command`, with the one variable that is set for it.
pub record Command : Type 0 where
  pub program : Bytes
  pub current_dir : Bytes
  pub env : Bytes × Bytes
  pub args : List Bytes

-- What the script uses of the standard library and of bindgen; bindings are their text. `none`
-- and `false` are errors.
pub record BuildLib (W : Type 0) : Type 0 where
  pub env_var : Bytes → W → Option Bytes
  pub set_var : Bytes → Bytes → W → W
  pub canonicalize : Bytes → W → Option Bytes
  pub join : Bytes → Bytes → Bytes
  pub to_str : Bytes → Option Bytes
  pub status : Command → W → Option ExitStatus × W
  pub println : Bytes → Sys W (Unit {0})
  pub code_format : Option ℤ → Bytes
  pub generate : Bytes → W → Option Bytes × W
  pub write_to_file : Bytes → Bytes → W → Bool × W

-- `str`'s `==`
abbrev pub str_eq : Bytes → Bytes → Bool
str_eq [] [] = true
str_eq [] (b ∷ s) = false
str_eq (a ∷ r) [] = false
str_eq (a ∷ r) (b ∷ s) = (a == b) && str_eq r s

-- `unwrap` and `expect` of the standard library.
abbrev pub or_panics : {A : Type 0} → Option A → Outcome A
or_panics none = panicked
or_panics (some a) = ok a

abbrev pub must : Bool → Outcome (Unit {0})
must true = ok tt
must false = panicked

-- The statics `OUT_DIR` and `OUT_PATH`, which are computed when they are first used.
pub record Statics : Type 0 where
  pub out_dir : Option Bytes
  pub out_path : Option Bytes

-- No static has been used yet.
abbrev pub unused : Statics
unused = record { out_dir = none; out_path = none }

module _ {W : Type 0} (lib : BuildLib W) where
  -- `*OUT_DIR`
  unfoldable pub force_out_dir : Sys (Statics × W) Bytes
  force_out_dir (statics, w) = elim (statics.out_dir) [
    | some dir ↦ (ok dir, (statics, w))
    | none ↦ elim (lib.env_var (codes "OUT_DIR") w) [
      | none ↦ (panicked, (statics, w))
      | some dir ↦ (ok dir, (record statics { out_dir = some dir }, w))
    ]
  ]

  abbrev pub set_out_path : Bytes → Sys (Statics × W) Bytes
  set_out_path path (statics, w) = (ok path, (record statics { out_path = some path }, w))

  -- `*OUT_PATH`; `PathBuf::from` keeps the bytes.
  unfoldable pub force_out_path : Sys (Statics × W) Bytes
  force_out_path (statics, w) = elim (statics.out_path) [
    | some path ↦ (ok path, (statics, w))
    | none ↦ (force_out_dir >>= set_out_path) (statics, w)
  ]

  -- `gen_binding`
  unfoldable pub gen_binding : Bytes → Bytes → Sys (Statics × W) (Unit {0})
  gen_binding header output =
      on_world (λ w. let (bindings, w') = lib.generate header w in (or_panics bindings, w'))
      >>= λ bindings. force_out_path >>= λ path. on_world (λ w.
        let (written, w') = lib.write_to_file bindings (lib.join path output) w in
        (must written, w'))

  -- The command that makes the C library.
  abbrev pub make_command : Bytes → Command
  make_command build_dir = record {
    program = codes "sh";
    current_dir = codes "aspawn";
    env = (codes "BUILD_DIR", build_dir);
    args = codes "-c" ∷ codes "make" ∷ codes "-j" ∷ codes "$(nproc)" ∷ [];
  }

  -- The test of `PROFILE`.
  unfoldable pub set_debug : Bytes → W → W
  set_debug profile w =
      if str_eq profile (codes "debug") then lib.set_var (codes "DEBUG") (codes "true") w else w

  -- From the test of make's status to the end.
  unfoldable pub after_make : Bytes → ExitStatus → Sys (Statics × W) (Unit {0})
  after_make build_dir status =
      (if not status.success
        then (on_world (
              lib.println (
                codes "failed to build submodule aspawn: exit code = "
                ++ lib.code_format status.code))
            >> lift (exited (pos 1)))
        else pure tt)
      >> on_world (lib.println (codes "cargo:rustc-link-search=native=" ++ build_dir))
      >> on_world (lib.println (codes "cargo:rustc-link-lib=static=aspawn"))
      >> on_world (lib.println (codes "cargo:rerun-if-changed=aspawn"))
      >> gen_binding (codes "aspawn/aspawn.h") (codes "aspawn_binding.rs")
      >> gen_binding (codes "aspawn/syscall/syscall.h") (codes "syscall_binding.rs")
      >> gen_binding (codes "aspawn/syscall/errno_msgs.h") (codes "errno_msgs_binding.rs")

  -- `main`
  unfoldable pub build_main : Sys (Statics × W) (Unit {0})
  build_main = on_world (λ w. (or_panics (lib.env_var (codes "PROFILE") w), w)) >>= λ profile.
      on_world (λ w. (ok tt, set_debug profile w))
      >> (force_out_path >>= λ path.
          on_world (λ w. (or_panics (lib.canonicalize path w), w)) >>= λ root.
          lift (or_panics (lib.to_str (lib.join root (codes "aspawn_build")))) >>= λ build_dir.
          on_world (lib.println (codes "build_dir = " ++ build_dir))
          >> (on_world (λ w.
                let (status, w') = lib.status (make_command build_dir) w in (or_panics status, w'))
              >>= λ status. after_make build_dir status))
