-- ===== src/Lowlevel/Stack/Drops.antt =====
-- The three `Drop` implementations: `FdBox` and `FdPathBox` of src/syscall.rs, `Stack` of
-- src/lowlevel.rs.
use avfork.Base.{ℕ, ◌+◌, ◌<◌, ◌≡◌, List, ◌∷◌, codes, length, All}
use avfork.Base.Int.{ℤ, pos, IsI32}
use avfork.Outcome.{SyscallError, Sys}
use avfork.Kernel.{Kernel, Bytes}
use avfork.Syscall.Io.WriteAll.{WriteLaws}
use avfork.Syscall.Fd.{FdBox, FdPathBox, drop_box, drop_path_box}
use avfork.Utility.Release.{release_text, Released, release-Released}
use avfork.Lowlevel.Stack.{StackT, StackLib, drop_stack}

-- What can be dropped.
pub data Owned : Type 0 where
  fd_box : FdBox → Owned
  path_box : FdPathBox → Owned
  stack : StackT → Owned

-- The derived `Debug` formats.
pub record Formats : Type 0 where
  pub show_error : SyscallError → List Bytes
  pub show_box : FdBox → List Bytes
  pub show_path_box : FdPathBox → List Bytes
  pub show_stack : StackT → List Bytes

module _ {W : Type 0} (sys : Kernel W) (lib : StackLib W) (formats : Formats) where
  abbrev pub drop_owned : ℕ → Owned → Sys W (Unit {0})
  drop_owned fuel (fd_box b) = drop_box sys fuel formats.show_error formats.show_box b
  drop_owned fuel (path_box b) = drop_path_box sys fuel formats.show_error formats.show_path_box b
  drop_owned fuel (stack s) = drop_stack sys lib fuel formats.show_error formats.show_stack s

  -- The call that releases each, and what the message says of it.
  abbrev pub release_raw : Owned → W → ℤ × W
  release_raw (fd_box b) = sys.psys_close b.boxed.fd
  release_raw (path_box b) = sys.psys_close b.boxed_path.path_fd
  release_raw (stack s) = lib.cleanup_stack s

  abbrev pub what_failed : Owned → List Bytes
  what_failed (fd_box b) = codes "Failed to release the FdBox " ∷ formats.show_box b
  what_failed (path_box b) = codes "Failed to release the FdPathBox " ∷ formats.show_path_box b
  what_failed (stack s) = codes "Failed to deallocate the stack " ∷ formats.show_stack s

module _ {W : Type 0} (sys : Kernel W) (lib : StackLib W) (formats : Formats) (stream : W → Bytes)
    (interruptions : W → ℕ) (laws : WriteLaws sys (pos 2) stream interruptions) where
  -- Dropping an FdBox, an FdPathBox or a Stack makes one call that releases it. If the call fails,
  -- a debug build reports what could not be released, with the error, and ends the process with
  -- status 1; STDERR has got all of the report, or a part at its front behind which a write(2) has
  -- failed. A release build goes on; a drop never returns an error. The code is to be a
  -- c_int, STDERR to have `WriteLaws`, and the fuel to be more than the bytes of each piece of the
  -- report and the interruptions.
  pub drop_owned-Released :
      (fuel : ℕ) (o : Owned) (r : ℤ) (w w' : W)
      → release_raw sys lib formats o w ≡ (r, w')
      → IsI32 r
      → ((e : SyscallError)
          → All
              (λ p. length p + interruptions w' < fuel)
              (release_text sys stream interruptions laws
                (what_failed sys lib formats o)
                (formats.show_error e)))
      → Released sys stream interruptions laws r formats.show_error
          (what_failed sys lib formats o)
          w'
          (drop_owned sys lib formats fuel o w)
  unfolding drop_box drop_path_box drop_stack
  drop_owned-Released fuel (fd_box b) r w w' e h enough =
      release-Released sys stream interruptions laws fuel formats.show_error
        (what_failed sys lib formats (fd_box b)) (sys.psys_close b.boxed.fd) r w w' e h enough
  drop_owned-Released fuel (path_box b) r w w' e h enough =
      release-Released sys stream interruptions laws fuel formats.show_error
        (what_failed sys lib formats (path_box b)) (sys.psys_close b.boxed_path.path_fd) r w w' e h
        enough
  drop_owned-Released fuel (stack s) r w w' e h enough =
      release-Released sys stream interruptions laws fuel formats.show_error
        (what_failed sys lib formats (stack s)) (lib.cleanup_stack s) r w w' e h enough
