-- ===== src/Syscall/Fd/Table.antt =====
-- The boxes of src/syscall.rs own their descriptors: a client that opens, duplicates and drops
-- boxes, over the table of open descriptors that the kernel keeps.
pub mod Counts
pub mod Owned
use avfork.Base.{
  ℕ, zero, suc, ◌+◌, ◌≡◌, Bool, true, false, List, [], ◌∷◌, Option, none, some, get_elem?,
  if◌then◌else◌,
}
use avfork.Base.Int.{ℤ, eqb_ℤ}
use avfork.Outcome.{
  SyscallError, Outcome, ok, err, exited, replaced, panicked, undefined, out_of_fuel, Sys, pure,
  ◌>>=◌, ◌>>◌,
}
use avfork.Kernel.{Kernel, Bytes}
use avfork.Syscall.Fd.{FdBox, FdPathBox, pipe2, drop_box, drop_path_box}
use avfork.Syscall.Fd.Ownership.{OpenCall, Box, file_box, path_box, open_call}

abbrev pub raw_fd : Box → ℤ
raw_fd (file_box b) = b.boxed.fd
raw_fd (path_box b) = b.boxed_path.path_fd

abbrev pub raw_fds : List Box → List ℤ
raw_fds [] = []
raw_fds (b ∷ bs) = raw_fd b ∷ raw_fds bs

-- How often a descriptor stands in a list.
abbrev pub one : ℤ → ℤ → ℕ
one x y = if eqb_ℤ y x then 1 else 0

abbrev pub count : ℤ → List ℤ → ℕ
count x [] = 0
count x (y ∷ ys) = one x y + count x ys

abbrev pub remove_at : {A : Type 0} → ℕ → List A → List A
remove_at i [] = []
remove_at zero (x ∷ xs) = xs
remove_at (suc i) (x ∷ xs) = x ∷ remove_at i xs

-- What a client does with its boxes: it opens another, makes a pipe, or drops the `i`-th.
pub data BoxOp : Type 0 where
  opens_box : OpenCall → BoxOp
  makes_pipe : ℕ → BoxOp
  drops : ℕ → BoxOp

-- The `Debug` formats of the three types.
pub record BoxFormats : Type 0 where
  pub error_text : SyscallError → List Bytes
  pub box_text : FdBox → List Bytes
  pub path_box_text : FdPathBox → List Bytes

module _ {W : Type 0} (sys : Kernel W) (formats : BoxFormats) (fuel : ℕ) where
  abbrev pub drop_any : Box → Sys W (Unit {0})
  drop_any (file_box b) = drop_box sys fuel formats.error_text formats.box_text b
  drop_any (path_box b) = drop_path_box sys fuel formats.error_text formats.path_box_text b

  -- A new box is kept; an error leaves the client with those that it has.
  abbrev pub keep_box : List Box → Outcome Box × W → Outcome (List Box) × W
  keep_box owned (ok b, w) = (ok (b ∷ owned), w)
  keep_box owned (err e, w) = (ok owned, w)
  keep_box owned (exited c, w) = (exited c, w)
  keep_box owned (replaced, w) = (replaced, w)
  keep_box owned (panicked, w) = (panicked, w)
  keep_box owned (undefined, w) = (undefined, w)
  keep_box owned (out_of_fuel, w) = (out_of_fuel, w)

  abbrev pub keep_pipe : List Box → Outcome (FdBox × FdBox) × W → Outcome (List Box) × W
  keep_pipe owned (ok (r, s), w) = (ok (file_box r ∷ file_box s ∷ owned), w)
  keep_pipe owned (err e, w) = (ok owned, w)
  keep_pipe owned (exited c, w) = (exited c, w)
  keep_pipe owned (replaced, w) = (replaced, w)
  keep_pipe owned (panicked, w) = (panicked, w)
  keep_pipe owned (undefined, w) = (undefined, w)
  keep_pipe owned (out_of_fuel, w) = (out_of_fuel, w)

  abbrev pub drop_at : ℕ → List Box → Option Box → Sys W (List Box)
  drop_at i owned none = pure owned
  drop_at i owned (some b) = drop_any b >> pure (remove_at i owned)

  unfoldable pub box_step : BoxOp → List Box → Sys W (List Box)
  box_step (opens_box c) owned w = keep_box owned (open_call sys c w)
  box_step (makes_pipe flag) owned w = keep_pipe owned (pipe2 sys flag w)
  box_step (drops i) owned w = drop_at i owned (get_elem? owned i) w

  unfoldable pub run_boxes : List BoxOp → List Box → Sys W (List Box)
  run_boxes [] owned = pure owned
  run_boxes (op ∷ ops) owned = box_step op owned >>= λ more. run_boxes ops more
