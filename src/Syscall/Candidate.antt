-- ===== src/Syscall/Candidate.antt =====
-- `CStrArray`, `Filename`, `ExecvelCandidate` and `FexecvelCandidate` of src/syscall.rs: the
-- arguments of the exec functions, checked when they are built.
pub mod Checks
use avfork.Base.{
  ℕ, ◌+◌, ◌*◌, Bool, true, false, not, ◌&&◌, ◌||◌, List, [], ◌∷◌, Option, none, some, length, ltb,
  leb, ◌==◌, if◌then◌else◌,
}
use avfork.Outcome.{Outcome, ok, undefined, and_then}
use avfork.Kernel.{Bytes}
use avfork.Syscall.Fd.{FdPath}

-- An array of pointers; `none` is the null pointer.
pub record CStrArray : Type 0 where
  pub arr : List (Option Bytes)

-- `*arr.last()? == null`
unfoldable pub last_is_null : List (Option Bytes) → Bool
last_is_null [] = false
last_is_null (none ∷ []) = true
last_is_null (some s ∷ []) = false
last_is_null (p ∷ q ∷ ps) = last_is_null (q ∷ ps)

-- `CStrArray::new`
unfoldable pub new_cstr_array : List (Option Bytes) → Option CStrArray
new_cstr_array arr = if last_is_null arr then some (record { arr = arr }) else none

-- `CStrArray::as_ptr`: the pointers that the callee is given.
unfoldable pub as_ptr : CStrArray → List (Option Bytes)
as_ptr self = self.arr

-- The macro `CStrArray!`: the literals, and a null pointer behind them.
abbrev pub with_null : List Bytes → List (Option Bytes)
with_null [] = none ∷ []
with_null (s ∷ ss) = some s ∷ with_null ss

unfoldable pub cstr_array : List Bytes → CStrArray
cstr_array strings = record { arr = with_null strings }

-- What a callee reads that goes through the pointers up to the null one. With no null pointer it
-- runs off the array.
unfoldable pub pointed_strings : List (Option Bytes) → Outcome (List Bytes)
pointed_strings [] = undefined
pointed_strings (none ∷ ps) = ok []
pointed_strings (some s ∷ ps) = and_then (pointed_strings ps) (λ rest. ok (s ∷ rest))

-- `PATH_MAX` and `FILENAME_MAX`
abbrev pub path_max : ℕ
path_max = 5 * 4096

abbrev pub filename_max : ℕ
filename_max = 255

pub record Filename : Type 0 where
  pub filename : Bytes

-- `Filename::to_bytes`, `len` and `is_empty`
unfoldable pub to_bytes : Filename → Bytes
to_bytes self = self.filename

unfoldable pub len : Filename → ℕ
unfolding to_bytes
len self = length (to_bytes self)

unfoldable pub is_empty : Filename → Bool
unfolding to_bytes
is_empty self = elim (to_bytes self) [ [] ↦ true | _ ↦ false ]

-- The loop of `Filename::new` over the bytes.
unfoldable pub has_slash : Bytes → Bool
has_slash [] = false
has_slash (byte ∷ bytes) = byte == b'/' || has_slash bytes

-- `Filename::new`, on the bytes of the C string before its NUL
unfoldable pub new_filename : Bytes → Option Filename
new_filename filename =
    if length filename == 0 || ltb filename_max (length filename)
    then none
    else if has_slash filename
    then none
    else some (record { filename = filename })

pub record ExecvelCandidate : Type 0 where
  pub file : Filename
  pub paths : List Bytes

-- The loop of `ExecvelCandidate::new`: does a path make it return `None`?
unfoldable pub refuses : ℕ → List Bytes → Bool
refuses filename_sz [] = false
refuses filename_sz (path ∷ paths) =
    (length path == 0 || ltb path_max (filename_sz + length path + 2)) || refuses filename_sz paths

-- `ExecvelCandidate::new`
unfoldable pub new_candidate : Filename → List Bytes → Option ExecvelCandidate
new_candidate filename [] = none
new_candidate filename (path ∷ paths) =
    if refuses (length filename.filename) (path ∷ paths)
    then none
    else some (record { file = filename; paths = path ∷ paths })

-- `ExecvelCandidate::get_filename` and `get_paths`
unfoldable pub get_filename : ExecvelCandidate → Filename
get_filename self = self.file

unfoldable pub get_paths : ExecvelCandidate → List Bytes
get_paths self = self.paths

pub record FexecvelCandidate : Type 0 where
  pub fd_file : Filename
  pub fd_paths : List FdPath

-- `FexecvelCandidate::new`
unfoldable pub new_fd_candidate : Filename → List FdPath → Option FexecvelCandidate
new_fd_candidate filename [] = none
new_fd_candidate filename (path ∷ paths) =
    some (record { fd_file = filename; fd_paths = path ∷ paths })

-- `FexecvelCandidate::get_filename` and `get_paths`
unfoldable pub get_fd_filename : FexecvelCandidate → Filename
get_fd_filename self = self.fd_file

unfoldable pub get_fd_paths : FexecvelCandidate → List FdPath
get_fd_paths self = self.fd_paths
