-- ===== src/Syscall/Flags/Access.antt =====
-- The access mode in the flags that src/syscall.rs hands to the kernel.
use avfork.Base.{
  ℕ, ◌%◌, ◌≡◌, refl, ◌∙◌, Bool, true, false, List, [], ◌∷◌, arith, bit_or, if◌then◌else◌,
}
use avfork.Base.Bits.{bit_or_mod4, bit_or_mod4_right}
use avfork.Kernel.{Libc}
use avfork.Syscall.Flags.{
  AccessMode, read_only, write_only, read_write, access_bits, FdFlag, fd_flags, openat_flags,
  creatat_flags,
}

-- The access mode is in the two lowest bits (open(2)); the other constants leave these alone.
pub record AccessLaws (libc : Libc) (values : FdFlag → ℕ) : Type 0 where
  pub rdonly_is : libc.o_rdonly ≡ 0
  pub wronly_is : libc.o_wronly ≡ 1
  pub rdwr_is : libc.o_rdwr ≡ 2
  pub excl_apart : libc.o_excl % 4 ≡ 0
  pub creat_apart : libc.o_creat % 4 ≡ 0
  pub tmpfile_apart : libc.o_tmpfile % 4 ≡ 0
  pub flags_apart : (f : FdFlag) → values f % 4 ≡ 0

-- The bits in which the kernel looks for the access mode.
abbrev pub access_of : ℕ → ℕ
access_of flags = flags % 4

module _ (libc : Libc) (values : FdFlag → ℕ) (laws : AccessLaws libc values) where
  fd_flags_apart : (fs : List FdFlag) → fd_flags values fs % 4 ≡ 0
  unfolding fd_flags
  fd_flags_apart [] = refl
  fd_flags_apart (f ∷ fs) =
      bit_or_mod4 (values f) (fd_flags values fs) (laws.flags_apart f) ∙ fd_flags_apart fs

  opens_as :
      (acc : AccessMode) (flags : ℕ)
      → flags % 4 ≡ 0
      → access_of (openat_flags libc acc flags) ≡ access_bits libc acc
  unfolding openat_flags access_bits
  opens_as read_only flags h =
      omega (arith, bit_or_mod4_right libc.o_rdonly flags h, laws.rdonly_is)
  opens_as write_only flags h =
      omega (arith, bit_or_mod4_right libc.o_wronly flags h, laws.wronly_is)
  opens_as read_write flags h = omega (arith, bit_or_mod4_right libc.o_rdwr flags h, laws.rdwr_is)

  with_excl :
      (exclusive : Bool) (flags : ℕ)
      → flags % 4 ≡ 0
      → (if exclusive then bit_or flags libc.o_excl else flags) % 4 ≡ 0
  with_excl true flags h = bit_or_mod4 flags libc.o_excl h ∙ laws.excl_apart
  with_excl false flags h = h

  with_access :
      (readable : Bool) (flags : ℕ)
      → flags % 4 ≡ 0
      → (if readable then bit_or flags libc.o_rdwr else bit_or flags libc.o_wronly) % 4
        ≡ (if readable then 2 else 1)
  with_access true flags h = omega (arith, bit_or_mod4 flags libc.o_rdwr h, laws.rdwr_is)
  with_access false flags h = omega (arith, bit_or_mod4 flags libc.o_wronly h, laws.wronly_is)

  creates_as :
      (readable : Bool) (flags : ℕ) (tmpfile exclusive : Bool)
      → flags % 4 ≡ 0
      → access_of (creatat_flags libc readable flags tmpfile exclusive)
        ≡ (if readable then 2 else 1)
  unfolding creatat_flags
  creates_as readable flags true exclusive h =
      bit_or_mod4_right _ libc.o_tmpfile laws.tmpfile_apart
      ∙ with_access readable _ (with_excl exclusive flags h)
  creates_as readable flags false exclusive h =
      bit_or_mod4_right _ libc.o_creat laws.creat_apart
      ∙ with_access readable _ (with_excl exclusive flags h)

  -- Whatever constants of `FdFlags` a caller combines, the access mode that the kernel finds in the
  -- flags of `openat` is the caller's, and in those of `creatat` reading and writing where the file
  -- is to be readable and writing otherwise, temporary and exclusive files included. The constants
  -- of libc have the bits that `AccessLaws` says.
  pub access_kept :
      (acc : AccessMode) (fs : List FdFlag) (readable tmpfile exclusive : Bool)
      → (access_of (openat_flags libc acc (fd_flags values fs)) ≡ access_bits libc acc)
        × (access_of (creatat_flags libc readable (fd_flags values fs) tmpfile exclusive)
            ≡ access_bits libc (if readable then read_write else write_only))
  unfolding access_bits
  access_kept acc fs true tmpfile exclusive = (
    opens_as acc _ (fd_flags_apart fs),
    omega (arith, creates_as true _ tmpfile exclusive (fd_flags_apart fs), laws.rdwr_is),
  )
  access_kept acc fs false tmpfile exclusive = (
    opens_as acc _ (fd_flags_apart fs),
    omega (arith, creates_as false _ tmpfile exclusive (fd_flags_apart fs), laws.wronly_is),
  )
