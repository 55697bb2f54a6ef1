-- ===== src/Syscall/Flags/ModeBits.antt =====
-- The bits of the flag words that src/syscall.rs hands to the kernel.
use Prim.Native.Nat.{max}
use avfork.Base.{ℕ, ◌%◌, ◌≡◌, refl, ◌↔◌, Bool, true, false, arith, bit_or, if◌then◌else◌}
use avfork.Base.Bits.{test_bit, test_bit-bit_or}
use avfork.Kernel.{Libc}
use avfork.Syscall.Flags.{
  ModeFlag, s_irwxu, s_irusr, s_iwusr, s_ixusr, s_irwxg, s_irgrp, s_iwgrp, s_ixgrp, s_irwxo,
  s_iroth, s_iwoth, s_ixoth, s_isuid, s_isgid, s_isvtx, mode_bits, creatat_flags,
}

-- The octal values that inode(7) gives for these names.
abbrev pub documented_bits : ModeFlag → ℕ
documented_bits s_irwxu = 0o700
documented_bits s_irusr = 0o400
documented_bits s_iwusr = 0o200
documented_bits s_ixusr = 0o100
documented_bits s_irwxg = 0o070
documented_bits s_irgrp = 0o040
documented_bits s_iwgrp = 0o020
documented_bits s_ixgrp = 0o010
documented_bits s_irwxo = 0o007
documented_bits s_iroth = 0o004
documented_bits s_iwoth = 0o002
documented_bits s_ixoth = 0o001
documented_bits s_isuid = 0o4000
documented_bits s_isgid = 0o2000
documented_bits s_isvtx = 0o1000

-- The permissions of others.
abbrev pub is_other : ModeFlag → Bool
is_other s_irwxo = true
is_other s_iroth = true
is_other s_iwoth = true
is_other s_ixoth = true
is_other s_irwxu = false
is_other _ = false

-- A constant of `Mode` has the value that its name stands for exactly if it is one of the four for
-- others: the values are hexadecimal where the documented ones are octal.
pub mode_bits-documented : (f : ModeFlag) → (mode_bits f ≡ documented_bits f) ↔ (is_other f ≡ true)
unfolding mode_bits
mode_bits-documented s_irwxo = ground arith
mode_bits-documented f = ground arith

-- A bit is set in the flags of `creatat` exactly if it is set in the caller's flags, in O_EXCL
-- where the call is exclusive, in O_RDWR or else O_WRONLY, or in O_TMPFILE or else O_CREAT.
pub test_bit-creatat_flags :
    (libc : Libc) (readable : Bool) (flags : ℕ) (tmpfile exclusive : Bool) (i : ℕ)
    → test_bit (creatat_flags libc readable flags tmpfile exclusive) i
      ≡ max (test_bit flags i) (
          max (if exclusive then test_bit libc.o_excl i else 0) (
            max
              (test_bit (if readable then libc.o_rdwr else libc.o_wronly) i)
              (test_bit (if tmpfile then libc.o_tmpfile else libc.o_creat) i)))
unfolding creatat_flags
test_bit-creatat_flags libc true flags true true i = simp test_bit-bit_or (omega arith)
test_bit-creatat_flags libc true flags true false i = simp test_bit-bit_or (omega arith)
test_bit-creatat_flags libc true flags false true i = simp test_bit-bit_or (omega arith)
test_bit-creatat_flags libc true flags false false i = simp test_bit-bit_or (omega arith)
test_bit-creatat_flags libc false flags true true i = simp test_bit-bit_or (omega arith)
test_bit-creatat_flags libc false flags true false i = simp test_bit-bit_or (omega arith)
test_bit-creatat_flags libc false flags false true i = simp test_bit-bit_or (omega arith)
test_bit-creatat_flags libc false flags false false i = simp test_bit-bit_or (omega arith)

-- The mode that asks for some of the owner's three permissions.
abbrev pub owner_mode : Bool → Bool → Bool → ℕ
unfolding mode_bits
owner_mode reads writes runs =
    bit_or
      (bit_or (if reads then mode_bits s_irusr else 0) (if writes then mode_bits s_iwusr else 0))
      (if runs then mode_bits s_ixusr else 0)

-- Of the nine permission bits, a mode made from the owner's constants grants the owner's read
-- permission if it asks for the execute permission, and nothing else.
pub owner_mode_grants :
    (reads writes runs : Bool)
    → owner_mode reads writes runs % 0o1000 ≡ (if runs then documented_bits s_irusr else 0)
unfolding mode_bits
owner_mode_grants true true true = refl
owner_mode_grants true true false = refl
owner_mode_grants true false true = refl
owner_mode_grants true false false = refl
owner_mode_grants false true true = refl
owner_mode_grants false true false = refl
owner_mode_grants false false true = refl
owner_mode_grants false false false = refl
