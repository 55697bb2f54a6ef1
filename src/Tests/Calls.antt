-- ===== src/Tests/Calls.antt =====
-- The theorems on the system calls of src/syscall.rs and on src/utility.rs at concrete inputs.
use avfork.Base.{
  ℕ, zero, suc, ◌+◌, ◌<◌, ◌≤◌, ◌≡◌, ◌↔◌, refl, sym, ap, subst, append-nil, take, true, false, List,
  [], ◌∷◌, ◌++◌, arith, length, codes,
}
use avfork.Base.Int.{ℤ, pos, negsuc, IsI32}
use avfork.Outcome.{ok, err, SyscallError, Sys}
use avfork.Kernel.{Kernel, Bytes}
use avfork.Syscall.Raw.Results.{Reports}
use avfork.Syscall.Io.{write_all}
use avfork.Syscall.Io.WriteAll.{WriteLaws, Written, write_all-Written}
use avfork.Syscall.Flags.{read_only}
use avfork.Syscall.Fd.{FdBox, FdPath}
use avfork.Syscall.Fd.Ownership.{box_up, opens, open_call, open_call-Reports}
use avfork.Lowlevel.Stack.Drops.{fd_box, Formats, drop_owned, what_failed, drop_owned-Released}
use avfork.Utility.Release.{Released}
use avfork.Tests.Stacks.{bump}
use avfork.Syscall.Restart.{autorestart, Restarts, autorestart_iff}
use avfork.Utility.{fatal_text, errx_impl}
use avfork.Utility.Fatal.{Exits, errx_impl-Exits}
use avfork.Tests.World.{idle_kernel}

-- The kernel answers the number of the call.
abbrev opening : Kernel ℕ
opening = record (idle_kernel true) { psys_openat = λ dirfd path flags mode w. (pos w, w + 1) }

abbrev root_dir : FdPath
root_dir = record { path_fd = pos 4 }

open_call-Reports_example :
    Reports
      (pos 7)
      (λ n. box_up false (pos n))
      (open_call opening (opens root_dir (codes "etc") read_only 0) 7).0
    × ((open_call opening (opens root_dir (codes "etc") read_only 0) 7).1 ≡ 8)
open_call-Reports_example =
    open_call-Reports opening (opens root_dir (codes "etc") read_only 0) (pos 7) 7 8 refl
      (omega arith)

-- A terminal: what it shows, and how often a write is still interrupted. A write takes one byte.
pub record Terminal : Type 0 where
  pub shown : Bytes
  pub signals : ℕ

abbrev write_byte : Bytes → ℕ → Bytes → ℤ × Terminal
write_byte shown (suc n) buf = (negsuc 3, record { shown = shown; signals = n })
write_byte shown zero [] = (pos 0, record { shown = shown; signals = 0 })
write_byte shown zero (b ∷ bs) = (pos 1, record { shown = shown ++ b ∷ []; signals = 0 })

abbrev pub terminal : Kernel Terminal
terminal = record (idle_kernel true) {
  psys_write = λ fd buf w. write_byte w.shown w.signals buf;
  psys_close = λ fd w. (negsuc 8, w);
}

write_byte-IsI32 : (shown : Bytes) (n : ℕ) (buf : Bytes) → IsI32 (write_byte shown n buf).0
write_byte-IsI32 shown (suc n) buf = omega arith
write_byte-IsI32 shown zero [] = omega arith
write_byte-IsI32 shown zero (b ∷ bs) = omega arith

byte_accepted :
    (shown : Bytes) (i : ℕ) (buf : Bytes) (w' : Terminal) (n : ℕ)
    → write_byte shown i buf ≡ (pos n, w')
    → (n ≤ length buf) × (w'.shown ≡ shown ++ take n buf) × (w'.signals ≤ i)
byte_accepted shown (suc i) buf w' n e = ground arith
byte_accepted shown zero [] w' n e =
    let count : 0 ≡ n = ground arith in
    subst (λ k. (k ≤ 0) × (w'.shown ≡ shown ++ take k []) × (w'.signals ≤ 0)) count
      (subst (λ v. (0 ≤ 0) × (v.shown ≡ shown ++ []) × (v.signals ≤ 0)) (ap (λ p. p.1) e)
        (omega arith, sym (append-nil shown), omega arith))
byte_accepted shown zero (b ∷ bs) w' n e =
    let count : 1 ≡ n = ground arith in
    subst (λ k. (k ≤ length (b ∷ bs)) × (w'.shown ≡ shown ++ take k (b ∷ bs)) × (w'.signals ≤ 0))
      count
      (subst (λ v. (1 ≤ length (b ∷ bs)) × (v.shown ≡ shown ++ b ∷ []) × (v.signals ≤ 0))
        (ap (λ p. p.1) e) (omega arith, refl, omega arith))

byte_refused :
    (shown : Bytes) (i : ℕ) (buf : Bytes) (w' : Terminal) (n : ℕ)
    → write_byte shown i buf ≡ (negsuc n, w')
    → (w'.shown ≡ shown) × (w'.signals < i)
byte_refused shown (suc i) buf w' n e =
    subst (λ v. (v.shown ≡ shown) × (v.signals < suc i)) (ap (λ p. p.1) e) (refl, omega arith)
byte_refused shown zero [] w' n e = ground arith
byte_refused shown zero (b ∷ bs) w' n e = ground arith

pub terminal-WriteLaws : (fd : ℤ) → WriteLaws terminal fd (λ w. w.shown) (λ w. w.signals)
terminal-WriteLaws fd = record {
  is_int = λ buf w. write_byte-IsI32 w.shown w.signals buf;
  accepted = λ buf w w' n e. byte_accepted w.shown w.signals buf w' n e;
  refused = λ buf w w' n e.
      let (same, fewer) = byte_refused w.shown w.signals buf w' n e in (same, omega arith);
  interrupted = λ buf w w' n e q. (byte_refused w.shown w.signals buf w' n e).1;
}

-- Three interruptions, then a byte at a time.
abbrev pub busy : Terminal
busy = record { shown = codes "$ "; signals = 3 }

write_all-Written_example :
    Written terminal
      (pos 1)
      (λ w. w.shown)
      (λ w. w.signals)
      (terminal-WriteLaws (pos 1))
      busy
      (codes "date")
      (write_all terminal 8 (pos 1) (codes "date") busy)
write_all-Written_example =
    write_all-Written terminal (pos 1) (λ w. w.shown) (λ w. w.signals) (terminal-WriteLaws (pos 1))
      8 (codes "date") busy (omega arith)

errx_impl-Exits_example :
    Exits terminal
      (λ w. w.shown)
      (λ w. w.signals)
      (terminal-WriteLaws (pos 2))
      {A = ℕ}
      (pos 3)
      (fatal_text (codes "bad" ∷ []))
      busy
      (errx_impl terminal 20 (pos 3) (codes "bad" ∷ []) busy)
errx_impl-Exits_example =
    errx_impl-Exits terminal (λ w. w.shown) (λ w. w.signals) (terminal-WriteLaws (pos 2)) 20 (pos 3)
      (codes "bad" ∷ []) busy (omega arith, (omega arith, (omega arith, tt)))

abbrev show_error : SyscallError → List Bytes
show_error e = codes "EBADF" ∷ []

abbrev show_box : FdBox → List Bytes
show_box b = codes "FdBox { fd: Fd { fd: 5 } }" ∷ []

abbrev closed_twice : FdBox
closed_twice = record { boxed = record { fd = pos 5 } }

abbrev texts : Formats
texts = record {
  show_error = show_error;
  show_box = show_box;
  show_path_box = λ b. [];
  show_stack = λ s. [];
}

drop_owned-Released_example :
    Released terminal
      (λ w. w.shown)
      (λ w. w.signals)
      (terminal-WriteLaws (pos 2))
      (negsuc 8)
      show_error
      (what_failed terminal bump texts (fd_box closed_twice))
      busy
      (drop_owned terminal bump texts 40 (fd_box closed_twice) busy)
drop_owned-Released_example =
    drop_owned-Released terminal bump texts (λ w. w.shown) (λ w. w.signals)
      (terminal-WriteLaws (pos 2)) 40 (fd_box closed_twice) (negsuc 8) busy busy refl (omega arith)
      (λ e. (
        omega arith,
        (omega arith, (omega arith, (omega arith, (omega arith, (omega arith, tt))))),
      ))

-- A call that is interrupted as often as the world says.
abbrev interrupted_call : Sys ℕ ℕ
interrupted_call zero = (ok 7, 0)
interrupted_call (suc n) = (err (record { errno = 4 }), n)

autorestart_iff_example :
    (autorestart 4 interrupted_call 5 3 ≡ (ok 7, 0))
    ↔ ((n : ℕ) × (n < 5) × Restarts 4 interrupted_call 3 n (ok 7, 0))
autorestart_iff_example = autorestart_iff 4 interrupted_call 5 3 (ok 7, 0) (λ e. ground arith)
