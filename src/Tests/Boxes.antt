-- ===== src/Tests/Boxes.antt =====
-- The theorem on the boxes of src/syscall.rs at a concrete input.
use avfork.Base.{
  ℕ, suc, ◌+◌, ◌^◌, ◌<◌, ◌≤◌, ◌≡◌, refl, true, List, [], ◌∷◌, arith, ltb, codes, inl, inr,
  Bool-cases, if◌then◌else◌,
}
use avfork.Base.Int.{ℤ, pos, negsuc, pos_part, eqb_ℤ, eqb_ℤ_iff}
use avfork.Kernel.{Kernel}
use avfork.Syscall.Flags.{read_only}
use avfork.Syscall.Fd.{FdPath}
use avfork.Syscall.Fd.Ownership.{
  OpenCall, opens, creates, opens_path, dups, dups_path, dup3s, dup3s_path, open_raw,
}
use avfork.Syscall.Fd.Table.{one, count, BoxOp, opens_box, makes_pipe, drops, BoxFormats, run_boxes}
use avfork.Syscall.Fd.Table.Owned.{
  IsPlain, OpenAnswer, opened, refused, piped, TableLaws, EndsOwning, run_boxes-Owns,
}
use avfork.Tests.World.{idle_kernel}

-- A number above every open descriptor.
abbrev next_fd : List ℤ → ℕ
next_fd [] = 0
next_fd (fd ∷ fds) = suc (pos_part fd) + next_fd fds

abbrev open_next : List ℤ → ℤ × List ℤ
open_next fds =
    if ltb (next_fd fds) (2 ^ 31)
    then (pos (next_fd fds), pos (next_fd fds) ∷ fds)
    else (negsuc 23, fds)

abbrev open_two : List ℤ → ℤ × (ℤ × ℤ) × List ℤ
open_two fds = (
  pos 0,
  (pos (next_fd fds), pos (suc (next_fd fds))),
  pos (next_fd fds) ∷ pos (suc (next_fd fds)) ∷ fds,
)

abbrev pub close_one : ℤ → List ℤ → List ℤ
close_one fd [] = []
close_one fd (x ∷ fds) = if eqb_ℤ x fd then fds else x ∷ close_one fd fds

-- A world that is the table of open descriptors.
abbrev fd_table : Kernel (List ℤ)
fd_table = record (idle_kernel true) {
  psys_openat = λ dirfd path flags mode w. open_next w;
  psys_dup = λ oldfd w. open_next w;
  psys_pipe2 = λ fds flag w. open_two w;
  psys_close = λ fd w. (pos 0, close_one fd w);
}

next_fd-count : (n : ℕ) (fds : List ℤ) → next_fd fds ≤ n → count (pos n) fds ≡ 0
next_fd-count n [] h = refl
next_fd-count n (pos m ∷ fds) h =
    let rest : count (pos n) fds ≡ 0 = next_fd-count n fds (omega arith) in ground arith
next_fd-count n (negsuc m ∷ fds) h = omega (arith, next_fd-count n fds (omega arith))

pub close_one-count :
    (fd : ℤ) (fds : List ℤ) (x : ℤ)
    → 0 < count fd fds
    → one x fd + count x (close_one fd fds) ≡ count x fds
close_one-count fd [] x h = omega arith
close_one-count fd (y ∷ fds) x h = elim (Bool-cases (eqb_ℤ y fd)) [
  | inl same ↦ rw (same, (eqb_ℤ_iff y fd).0 same) refl
  | inr other ↦
      let some_left : 0 < count fd fds = ground arith in
      rw other (omega (arith, close_one-count fd fds x some_left))
]

open_next-Answer : (w : List ℤ) → OpenAnswer fd_table (λ fds. fds) w (open_next w)
open_next-Answer w = elim (Bool-cases (ltb (next_fd w) (2 ^ 31))) [
  | inl room ↦ rw room (
      opened (next_fd w) (pos (next_fd w) ∷ w) (ground arith)
        (next_fd-count (next_fd w) w (omega arith)) refl)
  | inr full ↦ rw full (refused 23 w (omega arith) refl)
]

fd_table-TableLaws : TableLaws fd_table (λ fds. fds)
fd_table-TableLaws = record {
  opens_fresh = answer;
  pipes_fresh = λ flag w.
      piped 0 (pos (next_fd w)) (pos (suc (next_fd w))) (open_two w).2
        (next_fd-count (next_fd w) w (omega arith))
        (next_fd-count (suc (next_fd w)) w (omega arith)) (ground arith) refl;
  closes = λ fd w h. (0, close_one fd w, refl, λ x. close_one-count fd w x h);
}
  where
    answer :
        (c : OpenCall) (w : List ℤ)
        → IsPlain (opens_box c)
        → OpenAnswer fd_table (λ fds. fds) w (open_raw fd_table c w)
    answer (opens dir path acc flags) w plain = open_next-Answer w
    answer (creates dir path a flags b c mode) w plain = open_next-Answer w
    answer (opens_path dir path mode cloexec) w plain = open_next-Answer w
    answer (dups fd) w plain = open_next-Answer w
    answer (dups_path fd) w plain = open_next-Answer w
    answer (dup3s fd newfd flags) w plain = elim plain [ ]
    answer (dup3s_path fd newfd flags) w plain = elim plain [ ]

abbrev formats : BoxFormats
formats = record { error_text = λ e. []; box_text = λ b. []; path_box_text = λ b. [] }

abbrev etc : FdPath
etc = record { path_fd = pos 2 }

-- An open, a duplicate and a pipe, then the drops of the duplicate and of an end of the pipe.
abbrev some_ops : List BoxOp
some_ops =
    opens_box (opens etc (codes "fstab") read_only 0)
    ∷ opens_box (dups_path etc)
    ∷ makes_pipe 0
    ∷ drops 2
    ∷ drops 0
    ∷ []

run_boxes-Owns_example :
    EndsOwning fd_table
      (λ fds. fds)
      (pos 0 ∷ pos 1 ∷ pos 2 ∷ [])
      (run_boxes fd_table formats 9 some_ops [] (pos 0 ∷ pos 1 ∷ pos 2 ∷ []))
run_boxes-Owns_example =
    run_boxes-Owns fd_table (λ fds. fds) fd_table-TableLaws formats 9 (pos 0 ∷ pos 1 ∷ pos 2 ∷ [])
      some_ops [] (pos 0 ∷ pos 1 ∷ pos 2 ∷ []) (tt, (tt, (tt, (tt, (tt, tt)))))
      (record { balanced = λ x. omega arith; distinct = at_most_one })
  where
    at_most_one : (x : ℤ) → count x (pos 0 ∷ pos 1 ∷ pos 2 ∷ []) ≤ 1
    at_most_one x = ground arith
