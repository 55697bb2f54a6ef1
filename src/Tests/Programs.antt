-- ===== src/Tests/Programs.antt =====
-- The theorems on the programs of the repository at concrete inputs.
use avfork.Base.{
  ℕ, ◌+◌, ◌≤◌, ◌≡◌, refl, sym, ap, subst, ◌∙◌, append-nil, take, length, true, List, [], ◌∷◌, ◌++◌,
  none, codes, arith,
}
use avfork.Base.Int.{ℤ, pos, negsuc, IsI32}
use avfork.Outcome.{SyscallError, ok, panicked}
use avfork.Kernel.{Kernel, Bytes}
use avfork.Syscall.Io.WriteAll.{WriteLaws}
use avfork.Syscall.Fd.{Fd}
use avfork.Lowlevel.Fork.{SpawnLib}
use avfork.Lowlevel.Alloc.{Memory}
use avfork.Lowlevel.Fork.{ChildFn}
use avfork.Programs.{
  Console, return_callback, cd_exec_callback, test_callback, with_stack, fork_rounds, fork_round,
  round_on, reserve_or_panic, boxed_or_panic, pinned, await_child,
}
use avfork.Error.{to_result}
use avfork.Lowlevel.Stack.{reserve, new_allocator, new_stack_t, drop_stack}
use avfork.Lowlevel.Alloc.{alloc_obj, rounded_size, add_usize, write_obj, deref}
use avfork.Lowlevel.Fork.{avfork_call, aspawn_fn}
use avfork.Syscall.Fd.{box_from_raw, drop_box}
use avfork.Syscall.Io.{read}
use avfork.Utility.{release, expect_fmt}
use avfork.Programs.Allocating.{test_stack_reserve, test_stack_impossible_alloc}
use avfork.Programs.Allocating.Passes.{ReserveLaws, test_stack_done}
use avfork.Lowlevel.Alloc.Boxes.{BumpLaws}
use avfork.Programs.Child.{Enough, CdLeaves, cd_exec_callback-CdLeaves}
use avfork.Programs.Rounds.{Same, ForkLaws}
use avfork.Programs.Rounds.Run.{test_callback_lem}
use avfork.Programs.Unwind.{UnwindsIn}
use avfork.Programs.Unwind.Calls.{FailLaws}
use avfork.Programs.Unwind.Rounds.{test_callback-UnwindsIn}
use avfork.Tests.Boxes.{close_one, close_one-count}
use avfork.Tests.Stacks.{bump}
use avfork.Tests.World.{idle_kernel}

-- The world is what STDERR shows; a write takes one byte. No program can be executed.
abbrev put_byte : Bytes → Bytes → ℤ × Bytes
put_byte shown [] = (pos 0, shown)
put_byte shown (b ∷ bs) = (pos 1, shown ++ b ∷ [])

abbrev no_programs : Kernel Bytes
no_programs = record (idle_kernel true) {
  psys_write = λ fd buf w. put_byte w buf;
  psys_execve = λ path argv envp w. (ok (negsuc 1), w);
}

put_byte-IsI32 : (shown buf : Bytes) → IsI32 (put_byte shown buf).0
put_byte-IsI32 shown [] = omega arith
put_byte-IsI32 shown (b ∷ bs) = omega arith

byte_put :
    (shown buf w' : Bytes) (n : ℕ)
    → put_byte shown buf ≡ (pos n, w')
    → (n ≤ length buf) × (w' ≡ shown ++ take n buf) × (0 ≤ 0)
byte_put shown [] w' n e =
    let count : 0 ≡ n = ground arith in
    subst (λ k. (k ≤ 0) × (w' ≡ shown ++ take k []) × (0 ≤ 0)) count
      (omega arith, sym (append-nil shown ∙ ap (λ p. p.1) e), omega arith)
byte_put shown (b ∷ bs) w' n e =
    let count : 1 ≡ n = ground arith in
    subst (λ k. (k ≤ length (b ∷ bs)) × (w' ≡ shown ++ take k (b ∷ bs)) × (0 ≤ 0)) count
      (omega arith, sym (ap (λ p. p.1) e), omega arith)

never_refused :
    {P : Type 0} (shown buf w' : Bytes) (n : ℕ) → put_byte shown buf ≡ (negsuc n, w') → P
never_refused shown [] w' n e = ground arith
never_refused shown (b ∷ bs) w' n e = ground arith

no_programs-WriteLaws : WriteLaws no_programs (pos 2) (λ w. w) (λ w. 0)
no_programs-WriteLaws = record {
  is_int = λ buf w. put_byte-IsI32 w buf;
  accepted = λ buf w w' n e. byte_put w buf w' n e;
  refused = λ buf w w' n e. never_refused w buf w' n e;
  interrupted = λ buf w w' n e q. never_refused w buf w' n e;
}

abbrev short : SyscallError → List Bytes
short e = codes "Errno" ∷ []

short-Enough : (v : Bytes) → Enough no_programs (λ w. w) (λ w. 0) no_programs-WriteLaws short 20 v
short-Enough v e = (
  (omega arith, (omega arith, (omega arith, (omega arith, tt)))),
  (omega arith, (omega arith, (omega arith, (omega arith, (omega arith, tt))))),
)

abbrev pipe_end : Fd
pipe_end = record { fd = pos 4 }

-- chdir works, and execve answers ENOENT.
cd_exec_callback-CdLeaves_example :
    CdLeaves no_programs
      (λ w. w)
      (λ w. 0)
      no_programs-WriteLaws
      short
      20
      (no_programs.psys_chdir (codes "/tmp") (codes "$ "))
      (cd_exec_callback no_programs 20 short pipe_end 0 (codes "$ "))
cd_exec_callback-CdLeaves_example =
    cd_exec_callback-CdLeaves no_programs (λ w. w) (λ w. 0) no_programs-WriteLaws short 20 pipe_end
      0 (codes "$ ") (omega arith) (omega arith) (short-Enough (codes "$ "))
      (short-Enough (codes "$ "))

-- The world is the table of open descriptors; each fork opens the descriptor 9.
abbrev pipes : Kernel (List ℤ)
pipes = record (idle_kernel true) { psys_close = λ fd w. (pos 0, close_one fd w) }

abbrev nine : SpawnLib (List ℤ)
nine = record {
  aspawn = λ pid stack callback w. (pos 9, pos 77, pos 9 ∷ w);
  aspawn_rec = λ pid stack callback old_sigset w. (pos 9, pos 77, pos 9 ∷ w);
}

abbrev silent : Console (List ℤ)
silent = record {
  println = λ text w. (ok tt, w);
  error_format = short;
  box_format = λ b. [];
  stack_format = λ s. [];
}

nine-ForkLaws : ForkLaws pipes bump nine silent (λ fds. fds) (λ fd w. Unit) return_callback
nine-ForkLaws = record {
  prints = λ text w. (w, refl, refl, λ fd g. g);
  reserves = λ s a b w. (0, record { addr = 4096; size = a + b }, w, refl, refl);
  forks = λ s w. (9, pos 77, pos 9 ∷ w, refl, omega arith, refl, tt);
  reads_end = λ fd w g. ([], w, refl, refl);
  closes = λ fd w h. (0, close_one fd w, refl, λ x. close_one-count fd w x h);
  cleans = λ s w. (0, w, refl, refl);
}

abbrev unwritten : Memory (ChildFn (List ℤ))
unwritten i = none

abbrev standard : List ℤ
standard = pos 0 ∷ pos 1 ∷ pos 2 ∷ []

test_callback_lem_example :
    (w' : List ℤ) × (test_callback pipes bump nine silent 5
        (λ a. λ w. (ok tt, w))
        8
        24
        return_callback
        unwritten
        standard
      ≡ (ok tt, w'))
    × Same (λ fds. fds) standard w'
test_callback_lem_example =
    test_callback_lem pipes bump nine silent (λ fds. fds) (λ fd w. Unit) return_callback
      nine-ForkLaws 5 (λ a w. (ok tt, w)) 8 24 unwritten standard (λ a v. (v, refl, refl))
      (omega arith) (omega arith) (omega arith)

-- Every read from a pipe fails, with EIO: the first round panics, and the pipe is closed.
abbrev broken_pipes : Kernel (List ℤ)
broken_pipes = record (idle_kernel true) {
  psys_close = λ fd w. (pos 0, close_one fd w);
  psys_read = λ fd n w. (negsuc 4, [], w);
}

broken_pipes-FailLaws : FailLaws broken_pipes bump nine silent (λ fds. fds) return_callback
broken_pipes-FailLaws = record {
  prints = λ text w. (tt, refl);
  reserves = λ s a b w. refl;
  forks = λ s w. (omega arith, refl);
  reads = λ fd n w. refl;
  closes = λ fd w h. (0, close_one fd w, refl, λ x. close_one-count fd w x h);
  cleans = λ s w. (0, w, refl, refl);
}

test_callback-UnwindsIn_example : UnwindsIn (Same (λ fds. fds) standard) (
    test_callback broken_pipes bump nine silent 5
      (λ a. λ w. (ok tt, w))
      8
      24
      return_callback
      unwritten
      standard)
test_callback-UnwindsIn_example =
    test_callback-UnwindsIn broken_pipes bump nine silent (λ fds. fds) return_callback
      broken_pipes-FailLaws 5 (λ a w. (ok tt, w)) 8 24 unwritten standard (λ a v. (tt, refl))

-- The run ends in a panic.
broken_pipes_panic :
    (test_callback broken_pipes bump nine silent 5
      (λ a. λ w. (ok tt, w))
      8
      24
      return_callback
      unwritten
      standard)
    ≡ (panicked, standard)
unfolding test_callback with_stack fork_rounds fork_round round_on reserve_or_panic reserve
    new_allocator new_stack_t to_result alloc_obj rounded_size add_usize boxed_or_panic pinned
    write_obj deref avfork_call aspawn_fn box_from_raw await_child read drop_box drop_stack release
    expect_fmt
broken_pipes_panic = refl

pipes-BumpLaws : BumpLaws {W = List ℤ} bump
pipes-BumpLaws = record {
  base_kept = λ s n. refl;
  size_lowered = λ s n h. omega arith;
  above_free = λ s n h. refl;
}

pipes-ReserveLaws : ReserveLaws pipes bump nine silent
pipes-ReserveLaws = record {
  reserves = λ s a b w. (0, record { addr = 4096; size = a + b }, w, refl, omega arith);
  cleans = λ s w. (0, w, refl);
}

abbrev no_values : Memory ℕ
no_values i = none

test_stack_done_example :
    ((w' : List ℤ) × (test_stack_reserve pipes bump nine silent 5 no_values standard ≡ (ok tt, w')))
    × ((w' : List ℤ) × (test_stack_impossible_alloc pipes bump nine silent 5 no_values standard
          ≡ (ok tt, w')))
test_stack_done_example =
    test_stack_done pipes bump nine silent 5 no_values standard pipes-BumpLaws pipes-ReserveLaws
