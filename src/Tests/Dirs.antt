-- ===== src/Tests/Dirs.antt =====
-- The theorem on the directories of `test_fexecvel` in src/syscall.rs at a concrete input.
use avfork.Base.{refl, true, List, [], ◌∷◌, arith}
use avfork.Base.Int.{ℤ, pos, negsuc}
use avfork.Outcome.{SyscallError}
use avfork.Kernel.{Kernel, Bytes}
use avfork.Programs.Forked.{ProcessLib, test_fexecvel}
use avfork.Programs.Forked.Closes.{OpensOne, DirLaws}
use avfork.Programs.Forked.Closes.Dirs.{test_fexecvel-UnwindsIn}
use avfork.Programs.Rounds.{Same}
use avfork.Programs.Unwind.{UnwindsIn}
use avfork.Tests.Boxes.{close_one, close_one-count}
use avfork.Tests.World.{idle_kernel}

-- The world is the table of open descriptors, which has room for one.
abbrev open_only : List ℤ → ℤ × List ℤ
open_only [] = (pos 0, pos 0 ∷ [])
open_only (fd ∷ fds) = (negsuc 23, fd ∷ fds)

abbrev one_place : Kernel (List ℤ)
one_place = record (idle_kernel true) {
  psys_openat = λ dirfd path flags mode w. open_only w;
  psys_close = λ fd w. (pos 0, close_one fd w);
}

abbrev no_child : ProcessLib (List ℤ)
no_child = record {
  fork = λ child w. (pos 7, w);
  waitpid = λ pid w. (pos 7, pos 0, w);
  wexitstatus = λ status. status;
}

open_only-OpensOne : (w : List ℤ) → OpensOne one_place no_child (λ fds. fds) w (open_only w)
open_only-OpensOne [] = (omega arith, refl)
open_only-OpensOne (fd ∷ fds) = (omega arith, refl)

one_place-DirLaws : DirLaws one_place no_child (λ fds. fds)
one_place-DirLaws = record {
  opens = λ dir path flags mode w. open_only-OpensOne w;
  forks = λ child w. refl;
  waits = λ pid w. refl;
  closes = λ fd w h. (0, close_one fd w, refl, λ x. close_one-count fd w x h);
}

abbrev unsaid : SyscallError → List Bytes
unsaid e = []

-- The second directory is not opened.
test_fexecvel-UnwindsIn_example :
    UnwindsIn (Same (λ fds. fds) []) (test_fexecvel one_place no_child 5 unsaid (λ b. []) [])
test_fexecvel-UnwindsIn_example =
    test_fexecvel-UnwindsIn one_place no_child (λ fds. fds) one_place-DirLaws 5 unsaid (λ b. []) []
