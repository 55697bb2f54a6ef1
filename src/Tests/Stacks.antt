-- ===== src/Tests/Stacks.antt =====
-- The theorems on src/lowlevel.rs and src/StacksQueue.rs at concrete inputs.
use avfork.Base.{ℕ, ◌+◌, ◌-◌, ◌≡◌, refl, true, List, [], ◌∷◌, ◌++◌, Option, some, none, All, arith}
use avfork.Base.Int.{pos, negsuc}
use avfork.Outcome.{ok, SyscallError, ◌>>◌}
use avfork.Kernel.{Bytes}
use avfork.Lowlevel.Stack.{StackT, StackLib, Allocator, new_allocator}
use avfork.Lowlevel.Alloc.{Memory, alloc_obj}
use avfork.Lowlevel.Alloc.Rounding.{padding}
use avfork.Lowlevel.Alloc.Accounting.{allocated, alloc_obj-allocated}
use avfork.Lowlevel.Alloc.Boxes.{BumpLaws}
use avfork.Lowlevel.Alloc.Writes.{
  ObjectOp, allocates, assigns, reads, IsSizedOp, run_objects, run_values,
}
use avfork.Lowlevel.Alloc.Writes.Refinement.{run_objects-run_values}
use avfork.Lowlevel.Fork.{ChildFn, SpawnLib}
use avfork.Lowlevel.Fork.Results.{Forked, avfork_recs, fork_call, fork_call-Forked}
use avfork.StacksQueue.{SegQueue}
use avfork.StacksQueue.Fifo.{QueueLaws, put_all, get_many, get_many-put_all}
use avfork.Tests.World.{idle_kernel}

-- Stacks from which bytes are taken at the upper end.
abbrev pub bump : {W : Type 0} → StackLib W
bump = record {
  init_cached_stack = λ s. s;
  reserve_stack = λ s size objs w. (pos 0, record { addr = 4096; size = size + objs }, w);
  cleanup_stack = λ s w. (pos 0, w);
  allocate_obj_on_stack =
      λ s n. (s.addr + (s.size - n), record { addr = s.addr; size = s.size - n });
}

bump-BumpLaws : BumpLaws {W = ℕ} bump
bump-BumpLaws = record {
  base_kept = λ s n. refl;
  size_lowered = λ s n h. omega arith;
  above_free = λ s n h. refl;
}

abbrev page : StackT
page = record { addr = 4096; size = 4096 }

abbrev nothing : Memory ℕ
nothing i = none

abbrev half_full : Allocator
half_full = record { stack_impl = page; alloc_obj_sz = 40; reserved_obj_sz = 64 }

alloc_obj-allocated_example :
    alloc_obj {W = ℕ} true bump 8 13 7 half_full nothing
    ≡ ok (allocated {W = ℕ} true bump (13 + padding 8 13) 13 7 half_full nothing)
alloc_obj-allocated_example =
    alloc_obj-allocated {W = ℕ} true bump 8 13 7 half_full nothing (omega arith) (omega arith)
      (omega arith) (omega arith)

-- Three objects, of which the third is turned down; a value assigned to the oldest and read back.
abbrev object_ops : List (ObjectOp ℕ)
object_ops =
    allocates (record { align = 8; type_size = 13; obj = 1 })
    ∷ allocates (record { align = 4; type_size = 4; obj = 2 })
    ∷ assigns 1 7
    ∷ allocates (record { align = 8; type_size = 16; obj = 3 })
    ∷ reads 1
    ∷ reads 0
    ∷ []

object_ops-IsSizedOp : All IsSizedOp object_ops
object_ops-IsSizedOp = (
  record { aligned = omega arith; not_empty = omega arith; small = omega arith },
  (
    record { aligned = omega arith; not_empty = omega arith; small = omega arith },
    (
      tt,
      (
        record { aligned = omega arith; not_empty = omega arith; small = omega arith },
        (tt, (tt, tt)),
      ),
    ),
  ),
)

run_objects-run_values_example :
    run_objects {W = ℕ} true bump object_ops [] (new_allocator page 32) nothing
    ≡ ok (run_values 32 object_ops [] 0)
run_objects-run_values_example =
    run_objects-run_values {W = ℕ} true bump object_ops page 32 nothing bump-BumpLaws
      object_ops-IsSizedOp (omega arith) (omega arith)

-- The values that are read.
run_values_read : run_values 32 object_ops [] 0 ≡ some 7 ∷ some 2 ∷ []
unfolding run_values
run_values_read = refl

-- A fork that gives the descriptor 5 and the process id 77, and runs the child first; then one
-- that fails with EAGAIN.
abbrev spawning : SpawnLib ℕ
spawning = record {
  aspawn = λ pid stack callback w. (pos 5, pos 77, (callback (pos 6) 0 w).1);
  aspawn_rec = λ pid stack callback old_sigset w. (negsuc 10, pid, w);
}

abbrev child : ChildFn ℕ
child fd old_sigset w = (ok (pos 0, old_sigset), w + 1)

abbrev fresh : Allocator
fresh = record { stack_impl = page; alloc_obj_sz = 0; reserved_obj_sz = 64 }

fork_call-Forked_example :
    Forked
      (negsuc 10)
      (pos 0)
      (fork_call (idle_kernel true) spawning fresh child (avfork_recs 3) 0).0
    × ((fork_call (idle_kernel true) spawning fresh child (avfork_recs 3) 0).1 ≡ 0)
fork_call-Forked_example =
    fork_call-Forked (idle_kernel true) spawning fresh child (avfork_recs 3) 0 0 (negsuc 10) (pos 0)
      refl (omega arith)

-- The world is the queue.
abbrev pop_first : List StackT → Option StackT × List StackT
pop_first [] = (none, [])
pop_first (s ∷ ss) = (some s, ss)

abbrev fifo : SegQueue (List StackT)
fifo = record { push = λ s w. w ++ s ∷ []; pop = pop_first }

fifo-QueueLaws : QueueLaws (idle_kernel true) bump fifo (λ w. w)
fifo-QueueLaws = record {
  pushes = λ s w. refl;
  pops_none = λ w e. rw e refl;
  pops_some = λ s ss w e. (ss, rw e refl, refl);
  cleans = λ w. (0, w, refl, refl);
}

abbrev no_debug : SyscallError → List Bytes
no_debug e = []

abbrev show_stack : StackT → List Bytes
show_stack s = []

get_many-put_all_example :
    (w' : List StackT) × ((put_all (idle_kernel true) bump fifo (λ w. w) (page ∷ page ∷ [])
          >> get_many (idle_kernel true) bump fifo (λ w. w) 2 0 no_debug show_stack)
        []
      ≡ (ok (page ∷ page ∷ []), w'))
    × (w' ≡ [])
get_many-put_all_example =
    get_many-put_all (idle_kernel true) bump fifo (λ w. w) 0 no_debug show_stack (page ∷ page ∷ [])
      [] fifo-QueueLaws refl
