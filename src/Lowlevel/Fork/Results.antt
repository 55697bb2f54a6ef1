-- ===== src/Lowlevel/Fork/Results.antt =====
-- What `avfork` and `avfork_rec` of src/lowlevel.rs return to the parent.
use avfork.Base.{ℕ, suc, ◌≡◌, refl}
use avfork.Base.Int.{ℤ, pos, negsuc, IsI32, to_i32_small}
use avfork.Outcome.{Outcome, ok, err, Sys}
use avfork.Kernel.{Kernel}
use avfork.Error.Codes.{to_result_nonneg, to_result_negative}
use avfork.Syscall.Fd.{FdBox, box_from_raw}
use avfork.Lowlevel.Stack.{Allocator}
use avfork.Lowlevel.Fork.{ChildFn, SpawnLib, aspawn_fn, avfork_call, avfork_rec_call}

-- A fork that has come back with the code `r` and the process id `pid`.
abbrev pub Forked : ℤ → ℤ → Outcome (FdBox × ℤ) → Type 0
Forked (pos fd) pid o = o ≡ ok (record { boxed = record { fd = pos fd } }, pid)
Forked (negsuc n) pid o = o ≡ err (record { errno = suc n })

-- The two functions; `avfork_rec` has the signal set of the caller's parent.
pub data ForkCall : Type 0 where
  avforks : ForkCall
  avfork_recs : ℕ → ForkCall

module _ {W : Type 0} (sys : Kernel W) (lib : SpawnLib W) (a : Allocator) (func : ChildFn W) where
  abbrev pub fork_call : ForkCall → Sys W (FdBox × ℤ)
  fork_call avforks = avfork_call sys lib a func
  fork_call (avfork_recs old_sigset) = avfork_rec_call sys lib a func old_sigset

  -- The C function behind each; its callback hands the descriptor to `func`.
  abbrev pub fork_raw : ForkCall → W → ℤ × ℤ × W
  fork_raw avforks = lib.aspawn (pos 0) a.stack_impl (λ fd. func (record { fd = fd }))
  fork_raw (avfork_recs old_sigset) =
      lib.aspawn_rec (pos 0) a.stack_impl (λ fd. func (record { fd = fd })) old_sigset

  -- `avfork` and `avfork_rec` run their C function over the allocator's stack with a callback that
  -- hands the descriptor to `func`, and `avfork_rec` hands on the signal set too. A code from 0 on
  -- is boxed as it is and returned with the process id, and a negative one is the error of that
  -- number; the world is the one after the C function. The code is to be a c_int.
  pub fork_call-Forked :
      (c : ForkCall) (w w' : W) (r pid : ℤ)
      → fork_raw c w ≡ (r, pid, w')
      → IsI32 r
      → Forked r pid (fork_call c w).0 × ((fork_call c w).1 ≡ w')
  unfolding avfork_call avfork_rec_call aspawn_fn box_from_raw
  fork_call-Forked avforks w w' (pos fd) pid e h =
      rw (e, avfork_call, aspawn_fn)
        (rw (to_result_nonneg sys.debug_assertions fd) (rw (to_i32_small fd h.0) refl), refl)
  fork_call-Forked avforks w w' (negsuc n) pid e h =
      rw (e, avfork_call, aspawn_fn) (rw (to_result_negative sys.debug_assertions n h.1) refl, refl)
  fork_call-Forked (avfork_recs old_sigset) w w' (pos fd) pid e h =
      rw (e, avfork_rec_call, aspawn_fn)
        (rw (to_result_nonneg sys.debug_assertions fd) (rw (to_i32_small fd h.0) refl), refl)
  fork_call-Forked (avfork_recs old_sigset) w w' (negsuc n) pid e h =
      rw (e, avfork_rec_call, aspawn_fn)
        (rw (to_result_negative sys.debug_assertions n h.1) refl, refl)
