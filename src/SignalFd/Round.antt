-- ===== src/SignalFd/Round.antt =====
-- One round of the inner loop of `SigChldFd::read` (src/SignalFd.rs), for each answer of waitid.
use avfork.Base.{ℕ, suc, ◌≡◌, refl, false, List, [], ◌∷◌, ◌++◌}
use avfork.Base.Int.{ℤ, pos, negsuc, eqb_ℤ}
use avfork.Outcome.{ok, err}
use avfork.SignalFd.{SigInfo, zeroed, ExitInfo, SignalLib, exit_info, waitid, waitid_result, reap}

-- The entries of the map, newest first, after these children have been put into it.
abbrev pub record_all : List SigInfo → List (ℤ × ExitInfo) → List (ℤ × ExitInfo)
record_all [] entries = entries
record_all (z ∷ zs) entries = record_all zs ((z.si_pid, exit_info z) ∷ entries)

pub record_all-append :
    (xs ys : List SigInfo) (entries : List (ℤ × ExitInfo))
    → record_all (xs ++ ys) entries ≡ record_all ys (record_all xs entries)
record_all-append [] ys entries = refl
record_all-append (x ∷ xs) ys entries = record_all-append xs ys ((x.si_pid, exit_info x) ∷ entries)

module _ {W : Type 0} (lib : SignalLib W) where
  pub reap_take :
      (fuel : ℕ) (w w' : W) (z : SigInfo)
      → lib.waitid_raw lib.p_all 0 lib.waitid_option zeroed w ≡ (pos 0, z, w')
      → eqb_ℤ z.si_pid (pos 0) ≡ false
      → reap lib (suc fuel) w ≡ reap lib fuel (lib.map_insert z.si_pid (exit_info z) w')
  unfolding reap waitid waitid_result
  reap_take fuel w w' z e real = rw (e, reap, waitid) (rw real refl)

  pub reap_none :
      (fuel : ℕ) (w w' : W)
      → lib.waitid_raw lib.p_all 0 lib.waitid_option zeroed w ≡ (pos 0, zeroed, w')
      → reap lib (suc fuel) w ≡ (ok tt, w')
  unfolding reap waitid waitid_result
  reap_none fuel w w' e = rw (e, reap, waitid) refl

  pub reap_fail :
      (fuel n : ℕ) (info : SigInfo) (w w' : W)
      → lib.waitid_raw lib.p_all 0 lib.waitid_option zeroed w ≡ (negsuc n, info, w')
      → reap lib (suc fuel) w ≡ (err (record { errno = lib.last_os_error w' }), w')
  unfolding reap waitid waitid_result
  reap_fail fuel n info w w' e = rw (e, reap, waitid) refl
