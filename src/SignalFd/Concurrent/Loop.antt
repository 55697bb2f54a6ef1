-- ===== src/SignalFd/Concurrent/Loop.antt =====
-- The loops of `SigChldFd::read` (src/SignalFd.rs) while children go on ending.
use avfork.Base.{
  ℕ, zero, suc, ◌*◌, ◌%◌, ◌==◌, if◌then◌else◌, ◌<◌, ◌≡◌, ◌≢◌, refl, sym, ap, ◌∙◌, ◌⊎◌, inl, inr,
  Bool, true, false, List, [], ◌∷◌, ◌++◌, arith,
}
use avfork.Base.Int.{ℤ}
use avfork.Error.{to_result}
use avfork.Syscall.Io.{read}
use avfork.Syscall.Restart.{autorestart, is_interrupted}
use avfork.Outcome.{Outcome, ok, err, out_of_fuel, panicked, Sys, pure, lift, continue_with, ◌>>=◌}
use avfork.Kernel.{Kernel, Bytes}
use avfork.Syscall.Fd.{Fd}
use avfork.SignalFd.{
  SigInfo, zeroed, ExitInfo, SignalLib, siginfo_bufsize, exit_info, reap, read_bytes, read_round,
  read_loop,
}
use avfork.SignalFd.Round.{reap_take, reap_none, reap_fail}
use avfork.SignalFd.Concurrent.{
  Meanwhile, WaitAnswer, took, found_none, failed, TaskLaws, Accounted, Accounted-refl,
  Accounted-trans, Accounted-quiet, Accounted-took,
}

module _ {W : Type 0} (lib : SignalLib W) (zombies log : W → List SigInfo) (pending : W → Bool)
    (entries : W → List (ℤ × ExitInfo)) (to_come : W → ℕ) (sys : Kernel W) (self : Fd)
    (laws : TaskLaws lib zombies log pending entries to_come sys self) where
  -- The end of an inner loop that began at `w`.
  record Swept (fuel : ℕ) (w : W) (end : Outcome (Unit {0}) × W) : Type 0 where
    accounted : Accounted lib zombies log pending entries to_come w end.1
    clean : end.0 ≢ out_of_fuel → zombies end.1 ≡ []
    returns : to_come w < fuel → end.0 ≢ out_of_fuel

  Swept-answer :
      (fuel : ℕ) (w v : W) (t : ℤ × SigInfo × W)
      → ((u : W) → Swept fuel u (reap lib fuel u))
      → Meanwhile lib zombies log pending entries to_come w v
      → lib.waitid_raw lib.p_all 0 lib.waitid_option zeroed w ≡ t
      → WaitAnswer lib zombies log pending entries to_come v t
      → Swept (suc fuel) w (reap lib (suc fuel) w)
  Swept-answer fuel w v _ rest m raw (took z zs w' first real left listed same fewer) =
      let u : W = lib.map_insert z.si_pid (exit_info z) w' in
      let (entered, kept, listed', count) = laws.inserts z.si_pid (exit_info z) w' in
      let r = rest u in
      rw (reap_take lib fuel w w' z raw real) (record {
        accounted =
            Accounted-trans lib zombies log pending entries to_come w u (reap lib fuel u).1
              (Accounted-took lib zombies log pending entries to_come w v w' u z zs m first
                (kept ∙ left) (listed' ∙ listed)
                (entered ∙ ap (λ l. (z.si_pid, exit_info z) ∷ l) same))
              r.accounted;
        clean = r.clean;
        returns = λ h. r.returns (omega (arith, m.no_more));
      })
  Swept-answer fuel w v _ rest m raw (found_none empty) = rw (reap_none lib fuel w v raw) (record {
    accounted = Accounted-quiet lib zombies log pending entries to_come w v v m refl refl refl;
    clean = λ _. empty;
    returns = λ h e. ground arith;
  })
  Swept-answer fuel w v _ rest m raw (failed n info w' empty left listed same) =
      rw (reap_fail lib fuel n info w w' raw) (record {
        accounted =
            Accounted-quiet lib zombies log pending entries to_come w v w' m (left ∙ sym empty)
              listed same;
        clean = λ _. left;
        returns = λ h e. ground arith;
      })

  reap-Swept : (fuel : ℕ) (w : W) → Swept fuel w (reap lib fuel w)
  unfolding reap
  reap-Swept zero w = record {
    accounted = Accounted-refl lib zombies log pending entries to_come w;
    clean = λ h. absurd (h refl);
    returns = λ h. absurd (omega arith);
  }
  reap-Swept (suc fuel) w =
      let (v, m, answer) = laws.waits w in
      Swept-answer fuel w v (lib.waitid_raw lib.p_all 0 lib.waitid_option zeroed w)
        (reap-Swept fuel) m refl answer

  -- A call over which no child is lost and no entry made up.
  abbrev Keeps : {A : Type 0} → Sys W A → Type 0
  Keeps m = (w : W) → Accounted lib zombies log pending entries to_come w (m w).1

  Keeps-bind :
      {A B : Type 0} (m : Sys W A) (f : A → Sys W B)
      → Keeps m
      → ((a : A) → Keeps (f a))
      → Keeps (m >>= f)
  Keeps-bind {A} {B} m f k l w = go (m w) (k w)
    where
      go :
          (r : Outcome A × W)
          → Accounted lib zombies log pending entries to_come w r.1
          → Accounted lib zombies log pending entries to_come w (continue_with r.0 f r.1).1
      go (ok a, v) h =
          Accounted-trans lib zombies log pending entries to_come w v (f a v).1 h (l a v)
      go (err e, v) h = h
      go (_, v) h = h

  Keeps-choose :
      {A : Type 0} (b : Bool) (m : Sys W A) (o : Outcome A) (w v : W)
      → Keeps m
      → Accounted lib zombies log pending entries to_come w v
      → Accounted lib zombies log pending entries to_come w
          (elim b as (λ _. Outcome A × W) [ true ↦ m v | false ↦ (o, v) ]).1
  Keeps-choose true m o w v k h =
      Accounted-trans lib zombies log pending entries to_come w v (m v).1 h (k v)
  Keeps-choose false m o w v k h = h

  Keeps-autorestart :
      {A : Type 0} (f : Sys W A) (fuel : ℕ) → Keeps f → Keeps (autorestart sys.eintr f fuel)
  unfolding autorestart
  Keeps-autorestart f zero k w = Accounted-refl lib zombies log pending entries to_come w
  Keeps-autorestart f (suc fuel) k w =
      Keeps-choose (is_interrupted sys.eintr (f w).0) (autorestart sys.eintr f fuel) (f w).0 w
        (f w).1 (Keeps-autorestart f fuel k) (k w)

  Keeps-read : (len : ℕ) → Keeps (read sys self.fd len)
  unfolding read
  Keeps-read len w =
      let (v, m, z, g, e) = laws.reads len w in
      go (to_result sys.debug_assertions (sys.psys_read self.fd len w).0)
        (sys.psys_read self.fd len w).1 (sys.psys_read self.fd len w).2
        (Accounted-quiet lib zombies log pending entries to_come w v _ m z g e)
    where
      go :
          (o : Outcome ℕ) (stored : Bytes) (v : W)
          → Accounted lib zombies log pending entries to_come w v
          → Accounted lib zombies log pending entries to_come w
              (continue_with {B = ℕ × Bytes} o (λ n. pure (n, stored)) v).1
      go (ok n) stored v h = h
      go (err e) stored v h = h
      go _ stored v h = h

  Keeps-readable : Keeps lib.readable
  Keeps-readable w =
      let (v, m, z, g, e) = laws.readies w in
      Accounted-quiet lib zombies log pending entries to_come w v _ m z g e

  Keeps-read_bytes : (fuel restarts len : ℕ) → Keeps (read_bytes sys lib fuel restarts self len)
  unfolding read_bytes
  Keeps-read_bytes zero restarts len = λ w. Accounted-refl lib zombies log pending entries to_come w
  Keeps-read_bytes (suc fuel) restarts len = Keeps-bind lib.readable _ Keeps-readable λ _ v.
      Keeps-choose _ (read_bytes sys lib fuel restarts self len) _ v _
        (Keeps-read_bytes fuel restarts len)
        (Keeps-autorestart (read sys self.fd len) restarts (Keeps-read len) v)

  Keeps-read_round : (fuel restarts reaps : ℕ) → Keeps (read_round sys lib fuel restarts reaps self)
  unfolding read_round
  Keeps-read_round fuel restarts reaps =
      Keeps-bind _ _ (Keeps-read_bytes fuel restarts (siginfo_bufsize * lib.siginfo_size))
        λ (cnt, b). Keeps-sweep (cnt % lib.siginfo_size == 0)
    where
      Keeps-sweep : (whole : Bool) → Keeps (if whole then reap lib reaps else lift panicked)
      Keeps-sweep true w = (reap-Swept reaps w).accounted
      Keeps-sweep false w = Accounted-refl lib zombies log pending entries to_come w

  -- Whatever children end between the calls of the task, and however the task ends: of the children
  -- that were zombies and those that have ended since, which are what `log` has got, the first ones have been put into the map, each once, in
  -- the order in which they ended and with what waitid told of it, and the others are still zombies.
  -- No child is lost and no entry made up, under `TaskLaws` and whatever the fuel.
  pub read_loop-Accounted :
      (rounds fuel restarts reaps : ℕ) (w : W)
      → Accounted lib zombies log pending entries to_come w
          (read_loop sys lib rounds fuel restarts reaps self w).1
  unfolding read_loop
  read_loop-Accounted zero fuel restarts reaps w =
      Accounted-refl lib zombies log pending entries to_come w
  read_loop-Accounted (suc rounds) fuel restarts reaps w =
      Keeps-bind (read_round sys lib fuel restarts reaps self) _
        (Keeps-read_round fuel restarts reaps) (λ _. read_loop-Accounted rounds fuel restarts reaps)
        w

  -- With more fuel than there are children to come, the inner loop comes back: it ends at a moment
  -- at which there is no zombie, with every child that had ended by then in the map, under
  -- `TaskLaws`.
  pub reap_concurrent :
      (fuel : ℕ) (w : W)
      → to_come w < fuel
      → ((reap lib fuel w).0 ≢ out_of_fuel)
        × (zombies (reap lib fuel w).1 ≡ [])
        × Accounted lib zombies log pending entries to_come w (reap lib fuel w).1
  reap_concurrent fuel w h =
      let s = reap-Swept fuel w in (s.returns h, s.clean (s.returns h), s.accounted)

  swept_round :
      (fuel restarts reaps : ℕ) (w w' : W)
      → read_round sys lib fuel restarts reaps self w ≡ (ok tt, w')
      → zombies w' ≡ []
  unfolding read_round
  swept_round fuel restarts reaps w w' =
      go (read_bytes sys lib fuel restarts self (siginfo_bufsize * lib.siginfo_size) w)
    where
      swept :
          (whole : Bool) (v : W)
          → (if whole then reap lib reaps else lift panicked) v ≡ (ok tt, w')
          → zombies w' ≡ []
      swept true v e =
          ap (λ r. zombies r.1) (sym e)
          ∙ (reap-Swept reaps v).clean
              (λ q. let c : ok tt ≡ out_of_fuel = sym (ap (λ r. r.0) e) ∙ q in ground arith)
      swept false v e = ground arith

      go :
          (r : Outcome (ℕ × Bytes) × W)
          → continue_with r.0
              (λ (cnt, _). if cnt % lib.siginfo_size == 0 then reap lib reaps else lift panicked)
              r.1
            ≡ (ok tt, w')
          → zombies w' ≡ []
      go (ok (cnt, b), v) e = swept (cnt % lib.siginfo_size == 0) v e
      go (err x, v) e = ground arith
      go (_, v) e = ground arith

  -- No wake-up is lost: when a round has ended well and the task waits for a signal again, then at
  -- every later moment until the next read either there is no zombie or the signal is pending,
  -- however many children end and although their signals are merged. This is under `TaskLaws`.
  pub read_round-Meanwhile :
      (fuel restarts reaps : ℕ) (w w' v : W)
      → read_round sys lib fuel restarts reaps self w ≡ (ok tt, w')
      → Meanwhile lib zombies log pending entries to_come w' v
      → (zombies v ≡ []) ⊎ (pending v ≡ true)
  read_round-Meanwhile fuel restarts reaps w w' v e m = elim m.signalled [
    | inl (nobody, _) ↦
        inl (m.grown ∙ ap (λ l. l ++ m.arrivals) (swept_round fuel restarts reaps w w' e) ∙ nobody)
    | inr lit ↦ inr lit
  ]
