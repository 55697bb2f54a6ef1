-- ===== src/SignalFd/Concurrent.antt =====
-- The task of src/SignalFd.rs while children go on ending: between any two of its calls, any number
-- of children may end, and their signals may be merged into one.
pub mod Loop
pub mod Wait
use avfork.Base.{
  ℕ, zero, suc, ◌+◌, ◌≤◌, ◌<◌, ◌≡◌, ◌≢◌, refl, sym, ap, ◌∙◌, ◌⊎◌, inl, inr, Bool, true, false, List,
  [], ◌∷◌, ◌++◌, append_assoc, append-nil, arith,
}
use avfork.Base.Int.{ℤ, pos, negsuc, eqb_ℤ}
use avfork.Outcome.{Outcome, ok, err, out_of_fuel, Sys, continue_with, ◌>>=◌, ◌>>◌}
use avfork.Kernel.{Kernel, Bytes}
use avfork.Syscall.Fd.{Fd}
use avfork.SignalFd.{
  SigInfo, zeroed, ExitInfo, SignalLib, siginfo_bufsize, exit_info, reap, read_bytes, read_round,
  read_loop,
}
use avfork.SignalFd.Round.{record_all, record_all-append, reap_take, reap_none, reap_fail}

module _ {W : Type 0} (lib : SignalLib W) (zombies log : W → List SigInfo) (pending : W → Bool)
    (entries : W → List (ℤ × ExitInfo)) (to_come : W → ℕ) where
  -- Some children end, and nothing else happens: they become zombies, oldest first, and `log`, which
  -- is all the children that have ever ended, has them at its end; and if there is one the signal is pending; signals that are pending already are not counted. `to_come` is
  -- the number of children that waitid can still collect, now or later.
  pub record Meanwhile (w v : W) : Type 0 where
    pub arrivals : List SigInfo
    pub grown : zombies v ≡ zombies w ++ arrivals
    pub logged : log v ≡ log w ++ arrivals
    pub kept : entries v ≡ entries w
    pub signalled : ((arrivals ≡ []) × (pending v ≡ pending w)) ⊎ (pending v ≡ true)
    pub no_more : to_come v ≤ to_come w

  -- What waitid(2) with P_ALL and WEXITED | WNOHANG answers at the moment `v`: the oldest zombie,
  -- which it releases; if there is none, that there is none; or a failure, for lack of children.
  pub data WaitAnswer (v : W) : ℤ × SigInfo × W → Type 0 where
    took :
        (z : SigInfo) (zs : List SigInfo) (w' : W)
        → zombies v ≡ z ∷ zs
        → eqb_ℤ z.si_pid (pos 0) ≡ false
        → zombies w' ≡ zs
        → log w' ≡ log v
        → entries w' ≡ entries v
        → to_come w' < to_come v
        → WaitAnswer v (pos 0, z, w')
    found_none : zombies v ≡ [] → WaitAnswer v (pos 0, zeroed, v)
    failed :
        (n : ℕ) (info : SigInfo) (w' : W)
        → zombies v ≡ []
        → zombies w' ≡ []
        → log w' ≡ log v
        → entries w' ≡ entries v
        → WaitAnswer v (negsuc n, info, w')

  -- The calls of the task, each at a moment of its own.
  pub record TaskLaws (sys : Kernel W) (self : Fd) : Type 0 where
    pub waits :
        (w : W)
        → (v : W) × Meanwhile w v
          × WaitAnswer v (lib.waitid_raw lib.p_all 0 lib.waitid_option zeroed w)
    pub inserts :
        (pid : ℤ) (info : ExitInfo) (w : W)
        → (entries (lib.map_insert pid info w) ≡ (pid, info) ∷ entries w)
          × (zombies (lib.map_insert pid info w) ≡ zombies w)
          × (log (lib.map_insert pid info w) ≡ log w)
          × (to_come (lib.map_insert pid info w) ≡ to_come w)
    -- a read takes the pending signal, and touches no child and no entry
    pub reads :
        (len : ℕ) (w : W)
        → (v : W) × Meanwhile w v
          × (zombies (sys.psys_read self.fd len w).2 ≡ zombies v)
          × (log (sys.psys_read self.fd len w).2 ≡ log v)
          × (entries (sys.psys_read self.fd len w).2 ≡ entries v)
    pub readies :
        (w : W)
        → (v : W) × Meanwhile w v
          × (zombies (lib.readable w).1 ≡ zombies v)
          × (log (lib.readable w).1 ≡ log v)
          × (entries (lib.readable w).1 ≡ entries v)

  -- From `w` to `w'`: of the zombies at `w` and the children that have ended since, the first ones
  -- have been put into the map, each once and in order, and the others are the zombies at `w'`.
  pub record Accounted (w w' : W) : Type 0 where
    pub ended : List SigInfo
    pub collected : List SigInfo
    pub logged : log w' ≡ log w ++ ended
    pub none_lost : zombies w ++ ended ≡ collected ++ zombies w'
    pub recorded : entries w' ≡ record_all collected (entries w)

  Accounted-refl : (w : W) → Accounted w w
  Accounted-refl w = record {
    ended = [];
    collected = [];
    logged = sym (append-nil (log w));
    none_lost = append-nil (zombies w);
    recorded = refl;
  }

  Accounted-trans : (w v u : W) → Accounted w v → Accounted v u → Accounted w u
  Accounted-trans w v u a b = record {
    ended = a.ended ++ b.ended;
    collected = a.collected ++ b.collected;
    logged = b.logged ∙ ap (λ l. l ++ b.ended) a.logged ∙ append_assoc (log w) a.ended b.ended;
    none_lost =
        sym (append_assoc (zombies w) a.ended b.ended)
        ∙ ap (λ l. l ++ b.ended) a.none_lost
        ∙ append_assoc a.collected (zombies v) b.ended
        ∙ ap (λ l. a.collected ++ l) b.none_lost
        ∙ sym (append_assoc a.collected b.collected (zombies u));
    recorded =
        b.recorded
        ∙ ap (record_all b.collected) a.recorded
        ∙ sym (record_all-append a.collected b.collected (entries w));
  }

  -- A call that leaves the zombies and the entries of its moment as they are.
  Accounted-quiet :
      (w v w' : W)
      → Meanwhile w v
      → zombies w' ≡ zombies v
      → log w' ≡ log v
      → entries w' ≡ entries v
      → Accounted w w'
  Accounted-quiet w v w' m z g e = record {
    ended = m.arrivals;
    collected = [];
    logged = g ∙ m.logged;
    none_lost = sym (z ∙ m.grown);
    recorded = e ∙ m.kept;
  }

  -- A child is collected, and put into the map.
  Accounted-took :
      (w v w' u : W) (z : SigInfo) (zs : List SigInfo)
      → Meanwhile w v
      → zombies v ≡ z ∷ zs
      → zombies u ≡ zs
      → log u ≡ log v
      → entries u ≡ (z.si_pid, exit_info z) ∷ entries v
      → Accounted w u
  Accounted-took w v w' u z zs m first rest same entered = record {
    ended = m.arrivals;
    collected = z ∷ [];
    logged = same ∙ m.logged;
    none_lost = sym m.grown ∙ first ∙ ap (λ l. z ∷ l) (sym rest);
    recorded = entered ∙ ap (λ l. (z.si_pid, exit_info z) ∷ l) m.kept;
  }
