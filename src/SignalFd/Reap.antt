-- ===== src/SignalFd/Reap.antt =====
-- The task of src/SignalFd.rs that collects the children that have ended.
use avfork.Base.{
  ℕ, zero, suc, ◌*◌, ◌%◌, ◌<◌, ◌≡◌, refl, ◌∙◌, ap, true, false, List, [], ◌∷◌, arith, length, ◌==◌,
  if◌then◌else◌, Bool-cases, inl, inr,
}
use avfork.Base.Int.{ℤ, pos, negsuc, eqb_ℤ}
use avfork.Outcome.{Outcome, ok, err}
use avfork.Kernel.{Kernel, Bytes}
use avfork.Syscall.Fd.{Fd}
use avfork.SignalFd.Round.{record_all, reap_take, reap_none, reap_fail}
use avfork.SignalFd.{
  SigInfo, zeroed, ExitInfo, SignalLib, siginfo_bufsize, exit_info, reap, read_bytes, read_round,
  read_loop,
}

module _ {W : Type 0} (lib : SignalLib W) (zombies : W → List SigInfo) (alive : W → ℕ)
    (entries : W → List (ℤ × ExitInfo)) (echild : ℕ) where
  -- waitid(2) with P_ALL and WEXITED | WNOHANG, in a time in which no other child ends: it takes a
  -- child that has ended; if there is none, but a child is alive, it answers that at once; with no
  -- child at all it fails with ECHILD. The map keeps what is inserted.
  pub record ReapLaws : Type 0 where
    pub takes :
        (w : W) (z : SigInfo) (zs : List SigInfo)
        → zombies w ≡ z ∷ zs
        → (w' : W) × (lib.waitid_raw lib.p_all 0 lib.waitid_option zeroed w ≡ (pos 0, z, w'))
          × (eqb_ℤ z.si_pid (pos 0) ≡ false)
          × (zombies w' ≡ zs)
          × (alive w' ≡ alive w)
          × (entries w' ≡ entries w)
    pub finds_none :
        (w : W)
        → zombies w ≡ []
        → 0 < alive w
        → lib.waitid_raw lib.p_all 0 lib.waitid_option zeroed w ≡ (pos 0, zeroed, w)
    pub childless :
        (w : W)
        → zombies w ≡ []
        → alive w ≡ 0
        → (w' : W) × (lib.waitid_raw lib.p_all 0 lib.waitid_option zeroed w
            ≡ (negsuc 0, zeroed, w'))
          × (lib.last_os_error w' ≡ echild)
          × (zombies w' ≡ [])
          × (entries w' ≡ entries w)
    pub inserts :
        (pid : ℤ) (info : ExitInfo) (w : W)
        → (entries (lib.map_insert pid info w) ≡ (pid, info) ∷ entries w)
          × (zombies (lib.map_insert pid info w) ≡ zombies w)
          × (alive (lib.map_insert pid info w) ≡ alive w)

  -- How the inner loop ends, over a world with these children.
  abbrev pub reaped : ℕ → Outcome (Unit {0})
  reaped n = if n == 0 then err (record { errno = echild }) else ok tt

  -- The end of the inner loop that began at `w` with the children `zs` that have ended.
  abbrev pub Reaped : List SigInfo → W → Outcome (Unit {0}) × W → Type 0
  Reaped zs w end =
      (end.0 ≡ reaped (alive w))
      × (zombies end.1 ≡ [])
      × (entries end.1 ≡ record_all zs (entries w))

  reap-Reaped :
      (fuel : ℕ) (zs : List SigInfo) (w : W)
      → ReapLaws
      → zombies w ≡ zs
      → length zs < fuel
      → Reaped zs w (reap lib fuel w)
  reap-Reaped zero zs w laws e h = absurd (omega arith)
  reap-Reaped (suc fuel) [] w laws e h = elim (Bool-cases (alive w == 0)) [
    | inl alone ↦
        let (w', raw, errno, z, n) = laws.childless w e (ground arith) in
        rw (reap_fail lib fuel 0 zeroed w w' raw, alone)
          (ap (λ c. err (record { errno = c })) errno, z, n)
    | inr others ↦
        rw (reap_none lib fuel w w (laws.finds_none w e (ground arith)), others) (refl, e, refl)
  ]
  reap-Reaped (suc fuel) (z ∷ zs) w laws e h =
      let (w', raw, real, zombies', alive', entries') = laws.takes w z zs e in
      let v : W = lib.map_insert z.si_pid (exit_info z) w' in
      let (entered, kept, living) = laws.inserts z.si_pid (exit_info z) w' in
      let (o, none_left, all) = reap-Reaped fuel zs v laws (kept ∙ zombies') (omega arith) in
      rw (reap_take lib fuel w w' z raw real) (
        o ∙ ap reaped (living ∙ alive'),
        none_left,
        all ∙ ap (record_all zs) (entered ∙ ap (λ l. (z.si_pid, exit_info z) ∷ l) entries'),
      )

  -- Under `ReapLaws`, with fuel for the children that have ended, the inner loop puts every one of
  -- them into the map, in order and with what waitid told of it, however few signals there were.
  -- Then it is done if a child is still alive; if none is, the search for another child fails with
  -- ECHILD.
  pub reap_lem :
      (fuel : ℕ) (w : W)
      → ReapLaws
      → length (zombies w) < fuel
      → Reaped (zombies w) w (reap lib fuel w)
  reap_lem fuel w laws h = reap-Reaped fuel (zombies w) w laws refl h

  -- The task's endless loop ends with ECHILD in the round in which the last child is collected:
  -- under `ReapLaws`, where a whole number of signals has been read and no child is alive, with
  -- fuel for the children that have ended, nothing that comes later is collected.
  pub read_loop_childless :
      (sys : Kernel W) (rounds fuel restarts reaps : ℕ) (self : Fd) (w w' : W) (cnt : ℕ) (b : Bytes)
      → ReapLaws
      → read_bytes sys lib fuel restarts self (siginfo_bufsize * lib.siginfo_size) w
        ≡ (ok (cnt, b), w')
      → cnt % lib.siginfo_size ≡ 0
      → length (zombies w') < reaps
      → alive w' ≡ 0
      → (read_loop sys lib (suc rounds) fuel restarts reaps self w).0
        ≡ err (record { errno = echild })
  unfolding read_loop read_round
  read_loop_childless sys rounds fuel restarts reaps self w w' cnt b laws e whole h alone =
      let (o, _, _) = reap_lem reaps w' laws h in
      let aligned : (cnt % lib.siginfo_size == 0) ≡ true = ground arith in
      let ended : (reap lib reaps w').0 ≡ err (record { errno = echild }) = o ∙ ap reaped alone in
      rw (e, read_loop, read_round, aligned, ended)
