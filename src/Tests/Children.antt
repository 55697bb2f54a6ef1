-- ===== src/Tests/Children.antt =====
-- The theorems on src/SignalFd.rs at concrete inputs.
use avfork.Base.{
  inl, inr, ℕ, zero, suc, ◌<◌, ◌%◌, ◌≡◌, refl, ap, subst, true, false, ◌&&◌, List, [], ◌∷◌, some,
  none, arith, leb, ltb, ◌==◌, if◌then◌else◌,
}
use avfork.Base.Int.{ℤ, pos, negsuc, pos_part, eqb_ℤ}
use avfork.Outcome.{ok, err, pure}
use avfork.Kernel.{Kernel}
use avfork.Syscall.Io.{read}
use avfork.Syscall.Restart.{autorestart, is_interrupted}
use avfork.Error.{to_result}
use avfork.SignalFd.{
  wait, SigInfo, zeroed, ExitInfo, SignalLib, exit_info, get_exit_status, get_term_sig, reap,
  read_loop, read_bytes, would_block,
}
use avfork.SignalFd.Reap.{ReapLaws, read_loop_childless}
use avfork.SignalFd.Waiting.{lookup, WaitLaws, wait-reap}
use avfork.SignalFd.Status.{WaitMacros, exit_status_misread}
use avfork.Tests.World.{idle_kernel}

-- The children that have ended, by a number below their process id; how many are alive; the map.
record Family : Type 0 where
  ended : List ℕ
  living : ℕ
  map : List (ℤ × ExitInfo)

abbrev pub child_info : ℕ → SigInfo
child_info n = record {
  si_pid = pos (suc n);
  si_uid = 1000;
  si_status = pos 7;
  si_utime = pos 0;
  si_stime = pos 0;
}

abbrev pub infos : List ℕ → List SigInfo
infos [] = []
infos (n ∷ ns) = child_info n ∷ infos ns

abbrev take_child : List ℕ → ℕ → List (ℤ × ExitInfo) → ℤ × SigInfo × Family
take_child (n ∷ ns) living map =
    (pos 0, child_info n, record { ended = ns; living = living; map = map })
take_child [] zero map = (negsuc 0, zeroed, record { ended = []; living = 0; map = map })
take_child [] (suc n) map = (pos 0, zeroed, record { ended = []; living = suc n; map = map })

abbrev system : SignalLib Family
system = record {
  last_os_error = λ w. 10;
  waitid_raw = λ idtype id options buf w. take_child w.ended w.living w.map;
  p_all = 0;
  waitid_option = 5;
  eagain = 11;
  siginfo_size = 128;
  readable = pure tt;
  map_insert =
      λ pid info w. record { ended = w.ended; living = w.living; map = (pid, info) ∷ w.map };
  map_wait = λ pid w. (lookup pid w.map, w);
  wifexited = λ s. pos_part s % 128 == 0;
  wexitstatus = λ s. pos (if ltb (pos_part s) 256 then 0 else 1);
  wifsignaled = λ s. leb 1 (pos_part s % 128) && leb (pos_part s % 128) 126;
  wtermsig = λ s. pos (pos_part s % 128);
}

takes_first :
    (ns : List ℕ) (living : ℕ) (map : List (ℤ × ExitInfo)) (z : SigInfo) (zs : List SigInfo)
    → infos ns ≡ z ∷ zs
    → (w' : Family) × (take_child ns living map ≡ (pos 0, z, w'))
      × (eqb_ℤ z.si_pid (pos 0) ≡ false)
      × (infos w'.ended ≡ zs)
      × (w'.living ≡ living)
      × (w'.map ≡ map)
takes_first [] living map z zs e = cc
takes_first (n ∷ ns) living map z zs e =
    let same : child_info n ≡ z = ap (λ l. elim l [ [] ↦ z | x ∷ _ ↦ x ]) e in
    let rest : infos ns ≡ zs = ap (λ l. elim l [ [] ↦ zs | _ ∷ xs ↦ xs ]) e in
    (
      record { ended = ns; living = living; map = map },
      ap (λ x. (pos 0, x, record { ended = ns; living = living; map = map })) same,
      subst (λ x. eqb_ℤ x.si_pid (pos 0) ≡ false) same (ground arith),
      rest,
      refl,
      refl,
    )

finds_none_alive :
    (ns : List ℕ) (living : ℕ) (map : List (ℤ × ExitInfo))
    → infos ns ≡ []
    → 0 < living
    → take_child ns living map ≡ (pos 0, zeroed, record { ended = ns; living = living; map = map })
finds_none_alive [] zero map e h = elim h [ ]
finds_none_alive [] (suc n) map e h = refl
finds_none_alive (n ∷ ns) living map e h = cc

fails_alone :
    (ns : List ℕ) (living : ℕ) (map : List (ℤ × ExitInfo))
    → infos ns ≡ []
    → living ≡ 0
    → (w' : Family) × (take_child ns living map ≡ (negsuc 0, zeroed, w'))
      × (system.last_os_error w' ≡ 10)
      × (infos w'.ended ≡ [])
      × (w'.map ≡ map)
fails_alone [] zero map e h = (record { ended = []; living = 0; map = map }, refl, refl, refl, refl)
fails_alone [] (suc n) map e h = ground arith
fails_alone (n ∷ ns) living map e h = cc

system-ReapLaws : ReapLaws system (λ w. infos w.ended) (λ w. w.living) (λ w. w.map) 10
system-ReapLaws = record {
  takes = λ w z zs e. takes_first w.ended w.living w.map z zs e;
  finds_none = λ w e h. finds_none_alive w.ended w.living w.map e h;
  childless = λ w e h. fails_alone w.ended w.living w.map e h;
  inserts = λ pid info w. (refl, refl, refl);
}

-- Two of three children have ended.
abbrev two_ended : Family
two_ended = record { ended = 41 ∷ 42 ∷ []; living = 1; map = [] }

system-WaitLaws : WaitLaws system (λ w. w.map)
system-WaitLaws = record { answers = λ pid info w e. (w, ap (λ o. (o, w)) e) }

wait-reap_example :
    (wait system 1 (pos 43) (reap system 3 two_ended).1).0 ≡ ok (exit_info (child_info 42))
wait-reap_example =
    wait-reap system (λ w. infos w.ended) (λ w. w.living) (λ w. w.map) 10 3 0 (child_info 42)
      two_ended system-ReapLaws system-WaitLaws (omega arith) (inr (inl refl))
      ((λ e. ground arith, tt), (tt, tt))

-- The only child has ended; one signal is read.
abbrev last_ended : Family
last_ended = record { ended = 41 ∷ []; living = 0; map = [] }

abbrev signalled : Kernel Family
signalled = record (idle_kernel true) { psys_read = λ fd len w. (pos 128, [], w) }

read_loop_childless_example :
    (read_loop signalled system 5 2 2 3 (record { fd = pos 3 }) last_ended).0
    ≡ err (record { errno = 10 })
unfolding read_bytes autorestart is_interrupted read would_block to_result
read_loop_childless_example =
    read_loop_childless system (λ w. infos w.ended) (λ w. w.living) (λ w. w.map) 10 signalled 4 2 2
      3 (record { fd = pos 3 }) last_ended last_ended 128 [] system-ReapLaws refl refl (omega arith)
      refl

system-WaitMacros : WaitMacros system
system-WaitMacros = record {
  exited_iff = λ s h. refl;
  exit_byte = λ s h. ground arith;
  signaled_iff = λ s h. refl;
  signal_bits = λ s h. refl;
}

-- A child that has called exit with 7 looks as if killed by the signal 7.
exit_status_misread_example :
    (get_exit_status system (exit_info (child_info 41)) ≡ none)
    × (get_term_sig system (exit_info (child_info 41)) ≡ some (pos 7))
exit_status_misread_example =
    exit_status_misread system (child_info 41) 7 system-WaitMacros refl (omega arith)
