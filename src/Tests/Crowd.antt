-- ===== src/Tests/Crowd.antt =====
-- The theorems on the task of src/SignalFd.rs among children that end meanwhile, at concrete inputs.
use avfork.Base.{
  ℕ, ◌+◌, ◌≡◌, ◌≢◌, refl, sym, append-nil, ap, ◌⊎◌, inl, inr, Bool, true, false, List, [], ◌∷◌,
  ◌++◌, arith, length, length-append,
}
use avfork.Base.Int.{ℤ, pos}
use avfork.Outcome.{ok, out_of_fuel}
use avfork.Kernel.{Kernel}
use avfork.Error.{to_result}
use avfork.Syscall.Io.{read}
use avfork.Syscall.Restart.{autorestart, is_interrupted}
use avfork.SignalFd.{
  SigInfo, zeroed, ExitInfo, SignalLib, reap, read_loop, read_bytes, read_round, would_block,
  waitid, waitid_result, exit_info, wait,
}
use avfork.SignalFd.Concurrent.{Meanwhile, WaitAnswer, took, found_none, TaskLaws, Accounted}
use avfork.SignalFd.Concurrent.Loop.{read_loop-Accounted, reap_concurrent, read_round-Meanwhile}
use avfork.SignalFd.Waiting.{lookup, WaitLaws}
use avfork.SignalFd.Concurrent.Wait.{wait-read_loop}
use avfork.Tests.World.{idle_kernel}
use avfork.Tests.Children.{child_info, infos}

-- The zombies, all the children that have ended, the children that end before each of the next calls, and whether there is a signal.
record Crowd : Type 0 where
  ended : List ℕ
  all : List ℕ
  later : List (List ℕ)
  signal : Bool
  map : List (ℤ × ExitInfo)

abbrev lit : List ℕ → Bool → Bool
lit [] signal = signal
lit (n ∷ ns) signal = true

abbrev arrive : List (List ℕ) → Crowd → Crowd
arrive [] w = w
arrive (b ∷ bs) w = record {
  ended = w.ended ++ b;
  all = w.all ++ b;
  later = bs;
  signal = lit b w.signal;
  map = w.map;
}

abbrev total : List (List ℕ) → ℕ
total [] = 0
total (b ∷ bs) = length b + total bs

abbrev crowd_to_come : Crowd → ℕ
crowd_to_come w = length w.ended + total w.later

abbrev take_now : List ℕ → Crowd → ℤ × SigInfo × Crowd
take_now [] w = (pos 0, zeroed, w)
take_now (n ∷ ns) w = (pos 0, child_info n, record w { ended = ns })

abbrev crowd_system : SignalLib Crowd
crowd_system = record {
  last_os_error = λ w. 10;
  waitid_raw = λ idtype id options buf w. take_now (arrive w.later w).ended (arrive w.later w);
  p_all = 0;
  waitid_option = 5;
  eagain = 11;
  siginfo_size = 128;
  readable = λ w. (ok tt, arrive w.later w);
  map_insert = λ pid info w. record w { map = (pid, info) ∷ w.map };
  map_wait = λ pid w. (lookup pid w.map, w);
  wifexited = λ s. true;
  wexitstatus = λ s. s;
  wifsignaled = λ s. false;
  wtermsig = λ s. s;
}

abbrev crowd_kernel : Kernel Crowd
crowd_kernel = record (idle_kernel true) {
  psys_read = λ fd len w. (pos 128, [], record (arrive w.later w) { signal = false });
}

infos-append : (ms ns : List ℕ) → infos (ms ++ ns) ≡ infos ms ++ infos ns
infos-append [] ns = refl
infos-append (m ∷ ms) ns = ap (λ l. child_info m ∷ l) (infos-append ms ns)

abbrev CrowdMeanwhile : Crowd → Crowd → Type 0
CrowdMeanwhile =
    Meanwhile crowd_system (λ w. infos w.ended) (λ w. infos w.all) (λ w. w.signal) (λ w. w.map)
      crowd_to_come

arrive-signalled :
    (b : List ℕ) (signal : Bool)
    → ((infos b ≡ []) × (lit b signal ≡ signal)) ⊎ (lit b signal ≡ true)
arrive-signalled [] signal = inl (refl, refl)
arrive-signalled (n ∷ ns) signal = inr refl

arrive-Meanwhile : (bs : List (List ℕ)) (w : Crowd) → w.later ≡ bs → CrowdMeanwhile w (arrive bs w)
arrive-Meanwhile [] w e = record {
  arrivals = [];
  grown = sym (append-nil (infos w.ended));
  logged = sym (append-nil (infos w.all));
  kept = refl;
  signalled = inl (refl, refl);
  no_more = omega arith;
}
arrive-Meanwhile (b ∷ bs) w e = record {
  arrivals = infos b;
  grown = infos-append w.ended b;
  logged = infos-append w.all b;
  kept = refl;
  signalled = arrive-signalled b w.signal;
  no_more = rw e (omega (arith, length-append w.ended b));
}

take_now-WaitAnswer :
    (ns : List ℕ) (w : Crowd)
    → w.ended ≡ ns
    → WaitAnswer crowd_system
        (λ w. infos w.ended)
        (λ w. infos w.all)
        (λ w. w.signal)
        (λ w. w.map)
        crowd_to_come
        w
        (take_now ns w)
take_now-WaitAnswer [] w e = found_none (ap infos e)
take_now-WaitAnswer (n ∷ ns) w e =
    took (child_info n) (infos ns) (record w { ended = ns }) (ap infos e) (ground arith) refl refl
      refl (rw e (omega arith))

crowd-TaskLaws :
    TaskLaws crowd_system
      (λ w. infos w.ended)
      (λ w. infos w.all)
      (λ w. w.signal)
      (λ w. w.map)
      crowd_to_come
      crowd_kernel
      (record { fd = pos 3 })
crowd-TaskLaws = record {
  waits = λ w. (
    arrive w.later w,
    arrive-Meanwhile w.later w refl,
    take_now-WaitAnswer _ (arrive w.later w) refl,
  );
  inserts = λ pid info w. (refl, refl, refl, refl);
  reads = λ len w. (arrive w.later w, arrive-Meanwhile w.later w refl, refl, refl, refl);
  readies = λ w. (arrive w.later w, arrive-Meanwhile w.later w refl, refl, refl, refl);
}

-- Nobody has ended yet. Two children end before the signal is read, one while they are collected.
abbrev quiet : Crowd
quiet = record {
  ended = [];
  all = [];
  later = (1 ∷ 2 ∷ []) ∷ [] ∷ [] ∷ (3 ∷ []) ∷ [] ∷ [] ∷ (4 ∷ 5 ∷ []) ∷ [];
  signal = false;
  map = [];
}

read_loop-Accounted_example :
    Accounted crowd_system
      (λ w. infos w.ended)
      (λ w. infos w.all)
      (λ w. w.signal)
      (λ w. w.map)
      crowd_to_come
      quiet
      (read_loop crowd_kernel crowd_system 3 2 2 9 (record { fd = pos 3 }) quiet).1
read_loop-Accounted_example =
    read_loop-Accounted crowd_system (λ w. infos w.ended) (λ w. infos w.all) (λ w. w.signal)
      (λ w. w.map) crowd_to_come crowd_kernel (record { fd = pos 3 }) crowd-TaskLaws 3 2 2 9 quiet

reap_concurrent_example :
    ((reap crowd_system 9 quiet).0 ≢ out_of_fuel)
    × (infos (reap crowd_system 9 quiet).1.ended ≡ [])
    × Accounted crowd_system
        (λ w. infos w.ended)
        (λ w. infos w.all)
        (λ w. w.signal)
        (λ w. w.map)
        crowd_to_come
        quiet
        (reap crowd_system 9 quiet).1
reap_concurrent_example =
    reap_concurrent crowd_system (λ w. infos w.ended) (λ w. infos w.all) (λ w. w.signal)
      (λ w. w.map) crowd_to_come crowd_kernel (record { fd = pos 3 }) crowd-TaskLaws 9 quiet
      (omega arith)

-- After the round two more children end.
abbrev collected : Crowd
collected = record {
  ended = [];
  all = 1 ∷ 2 ∷ 3 ∷ [];
  later = (4 ∷ 5 ∷ []) ∷ [];
  signal = true;
  map =
      (pos 4, exit_info (child_info 3))
      ∷ (pos 3, exit_info (child_info 2))
      ∷ (pos 2, exit_info (child_info 1))
      ∷ [];
}

abbrev ended_since : Crowd
ended_since = record collected {
  ended = 4 ∷ 5 ∷ [];
  all = 1 ∷ 2 ∷ 3 ∷ 4 ∷ 5 ∷ [];
  later = [];
  signal = true;
}

ended_since-Meanwhile : CrowdMeanwhile collected ended_since
ended_since-Meanwhile = record {
  arrivals = infos (4 ∷ 5 ∷ []);
  grown = refl;
  logged = refl;
  kept = refl;
  signalled = inr refl;
  no_more = omega arith;
}

read_round-Meanwhile_example : (infos ended_since.ended ≡ []) ⊎ (ended_since.signal ≡ true)
unfolding read_round read_bytes autorestart is_interrupted read would_block to_result reap waitid
    waitid_result
read_round-Meanwhile_example =
    read_round-Meanwhile crowd_system (λ w. infos w.ended) (λ w. infos w.all) (λ w. w.signal)
      (λ w. w.map) crowd_to_come crowd_kernel (record { fd = pos 3 }) crowd-TaskLaws 2 2 9 quiet
      collected ended_since refl ended_since-Meanwhile

crowd-WaitLaws : WaitLaws crowd_system (λ w. w.map)
crowd-WaitLaws = record { answers = λ pid info w e. (w, ap (λ o. (o, w)) e) }

-- The task has collected the child 1 and waits; then another child of its process id ends.
abbrev first_collected : Crowd
first_collected = record {
  ended = [];
  all = 1 ∷ [];
  later = (1 ∷ []) ∷ [];
  signal = false;
  map = (pos 2, exit_info (child_info 1)) ∷ [];
}

abbrev one_child : Crowd
one_child = record {
  ended = 1 ∷ [];
  all = 1 ∷ [];
  later = [] ∷ [] ∷ [] ∷ [] ∷ (1 ∷ []) ∷ [];
  signal = true;
  map = [];
}

abbrev same_pid_ended : Crowd
same_pid_ended = record first_collected {
  ended = 1 ∷ [];
  all = 1 ∷ 1 ∷ [];
  later = [];
  signal = true;
}

wait-read_loop_example :
    (wait crowd_system 1 (pos 2) same_pid_ended).0 ≡ ok (exit_info (child_info 1))
unfolding read_loop read_round read_bytes autorestart is_interrupted read would_block to_result reap
    waitid waitid_result
wait-read_loop_example =
    wait-read_loop crowd_system (λ w. infos w.ended) (λ w. infos w.all) (λ w. w.signal) (λ w. w.map)
      crowd_to_come crowd_kernel (record { fd = pos 3 }) 1 2 2 9 0 [] [] [] (child_info 1) one_child
      same_pid_ended crowd-TaskLaws crowd-WaitLaws refl refl tt
      (record {
        arrivals = infos (1 ∷ []);
        grown = refl;
        logged = refl;
        kept = refl;
        signalled = inr refl;
        no_more = omega arith;
      })
