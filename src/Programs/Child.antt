-- ===== src/Programs/Child.antt =====
-- The functions of Programs that run in the child never return to it: they end in an exec or in an
-- exit, after a message.
use avfork.Base.{ℕ, suc, ◌+◌, ◌^◌, ◌<◌, ◌≡◌, refl, sym, subst, List, [], ◌∷◌, codes, length, All}
use avfork.Base.Int.{ℤ, pos, negsuc, IsI32}
use avfork.Outcome.{SyscallError, Outcome, ok, replaced, Sys, continue_with, ◌>>◌}
use avfork.Kernel.{Kernel, Bytes}
use avfork.Error.Codes.{to_result_negative}
use avfork.Syscall.Io.WriteAll.{WriteLaws}
use avfork.Syscall.Raw.{chdir}
use avfork.Syscall.Raw.Results.{syscall_ok, syscall_err}
use avfork.Syscall.Fd.{Fd}
use avfork.Syscall.Candidate.{with_null, cstr_array, pointed_strings}
use avfork.Syscall.Exec.{exec_error, execve}
use avfork.Utility.{fatal_text, errx_impl, expect_fmt, expect, unwrap}
use avfork.Utility.Fatal.{Exits, errx_impl-Exits}
use avfork.Programs.{exec_or_die, cd_exec_callback}

abbrev pub exec_text : List Bytes → List Bytes
exec_text debug = fatal_text (codes "execve failed: " ∷ debug)

abbrev pub unwrap_text : List Bytes → List Bytes
unwrap_text debug = fatal_text (codes "unwrap failed" ∷ codes ": " ∷ debug)

abbrev pub ls_path : Bytes
ls_path = codes "/bin/ls"

-- The callee reads the strings that the macro `CStrArray!` was given.
pointed_strings-with_null : (ss : List Bytes) → pointed_strings (with_null ss) ≡ ok ss
unfolding pointed_strings
pointed_strings-with_null [] = refl
pointed_strings-with_null (s ∷ ss) = rw (pointed_strings-with_null ss) refl

-- execve(2) returns only to report an error.
abbrev pub IsExecAnswer : {W : Type 0} → Outcome ℤ × W → Type 0
IsExecAnswer (replaced, v) = Unit
IsExecAnswer (ok (negsuc n), v) = n < 2 ^ 31
IsExecAnswer _ = ⊥

module _ {W : Type 0} (sys : Kernel W) (stream : W → Bytes) (interruptions : W → ℕ)
    (laws : WriteLaws sys (pos 2) stream interruptions) (debug : SyscallError → List Bytes)
    (fuel : ℕ) where
  -- Fuel for both messages.
  abbrev pub Enough : W → Type 0
  Enough v =
      (e : SyscallError)
      → All (λ p. length p + interruptions v < fuel) (exec_text (debug e))
        × All (λ p. length p + interruptions v < fuel) (unwrap_text (debug e))

  -- What becomes of a child with this answer to its execve: the new program, or a message and the
  -- status 1.
  abbrev pub Leaves : Outcome ℤ × W → Outcome (ℤ × ℕ) × W → Type 0
  Leaves (replaced, v) r = r ≡ (replaced, v)
  Leaves (ok (negsuc n), v) r =
      Exits sys stream interruptions laws (pos 1) (exec_text (debug (record { errno = suc n }))) v r
  Leaves _ r = ⊥

  exec_error_negative :
      (n : ℕ) → n < 2 ^ 31 → exec_error sys (negsuc n) ≡ ok (record { errno = suc n })
  unfolding exec_error
  exec_error_negative n small =
      rw (exec_error, to_result_negative sys.debug_assertions n small) refl

  exec_or_die_failed :
      (pathname : Bytes) (argv envp : List Bytes) (w v : W) (n : ℕ)
      → sys.psys_execve pathname argv envp w ≡ (ok (negsuc n), v)
      → n < 2 ^ 31
      → exec_or_die sys fuel debug pathname argv envp w
        ≡ errx_impl sys fuel (pos 1) (codes "execve failed: " ∷ debug (record { errno = suc n })) v
  unfolding exec_or_die execve cstr_array
  exec_or_die_failed pathname argv envp w v n e small =
      rw (execve, pointed_strings-with_null argv, pointed_strings-with_null envp, e)
        (rw (continue_with, exec_error_negative n small) refl)

  exec_or_die-Leaves :
      (pathname : Bytes) (argv envp : List Bytes) (w : W) (t : Outcome ℤ × W)
      → sys.psys_execve pathname argv envp w ≡ t
      → IsExecAnswer t
      → Enough t.1
      → Leaves t (exec_or_die sys fuel debug pathname argv envp w)
  unfolding exec_or_die execve cstr_array
  exec_or_die-Leaves pathname argv envp w (replaced, v) e h enough =
      rw (execve, pointed_strings-with_null argv, pointed_strings-with_null envp, e) refl
  exec_or_die-Leaves pathname argv envp w (ok (negsuc n), v) e h enough =
      subst
        (Exits sys stream interruptions laws (pos 1) (exec_text (debug (record { errno = suc n })))
          v)
        (sym (exec_or_die_failed pathname argv envp w v n e h))
        (errx_impl-Exits sys stream interruptions laws fuel (pos 1) _ v
          (enough (record { errno = suc n })).0)
  exec_or_die-Leaves pathname argv envp w (_, v) e h enough = elim h [ ]

  -- The execve of the callback that changes its directory first.
  abbrev pub exec_ls : W → Outcome ℤ × W
  exec_ls = sys.psys_execve ls_path (ls_path ∷ []) (codes "A=B" ∷ [])

  -- What becomes of this child with the answers to its execve and to its chdir.
  abbrev pub LeavesFrom : W → Outcome (ℤ × ℕ) × W → Type 0
  LeavesFrom v r = Leaves (exec_ls v) r

  abbrev pub CdLeaves : ℤ × W → Outcome (ℤ × ℕ) × W → Type 0
  CdLeaves (pos n, v) r = LeavesFrom v r
  CdLeaves (negsuc n, v) r =
      Exits sys stream interruptions laws (pos 1) (unwrap_text (debug (record { errno = suc n }))) v
        r

  cd_failed :
      (fd : Fd) (old_sigset : ℕ) (w v : W) (n : ℕ)
      → sys.psys_chdir (codes "/tmp") w ≡ (negsuc n, v)
      → n < 2 ^ 31
      → cd_exec_callback sys fuel debug fd old_sigset w
        ≡ (errx_impl sys fuel {A = Unit {0}}
                (pos 1)
                (codes "unwrap failed" ∷ codes ": " ∷ debug (record { errno = suc n }))
              >> exec_or_die sys fuel debug ls_path (ls_path ∷ []) (codes "A=B" ∷ []))
            v
  unfolding cd_exec_callback unwrap expect expect_fmt chdir
  cd_failed fd old_sigset w v n e small =
      rw (cd_exec_callback, chdir, syscall_err sys (sys.psys_chdir (codes "/tmp")) w v n small e)
        refl

  cd_done :
      (fd : Fd) (old_sigset : ℕ) (w v : W) (n : ℕ)
      → sys.psys_chdir (codes "/tmp") w ≡ (pos n, v)
      → cd_exec_callback sys fuel debug fd old_sigset w
        ≡ exec_or_die sys fuel debug ls_path (ls_path ∷ []) (codes "A=B" ∷ []) v
  unfolding cd_exec_callback unwrap expect expect_fmt chdir
  cd_done fd old_sigset w v n e =
      rw (cd_exec_callback, chdir, syscall_ok sys (sys.psys_chdir (codes "/tmp")) w v n e) refl

  Exits-then :
      {A B : Type 0} (text : List Bytes) (w : W) (f : A → Sys W B) (r : Outcome A × W)
      → Exits sys stream interruptions laws (pos 1) text w r
      → Exits sys stream interruptions laws (pos 1) text w (continue_with r.0 f r.1)
  Exits-then text w f r (v, o, e, d) = (v, o, rw e refl, d)

  -- The child of the example, and of the test that changes the directory and execs, never returns
  -- into the frame that it shares with its parent: it becomes the new program, or it exits with
  -- the status 1 after a message that names the error of chdir or of execve, of which STDERR has got
  -- all, or a part at its front behind which a write(2) has failed; after an error of chdir it does
  -- not exec. chdir answers a c_int, execve returns
  -- errors only, STDERR follows `WriteLaws`, and the fuel is enough for the messages.
  pub cd_exec_callback-CdLeaves :
      (fd : Fd) (old_sigset : ℕ) (w : W)
      → IsI32 (sys.psys_chdir (codes "/tmp") w).0
      → IsExecAnswer (exec_ls (sys.psys_chdir (codes "/tmp") w).1)
      → Enough (sys.psys_chdir (codes "/tmp") w).1
      → Enough (exec_ls (sys.psys_chdir (codes "/tmp") w).1).1
      → CdLeaves (sys.psys_chdir (codes "/tmp") w) (cd_exec_callback sys fuel debug fd old_sigset w)
  cd_exec_callback-CdLeaves fd old_sigset w = go (sys.psys_chdir (codes "/tmp") w) refl
    where
      go :
          (t : ℤ × W)
          → sys.psys_chdir (codes "/tmp") w ≡ t
          → IsI32 t.0
          → IsExecAnswer (exec_ls t.1)
          → Enough t.1
          → Enough (exec_ls t.1).1
          → CdLeaves t (cd_exec_callback sys fuel debug fd old_sigset w)
      go (pos n, v) e h answer enough enough' =
          subst (LeavesFrom v) (sym (cd_done fd old_sigset w v n e)) (
            exec_or_die-Leaves ls_path (ls_path ∷ []) (codes "A=B" ∷ []) v (exec_ls v) refl answer
              enough')
      go (negsuc n, v) e h answer enough enough' =
          subst
            (Exits sys stream interruptions laws (pos 1)
              (unwrap_text (debug (record { errno = suc n }))) v)
            (sym (cd_failed fd old_sigset w v n e h.1))
            (Exits-then {A = Unit {0}} (unwrap_text (debug (record { errno = suc n }))) v
              (λ _. exec_or_die sys fuel debug ls_path (ls_path ∷ []) (codes "A=B" ∷ []))
              (errx_impl sys fuel (pos 1)
                (codes "unwrap failed" ∷ codes ": " ∷ debug (record { errno = suc n })) v)
              (errx_impl-Exits sys stream interruptions laws fuel (pos 1)
                (codes "unwrap failed" ∷ codes ": " ∷ debug (record { errno = suc n })) v
                (enough (record { errno = suc n })).1))
