-- ===== src/Tests/World.antt =====
-- The constants of Linux on x86-64, and a kernel on which every call answers 0 and changes nothing.
use avfork.Base.{◌-◌, ◌^◌, Bool, [], none, some}
use avfork.Base.Int.{pos, negsuc}
use avfork.Outcome.{ok}
use avfork.Kernel.{Libc, Kernel}

abbrev pub linux : Libc
linux = record {
  eintr = 4;
  eacces = 13;
  enoent = 2;
  estale = 116;
  enotdir = 20;
  enodev = 19;
  etimedout = 110;
  o_rdonly = 0;
  o_wronly = 1;
  o_rdwr = 2;
  o_creat = 0o100;
  o_excl = 0o200;
  o_tmpfile = 0o20200000;
  o_cloexec = 0o2000000;
  o_path = 0o10000000;
  o_directory = 0o200000;
  o_nofollow = 0o400000;
  sched_other = 0;
  sched_fifo = 1;
  sched_rr = 2;
  sched_batch = 3;
  sched_idle = 5;
  prio_process = 0;
  prio_pgrp = 1;
  prio_user = 2;
  sig_block = 0;
  sig_unblock = 1;
  sig_setmask = 2;
  at_fdcwd = negsuc 99;
}

abbrev pub idle_kernel : {W : Type 0} → Bool → Kernel W
idle_kernel checks = record {
  libc = linux;
  debug_assertions = checks;
  psys_openat = λ dirfd path flags mode w. (pos 0, w);
  psys_dup = λ oldfd w. (pos 0, w);
  psys_dup3 = λ oldfd newfd flags w. (pos 0, w);
  psys_pipe2 = λ fds flag w. (pos 0, fds, w);
  psys_close = λ fd w. (pos 0, w);
  psys_read = λ fd len w. (pos 0, [], w);
  psys_write = λ fd buf w. (pos 0, w);
  psys_fchdir = λ fd w. (pos 0, w);
  psys_chdir = λ path w. (pos 0, w);
  psys_setresuid = λ r e s w. (pos 0, w);
  psys_setresgid = λ r e s w. (pos 0, w);
  psys_setgroups = λ size list w. (pos 0, w);
  psys_sched_setparam = λ pid param w. (pos 0, w);
  psys_sched_getparam = λ pid w. (pos 0, none, w);
  psys_sched_getscheduler = λ pid w. (pos 0, w);
  psys_sched_setscheduler = λ pid policy param w. (pos 0, w);
  psys_prlimit = λ resource limit w. (pos 0, none, w);
  psys_getpriority = λ which who w. (pos 0, w);
  psys_setpriority = λ which who prio w. (pos 0, w);
  psys_sigprocmask = λ how set w. (pos 0, none, w);
  psys_getpid = λ w. (pos 1, w);
  psys_get_pagesz = λ w. (pos 4096, w);
  pure_sigemptyset = some 0;
  pure_sigfillset = some (2 ^ 64 - 1);
  psys_exit = λ status w. w;
  psys_execve = λ path argv envp w. (ok (pos 0), w);
  psys_execveat = λ dirfd path argv envp flags w. (ok (pos 0), w);
}
