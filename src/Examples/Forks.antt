-- ===== src/Examples/Forks.antt =====
-- do_fork at a concrete machine, which counts what the fork takes and has no memory for a new mm; the
-- files and the signal handlers are shared.
use os_hw.Base.{ℕ, zero, suc, ◌≡◌, refl, true, false, Option, none, some, arith}
use os_hw.DoFork.State.{ForkEnv, World, Progress}
use os_hw.DoFork.{do_fork, over_limit, fork_pid, fork_count}
use os_hw.NewPid.{get_pid, search_pid, scan, uses, lowered, bump, lower}
use os_hw.Capable.{capable}
use os_hw.DoFork.Labels.{IsRestored}
use os_hw.DoFork.Undo.{do_fork_fail}
use os_hw.Model.{enomem}
use os_hw.Examples.Filings.{kernel_of_files, sample_tasks}
use os_hw.Examples.Memories.{rest_of_kernel, sample_memory}
use os_hw.Files.{copy_files}
use os_hw.Memory.{copy_mm}
use os_hw.Samples.{sample_env, sample_kernel}

-- What is left of structs, and what is held of the rest.
record Stock : Type 0 where
  structs : ℕ
  users : ℕ
  modules : ℕ
  domains : ℕ

abbrev pred : ℕ → ℕ
pred zero = zero
pred (suc n) = n

abbrev alloc_struct : ℕ → Stock → Option (ℕ × Stock)
alloc_struct zero h = none
alloc_struct (suc n) h = some (9, record h { structs = n })

free-alloc_struct :
    (n : ℕ) (h h' : Stock) (p : ℕ)
    → h.structs ≡ n
    → alloc_struct n h ≡ some (p, h')
    → record h' { structs = suc h'.structs } ≡ h
free-alloc_struct zero h h' p n e = cc
free-alloc_struct (suc n) h h' p same e = ground arith

abbrev full_machine : ForkEnv Stock ℕ
full_machine = record {
  machine = sample_env;
  pid_max = 32768;
  nproc_limit = 8;
  alloc_task_struct = λ h. alloc_struct h.structs h;
  free_task_struct = λ p h. record h { structs = suc h.structs };
  free-alloc = λ h h' p e. free-alloc_struct h.structs h h' p refl e;
  hold_user = λ p h. record h { users = suc h.users };
  free_uid = λ p h. record h { users = pred h.users };
  free-hold = λ p h. refl;
  get_exec_domain = λ p h. record h { domains = suc h.domains };
  put_exec_domain = λ p h. record h { domains = pred h.domains };
  put-get = λ p h. refl;
  inc_module = λ p h. record h { modules = suc h.modules };
  dec_module = λ p h. record h { modules = pred h.modules };
  dec-inc = λ p h. refl;
  put-inc = λ p h. refl;
  files = kernel_of_files true;
  memory = record (rest_of_kernel 9 true) { allocate_mm = λ r. none };
  exit_files = λ p c. c;
  exit_fs = λ p c. c;
  exit_sighand = λ p c. c;
  exit_mm = λ p c. c;
  copy_namespace = λ flags p c. (c, true);
  exit_namespace = λ p c. c;
  copy_thread = λ flags p h. none;
  send_stop = λ p k. k;
}

abbrev before : World Stock ℕ
before = record {
  kernel = sample_kernel;
  held = record { structs = 2; users = 1; modules = 1; domains = 1 };
  copies = record {
    files = sample_tasks;
    memory = record sample_memory { rest = 4; f_count = sample_tasks.f_count };
  };
  processes = 2;
  nr_threads = 3;
  max_threads = 100;
  total_forks = 7;
  window = record { last_pid = 300; next_safe = 32768 };
}

abbrev world_of : Progress Stock ℕ ℕ → World Stock ℕ → World Stock ℕ
world_of Progress.halted d = d
world_of (Progress.failed w e) d = w
world_of (Progress.went p w) d = w

abbrev after : World Stock ℕ
after = world_of (do_fork full_machine 3 false 0xe00 before) before

after_fails : do_fork full_machine 3 false 0xe00 before ≡ Progress.failed after enomem
unfolding do_fork get_pid search_pid scan uses lowered bump lower fork_pid over_limit capable
    fork_count copy_files copy_mm
after_fails = refl

do_fork_fail_example : IsRestored before after
do_fork_fail_example =
    do_fork_fail full_machine 3 false 0xe00 before after enomem (omega arith) after_fails
