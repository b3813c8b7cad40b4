-- ===== src/Lib.antt =====
-- The scheduler of the kernel of OS_HW2: Linux 2.4 with the O(1) scheduler, to which the course's work
-- adds the policy SCHED_SHORT. A SHORT task asks for a time of up to 3 s, runs before all ordinary
-- tasks, is overdue when the time is used up, runs then after all others for twice that time, and is
-- an ordinary task again. The sources are in sharedFolderHW2.
--
-- The parts, and how they interact:
-- - Model: task_struct, sched_param, the priorities and the policies of sched.h, prio_array and
--   runqueue of sched.c, and the machine: all tasks by number, the four arrays by number (0 and 1 are
--   active and expired in some order, 2 is rt_short, 3 is overdue), the runqueue, current, jiffies.
-- - Prio: the macros and predicates at the head of sched.c, OS_TASK_TIMESLICE and effective_prio.
-- - Links: list.h, as two pointers at each place of a memory. Links.Ring says what ring of places is
--   the list of which list, which is what the other parts work on.
-- - Queue: dequeue_task and enqueue_task of sched.c over the lists of list.h. A list_head is the list
--   of the tasks on it; the recursion of enqueue_task for a task that forks is bounded by the number
--   of the tasks with the flag justGotForked, of which each call clears one.
-- - Runqueue: activate_task to sched_exit of sched.c.
-- - Tick: scheduler_tick of sched.c. Schedule: schedule of sched.c, one pass and the loop on passes.
-- - SetScheduler: setscheduler, sched_setscheduler and sched_setparam of sched.c.
-- - Pid: the PID hash of sched.h. Capable: capable, suser and fsuser of sched.h.
-- - Nice: set_user_nice and sys_nice. Getters: sched_getscheduler to sched_rr_get_interval. Yield:
--   sched_yield. Wait: __wake_up_common, __wake_up and complete, and Wait.Sleep: wait_for_completion
--   and sleep_on, with their loops bounded. All of sched.c.
-- - Family: SET_LINKS, REMOVE_LINKS and unhash_process of sched.h. Signals: has_pending_signals and
--   recalc_sigpending of sched.h, and render_sigset_t of sched.c. Affinity: sched_setaffinity and
--   sched_getaffinity of sched.c.
-- - Boot: sched_init and init_idle of sched.c, and INIT_TASK of sched.h.
-- - Balance: double_lock_balance, load_balance and idle_tick of sched.c, for several processors. The
--   tasks and arrays are those of Model; each processor has a runqueue, with numbers of arrays of its
--   own. What other processors do while a lock is waited for is a parameter. The search for tasks is
--   bounded by a number of runs, and Balance.Runs says that 282 are enough.
-- - Migration: double_rq_lock, task_rq_lock, wait_task_inactive, set_cpus_allowed and a pass of
--   migration_thread of sched.c, for several processors, with bounds on the tries for a lock. What is
--   the code of both builds is that of Runqueue, done on the runqueue of one processor.
-- - LowLatency: ll_copy_to_user and ll_copy_from_user of sched.c, bounded by a number of pieces.
-- - Memory: dup_mmap, mm_init, mm_alloc, mmput, mm_release and copy_mm of fork.c, and mmdrop of sched.h.
--   The list of all mm_structs is a ring of Links.
-- - Files: copy_fs, copy_files and copy_sighand of fork.c. An fd_set is a function of the bit.
-- - Fork: the part of do_fork of fork.c that shares the time slice. DoFork: do_fork as a whole, with
--   its error labels; it calls the copies of Files and Memory. The task structs, users, modules and
--   execution domains that it takes hold of for the child are a value of a type of the environment
--   ForkEnv, whose operations undo one another as the record's laws say; exit_files, exit_mm and the
--   like, copy_namespace and copy_thread, which are in other files, are functions of it without a law.
--   A fork that meets BUG() or runs out of the bound on get_pid is halted.
-- - NewPid: get_pid of fork.c, with PID_MAX as a parameter. Its loop is bounded by a number of runs; the
--   theorems are on one run, which needs no bound.
-- - Syscalls: is_short, short_remaining_time and was_short of hw2_syscalls.c. Wrappers: the functions
--   of hw2_syscalls.h by which a program calls them.
-- - Valid: the invariant of the machine between two steps. Every task stands on at most one list, on
--   the one of its priority, of the array of its class; bitmaps and counts agree with the lists; the
--   number of the running tasks is that of the tasks on the arrays. No task has the flag justGotForked,
--   so that the theorems on valid states say nothing of the moments between a fork of a SHORT task
--   and the enqueue_task that clears the flag.
-- - Machine: the steps of the scheduler in any order, as a relation, and what can be reached by them.
-- - Samples and Examples: a concrete machine, and the theorems at concrete states.
--
-- But for Balance and Migration, the model is the build for one processor (no CONFIG_SMP), so that
-- locks take no effect. An unsigned int or long is a number below 2 ^ 32 with its wrap-around written out. HZ, the search of the bitmap
-- and cap_raised are parameters, with what the code relies on as the laws of the record Env. A loop of
-- schedule is bounded by a number of passes, and Schedule.Ending says which bound is enough.
--
-- Not modelled: the start of the migration threads, the lists of areas that share a file, timers,
-- printing, the assembly of entry.S, and the tests.
pub mod Balance
pub mod Migration
pub mod LowLatency
pub mod Wrappers
pub mod Base
pub mod Model
pub mod Prio
pub mod Queue
pub mod Runqueue
pub mod Tick
pub mod Schedule
pub mod Capable
pub mod Pid
pub mod Links
pub mod Affinity
pub mod Family
pub mod Files
pub mod Memory
pub mod Signals
pub mod Machine
pub mod SetScheduler
pub mod Syscalls
pub mod Boot
pub mod Fork
pub mod DoFork
pub mod NewPid
pub mod Yield
pub mod Nice
pub mod Wait
pub mod Getters
pub mod Valid
pub mod Samples
pub mod Examples
