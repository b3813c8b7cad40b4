-- ===== src/DoFork/Unwinding.antt =====
-- The labels at the end of do_fork (sharedFolderHW2/fork.c), to which its errors jump.
use os_hw.Base.{ℕ}
use os_hw.Base.Words.{dec}
use os_hw.DoFork.State.{ForkEnv, World}

module _ {Held R : Type 0} (env : ForkEnv Held R) where
  -- The labels at the end of do_fork, each of which falls through to the next.
  unfoldable pub bad_fork_free : ℕ → World Held R → World Held R
  bad_fork_free p w = record w { held = env.free_task_struct p w.held }

  unfoldable pub bad_fork_cleanup_count : ℕ → World Held R → World Held R
  unfolding bad_fork_free
  bad_fork_cleanup_count p w =
      bad_fork_free p (record w { processes = dec w.processes; held = env.free_uid p w.held })

  unfoldable pub bad_fork_cleanup : ℕ → World Held R → World Held R
  unfolding bad_fork_cleanup_count
  bad_fork_cleanup p w =
      bad_fork_cleanup_count p (record w { held = env.dec_module p (env.put_exec_domain p w.held) })

  unfoldable pub bad_fork_cleanup_files : ℕ → World Held R → World Held R
  unfolding bad_fork_cleanup
  bad_fork_cleanup_files p w = bad_fork_cleanup p (record w { copies = env.exit_files p w.copies })

  unfoldable pub bad_fork_cleanup_fs : ℕ → World Held R → World Held R
  unfolding bad_fork_cleanup_files
  bad_fork_cleanup_fs p w = bad_fork_cleanup_files p (record w { copies = env.exit_fs p w.copies })

  unfoldable pub bad_fork_cleanup_sighand : ℕ → World Held R → World Held R
  unfolding bad_fork_cleanup_fs
  bad_fork_cleanup_sighand p w =
      bad_fork_cleanup_fs p (record w { copies = env.exit_sighand p w.copies })

  unfoldable pub bad_fork_cleanup_mm : ℕ → World Held R → World Held R
  unfolding bad_fork_cleanup_sighand
  bad_fork_cleanup_mm p w =
      bad_fork_cleanup_sighand p (record w { copies = env.exit_mm p w.copies })

  unfoldable pub bad_fork_cleanup_namespace : ℕ → World Held R → World Held R
  unfolding bad_fork_cleanup_mm
  bad_fork_cleanup_namespace p w =
      bad_fork_cleanup_mm p (record w { copies = env.exit_namespace p w.copies })
