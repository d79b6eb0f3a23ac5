-- ===== src/Process/Daemon.antt =====
-- 008process_Relation/03daemon.c: `myDaemon`.
use linux_c_program_exercris.Prelude.{ℕ, Bool, if◌then◌else◌}
use linux_c_program_exercris.Process.Kernel.{Kernel, Forked, fork_failed, in_child, in_parent}

module _ (k : Kernel) where
  open k use {
    Table, file_at, open_file, dup2, close, open_free, open_lowest, file_at-open, file_at-dup2,
    file_at-close,
  }

  -- The process goes on with a table, in a session of its own and in the root directory, or exits.
  pub data Became : Type 0 where
    daemon : Table → Became
    exits : ℕ → Became

  -- From `close(0)` on; `null` is the open file of /dev/null.
  unfoldable pub redirect : Table → ℕ → Table
  redirect t null = dup2 (dup2 (open_file (close t 0) null).1 0 1) 0 2

  -- The answers of `fork` and of `chdir`.
  unfoldable pub my_daemon : Table → ℕ → Forked → Bool → Became
  unfolding redirect
  my_daemon t null fork_failed chdir_ok = exits 1
  my_daemon t null (in_parent pid) chdir_ok = exits 0
  my_daemon t null in_child chdir_ok = if chdir_ok then daemon (redirect t null) else exits 1
