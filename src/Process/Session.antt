-- ===== src/Process/Session.antt =====
-- 008process_Relation/02session.c: a child that starts a session. Numbers of processes and of
-- sessions are closed as if they were descriptors.
use linux_c_program_exercris.Prelude.{
  ℕ, ◌≡◌, refl, sym, ap, ◌≢◌, Option, none, some, arith, ◌==◌, if◌then◌else◌, ℤ, pos, negsuc,
}
use linux_c_program_exercris.Process.Kernel.{Kernel, Forked, fork_failed, in_child, in_parent}

-- `close(session)` in the parent, where nothing has set the variable.
pub data Ended {ℓ} (T : Type ℓ) : Type ℓ where
  exits : ℤ → T → Ended T
  closes_unset : T → Ended T

module _ (k : Kernel) where
  open k use {Table, file_at, close, file_at-close}

  -- The answers of `fork` and of `setsid`, `none` where it fails.
  unfoldable pub session_main : Table → Forked → Option ℕ → Ended Table
  session_main t fork_failed s = exits (negsuc 0) t
  session_main t in_child none = exits (negsuc 1) (close t 0)
  session_main t in_child (some session) = exits (pos 0) (close (close t 0) session)
  session_main t (in_parent pid) s = closes_unset (close t pid)

  -- The child closes its standard input whether or not `setsid` succeeds, since its `pid` is 0,
  -- and then whatever has the number of the session; the parent closes what has the number of its
  -- child, and then reads a variable that is not set. No other descriptor is touched.
  pub session_main_closes :
      (t : Table) (s : Option ℕ) (pid : ℕ)
      → ((u : Table) × (n : ℤ) × (session_main t in_child s ≡ exits n u)
          × (file_at u 0 ≡ none)
          × ((g : ℕ) → g ≢ 0 → s ≢ some g → file_at u g ≡ file_at t g))
        × ((u : Table) × (session_main t (in_parent pid) s ≡ closes_unset u)
            × ((g : ℕ) → file_at u g ≡ (if g == pid then none else file_at t g)))
  unfolding session_main
  session_main_closes t none pid = (
    (
      close t 0,
      negsuc 1,
      refl,
      file_at-close t 0 0,
      λ g ne ns. ground (arith, file_at-close t 0 g),
    ),
    (close t pid, refl, file_at-close t pid),
  )
  session_main_closes t (some session) pid = (
    (
      close (close t 0) session,
      pos 0,
      refl,
      ground (arith, file_at-close (close t 0) session 0, file_at-close t 0 0),
      λ g ne ns.
          ground (arith, file_at-close (close t 0) session g, file_at-close t 0 g, other g ns),
    ),
    (close t pid, refl, file_at-close t pid),
  )
    where
      other : (g : ℕ) → some session ≢ some g → g ≢ session
      other g ns e = ns (ap some (sym e))
