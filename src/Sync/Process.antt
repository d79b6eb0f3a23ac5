-- ===== src/Sync/Process.antt =====
-- 010_thread_sync/06thread_process_mutexattr_init.c: how `main` sets up the shared mapping, and
-- what it undoes at the end. The answers of the system calls are a record.
use linux_c_program_exercris.Prelude.{
  Bool, true, ℕ, ◌+◌, ◌≡◌, refl, ◌↔◌, inl, inr, ◌&&◌, List, [], ◌∷◌, if◌then◌else◌, Bool-cases, ℤ,
  pos, negsuc,
}

pub data SetupCall : Type 0 where
  opens closes_fd maps clears unmaps unlinks : SetupCall
  destroys_attr destroys_mutex waits : SetupCall

pub data Forked : Type 0 where
  fork_failed in_child in_parent : Forked

-- What the kernel answers: `true` where a call succeeds.
pub record SetupAnswers : Type 0 where
  pub open_ok : Bool
  pub truncate_ok : Bool
  pub mmap_ok : Bool
  pub forked : Forked

pub record Ran : Type 0 where
  pub calls : List SetupCall
  pub status : ℤ

-- From `pthread_mutexattr_destroy` on; parent and child both come here.
unfoldable pub tear_down : List SetupCall
tear_down = destroys_attr ∷ destroys_mutex ∷ unmaps ∷ unlinks ∷ []

unfoldable pub after_fork : Forked → List SetupCall
unfolding tear_down
after_fork fork_failed = tear_down
after_fork in_child = tear_down
after_fork in_parent = waits ∷ tear_down

unfoldable pub process_main : SetupAnswers → Ran
unfolding after_fork
process_main a =
    if a.open_ok
    then (if a.truncate_ok
        then (if a.mmap_ok
            then record {
              calls = opens ∷ maps ∷ closes_fd ∷ clears ∷ after_fork a.forked;
              status = pos 0;
            }
            else record { calls = opens ∷ closes_fd ∷ []; status = negsuc 2 })
        else record { calls = opens ∷ closes_fd ∷ []; status = negsuc 1 })
    else record { calls = []; status = negsuc 0 }

abbrev pub count_opens : List SetupCall → ℕ
count_opens [] = 0
count_opens (opens ∷ cs) = 1 + count_opens cs
count_opens (_ ∷ cs) = count_opens cs

abbrev pub count_closes : List SetupCall → ℕ
count_closes [] = 0
count_closes (closes_fd ∷ cs) = 1 + count_closes cs
count_closes (_ ∷ cs) = count_closes cs

abbrev pub count_maps : List SetupCall → ℕ
count_maps [] = 0
count_maps (maps ∷ cs) = 1 + count_maps cs
count_maps (_ ∷ cs) = count_maps cs

abbrev pub count_unmaps : List SetupCall → ℕ
count_unmaps [] = 0
count_unmaps (unmaps ∷ cs) = 1 + count_unmaps cs
count_unmaps (_ ∷ cs) = count_unmaps cs

-- Whatever fails, the file is closed as often as it was opened and the mapping released as often
-- as it was made; and the status is 0 exactly when all three calls have succeeded.
pub process_main_releases :
    (a : SetupAnswers)
    → (count_closes (process_main a).calls ≡ count_opens (process_main a).calls)
      × (count_unmaps (process_main a).calls ≡ count_maps (process_main a).calls)
      × (((process_main a).status ≡ pos 0) ↔ ((a.open_ok && (a.truncate_ok && a.mmap_ok)) ≡ true))
unfolding process_main
process_main_releases a = elim (Bool-cases a.open_ok) [
  | inr e ↦ simp e (refl, refl, (λ h. cc, λ h. cc))
  | inl e ↦ elim (Bool-cases a.truncate_ok) [
    | inr f ↦ simp (e, f) (refl, refl, (λ h. cc, λ h. cc))
    | inl f ↦ elim (Bool-cases a.mmap_ok) [
      | inr g ↦ simp (e, f, g) (refl, refl, (λ h. cc, λ h. cc))
      | inl g ↦ simp (e, f, g) (by_fork a.forked)
    ]
  ]
]
  where
    by_fork :
        (f : Forked)
        → (count_closes (opens ∷ maps ∷ closes_fd ∷ clears ∷ after_fork f)
            ≡ count_opens (opens ∷ maps ∷ closes_fd ∷ clears ∷ after_fork f))
          × (count_unmaps (opens ∷ maps ∷ closes_fd ∷ clears ∷ after_fork f)
              ≡ count_maps (opens ∷ maps ∷ closes_fd ∷ clears ∷ after_fork f))
          × ((pos 0 ≡ pos 0) ↔ (true ≡ true))
    by_fork fork_failed = (refl, refl, (λ h. refl, λ h. refl))
    by_fork in_child = (refl, refl, (λ h. refl, λ h. refl))
    by_fork in_parent = (refl, refl, (λ h. refl, λ h. refl))
