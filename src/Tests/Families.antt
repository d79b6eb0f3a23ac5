-- ===== src/Tests/Families.antt =====
-- 004_process/07child_2.c and 07wait_1.c: one schedule each.
use linux_c_program_exercris.Prelude.{
  ℕ, ◌+◌, ◌≤◌, ◌<◌, ◌≡◌, ◌⊎◌, some, List, [], ◌∷◌, ◌++◌, pos, negsuc, replicate, refl, Option, none,
  ℤ,
}
use linux_c_program_exercris.Process.Orphan.{
  IsGetppid, Parent, prints, returns, child_line, gone, Turn, of_parent, of_child, begin, run,
  child_lines, child_turns, rounds_in, status_after,
}
use linux_c_program_exercris.Process.Adopted.{orphan_is_adopted}
use linux_c_program_exercris.Process.Wait.{
  IsWait, Child, starts, sleeps, zombie, reaped, show_run, wait_run, answers, life,
}
use linux_c_program_exercris.Process.Wait
use linux_c_program_exercris.Process.Reaped.{child_is_reaped}

-- The child has a turn before its parent exits and two after.
abbrev turns : List Turn
turns = of_parent ∷ of_child ∷ of_parent ∷ of_child ∷ of_child ∷ []

abbrev getppid : Parent → ℕ
getppid prints = 100
getppid returns = 100
getppid gone = 1

getppid-IsGetppid : IsGetppid 100 1 getppid
getppid-IsGetppid = record { printing = refl; returning = refl; orphaned = refl }

abbrev wait : Child → Option (ℤ × Child)
wait starts = none
wait sleeps = none
wait zombie = some (pos 101, reaped)
wait reaped = some (negsuc 0, reaped)

wait-IsWait : IsWait 101 wait
wait-IsWait = record { awake = refl; asleep = refl; takes = refl; nobody = refl }

orphan_is_adopted_example :
    let f = run getppid 100 101 (begin (some 10)) turns in
    (own : ℕ) × (adopted : ℕ) × (child_lines f.out
      ≡ replicate own (child_line 101 100) ++ replicate adopted (child_line 101 1))
    × (own + adopted ≡ rounds_in (some 10) (child_turns turns))
    × ((f.parent ≡ gone) ⊎ (adopted ≡ 0))
    × (f.child_status ≡ status_after (some 10) (child_turns turns))
orphan_is_adopted_example = orphan_is_adopted getppid 100 1 101 getppid-IsGetppid (some 10) turns

child_is_reaped_example :
    let z = show_run Wait.begin turns in
    let f = wait_run wait Wait.begin turns in
    (z.child ≡ life (child_turns turns))
    × (answers z.out ≡ [])
    × (((f.child ≡ life (child_turns turns)) × (answers f.out ≡ []))
        ⊎ ((b : ℕ) × (2 ≤ child_turns turns)
            × (f.child ≡ reaped)
            × (answers f.out ≡ pos 101 ∷ replicate b (negsuc 0))))
    × ((child_turns turns < 2) ⊎ ((wait_run wait f (of_parent ∷ of_parent ∷ [])).child ≡ reaped))
child_is_reaped_example = child_is_reaped wait 101 wait-IsWait turns
