-- ===== src/Poll/Entries.antt =====
-- 012_network_IO/02poll/server.c: the entries as the loop keeps them, and what a new connection or a
-- failed `accept` makes of them.
use linux_c_program_exercris.Prelude.{
  ℕ, zero, suc, ◌+◌, ◌<◌, ◌≤◌, ◌≡◌, refl, ap, ◌∙◌, inl, inr, false, some, List, [], ◌∷◌, arith, leb,
  if◌then◌else◌, ℤ, pos, negsuc, length, get_elem?, set, drop, length-set,
}
use linux_c_program_exercris.Select.Scan.{AllFree, has}
use linux_c_program_exercris.Select.Table.{Distinct, Distinct-set, AllFree-set, FirstFree}
use linux_c_program_exercris.Poll.Defs.{PollFd, store, max_open_file_num}
use linux_c_program_exercris.Poll.Table.{
  fds, fds-store, Thinned, length-Thinned, Distinct-Thinned, AllFree-Thinned, Thinned-same,
}

-- The entries: the listening socket first, each descriptor once, and none past the maximum.
pub record IsTable (l : ℕ) (cs : List PollFd) (n : ℕ) : Type 0 where
  pub own : get_elem? (fds cs) 0 ≡ some (pos l)
  pub sized : length (fds cs) ≡ max_open_file_num
  pub apart : Distinct (fds cs)
  pub tail : AllFree (drop n (fds cs))
  pub some_given : 0 < n

pub Thinned-IsTable :
    (l n : ℕ) (cs ds : List PollFd)
    → Thinned (fds cs) (fds ds)
    → get_elem? (fds ds) 0 ≡ some (pos l)
    → IsTable l cs n
    → IsTable l ds n
Thinned-IsTable l n cs ds t own v = record {
  own = own;
  sized = length-Thinned (fds cs) (fds ds) t ∙ v.sized;
  apart = Distinct-Thinned (fds cs) (fds ds) t v.apart;
  tail = AllFree-Thinned n (fds cs) (fds ds) t v.tail;
  some_given = v.some_given;
}

head_stays :
    (ds : List ℤ) (i l : ℕ) (x : ℤ)
    → FirstFree ds i
    → get_elem? ds 0 ≡ some (pos l)
    → get_elem? (set ds i x) 0 ≡ some (pos l)
head_stays [] i l x free own = cc
head_stays (negsuc k ∷ ds) i l x free own = cc
head_stays (pos f ∷ ds) zero l x free own = elim free [ ]
head_stays (pos f ∷ ds) (suc i) l x free own = own

pub Thinned-set : (ds : List ℤ) (i : ℕ) → Thinned ds (set ds i (negsuc 0))
Thinned-set [] zero = tt
Thinned-set [] (suc i) = tt
Thinned-set (d ∷ ds) zero = (inr refl, Thinned-same ds)
Thinned-set (d ∷ ds) (suc i) = (inl refl, Thinned-set ds i)

AllFree-later : (n m : ℕ) (ds : List ℤ) → n ≤ m → AllFree (drop n ds) → AllFree (drop m ds)
AllFree-later zero zero ds h a = a
AllFree-later zero (suc m) [] h a = tt
AllFree-later zero (suc m) (d ∷ ds) h a = AllFree-later zero m ds (omega arith) a.1
AllFree-later (suc n) zero ds h a = absurd (omega arith)
AllFree-later (suc n) (suc m) [] h a = tt
AllFree-later (suc n) (suc m) (d ∷ ds) h a = AllFree-later n m ds (omega arith) a

-- A new client in the first free entry.
pub stored-IsTable :
    (l n i fd : ℕ) (cs : List PollFd)
    → IsTable l cs n
    → FirstFree (fds cs) i
    → has (fds cs) fd ≡ false
    → IsTable l (store (pos fd) i cs) (if leb n i then i + 1 else n)
stored-IsTable l n i fd cs v free new =
    let e = fds-store (pos fd) i cs in
    record {
      own = rw e (head_stays (fds cs) i l (pos fd) free v.own);
      sized = ap length e ∙ length-set (fds cs) i (pos fd) ∙ v.sized;
      apart = rw e (Distinct-set (fds cs) i fd free new v.apart);
      tail = rw e (AllFree-set (fds cs) n i fd free v.tail);
      some_given = ground (arith, v.some_given);
    }

-- A failed `accept` puts -1 there.
pub refused-IsTable :
    (l n i : ℕ) (cs : List PollFd)
    → IsTable l cs n
    → FirstFree (fds cs) i
    → IsTable l (store (negsuc 0) i cs) (if leb n i then i + 1 else n)
refused-IsTable l n i cs v free =
    let e = fds-store (negsuc 0) i cs in
    let t = Thinned-set (fds cs) i in
    record {
      own = rw e (head_stays (fds cs) i l (negsuc 0) free v.own);
      sized = ap length e ∙ length-set (fds cs) i (negsuc 0) ∙ v.sized;
      apart = rw e (Distinct-Thinned (fds cs) _ t v.apart);
      tail = rw e (AllFree-later n _ _ (ground arith) (AllFree-Thinned n (fds cs) _ t v.tail));
      some_given = ground (arith, v.some_given);
    }
