-- ===== src/Epoll/Table.antt =====
-- 012_network_IO/03epoll/server.c: the table of clients, the registered set, and the end of a client.
use linux_c_program_exercris.Prelude.{
  ℕ, zero, suc, ◌≡◌, refl, ap, ◌∙◌, inl, inr, true, false, not, ◌&&◌, ◌||◌, some, List, [], ◌∷◌,
  arith, ◌==◌, Bool-cases, ℤ, pos, negsuc, length, drop,
}
use linux_c_program_exercris.Echo.{received}
use linux_c_program_exercris.Select.Scan.{AllFree, has}
use linux_c_program_exercris.Select.Table.{Distinct, FirstFree}
use linux_c_program_exercris.Epoll.Defs.{
  Server, Round, running, closed, update, find_free, close_slots, handle_event, max_open_file_num,
}

pub find_free-FirstFree : (cs : List ℤ) (i : ℕ) → find_free cs ≡ some i → FirstFree cs i
unfolding find_free
find_free-FirstFree [] i e = cc
find_free-FirstFree (negsuc k ∷ cs) zero e = tt
find_free-FirstFree (negsuc k ∷ cs) (suc i) e = cc
find_free-FirstFree (pos fd ∷ cs) zero e = ground arith
find_free-FirstFree (pos fd ∷ cs) (suc i) e = find_free-FirstFree cs i (ground arith)

has-AllFree : (cs : List ℤ) (f : ℕ) → AllFree cs → has cs f ≡ false
has-AllFree [] f a = refl
has-AllFree (negsuc k ∷ cs) f a = has-AllFree cs f a.1
has-AllFree (pos fd ∷ cs) f a = cc

-- Closing the slots of a descriptor takes it, and no other, out of the table.
has-close_slots :
    (n : ℕ) (cs : List ℤ) (fd f : ℕ)
    → AllFree (drop n cs)
    → has (close_slots n cs fd).0 f ≡ (has cs f && not (f == fd))
unfolding close_slots
has-close_slots zero cs fd f a = ground (arith, has-AllFree cs f a)
has-close_slots (suc n) [] fd f a = refl
has-close_slots (suc n) (negsuc k ∷ cs) fd f a = has-close_slots n cs fd f a
has-close_slots (suc n) (pos x ∷ cs) fd f a = ground (arith, has-close_slots n cs fd f a)

Distinct-close_slots :
    (n : ℕ) (cs : List ℤ) (fd : ℕ)
    → AllFree (drop n cs)
    → Distinct cs
    → Distinct (close_slots n cs fd).0
unfolding close_slots
Distinct-close_slots zero cs fd a d = d
Distinct-close_slots (suc n) [] fd a d = tt
Distinct-close_slots (suc n) (negsuc k ∷ cs) fd a d = Distinct-close_slots n cs fd a d
Distinct-close_slots (suc n) (pos x ∷ cs) fd a d = elim (Bool-cases (x == fd)) [
  | inl e ↦ rw e (Distinct-close_slots n cs fd a d.1)
  | inr e ↦
      rw e (ground (arith, has-close_slots n cs fd x a, d.0), Distinct-close_slots n cs fd a d.1)
]

AllFree-close_slots :
    (n : ℕ) (cs : List ℤ) (fd : ℕ) → AllFree (drop n cs) → AllFree (drop n (close_slots n cs fd).0)
unfolding close_slots
AllFree-close_slots zero cs fd a = a
AllFree-close_slots (suc n) [] fd a = tt
AllFree-close_slots (suc n) (negsuc k ∷ cs) fd a = AllFree-close_slots n cs fd a
AllFree-close_slots (suc n) (pos x ∷ cs) fd a = elim (Bool-cases (x == fd)) [
  | inl e ↦ rw e (AllFree-close_slots n cs fd a)
  | inr e ↦ rw e (AllFree-close_slots n cs fd a)
]

length-close_slots : (n : ℕ) (cs : List ℤ) (fd : ℕ) → length (close_slots n cs fd).0 ≡ length cs
unfolding close_slots
length-close_slots zero cs fd = refl
length-close_slots (suc n) [] fd = refl
length-close_slots (suc n) (negsuc k ∷ cs) fd = ap suc (length-close_slots n cs fd)
length-close_slots (suc n) (pos x ∷ cs) fd = ground (arith, length-close_slots n cs fd)

close_slots_none : (n : ℕ) (cs : List ℤ) (fd : ℕ) → has cs fd ≡ false → (close_slots n cs fd).1 ≡ []
unfolding close_slots
close_slots_none zero cs fd h = refl
close_slots_none (suc n) [] fd h = refl
close_slots_none (suc n) (negsuc k ∷ cs) fd h = close_slots_none n cs fd h
close_slots_none (suc n) (pos x ∷ cs) fd h = ground (arith, close_slots_none n cs fd)

-- A descriptor of the table is closed exactly once.
close_slots_once :
    (n : ℕ) (cs : List ℤ) (fd : ℕ)
    → AllFree (drop n cs)
    → Distinct cs
    → has cs fd ≡ true
    → (close_slots n cs fd).1 ≡ closed (pos fd) ∷ []
unfolding close_slots
close_slots_once zero cs fd a d h = ground (arith, has-AllFree cs fd a)
close_slots_once (suc n) [] fd a d h = cc
close_slots_once (suc n) (negsuc k ∷ cs) fd a d h = close_slots_once n cs fd a d h
close_slots_once (suc n) (pos x ∷ cs) fd a d h =
    ground (arith, close_slots_once n cs fd a d.1, close_slots_none n cs fd, d.0)

pub record IsRegistered (s : Server) : Type 0 where
  pub sized : length s.client ≡ max_open_file_num
  pub tail : AllFree (drop s.maxi s.client)
  pub apart : Distinct s.client
  pub own : has s.client s.listenfd ≡ false
  pub watch : (f : ℕ) → s.registered f ≡ (f == s.listenfd || has s.client f)

module _ (toupper : ℕ → ℕ) (r : Round) where
  pub ended-IsRegistered :
      (s : Server) (fd : ℕ)
      → IsRegistered s
      → (fd == s.listenfd) ≡ false
      → IsRegistered (record s {
        client = (close_slots s.maxi s.client fd).0;
        registered = update s.registered fd false;
      })
  ended-IsRegistered s fd v ne = record {
    sized = length-close_slots s.maxi s.client fd ∙ v.sized;
    tail = AllFree-close_slots s.maxi s.client fd v.tail;
    apart = Distinct-close_slots s.maxi s.client fd v.tail v.apart;
    own = ground (arith, has-close_slots s.maxi s.client fd s.listenfd v.tail, v.own);
    watch = λ f. ground (arith, has-close_slots s.maxi s.client fd f v.tail, v.watch f);
  }

  -- A client at the end of its stream is closed once, leaves the table and the registered set,
  -- and nobody else does.
  pub ended_client_leaves :
      (s : Server) (i fd : ℕ)
      → IsRegistered s
      → has s.client fd ≡ true
      → r.read fd ≡ received []
      → r.ctl fd ≡ true
      → (t : Server) × (handle_event toupper r s i (record { fd = fd; epollin = true })
          ≡ running t (closed (pos fd) ∷ []))
        × IsRegistered t
        × ((f : ℕ) → has t.client f ≡ (has s.client f && not (f == fd)))
  unfolding handle_event
  ended_client_leaves s i fd v h e c = (
    record s {
      client = (close_slots s.maxi s.client fd).0;
      registered = update s.registered fd false;
    },
    simp (ne, e, c, close_slots_once s.maxi s.client fd v.tail v.apart h),
    ended-IsRegistered s fd v ne,
    λ f. has-close_slots s.maxi s.client fd f v.tail,
  )
    where
      ne : (fd == s.listenfd) ≡ false
      ne = ground (arith, v.own)
