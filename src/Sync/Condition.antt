-- ===== src/Sync/Condition.antt =====
-- 010_thread_sync/04thread_sync_pthread_cond.c: a producer that pushes messages on a list, and a
-- consumer that pops them under a mutex and sleeps on a condition while the list is empty.
-- A message is its number; the list hangs on `head` alone, so it is a list of numbers.
use linux_c_program_exercris.Prelude.{ℕ, ◌≡◌, refl, ap, List, [], ◌∷◌, ◌++◌, append_assoc, ◌≢◌}
use mathlib.Core.List.{Perm, perm_middle}
use mathlib.Core.List.Perm

pub data ProducerPc : Type 0 where
  making : ProducerPc
  made : ℕ → ProducerPc  -- mp->num, before the lock
  linked : ProducerPc  -- unlocked, before the signal

pub data ConsumerPc : Type 0 where
  entering : ConsumerPc  -- before the lock
  sleeping : ConsumerPc  -- in pthread_cond_wait
  woken : ConsumerPc  -- out of it, before it has the lock again
  holding : ℕ → ConsumerPc  -- mp is unlinked and the mutex released, before free(mp)

pub record System : Type 0 where
  pub head : List ℕ
  pub producer : ProducerPc
  pub consumer : ConsumerPc
  pub produced : List ℕ
  pub freed : List ℕ

unfoldable pub start : System
start = record { head = []; producer = making; consumer = entering; produced = []; freed = [] }

-- `pthread_cond_signal`, and a wake-up that nobody asked for: a sleeper is let go, any other
-- thread is left alone.
unfoldable pub wake : ConsumerPc → ConsumerPc
wake entering = entering
wake sleeping = woken
wake woken = woken
wake (holding n) = holding n

-- A section of the producer; `x` is the number that `rand` makes.
unfoldable pub produce : System → ProducerPc → ℕ → System
unfolding wake
produce s making x = record s { producer = made x }
produce s (made n) x = record s { head = n ∷ s.head; producer = linked; produced = n ∷ s.produced }
produce s linked x = record s { producer = making; consumer = wake s.consumer }

-- The consumer under the lock, from the test of the inner `while` on.
unfoldable pub take_head : System → List ℕ → System
take_head s [] = record s { consumer = sleeping }
take_head s (n ∷ rest) = record s { head = rest; consumer = holding n }

unfoldable pub consume : System → ConsumerPc → System
unfolding take_head
consume s entering = take_head s s.head
consume s sleeping = s
consume s woken = take_head s s.head
consume s (holding n) = record s { consumer = entering; freed = n ∷ s.freed }

pub data Turn : Type 0 where
  producing : ℕ → Turn
  consuming : Turn
  spurious : Turn

unfoldable pub step : System → Turn → System
unfolding produce consume wake
step s (producing x) = produce s s.producer x
step s consuming = consume s s.consumer
step s spurious = record s { consumer = wake s.consumer }

unfoldable pub run : System → List Turn → System
unfolding step
run s [] = s
run s (t ∷ ts) = run (step s t) ts

abbrev pub in_hand : ConsumerPc → List ℕ
in_hand (holding n) = n ∷ []
in_hand _ = []

-- Each message is in the list, in the consumer's hand, or freed.
abbrev Balanced : System → Type 0
Balanced s = Perm s.produced (s.freed ++ (in_hand s.consumer ++ s.head))

wake-in_hand : (c : ConsumerPc) → in_hand (wake c) ≡ in_hand c
unfolding wake
wake-in_hand entering = refl
wake-in_hand sleeping = refl
wake-in_hand woken = refl
wake-in_hand (holding n) = refl

produce-Balanced : (s : System) (p : ProducerPc) (x : ℕ) → Balanced s → Balanced (produce s p x)
unfolding produce
produce-Balanced s making x b = b
produce-Balanced s (made n) x b = rw (← append_assoc s.freed (in_hand s.consumer) (n ∷ s.head)) (
    Perm.trans (Perm.cons n (rw (← append_assoc s.freed (in_hand s.consumer) s.head) at b))
      (Perm.symm (perm_middle (s.freed ++ in_hand s.consumer) s.head)))
produce-Balanced s linked x b = rw (wake-in_hand s.consumer) b

take_head-Balanced :
    (s : System) (l : List ℕ)
    → s.head ≡ l
    → in_hand s.consumer ≡ []
    → Balanced s
    → Balanced (take_head s l)
unfolding take_head
take_head-Balanced s [] e h b = rw h at b
take_head-Balanced s (n ∷ rest) e h b = rw (h, e) at b

consume-Balanced :
    (s : System) (c : ConsumerPc) → s.consumer ≡ c → Balanced s → Balanced (consume s c)
unfolding consume
consume-Balanced s entering e b = take_head-Balanced s s.head refl (ap in_hand e) b
consume-Balanced s sleeping e b = b
consume-Balanced s woken e b = take_head-Balanced s s.head refl (ap in_hand e) b
consume-Balanced s (holding n) e b = Perm.trans (rw e at b) (perm_middle s.freed s.head)

step-Balanced : (s : System) (t : Turn) → Balanced s → Balanced (step s t)
unfolding step
step-Balanced s (producing x) b = produce-Balanced s s.producer x b
step-Balanced s consuming b = consume-Balanced s s.consumer refl b
step-Balanced s spurious b = rw (wake-in_hand s.consumer) b

run-Balanced : (s : System) (ts : List Turn) → Balanced s → Balanced (run s ts)
unfolding run
run-Balanced s [] b = b
run-Balanced s (t ∷ ts) b = run-Balanced (step s t) ts (step-Balanced s t b)

-- In every schedule each message that was linked is, as often as it was produced, freed, in the
-- consumer's hand, or on the list: none is lost, none freed twice.
pub messages_balance :
    (ts : List Turn)
    → Perm
        (run start ts).produced
        ((run start ts).freed ++ (in_hand (run start ts).consumer ++ (run start ts).head))
unfolding start
messages_balance ts = run-Balanced start ts Perm.rfl

-- A sleeper over a list that is not empty will still be signalled.
abbrev Signalled : System → Type 0
Signalled s = s.consumer ≡ sleeping → s.head ≢ [] → s.producer ≡ linked

wake-ne-sleeping : (c : ConsumerPc) → wake c ≢ sleeping
unfolding wake
wake-ne-sleeping entering e = cc
wake-ne-sleeping sleeping e = cc
wake-ne-sleeping woken e = cc
wake-ne-sleeping (holding n) e = cc

produce-Signalled :
    (s : System) (p : ProducerPc) (x : ℕ) → s.producer ≡ p → Signalled s → Signalled (produce s p x)
unfolding produce
produce-Signalled s making x e h = λ a b. cc (h a b)
produce-Signalled s (made n) x e h = λ a b. refl
produce-Signalled s linked x e h = λ a b. absurd (wake-ne-sleeping s.consumer a)

take_head-Signalled : (s : System) (l : List ℕ) → s.head ≡ l → Signalled (take_head s l)
unfolding take_head
take_head-Signalled s [] e = λ a b. absurd (b e)
take_head-Signalled s (n ∷ rest) e = λ a b. cc

consume-Signalled : (s : System) (c : ConsumerPc) → Signalled s → Signalled (consume s c)
unfolding consume
consume-Signalled s entering h = take_head-Signalled s s.head refl
consume-Signalled s sleeping h = h
consume-Signalled s woken h = take_head-Signalled s s.head refl
consume-Signalled s (holding n) h = λ a b. cc

step-Signalled : (s : System) (t : Turn) → Signalled s → Signalled (step s t)
unfolding step
step-Signalled s (producing x) h = produce-Signalled s s.producer x refl h
step-Signalled s consuming h = consume-Signalled s s.consumer h
step-Signalled s spurious h = λ a b. absurd (wake-ne-sleeping s.consumer a)

run-Signalled : (s : System) (ts : List Turn) → Signalled s → Signalled (run s ts)
unfolding run
run-Signalled s [] h = h
run-Signalled s (t ∷ ts) h = run-Signalled (step s t) ts (step-Signalled s t h)

-- No wake-up is lost, although the signal comes after the unlock: in every schedule, if the
-- consumer sleeps while there is a message, the producer has yet to signal.
pub no_lost_wakeup :
    (ts : List Turn)
    → (run start ts).consumer ≡ sleeping
    → (run start ts).head ≢ []
    → (run start ts).producer ≡ linked
unfolding start
no_lost_wakeup ts = run-Signalled start ts (λ a b. cc)
