-- ===== src/Sync/Semaphore/Order.antt =====
-- 010_thread_sync/05thread_sync_sem_t.c: the invariant of the two semaphores and the queue.
use linux_c_program_exercris.Ring.{window, window_of_pos, window-set, window-set_beyond}
use linux_c_program_exercris.Prelude.{
  ℕ, ◌+◌, ◌%◌, List, [], ◌∷◌, ◌++◌, ltb, get_or, set, suc, ◌≤◌, ◌<◌, ◌≡◌, refl, sym, ap, subst, ◌∙◌,
  inl, inr, append_assoc, arith, Bool-cases, length, length-set,
}
use linux_c_program_exercris.Sync.Semaphore.{
  def_num, ProducerPc, ConsumerPc, System, start, produce, consume, Turn, step, run, placing,
  placed, taking, clearing, taken, producing, consuming,
}

abbrev pub holds_slot : ProducerPc → ℕ
holds_slot placing = 1
holds_slot _ = 0

abbrev pub has_put : ProducerPc → ℕ
has_put placed = 1
has_put _ = 0

abbrev pub has_claim : ConsumerPc → ℕ
has_claim taking = 1
has_claim _ = 0

abbrev pub in_slot : ConsumerPc → ℕ
in_slot clearing = 1
in_slot taken = 1
in_slot _ = 0

-- The products not yet printed, the slot of the oldest, and the next blank slot.
abbrev pub waiting : ℕ → ProducerPc → ConsumerPc → ℕ
waiting number pp cp = number + has_put pp + has_claim cp

abbrev pub front : ℕ → ConsumerPc → ℕ
front c clearing = (c + 1) % def_num
front c taken = (c + 1) % def_num
front c _ = c

abbrev pub rear : ℕ → ProducerPc → ℕ
rear p placed = (p + 1) % def_num
rear p _ = p

-- The two places are arguments, so that a proof can split on them.
pub record InvAt (s : System) (pp : ProducerPc) (cp : ConsumerPc) : Type 0 where
  pub slots : def_num ≤ length s.queue
  pub p_in : s.p < def_num
  pub c_in : s.c < def_num
  pub total : s.blank_number + waiting s.product_number pp cp + holds_slot pp + in_slot cp ≡ def_num
  pub rear_at : rear s.p pp ≡ (front s.c cp + waiting s.product_number pp cp) % def_num
  pub order :
      s.produced
      ≡ s.consumed ++ window 0 def_num s.queue (front s.c cp) (waiting s.product_number pp cp)

abbrev pub Inv : System → Type 0
Inv s = InvAt s s.producer s.consumer

produce-consumer : (s : System) (pc : ProducerPc) (x : ℕ) → (produce s pc x).consumer ≡ s.consumer
unfolding produce
produce-consumer s ProducerPc.before_wait x = ground arith
produce-consumer s placing x = refl
produce-consumer s placed x = refl

front-lt : (c : ℕ) (cp : ConsumerPc) → c < def_num → front c cp < def_num
front-lt c ConsumerPc.before_wait h = h
front-lt c taking h = h
front-lt c clearing h = omega arith
front-lt c taken h = omega arith

produce-Inv :
    (s : System) (pc : ProducerPc) (cp : ConsumerPc) (x : ℕ)
    → s.producer ≡ pc
    → InvAt s pc cp
    → InvAt (produce s pc x) (produce s pc x).producer cp
unfolding produce
produce-Inv s ProducerPc.before_wait cp x e v = elim (Bool-cases (ltb 0 s.blank_number)) [
  | inl free ↦ rw free (record {
    slots = v.slots;
    p_in = v.p_in;
    c_in = v.c_in;
    total = ground (arith, v.total);
    rear_at = v.rear_at;
    order = v.order;
  })
  | inr blocked ↦ rw blocked (subst (λ q. InvAt s q cp) (sym e) v)
]
produce-Inv s placing cp x e v = record {
  slots = omega (arith, length-set s.queue s.p x, v.slots);
  p_in = v.p_in;
  c_in = v.c_in;
  total = omega (arith, v.total);
  rear_at = omega (arith, v.rear_at);
  order =
      ap (λ l. l ++ (x ∷ [])) v.order
      ∙ append_assoc s.consumed _ _
      ∙ ap (◌++◌ s.consumed) (
          sym (
            window-set 0 def_num s.queue x (front s.c cp) (waiting s.product_number placing cp) s.p
              v.slots (front-lt s.c cp v.c_in) (omega (arith, v.total)) v.rear_at)
          ∙ ap (window 0 def_num (set s.queue s.p x) (front s.c cp))
              {x = suc (waiting s.product_number placing cp)} (omega arith));
}
produce-Inv s placed cp x e v = record {
  slots = v.slots;
  p_in = omega arith;
  c_in = v.c_in;
  total = omega (arith, v.total);
  rear_at = omega (arith, v.rear_at);
  order = v.order ∙ ap (λ n. s.consumed ++ window 0 def_num s.queue (front s.c cp) n) (omega arith);
}

consume-producer : (s : System) (pc : ConsumerPc) → (consume s pc).producer ≡ s.producer
unfolding consume
consume-producer s ConsumerPc.before_wait = ground arith
consume-producer s taking = refl
consume-producer s clearing = refl
consume-producer s taken = refl

consume-Inv :
    (s : System) (pp : ProducerPc) (pc : ConsumerPc)
    → s.consumer ≡ pc
    → InvAt s pp pc
    → InvAt (consume s pc) pp (consume s pc).consumer
unfolding consume
consume-Inv s pp ConsumerPc.before_wait e v = elim (Bool-cases (ltb 0 s.product_number)) [
  | inl free ↦ rw free (record {
    slots = v.slots;
    p_in = v.p_in;
    c_in = v.c_in;
    total = ground (arith, v.total);
    rear_at = v.rear_at ∙ ap (λ n. (s.c + n) % def_num) (ground arith);
    order = v.order ∙ ap (λ n. s.consumed ++ window 0 def_num s.queue s.c n) (ground arith);
  })
  | inr blocked ↦ rw blocked (subst (λ q. InvAt s pp q) (sym e) v)
]
consume-Inv s pp taking e v = record {
  slots = v.slots;
  p_in = v.p_in;
  c_in = v.c_in;
  total = omega (arith, v.total);
  rear_at = omega (arith, v.rear_at);
  order =
      v.order
      ∙ ap (◌++◌ s.consumed) (
          window_of_pos 0 def_num s.queue s.c (waiting s.product_number pp taking) (omega arith)
          ∙ ap (λ n. get_or s.queue s.c 0 ∷ window 0 def_num s.queue ((s.c + 1) % def_num) n)
              {y = waiting s.product_number pp clearing} (omega arith))
      ∙ sym (append_assoc s.consumed (get_or s.queue s.c 0 ∷ []) _);
}
consume-Inv s pp clearing e v = record {
  slots = omega (arith, length-set s.queue s.c 0, v.slots);
  p_in = v.p_in;
  c_in = v.c_in;
  total = v.total;
  rear_at = v.rear_at;
  order =
      v.order
      ∙ ap (◌++◌ s.consumed) (
          sym (
            window-set_beyond 0 def_num s.queue 0 ((s.c + 1) % def_num)
              (waiting s.product_number pp clearing) 19 s.c (omega arith) (omega (arith, v.total))
              (omega arith) (omega (arith, v.c_in))));
}
consume-Inv s pp taken e v = record {
  slots = v.slots;
  p_in = v.p_in;
  c_in = omega arith;
  total = omega (arith, v.total);
  rear_at = v.rear_at;
  order = v.order;
}

step-Inv : (s : System) (t : Turn) → Inv s → Inv (step s t)
unfolding step
step-Inv s (producing x) v =
    rw (produce-consumer s s.producer x) (produce-Inv s s.producer s.consumer x refl v)
step-Inv s consuming v =
    rw (consume-producer s s.consumer) (consume-Inv s s.producer s.consumer refl v)

pub run-Inv : (s : System) (ts : List Turn) → Inv s → Inv (run s ts)
unfolding run
run-Inv s [] v = v
run-Inv s (t ∷ ts) v = run-Inv (step s t) ts (step-Inv s t v)

pub start-Inv : Inv start
unfolding start
start-Inv = record {
  slots = omega arith;
  p_in = omega arith;
  c_in = omega arith;
  total = omega arith;
  rear_at = omega arith;
  order = refl;
}

-- In every schedule the consumer prints the products in the order in which they were put, each
-- once and none out of an empty slot: what was put is what was printed, followed by what stands
-- in the queue from the consumer's slot on, and that is never more than the queue has slots.
pub products_in_order :
    (ts : List Turn)
    → let s = run start ts in
      (n : ℕ) × (s.produced ≡ s.consumed ++ window 0 def_num s.queue (front s.c s.consumer) n)
      × (n ≤ def_num)
      × (s.p < length s.queue)
      × (s.c < length s.queue)
products_in_order ts =
    let v = run-Inv start ts start-Inv in
    (
      _,
      v.order,
      omega (arith, v.total),
      omega (arith, v.p_in, v.slots),
      omega (arith, v.c_in, v.slots),
    )
