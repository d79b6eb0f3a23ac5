-- ===== src/Sync/Semaphore/Slots.antt =====
-- 010_thread_sync/05thread_sync_sem_t.c: which slots the two threads are in, and whether they wait.
use linux_c_program_exercris.Prelude.{
  ℕ, suc, ◌+◌, ◌%◌, ◌<◌, ◌≡◌, sym, subst, ◌∙◌, ◌≢◌, ◌⊎◌, inl, inr, List, arith, dec_lt,
}
use linux_c_program_exercris.Ring.{add-mod-ne, step-mod}
use linux_c_program_exercris.Sync.Semaphore.{
  System, ProducerPc, ConsumerPc, placing, placed, taking, clearing, taken, def_num, run, start,
  Turn, step, producing, consuming, produce, consume,
}
use linux_c_program_exercris.Sync.Semaphore.Order.{InvAt, Inv, waiting, run-Inv, start-Inv}

-- The consumer is between its wait and its post.
abbrev pub IsInSlot : ConsumerPc → Type 0
IsInSlot ConsumerPc.before_wait = ⊥
IsInSlot _ = Unit

past_front :
    (s : System) (w : ℕ)
    → s.c < def_num
    → s.p ≡ ((s.c + 1) % def_num + w) % def_num
    → suc w < def_num
    → s.p ≢ s.c
past_front s w h rear room = λ e.
    add-mod-ne {cap = def_num} {h = s.c} {k = suc w} h (omega arith) room
      (sym (rear ∙ step-mod def_num s.c w) ∙ e)

slot_apart : (s : System) (cp : ConsumerPc) → InvAt s placing cp → IsInSlot cp → s.p ≢ s.c
slot_apart s ConsumerPc.before_wait v b = elim b [ ]
slot_apart s taking v b = λ e.
    add-mod-ne {cap = def_num} {h = s.c} {k = waiting s.product_number placing taking} v.c_in
      (omega arith) (omega (arith, v.total)) (sym v.rear_at ∙ e)
slot_apart s clearing v b =
    past_front s (waiting s.product_number placing clearing) v.c_in v.rear_at
      (omega (arith, v.total))
slot_apart s taken v b =
    past_front s (waiting s.product_number placing taken) v.c_in v.rear_at (omega (arith, v.total))

reached : (ts : List Turn) → Inv (run start ts)
reached ts = run-Inv start ts start-Inv

-- The two threads take no lock, and need none: in every schedule, when the producer is about to
-- write a slot while the consumer reads or clears one, the two slots differ.
pub slots_apart :
    (ts : List Turn)
    → (run start ts).producer ≡ placing
    → IsInSlot (run start ts).consumer
    → (run start ts).p ≢ (run start ts).c
slots_apart ts e b =
    slot_apart (run start ts) (run start ts).consumer
      (subst (λ q. InvAt (run start ts) q (run start ts).consumer) e (reached ts)) b

moves :
    (s : System) (pp : ProducerPc) (cp : ConsumerPc) (x : ℕ)
    → InvAt s pp cp
    → ((produce s pp x).producer ≢ pp) ⊎ ((consume s cp).consumer ≢ cp)
unfolding produce consume
moves s ProducerPc.before_wait ConsumerPc.before_wait x v = elim (dec_lt 0 s.blank_number) [
  | yes free ↦ inl (ground arith)
  | no full ↦ inr (ground (arith, v.total))
]
moves s ProducerPc.before_wait taking x v = inr (λ e. cc e)
moves s ProducerPc.before_wait clearing x v = inr (λ e. cc e)
moves s ProducerPc.before_wait taken x v = inr (λ e. cc e)
moves s placing cp x v = inl (λ e. cc e)
moves s placed cp x v = inl (λ e. cc e)

-- The two never wait for each other: after every schedule one of them, given a turn, leaves the
-- place where it stands.
pub never_stuck :
    (ts : List Turn) (x : ℕ)
    → ((step (run start ts) (producing x)).producer ≢ (run start ts).producer)
      ⊎ ((step (run start ts) consuming).consumer ≢ (run start ts).consumer)
unfolding step
never_stuck ts x =
    moves (run start ts) (run start ts).producer (run start ts).consumer x (reached ts)
