-- ===== src/Sync/Semaphore.antt =====
-- 010_thread_sync/05thread_sync_sem_t.c: a producer and a consumer over a queue of twenty slots,
-- with one semaphore for the blanks and one for the products. A step is one call or one access.
pub mod Order
pub mod Slots
use linux_c_program_exercris.Ring.{window, window_of_pos, window-set, window-set_beyond, add-mod-ne}
use linux_c_program_exercris.Prelude.{
  ℕ, ◌+◌, ◌-◌, ◌%◌, List, [], ◌∷◌, ◌++◌, ltb, if◌then◌else◌, get_or, set, replicate, suc, ◌≤◌, ◌<◌,
  ◌≡◌, refl, sym, ap, subst, ◌∙◌, inl, inr, append_assoc, arith, Bool-cases, length, length-set,
  zero, ◌*◌, ◌/◌, ◌^◌, min, max, ap₂, fun_ext, ◌≢◌, ◌↔◌, ◌⊎◌, Bool, true, false, not, ◌&&◌, ◌||◌,
  Option, none, some, map, append-nil, dec_lt, ℕ_discrete, leb, ◌==◌, Option-cases, ==_iff, ltb→lt,
  lt→ltb, leb→le, tests, ℤ, pos, negsuc, is_neg, get_elem?, take, drop, length-append,
  length-replicate, get_or-set_self, get_or-set_ne, take-append-drop, length-take, length-drop,
  get_elem?-get_or, sign_cases, map-set, map-replicate, get_elem?-map, get_elem?-set_self,
  get_elem?-set_ne, get_elem?-append, set-get_elem?,
}

abbrev pub def_num : ℕ
def_num = 20

pub data ProducerPc : Type 0 where
  before_wait placing placed : ProducerPc

pub data ConsumerPc : Type 0 where
  before_wait taking clearing taken : ConsumerPc

-- `produced` and `consumed` record what was put and printed, oldest first.
pub record System : Type 0 where
  pub queue : List ℕ
  pub blank_number : ℕ
  pub product_number : ℕ
  pub p : ℕ
  pub c : ℕ
  pub producer : ProducerPc
  pub consumer : ConsumerPc
  pub produced : List ℕ
  pub consumed : List ℕ

unfoldable pub start : System
start = record {
  queue = replicate def_num 0;
  blank_number = def_num;
  product_number = 0;
  p = 0;
  c = 0;
  producer = ProducerPc.before_wait;
  consumer = ConsumerPc.before_wait;
  produced = [];
  consumed = [];
}

-- The producer; `x` is the product that `rand` makes in this round. A `sem_wait` at 0 blocks.
unfoldable pub produce : System → ProducerPc → ℕ → System
produce s ProducerPc.before_wait x =
    if ltb 0 s.blank_number
    then record s { blank_number = s.blank_number - 1; producer = placing }
    else s
produce s placing x = record s {
  queue = set s.queue s.p x;
  producer = placed;
  produced = s.produced ++ (x ∷ []);
}
produce s placed x = record s {
  product_number = s.product_number + 1;
  p = (s.p + 1) % def_num;
  producer = ProducerPc.before_wait;
}

unfoldable pub consume : System → ConsumerPc → System
consume s ConsumerPc.before_wait =
    if ltb 0 s.product_number
    then record s { product_number = s.product_number - 1; consumer = taking }
    else s
consume s taking = record s {
  consumer = clearing;
  consumed = s.consumed ++ (get_or s.queue s.c 0 ∷ []);
}
consume s clearing = record s { queue = set s.queue s.c 0; consumer = taken }
consume s taken = record s {
  blank_number = s.blank_number + 1;
  c = (s.c + 1) % def_num;
  consumer = ConsumerPc.before_wait;
}

pub data Turn : Type 0 where
  producing : ℕ → Turn
  consuming : Turn

unfoldable pub step : System → Turn → System
unfolding produce consume
step s (producing x) = produce s s.producer x
step s consuming = consume s s.consumer

unfoldable pub run : System → List Turn → System
unfolding step
run s [] = s
run s (t ∷ ts) = run (step s t) ts
