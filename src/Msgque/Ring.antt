-- ===== src/Msgque/Ring.antt =====
-- The indices of a queue, and what its two tests say of them.
use native.Mathlib.Decide.{ℕ_discrete}
use ipc_msq_multicore.Common.{
  ap, suc, get_or-set_self, get_or-set_ne, ◌≢◌, false, ◌∙◌, [], ℕ, ◌+◌, ◌-◌, ◌%◌, ◌≤◌, ◌<◌, ◌≡◌,
  ◌↔◌, true, some, take, drop, ◌++◌, arith, length, All, length-set, All-set, All-get_elem?,
  get_elem?-eq-get_or, get_or, set,
}
use ipc_msq_multicore.Common.Bytes.{memcpy_fits, length-memcpy}
use ipc_msq_multicore.Common.Outcome.{done}
use ipc_msq_multicore.Msgque.{
  Msg, Msgque, element_num, data_size, isempty, isfull, next_in, store, fetch, fresh_queue,
}

-- A message that its data array can hold.
abbrev pub Fits : Msg → Type 0
Fits m = (length m.bytes ≡ data_size) × (m.size ≤ data_size)

abbrev pub blank : Msg
blank = record { size = 0; bytes = [] }

-- The data array of a slot has its size, whatever it holds.
abbrev pub HasData : Msg → Type 0
HasData m = length m.bytes ≡ data_size

-- The slot at distance `i` from the oldest message.
abbrev pub slot : Msgque → ℕ → Msg
slot q i = get_or q.element ((q.outdx + i) % element_num) blank

-- `indx` is the last slot written: one before `outdx` in an empty queue. A slot outside the messages
-- may hold anything.
pub record IsValid (q : Msgque) : Type 0 where
  pub slots : length q.element ≡ element_num
  pub arrays : All HasData q.element
  pub out_in : q.outdx < element_num
  pub few : q.count ≤ element_num
  pub last : q.indx ≡ (q.outdx + q.count + 15) % element_num
  pub sized : (i : ℕ) → i < q.count → (slot q i).size ≤ data_size

-- A queue handed out by ipc_msgque_get is valid, whatever its slots hold.
pub fresh_queue-IsValid :
    (q : Msgque) (id key : ℕ)
    → length q.element ≡ element_num
    → All HasData q.element
    → IsValid (fresh_queue q id key)
fresh_queue-IsValid q id key h f = record {
  slots = h;
  arrays = f;
  out_in = omega arith;
  few = omega arith;
  last = omega arith;
  sized = λ i lt. absurd (omega arith);
}

-- The test for emptiness holds of exactly those valid queues that have one message.
pub isempty-iff-one : {q : Msgque} → IsValid q → (isempty (some q) ≡ true) ↔ (q.count ≡ 1)
unfolding isempty
isempty-iff-one v = ground arith

-- The test for fullness is exact.
pub isfull-iff-full : {q : Msgque} → IsValid q → (isfull (some q) ≡ true) ↔ (q.count ≡ element_num)
unfolding isfull
isfull-iff-full v = ground arith

pub not-full_room : (q : Msgque) → isfull (some q) ≡ false → q.count < element_num
unfolding isfull
not-full_room q h = ground arith

pub not-empty_ne_one : {q : Msgque} → IsValid q → isempty (some q) ≡ false → q.count ≢ 1
unfolding isempty
not-empty_ne_one v h = ground arith

-- The slots that the next enqueue writes and the next dequeue reads.
abbrev pub in_slot : Msgque → Msg
in_slot q = get_or q.element (next_in q) blank

abbrev pub out_slot : Msgque → Msg
out_slot q = get_or q.element q.outdx blank

-- The bytes of `dst` after `m.size` bytes of `m` were copied into it.
abbrev pub copied : Msg → Msg → Msg
copied m dst = record { size = m.size; bytes = take m.size m.bytes ++ drop m.size dst.bytes }

abbrev pub stored : Msgque → Msg → Msgque
stored q m = record q {
  indx = next_in q;
  count = q.count + 1;
  element = set q.element (next_in q) (copied m (in_slot q));
}

abbrev pub fetched : Msgque → Msgque
fetched q = record q { outdx = (q.outdx + 1) % element_num; count = q.count - 1 }

pub copied-HasData : (m d : Msg) → Fits m → HasData d → HasData (copied m d)
copied-HasData m d f h = length-memcpy d.bytes m.bytes m.size (omega arith) (omega arith) ∙ h

pub copied-Fits : (m d : Msg) → Fits m → Fits d → Fits (copied m d)
copied-Fits m d fm fd = (copied-HasData m d fm fd.0, fm.1)

pub slot-HasData :
    {q : Msgque} (i : ℕ) → IsValid q → i < element_num → HasData (get_or q.element i blank)
slot-HasData {q} i v h =
    All-get_elem? HasData q.element i _ v.arrays
      (get_elem?-eq-get_or q.element i blank (omega arith))

pub out_slot-Fits : {q : Msgque} → IsValid q → 0 < q.count → Fits (out_slot q)
out_slot-Fits {q} v h = (
  slot-HasData q.outdx v v.out_in,
  rw (ap (λ j. (get_or q.element j blank).size) at_zero) at (v.sized 0 h),
)
  where
    at_zero : (q.outdx + 0) % element_num ≡ q.outdx
    at_zero = omega arith

-- A message that fits goes into the next slot of a queue that is not full.
pub store_lem : {q : Msgque} (m : Msg) → IsValid q → Fits m → store (some q) m ≡ done (stored q m)
unfolding store
store_lem {q} m v f = ground (
  arith,
  get_elem?-eq-get_or q.element (next_in q) blank,
  slot-HasData (next_in q) v,
  memcpy_fits (in_slot q).bytes m.bytes m.size,
)

-- The oldest message comes out of a queue that has one.
pub fetch_lem :
    {q : Msgque} (m : Msg)
    → IsValid q
    → 0 < q.count
    → HasData m
    → fetch (some q) m ≡ done (fetched q, copied (out_slot q) m)
unfolding fetch
fetch_lem {q} m v some_in f = ground (
  arith,
  get_elem?-eq-get_or q.element q.outdx blank,
  out_slot-Fits v some_in,
  memcpy_fits m.bytes (out_slot q).bytes (out_slot q).size,
)

pub slot-stored_old :
    {q : Msgque} (m : Msg)
    → IsValid q
    → q.count < element_num
    → (i : ℕ) → i < q.count
    → slot (stored q m) i ≡ slot q i
slot-stored_old {q} m v room i lt =
    get_or-set_ne q.element (next_in q) ((q.outdx + i) % element_num) _ blank (omega arith)

pub slot-stored_new :
    {q : Msgque} (m : Msg) → IsValid q → slot (stored q m) q.count ≡ copied m (in_slot q)
slot-stored_new {q} m v =
    ap (λ j. get_or (stored q m).element j blank) {y = next_in q} (omega arith)
    ∙ get_or-set_self q.element (next_in q) _ blank (omega arith)

pub slot-fetched : {q : Msgque} → IsValid q → (i : ℕ) → slot (fetched q) i ≡ slot q (suc i)
slot-fetched {q} v i = ap (λ j. get_or q.element j blank) (omega arith)

pub stored-IsValid :
    {q : Msgque} (m : Msg) → IsValid q → q.count < element_num → Fits m → IsValid (stored q m)
stored-IsValid {q} m v room f = record {
  slots = length-set q.element _ _ ∙ v.slots;
  arrays =
      All-set HasData q.element (next_in q) _ v.arrays
        (copied-HasData m (in_slot q) f (slot-HasData (next_in q) v (omega arith)));
  out_in = v.out_in;
  few = omega arith;
  last = omega arith;
  sized = λ i lt. elim (ℕ_discrete i q.count) [
    | yes new ↦ rw (new, slot-stored_new m v) f.1
    | no old ↦ rw (slot-stored_old m v room i (omega arith)) (v.sized i (omega arith))
  ];
}

pub fetched-IsValid : {q : Msgque} → IsValid q → 0 < q.count → IsValid (fetched q)
fetched-IsValid {q} v h = record {
  slots = v.slots;
  arrays = v.arrays;
  out_in = omega arith;
  few = omega arith;
  last = omega arith;
  sized = λ i lt. rw (slot-fetched v i) (v.sized (suc i) (omega arith));
}
