-- ===== src/Table/Lookup.antt =====
-- What a look-up finds after ipc_msgque_get and ipc_msgque_rel.
use ipc_msq_multicore.Common.{
  ℕ, zero, suc, ◌<◌, ◌≡◌, refl, sym, ap, ◌∙◌, Option, none, some, List, arith, true, false,
  Option-cases, inl, inr, length, get_elem?, set, ℤ, pos, negsuc, minus, is_negative,
  get_elem?-set_cases, get_elem?-set_self, lt-length_of_some,
}
use ipc_msq_multicore.Common.Outcome.{
  Outcome, done, fault, blocked, ◌>>=◌, LockState, free, held, lock_state,
}
use ipc_msq_multicore.Msgque.{Msgque, fresh_queue}
use ipc_msq_multicore.Msqinfo.{Msqinfo, Kernel, queue_num}
use ipc_msq_multicore.Table.{
  is_used, find_key, find_free, hand_out, get, get_id_by_key, get_que_by_id, get_token_by_key, rel,
  release_queue, locked, put_queue, on_info, clear_name,
}
use ipc_msq_multicore.Table.Keys.{
  IsTable, find_key-some, find_free-some, find_key-IsTable, hand_out-IsTable,
}

lookup-hand_out :
    (m : Msqinfo) (i key : ℕ) {q : Msgque}
    → IsTable m.tbl
    → get_elem? m.tbl i ≡ some q
    → find_key key m.tbl ≡ none
    → find_key key (hand_out i key m).tbl ≡ some (fresh_queue q i key)
lookup-hand_out m i key {q} t at new =
    find_key-IsTable i (fresh_queue q i key) (hand_out-IsTable m i key t at new)
      (rw (at, hand_out) (get_elem?-set_self m.tbl i _ (lt-length_of_some m.tbl i q at))) refl

-- If ipc_msgque_get returns an id for a key, a look-up of that key returns the same id from then on.
pub get_then_lookup :
    (key : ℕ) (k : Kernel) {m : Msqinfo} {ret : ℤ} {k' : Kernel}
    → k.info ≡ some m
    → IsTable m.tbl
    → get key k ≡ (ret, k')
    → is_negative ret ≡ false
    → get_id_by_key key k' ≡ ret
unfolding get get_id_by_key
get_then_lookup key k {m} here t e h = elim (Option-cases (find_key key m.tbl)) [
  | inr (q, found) ↦ ground arith
  | inl new ↦ elim (Option-cases (find_free 0 m.tbl)) [
    | inl full ↦ ground arith
    | inr (i, room) ↦
        let (j, q, place, at, unused) = find_free-some 0 m.tbl i room in
        let at_i : get_elem? m.tbl i ≡ some q = ap (get_elem? m.tbl) {y = j} (omega arith) ∙ at in
        ground (arith, lookup-hand_out m i key t at_i new)
  ]
]

pub get_que_by_id-some :
    (i : ℕ) (k : Kernel) {m : Msqinfo} (q : Msgque)
    → k.info ≡ some m
    → get_que_by_id i k ≡ some q
    → (get_elem? m.tbl i ≡ some q) × (is_used q ≡ true) × (i < queue_num)
unfolding get_que_by_id
get_que_by_id-some i k {m} q here e = ground (arith)

get_que_by_id_null : (i : ℕ) (k : Kernel) → k.info ≡ none → get_que_by_id i k ≡ none
unfolding get_que_by_id
get_que_by_id_null i k null = ground arith

pub get_que_by_id-info :
    (i : ℕ) (k k' : Kernel) → k.info ≡ k'.info → get_que_by_id i k ≡ get_que_by_id i k'
unfolding get_que_by_id
get_que_by_id-info i k k' e = ground arith

-- What the look-up by the id finds stands at that place of the table.
pub get_que_by_id-slot :
    (i : ℕ) (k : Kernel) (q : Msgque)
    → get_que_by_id i k ≡ some q
    → (elim k.info as (λ _. Option Msgque) [ none ↦ none | some m ↦ get_elem? m.tbl i ]) ≡ some q
unfolding get_que_by_id
get_que_by_id-slot i k q known = ground arith

pub get_que_by_id_used :
    (i : ℕ) (k : Kernel) (q : Msgque) → get_que_by_id i k ≡ some q → is_used q ≡ true
unfolding get_que_by_id
get_que_by_id_used i k q known = ground arith

get_que_by_id_set :
    (i : ℕ) (k : Kernel) (m : Msqinfo) (p : Msgque)
    → k.info ≡ some m
    → is_used p ≡ true
    → i < queue_num
    → i < length m.tbl
    → get_que_by_id i (on_info (put_queue i p) k) ≡ some p
unfolding get_que_by_id
get_que_by_id_set i k m p here used lt inside = ground (arith, get_elem?-set_self m.tbl i p inside)

-- A used queue put back in its place is found there.
pub get_que_by_id-put :
    (i : ℕ) (k : Kernel) (q p : Msgque)
    → get_que_by_id i k ≡ some q
    → is_used p ≡ true
    → get_que_by_id i (on_info (put_queue i p) k) ≡ some p
get_que_by_id-put i k q p known used = elim (Option-cases k.info) [
  | inl null ↦ absurd (ground (arith, get_que_by_id_null i k null))
  | inr (m, here) ↦
      let (at, _, lt) = get_que_by_id-some i k q here known in
      get_que_by_id_set i k m p here used lt (lt-length_of_some m.tbl i q at)
]

lookup_none :
    (qs : List Msgque) (i : ℕ) (q p : Msgque)
    → IsTable qs
    → get_elem? qs i ≡ some q
    → is_used q ≡ true
    → is_used p ≡ false
    → find_key q.sharekey (set qs i p) ≡ none
lookup_none qs i q p t at used gone = elim (Option-cases (find_key q.sharekey (set qs i p))) [
  | inl missing ↦ missing
  | inr (r, found) ↦
      let (j, at_j, used_r, same) = find_key-some q.sharekey (set qs i p) r found in
      elim (get_elem?-set_cases qs i j p r at_j) [
        | inl (_, e) ↦ cc (used_r, ap is_used e, gone)
        | inr (other, old) ↦ absurd (other (t.keys i j q r at old used used_r (sym same)))
      ]
]

released :
    (o : Outcome (Option ℕ)) (i : ℕ) (q : Msgque) (k : Kernel) {k' : Kernel}
    → (o >>= λ token. done (release_queue i q token k)) ≡ done (pos 0, k')
    → (j : ℕ) × (k' ≡ (release_queue i q (some j) k).1)
unfolding release_queue
released (done none) i q k e = cc
released (done (some j)) i q k e = (j, ground arith)
released fault i q k e = cc
released blocked i q k e = cc

pub tbl-clear_name : (j : ℕ) (m : Msqinfo) → (clear_name j m).tbl ≡ m.tbl
tbl-clear_name j m = ground arith

lookup_released :
    (i j : ℕ) (k : Kernel) (m : Msqinfo) (q : Msgque)
    → k.info ≡ some m
    → find_key q.sharekey (set m.tbl i (record q { initkey = 0 })) ≡ none
    → get_id_by_key q.sharekey (release_queue i q (some j) k).1 ≡ minus 3
unfolding release_queue get_id_by_key
lookup_released i j k m q here gone = ground (arith, tbl-clear_name j m)

-- If ipc_msgque_rel returns 0 for a queue, a look-up of the queue's key finds nothing from then on.
pub rel_then_lookup :
    (i : ℕ) (k : Kernel) {m : Msqinfo} (q : Msgque) {k' : Kernel}
    → k.info ≡ some m
    → IsTable m.tbl
    → get_que_by_id i k ≡ some q
    → rel i k ≡ done (pos 0, k')
    → get_id_by_key q.sharekey k' ≡ minus 3
unfolding rel
rel_then_lookup i k {m} q here t known e =
    let (at, used, lt) = get_que_by_id-some i k q here known in
    let (j, e') = released (get_token_by_key q.sharekey k) i q (locked k) (rw (known, rel) at e) in
    rw e' (
      lookup_released i j (locked k) m q here
        (lookup_none m.tbl i q (record q { initkey = 0 }) t at used refl))

-- The lock after a call of ipc_msgque_rel that returned `ret`.
abbrev pub after_rel : ℤ → LockState
after_rel (pos n) = free
after_rel (negsuc zero) = free
after_rel (negsuc (suc n)) = held

released_lock :
    (o : Outcome (Option ℕ)) (i : ℕ) (q : Msgque) (k : Kernel) {ret : ℤ} {k' : Kernel}
    → lock_state k.lock ≡ held
    → (o >>= λ token. done (release_queue i q token k)) ≡ done (ret, k')
    → lock_state k'.lock ≡ after_rel ret
unfolding release_queue
released_lock (done none) i q k h e = ground arith
released_lock (done (some j)) i q k h e = ground arith
released_lock fault i q k h e = cc
released_lock blocked i q k h e = cc

-- What ipc_msgque_rel answers, by what its two searches find.
abbrev pub token_answer : Outcome (Option ℕ) → ℤ
token_answer (done none) = minus 2
token_answer _ = pos 0

abbrev pub rel_answer : ℕ → Kernel → ℤ
rel_answer i k = elim (get_que_by_id i k) [
  | none ↦ minus 1
  | some q ↦ token_answer (get_token_by_key q.sharekey k)
]

released_ret :
    (o : Outcome (Option ℕ)) (i : ℕ) (q : Msgque) (k : Kernel) {ret : ℤ} {k' : Kernel}
    → (o >>= λ token. done (release_queue i q token k)) ≡ done (ret, k')
    → ret ≡ token_answer o
unfolding release_queue
released_ret (done none) i q k e = ground arith
released_ret (done (some j)) i q k e = ground arith
released_ret fault i q k e = absurd (cc (e))
released_ret blocked i q k e = absurd (cc (e))

-- Called with the lock free, ipc_msgque_rel returns -1 for an id without a queue, -2 where no token has
-- the queue's key, and 0 where one has it. It leaves the lock free if it returns 0 or -1, and held if
-- it returns -2.
pub rel_lock :
    (i : ℕ) (k : Kernel) {ret : ℤ} {k' : Kernel}
    → lock_state k.lock ≡ free
    → rel i k ≡ done (ret, k')
    → (ret ≡ rel_answer i k) × (lock_state k'.lock ≡ after_rel ret)
unfolding rel
rel_lock i k h e = elim (Option-cases (get_que_by_id i k)) [
  | inl missing ↦ (ground arith, ground arith)
  | inr (q, known) ↦
      let o = get_token_by_key q.sharekey k in
      let here = rw (known, rel) at e in
      (
        rw (known, rel_answer) (released_ret o i q (locked k) here),
        released_lock o i q (locked k) (ground arith) here,
      )
]
