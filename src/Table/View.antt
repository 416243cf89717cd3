-- ===== src/Table/View.antt =====
-- The table of queues as a map from keys to ids, as look-ups by key show it.
use ipc_msq_multicore.Common.{
  ℕ, zero, suc, ◌<◌, ◌≡◌, refl, sym, ap, ◌∙◌, Option, none, some, List, [], ◌∷◌, arith, Bool, true,
  false, not, ◌&&◌, ◌==◌, if◌then◌else◌, ◌⊎◌, Option-cases, Bool-cases, inl, inr, length, get_elem?,
  set, ℤ, pos, minus, is_negative, is_zero, to_int32, lt-length_of_some,
}
use ipc_msq_multicore.Common.Outcome.{Outcome, done, fault, blocked, ◌>>=◌}
use ipc_msq_multicore.Msgque.{Msgque, fresh_queue}
use ipc_msq_multicore.Msqinfo.{Msqinfo, Kernel, queue_num}
use ipc_msq_multicore.Table.{
  is_used, find_key, find_free, get, get_id_by_key, get_que_by_id, get_token_by_key, rel,
  release_queue, locked, put_queue, clear_name,
}
use ipc_msq_multicore.Table.Keys.{IsTable, find_free-some}
use ipc_msq_multicore.Table.Lookup.{
  get_then_lookup, rel_then_lookup, get_que_by_id-some, tbl-clear_name,
}

-- Writing a queue that did not answer to the key and does not now changes nothing for the key.
find_key-set :
    (key i : ℕ) (qs : List Msgque) (q p : Msgque)
    → get_elem? qs i ≡ some q
    → (is_used q && key == q.sharekey) ≡ false
    → (is_used p && key == p.sharekey) ≡ false
    → find_key key (set qs i p) ≡ find_key key qs
unfolding find_key
find_key-set key i [] q p at old new = refl
find_key-set key zero (r ∷ qs) q p at old new = ground arith
find_key-set key (suc i) (r ∷ qs) q p at old new =
    ground (arith, find_key-set key i qs q p at old new)

get_id_by_key-info :
    (key : ℕ) (k k' : Kernel) → k.info ≡ k'.info → get_id_by_key key k ≡ get_id_by_key key k'
unfolding get_id_by_key
get_id_by_key-info key k k' e = ground arith

get_id_by_key-tbl :
    (key : ℕ) (k k' : Kernel) {m m' : Msqinfo}
    → k.info ≡ some m
    → k'.info ≡ some m'
    → find_key key m'.tbl ≡ find_key key m.tbl
    → get_id_by_key key k' ≡ get_id_by_key key k
unfolding get_id_by_key
get_id_by_key-tbl key k k' here here' e = ground arith

-- What a call of get does to the map, from its two searches.
get_cases :
    (key : ℕ) (k : Kernel) {m : Msqinfo}
    → k.info ≡ some m
    → ((is_negative (get key k).0 ≡ true) × ((get key k).1.info ≡ k.info))
      ⊎ ((i : ℕ) × (q : Msgque) × (get_elem? m.tbl i ≡ some q)
          × (is_used q ≡ false)
          × ((get key k).0 ≡ to_int32 i)
          × ((get key k).1.info ≡ some (record m { tbl = set m.tbl i (fresh_queue q i key) })))
unfolding get
get_cases key k {m} here = elim (Option-cases (find_key key m.tbl)) [
  | inr (q, found) ↦ inl (ground arith, ground arith)
  | inl new ↦ elim (Option-cases (find_free 0 m.tbl)) [
    | inl full ↦ inl (ground arith, ground arith)
    | inr (i, room) ↦
        let (j, q, place, at, unused) = find_free-some 0 m.tbl i room in
        let at_i : get_elem? m.tbl i ≡ some q = ap (get_elem? m.tbl) {y = j} (omega arith) ∙ at in
        inr (i, q, at_i, unused, ground arith, ground arith)
  ]
]

choose_own : (b c : Bool) (x y : ℤ) → b ≡ true → c ≡ true → (if b && c then x else y) ≡ x
choose_own b c x y own given = ground arith

choose_kept : (b c : Bool) (x y : ℤ) → c ≡ false → (if b && c then x else y) ≡ y
choose_kept b c x y refused = ground arith

choose_other : (b c : Bool) (x y : ℤ) → b ≡ false → (if b && c then x else y) ≡ y
choose_other b c x y other = ground arith

key_of_test : (j key : ℕ) → (j == key) ≡ true → j ≡ key
key_of_test j key e = ground arith

to_int32_small : (i : ℕ) → i < 12 → is_negative (to_int32 i) ≡ false
to_int32_small i lt = ground arith

-- ipc_msgque_get writes its key and nothing else into the map: afterwards a look-up of the key gives the
-- id returned, if one was; a look-up of any other key, or after a refusal, gives what it gave before.
pub get_id_by_key-get :
    (key j : ℕ) (k : Kernel) {m : Msqinfo}
    → k.info ≡ some m
    → IsTable m.tbl
    → length m.tbl ≡ queue_num
    → get_id_by_key j (get key k).1
      ≡ (if j == key && not (is_negative (get key k).0) then (get key k).0 else get_id_by_key j k)
get_id_by_key-get key j k {m} here t size = elim (get_cases key k here) [
  | inl (refused, same) ↦
      get_id_by_key-info j (get key k).1 k same
      ∙ sym (choose_kept (j == key) _ (get key k).0 (get_id_by_key j k) (ap not refused))
  | inr (i, q, at, unused, ret, info) ↦
      let inside : i < 12 = omega (arith, lt-length_of_some m.tbl i q at, size) in
      let given : is_negative (get key k).0 ≡ false =
        ap is_negative ret ∙ to_int32_small i inside in
      elim (Bool-cases (j == key)) [
        | inl own ↦
            ap (λ x. get_id_by_key x (get key k).1) (key_of_test j key own)
            ∙ get_then_lookup key k here t refl given
            ∙ sym (choose_own (j == key) _ (get key k).0 (get_id_by_key j k) own (ap not given))
        | inr other ↦
            get_id_by_key-tbl j k (get key k).1 here info
              (find_key-set j i m.tbl q (fresh_queue q i key) at (ground arith) (ground arith))
            ∙ sym (choose_other (j == key) _ (get key k).0 (get_id_by_key j k) other)
      ]
]

released_cases :
    (o : Outcome (Option ℕ)) (i : ℕ) (k : Kernel) {m : Msqinfo} (q : Msgque) {ret : ℤ} {k' : Kernel}
    → k.info ≡ some m
    → (o >>= λ token. done (release_queue i q token (locked k))) ≡ done (ret, k')
    → ((is_zero ret ≡ false) × (k'.info ≡ some m))
      ⊎ ((ret ≡ pos 0)
          × ((n : Msqinfo) × (k'.info ≡ some n) × (n.tbl ≡ set m.tbl i (record q { initkey = 0 }))))
unfolding release_queue
released_cases (done none) i k q here e = inl (ground arith, ground arith)
released_cases (done (some j)) i k {m} q here e = inr (
  ground arith,
  (
    put_queue i (record q { initkey = 0 }) (clear_name j m),
    ground arith,
    ap (λ ts. set ts i (record q { initkey = 0 })) (tbl-clear_name j m),
  ),
)
released_cases fault i k q here e = absurd (cc (e))
released_cases blocked i k q here e = absurd (cc (e))

-- What a call of rel does to the map.
rel_cases :
    (i : ℕ) (k : Kernel) {m : Msqinfo} (q : Msgque) {ret : ℤ} {k' : Kernel}
    → k.info ≡ some m
    → get_que_by_id i k ≡ some q
    → rel i k ≡ done (ret, k')
    → ((is_zero ret ≡ false) × (k'.info ≡ some m))
      ⊎ ((ret ≡ pos 0)
          × ((n : Msqinfo) × (k'.info ≡ some n) × (n.tbl ≡ set m.tbl i (record q { initkey = 0 }))))
unfolding rel
rel_cases i k {m} q {ret} {k'} here known e =
    released_cases (get_token_by_key q.sharekey k) i k q here (rw (known, rel) at e)

-- ipc_msgque_rel of an id that names a queue takes the queue's key out of the map where it returns 0,
-- and nothing else: every other key, and every key after another answer, is looked up as before.
pub get_id_by_key-rel :
    (i j : ℕ) (k : Kernel) {m : Msqinfo} (q : Msgque) {ret : ℤ} {k' : Kernel}
    → k.info ≡ some m
    → IsTable m.tbl
    → get_que_by_id i k ≡ some q
    → rel i k ≡ done (ret, k')
    → get_id_by_key j k' ≡ (if j == q.sharekey && is_zero ret then minus 3 else get_id_by_key j k)
get_id_by_key-rel i j k {m} q {ret} {k'} here t known e =
    let (at, used, _) = get_que_by_id-some i k q here known in
    elim (rel_cases i k q here known e) [
      | inl (failed, same) ↦
          get_id_by_key-info j k' k (same ∙ sym here)
          ∙ sym (choose_kept (j == q.sharekey) (is_zero ret) (minus 3) (get_id_by_key j k) failed)
      | inr (zero_ret, (n, there, tbl)) ↦ elim (Bool-cases (j == q.sharekey)) [
        | inl own ↦
            ap (λ x. get_id_by_key x k') (key_of_test j q.sharekey own)
            ∙ rel_then_lookup i k q here t known (e ∙ ap (λ r. done (r, k')) zero_ret)
            ∙ sym (
                choose_own (j == q.sharekey) (is_zero ret) (minus 3) (get_id_by_key j k) own
                  (ap is_zero zero_ret))
        | inr other ↦
            get_id_by_key-tbl j k k' here there (
              ap (find_key j) tbl
              ∙ find_key-set j i m.tbl q (record q { initkey = 0 }) at (ground arith) refl)
            ∙ sym (choose_other (j == q.sharekey) (is_zero ret) (minus 3) (get_id_by_key j k) other)
      ]
    ]
