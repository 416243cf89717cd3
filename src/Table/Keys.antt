-- ===== src/Table/Keys.antt =====
-- Queues and their keys: ipc_msgque_get, ipc_msgque_getIDbyKey and ipc_msgque_rel.
use ipc_msq_multicore.Common.{
  ℕ, zero, suc, ◌+◌, ◌≡◌, ◌≢◌, refl, sym, ap, ◌∙◌, none, some, List, [], ◌∷◌, arith, true, false,
  ◌&&◌, ◌==◌, Bool-cases, Option-cases, inl, inr, get_elem?, set, All, get_elem?-set_cases,
}
use ipc_msq_multicore.Common.{All-get_elem?}
use ipc_msq_multicore.Msqinfo.Setup.{IsUnused}
use ipc_msq_multicore.Msgque.{Msgque, fresh_queue}
use ipc_msq_multicore.Msqinfo.{Msqinfo, Kernel}
use ipc_msq_multicore.Table.{is_used, find_key, find_free, hand_out, get}

-- A used queue has its place as its id, and no other used queue has its key.
pub record IsTable (qs : List Msgque) : Type 0 where
  pub ids : (i : ℕ) (q : Msgque) → get_elem? qs i ≡ some q → is_used q ≡ true → q.msqid ≡ i
  pub keys :
      (i j : ℕ) (p q : Msgque)
      → get_elem? qs i ≡ some p
      → get_elem? qs j ≡ some q
      → is_used p ≡ true
      → is_used q ≡ true
      → p.sharekey ≡ q.sharekey
      → i ≡ j

pub find_key-some :
    (key : ℕ) (qs : List Msgque) (q : Msgque)
    → find_key key qs ≡ some q
    → (i : ℕ) × (get_elem? qs i ≡ some q) × (is_used q ≡ true) × (q.sharekey ≡ key)
unfolding find_key
find_key-some key [] q e = cc
find_key-some key (p ∷ qs) q e = elim (Bool-cases (is_used p && key == p.sharekey)) [
  | inl hit ↦ (0, rw hit at e, ground arith, ground arith)
  | inr miss ↦
      let (i, at, used, same) = find_key-some key qs q (rw miss at e) in (suc i, at, used, same)
]

pub find_key-none :
    (key : ℕ) (qs : List Msgque) (i : ℕ) (q : Msgque)
    → find_key key qs ≡ none
    → get_elem? qs i ≡ some q
    → is_used q ≡ true
    → q.sharekey ≢ key
unfolding find_key
find_key-none key [] i q e at used same = cc
find_key-none key (p ∷ qs) zero q e at used same = ground arith
find_key-none key (p ∷ qs) (suc i) q e at used same =
    find_key-none key qs i q (ground arith) at used same

pub find_free-some :
    (n : ℕ) (qs : List Msgque) (i : ℕ)
    → find_free n qs ≡ some i
    → (j : ℕ) × (q : Msgque) × (i ≡ n + j) × (get_elem? qs j ≡ some q) × (is_used q ≡ false)
unfolding find_free
find_free-some n [] i e = cc
find_free-some n (q ∷ qs) i e = elim (Bool-cases (is_used q)) [
  | inl used ↦
      let (j, p, place, at, unused) = find_free-some (suc n) qs i (rw used at e) in
      (suc j, p, omega arith, at, unused)
  | inr unused ↦ (0, q, ground arith, refl, unused)
]

-- In a table that satisfies the invariant the search finds the queue that has the key.
pub find_key-IsTable :
    {qs : List Msgque} (i : ℕ) (q : Msgque)
    → IsTable qs
    → get_elem? qs i ≡ some q
    → is_used q ≡ true
    → find_key q.sharekey qs ≡ some q
find_key-IsTable {qs} i q t at used = elim (Option-cases (find_key q.sharekey qs)) [
  | inl missing ↦ absurd (find_key-none q.sharekey qs i q missing at used refl)
  | inr (p, found) ↦
      let (j, at', used', same) = find_key-some q.sharekey qs p found in
      let e : i ≡ j = t.keys i j q p at at' used used' (sym same) in
      found ∙ sym at' ∙ ap (get_elem? qs) (sym e) ∙ at
]

-- A new entry keeps the invariant if it is unused, or has its place as its id and a key that no
-- other used queue has.
pub set-IsTable :
    {qs : List Msgque} (i : ℕ) (p : Msgque)
    → IsTable qs
    → (is_used p ≡ true → p.msqid ≡ i)
    → ((j : ℕ) (q : Msgque)
        → i ≢ j
        → get_elem? qs j ≡ some q
        → is_used q ≡ true
        → is_used p ≡ true
        → q.sharekey ≢ p.sharekey)
    → IsTable (set qs i p)
set-IsTable {qs} i p t own others = record {
  ids = λ j q at used. elim (get_elem?-set_cases qs i j p q at) [
    | inl (same, e) ↦ rw e (own (rw e at used) ∙ same)
    | inr (other, at') ↦ t.ids j q at' used
  ];
  keys = λ j l a b at_j at_l used_a used_b same. elim (get_elem?-set_cases qs i j p a at_j) [
    | inl (ij, ea) ↦ elim (get_elem?-set_cases qs i l p b at_l) [
      | inl (il, eb) ↦ sym ij ∙ il
      | inr (il, at') ↦
          absurd (others l b il at' used_b (rw ea at used_a) (sym same ∙ ap (λ q. q.sharekey) ea))
    ]
    | inr (ij, at) ↦ elim (get_elem?-set_cases qs i l p b at_l) [
      | inl (il, eb) ↦
          absurd (others j a ij at used_a (rw eb at used_b) (same ∙ ap (λ q. q.sharekey) eb))
      | inr (il, at') ↦ t.keys j l a b at at' used_a used_b same
    ]
  ];
}

-- Handing out a place under a key that no used queue has keeps the invariant.
pub hand_out-IsTable :
    (m : Msqinfo) (i key : ℕ) {q : Msgque}
    → IsTable m.tbl
    → get_elem? m.tbl i ≡ some q
    → find_key key m.tbl ≡ none
    → IsTable (hand_out i key m).tbl
hand_out-IsTable m i key {q} t at new =
    rw (at, hand_out)
      (set-IsTable i (fresh_queue q i key) t (λ _. refl)
        (λ j p _ at' used _. find_key-none key m.tbl j p new at' used))

-- Every call of ipc_msgque_get, whether it hands a queue out or refuses, keeps the invariant.
pub get-IsTable :
    (key : ℕ) (k : Kernel) {m : Msqinfo}
    → k.info ≡ some m
    → IsTable m.tbl
    → (m' : Msqinfo) × ((get key k).1.info ≡ some m') × IsTable m'.tbl
unfolding get
get-IsTable key k {m} here t = elim (Option-cases (find_key key m.tbl)) [
  | inr (q, found) ↦ (m, ground arith, t)
  | inl new ↦ elim (Option-cases (find_free 0 m.tbl)) [
    | inl full ↦ (m, ground arith, t)
    | inr (i, room) ↦
        let (j, q, place, at, unused) = find_free-some 0 m.tbl i room in
        let at_i : get_elem? m.tbl i ≡ some q = ap (get_elem? m.tbl) {y = j} (omega arith) ∙ at in
        (hand_out i key m, ground arith, hand_out-IsTable m i key t at_i new)
  ]
]

-- A table without used queues.
pub unused-IsTable : (qs : List Msgque) → All IsUnused qs → IsTable qs
unused-IsTable qs h = record {
  ids = λ i q at used. absurd (not_used qs i q h at used);
  keys = λ i j p q at_i at_j used_p used_q same. absurd (not_used qs i p h at_i used_p);
}
  where
    not_used :
        (qs : List Msgque) (i : ℕ) (q : Msgque)
        → All IsUnused qs
        → get_elem? qs i ≡ some q
        → is_used q ≡ true
        → ⊥
    not_used qs i q h at used = ground (arith, All-get_elem? IsUnused qs i q h at)
