-- ===== src/Main/Idle.antt =====
-- A driver whose table has no used queue, as init leaves it: nothing that a process calls changes that.
use ipc_msq_multicore.Common.{
  ℕ, ◌≡◌, refl, none, some, List, [], ◌∷◌, arith, true, false, Option-cases, inl, inr, All,
  get_elem?, All-get_elem?, is_negative,
}
use ipc_msq_multicore.Msgque.{Msgque}
use ipc_msq_multicore.Msqinfo.{Msqinfo, Kernel}
use ipc_msq_multicore.Table.{is_used, find_key, get_id_by_key, get_que_by_id}

abbrev pub IsFree : Msgque → Type 0
IsFree q = is_used q ≡ false

abbrev pub IsIdle : Kernel → Type 0
IsIdle k = (m : Msqinfo) → k.info ≡ some m → All IsFree m.tbl

find_key_idle : (key : ℕ) (qs : List Msgque) → All IsFree qs → find_key key qs ≡ none
unfolding find_key
find_key_idle key [] h = refl
find_key_idle key (q ∷ qs) h = ground (arith, h.0, find_key_idle key qs h.1)

pub get_id_by_key_idle :
    (key : ℕ) (k : Kernel) → IsIdle k → is_negative (get_id_by_key key k) ≡ true
unfolding get_id_by_key
get_id_by_key_idle key k h = elim (Option-cases k.info) [
  | inl null ↦ ground arith
  | inr (m, here) ↦ ground (arith, find_key_idle key m.tbl (h m here))
]

pub get_que_by_id_idle : (i : ℕ) (k : Kernel) → IsIdle k → get_que_by_id i k ≡ none
unfolding get_que_by_id
get_que_by_id_idle i k h = elim (Option-cases k.info) [
  | inl null ↦ ground arith
  | inr (m, here) ↦ elim (Option-cases (get_elem? m.tbl i)) [
    | inl out ↦ ground arith
    | inr (q, at) ↦ ground (arith, All-get_elem? IsFree m.tbl i q (h m here) at)
  ]
]

pub free_table-IsIdle : (k : Kernel) {m : Msqinfo} → k.info ≡ some m → All IsFree m.tbl → IsIdle k
free_table-IsIdle k here h m' e = ground (arith)
