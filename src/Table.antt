-- ===== src/Table.antt =====
-- kernel_space/drv_chardev/drv_ipc_msgque.c: the table of queues and the table of tokens. A key is
-- a UINT32: C converts the INT32 parameter to one where it compares. A null path is `none`.
pub mod Keys
pub mod Lookup
pub mod Tokens
pub mod Post
pub mod View
mod Tests
use ipc_msq_multicore.Common.{
  ℕ, suc, ◌+◌, ◌-◌, ◌^◌, ◌≡◌, Bool, true, false, not, ◌&&◌, Option, none, some, List, [], ◌∷◌, ◌==◌,
  leb, ltb, if◌then◌else◌, length, get_elem?, get_or, set, u16, ℤ, pos, minus, to_int32, is_zero,
}
use ipc_msq_multicore.Common.Bytes.{memcpy, strncpy, cstr}
use ipc_msq_multicore.Common.Outcome.{
  Outcome, done, fault, ◌>>=◌, or_fault, Lock, spin_lock, spin_unlock,
}
use ipc_msq_multicore.Msgque.{Msg, Msgque, init_key, element_size, enqueue, fresh_queue}
use ipc_msq_multicore.Name.{namehash}
use ipc_msq_multicore.Msqinfo.{Msqinfo, Kernel, queue_num, token_max, clear_token}

abbrev pub locked : Kernel → Kernel
locked k = record k { lock = spin_lock k.lock }

abbrev pub unlocked : Kernel → Kernel
unlocked k = record k { lock = spin_unlock k.lock }

abbrev pub with_info : Msqinfo → Kernel → Kernel
with_info m k = record k { info = some m }

-- The loops over the table of queues.
abbrev pub is_used : Msgque → Bool
is_used q = q.initkey == init_key

unfoldable pub find_key : ℕ → List Msgque → Option Msgque
find_key key [] = none
find_key key (q ∷ qs) = if is_used q && key == q.sharekey then some q else find_key key qs

unfoldable pub find_free : ℕ → List Msgque → Option ℕ
find_free i [] = none
find_free i (q ∷ qs) = if is_used q then find_free (suc i) qs else some i

abbrev pub hand_out : ℕ → ℕ → Msqinfo → Msqinfo
hand_out i key m = elim (get_elem? m.tbl i) [
  | none ↦ m
  | some q ↦ record m { tbl = set m.tbl i (fresh_queue q i key) }
]

-- ipc_msgque_get. The `if` of its second loop is read as `for`.
unfoldable pub get : ℕ → Kernel → ℤ × Kernel
get key k = elim k.info [
  | none ↦ (minus 1, k)
  | some m ↦ elim (find_key key m.tbl) [
    | some q ↦ (minus 1, unlocked (locked k))
    | none ↦ elim (find_free 0 m.tbl) [
      | none ↦ (minus 2, unlocked (locked k))
      | some i ↦ (to_int32 i, unlocked (with_info (hand_out i key m) (locked k)))
    ]
  ]
]

unfoldable pub get_id_by_key : ℕ → Kernel → ℤ
get_id_by_key key k = elim k.info [
  | none ↦ minus 1
  | some m ↦ elim (find_key key m.tbl) [ none ↦ minus 3 | some q ↦ to_int32 q.msqid ]
]

unfoldable pub get_que_by_id : ℕ → Kernel → Option Msgque
get_que_by_id msqid k = elim k.info [
  | none ↦ none
  | some m ↦ if leb queue_num msqid then none else elim (get_elem? m.tbl msqid) [
    | none ↦ none
    | some q ↦ if is_used q then some q else none
  ]
]

-- The index of the first token whose hash is `key`, from index `i` on.
unfoldable pub find_token : ℕ → ℕ → List (List ℕ) → Outcome (Option ℕ)
find_token key i [] = done none
find_token key i (t ∷ ts) = do
  name ← or_fault (cstr t)
  if namehash (some name) == key then done (some i) else find_token key (suc i) ts

unfoldable pub get_token_by_key : ℕ → Kernel → Outcome (Option ℕ)
get_token_by_key key k = elim k.info [ none ↦ done none | some m ↦ find_token key 0 m.tokens ]

abbrev pub clear_name : ℕ → Msqinfo → Msqinfo
clear_name j m = elim (get_elem? m.tokens j) [
  | none ↦ m
  | some t ↦ record m { tokens = set m.tokens j (clear_token t) }
]

abbrev pub put_queue : ℕ → Msgque → Msqinfo → Msqinfo
put_queue i q m = record m { tbl = set m.tbl i q }

abbrev pub on_info : (Msqinfo → Msqinfo) → Kernel → Kernel
on_info f k = elim k.info [ none ↦ k | some m ↦ with_info (f m) k ]

-- The part of ipc_msgque_rel behind the look-up of the token. Without a token it returns with the
-- lock held.
unfoldable pub release_queue : ℕ → Msgque → Option ℕ → Kernel → ℤ × Kernel
release_queue msqid q none k = (minus 2, k)
release_queue msqid q (some j) k =
    (pos 0, unlocked (on_info (λ m. put_queue msqid (record q { initkey = 0 }) (clear_name j m)) k))

-- ipc_msgque_rel
unfoldable pub rel : ℕ → Kernel → Outcome (ℤ × Kernel)
rel msqid k = elim (get_que_by_id msqid k) [
  | none ↦ done (minus 1, unlocked (locked k))
  | some q ↦
      get_token_by_key q.sharekey k >>= λ token. done (release_queue msqid q token (locked k))
]

-- The loop of ipc_msgque_ftok: the first empty token gets the path.
unfoldable pub fill_token : Option (List ℕ) → List (List ℕ) → Outcome (List (List ℕ))
fill_token path [] = done []
fill_token path (t ∷ ts) =
    let rest = fill_token path ts >>= λ us. done (t ∷ us) in
    let filled = or_fault path >>= λ p. done (strncpy t p token_max ∷ ts) in
    if get_or t 0 0 == 0 then filled else rest

unfoldable pub ftok : Option (List ℕ) → Kernel → Outcome (ℕ × Kernel)
ftok path k = elim k.info [
  | none ↦ done (u16 (2 ^ 16 - 1), k)
  | some m ↦ fill_token path m.tokens >>= λ ts.
      done (namehash path, unlocked (with_info (record m { tokens = ts }) (locked k)))
]

-- What ipc_msgque_msgpost makes of the answer of enqueue.
abbrev pub posted : ℕ → ℤ × Option Msgque × Lock → Kernel → ℤ × Kernel
posted msqid (ret, none, l) k = (minus 4, unlocked (record k { lock = l }))
posted msqid (ret, some q, l) k = (
  if is_zero ret then ret else minus 4,
  unlocked (on_info (put_queue msqid q) (record k { lock = l })),
)

-- ipc_msgque_msgpost. `pmsgaddr` is what the address points to, `rcvmsg` the local variable before
-- it is written. It takes the lock that enqueue takes again; Outcome.on_build says what comes of it.
unfoldable pub msgpost : ℕ → Option (List ℕ) → ℕ → Msg → Kernel → Outcome (ℤ × Kernel)
msgpost msqid none msgsize rcvmsg k = done (minus 1, k)
msgpost msqid (some pmsgaddr) msgsize rcvmsg k =
    if ltb element_size msgsize then done (minus 2, k) else elim (get_que_by_id msqid k) [
      | none ↦ done (minus 3, unlocked (locked k))
      | some q ↦ or_fault (memcpy rcvmsg.bytes pmsgaddr msgsize) >>= λ bytes.
          enqueue (some q) (record { size = msgsize; bytes = bytes }) (spin_lock k.lock) >>= λ r.
          done (posted msqid r k)
    ]
