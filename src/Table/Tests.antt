-- ===== src/Table/Tests.antt =====
-- The properties of the table of queues, of tokens and of names at concrete tables.
use ipc_msq_multicore.Common.{
  ◌≡◌, ◌≢◌, refl, some, List, [], ◌∷◌, arith, ℕ, pos, minus, replicate, All, All-replicate,
}
use ipc_msq_multicore.Common.Bytes.{memcpy, cstr}
use ipc_msq_multicore.Common.Outcome.{done, fault, held, stuck, lock_state, spin_lock, spin_unlock}
use ipc_msq_multicore.Msgque.{enqueue, isfull, store}
use ipc_msq_multicore.Msgque.Ring.{HasData}
use ipc_msq_multicore.Name.{namehash, hash_from, hash_step}
use ipc_msq_multicore.Name.Collision.{namehash-substitution}
use ipc_msq_multicore.Msqinfo.{Msqinfo, Kernel, init, exit, calc_need_buff_size}
use ipc_msq_multicore.Msqinfo.Setup.{
  HasShape, IsUnused, IsEmptyToken, sender, init_sets_up, exit-init, HasSlots, HasRoom,
}
use ipc_msq_multicore.Table.{
  get, get_id_by_key, get_que_by_id, get_token_by_key, rel, ftok, msgpost, find_key, find_free,
  find_token, release_queue, locked,
}
use ipc_msq_multicore.Table.Keys.{IsTable, unused-IsTable, hand_out-IsTable, get-IsTable}
use ipc_msq_multicore.Table.Lookup.{rel_lock, rel_answer}
use ipc_msq_multicore.Table.View.{get_id_by_key-get, get_id_by_key-rel}
use ipc_msq_multicore.Table.Tokens.{IsString, IsPath, ftok_then_token}
use ipc_msq_multicore.Table.Post.{msgpost_stuck, msgpost_overflow}
use ipc_msq_multicore.Samples.{
  blank_slot, raw_queue, no_message, one_message, ab_key, ab_token, no_token, info_with, no_info,
  kernel_with,
}

abbrev empty_info : Msqinfo
empty_info = info_with raw_queue

hash_ab : namehash (some (97 ∷ 98 ∷ [])) ≡ ab_key
unfolding namehash hash_from hash_step
hash_ab = refl

empty-IsTable : IsTable empty_info.tbl
empty-IsTable = unused-IsTable empty_info.tbl (All-replicate IsUnused 12 raw_queue refl)

named-IsTable : IsTable (info_with no_message).tbl
unfolding find_key
named-IsTable = hand_out-IsTable empty_info 0 ab_key empty-IsTable refl refl

empty-HasShape : HasShape empty_info
empty-HasShape = record {
  queues = refl;
  slots = All-replicate HasSlots 12 raw_queue (refl, All-replicate HasData 16 blank_slot refl);
  strings = refl;
  room = (refl, All-replicate HasRoom 11 no_token refl);
  senders = refl;
}

namehash-substitution_example : namehash (some (97 ∷ 98 ∷ [])) ≢ namehash (some (97 ∷ 99 ∷ []))
namehash-substitution_example =
    namehash-substitution (97 ∷ []) [] 98 99 (omega arith) (omega arith) (omega arith)

init_sets_up_example :
    (m : Msqinfo) × (init (some empty_info) (0x1000, 0x9000) no_info
      ≡ (pos 0, record no_info { info = some m; blocks = 1; dma_blocks = 1 }))
    × HasShape m
    × All IsUnused m.tbl
    × All IsEmptyToken m.tokens
    × (m.buffs ≡ sender 0x1000 ∷ sender 0x1020 ∷ sender 0x1040 ∷ [])
unfolding calc_need_buff_size
init_sets_up_example =
    init_sets_up empty_info 0x1000 0x9000 no_info refl empty-HasShape (omega arith) (omega arith)

get-IsTable_example :
    (m' : Msqinfo) × ((get ab_key (kernel_with raw_queue)).1.info ≡ some m') × IsTable m'.tbl
get-IsTable_example = get-IsTable ab_key (kernel_with raw_queue) refl empty-IsTable

get_id_by_key-get_example : get_id_by_key ab_key (get ab_key (kernel_with raw_queue)).1 ≡ pos 0
unfolding get find_key find_free
get_id_by_key-get_example =
    get_id_by_key-get ab_key ab_key (kernel_with raw_queue) refl empty-IsTable refl

get_id_by_key-rel_example :
    get_id_by_key ab_key (release_queue 0 no_message (some 0) (locked (kernel_with no_message))).1
    ≡ minus 3
unfolding rel get_que_by_id get_token_by_key find_token cstr namehash hash_from hash_step
    release_queue
get_id_by_key-rel_example =
    get_id_by_key-rel 0 ab_key (kernel_with no_message) no_message refl named-IsTable refl refl

-- Without the token of the queue's key.
rel_lock_example :
    (minus 2 ≡ rel_answer 0 (kernel_with (record no_message { sharekey = 1 })))
    × (lock_state (spin_lock []) ≡ held)
unfolding rel get_que_by_id get_token_by_key find_token cstr namehash hash_from hash_step
    release_queue
rel_lock_example = rel_lock 0 (kernel_with (record no_message { sharekey = 1 })) refl refl

abbrev cd : List ℕ
cd = 99 ∷ 100 ∷ []

cd-IsPath : IsPath cd
cd-IsPath = omega arith

tokens-IsString : All IsString empty_info.tokens
unfolding cstr
tokens-IsString = ((97 ∷ 98 ∷ [], refl), All-replicate IsString 11 no_token ([], refl))

ftok_then_token_example :
    (k' : Kernel) × (j : ℕ) × (ts : List (List ℕ)) × (ftok (some cd) (kernel_with no_message)
      ≡ done (namehash (some cd), k'))
    × (k'.info ≡ some (record (info_with no_message) { tokens = ts }))
    × All IsString ts
    × (get_token_by_key (namehash (some cd)) k' ≡ done (some j))
ftok_then_token_example =
    ftok_then_token cd (kernel_with no_message) refl cd-IsPath tokens-IsString refl

abbrev crowded : Kernel
crowded = record no_info { info = some (record empty_info { tokens = replicate 12 ab_token }) }

one_known : get_que_by_id 0 (kernel_with one_message) ≡ some one_message
unfolding get_que_by_id
one_known = refl

msgpost_stuck_example : lock_state (spin_unlock (spin_unlock (spin_lock (spin_lock [])))) ≡ stuck
unfolding msgpost get_que_by_id memcpy enqueue isfull store
msgpost_stuck_example =
    msgpost_stuck 0 4 (9 ∷ 9 ∷ 9 ∷ 9 ∷ []) blank_slot (kernel_with one_message) one_message refl
      refl (omega arith) refl

msgpost_overflow_example :
    msgpost 0 (some (replicate 24 1)) 16 blank_slot (kernel_with one_message) ≡ fault
msgpost_overflow_example =
    msgpost_overflow 0 16 (replicate 24 1) blank_slot (kernel_with one_message) one_message
      one_known refl (omega arith) (omega arith)

exit-init_example : exit (init (some empty_info) (0x1000, 0x9000) no_info).1 ≡ no_info
unfolding init ipc_msq_multicore.Msqinfo.set_up ipc_msq_multicore.Msqinfo.place_buffs
    calc_need_buff_size
exit-init_example = exit-init (some empty_info) 0x1000 0x9000 no_info refl
