-- ===== src/Msqinfo/Setup.antt =====
-- ipc_msgque_init and ipc_msgque_exit: what they build, and that they give back what they took.
use ipc_msq_multicore.Common.{
  ℕ, suc, ◌+◌, ◌-◌, ◌^◌, ◌≤◌, ◌<◌, ◌≡◌, refl, ap, ◌∙◌, Option, none, some, List, [], ◌∷◌, map,
  arith, false, length, All, ℤ, pos, is_zero,
}
use ipc_msq_multicore.Common.Bytes.{cstr}
use ipc_msq_multicore.Msgque.{Msgque, element_num}
use ipc_msq_multicore.Msgque.Ring.{HasData}
use ipc_msq_multicore.Msqinfo.{
  SndmsgBuff, Msqinfo, Kernel, queue_num, sendto_max, token_max, send_msg_size, calc_need_buff_size,
  clear_queue, clear_token, place_buffs, set_up, init, exit,
}

-- The sizes that the types of IPC_MSQINFO fix.
abbrev pub HasSlots : Msgque → Type 0
HasSlots q = (length q.element ≡ element_num) × All HasData q.element

abbrev pub HasRoom : List ℕ → Type 0
HasRoom t = length t ≡ token_max + 1

pub record HasShape (m : Msqinfo) : Type 0 where
  pub queues : length m.tbl ≡ queue_num
  pub slots : All HasSlots m.tbl
  pub strings : length m.tokens ≡ queue_num
  pub room : All HasRoom m.tokens
  pub senders : length m.buffs ≡ sendto_max

abbrev pub IsUnused : Msgque → Type 0
IsUnused q = q.initkey ≡ 0

abbrev pub IsEmptyToken : List ℕ → Type 0
IsEmptyToken t = cstr t ≡ some []

-- A free sender whose two messages stand one behind the other at `a`.
abbrev pub sender : ℕ → SndmsgBuff
sender a = record { pingponidx = 0; sndmsg_0 = a; sndmsg_1 = a + send_msg_size; semid = 1 }

length-clear_queue : (qs : List Msgque) → length (map clear_queue qs) ≡ length qs
length-clear_queue [] = refl
length-clear_queue (q ∷ qs) = ap suc (length-clear_queue qs)

clear_queue-HasSlots : (qs : List Msgque) → All HasSlots qs → All HasSlots (map clear_queue qs)
clear_queue-HasSlots [] h = tt
clear_queue-HasSlots (q ∷ qs) h = (h.0, clear_queue-HasSlots qs h.1)

clear_queue-IsUnused : (qs : List Msgque) → All IsUnused (map clear_queue qs)
clear_queue-IsUnused [] = tt
clear_queue-IsUnused (q ∷ qs) = (refl, clear_queue-IsUnused qs)

length-clear_token : (ts : List (List ℕ)) → length (map clear_token ts) ≡ length ts
length-clear_token [] = refl
length-clear_token (t ∷ ts) = ap suc (length-clear_token ts)

clear_token_lem : (t : List ℕ) → HasRoom t → HasRoom (clear_token t) × IsEmptyToken (clear_token t)
unfolding cstr
clear_token_lem [] h = absurd (omega arith)
clear_token_lem (c ∷ cs) h = (h, refl)

clear_tokens :
    (ts : List (List ℕ))
    → All HasRoom ts
    → All HasRoom (map clear_token ts) × All IsEmptyToken (map clear_token ts)
clear_tokens [] h = (tt, tt)
clear_tokens (t ∷ ts) h =
    let one = clear_token_lem t h.0 in
    let rest = clear_tokens ts h.1 in ((one.0, rest.0), (one.1, rest.1))

place_buffs_lem :
    (vir : ℕ) (bs : List SndmsgBuff)
    → vir + calc_need_buff_size ≤ 2 ^ 32 - 1
    → length bs ≡ sendto_max
    → place_buffs vir bs
      ≡ (sender vir ∷ sender (vir + 32) ∷ sender (vir + 64) ∷ [], vir + calc_need_buff_size)
unfolding place_buffs calc_need_buff_size
place_buffs_lem vir [] h l = absurd (omega arith)
place_buffs_lem vir (a ∷ []) h l = absurd (omega arith)
place_buffs_lem vir (a ∷ b ∷ []) h l = absurd (omega arith)
place_buffs_lem vir (a ∷ b ∷ c ∷ []) h l = ground arith
place_buffs_lem vir (a ∷ b ∷ c ∷ d ∷ r) h l = absurd (omega arith)

-- Where both allocations succeed, init returns 0 and leaves twelve unused queues, twelve empty tokens
-- and three free senders whose six messages tile the buffer at `vir` without overlap.
pub init_sets_up :
    (fresh : Msqinfo) (vir dma : ℕ) (k : Kernel)
    → k.info ≡ none
    → HasShape fresh
    → 0 < vir
    → vir + calc_need_buff_size < 2 ^ 32
    → (m : Msqinfo) × (init (some fresh) (vir, dma) k
        ≡ (pos 0, record k { info = some m; blocks = k.blocks + 1; dma_blocks = k.dma_blocks + 1 }))
      × HasShape m
      × All IsUnused m.tbl
      × All IsEmptyToken m.tokens
      × (m.buffs ≡ sender vir ∷ sender (vir + 32) ∷ sender (vir + 64) ∷ [])
unfolding init set_up calc_need_buff_size
init_sets_up fresh vir dma k none_yet s pos_vir fits =
    let placed = place_buffs_lem vir fresh.buffs (omega arith) s.senders in
    (
      (set_up fresh vir dma).0,
      ground (arith, placed),
      record {
        queues = length-clear_queue fresh.tbl ∙ s.queues;
        slots = clear_queue-HasSlots fresh.tbl s.slots;
        strings = length-clear_token fresh.tokens ∙ s.strings;
        room = (clear_tokens fresh.tokens s.room).0;
        senders = ap (λ r. length r.0) placed;
      },
      clear_queue-IsUnused fresh.tbl,
      (clear_tokens fresh.tokens s.room).1,
      ap (λ r. r.0) placed,
    )

-- A call of init that does not return 0 leaves the state as it was: nothing stays allocated.
pub init-failure :
    (alloc : Option Msqinfo) (vir dma : ℕ) (k : Kernel) {ret : ℤ} {k' : Kernel}
    → init alloc (vir, dma) k ≡ (ret, k')
    → is_zero ret ≡ false
    → k' ≡ k
unfolding init
init-failure alloc vir dma k e h = ground arith

-- When ipc_msgque_init has returned 0, ipc_msgque_exit restores the state before it.
pub exit-init :
    (alloc : Option Msqinfo) (vir dma : ℕ) (k : Kernel) {k' : Kernel}
    → init alloc (vir, dma) k ≡ (pos 0, k')
    → exit k' ≡ k
unfolding init exit
exit-init alloc vir dma k e = ground arith
