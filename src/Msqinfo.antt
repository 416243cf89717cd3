-- ===== src/Msqinfo.antt =====
-- kernel_space/drv_chardev/drv_ipc_msgque.c: the file's global state, ipc_msgque_init and
-- ipc_msgque_exit, with the types of kernel_space/inc/drv_ipc_msgque.h. An address is a UINT32.
-- What kmalloc and dma_alloc_coherent return are arguments; the memory of kmalloc is not cleared.
pub mod Setup
use ipc_msq_multicore.Common.{
  ℕ, ◌+◌, ◌-◌, ◌*◌, ◌^◌, ◌≡◌, Bool, true, false, not, Option, none, some, List, [], ◌∷◌, map, ◌==◌,
  if◌then◌else◌, length, All, u32, ℤ, pos, minus, enomem, efault,
}
use ipc_msq_multicore.Common.Outcome.{Lock}
use ipc_msq_multicore.Msgque.{Msg, Msgque, element_num, data_size}

-- IPC_MSG_QUEUE_NUM, IPC_SENDTO_MAX, IPC_MSG_QUEUE_TOKEN_STR_MAXLEN
abbrev pub queue_num : ℕ
queue_num = 12

abbrev pub sendto_max : ℕ
sendto_max = 3

abbrev pub token_max : ℕ
token_max = 32

-- IPC_SEND_MSG, and its size in bytes.
pub record SendMsg : Type 0 where
  pub send_to : ℕ
  pub bytes : List ℕ

abbrev pub send_msg_size : ℕ
send_msg_size = 4 + data_size

-- IPC_SNDMSG_BUFF; `semid` is the count of the semaphore.
pub record SndmsgBuff : Type 0 where
  pub pingponidx : ℕ
  pub sndmsg_0 : ℕ
  pub sndmsg_1 : ℕ
  pub semid : ℕ

-- IPC_MSQINFO
pub record Msqinfo : Type 0 where
  pub syscmdbuf_vir : ℕ
  pub syscmdbuf_dma : ℕ
  pub tbl : List Msgque
  pub tokens : List (List ℕ)
  pub buffs : List SndmsgBuff

-- g_msqinfo, the spinlock, the send messages by their addresses, and how many blocks of kmalloc and
-- of dma_alloc_coherent are live.
pub record Kernel : Type 0 where
  pub info : Option Msqinfo
  pub lock : Lock
  pub memory : ℕ → SendMsg
  pub blocks : ℕ
  pub dma_blocks : ℕ

unfoldable pub calc_need_buff_size : ℕ
calc_need_buff_size = send_msg_size * 2 * sendto_max

abbrev pub clear_queue : Msgque → Msgque
clear_queue q = record q { initkey = 0 }

abbrev pub clear_token : List ℕ → List ℕ
clear_token [] = []
clear_token (c ∷ cs) = 0 ∷ cs

-- The second loop: each entry gets its two messages from `tmpbuff` on. The address behind the last.
unfoldable pub place_buffs : ℕ → List SndmsgBuff → List SndmsgBuff × ℕ
place_buffs tmpbuff [] = ([], tmpbuff)
place_buffs tmpbuff (b ∷ bs) =
    let second = u32 (tmpbuff + send_msg_size) in
    let (rest, end) = place_buffs (u32 (second + send_msg_size)) bs in
    (record { pingponidx = 0; sndmsg_0 = tmpbuff; sndmsg_1 = second; semid = 1 } ∷ rest, end)

-- Both loops, over the memory that kmalloc gave.
unfoldable pub set_up : Msqinfo → ℕ → ℕ → Msqinfo × ℕ
set_up fresh vir dma =
    let (buffs, end) = place_buffs vir fresh.buffs in
    (
      record {
        syscmdbuf_vir = vir;
        syscmdbuf_dma = dma;
        tbl = map clear_queue fresh.tbl;
        tokens = map clear_token fresh.tokens;
        buffs = buffs;
      },
      end,
    )

-- `alloc` is what kmalloc returns, `dma_alloc` the two addresses of dma_alloc_coherent; 0 is null.
-- The live blocks are counted where the code allocates and frees them.
unfoldable pub init : Option Msqinfo → ℕ × ℕ → Kernel → ℤ × Kernel
init alloc (vir, dma) k = elim k.info [
  | some old ↦ (minus 1, k)
  | none ↦ elim alloc [
    | none ↦ (minus enomem, k)
    | some fresh ↦
        if vir == 0
        then (minus enomem, record k { blocks = k.blocks + 1 - 1; info = none })
        else let (info, end) = set_up fresh vir dma in
          if u32 (end + 2 ^ 32 - vir) == calc_need_buff_size
          then (
            pos 0,
            record k { blocks = k.blocks + 1; dma_blocks = k.dma_blocks + 1; info = some info },
          )
          else (
            minus efault,
            record k { blocks = k.blocks + 1 - 1; dma_blocks = k.dma_blocks + 1 - 1; info = none },
          )
  ]
]

-- The queues that exit clears are freed at once.
unfoldable pub exit : Kernel → Kernel
exit k = elim k.info [
  | none ↦ k
  | some old ↦ record k { blocks = k.blocks - 1; dma_blocks = k.dma_blocks - 1; info = none }
]
