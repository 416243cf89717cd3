-- ===== src/Sender.antt =====
-- kernel_space/drv_chardev/drv_ipc_msgque.c: the two buffers of each sender, ipc_msgque_lockSndMsgBuff,
-- ipc_msgque_unlockSndMsgBuff and ipc_msgque_getPhyAddr. `psndmsgbuf` is read as the address of the
-- entry, which is never null; an index out of range is a fault.
pub mod Pingpong
pub mod Exclusion
mod Tests
use ipc_msq_multicore.Common.{
  ℕ, ◌+◌, ◌-◌, ◌^◌, Bool, true, false, Option, none, some, ◌==◌, if◌then◌else◌, get_elem?, set, u32,
}
use ipc_msq_multicore.Common.Outcome.{Outcome, done, fault, blocked, ◌>>=◌, or_fault}
use ipc_msq_multicore.Msqinfo.{SndmsgBuff, Msqinfo, Kernel}
use ipc_msq_multicore.Table.{with_info}

-- The entry for a destination, 1 to 3.
abbrev pub entry : ℕ → ℕ
entry send_to = u32 (send_to + 2 ^ 32 - 1)

abbrev pub put_buff : ℕ → SndmsgBuff → Msqinfo → Msqinfo
put_buff i b m = record m { buffs = set m.buffs i b }

-- down_interruptible, whose result the code does not read. A semaphore that is taken is waited for;
-- if a signal comes first, the call returns without it.
abbrev pub down : Bool → SndmsgBuff → Outcome SndmsgBuff
down signal b =
    if b.semid == 0
    then if signal then done b else blocked
    else done (record b { semid = b.semid - 1 })

-- The message that is handed out, and the entry with the other one next.
abbrev pub swap_buff : SndmsgBuff → ℕ × SndmsgBuff
swap_buff b =
    if b.pingponidx == 0
    then (b.sndmsg_0, record b { pingponidx = 1 })
    else (b.sndmsg_1, record b { pingponidx = 0 })

-- ipc_msgque_lockSndMsgBuff: the address of the message.
unfoldable pub lock_snd_msg_buff : Bool → ℕ → Kernel → Outcome (Option ℕ × Kernel)
lock_snd_msg_buff signal send_to k = elim k.info [
  | none ↦ done (none, k)
  | some m ↦ or_fault (get_elem? m.buffs (entry send_to)) >>= λ b. down signal b >>= λ taken.
      done (some (swap_buff taken).0, with_info (put_buff (entry send_to) (swap_buff taken).1 m) k)
]

-- ipc_msgque_unlockSndMsgBuff
unfoldable pub unlock_snd_msg_buff : ℕ → Kernel → Outcome Kernel
unlock_snd_msg_buff send_to k = elim k.info [
  | none ↦ done k
  | some m ↦ or_fault (get_elem? m.buffs (entry send_to)) >>= λ b.
      done (with_info (put_buff (entry send_to) (record b { semid = b.semid + 1 }) m) k)
]

-- ipc_msgque_getPhyAddr
unfoldable pub get_phy_addr : ℕ → Kernel → ℕ
get_phy_addr virt_addr k = elim k.info [
  | none ↦ virt_addr
  | some m ↦ u32 (virt_addr + 2 ^ 32 - u32 (m.syscmdbuf_vir + 2 ^ 32 - m.syscmdbuf_dma))
]
