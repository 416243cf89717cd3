-- ===== src/Sender/Pingpong.antt =====
-- Who gets which of the two buffers of a sender, and when.
use ipc_msq_multicore.Common.{
  ℕ, ◌+◌, ◌-◌, ◌^◌, ◌<◌, ◌≡◌, ◌≢◌, Option-cases, inl, inr, Bool, true, false, some, arith,
  get_elem?, get_elem?-set_self, lt-length_of_some,
}
use ipc_msq_multicore.Common.Outcome.{done, blocked}
use ipc_msq_multicore.Msqinfo.{SndmsgBuff, Msqinfo, Kernel}
use ipc_msq_multicore.Table.{with_info}
use ipc_msq_multicore.Sender.{entry, put_buff, swap_buff, lock_snd_msg_buff, get_phy_addr}

-- The kernel after a sender was locked.
abbrev pub taken : ℕ → SndmsgBuff → Msqinfo → Kernel → Kernel
taken send_to b m k =
    with_info (put_buff (entry send_to) (swap_buff (record b { semid = b.semid - 1 })).1 m) k

-- A free sender is locked at once, with or without a signal.
pub lock_free :
    (signal : Bool) (send_to : ℕ) (k : Kernel) {m : Msqinfo} (b : SndmsgBuff)
    → k.info ≡ some m
    → get_elem? m.buffs (entry send_to) ≡ some b
    → 0 < b.semid
    → lock_snd_msg_buff signal send_to k ≡ done (some (swap_buff b).0, taken send_to b m k)
unfolding lock_snd_msg_buff
lock_free signal send_to k b here at h = ground arith

pub taken_excludes :
    (send_to : ℕ) (k : Kernel) {m : Msqinfo} (b : SndmsgBuff)
    → k.info ≡ some m
    → get_elem? m.buffs (entry send_to) ≡ some b
    → b.semid ≡ 1
    → b.sndmsg_0 ≢ b.sndmsg_1
    → (lock_snd_msg_buff false send_to (taken send_to b m k) ≡ blocked)
      × ((k' : Kernel) × (a : ℕ) × (lock_snd_msg_buff true send_to (taken send_to b m k)
            ≡ done (some a, k'))
          × (a ≢ (swap_buff b).0))
unfolding lock_snd_msg_buff
taken_excludes send_to k {m} b here at one ne =
    let b' = (swap_buff (record b { semid = b.semid - 1 })).1 in
    let at' =
      get_elem?-set_self m.buffs (entry send_to) b'
        (lt-length_of_some m.buffs (entry send_to) b at) in
    (
      ground (arith, at'),
      (
        with_info (put_buff (entry send_to) (swap_buff b').1 (put_buff (entry send_to) b' m))
            (taken send_to b m k),
        (swap_buff b').0,
        ground (arith, at'),
        ground arith,
      ),
    )

-- Whether a lock waits is a matter of the senders alone.
pub lock_blocked-info :
    (send_to : ℕ) (k k' : Kernel)
    → k.info ≡ k'.info
    → lock_snd_msg_buff false send_to k ≡ blocked
    → lock_snd_msg_buff false send_to k' ≡ blocked
unfolding lock_snd_msg_buff
lock_blocked-info send_to k k' e h = elim (Option-cases k.info) [
  | inl null ↦ ground arith
  | inr (m, here) ↦ elim (Option-cases (get_elem? m.buffs (entry send_to))) [
    | inl out ↦ ground arith
    | inr (b, at) ↦ ground arith
  ]
]

-- An address inside the buffer for the other cores is translated to the same place of its physical
-- memory.
pub get_phy_addr_inside :
    (ofs : ℕ) (k : Kernel) {m : Msqinfo}
    → k.info ≡ some m
    → m.syscmdbuf_vir + ofs < 2 ^ 32
    → m.syscmdbuf_dma + ofs < 2 ^ 32
    → get_phy_addr (m.syscmdbuf_vir + ofs) k ≡ m.syscmdbuf_dma + ofs
unfolding get_phy_addr
get_phy_addr_inside ofs k {m} here h g = ground arith
