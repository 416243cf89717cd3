-- ===== src/Api/Send.antt =====
-- What ipc_msg_snd sends, and what it leaves of the sender's semaphore.
use ipc_msq_multicore.Common.{
  ℕ, ◌+◌, ◌-◌, ◌≤◌, ◌<◌, ◌≡◌, ◌≢◌, refl, ◌∙◌, false, some, List, ◌++◌, arith, get_elem?, u32,
  length, take, drop, minus, get_elem?-set_self, lt-length_of_some,
}
use ipc_msq_multicore.Common.Bytes.{memcpy_fits}
use ipc_msq_multicore.Common.Outcome.{done, blocked}
use ipc_msq_multicore.Msgque.{Msgque, data_size}
use ipc_msq_multicore.Msqinfo.{SendMsg, SndmsgBuff, Msqinfo, Kernel, sendto_max}
use ipc_msq_multicore.Table.{get_que_by_id, with_info}
use ipc_msq_multicore.Sender.{
  entry, put_buff, swap_buff, lock_snd_msg_buff, unlock_snd_msg_buff, get_phy_addr,
}
use ipc_msq_multicore.Sender.Pingpong.{lock_blocked-info, taken, lock_free, taken_excludes}
use ipc_msq_multicore.Cc.{Cmd, send_cmd, cpu1}
use ipc_msq_multicore.Api.{System, Ambient, write_msg, transmit, fill_and_send, snd}

-- The call gets as far as the buffer: a queue in use, a free sender, and data that fit.
pub record Prepared (i send_to size : ℕ) (bytes : List ℕ) (s : System) (q : Msgque) (m : Msqinfo)
    (b : SndmsgBuff) : Type 0 where
  pub known : get_que_by_id i s.kernel ≡ some q
  pub here : s.kernel.info ≡ some m
  pub at : get_elem? m.buffs (entry send_to) ≡ some b
  pub ready : 0 < b.semid
  pub dest : send_to ≤ sendto_max
  pub array : length (s.kernel.memory (swap_buff b).0).bytes ≡ data_size
  pub fits : size ≤ data_size
  pub given : size ≤ length bytes

snd-Prepared :
    (amb : Ambient) (i send_to size : ℕ) (bytes : List ℕ) (s : System) (q : Msgque) (m : Msqinfo)
    (b : SndmsgBuff)
    → Prepared i send_to size bytes s q m b
    → snd amb i send_to (some bytes) size s
      ≡ fill_and_send amb q.sharekey send_to bytes size
          (swap_buff b).0
          (taken send_to b m s.kernel)
          s.dev
unfolding snd
snd-Prepared amb i send_to size bytes s q m b p =
    ground
      (arith, p.known, p.dest, p.fits, lock_free amb.signal send_to s.kernel b p.here p.at p.ready)

-- The message in the buffer after the copy.
abbrev pub sent : ℕ → ℕ → List ℕ → SendMsg → SendMsg
sent send_to size bytes old = record {
  send_to = send_to;
  bytes = take size bytes ++ drop size old.bytes;
}

sem_restored :
    (b : SndmsgBuff)
    → 0 < b.semid
    → (swap_buff (record b { semid = b.semid - 1 })).1.semid + 1 ≡ b.semid
sem_restored b h = ground arith

-- A prepared call for core 1 puts the data into the buffer, hands the key, the physical address of the
-- data and the size to the inter-core driver, and gives the semaphore back. It returns what a function
-- without `return` happens to return.
pub snd_core1 :
    (amb : Ambient) (i size : ℕ) (bytes : List ℕ) (s : System) (q : Msgque) (m : Msqinfo)
    (b : SndmsgBuff)
    → Prepared i 1 size bytes s q m b
    → let p = (swap_buff b).0 in
      let cmd : Cmd = record {
        opcode = q.sharekey;
        data_addr = get_phy_addr (u32 (p + 4)) s.kernel;
        data_size = size;
      } in
      (k' : Kernel) × (m' : Msqinfo) × (b' : SndmsgBuff) × (snd amb i 1 (some bytes) size s
        ≡ done (
          amb.no_return,
          record { kernel = k'; dev = (send_cmd amb.soc amb.locals cpu1 cmd s.dev).1 },
        ))
      × (k'.memory p ≡ sent 1 size bytes (s.kernel.memory p))
      × (k'.info ≡ some m')
      × (get_elem? m'.buffs (entry 1) ≡ some b')
      × (b'.semid ≡ b.semid)
unfolding fill_and_send transmit unlock_snd_msg_buff get_phy_addr
snd_core1 amb i size bytes s q m b p =
    let b₁ = (swap_buff (record b { semid = b.semid - 1 })).1 in
    let m₁ = put_buff (entry 1) b₁ m in
    let at₁ =
      get_elem?-set_self m.buffs (entry 1) b₁ (lt-length_of_some m.buffs (entry 1) b p.at) in
    let b₂ = record b₁ { semid = b₁.semid + 1 } in
    let m₂ = put_buff (entry 1) b₂ m₁ in
    let a = (swap_buff b).0 in
    let k₁ = write_msg a 1 (sent 1 size bytes (s.kernel.memory a)).bytes (taken 1 b m s.kernel) in
    (
      with_info m₂ k₁,
      m₂,
      b₂,
      snd-Prepared amb i 1 size bytes s q m b p
          ∙ ground (
            arith,
            p.here,
            p.array,
            p.fits,
            p.given,
            memcpy_fits (s.kernel.memory a).bytes bytes size,
            at₁,
          ),
      ground arith,
      refl,
      get_elem?-set_self m₁.buffs (entry 1) b₂ (lt-length_of_some m₁.buffs (entry 1) b₁ at₁),
      sem_restored b p.ready,
    )

-- A prepared call for core 2 or 3 returns -6 and sends nothing, unless the buffer lies at address 3:
-- the code compares the address, not the destination, with the number of core 3. The semaphore stays
-- taken, so that the next call for that core waits for ever if no signal comes.
pub snd_core3 :
    (amb : Ambient) (i send_to size : ℕ) (bytes : List ℕ) (s : System) (q : Msgque) (m : Msqinfo)
    (b : SndmsgBuff)
    → Prepared i send_to size bytes s q m b
    → send_to ≢ 1
    → (swap_buff b).0 ≢ 3
    → b.semid ≡ 1
    → b.sndmsg_0 ≢ b.sndmsg_1
    → (s' : System) × (snd amb i send_to (some bytes) size s ≡ done (minus 6, s'))
      × (s'.dev ≡ s.dev)
      × (lock_snd_msg_buff false send_to s'.kernel ≡ blocked)
unfolding fill_and_send
snd_core3 amb i send_to size bytes s q m b p ne addr one distinct =
    let a = (swap_buff b).0 in
    let k₁ =
      write_msg a send_to (sent send_to size bytes (s.kernel.memory a)).bytes
        (taken send_to b m s.kernel) in
    (
      record { kernel = k₁; dev = s.dev },
      snd-Prepared amb i send_to size bytes s q m b p
          ∙ ground
              (arith, p.array, p.fits, p.given, memcpy_fits (s.kernel.memory a).bytes bytes size),
      refl,
      lock_blocked-info send_to (taken send_to b m s.kernel) k₁ refl
          (taken_excludes send_to s.kernel b p.here p.at one distinct).0,
    )
