-- ===== src/Api/Tests.antt =====
-- The properties of sending and receiving at the queue of two messages.
use ipc_msq_multicore.Common.{
  ◌≡◌, refl, false, some, List, [], ◌∷◌, arith, pos, minus, get_elem?, replicate, Bool,
}
use ipc_msq_multicore.Common.Outcome.{done, blocked}
use ipc_msq_multicore.Msgque.Ring.{fetched, out_slot, copied}
use ipc_msq_multicore.Msqinfo.{SndmsgBuff, Msqinfo, Kernel}
use ipc_msq_multicore.Table.{get_que_by_id}
use ipc_msq_multicore.Sender.{lock_snd_msg_buff, get_phy_addr}
use ipc_msq_multicore.Cc.{Cmd, send_cmd, cpu1}
use ipc_msq_multicore.Api.{System, Ambient, snd, rcv}
use ipc_msq_multicore.Api.Send.{Prepared, sent, snd_core1, snd_core3}
use ipc_msq_multicore.Api.Receive.{answer, rcv_takes}
use ipc_msq_multicore.Samples.{
  blank_slot, two_messages, two_messages-IsValid, idle_sender, info_with, kernel_with, on_cpu2, soc,
  locals, ab_key,
}

abbrev system : System
system = record { kernel = kernel_with two_messages; dev = some on_cpu2 }

abbrev ambient : Ambient
ambient = record { soc = soc; locals = locals; no_return = pos 0; signal = false }

two_known : get_que_by_id 0 system.kernel ≡ some two_messages
unfolding get_que_by_id
two_known = refl

core1-Prepared :
    Prepared 0 1 4
      (1 ∷ 2 ∷ 3 ∷ 4 ∷ [])
      system
      two_messages
      (info_with two_messages)
      (idle_sender 0x1000)
core1-Prepared = record {
  known = two_known;
  here = refl;
  at = refl;
  ready = omega arith;
  dest = omega arith;
  array = refl;
  fits = omega arith;
  given = omega arith;
}

core3-Prepared :
    Prepared 0 3 4
      (1 ∷ 2 ∷ 3 ∷ 4 ∷ [])
      system
      two_messages
      (info_with two_messages)
      (idle_sender 0x1040)
core3-Prepared = record {
  known = two_known;
  here = refl;
  at = refl;
  ready = omega arith;
  dest = omega arith;
  array = refl;
  fits = omega arith;
  given = omega arith;
}

abbrev command : Cmd
command = record { opcode = ab_key; data_addr = get_phy_addr 0x1004 system.kernel; data_size = 4 }

snd_core1_example :
    (k' : Kernel) × (m' : Msqinfo) × (b' : SndmsgBuff) × (snd ambient 0 1
        (some (1 ∷ 2 ∷ 3 ∷ 4 ∷ []))
        4
        system
      ≡ done (
        pos 0,
        record { kernel = k'; dev = (send_cmd soc locals cpu1 command (some on_cpu2)).1 },
      ))
    × (k'.memory 0x1000 ≡ sent 1 4 (1 ∷ 2 ∷ 3 ∷ 4 ∷ []) (system.kernel.memory 0x1000))
    × (k'.info ≡ some m')
    × (get_elem? m'.buffs 0 ≡ some b')
    × (b'.semid ≡ 1)
snd_core1_example =
    snd_core1 ambient 0 4 (1 ∷ 2 ∷ 3 ∷ 4 ∷ []) system two_messages (info_with two_messages)
      (idle_sender 0x1000) core1-Prepared

snd_core3_example :
    (s' : System) × (snd ambient 0 3 (some (1 ∷ 2 ∷ 3 ∷ 4 ∷ [])) 4 system ≡ done (minus 6, s'))
    × (s'.dev ≡ some on_cpu2)
    × (lock_snd_msg_buff false 3 s'.kernel ≡ blocked)
snd_core3_example =
    snd_core3 ambient 0 3 4 (1 ∷ 2 ∷ 3 ∷ 4 ∷ []) system two_messages (info_with two_messages)
      (idle_sender 0x1040) core3-Prepared (omega arith) (omega arith) refl (omega arith)

abbrev flags : List Bool
flags = replicate 12 false

rcv_takes_example :
    let (ret, out) = answer (replicate 8 0) 8 (copied (out_slot two_messages) blank_slot) in
    (k' : Kernel) × (rcv 0 (some (replicate 8 0)) 8 0 blank_slot [] flags system.kernel
      ≡ done (ret, some out, flags, k'))
    × (get_que_by_id 0 k' ≡ some (fetched two_messages))
rcv_takes_example =
    rcv_takes 0 (replicate 8 0) 8 0 blank_slot [] flags system.kernel two_messages two_known
      two_messages-IsValid (omega arith) refl (omega arith)
