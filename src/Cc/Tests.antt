-- ===== src/Cc/Tests.antt =====
-- The properties of the inter-core driver at a device that runs on CPU2.
use ipc_msq_multicore.Common.{
  ◌<◌, ◌+◌, ◌==◌, if◌then◌else◌, [], ◌∷◌, ◌≡◌, ◌≢◌, ◌++◌, refl, inl, true, none, some, arith, ℕ,
  pos, is_negative,
}
use ipc_msq_multicore.Common.Outcome.{free, held, lock_state}
use ipc_msq_multicore.Cc.{
  Dev, Cmd, cpu1, cpu2, dsp, unregister_handler, get_cmd, send_cmd, send_ack, core_max,
}
use ipc_msq_multicore.Cc.Regs.{field, event_bit, set_event, set_ack}
use ipc_msq_multicore.Cc.Regs
use ipc_msq_multicore.Cc.Device.{opened_inten, irq_handler, close_dev}
use ipc_msq_multicore.Cc.Handlers.{handler_of, unregister_clears_running}
use ipc_msq_multicore.Cc.Send.{last_write, send_cmd_address_lost, send_ack_writes}
use ipc_msq_multicore.Cc.Irq.{served, irq_after_open, close_lock}
use ipc_msq_multicore.Cc.Receive
use ipc_msq_multicore.Samples.{on_cpu2, soc, locals}

abbrev cmd : Cmd
cmd = record { opcode = 32914; data_addr = 0x9004; data_size = 4 }

unregister_clears_running_example :
    (dd' : Dev) × (unregister_handler cpu1 (some on_cpu2) ≡ (pos 0, some dd'))
    × (handler_of cpu2 dd' ≡ none)
    × ((c : ℕ) → c ≢ cpu2 → handler_of c dd' ≡ handler_of c on_cpu2)
unregister_clears_running_example =
    unregister_clears_running cpu1 on_cpu2 (omega arith) (omega arith)

send_cmd_address_lost_example :
    (dd' : Dev) × (w : ℕ) × (send_cmd soc locals cpu1 cmd (some on_cpu2) ≡ (pos 0, some dd'))
    × (dd'.writes
        ≡ (Regs.cpu2_act, 2)
          ∷ (4, 4)
          ∷ (Regs.cpu2_cpu1_cmdbuf3, 0x9004)
          ∷ (Regs.cpu2_cpu1_cmdbuf1, w)
          ∷ (Regs.cpu2_sts, 1)
          ∷ [])
    × (last_write Regs.cpu2_cpu1_cmdbuf1 dd'.writes ≡ some w)
    × (field 16 16 w ≡ 32914)
    × (last_write Regs.cpu2_cpu1_cmdbuf2 dd'.writes ≡ none)
    × (last_write Regs.cpu2_cpu1_cmdbuf3 dd'.writes ≡ some 0x9004)
send_cmd_address_lost_example =
    send_cmd_address_lost soc locals cpu1 cmd on_cpu2 refl (inl refl) (omega arith) (omega arith)
      (omega arith) (omega arith)

-- The registers all read as 5: events of CPU1 and the DSP, and their interrupts enabled.
irq_after_open_example :
    let (calls, dd') = irq_handler 0 0 on_cpu2 in
    (calls ≡ served on_cpu2 5 cpu1 ++ served on_cpu2 5 dsp) × (lock_state dd'.lock ≡ free)
unfolding opened_inten
irq_after_open_example = irq_after_open 0 0 5 on_cpu2 refl refl refl

get_cmd_fails_example :
    let (ret, cmd', _) =
      get_cmd (record { buf1 = 0; buf2 = 0; buf3 = 0 }) cpu1 (some cmd) (some on_cpu2) in
    (is_negative ret ≡ true) × (cmd' ≡ some cmd)
get_cmd_fails_example =
    Receive.get_cmd_fails (record { buf1 = 0; buf2 = 0; buf3 = 0 }) cpu1 (some cmd) (some on_cpu2)

send_ack_writes_example :
    (dd' : Dev) × (w : ℕ) × (send_ack soc cpu1 (some on_cpu2) ≡ (pos 0, some dd'))
    × (dd'.writes ≡ (32, w) ∷ [])
    × ((c : ℕ) → c < core_max → field (c + 16) 1 w ≡ (if c == cpu1 then 1 else 0))
send_ack_writes_example = send_ack_writes soc cpu1 on_cpu2 (omega arith) (omega arith) (omega arith)

close_lock_example : lock_state (close_dev on_cpu2).lock ≡ held
close_lock_example = close_lock on_cpu2 (omega arith) refl
