-- ===== src/Cc/Send.antt =====
-- What ipc_cc_send_cmd and ipc_cc_send_ack write.
use ipc_msq_multicore.Common.{
  ℕ, ◌+◌, ◌^◌, ◌<◌, ◌≡◌, ◌≢◌, ◌⊎◌, inl, inr, Option, none, some, List, [], ◌∷◌, arith, ◌==◌,
  if◌then◌else◌, pos, refl, u32, zero, suc,
}
use ipc_msq_multicore.Cc.{
  Dev, Soc, Cmd, Locals, cpu1, cpu2, dsp, core_max, switch, send_offsets, send_writes, send_cmd,
  ack, send_ack, unlocked, locked,
}
use ipc_msq_multicore.Cc.Regs.{field, set_field}
use ipc_msq_multicore.Cc.Regs

-- The value last written to a register.
abbrev pub last_write : ℕ → List (ℕ × ℕ) → Option ℕ
last_write ofs [] = none
last_write ofs ((o, v) ∷ ws) = if o == ofs then some v else last_write ofs ws

-- The first of the three command registers from CPU2 to a core.
abbrev pub channel : ℕ → ℕ
channel core = if core == cpu1 then Regs.cpu2_cpu1_cmdbuf1 else Regs.cpu2_dsp_cmdbuf1

-- The local variables after the branch of CPU2.
abbrev chosen : Locals → ℕ → Locals
chosen u core = record u {
  sts = Regs.cpu2_sts;
  act = Regs.cpu2_act;
  buf1 = channel core;
  buf2 = channel core + 8;
}

send_offsets-chosen :
    (u : Locals) (core : ℕ)
    → (core ≡ cpu1) ⊎ (core ≡ dsp)
    → send_offsets core u ≡ some (chosen u core)
unfolding send_offsets
send_offsets-chosen u core (inl e) = ground arith
send_offsets-chosen u core (inr e) = ground arith

channel_cases : (core : ℕ) → (channel core ≡ 0x118) ⊎ (channel core ≡ 0x124)
channel_cases core = ground arith

-- On CPU2 a command to CPU1 or the DSP, with an opcode of 16 bits, and where the uninitialised offset is
-- none of the three command registers, returns 0 and makes five writes: it clears the acknowledgement;
-- then come the first command register, from whose opcode bits the key can be read, the third with the
-- address, and the size at the uninitialised offset; the trigger is last. So the second command register
-- is not written, and the third keeps the address in place of the size.
pub send_cmd_address_lost :
    (soc : Soc) (u : Locals) (core : ℕ) (cmd : Cmd) (dd : Dev)
    → dd.running_core ≡ cpu2
    → (core ≡ cpu1) ⊎ (core ≡ dsp)
    → cmd.opcode < 2 ^ 16
    → u.buf3 ≢ channel core
    → u.buf3 ≢ channel core + 4
    → u.buf3 ≢ channel core + 8
    → (dd' : Dev) × (w : ℕ) × (send_cmd soc u core cmd (some dd) ≡ (pos 0, some dd'))
      × (dd'.writes
          ≡ (Regs.cpu2_act, soc.data_trigger)
            ∷ (u.buf3, cmd.data_size)
            ∷ (channel core + 8, cmd.data_addr)
            ∷ (channel core, w)
            ∷ (Regs.cpu2_sts, soc.clear_ack)
            ∷ dd.writes)
      × (last_write (channel core) dd'.writes ≡ some w)
      × (field 16 16 w ≡ cmd.opcode)
      × (last_write (channel core + 4) dd'.writes ≡ last_write (channel core + 4) dd.writes)
      × (last_write (channel core + 8) dd'.writes ≡ some cmd.data_addr)
unfolding send_cmd send_writes
send_cmd_address_lost soc u core cmd dd run to key n1 n2 n3 = (
  unlocked (send_writes soc cmd (chosen u core) (locked dd)),
  set_field 16 16 cmd.opcode u.cmdbuf1,
  ground (arith, send_offsets-chosen u core to),
  refl,
  ground arith,
  omega arith,
  ground arith,
  ground arith,
)

-- The register in which a core acknowledges.
abbrev pub ack_register : Soc → ℕ → ℕ
ack_register soc core = switch core soc.cpu1_ack soc.cpu2_ack soc.dsp_ack 0

-- An acknowledgement to another core returns 0 and makes one write: to the register of the running
-- core, of a word whose acknowledge bit is set for that core and for no other.
pub send_ack_writes :
    (soc : Soc) (core : ℕ) (dd : Dev)
    → core < core_max
    → dd.running_core < core_max
    → core ≢ dd.running_core
    → (dd' : Dev) × (w : ℕ) × (send_ack soc core (some dd) ≡ (pos 0, some dd'))
      × (dd'.writes ≡ (ack_register soc dd.running_core, w) ∷ dd.writes)
      × ((c : ℕ) → c < core_max → field (c + 16) 1 w ≡ (if c == core then 1 else 0))
unfolding send_ack ack
send_ack_writes soc core dd lt run ne = (
  unlocked (ack soc core (locked dd)).1,
  u32 (2 ^ (core + 16)),
  ground arith,
  ground arith,
  λ c. bits core c lt,
)
  where
    bits :
        (core c : ℕ)
        → core < core_max
        → c < core_max
        → field (c + 16) 1 (u32 (2 ^ (core + 16))) ≡ (if c == core then 1 else 0)
    bits zero zero h k = refl
    bits zero (suc zero) h k = refl
    bits zero (suc (suc zero)) h k = refl
    bits (suc zero) zero h k = refl
    bits (suc zero) (suc zero) h k = refl
    bits (suc zero) (suc (suc zero)) h k = refl
    bits (suc (suc zero)) zero h k = refl
    bits (suc (suc zero)) (suc zero) h k = refl
    bits (suc (suc zero)) (suc (suc zero)) h k = refl
    bits (suc (suc (suc n))) c h k = absurd (omega arith)
    bits zero (suc (suc (suc n))) h k = absurd (omega arith)
    bits (suc zero) (suc (suc (suc n))) h k = absurd (omega arith)
    bits (suc (suc zero)) (suc (suc (suc n))) h k = absurd (omega arith)
