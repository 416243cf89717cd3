-- ===== src/Cc/Fields.antt =====
-- The bit fields of the registers as the unions of kernel_space/inc/cc_reg.h lay them out, and the
-- arithmetic on words by which Cc.Regs reads and sets those that the driver names.
use ipc_msq_multicore.Common.{
  ℕ, zero, suc, ◌+◌, ◌*◌, ◌/◌, ◌%◌, ◌^◌, ◌<◌, ◌≡◌, refl, List, [], ◌∷◌, arith, set, get_or,
}
use ipc_msq_multicore.Cc.Layout.{
  Register, layout, decode, encode, cpux_sts_bits, cpux_inten_bits, cpu2_exb, cpu1_act, cpu2_act,
  dsp_act, cpu1_sts, cpu2_sts, dsp_sts, cpu1_inten, cpu2_inten, dsp_inten, cpu1_req, cpu2_req,
  dsp_req, cpu1_rel, cpu2_rel, dsp_rel, cpu1_grant, cpu2_grant, dsp_grant, cpu1_flg, cpu2_flg,
  dsp_flg, sw_rst, ocp_fifo_ctrl, ocp1_fifo_info, ocp2_fifo_info, mips1_ctrl, mips2_ctrl, dsp_ctrl,
  dsp_err, cpu1_cpu2_cmdbuf1, cpu1_cpu2_cmdbuf2, cpu1_cpu2_cmdbuf3, cpu1_dsp_cmdbuf1,
  cpu1_dsp_cmdbuf2, cpu1_dsp_cmdbuf3, cpu2_cpu1_cmdbuf1, cpu2_cpu1_cmdbuf2, cpu2_cpu1_cmdbuf3,
  cpu2_dsp_cmdbuf1, cpu2_dsp_cmdbuf2, cpu2_dsp_cmdbuf3, dsp_cpu1_cmdbuf1, dsp_cpu1_cmdbuf2,
  dsp_cpu1_cmdbuf3, dsp_cpu2_cmdbuf1, dsp_cpu2_cmdbuf2, dsp_cpu2_cmdbuf3,
}
use ipc_msq_multicore.Cc.Regs.{set_event, set_ack, event_bit}

-- How many words the fields tell apart.
values : List ℕ → ℕ
values [] = 1
values (w ∷ ws) = 2 ^ w * values ws

encode-decode : (ws : List ℕ) (reg : ℕ) → reg < values ws → encode ws (decode ws reg) ≡ reg
unfolding values encode decode
encode-decode [] reg h = omega arith
encode-decode (w ∷ ws) reg h = grind (arith, encode-decode ws (reg / 2 ^ w))

values-layout : (r : Register) → values (layout r) ≡ 2 ^ 32
unfolding values
values-layout cpu2_exb = refl
values-layout cpu1_act = refl
values-layout cpu2_act = refl
values-layout dsp_act = refl
values-layout cpu1_sts = refl
values-layout cpu2_sts = refl
values-layout dsp_sts = refl
values-layout cpu1_inten = refl
values-layout cpu2_inten = refl
values-layout dsp_inten = refl
values-layout cpu1_req = refl
values-layout cpu2_req = refl
values-layout dsp_req = refl
values-layout cpu1_rel = refl
values-layout cpu2_rel = refl
values-layout dsp_rel = refl
values-layout cpu1_grant = refl
values-layout cpu2_grant = refl
values-layout dsp_grant = refl
values-layout cpu1_flg = refl
values-layout cpu2_flg = refl
values-layout dsp_flg = refl
values-layout sw_rst = refl
values-layout ocp_fifo_ctrl = refl
values-layout ocp1_fifo_info = refl
values-layout ocp2_fifo_info = refl
values-layout mips1_ctrl = refl
values-layout mips2_ctrl = refl
values-layout dsp_ctrl = refl
values-layout dsp_err = refl
values-layout cpu1_cpu2_cmdbuf1 = refl
values-layout cpu1_cpu2_cmdbuf2 = refl
values-layout cpu1_cpu2_cmdbuf3 = refl
values-layout cpu1_dsp_cmdbuf1 = refl
values-layout cpu1_dsp_cmdbuf2 = refl
values-layout cpu1_dsp_cmdbuf3 = refl
values-layout cpu2_cpu1_cmdbuf1 = refl
values-layout cpu2_cpu1_cmdbuf2 = refl
values-layout cpu2_cpu1_cmdbuf3 = refl
values-layout cpu2_dsp_cmdbuf1 = refl
values-layout cpu2_dsp_cmdbuf2 = refl
values-layout cpu2_dsp_cmdbuf3 = refl
values-layout dsp_cpu1_cmdbuf1 = refl
values-layout dsp_cpu1_cmdbuf2 = refl
values-layout dsp_cpu1_cmdbuf3 = refl
values-layout dsp_cpu2_cmdbuf1 = refl
values-layout dsp_cpu2_cmdbuf2 = refl
values-layout dsp_cpu2_cmdbuf3 = refl

set_event_lem :
    (core value reg : ℕ)
    → core < 3
    → decode cpux_inten_bits (set_event core value reg)
      ≡ set (decode cpux_inten_bits reg) core (value % 2)
unfolding decode
set_event_lem zero value reg h = ground arith
set_event_lem (suc zero) value reg h = ground arith
set_event_lem (suc (suc zero)) value reg h = ground arith
set_event_lem (suc (suc (suc n))) value reg h = absurd (omega arith)

set_ack_lem :
    (core value reg : ℕ)
    → core < 3
    → decode cpux_sts_bits (set_ack core value reg)
      ≡ set (decode cpux_sts_bits reg) (core + 4) (value % 2)
unfolding decode
set_ack_lem zero value reg h = ground arith
set_ack_lem (suc zero) value reg h = ground arith
set_ack_lem (suc (suc zero)) value reg h = ground arith
set_ack_lem (suc (suc (suc n))) value reg h = absurd (omega arith)

event_bit_lem :
    (core reg : ℕ) → core < 3 → event_bit core reg ≡ get_or (decode cpux_sts_bits reg) core 0
unfolding decode
event_bit_lem zero reg h = ground arith
event_bit_lem (suc zero) reg h = ground arith
event_bit_lem (suc (suc zero)) reg h = ground arith
event_bit_lem (suc (suc (suc n))) reg h = absurd (omega arith)

-- The widths of every register's fields make up a word of 32 bits: the word is what its fields encode.
pub fields_lossless :
    (r : Register) (reg : ℕ) → reg < 2 ^ 32 → encode (layout r) (decode (layout r) reg) ≡ reg
fields_lossless r reg h = encode-decode (layout r) reg (omega (arith, values-layout r))

-- For each of the three cores, the arithmetic of Cc.Regs is what the unions say: the
-- event bit of a status register is its field, setting an interrupt enable bit writes the core's
-- field and no other, and setting an acknowledge bit writes the field four places further up and no
-- other.
pub event_fields :
    (core value reg : ℕ)
    → core < 3
    → (event_bit core reg ≡ get_or (decode cpux_sts_bits reg) core 0)
      × (decode cpux_inten_bits (set_event core value reg)
          ≡ set (decode cpux_inten_bits reg) core (value % 2))
      × (decode cpux_sts_bits (set_ack core value reg)
          ≡ set (decode cpux_sts_bits reg) (core + 4) (value % 2))
event_fields core value reg h =
    (event_bit_lem core reg h, set_event_lem core value reg h, set_ack_lem core value reg h)
