-- ===== src/Cc/Regs.antt =====
-- kernel_space/inc/cc_reg.h: offsets, and bit fields laid out from the lowest bit up. The names
-- CC_CPU2_DSP_…, which the code uses, are read as CC_CPU2_DSP1_…, and so on.
use ipc_msq_multicore.Cc.Layout
use ipc_msq_multicore.Cc.Layout.{offset}
use ipc_msq_multicore.Common.{ℕ, ◌+◌, ◌*◌, ◌/◌, ◌%◌, ◌^◌}

abbrev pub cpu2_act : ℕ
cpu2_act = offset Layout.cpu2_act

abbrev pub cpu2_sts : ℕ
cpu2_sts = offset Layout.cpu2_sts

abbrev pub cpu2_inten : ℕ
cpu2_inten = offset Layout.cpu2_inten

abbrev pub cpu1_cpu2_cmdbuf1 : ℕ
cpu1_cpu2_cmdbuf1 = offset Layout.cpu1_cpu2_cmdbuf1

abbrev pub cpu1_dsp_cmdbuf1 : ℕ
cpu1_dsp_cmdbuf1 = offset Layout.cpu1_dsp_cmdbuf1

abbrev pub cpu2_cpu1_cmdbuf1 : ℕ
cpu2_cpu1_cmdbuf1 = offset Layout.cpu2_cpu1_cmdbuf1

abbrev pub cpu2_cpu1_cmdbuf2 : ℕ
cpu2_cpu1_cmdbuf2 = offset Layout.cpu2_cpu1_cmdbuf2

abbrev pub cpu2_cpu1_cmdbuf3 : ℕ
cpu2_cpu1_cmdbuf3 = offset Layout.cpu2_cpu1_cmdbuf3

abbrev pub cpu2_dsp_cmdbuf1 : ℕ
cpu2_dsp_cmdbuf1 = offset Layout.cpu2_dsp_cmdbuf1

abbrev pub cpu2_dsp_cmdbuf2 : ℕ
cpu2_dsp_cmdbuf2 = offset Layout.cpu2_dsp_cmdbuf2

abbrev pub cpu2_dsp_cmdbuf3 : ℕ
cpu2_dsp_cmdbuf3 = offset Layout.cpu2_dsp_cmdbuf3

abbrev pub dsp_cpu1_cmdbuf1 : ℕ
dsp_cpu1_cmdbuf1 = offset Layout.dsp_cpu1_cmdbuf1

abbrev pub dsp_cpu2_cmdbuf1 : ℕ
dsp_cpu2_cmdbuf1 = offset Layout.dsp_cpu2_cmdbuf1

-- The field of `width` bits from bit `low` on, and the word with that field set.
abbrev pub field : ℕ → ℕ → ℕ → ℕ
field low width reg = reg / 2 ^ low % 2 ^ width

abbrev pub set_field : ℕ → ℕ → ℕ → ℕ → ℕ
set_field low width value reg =
    reg / 2 ^ (low + width) * 2 ^ (low + width) + value % 2 ^ width * 2 ^ low + reg % 2 ^ low

-- CC_CPUX_STS_REG and CC_CPUX_INTEN_REG: the event bits of the cores, then their acknowledge bits.
abbrev pub event_bit : ℕ → ℕ → ℕ
event_bit core reg = field core 1 reg

abbrev pub set_event : ℕ → ℕ → ℕ → ℕ
set_event core value reg = set_field core 1 value reg

abbrev pub set_ack : ℕ → ℕ → ℕ → ℕ
set_ack core value reg = set_field (core + 16) 1 value reg
