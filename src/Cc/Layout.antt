-- ===== src/Cc/Layout.antt =====
-- kernel_space/inc/cc_reg.h: every register with its offset and the widths of its bit fields, from the
-- lowest bit up. A field without a width is the whole word.
use ipc_msq_multicore.Common.{ℕ, ◌+◌, ◌*◌, ◌/◌, ◌%◌, ◌^◌, List, [], ◌∷◌}

pub data Register : Type 0 where
  cpu2_exb : Register
  cpu1_act : Register
  cpu2_act : Register
  dsp_act : Register
  cpu1_sts : Register
  cpu2_sts : Register
  dsp_sts : Register
  cpu1_inten : Register
  cpu2_inten : Register
  dsp_inten : Register
  cpu1_req : Register
  cpu2_req : Register
  dsp_req : Register
  cpu1_rel : Register
  cpu2_rel : Register
  dsp_rel : Register
  cpu1_grant : Register
  cpu2_grant : Register
  dsp_grant : Register
  cpu1_flg : Register
  cpu2_flg : Register
  dsp_flg : Register
  sw_rst : Register
  ocp_fifo_ctrl : Register
  ocp1_fifo_info : Register
  ocp2_fifo_info : Register
  mips1_ctrl : Register
  mips2_ctrl : Register
  dsp_ctrl : Register
  dsp_err : Register
  cpu1_cpu2_cmdbuf1 : Register
  cpu1_cpu2_cmdbuf2 : Register
  cpu1_cpu2_cmdbuf3 : Register
  cpu1_dsp_cmdbuf1 : Register
  cpu1_dsp_cmdbuf2 : Register
  cpu1_dsp_cmdbuf3 : Register
  cpu2_cpu1_cmdbuf1 : Register
  cpu2_cpu1_cmdbuf2 : Register
  cpu2_cpu1_cmdbuf3 : Register
  cpu2_dsp_cmdbuf1 : Register
  cpu2_dsp_cmdbuf2 : Register
  cpu2_dsp_cmdbuf3 : Register
  dsp_cpu1_cmdbuf1 : Register
  dsp_cpu1_cmdbuf2 : Register
  dsp_cpu1_cmdbuf3 : Register
  dsp_cpu2_cmdbuf1 : Register
  dsp_cpu2_cmdbuf2 : Register
  dsp_cpu2_cmdbuf3 : Register

-- The offsets.
abbrev pub offset : Register → ℕ
offset cpu2_exb = 0x00
offset cpu1_act = 0x10
offset cpu2_act = 0x20
offset dsp_act = 0x30
offset cpu1_sts = 0x14
offset cpu2_sts = 0x24
offset dsp_sts = 0x34
offset cpu1_inten = 0x18
offset cpu2_inten = 0x28
offset dsp_inten = 0x38
offset cpu1_req = 0x40
offset cpu2_req = 0x50
offset dsp_req = 0x60
offset cpu1_rel = 0x44
offset cpu2_rel = 0x54
offset dsp_rel = 0x64
offset cpu1_grant = 0x48
offset cpu2_grant = 0x58
offset dsp_grant = 0x68
offset cpu1_flg = 0x4C
offset cpu2_flg = 0x5C
offset dsp_flg = 0x6C
offset sw_rst = 0x80
offset ocp_fifo_ctrl = 0x84
offset ocp1_fifo_info = 0x88
offset ocp2_fifo_info = 0x8C
offset mips1_ctrl = 0x90
offset mips2_ctrl = 0x94
offset dsp_ctrl = 0x98
offset dsp_err = 0x9C
offset cpu1_cpu2_cmdbuf1 = 0x100
offset cpu1_cpu2_cmdbuf2 = 0x104
offset cpu1_cpu2_cmdbuf3 = 0x108
offset cpu1_dsp_cmdbuf1 = 0x10C
offset cpu1_dsp_cmdbuf2 = 0x110
offset cpu1_dsp_cmdbuf3 = 0x114
offset cpu2_cpu1_cmdbuf1 = 0x118
offset cpu2_cpu1_cmdbuf2 = 0x11C
offset cpu2_cpu1_cmdbuf3 = 0x120
offset cpu2_dsp_cmdbuf1 = 0x124
offset cpu2_dsp_cmdbuf2 = 0x128
offset cpu2_dsp_cmdbuf3 = 0x12C
offset dsp_cpu1_cmdbuf1 = 0x130
offset dsp_cpu1_cmdbuf2 = 0x134
offset dsp_cpu1_cmdbuf3 = 0x138
offset dsp_cpu2_cmdbuf1 = 0x13C
offset dsp_cpu2_cmdbuf2 = 0x140
offset dsp_cpu2_cmdbuf3 = 0x144

-- The unions.
abbrev pub cpu2_exb_bits : List ℕ
cpu2_exb_bits = 12 ∷ 18 ∷ 2 ∷ []

abbrev pub cpux_act_bits : List ℕ
cpux_act_bits = 1 ∷ 1 ∷ 1 ∷ 13 ∷ 1 ∷ 1 ∷ 1 ∷ 13 ∷ []

abbrev pub cpux_sts_bits : List ℕ
cpux_sts_bits = 1 ∷ 1 ∷ 1 ∷ 13 ∷ 1 ∷ 1 ∷ 1 ∷ 13 ∷ []

abbrev pub cpu1_sts_bits : List ℕ
cpu1_sts_bits = 1 ∷ 1 ∷ 1 ∷ 13 ∷ 1 ∷ 1 ∷ 1 ∷ 11 ∷ 1 ∷ 1 ∷ []

abbrev pub cpux_inten_bits : List ℕ
cpux_inten_bits = 1 ∷ 1 ∷ 1 ∷ 13 ∷ 1 ∷ 1 ∷ 1 ∷ 13 ∷ []

abbrev pub cpu1_inten_bits : List ℕ
cpu1_inten_bits = 1 ∷ 1 ∷ 1 ∷ 13 ∷ 1 ∷ 1 ∷ 1 ∷ 11 ∷ 1 ∷ 1 ∷ []

abbrev pub cpux_req_bits : List ℕ
cpux_req_bits = 32 ∷ []

abbrev pub cpux_rel_bits : List ℕ
cpux_rel_bits = 32 ∷ []

abbrev pub cpux_grant_bits : List ℕ
cpux_grant_bits = 32 ∷ []

abbrev pub cpux_flg_bits : List ℕ
cpux_flg_bits = 32 ∷ []

abbrev pub sw_rst_bits : List ℕ
sw_rst_bits = 1 ∷ 31 ∷ []

abbrev pub ocp_fifo_ctrl_bits : List ℕ
ocp_fifo_ctrl_bits = 1 ∷ 1 ∷ 14 ∷ 1 ∷ 1 ∷ 14 ∷ []

abbrev pub ocpx_fifo_info_bits : List ℕ
ocpx_fifo_info_bits = 8 ∷ 8 ∷ 8 ∷ 8 ∷ []

abbrev pub mipsx_ctrl_bits : List ℕ
mipsx_ctrl_bits = 1 ∷ 1 ∷ 1 ∷ 29 ∷ []

abbrev pub dsp_ctrl_bits : List ℕ
dsp_ctrl_bits = 1 ∷ 1 ∷ 1 ∷ 15 ∷ 1 ∷ 13 ∷ []

abbrev pub dsp_err_bits : List ℕ
dsp_err_bits = 1 ∷ 1 ∷ 30 ∷ []

abbrev pub cmdbuf1_bits : List ℕ
cmdbuf1_bits = 16 ∷ 16 ∷ []

abbrev pub cmdbuf2_bits : List ℕ
cmdbuf2_bits = 32 ∷ []

abbrev pub cmdbuf3_bits : List ℕ
cmdbuf3_bits = 32 ∷ []

-- The union of each register.
abbrev pub layout : Register → List ℕ
layout cpu2_exb = cpu2_exb_bits
layout cpu1_act = cpux_act_bits
layout cpu2_act = cpux_act_bits
layout dsp_act = cpux_act_bits
layout cpu1_sts = cpu1_sts_bits
layout cpu2_sts = cpux_sts_bits
layout dsp_sts = cpux_sts_bits
layout cpu1_inten = cpu1_inten_bits
layout cpu2_inten = cpux_inten_bits
layout dsp_inten = cpux_inten_bits
layout cpu1_req = cpux_req_bits
layout cpu2_req = cpux_req_bits
layout dsp_req = cpux_req_bits
layout cpu1_rel = cpux_rel_bits
layout cpu2_rel = cpux_rel_bits
layout dsp_rel = cpux_rel_bits
layout cpu1_grant = cpux_grant_bits
layout cpu2_grant = cpux_grant_bits
layout dsp_grant = cpux_grant_bits
layout cpu1_flg = cpux_flg_bits
layout cpu2_flg = cpux_flg_bits
layout dsp_flg = cpux_flg_bits
layout sw_rst = sw_rst_bits
layout ocp_fifo_ctrl = ocp_fifo_ctrl_bits
layout ocp1_fifo_info = ocpx_fifo_info_bits
layout ocp2_fifo_info = ocpx_fifo_info_bits
layout mips1_ctrl = mipsx_ctrl_bits
layout mips2_ctrl = mipsx_ctrl_bits
layout dsp_ctrl = dsp_ctrl_bits
layout dsp_err = dsp_err_bits
layout cpu1_cpu2_cmdbuf1 = cmdbuf1_bits
layout cpu1_cpu2_cmdbuf2 = cmdbuf2_bits
layout cpu1_cpu2_cmdbuf3 = cmdbuf3_bits
layout cpu1_dsp_cmdbuf1 = cmdbuf1_bits
layout cpu1_dsp_cmdbuf2 = cmdbuf2_bits
layout cpu1_dsp_cmdbuf3 = cmdbuf3_bits
layout cpu2_cpu1_cmdbuf1 = cmdbuf1_bits
layout cpu2_cpu1_cmdbuf2 = cmdbuf2_bits
layout cpu2_cpu1_cmdbuf3 = cmdbuf3_bits
layout cpu2_dsp_cmdbuf1 = cmdbuf1_bits
layout cpu2_dsp_cmdbuf2 = cmdbuf2_bits
layout cpu2_dsp_cmdbuf3 = cmdbuf3_bits
layout dsp_cpu1_cmdbuf1 = cmdbuf1_bits
layout dsp_cpu1_cmdbuf2 = cmdbuf2_bits
layout dsp_cpu1_cmdbuf3 = cmdbuf3_bits
layout dsp_cpu2_cmdbuf1 = cmdbuf1_bits
layout dsp_cpu2_cmdbuf2 = cmdbuf2_bits
layout dsp_cpu2_cmdbuf3 = cmdbuf3_bits

-- The fields of a word, and the word of such fields.
unfoldable pub decode : List ℕ → ℕ → List ℕ
decode [] reg = []
decode (w ∷ ws) reg = reg % 2 ^ w ∷ decode ws (reg / 2 ^ w)

unfoldable pub encode : List ℕ → List ℕ → ℕ
encode [] fields = 0
encode (w ∷ ws) [] = 0
encode (w ∷ ws) (f ∷ fields) = f % 2 ^ w + 2 ^ w * encode ws fields
