-- ===== src/Cc/Apart.antt =====
-- The registers do not overlap, and their fields fill a word each.
use ipc_msq_multicore.Common.{
  ℕ, ◌%◌, ◌<◌, ◌≡◌, refl, ap, Option, none, some, arith, ◌==◌, if◌then◌else◌,
}
use ipc_msq_multicore.Cc.Layout.{
  Register, offset, cpu2_exb, cpu1_act, cpu2_act, dsp_act, cpu1_sts, cpu2_sts, dsp_sts, cpu1_inten,
  cpu2_inten, dsp_inten, cpu1_req, cpu2_req, dsp_req, cpu1_rel, cpu2_rel, dsp_rel, cpu1_grant,
  cpu2_grant, dsp_grant, cpu1_flg, cpu2_flg, dsp_flg, sw_rst, ocp_fifo_ctrl, ocp1_fifo_info,
  ocp2_fifo_info, mips1_ctrl, mips2_ctrl, dsp_ctrl, dsp_err, cpu1_cpu2_cmdbuf1, cpu1_cpu2_cmdbuf2,
  cpu1_cpu2_cmdbuf3, cpu1_dsp_cmdbuf1, cpu1_dsp_cmdbuf2, cpu1_dsp_cmdbuf3, cpu2_cpu1_cmdbuf1,
  cpu2_cpu1_cmdbuf2, cpu2_cpu1_cmdbuf3, cpu2_dsp_cmdbuf1, cpu2_dsp_cmdbuf2, cpu2_dsp_cmdbuf3,
  dsp_cpu1_cmdbuf1, dsp_cpu1_cmdbuf2, dsp_cpu1_cmdbuf3, dsp_cpu2_cmdbuf1, dsp_cpu2_cmdbuf2,
  dsp_cpu2_cmdbuf3,
}

-- The register at an offset.
register_at : ℕ → Option Register
register_at ofs =
    if ofs == offset cpu2_exb
    then some cpu2_exb
    else if ofs == offset cpu1_act
    then some cpu1_act
    else if ofs == offset cpu2_act
    then some cpu2_act
    else if ofs == offset dsp_act
    then some dsp_act
    else if ofs == offset cpu1_sts
    then some cpu1_sts
    else if ofs == offset cpu2_sts
    then some cpu2_sts
    else if ofs == offset dsp_sts
    then some dsp_sts
    else if ofs == offset cpu1_inten
    then some cpu1_inten
    else if ofs == offset cpu2_inten
    then some cpu2_inten
    else if ofs == offset dsp_inten
    then some dsp_inten
    else if ofs == offset cpu1_req
    then some cpu1_req
    else if ofs == offset cpu2_req
    then some cpu2_req
    else if ofs == offset dsp_req
    then some dsp_req
    else if ofs == offset cpu1_rel
    then some cpu1_rel
    else if ofs == offset cpu2_rel
    then some cpu2_rel
    else if ofs == offset dsp_rel
    then some dsp_rel
    else if ofs == offset cpu1_grant
    then some cpu1_grant
    else if ofs == offset cpu2_grant
    then some cpu2_grant
    else if ofs == offset dsp_grant
    then some dsp_grant
    else if ofs == offset cpu1_flg
    then some cpu1_flg
    else if ofs == offset cpu2_flg
    then some cpu2_flg
    else if ofs == offset dsp_flg
    then some dsp_flg
    else if ofs == offset sw_rst
    then some sw_rst
    else if ofs == offset ocp_fifo_ctrl
    then some ocp_fifo_ctrl
    else if ofs == offset ocp1_fifo_info
    then some ocp1_fifo_info
    else if ofs == offset ocp2_fifo_info
    then some ocp2_fifo_info
    else if ofs == offset mips1_ctrl
    then some mips1_ctrl
    else if ofs == offset mips2_ctrl
    then some mips2_ctrl
    else if ofs == offset dsp_ctrl
    then some dsp_ctrl
    else if ofs == offset dsp_err
    then some dsp_err
    else if ofs == offset cpu1_cpu2_cmdbuf1
    then some cpu1_cpu2_cmdbuf1
    else if ofs == offset cpu1_cpu2_cmdbuf2
    then some cpu1_cpu2_cmdbuf2
    else if ofs == offset cpu1_cpu2_cmdbuf3
    then some cpu1_cpu2_cmdbuf3
    else if ofs == offset cpu1_dsp_cmdbuf1
    then some cpu1_dsp_cmdbuf1
    else if ofs == offset cpu1_dsp_cmdbuf2
    then some cpu1_dsp_cmdbuf2
    else if ofs == offset cpu1_dsp_cmdbuf3
    then some cpu1_dsp_cmdbuf3
    else if ofs == offset cpu2_cpu1_cmdbuf1
    then some cpu2_cpu1_cmdbuf1
    else if ofs == offset cpu2_cpu1_cmdbuf2
    then some cpu2_cpu1_cmdbuf2
    else if ofs == offset cpu2_cpu1_cmdbuf3
    then some cpu2_cpu1_cmdbuf3
    else if ofs == offset cpu2_dsp_cmdbuf1
    then some cpu2_dsp_cmdbuf1
    else if ofs == offset cpu2_dsp_cmdbuf2
    then some cpu2_dsp_cmdbuf2
    else if ofs == offset cpu2_dsp_cmdbuf3
    then some cpu2_dsp_cmdbuf3
    else if ofs == offset dsp_cpu1_cmdbuf1
    then some dsp_cpu1_cmdbuf1
    else if ofs == offset dsp_cpu1_cmdbuf2
    then some dsp_cpu1_cmdbuf2
    else if ofs == offset dsp_cpu1_cmdbuf3
    then some dsp_cpu1_cmdbuf3
    else if ofs == offset dsp_cpu2_cmdbuf1
    then some dsp_cpu2_cmdbuf1
    else if ofs == offset dsp_cpu2_cmdbuf2
    then some dsp_cpu2_cmdbuf2
    else if ofs == offset dsp_cpu2_cmdbuf3
    then some dsp_cpu2_cmdbuf3
    else none

register_at-offset : (r : Register) → register_at (offset r) ≡ some r
unfolding register_at
register_at-offset cpu2_exb = refl
register_at-offset cpu1_act = refl
register_at-offset cpu2_act = refl
register_at-offset dsp_act = refl
register_at-offset cpu1_sts = refl
register_at-offset cpu2_sts = refl
register_at-offset dsp_sts = refl
register_at-offset cpu1_inten = refl
register_at-offset cpu2_inten = refl
register_at-offset dsp_inten = refl
register_at-offset cpu1_req = refl
register_at-offset cpu2_req = refl
register_at-offset dsp_req = refl
register_at-offset cpu1_rel = refl
register_at-offset cpu2_rel = refl
register_at-offset dsp_rel = refl
register_at-offset cpu1_grant = refl
register_at-offset cpu2_grant = refl
register_at-offset dsp_grant = refl
register_at-offset cpu1_flg = refl
register_at-offset cpu2_flg = refl
register_at-offset dsp_flg = refl
register_at-offset sw_rst = refl
register_at-offset ocp_fifo_ctrl = refl
register_at-offset ocp1_fifo_info = refl
register_at-offset ocp2_fifo_info = refl
register_at-offset mips1_ctrl = refl
register_at-offset mips2_ctrl = refl
register_at-offset dsp_ctrl = refl
register_at-offset dsp_err = refl
register_at-offset cpu1_cpu2_cmdbuf1 = refl
register_at-offset cpu1_cpu2_cmdbuf2 = refl
register_at-offset cpu1_cpu2_cmdbuf3 = refl
register_at-offset cpu1_dsp_cmdbuf1 = refl
register_at-offset cpu1_dsp_cmdbuf2 = refl
register_at-offset cpu1_dsp_cmdbuf3 = refl
register_at-offset cpu2_cpu1_cmdbuf1 = refl
register_at-offset cpu2_cpu1_cmdbuf2 = refl
register_at-offset cpu2_cpu1_cmdbuf3 = refl
register_at-offset cpu2_dsp_cmdbuf1 = refl
register_at-offset cpu2_dsp_cmdbuf2 = refl
register_at-offset cpu2_dsp_cmdbuf3 = refl
register_at-offset dsp_cpu1_cmdbuf1 = refl
register_at-offset dsp_cpu1_cmdbuf2 = refl
register_at-offset dsp_cpu1_cmdbuf3 = refl
register_at-offset dsp_cpu2_cmdbuf1 = refl
register_at-offset dsp_cpu2_cmdbuf2 = refl
register_at-offset dsp_cpu2_cmdbuf3 = refl

offset_aligned : (r : Register) → (offset r % 4 ≡ 0) × (offset r < 0x148)
offset_aligned cpu2_exb = omega arith
offset_aligned cpu1_act = omega arith
offset_aligned cpu2_act = omega arith
offset_aligned dsp_act = omega arith
offset_aligned cpu1_sts = omega arith
offset_aligned cpu2_sts = omega arith
offset_aligned dsp_sts = omega arith
offset_aligned cpu1_inten = omega arith
offset_aligned cpu2_inten = omega arith
offset_aligned dsp_inten = omega arith
offset_aligned cpu1_req = omega arith
offset_aligned cpu2_req = omega arith
offset_aligned dsp_req = omega arith
offset_aligned cpu1_rel = omega arith
offset_aligned cpu2_rel = omega arith
offset_aligned dsp_rel = omega arith
offset_aligned cpu1_grant = omega arith
offset_aligned cpu2_grant = omega arith
offset_aligned dsp_grant = omega arith
offset_aligned cpu1_flg = omega arith
offset_aligned cpu2_flg = omega arith
offset_aligned dsp_flg = omega arith
offset_aligned sw_rst = omega arith
offset_aligned ocp_fifo_ctrl = omega arith
offset_aligned ocp1_fifo_info = omega arith
offset_aligned ocp2_fifo_info = omega arith
offset_aligned mips1_ctrl = omega arith
offset_aligned mips2_ctrl = omega arith
offset_aligned dsp_ctrl = omega arith
offset_aligned dsp_err = omega arith
offset_aligned cpu1_cpu2_cmdbuf1 = omega arith
offset_aligned cpu1_cpu2_cmdbuf2 = omega arith
offset_aligned cpu1_cpu2_cmdbuf3 = omega arith
offset_aligned cpu1_dsp_cmdbuf1 = omega arith
offset_aligned cpu1_dsp_cmdbuf2 = omega arith
offset_aligned cpu1_dsp_cmdbuf3 = omega arith
offset_aligned cpu2_cpu1_cmdbuf1 = omega arith
offset_aligned cpu2_cpu1_cmdbuf2 = omega arith
offset_aligned cpu2_cpu1_cmdbuf3 = omega arith
offset_aligned cpu2_dsp_cmdbuf1 = omega arith
offset_aligned cpu2_dsp_cmdbuf2 = omega arith
offset_aligned cpu2_dsp_cmdbuf3 = omega arith
offset_aligned dsp_cpu1_cmdbuf1 = omega arith
offset_aligned dsp_cpu1_cmdbuf2 = omega arith
offset_aligned dsp_cpu1_cmdbuf3 = omega arith
offset_aligned dsp_cpu2_cmdbuf1 = omega arith
offset_aligned dsp_cpu2_cmdbuf2 = omega arith
offset_aligned dsp_cpu2_cmdbuf3 = omega arith

-- Two registers at the same offset are the same; every offset is a multiple of four below 0x148, so
-- that no two registers overlap.
pub registers_apart :
    (r s : Register) → (offset r ≡ offset s → r ≡ s) × (offset r % 4 ≡ 0) × (offset r < 0x148)
registers_apart r s = (
  λ e. cc (register_at-offset r, register_at-offset s, ap register_at e),
  (offset_aligned r).0,
  (offset_aligned r).1,
)
