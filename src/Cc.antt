-- ===== src/Cc.antt =====
-- kernel_space/drv-cc/ipc-cc.c, with the types of kernel_space/inc/ipc-cc.h and the registers of
-- kernel_space/inc/cc_reg.h. A core is its number in IPC_CC_CORE_T; IPC_CC_CORE_DSP, which the enum
-- does not name, is read as its third core. A handler is known by a number. Reads of registers come
-- from the hardware, writes go to a log. What no file of the repository defines is in `Soc`.
pub mod Regs
pub mod Device
pub mod Handlers
pub mod Send
pub mod Receive
pub mod Irq
pub mod Probe
pub mod Layout
pub mod Apart
pub mod Fields
mod Tests
use ipc_msq_multicore.Common.{
  ℕ, ◌+◌, ◌*◌, ◌^◌, Bool, true, false, not, ◌&&◌, Option, none, some, List, [], ◌∷◌, ◌++◌, ◌==◌,
  leb, ltb, if◌then◌else◌, u32, ℤ, pos, negsuc, minus, is_zero, is_negative, enomem, enodev,
}
use ipc_msq_multicore.Common.Outcome.{Lock, spin_lock, spin_unlock}
use Regs.{field, set_field}
use Regs

-- IPC_CC_CORE_T
abbrev pub cpu1 : ℕ
cpu1 = 0

abbrev pub cpu2 : ℕ
cpu2 = 1

abbrev pub dsp : ℕ
dsp = 2

abbrev pub core_max : ℕ
core_max = 3

-- IPC_CC_CMD_T
pub record Cmd : Type 0 where
  pub opcode : ℕ
  pub data_addr : ℕ
  pub data_size : ℕ

-- Macros that the code uses and no file defines.
pub record Soc : Type 0 where
  pub clear_ack : ℕ
  pub data_trigger : ℕ
  pub cpu1_ack : ℕ
  pub cpu2_ack : ℕ
  pub dsp_ack : ℕ

-- IPC_CC_DEV_T. `regs` is what the hardware answers to a read, `writes` the writes of registers,
-- `irqs` the calls of enable_irq (`true`) and disable_irq (`false`), the latest first.
pub record Dev : Type 0 where
  pub regs : ℕ → ℕ
  pub writes : List (ℕ × ℕ)
  pub irq : ℤ
  pub irqs : List (Bool × ℤ)
  pub lock : Lock
  pub running_core : ℕ
  pub cpu1_handler : Option ℕ
  pub cpu2_handler : Option ℕ
  pub dsp_handler : Option ℕ

abbrev pub read : Dev → ℕ → ℕ
read dd ofs = dd.regs ofs

abbrev pub write : ℕ → ℕ → Dev → Dev
write ofs value dd = record dd { writes = (ofs, value) ∷ dd.writes }

abbrev pub locked : Dev → Dev
locked dd = record dd { lock = spin_lock dd.lock }

abbrev pub unlocked : Dev → Dev
unlocked dd = record dd { lock = spin_unlock dd.lock }

-- A `switch` over a core.
abbrev pub switch {ℓ} : {A : Type ℓ} → ℕ → A → A → A → A → A
switch core on_cpu1 on_cpu2 on_dsp default =
    if core == cpu1
    then on_cpu1
    else if core == cpu2
    then on_cpu2
    else if core == dsp
    then on_dsp
    else default

abbrev pub set_handler : ℕ → Option ℕ → Dev → ℤ × Dev
set_handler core hdl dd =
    switch core (pos 0, record dd { cpu1_handler = hdl }) (pos 0, record dd { cpu2_handler = hdl })
      (pos 0, record dd { dsp_handler = hdl }) (minus 1, dd)

-- ipc_cc_register_handler
unfoldable pub register_handler : ℕ → Option ℕ → Option Dev → ℤ × Option Dev
register_handler core hdl none = (minus 1, none)
register_handler core hdl (some dd) =
    if leb core_max core
    then (minus 2, some dd)
    else let (ret, dd') = set_handler core hdl (locked dd) in (ret, some (unlocked dd'))

-- ipc_cc_unregister_handler: the switch is over the running core, not over the argument.
unfoldable pub unregister_handler : ℕ → Option Dev → ℤ × Option Dev
unregister_handler core none = (minus 1, none)
unregister_handler core (some dd) =
    if ltb core_max core
    then (minus 2, some dd)
    else let (ret, dd') = set_handler dd.running_core none (locked dd) in (ret, some (unlocked dd'))

-- The local variables of ipc_cc_send_cmd that hold offsets, and the three register words.
pub record Locals : Type 0 where
  pub sts : ℕ
  pub act : ℕ
  pub buf1 : ℕ
  pub buf2 : ℕ
  pub buf3 : ℕ
  pub cmdbuf1 : ℕ
  pub cmdbuf2 : ℕ
  pub cmdbuf3 : ℕ

-- The branch of a running CPU2, assignment by assignment; `none` is the jump to the exit.
unfoldable pub send_offsets : ℕ → Locals → Option Locals
send_offsets core_sendto u =
    let v : Locals = record u { sts = Regs.cpu2_sts; act = Regs.cpu2_act } in
    if core_sendto == cpu1
    then some (record (record v { buf1 = Regs.cpu2_cpu1_cmdbuf1; buf2 = Regs.cpu2_cpu1_cmdbuf2 }) {
      buf2 = Regs.cpu2_cpu1_cmdbuf3;
    })
    else if core_sendto == dsp
    then some (record (record v { buf1 = Regs.cpu2_dsp_cmdbuf1; buf2 = Regs.cpu2_dsp_cmdbuf2 }) {
      buf2 = Regs.cpu2_dsp_cmdbuf3;
    })
    else none

-- The five writes.
unfoldable pub send_writes : Soc → Cmd → Locals → Dev → Dev
send_writes soc cmd v dd =
    let w1 = set_field 16 16 cmd.opcode v.cmdbuf1 in
    write v.act soc.data_trigger (
      write v.buf3 cmd.data_size
        (write v.buf2 cmd.data_addr (write v.buf1 w1 (write v.sts soc.clear_ack dd))))

-- ipc_cc_send_cmd. `u` is what its local variables hold before they are written.
unfoldable pub send_cmd : Soc → Locals → ℕ → Cmd → Option Dev → ℤ × Option Dev
send_cmd soc u core_sendto cmd none = (minus 1, none)
send_cmd soc u core_sendto cmd (some dd) =
    elim (switch dd.running_core (some u) (send_offsets core_sendto u) (some u) (some u)) [
      | none ↦ (minus 1, some (unlocked (locked dd)))
      | some v ↦ (pos 0, some (unlocked (send_writes soc cmd v (locked dd))))
    ]

-- The three local offsets of ipc_cc_get_cmd.
pub record Sources : Type 0 where
  pub buf1 : ℕ
  pub buf2 : ℕ
  pub buf3 : ℕ

abbrev pub source : ℕ → Sources
source first = record { buf1 = first; buf2 = first + 4; buf3 = first + 8 }

-- The switch of ipc_cc_get_cmd: no case ends in `break`, so each runs into the next, and the last
-- into `default`. `none` is the jump to the exit with -1.
unfoldable pub default_case : Sources → Option Sources
default_case v = none

unfoldable pub dsp_case : ℕ → Sources → Option Sources
dsp_case core v =
    if core == cpu1
    then default_case (source Regs.cpu1_dsp_cmdbuf1)
    else if core == cpu2
    then default_case (source Regs.cpu2_dsp_cmdbuf1)
    else none

unfoldable pub cpu2_case : ℕ → Sources → Option Sources
cpu2_case core v =
    if core == cpu1
    then dsp_case core (source Regs.cpu1_cpu2_cmdbuf1)
    else if core == dsp
    then dsp_case core (source Regs.dsp_cpu2_cmdbuf1)
    else none

unfoldable pub cpu1_case : ℕ → Sources → Option Sources
cpu1_case core v =
    if core == cpu2
    then cpu2_case core (source Regs.cpu2_cpu1_cmdbuf1)
    else if core == dsp
    then cpu2_case core (source Regs.dsp_cpu1_cmdbuf1)
    else none

unfoldable pub read_cmd : Sources → Dev → Cmd
read_cmd v dd = record {
  opcode = field 16 16 (read dd v.buf1);
  data_addr = read dd v.buf2;
  data_size = read dd v.buf3;
}

-- ipc_cc_get_cmd, with `ipc_cc_dev` for the function's own name in the initialiser of `dd`.
unfoldable pub get_cmd : Sources → ℕ → Option Cmd → Option Dev → ℤ × Option Cmd × Option Dev
get_cmd u core cmd none = (minus 1, cmd, none)
get_cmd u core none (some dd) = (minus 1, none, some dd)
get_cmd u core (some cmd) (some dd) =
    if leb core_max core
    then (minus 2, some cmd, some dd)
    else elim (switch dd.running_core (cpu1_case core u) (cpu2_case core u) (dsp_case core u)
        (default_case u)) [
          | none ↦ (minus 1, some cmd, some (unlocked (locked dd)))
          | some v ↦ (pos 0, some (read_cmd v dd), some (unlocked (locked dd)))
        ]

-- The part of ipc_cc_send_ack under the lock.
unfoldable pub ack : Soc → ℕ → Dev → ℤ × Dev
ack soc core_sendto dd =
    let bit = u32 (2 ^ (core_sendto + 16)) in
    if core_sendto == dd.running_core
    then (minus 3, dd)
    else switch dd.running_core (pos 0, write soc.cpu1_ack bit dd)
        (pos 0, write soc.cpu2_ack bit dd) (pos 0, write soc.dsp_ack bit dd) (minus 4, dd)

-- ipc_cc_send_ack; its test of an undeclared `core` is read as a test of `core_sendto`.
unfoldable pub send_ack : Soc → ℕ → Option Dev → ℤ × Option Dev
send_ack soc core_sendto none = (minus 1, none)
send_ack soc core_sendto (some dd) =
    if leb core_max core_sendto
    then (minus 2, some dd)
    else let (ret, dd') = ack soc core_sendto (locked dd) in (ret, some (unlocked dd'))
