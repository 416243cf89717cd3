-- ===== src/Cc/Device.antt =====
-- kernel_space/drv-cc/ipc-cc.c: the interrupt of the device, its start, its probe and its removal.
use ipc_msq_multicore.Common.{
  ℕ, Bool, true, false, not, ◌&&◌, Option, none, some, List, [], ◌∷◌, ◌++◌, ◌==◌, ltb,
  if◌then◌else◌, ℤ, pos, negsuc, minus, is_zero, is_negative, enomem, enodev,
}
use ipc_msq_multicore.Cc.{Dev, cpu1, cpu2, dsp, core_max, read, write, locked, unlocked, switch}
use ipc_msq_multicore.Cc.Regs.{event_bit, set_event, set_ack}
use ipc_msq_multicore.Cc.Regs

-- `irq > 0`
abbrev pub is_positive : ℤ → Bool
is_positive (pos n) = ltb 0 n
is_positive (negsuc n) = false

-- ipc_cc_resume and ipc_cc_suspend, which differ in the call that they make.
abbrev set_irq : Bool → Dev → Dev
set_irq on dd = if is_positive dd.irq then record dd { irqs = (on, dd.irq) ∷ dd.irqs } else dd

unfoldable pub resume : Option Dev → Option Dev
resume none = none
resume (some dd) = some (unlocked (set_irq true (locked dd)))

unfoldable pub suspend : Option Dev → Option Dev
suspend none = none
suspend (some dd) = some (unlocked (set_irq false (locked dd)))

-- The words that ipc_cc_open writes back.
unfoldable pub opened_sts : ℕ → ℕ
opened_sts sts = set_ack dsp 0 (set_ack cpu2 0 (set_ack cpu1 0 sts))

unfoldable pub opened_inten : ℕ → ℕ
opened_inten inten = set_event dsp 1 (set_event cpu2 0 (set_event cpu1 1 inten))

-- ipc_cc_open
unfoldable pub open_dev : Dev → ℤ × Dev
open_dev dd =
    let l = locked dd in
    let on_cpu2 =
      write Regs.cpu2_inten (opened_inten (read dd Regs.cpu2_inten))
        (write Regs.cpu2_sts (opened_sts (read dd Regs.cpu2_sts)) l) in
    switch dd.running_core (pos 0, unlocked l) (pos 0, unlocked on_cpu2) (pos 0, unlocked l)
      (minus 1, unlocked l)

unfoldable pub closed_inten : ℕ → ℕ
closed_inten inten = set_event dsp 0 (set_event cpu1 0 inten)

-- ipc_cc_close. The second `case IPC_CC_CORE_CPU2` is read as the third core's. The unlock stands
-- inside the switch, behind `default`, where no `break` leads.
unfoldable pub close_dev : Dev → Dev
close_dev dd =
    let l = locked dd in
    let on_cpu2 = write Regs.cpu2_inten (closed_inten (read dd Regs.cpu2_inten)) l in
    switch dd.running_core l on_cpu2 l (unlocked l)

-- One of the three blocks of ipc_cc_irq_handler: the calls of handlers, with the event.
abbrev pub dispatch : ℕ → ℕ → ℕ → ℕ → Option ℕ → List (ℕ × ℕ)
dispatch running core sts inten hdl =
    if event_bit core sts == 1 && event_bit core inten == 1
    then if running == core then [] else elim hdl [ none ↦ [] | some h ↦ (h, core) ∷ [] ]
    else []

-- ipc_cc_irq_handler: the calls in their order. `sts` and `inten` are what its local variables hold
-- before they are written. The lock is taken and given back on every path.
unfoldable pub irq_calls : ℕ → ℕ → Dev → List (ℕ × ℕ)
irq_calls sts inten dd =
    dispatch dd.running_core cpu1 sts inten dd.cpu1_handler
    ++ (dispatch dd.running_core cpu2 sts inten dd.cpu2_handler
        ++ dispatch dd.running_core dsp sts inten dd.dsp_handler)

unfoldable pub irq_handler : ℕ → ℕ → Dev → List (ℕ × ℕ) × Dev
irq_handler sts inten dd =
    switch dd.running_core (irq_calls sts inten dd, unlocked (locked dd))
      (irq_calls (read dd Regs.cpu2_sts) (read dd Regs.cpu2_inten) dd, unlocked (locked dd))
      (irq_calls sts inten dd, unlocked (locked dd)) ([], unlocked (locked dd))

-- What the platform gives to ipc_cc_probe: whether the zeroed memory was allocated, the property
-- run-core, whether there is a memory resource, the number of platform_get_irq, the error of
-- devm_ioremap_resource (0 if none), and the answer of devm_request_irq.
pub record Platform : Type 0 where
  pub allocated : Bool
  pub run_core : Option ℕ
  pub mem_resource : Bool
  pub irq : ℤ
  pub remap_error : ℕ
  pub request_irq : ℤ

-- ipc_cc_of_probe and the default of ipc_cc_probe: without the property, and without CONFIG_OF, the
-- running core is CPU2.
unfoldable pub running_core : Option ℕ → ℕ
running_core none = cpu2
running_core (some core_id) = if ltb core_id core_max then core_id else cpu2

-- The device as it is allocated: zeroed, then with its first fields set.
unfoldable pub fresh_dev : (ℕ → ℕ) → ℕ → Dev
fresh_dev regs core = record {
  regs = regs;
  writes = [];
  irq = negsuc 0;
  irqs = [];
  lock = [];
  running_core = core;
  cpu1_handler = none;
  cpu2_handler = none;
  dsp_handler = none;
}

-- The part of ipc_cc_probe behind the request of the interrupt.
unfoldable pub probe_open : ℤ → Dev → ℤ × Option Dev
probe_open requested dd =
    let (ret, dd') = open_dev dd in
    if is_zero requested
    then (if is_zero ret then pos 0 else ret, some dd')
    else (requested, some dd)

-- ipc_cc_probe: its status, and `ipc_cc_dev` after it.
unfoldable pub probe : Platform → (ℕ → ℕ) → ℤ × Option Dev
probe p regs =
    let dd = fresh_dev regs (running_core p.run_core) in
    let with_irq = record dd { irq = p.irq } in
    if not p.allocated
    then (minus enomem, none)
    else if not p.mem_resource
    then (minus enodev, some dd)
    else if is_negative p.irq
    then (p.irq, some with_irq)
    else if not (p.remap_error == 0)
    then (minus p.remap_error, some with_irq)
    else probe_open p.request_irq with_irq

-- ipc_cc_remove
unfoldable pub remove : Dev → ℤ × Dev
remove dd = (pos 0, close_dev dd)
