-- ===== src/Cc/Irq.antt =====
-- The interrupt of ipc-cc.c: which handlers it calls, and what open and close make of it.
use mathlib.Core.Path.{ap₂}
use ipc_msq_multicore.Common.{
  ◌∙◌, All-append, ℕ, ◌<◌, ◌≡◌, ◌≢◌, Option, none, some, List, [], ◌∷◌, ◌++◌, arith, All, ◌==◌,
  if◌then◌else◌, pos,
}
use ipc_msq_multicore.Common.Outcome.{free, held, lock_state}
use ipc_msq_multicore.Cc.{Dev, cpu1, cpu2, dsp, core_max}
use ipc_msq_multicore.Cc.Handlers.{handler_of}
use ipc_msq_multicore.Cc.Device.{
  opened_sts, opened_inten, closed_inten, open_dev, close_dev, dispatch, irq_calls, irq_handler,
}
use ipc_msq_multicore.Cc.Regs.{field, event_bit}
use ipc_msq_multicore.Cc.Regs

-- The calls for an event of `core` in the status word `sts`, if its interrupt is enabled.
abbrev pub served : Dev → ℕ → ℕ → List (ℕ × ℕ)
served dd sts core =
    if event_bit core sts == 1
    then elim (handler_of core dd) [ none ↦ [] | some h ↦ (h, core) ∷ [] ]
    else []

opened_inten_bits :
    (x : ℕ)
    → (event_bit cpu1 (opened_inten x) ≡ 1)
      × (event_bit cpu2 (opened_inten x) ≡ 0)
      × (event_bit dsp (opened_inten x) ≡ 1)
unfolding opened_inten
opened_inten_bits x = omega arith

closed_inten_bits :
    (x : ℕ)
    → (event_bit cpu1 (closed_inten x) ≡ 0)
      × (event_bit cpu2 (closed_inten x) ≡ event_bit cpu2 x)
      × (event_bit dsp (closed_inten x) ≡ 0)
unfolding closed_inten
closed_inten_bits x = omega arith

dispatch_enabled :
    (running core sts inten : ℕ) (hdl : Option ℕ)
    → running ≢ core
    → event_bit core inten ≡ 1
    → dispatch running core sts inten hdl
      ≡ (if event_bit core sts == 1 then elim hdl [ none ↦ [] | some h ↦ (h, core) ∷ [] ] else [])
dispatch_enabled running core sts inten hdl ne on = ground arith

dispatch_disabled :
    (running core sts inten : ℕ) (hdl : Option ℕ)
    → event_bit core inten ≡ 0
    → dispatch running core sts inten hdl ≡ []
dispatch_disabled running core sts inten hdl off = ground arith

dispatch_own :
    (running core sts inten : ℕ) (hdl : Option ℕ)
    → All (λ c. c.1 ≢ running) (dispatch running core sts inten hdl)
dispatch_own running core sts inten hdl = ground arith

irq_calls-opened :
    (sts x : ℕ) (dd : Dev)
    → dd.running_core ≡ cpu2
    → irq_calls sts (opened_inten x) dd ≡ served dd sts cpu1 ++ served dd sts dsp
unfolding irq_calls
irq_calls-opened sts x dd run =
    let bits = opened_inten_bits x in
    ap₂ ◌++◌
      (dispatch_enabled dd.running_core cpu1 sts (opened_inten x) dd.cpu1_handler (omega arith)
        bits.0)
      (ap₂ ◌++◌ (dispatch_disabled dd.running_core cpu2 sts (opened_inten x) dd.cpu2_handler bits.1)
        (dispatch_enabled dd.running_core dsp sts (opened_inten x) dd.dsp_handler (omega arith)
          bits.2))

irq_calls-closed : (sts x : ℕ) (dd : Dev) → irq_calls sts (closed_inten (opened_inten x)) dd ≡ []
unfolding irq_calls
irq_calls-closed sts x dd =
    let bits = closed_inten_bits (opened_inten x) in
    let inten = closed_inten (opened_inten x) in
    ap₂ ◌++◌ (dispatch_disabled dd.running_core cpu1 sts inten dd.cpu1_handler bits.0) (
      ap₂ ◌++◌
        (dispatch_disabled dd.running_core cpu2 sts inten dd.cpu2_handler
          (bits.1 ∙ (opened_inten_bits x).1))
        (dispatch_disabled dd.running_core dsp sts inten dd.dsp_handler bits.2))

irq_calls-own :
    (sts inten : ℕ) (dd : Dev) → All (λ c. c.1 ≢ dd.running_core) (irq_calls sts inten dd)
unfolding irq_calls
irq_calls-own sts inten dd =
    All-append _ _ _ (dispatch_own dd.running_core cpu1 sts inten dd.cpu1_handler) (
      All-append _ _ _ (dispatch_own dd.running_core cpu2 sts inten dd.cpu2_handler)
        (dispatch_own dd.running_core dsp sts inten dd.dsp_handler))

-- On CPU2, while the interrupt-enable register holds what open wrote, an interrupt calls the handler
-- of CPU1 for an event of CPU1, then that of the DSP for an event of the DSP, and nothing else; the
-- lock is given back.
pub irq_after_open :
    (sts inten x : ℕ) (dd : Dev)
    → dd.running_core ≡ cpu2
    → dd.regs Regs.cpu2_inten ≡ opened_inten x
    → lock_state dd.lock ≡ free
    → let (calls, dd') = irq_handler sts inten dd in
      let word = dd.regs Regs.cpu2_sts in
      (calls ≡ served dd word cpu1 ++ served dd word dsp) × (lock_state dd'.lock ≡ free)
unfolding irq_handler
irq_after_open sts inten x dd run e h =
    (ground (arith, irq_calls-opened (dd.regs Regs.cpu2_sts) x dd run), ground arith)

-- On CPU2, once the interrupt-enable register holds what close makes of what open wrote, no interrupt
-- calls a handler.
pub irq_after_close :
    (sts inten x : ℕ) (dd : Dev)
    → dd.running_core ≡ cpu2
    → dd.regs Regs.cpu2_inten ≡ closed_inten (opened_inten x)
    → (irq_handler sts inten dd).0 ≡ []
unfolding irq_handler irq_calls
irq_after_close sts inten x dd run e =
    ground (arith, opened_inten_bits x, closed_inten_bits (opened_inten x))

-- An interrupt never calls the handler of the core that runs the driver, whatever the registers.
pub irq_not_own :
    (sts inten : ℕ) (dd : Dev) → All (λ c. c.1 ≢ dd.running_core) (irq_handler sts inten dd).0
unfolding irq_handler
irq_not_own sts inten dd = ground (
  arith,
  irq_calls-own sts inten dd,
  irq_calls-own (dd.regs Regs.cpu2_sts) (dd.regs Regs.cpu2_inten) dd,
)

-- On CPU2 open returns 0, clears the three acknowledge bits of the status register and keeps its
-- events, enables the events of CPU1 and the DSP and disables those of CPU2, and gives the lock back.
pub open_sets_up :
    (dd : Dev)
    → dd.running_core ≡ cpu2
    → lock_state dd.lock ≡ free
    → (dd' : Dev) × (sts : ℕ) × (inten : ℕ) × (open_dev dd ≡ (pos 0, dd'))
      × (dd'.writes ≡ (Regs.cpu2_inten, inten) ∷ (Regs.cpu2_sts, sts) ∷ dd.writes)
      × ((field 16 3 sts ≡ 0) × (field 0 16 sts ≡ field 0 16 (dd.regs Regs.cpu2_sts)))
      × ((event_bit cpu1 inten ≡ 1) × (event_bit cpu2 inten ≡ 0) × (event_bit dsp inten ≡ 1))
      × (lock_state dd'.lock ≡ free)
unfolding open_dev opened_sts
open_sets_up dd run h = (
  (open_dev dd).1,
  opened_sts (dd.regs Regs.cpu2_sts),
  opened_inten (dd.regs Regs.cpu2_inten),
  ground arith,
  ground arith,
  omega arith,
  opened_inten_bits (dd.regs Regs.cpu2_inten),
  ground arith,
)

-- On each of the three cores, ipc_cc_close, called with the lock free, leaves it held.
pub close_lock :
    (dd : Dev)
    → dd.running_core < core_max
    → lock_state dd.lock ≡ free
    → lock_state (close_dev dd).lock ≡ held
unfolding close_dev
close_lock dd run h = ground arith
