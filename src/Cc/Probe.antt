-- ===== src/Cc/Probe.antt =====
-- The probe of ipc-cc.c and its error paths.
use ipc_msq_multicore.Common.{
  ℕ, ◌<◌, ◌≡◌, ◌≢◌, Option, none, some, arith, pos, true, false, is_zero, is_negative,
}
use ipc_msq_multicore.Cc.{Dev, core_max}
use ipc_msq_multicore.Cc.Device.{Platform, running_core, fresh_dev, open_dev, probe_open, probe}

-- The running core is one of the three, whatever the device tree says.
pub running_core-lt : (p : Option ℕ) → running_core p < core_max
unfolding running_core
running_core-lt none = omega arith
running_core-lt (some core_id) = ground arith

open_dev_total :
    (dd : Dev)
    → dd.running_core < core_max
    → (dd' : Dev) × (open_dev dd ≡ (pos 0, dd')) × (dd'.running_core ≡ dd.running_core)
unfolding open_dev
open_dev_total dd lt = ((open_dev dd).1, ground arith, ground arith)

-- What the platform must give for a probe to succeed.
pub record IsReady (p : Platform) : Type 0 where
  pub memory : p.allocated ≡ true
  pub resource : p.mem_resource ≡ true
  pub interrupt : is_negative p.irq ≡ false
  pub mapped : p.remap_error ≡ 0
  pub requested : is_zero p.request_irq ≡ true

-- The probe returns 0 if the platform gives all that it asks for, and the device then runs on the
-- core of the property run-core if that is one of the three, and else on CPU2.
pub probe_ready :
    (p : Platform) (regs : ℕ → ℕ)
    → IsReady p
    → (dd : Dev) × (probe p regs ≡ (pos 0, some dd)) × (dd.running_core ≡ running_core p.run_core)
unfolding probe probe_open fresh_dev
probe_ready p regs r =
    let (dd, opened, core) =
      open_dev_total (record (fresh_dev regs (running_core p.run_core)) { irq = p.irq })
        (running_core-lt p.run_core) in
    (dd, ground (arith, opened), core)

-- Once the memory was allocated, a probe that fails leaves `ipc_cc_dev` set: it points to memory that
-- the device core gives back.
pub probe_dangling :
    (p : Platform) (regs : ℕ → ℕ)
    → p.allocated ≡ true
    → is_zero (probe p regs).0 ≡ false
    → (probe p regs).1 ≢ none
unfolding probe probe_open
probe_dangling p regs a f e = ground arith
