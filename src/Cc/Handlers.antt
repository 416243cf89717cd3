-- ===== src/Cc/Handlers.antt =====
-- The table of handlers of ipc-cc.c.
use ipc_msq_multicore.Common.{ℕ, ◌≤◌, ◌<◌, ◌≡◌, ◌≢◌, Option, none, some, arith, pos}
use ipc_msq_multicore.Common.Outcome.{free, lock_state}
use ipc_msq_multicore.Cc.{
  Dev, core_max, switch, locked, unlocked, set_handler, register_handler, unregister_handler,
}

abbrev pub handler_of : ℕ → Dev → Option ℕ
handler_of core dd = switch core dd.cpu1_handler dd.cpu2_handler dd.dsp_handler none

-- Registering a handler for one of the three cores returns 0, sets this handler, leaves those of the
-- other cores, and gives the lock back.
pub register_sets :
    (core : ℕ) (hdl : Option ℕ) (dd : Dev)
    → core < core_max
    → lock_state dd.lock ≡ free
    → (dd' : Dev) × (register_handler core hdl (some dd) ≡ (pos 0, some dd'))
      × (handler_of core dd' ≡ hdl)
      × ((c : ℕ) → c ≢ core → handler_of c dd' ≡ handler_of c dd)
      × (lock_state dd'.lock ≡ free)
unfolding register_handler
register_sets core hdl dd lt h = (
  unlocked (set_handler core hdl (locked dd)).1,
  ground arith,
  ground arith,
  λ c ne. ground arith,
  ground arith,
)

-- Unregistering returns 0 for every core up to the bound, itself included, and takes away the
-- handler of the core that runs the driver; every other core, also the one asked for, keeps its own.
pub unregister_clears_running :
    (core : ℕ) (dd : Dev)
    → core ≤ core_max
    → dd.running_core < core_max
    → (dd' : Dev) × (unregister_handler core (some dd) ≡ (pos 0, some dd'))
      × (handler_of dd.running_core dd' ≡ none)
      × ((c : ℕ) → c ≢ dd.running_core → handler_of c dd' ≡ handler_of c dd)
unfolding unregister_handler
unregister_clears_running core dd le lt = (
  unlocked (set_handler dd.running_core none (locked dd)).1,
  ground arith,
  ground arith,
  λ c ne. ground arith,
)
