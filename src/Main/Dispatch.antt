-- ===== src/Main/Dispatch.antt =====
-- What holds of every result of `handle` and of an early return holds of every result of ipc_ioctl.
use ipc_msq_multicore.Common.{ℕ, not, none, some, minus, efault, if◌then◌else◌}
use ipc_msq_multicore.Common.Outcome.{done, Ends, Ends-if}
use ipc_msq_multicore.Main.{
  Driver, Env, Request, Reply, handle, ioctl, copied_in, needs_file, is_other,
}

module _ (P : Reply → Type 0) (e : Env) (r : Request) (d : Driver) where
  module _ (early : P (minus efault, r, d))
      (handled : (bits : ℕ) → Ends P (handle e r bits d)) where
    copied_in-Ends : (bits : ℕ) → Ends P (copied_in e r bits d)
    copied_in-Ends bits =
        Ends-if P (not e.copy_in) _ _ (Ends-if P (is_other r) _ _ (handled bits) early)
          (handled bits)

    pub ioctl-Ends : Ends P (ioctl e r d)
    unfolding ioctl
    ioctl-Ends =
        elim d.file
          as (λ f. Ends P (elim f [
            | none ↦ if needs_file r then done (minus efault, r, d) else copied_in e r 0 d
            | some bits ↦ copied_in e r bits d
          ])) [
            | none ↦ Ends-if P (needs_file r) _ _ early (copied_in-Ends 0)
            | some bits ↦ copied_in-Ends bits
          ]
