-- ===== src/Main/Release.antt =====
-- The release command of ipc_ioctl and its mutex.
use ipc_msq_multicore.Common.{ℕ, ◌≡◌, refl, sym, ◌∙◌, some, arith, true, false, if◌then◌else◌, ℤ}
use ipc_msq_multicore.Common.Outcome.{done, blocked, Ends, Ends-bind, Ends-any, Ends-done}
use ipc_msq_multicore.Table.{rel}
use ipc_msq_multicore.Main.{
  Driver, Env, Reply, rel_req, ioctl_rel, handle, ioctl, lock_mutex, with_kernel,
}

lock_mutex-sets : (d : Driver) → Ends (λ d'. d'.mutex ≡ true) (lock_mutex d)
lock_mutex-sets d =
    elim d.mutex
      as (λ b.
        Ends (λ d'. d'.mutex ≡ true) (if b then blocked else done (record d { mutex = true }))) [
          | true ↦ tt
          | false ↦ refl
        ]

pub ioctl_rel_stops :
    (e : Env) (msqid : ℕ) (rtn : ℤ) (bits : ℕ) (d : Driver)
    → Ends (λ _. ⊥) (ioctl_rel e msqid rtn bits d)
unfolding ioctl_rel
ioctl_rel_stops e msqid rtn bits d =
    Ends-bind (λ _. Unit) (λ _. ⊥) (rel msqid d.sys.kernel) _ (Ends-any (rel msqid d.sys.kernel))
      (λ r _.
        Ends-bind (λ d'. d'.mutex ≡ true) (λ _. ⊥) (lock_mutex (with_kernel d r.1)) _
          (lock_mutex-sets (with_kernel d r.1)) (λ d' taken. rw (taken) tt))

pub ioctl-rel_req :
    (e : Env) (msqid : ℕ) (rtn : ℤ) (d : Driver) (bits : ℕ)
    → d.file ≡ some bits
    → e.copy_in ≡ true
    → ioctl e (rel_req msqid rtn) d ≡ ioctl_rel e msqid rtn bits d
unfolding ioctl handle
ioctl-rel_req e msqid rtn d bits file read = ground arith

-- The release command on an open file never returns once its message is read: whatever the queue,
-- ipc_ioctl waits for the mutex that it took itself (or faults before).
pub release_never_returns :
    (e : Env) (msqid : ℕ) (rtn : ℤ) (d : Driver) (bits : ℕ)
    → d.file ≡ some bits
    → e.copy_in ≡ true
    → ¬ ((out : Reply) × (ioctl e (rel_req msqid rtn) d ≡ done out))
release_never_returns e msqid rtn d bits file read (out, returns) =
    Ends-done (λ _. ⊥) (ioctl_rel_stops e msqid rtn bits d)
      (sym (ioctl-rel_req e msqid rtn d bits file read) ∙ returns)
