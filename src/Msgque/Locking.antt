-- ===== src/Msgque/Locking.antt =====
-- What enqueue and dequeue leave of the spinlock that they take.
use ipc_msq_multicore.Common.{◌≡◌, Option, arith, ℤ, is_zero, if◌then◌else◌, Bool-cases, inl, inr}
use ipc_msq_multicore.Common.Outcome.{
  Outcome, done, fault, blocked, ◌>>=◌, Lock, LockState, free, held, stuck, lock_state,
}
use ipc_msq_multicore.Msgque.{
  Msg, Msgque, isempty, isfull, store, fetch, enqueued, dequeued, enqueue, dequeue,
}

-- The lock after a call that returned `ret`.
abbrev pub after_call : ℤ → LockState
after_call ret = if is_zero ret then free else held

stored_lock :
    (o : Outcome Msgque) (l : Lock) {ret : ℤ} {que : Option Msgque} {l' : Lock}
    → lock_state l ≡ free
    → (o >>= λ q. done (enqueued l q)) ≡ done (ret, que, l')
    → lock_state l' ≡ after_call ret
stored_lock (done q) l h e = ground arith
stored_lock fault l h e = cc
stored_lock blocked l h e = cc

-- Called with the lock free, enqueue leaves it free if it returns 0 and held if it returns anything
-- else, whatever the queue.
pub enqueue_lock :
    (que : Option Msgque) (m : Msg) (l : Lock) {ret : ℤ} {que' : Option Msgque} {l' : Lock}
    → lock_state l ≡ free
    → enqueue que m l ≡ done (ret, que', l')
    → lock_state l' ≡ after_call ret
unfolding enqueue
enqueue_lock que m l h e = elim (Bool-cases (isfull que)) [
  | inl full ↦ ground arith
  | inr room ↦ stored_lock (store que m) l h (rw room at e)
]

fetched_lock :
    (o : Outcome (Msgque × Msg)) (l : Lock) {ret : ℤ} {que : Option Msgque} {m : Msg} {l' : Lock}
    → lock_state l ≡ free
    → (o >>= λ r. done (dequeued l r)) ≡ done (ret, que, m, l')
    → lock_state l' ≡ after_call ret
fetched_lock (done r) l h e = ground arith
fetched_lock fault l h e = cc
fetched_lock blocked l h e = cc

-- Called with the lock free, dequeue leaves it free if it returns 0 and held if it returns anything
-- else, whatever the queue.
pub dequeue_lock :
    (que : Option Msgque) (m : Msg) (l : Lock) {ret : ℤ} {que' : Option Msgque} {m' : Msg}
    {l' : Lock}
    → lock_state l ≡ free
    → dequeue que m l ≡ done (ret, que', m', l')
    → lock_state l' ≡ after_call ret
unfolding dequeue
dequeue_lock que m l h e = elim (Bool-cases (isempty que)) [
  | inl hit ↦ ground arith
  | inr miss ↦ fetched_lock (fetch que m) l h (rw miss at e)
]

enqueued_stuck :
    (o : Outcome Msgque) (l : Lock) (r : ℤ × Option Msgque × Lock)
    → lock_state l ≡ held
    → (o >>= λ q. done (enqueued l q)) ≡ done r
    → lock_state r.2 ≡ stuck
enqueued_stuck (done q) l r h e = ground arith
enqueued_stuck fault l r h e = cc
enqueued_stuck blocked l r h e = cc

-- Called with the lock held, enqueue and dequeue take it a second time.
pub enqueue_stuck :
    (que : Option Msgque) (msg : Msg) (l : Lock) (r : ℤ × Option Msgque × Lock)
    → lock_state l ≡ held
    → enqueue que msg l ≡ done r
    → lock_state r.2 ≡ stuck
unfolding enqueue
enqueue_stuck que msg l r h e = elim (Bool-cases (isfull que)) [
  | inl full ↦ ground arith
  | inr room ↦ enqueued_stuck (store que msg) l r h (rw (room, enqueue) at e)
]

dequeued_stuck :
    (o : Outcome (Msgque × Msg)) (l : Lock) (r : ℤ × Option Msgque × Msg × Lock)
    → lock_state l ≡ held
    → (o >>= λ x. done (dequeued l x)) ≡ done r
    → lock_state r.3 ≡ stuck
dequeued_stuck (done q) l r h e = ground arith
dequeued_stuck fault l r h e = cc
dequeued_stuck blocked l r h e = cc

pub dequeue_stuck :
    (que : Option Msgque) (msg : Msg) (l : Lock) (r : ℤ × Option Msgque × Msg × Lock)
    → lock_state l ≡ held
    → dequeue que msg l ≡ done r
    → lock_state r.3 ≡ stuck
unfolding dequeue
dequeue_stuck que msg l r h e = elim (Bool-cases (isempty que)) [
  | inl hit ↦ ground arith
  | inr miss ↦ dequeued_stuck (fetch que msg) l r h (rw (miss, dequeue) at e)
]
