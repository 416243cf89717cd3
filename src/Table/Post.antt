-- ===== src/Table/Post.antt =====
-- ipc_msgque_msgpost: which arguments it takes, and what it does to the lock.
use ipc_msq_multicore.Common.{
  refl, [], ◌∷◌, ◌++◌, take, drop, ◌∙◌, ℕ, ◌≤◌, ◌<◌, ◌≡◌, Option, none, some, List, arith,
  Option-cases, inl, inr, true, length, ℤ, pos,
}
use ipc_msq_multicore.Common.Bytes.{memcpy, memcpy_fits, length-memcpy, take-memcpy}
use ipc_msq_multicore.Common.Outcome.{
  Outcome, done, fault, blocked, ◌>>=◌, Lock, free, stuck, lock_state, spin_lock,
}
use ipc_msq_multicore.Msgque.{Msg, Msgque, data_size, element_size, element_num, enqueue, enqueued}
use ipc_msq_multicore.Msgque.Ring.{Fits, IsValid, HasData, stored, stored-IsValid}
use ipc_msq_multicore.Msgque.Fifo.{contents, contents-stored, enqueue_room}
use ipc_msq_multicore.Msgque.Locking.{enqueue_stuck}
use ipc_msq_multicore.Msqinfo.{Kernel}
use ipc_msq_multicore.Table.Lookup.{get_que_by_id-info, get_que_by_id-put, get_que_by_id_used}
use ipc_msq_multicore.Table.{on_info, put_queue, is_used, get_que_by_id, msgpost, posted}

posted_stuck :
    (i : ℕ) (r : ℤ × Option Msgque × Lock) (k : Kernel)
    → lock_state r.2 ≡ stuck
    → lock_state (posted i r k).1.lock ≡ stuck
posted_stuck i (ret, none, l) k h = ground arith
posted_stuck i (ret, some q, l) k h = ground arith

answer_stuck :
    (o : Outcome (ℤ × Option Msgque × Lock)) (i : ℕ) (k : Kernel) {ret : ℤ} {k' : Kernel}
    → ((r : ℤ × Option Msgque × Lock) → o ≡ done r → lock_state r.2 ≡ stuck)
    → (o >>= λ r. done (posted i r k)) ≡ done (ret, k')
    → lock_state k'.lock ≡ stuck
answer_stuck (done r) i k h e = ground (arith, posted_stuck i r k (h r refl))
answer_stuck fault i k h e = cc
answer_stuck blocked i k h e = cc

-- Called with the lock free for a queue that is in use, ipc_msgque_msgpost takes the lock a second
-- time before it gives it back, whatever it returns but -1 and -2: on a lock that is not recursive
-- such a call never returns.
pub msgpost_stuck :
    (i size : ℕ) (src : List ℕ) (rcvmsg : Msg) (k : Kernel) (q : Msgque) {ret : ℤ} {k' : Kernel}
    → lock_state k.lock ≡ free
    → get_que_by_id i k ≡ some q
    → size ≤ element_size
    → msgpost i (some src) size rcvmsg k ≡ done (ret, k')
    → lock_state k'.lock ≡ stuck
unfolding msgpost
msgpost_stuck i size src rcvmsg k q {ret} {k'} h known fits e =
    elim (Option-cases (memcpy rcvmsg.bytes src size)) [
      | inl over ↦ ground (arith)
      | inr (bytes, copied) ↦
          let msg : Msg = record { size = size; bytes = bytes } in
          answer_stuck (enqueue (some q) msg (spin_lock k.lock)) i k {ret = ret} {k' = k'}
            (λ r. enqueue_stuck (some q) msg (spin_lock k.lock) r (ground arith)) (ground arith)
    ]

-- A post of 13 to 24 bytes to a queue in use passes the test of the size, and then runs past the
-- twelve bytes of the local message.
pub msgpost_overflow :
    (i size : ℕ) (src : List ℕ) (rcvmsg : Msg) (k : Kernel) (q : Msgque)
    → get_que_by_id i k ≡ some q
    → HasData rcvmsg
    → data_size < size
    → size ≤ element_size
    → msgpost i (some src) size rcvmsg k ≡ fault
unfolding msgpost memcpy
msgpost_overflow i size src rcvmsg k q known h over fits = ground arith

rcvmsg-Fits :
    (size : ℕ) (src : List ℕ) (rcvmsg : Msg)
    → HasData rcvmsg
    → size ≤ data_size
    → size ≤ length src
    → Fits (record { size = size; bytes = take size src ++ drop size rcvmsg.bytes })
rcvmsg-Fits size src rcvmsg h fits given =
    (length-memcpy rcvmsg.bytes src size (omega arith) given ∙ h, fits)

-- A post of at most twelve bytes to a valid queue in use that is not full returns 0 and puts these
-- bytes behind the messages of the queue.
pub msgpost_delivers :
    (i size : ℕ) (src : List ℕ) (rcvmsg : Msg) (k : Kernel) (q : Msgque)
    → get_que_by_id i k ≡ some q
    → IsValid q
    → q.count < element_num
    → HasData rcvmsg
    → size ≤ data_size
    → size ≤ length src
    → (k' : Kernel) × (q' : Msgque) × (msgpost i (some src) size rcvmsg k ≡ done (pos 0, k'))
      × (get_que_by_id i k' ≡ some q')
      × (contents q' ≡ contents q ++ (take size src ∷ []))
      × IsValid q'
unfolding msgpost
msgpost_delivers i size src rcvmsg k q known v room h fits given =
    let msg : Msg = record { size = size; bytes = take size src ++ drop size rcvmsg.bytes } in
    let f : Fits msg = rcvmsg-Fits size src rcvmsg h fits given in
    let l = spin_lock k.lock in
    let used : is_used (stored q msg) ≡ true = get_que_by_id_used i k q known in
    (
      (posted i (enqueued l (stored q msg)) k).1,
      stored q msg,
      ground (arith, enqueue_room msg l v room f, memcpy_fits rcvmsg.bytes src size),
      get_que_by_id-info i _ (on_info (put_queue i (stored q msg)) k) (ground arith)
          ∙ get_que_by_id-put i k q (stored q msg) known used,
      rw (contents-stored msg v room f, take-memcpy rcvmsg.bytes src size given),
      stored-IsValid msg v room f,
    )
