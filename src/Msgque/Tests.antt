-- ===== src/Msgque/Tests.antt =====
-- Runs of the queue operations, and the properties of queues at concrete queues.
use ipc_msq_multicore.Common.{◌≡◌, ◌↔◌, refl, true, some, [], ◌∷◌, arith, pos, minus, List, ◌<◌}
use ipc_msq_multicore.Common.Outcome.{
  smp, blocked, done, Lock, free, lock_state, spin_lock, spin_unlock,
}
use ipc_msq_multicore.Msgque.{Msgque, isempty, isfull, enqueue, dequeue, store}
use ipc_msq_multicore.Common.Bytes.{memcpy}
use ipc_msq_multicore.Msgque.Ring.{IsValid, isempty-iff-one, copied}
use ipc_msq_multicore.Msgque.Fifo.{contents, get}
use ipc_msq_multicore.Msgque.Locking.{enqueue_lock}
use ipc_msq_multicore.Msgque.Trace.{Call, enq, deq, run, spec_run, goes_on, run_refines}
use ipc_msq_multicore.Msgque.Underflow.{underflown, dequeue_underflow}
use ipc_msq_multicore.Samples.{
  blank_slot, hello, no_message, one_message, two_messages, no_message-IsValid, one_message-IsValid,
  two_messages-IsValid,
}

contents_two : contents two_messages ≡ (7 ∷ 8 ∷ []) ∷ (7 ∷ 8 ∷ []) ∷ []
contents_two = refl

-- With one message in the queue, dequeue refuses.
dequeue_one :
    dequeue (some one_message) hello [] ≡ done (minus 1, some one_message, hello, spin_lock [])
unfolding dequeue isempty
dequeue_one = refl

isempty-iff-one_example : (isempty (some one_message) ≡ true) ↔ (one_message.count ≡ 1)
isempty-iff-one_example = isempty-iff-one one_message-IsValid

enqueue_lock_example : lock_state (spin_unlock (spin_lock [])) ≡ free
unfolding enqueue isfull store memcpy
enqueue_lock_example = enqueue_lock (some one_message) hello [] refl refl

dequeue_underflow_example :
    dequeue (some no_message) hello []
    ≡ done
        (pos 0, some (underflown no_message), copied blank_slot hello, spin_unlock (spin_lock []))
dequeue_underflow_example = dequeue_underflow hello [] no_message-IsValid refl refl

-- The older message comes out, the last one is refused, a third goes in, and the second comes out.
abbrev calls : List Call
calls = deq hello ∷ deq hello ∷ enq hello ∷ deq hello ∷ []

-- The second call is refused.
run_refines_example :
    (q' : Msgque) × (l' : Lock) × (run smp calls (some two_messages) [] ≡ blocked)
    × (contents q' ≡ (spec_run calls (contents two_messages)).1)
    × IsValid q'
    × (0 < q'.count)
unfolding spec_run goes_on get
run_refines_example = run_refines smp calls [] refl two_messages-IsValid (omega arith) (omega arith)
