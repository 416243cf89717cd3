-- ===== src/Msgque/Underflow.antt =====
-- dequeue on a queue that holds no message, which its test for emptiness lets through.
use ipc_msq_multicore.Common.{
  ◌≡◌, ◌-◌, ◌+◌, ◌^◌, ◌%◌, some, arith, leb, refl, if◌then◌else◌, pos, minus, get_elem?-eq-get_or,
}
use ipc_msq_multicore.Common.Bytes.{memcpy}
use ipc_msq_multicore.Common.Outcome.{done, fault, Lock, spin_lock, spin_unlock}
use ipc_msq_multicore.Msgque.{
  Msg, Msgque, data_size, element_num, isempty, isfull, fetch, enqueue, dequeue,
}
use ipc_msq_multicore.Msgque.Ring.{HasData, IsValid, blank, out_slot, copied, slot-HasData}

abbrev pub underflown : Msgque → Msgque
underflown q = record q { outdx = (q.outdx + 1) % element_num; count = 2 ^ 32 - 1 }

-- On a valid queue without messages dequeue copies from the slot at `outdx`, whatever it was left
-- with. If the size there is more than the data array holds, the copy runs past the arrays. Else it
-- returns 0 and that slot, and the count of messages wraps to 2 ^ 32 - 1.
pub dequeue_underflow :
    {q : Msgque} (m : Msg) (l : Lock)
    → IsValid q
    → q.count ≡ 0
    → HasData m
    → dequeue (some q) m l ≡ (
        if leb (out_slot q).size data_size
        then done (pos 0, some (underflown q), copied (out_slot q) m, spin_unlock (spin_lock l))
        else fault)
unfolding dequeue fetch isempty memcpy
dequeue_underflow {q} m l v zero_in f =
    ground (arith, get_elem?-eq-get_or q.element q.outdx blank, slot-HasData q.outdx v)

-- After that every enqueue is refused.
pub enqueue_after_underflow :
    (q : Msgque) (m : Msg) (l : Lock)
    → enqueue (some (underflown q)) m l ≡ done (minus 1, some (underflown q), spin_lock l)
unfolding enqueue isfull
enqueue_after_underflow q m l = refl
