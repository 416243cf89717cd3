-- ===== src/Api/Receive.antt =====
-- How long ipc_msg_rcv waits, and what it delivers.
use ipc_msq_multicore.Common.{
  ℕ, ◌≤◌, ◌≡◌, refl, ap, ◌∙◌, Bool, false, some, List, [], ◌∷◌, ◌++◌, arith, ltb, if◌then◌else◌,
  length, take, drop, ℤ, pos, minus,
}
use ipc_msq_multicore.Common.Bytes.{memcpy_fits}
use ipc_msq_multicore.Common.Outcome.{done, spin_lock, spin_unlock}
use ipc_msq_multicore.Msgque.{Msg, Msgque, data_size, isempty}
use ipc_msq_multicore.Msgque.Ring.{IsValid, HasData, out_slot, copied, fetched}
use ipc_msq_multicore.Msgque.Ring.{copied-HasData, out_slot-Fits}
use ipc_msq_multicore.Msgque.Fifo.{dequeue_more}
use ipc_msq_multicore.Msqinfo.{Kernel}
use ipc_msq_multicore.Table.{get_que_by_id, on_info, put_queue}
use ipc_msq_multicore.Table.Lookup.{
  get_que_by_id-info, get_que_by_id-put, get_que_by_id_used, get_que_by_id-slot,
}
use ipc_msq_multicore.Api.{Wake, proceed, slot_at, wait_loop, put_back, deliver, take_msg, rcv}

-- The loop makes at most one round: a second wake-up changes nothing.
pub wait_once :
    (msqid key timeout : ℕ) (w : Wake) (wakes : List Wake) (flags : List Bool) (k : Kernel)
    → wait_loop msqid key timeout (w ∷ wakes) flags k ≡ wait_loop msqid key timeout (w ∷ []) flags k
unfolding wait_loop
wait_once msqid key timeout (ret, k') [] flags k = refl
wait_once msqid key timeout (ret, k') (w ∷ wakes) flags k = ground arith

-- A queue in which the loop finds a message is left without a wait.
no_wait :
    (msqid key timeout : ℕ) (wakes : List Wake) (flags : List Bool) (k : Kernel)
    → isempty (slot_at msqid k) ≡ false
    → wait_loop msqid key timeout wakes flags k ≡ done (proceed flags k)
unfolding wait_loop
no_wait msqid key timeout [] flags k h = ground arith
no_wait msqid key timeout ((ret, k') ∷ wakes) flags k h = ground arith

not_empty : {q : Msgque} → IsValid q → 2 ≤ q.count → isempty (some q) ≡ false
unfolding isempty
not_empty v more = ground arith

-- The message that rcv hands to its caller's buffer: four bytes, whatever its size.
abbrev pub delivered : List ℕ → Msg → List ℕ
delivered msg_data m = take 4 m.bytes ++ drop 4 msg_data

abbrev pub answer : List ℕ → ℕ → Msg → ℤ × List ℕ
answer msg_data msg_size m =
    if ltb msg_size m.size then (minus 5, msg_data) else (pos m.size, delivered msg_data m)

deliver_lem :
    (msg_data : List ℕ) (msg_size : ℕ) (m : Msg) (k : Kernel)
    → 4 ≤ length msg_data
    → length m.bytes ≡ data_size
    → deliver msg_data msg_size (pos 0) m k
      ≡ done ((answer msg_data msg_size m).0, (answer msg_data msg_size m).1, k)
unfolding deliver
deliver_lem msg_data msg_size m k room h = ground (arith, memcpy_fits msg_data m.bytes 4)

-- From a valid queue with two messages or more ipc_msg_rcv takes the oldest without a wait, and removes it
-- from the queue. If the caller asked for fewer bytes than it has, the call returns -5 and the message is
-- lost; else it returns the size and copies four bytes, whatever the size.
pub rcv_takes :
    (i : ℕ) (msg_data : List ℕ) (msg_size timeout : ℕ) (msg_drv : Msg) (wakes : List Wake)
    (flags : List Bool) (k : Kernel) (q : Msgque)
    → get_que_by_id i k ≡ some q
    → IsValid q
    → 2 ≤ q.count
    → HasData msg_drv
    → 4 ≤ length msg_data
    → let (ret, out) = answer msg_data msg_size (copied (out_slot q) msg_drv) in
      (k' : Kernel) × (rcv i (some msg_data) msg_size timeout msg_drv wakes flags k
        ≡ done (ret, some out, flags, k'))
      × (get_que_by_id i k' ≡ some (fetched q))
unfolding rcv take_msg
rcv_takes i msg_data msg_size timeout msg_drv wakes flags k q known v more h room =
    let at : slot_at i k ≡ some q = get_que_by_id-slot i k q known in
    let l = spin_unlock (spin_lock k.lock) in
    let m = copied (out_slot q) msg_drv in
    let k' = put_back i (some (fetched q)) l k in
    (
      k',
      ground (
        arith,
        no_wait i q.sharekey timeout wakes flags k (ap isempty at ∙ not_empty v more),
        dequeue_more msg_drv k.lock v more h,
        deliver_lem msg_data msg_size m k' room (copied_size v more h),
      ),
      get_que_by_id-info i _ (on_info (put_queue i (fetched q)) k) (ground arith)
          ∙ get_que_by_id-put i k q (fetched q) known (get_que_by_id_used i k q known),
    )
  where
    copied_size : IsValid q → 2 ≤ q.count → HasData msg_drv → HasData (copied (out_slot q) msg_drv)
    copied_size v more h = copied-HasData (out_slot q) msg_drv (out_slot-Fits v (omega arith)) h
