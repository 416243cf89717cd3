-- ===== src/Msgque.antt =====
-- kernel_space/drv_chardev/drv_ipc_msgque.c: the operations on one message queue, with the types
-- of kernel_space/inc/drv_ipc_msgque.h and inc/ipc-common.h. A pointer is an option, null is `none`.
-- `&long`, which names nothing, is read as `&lock`, the file's only spinlock. The address of an
-- array element is never null, so the branch `ret = -2` of enqueue and dequeue is dead. The
-- functions take the lock as on a kernel for one processor, where it is never waited for;
-- Outcome.on_build is the same call on a kernel for several.
pub mod Ring
pub mod Fifo
pub mod Locking
pub mod Underflow
pub mod Trace
mod Tests
use ipc_msq_multicore.Common.{
  ℕ, ◌+◌, ◌-◌, ◌*◌, ◌%◌, ◌^◌, Bool, true, false, ◌&&◌, Option, none, some, List, ◌==◌, leb,
  if◌then◌else◌, get_elem?, set, replicate, u32, ℤ, pos, minus,
}
use ipc_msq_multicore.Common.Bytes.{memcpy}
use ipc_msq_multicore.Common.Outcome.{
  Outcome, done, fault, ◌>>=◌, or_fault, Lock, spin_lock, spin_unlock,
}

-- IPC_MSG_ELEMENT_NUM, IPC_MSG_ELEMENT_SIZE, CFG_IPC_INIT_KEY
abbrev pub element_num : ℕ
element_num = 16

abbrev pub element_size : ℕ
element_size = 24

abbrev pub init_key : ℕ
init_key = 0x12345678

-- MAX_LENGTH words of data
abbrev pub data_size : ℕ
data_size = 3 * 4

-- IPC_MSG; `bytes` are the `data_size` bytes of `data`.
pub record Msg : Type 0 where
  pub size : ℕ
  pub bytes : List ℕ

-- IPC_MSGQUE
pub record Msgque : Type 0 where
  pub initkey : ℕ
  pub sharekey : ℕ
  pub msqid : ℕ
  pub indx : ℕ
  pub outdx : ℕ
  pub count : ℕ
  pub element : List Msg

unfoldable pub isempty : Option Msgque → Bool
isempty none = true
isempty (some q) = q.indx == q.outdx

-- -1 as a UINT32 for a null pointer
unfoldable pub get_element_count : Option Msgque → ℕ
get_element_count none = 2 ^ 32 - 1
get_element_count (some q) = q.count

unfoldable pub isfull : Option Msgque → Bool
unfolding get_element_count
isfull none = true
isfull (some q) = leb element_num (get_element_count (some q))

-- The `=` of `sharekey = pmsgque->sharekey` is read as `==`.
unfoldable pub isvalid : Option Msgque → ℕ → Bool
isvalid none sharekey = false
isvalid (some q) sharekey = q.initkey == init_key && sharekey == q.sharekey

-- The index that the next enqueue writes.
abbrev pub next_in : Msgque → ℕ
next_in q = u32 (q.indx + 1) % element_num

-- The part of enqueue behind its test.
unfoldable pub store : Option Msgque → Msg → Outcome Msgque
store none msg = fault
store (some q) msg = do
  slot ← or_fault (get_elem? q.element (next_in q))
  bytes ← or_fault (memcpy slot.bytes msg.bytes msg.size)
  done (record q {
    indx = next_in q;
    count = u32 (q.count + 1);
    element = set q.element (next_in q) (record { size = msg.size; bytes = bytes });
  })

-- What enqueue and dequeue return once they are past their tests: the lock is given back.
abbrev pub enqueued : Lock → Msgque → ℤ × Option Msgque × Lock
enqueued lock q = (pos 0, some q, spin_unlock (spin_lock lock))

abbrev pub dequeued : Lock → Msgque × Msg → ℤ × Option Msgque × Msg × Lock
dequeued lock r = (pos 0, some r.0, r.1, spin_unlock (spin_lock lock))

-- The status, the queue and the lock. The refusal of a full queue returns with the lock held.
unfoldable pub enqueue : Option Msgque → Msg → Lock → Outcome (ℤ × Option Msgque × Lock)
enqueue que msg lock =
    if isfull que
    then done (minus 1, que, spin_lock lock)
    else store que msg >>= λ q. done (enqueued lock q)

-- The part of dequeue behind its test: the queue, and what `msg` points to.
unfoldable pub fetch : Option Msgque → Msg → Outcome (Msgque × Msg)
fetch none msg = fault
fetch (some q) msg = do
  slot ← or_fault (get_elem? q.element q.outdx)
  bytes ← or_fault (memcpy msg.bytes slot.bytes slot.size)
  done (
    record q { outdx = u32 (q.outdx + 1) % element_num; count = u32 (q.count + 2 ^ 32 - 1) },
    record { size = slot.size; bytes = bytes },
  )

-- The refusal of a queue that the test takes for empty returns with the lock held.
unfoldable pub dequeue : Option Msgque → Msg → Lock → Outcome (ℤ × Option Msgque × Msg × Lock)
dequeue que msg lock =
    if isempty que
    then done (minus 1, que, msg, spin_lock lock)
    else fetch que msg >>= λ r. done (dequeued lock r)

-- The fields that ipc_msgque_get gives a queue that it hands out.
abbrev pub fresh_queue : Msgque → ℕ → ℕ → Msgque
fresh_queue q msqid sharekey = record q {
  initkey = init_key;
  msqid = msqid;
  sharekey = sharekey;
  indx = element_num - 1;
  outdx = 0;
  count = 0;
}
