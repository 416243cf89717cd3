-- ===== src/Api.antt =====
-- kernel_space/drv_chardev/drv_ipc_api.c: ipc_msg_snd and ipc_msg_rcv. The state is that of the
-- queues and the inter-core device. A buffer of the caller is a list of bytes, null is `none`.
pub mod Send
pub mod Receive
mod Tests
use ipc_msq_multicore.Common.{
  ℕ, ◌+◌, ◌^◌, Bool, true, false, not, ◌&&◌, Option, none, some, List, [], ◌∷◌, ◌==◌, ltb, leb,
  if◌then◌else◌, get_elem?, set, u32, ℤ, pos, minus, is_zero, efault,
}
use ipc_msq_multicore.Common.Bytes.{memcpy}
use ipc_msq_multicore.Common.Outcome.{Outcome, done, fault, Lock, blocked, ◌>>=◌, or_fault}
use ipc_msq_multicore.Msgque.{Msg, Msgque, element_size, isempty, isvalid, dequeue}
use ipc_msq_multicore.Msqinfo.{SendMsg, Msqinfo, Kernel, sendto_max}
use ipc_msq_multicore.Table.{get_que_by_id, on_info, put_queue}
use ipc_msq_multicore.Sender.{lock_snd_msg_buff, unlock_snd_msg_buff, get_phy_addr}
use ipc_msq_multicore.Cc.{Dev, Soc, Cmd, Locals, send_cmd, cpu1, dsp}

pub record System : Type 0 where
  pub kernel : Kernel
  pub dev : Option Dev

-- What ipc_msg_snd finds that it does not write itself: the local variables of ipc_cc_send_cmd, the
-- value that a function without `return` gives, and whether a signal comes while it waits.
pub record Ambient : Type 0 where
  pub soc : Soc
  pub locals : Locals
  pub no_return : ℤ
  pub signal : Bool

abbrev pub update : (ℕ → SendMsg) → ℕ → SendMsg → ℕ → SendMsg
update f p v a = if a == p then v else f a

-- The message at `p` gets the destination and the bytes.
abbrev pub write_msg : ℕ → ℕ → List ℕ → Kernel → Kernel
write_msg p send_to bytes k = record k {
  memory = update k.memory p (record { send_to = send_to; bytes = bytes });
}

-- The command for the message at `p`; its data stand behind the first word.
abbrev pub cmd_for : ℕ → ℕ → ℕ → Kernel → Cmd
cmd_for key p msg_size k = record {
  opcode = key;
  data_addr = get_phy_addr (u32 (p + 4)) k;
  data_size = msg_size;
}

-- Both sending branches of ipc_msg_snd: the command to a core, then the unlock.
unfoldable pub transmit : Ambient → ℕ → Cmd → ℕ → Kernel → Option Dev → Outcome (ℤ × System)
transmit amb core cmd send_to k dev = unlock_snd_msg_buff send_to k >>= λ k'.
    done (amb.no_return, record { kernel = k'; dev = (send_cmd amb.soc amb.locals core cmd dev).1 })

-- The part of ipc_msg_snd that holds the buffer `p`. The second test compares the pointer with the
-- number of the destination.
unfoldable pub fill_and_send :
    Ambient → ℕ → ℕ → List ℕ → ℕ → ℕ → Kernel → Option Dev → Outcome (ℤ × System)
fill_and_send amb key send_to msg_data msg_size p k dev =
    or_fault (memcpy (k.memory p).bytes msg_data msg_size) >>= λ bytes.
    let k' = write_msg p send_to bytes k in
    let cmd = cmd_for key p msg_size k' in
    if send_to == 1
    then transmit amb cpu1 cmd send_to k' dev
    else if p == 3
    then transmit amb dsp cmd send_to k' dev
    else done (minus 6, record { kernel = k'; dev = dev })

-- The part of ipc_msg_snd behind the lock.
abbrev pub after_lock :
    Ambient → ℕ → ℕ → List ℕ → ℕ → Option Dev → Option ℕ × Kernel → Outcome (ℤ × System)
after_lock amb key send_to msg_data msg_size dev (none, k) =
    done (minus 5, record { kernel = k; dev = dev })
after_lock amb key send_to msg_data msg_size dev (some p, k) =
    fill_and_send amb key send_to msg_data msg_size p k dev

-- ipc_msg_snd
unfoldable pub snd : Ambient → ℕ → ℕ → Option (List ℕ) → ℕ → System → Outcome (ℤ × System)
snd amb msqid send_to msg_data msg_size s = elim (get_que_by_id msqid s.kernel) [
  | none ↦ done (minus 1, s)
  | some q ↦ elim msg_data [
    | none ↦ done (minus 2, s)
    | some bytes ↦
        if ltb sendto_max send_to
        then done (minus 3, s)
        else if ltb element_size msg_size
        then done (minus 4, s)
        else lock_snd_msg_buff amb.signal send_to s.kernel >>= λ r.
            after_lock amb q.sharekey send_to bytes msg_size s.dev r
  ]
]

-- The slot that the pointer of ipc_msg_rcv points to, whatever it holds by now.
abbrev pub slot_at : ℕ → Kernel → Option Msgque
slot_at msqid k = elim k.info [ none ↦ none | some m ↦ get_elem? m.tbl msqid ]

-- What another thread has made of the state when a wait returns, and the result of the wait.
abbrev pub Wake : Type 0
Wake = ℤ × Kernel

-- The loop of ipc_msg_rcv ends in an early return or goes on to the queue. `flags` are the entries of
-- readwait_interruptible.
pub data Waited : Type 0 where
  leave : ℤ → List Bool → Kernel → Waited
  proceed : List Bool → Kernel → Waited

-- Each round takes one wake-up; without one the thread waits for ever.
unfoldable pub wait_loop : ℕ → ℕ → ℕ → List Wake → List Bool → Kernel → Outcome Waited
wait_loop msqid sharekey timeout [] flags k =
    if isempty (slot_at msqid k) then blocked else done (proceed flags k)
wait_loop msqid sharekey timeout ((ret, k') ∷ wakes) flags k =
    let flags' = set flags msqid (timeout == 0) in
    let again = wait_loop msqid sharekey timeout wakes flags' k' in
    if not (isempty (slot_at msqid k))
    then done (proceed flags k)
    else if not (isvalid (slot_at msqid k') sharekey)
    then done (leave (minus 1) flags' k')
    else if is_zero ret && not (timeout == 0)
    then done (leave (minus 2) flags' k')
    else if isempty (slot_at msqid k')
    then done (leave (minus 3) flags' k')
    else again

-- The queue and the lock as dequeue leaves them.
abbrev pub put_back : ℕ → Option Msgque → Lock → Kernel → Kernel
put_back msqid none l k = record k { lock = l }
put_back msqid (some q) l k = on_info (put_queue msqid q) (record k { lock = l })

-- What ipc_msg_rcv does with a message that it took. The copy takes the size of the size, four bytes.
unfoldable pub deliver : List ℕ → ℕ → ℤ → Msg → Kernel → Outcome (ℤ × List ℕ × Kernel)
deliver msg_data msg_size ret msg_drv k =
    if not (is_zero ret)
    then done (minus 4, msg_data, k)
    else if ltb msg_size msg_drv.size
    then done (minus 5, msg_data, k)
    else or_fault (memcpy msg_data msg_drv.bytes 4) >>= λ out. done (pos msg_drv.size, out, k)

-- The part of ipc_msg_rcv behind the loop. `msg_drv` is the local message before it is written. The
-- result is the status, the caller's buffer and the state.
unfoldable pub take_msg : ℕ → List ℕ → ℕ → Msg → Kernel → Outcome (ℤ × List ℕ × Kernel)
take_msg msqid msg_data msg_size msg_drv k = dequeue (slot_at msqid k) msg_drv k.lock >>= λ r.
    deliver msg_data msg_size r.0 r.2 (put_back msqid r.1 r.3 k)

abbrev pub Received : Type 0
Received = ℤ × Option (List ℕ) × List Bool × Kernel

-- ipc_msg_rcv. The missing argument of its call of getQuebyID is read as any core.
unfoldable pub rcv :
    ℕ → Option (List ℕ) → ℕ → ℕ → Msg → List Wake → List Bool → Kernel → Outcome Received
rcv msqid none msg_size timeout msg_drv wakes flags k = done (minus efault, none, flags, k)
rcv msqid (some msg_data) msg_size timeout msg_drv wakes flags k = elim (get_que_by_id msqid k) [
  | none ↦ done (minus efault, some msg_data, flags, k)
  | some q ↦ wait_loop msqid q.sharekey timeout wakes flags k >>= λ w. elim w [
    | leave ret flags' k' ↦ done (ret, some msg_data, flags', k')
    | proceed flags' k' ↦
        take_msg msqid msg_data msg_size msg_drv k' >>= λ r. done (r.0, some r.1, flags', r.2)
  ]
]
