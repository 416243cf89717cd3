-- ===== src/Main/Delivery.antt =====
-- The way of a message from another core to its reader: the handler of the event, with a function that
-- does read the command, and then ipc_msg_rcv.
use ipc_msq_multicore.Common.{
  ℕ, ◌≤◌, ◌<◌, ◌≡◌, refl, sym, ap, ◌∙◌, Bool, Option, some, List, [], ◌∷◌, ◌++◌, arith, get_elem?,
  length, take, pos,
}
use ipc_msq_multicore.Common.Outcome.{
  done, blocked, Lock, lock_state, free, on_build, smp, on_smp-stuck,
}
use ipc_msq_multicore.Msgque.{Msg, Msgque, element_num, data_size}
use ipc_msq_multicore.Msgque.Ring.{IsValid, HasData, copied, out_slot, fetched, out_slot-Fits}
use ipc_msq_multicore.Msgque.Fifo.{
  contents, payload, length-contents, payload-copied, contents-fetched,
}
use ipc_msq_multicore.Table.{get_id_by_key, get_que_by_id}
use ipc_msq_multicore.Table.Post.{msgpost_delivers, msgpost_stuck}
use ipc_msq_multicore.Api.{System, Wake, rcv}
use ipc_msq_multicore.Api.Receive.{answer, rcv_takes}
use ipc_msq_multicore.Msqinfo.{Kernel}
use ipc_msq_multicore.Cc.{Dev, Cmd}
use ipc_msq_multicore.Main.Handler.{
  Woken, bytes_at, CcGetCmd, CcSendAck, Around, get_noncache_addr, handle_func,
}

-- A command that was read, for a queue that can take its message.
pub record Arrives (core : ℕ) (get_cmd_func : CcGetCmd) (a : Around) (s : System) (c : Cmd) (i : ℕ)
    (q : Msgque) (src : List ℕ) (b : Bool) (dev : Option Dev) : Type 0 where
  pub read : (get_cmd_func core (some a.cmd) s.dev).1 ≡ some c
  pub after : (get_cmd_func core (some a.cmd) s.dev).2 ≡ dev
  pub key : get_id_by_key c.opcode s.kernel ≡ pos i
  pub known : get_que_by_id i s.kernel ≡ some q
  pub queue : IsValid q
  pub room : q.count < element_num
  pub local : HasData a.rcvmsg
  pub mapped : bytes_at a (get_noncache_addr c.data_addr a.ctrl) ≡ some src
  pub unlocked : lock_state s.kernel.lock ≡ free
  pub fits : c.data_size ≤ data_size
  pub given : c.data_size ≤ length src
  pub reader : get_elem? a.ctrl.flags i ≡ some b

-- The lock after a call of the handler.
abbrev pub lock_after : Woken × System → Lock
lock_after r = r.1.kernel.lock

-- If the function that it is given does read the command, and the lock is free, the handler, on a
-- kernel for one processor, puts the bytes at the command's address behind the messages of the queue
-- of its key, acknowledges to the core and wakes the readers of this queue. On a kernel for several
-- processors it does not return: ipc_msgque_msgpost spins on the lock that it took.
pub handler_delivers :
    (core : ℕ) (get_cmd_func : CcGetCmd) (ack : CcSendAck) (a : Around) (s : System) (c : Cmd)
    (i : ℕ) (q : Msgque) (src : List ℕ) (b : Bool) (dev : Option Dev)
    → Arrives core get_cmd_func a s c i q src b dev
    → (s' : System) × (q' : Msgque) × (handle_func core get_cmd_func ack a s
        ≡ done (some (i, b), s'))
      × (s'.dev ≡ (ack core dev).1)
      × (get_que_by_id i s'.kernel ≡ some q')
      × (contents q' ≡ contents q ++ (take c.data_size src ∷ []))
      × IsValid q'
      × (on_build smp lock_after (handle_func core get_cmd_func ack a s) ≡ blocked)
unfolding handle_func
handler_delivers core get_cmd_func ack a s c i q src b dev r =
    let (k', q', posted, known, held, v) =
      msgpost_delivers i c.data_size src a.rcvmsg s.kernel q r.known r.queue r.room r.local r.fits
        r.given in
    let handled : handle_func core get_cmd_func ack a s
        ≡ done (some (i, b), record { kernel = k'; dev = (ack core dev).1 }) =
      ground (arith, r.read, r.after, r.key, r.mapped, r.reader, posted) in
    let spun =
      msgpost_stuck i c.data_size src a.rcvmsg s.kernel q r.unlocked r.known (omega (arith, r.fits))
        posted in
    (
      record { kernel = k'; dev = (ack core dev).1 },
      q',
      handled,
      refl,
      known,
      held,
      v,
      on_smp-stuck lock_after (handle_func core get_cmd_func ack a s) handled spun,
    )

-- What a reader then gets of the queue, with what stays in it.
abbrev pub Reads :
    ℕ → List ℕ → ℕ → ℕ → Msg → List Wake → List Bool → Kernel → List ℕ → List ℕ → Type 0
Reads i msg_data msg_size timeout msg_drv wakes flags k old new =
    (m : Msg) × (k' : Kernel) × (q : Msgque) × (rcv i (some msg_data) msg_size timeout msg_drv wakes
        flags k
      ≡ done ((answer msg_data msg_size m).0, some (answer msg_data msg_size m).1, flags, k'))
    × (payload m ≡ old)
    × (get_que_by_id i k' ≡ some q)
    × (contents q ≡ new ∷ [])

-- On a kernel for one processor, the reader is one message behind: when the queue holds one message and
-- another one arrives, the handler wakes the readers, and ipc_msg_rcv, without a wait, takes the older
-- one; the new one stays. On a kernel for several processors the handler does not return.
pub reader_one_behind :
    (core : ℕ) (get_cmd_func : CcGetCmd) (ack : CcSendAck) (a : Around) (s : System) (c : Cmd)
    (i : ℕ) (q : Msgque) (src : List ℕ) (b : Bool) (dev : Option Dev) (old msg_data : List ℕ)
    (msg_size timeout : ℕ) (msg_drv : Msg) (wakes : List Wake) (flags : List Bool)
    → Arrives core get_cmd_func a s c i q src b dev
    → contents q ≡ old ∷ []
    → HasData msg_drv
    → 4 ≤ length msg_data
    → (s' : System) × (handle_func core get_cmd_func ack a s ≡ done (some (i, b), s'))
      × Reads i msg_data msg_size timeout msg_drv wakes flags s'.kernel old (take c.data_size src)
      × (on_build smp lock_after (handle_func core get_cmd_func ack a s) ≡ blocked)
reader_one_behind core get_cmd_func ack a s c i q src b dev old msg_data msg_size timeout msg_drv
      wakes flags r one h room =
    let (s', q', handled, _, known, held, v, spins) =
      handler_delivers core get_cmd_func ack a s c i q src b dev r in
    let two : contents q' ≡ old ∷ take c.data_size src ∷ [] =
      held ∙ ap (λ l. l ++ (take c.data_size src ∷ [])) one in
    let more : 2 ≤ q'.count = omega (arith, length-contents q', ap (length {A = List ℕ}) two) in
    let (k', taken, left) =
      rcv_takes i msg_data msg_size timeout msg_drv wakes flags s'.kernel q' known v more h room in
    let split = sym (contents-fetched v (omega arith)) ∙ two in
    (
      s',
      handled,
      (
        copied (out_slot q') msg_drv,
        k',
        fetched q',
        taken,
        payload-copied (out_slot q') msg_drv (out_slot-Fits v (omega arith)) ∙ cc split,
        left,
        cc split,
      ),
      spins,
    )
