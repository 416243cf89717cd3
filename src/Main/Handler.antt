-- ===== src/Main/Handler.antt =====
-- kernel_space/drv_chardev/drv_ipc_main.c: ipc_get_noncache_addr, ipc_core_handle_func and
-- ipc_core_handler, which the interrupt of the inter-core driver calls.
use ipc_msq_multicore.Common.{
  ℕ, ◌+◌, ◌-◌, ◌^◌, ◌≡◌, refl, ap, sym, ◌∙◌, Bool, Option, none, some, List, arith, ◌==◌,
  if◌then◌else◌, get_elem?, u32, ℤ, pos, negsuc, is_zero,
}
use ipc_msq_multicore.Common.Outcome.{Outcome, done, ◌>>=◌, or_fault}
use ipc_msq_multicore.Msgque.{Msg}
use ipc_msq_multicore.Msqinfo.{Kernel}
use ipc_msq_multicore.Table.{get_id_by_key, msgpost}
use ipc_msq_multicore.Api.{System}
use ipc_msq_multicore.Cc.{Dev, Soc, Cmd, Sources, get_cmd, send_ack, cpu1, dsp}
use ipc_msq_multicore.Cc.Receive.{get_cmd_fails}

-- m_ctrl, without the wait queues.
pub record Ctrl : Type 0 where
  pub flags : List Bool
  pub shm_phy_base : ℕ
  pub shm_non_cache_base : ℕ

-- The function pointers CC_GET_CMD and CC_SEND_ACK. `none` is a null pointer to a command.
abbrev pub CcGetCmd : Type 0
CcGetCmd = ℕ → Option Cmd → Option Dev → ℤ × Option Cmd × Option Dev

abbrev pub CcSendAck : Type 0
CcSendAck = ℕ → Option Dev → ℤ × Option Dev

-- What the handler finds: m_ctrl, the bytes from an address on that can be
-- read (none where nothing is mapped), and two local variables before they
-- are written, its own command and the message of ipc_msgque_msgpost.
pub record Around : Type 0 where
  pub ctrl : Ctrl
  pub shared : ℕ → List ℕ
  pub cmd : Cmd
  pub rcvmsg : Msg

unfoldable pub get_noncache_addr : ℕ → Ctrl → ℕ
get_noncache_addr physical_addr c =
    u32 (physical_addr + 2 ^ 32 - u32 (c.shm_phy_base + 2 ^ 32 - c.shm_non_cache_base))

-- The queue whose readers are woken, and whether the interruptible way.
abbrev pub Woken : Type 0
Woken = Option (ℕ × Bool)

-- The part of ipc_core_handle_func behind the test of the post.
abbrev pub acknowledge : ℕ → CcSendAck → Ctrl → ℕ → Kernel → Option Dev → Outcome (Woken × System)
acknowledge core send_ack_func c msqid k dev = or_fault (get_elem? c.flags msqid) >>= λ b.
    done (some (msqid, b), record { kernel = k; dev = (send_ack_func core dev).1 })

-- The pointer that ipc_msgque_msgpost gets: null, or the bytes that it points to.
abbrev pub bytes_at : Around → ℕ → Option (List ℕ)
bytes_at a address = if address == 0 then none else some (a.shared address)

-- The part of ipc_core_handle_func behind the look-up of the key.
abbrev pub post : ℕ → CcSendAck → Around → Cmd → ℤ → Kernel → Option Dev → Outcome (Woken × System)
post core send_ack_func a cmd (negsuc n) k dev = done (none, record { kernel = k; dev = dev })
post core send_ack_func a cmd (pos msqid) k dev =
    msgpost msqid (bytes_at a (get_noncache_addr cmd.data_addr a.ctrl)) cmd.data_size a.rcvmsg k
    >>= λ r.
        if is_zero r.0
        then acknowledge core send_ack_func a.ctrl msqid r.1 dev
        else done (none, record { kernel = r.1; dev = dev })

-- ipc_core_handle_func; the answer of `get_cmd_func` is not read.
unfoldable pub handle_func : ℕ → CcGetCmd → CcSendAck → Around → System → Outcome (Woken × System)
handle_func core get_cmd_func send_ack_func a s =
    let (_, read, dev) = get_cmd_func core (some a.cmd) s.dev in
    or_fault read >>= λ cmd.
    post core send_ack_func a cmd (get_id_by_key cmd.opcode s.kernel) s.kernel dev

-- ipc_core_handler: the event's number is the core's.
unfoldable pub core_handler : Soc → Sources → ℕ → Around → System → Outcome (Woken × System)
core_handler soc u evt a s =
    if evt == cpu1
    then handle_func cpu1 (get_cmd u) (send_ack soc) a s
    else if evt == dsp
    then handle_func dsp (get_cmd u) (send_ack soc) a s
    else done (none, s)

-- Who is woken and what the queues then hold, without the device.
abbrev pub seen : Outcome (Woken × System) → Outcome (Woken × Kernel)
seen o = o >>= λ r. done (r.0, r.1.kernel)

abbrev pub with_dev : System → Option Dev → System
with_dev s dev = record s { dev = dev }

acknowledge-seen :
    (core : ℕ) (f : CcSendAck) (c : Ctrl) (msqid : ℕ) (k : Kernel) (dev dev' : Option Dev)
    → seen (acknowledge core f c msqid k dev) ≡ seen (acknowledge core f c msqid k dev')
acknowledge-seen core f c msqid k dev dev' = ground arith

post-seen :
    (core : ℕ) (f : CcSendAck) (a : Around) (cmd : Cmd) (id : ℤ) (k : Kernel)
    (dev dev' : Option Dev)
    → seen (post core f a cmd id k dev) ≡ seen (post core f a cmd id k dev')
post-seen core f a cmd (negsuc n) k dev dev' = refl
post-seen core f a cmd (pos msqid) k dev dev' = ground arith

-- The command is the local variable that ipc_cc_get_cmd left as it was.
handle_func-local :
    (core : ℕ) (u : Sources) (f : CcSendAck) (a : Around) (s : System)
    → handle_func core (get_cmd u) f a s
      ≡ post core f a a.cmd
          (get_id_by_key a.cmd.opcode s.kernel)
          s.kernel
          (get_cmd u core (some a.cmd) s.dev).2
unfolding handle_func
handle_func-local core u f a s =
    ap
      (λ read. or_fault read >>= λ cmd.
        post core f a cmd (get_id_by_key cmd.opcode s.kernel) s.kernel
          (get_cmd u core (some a.cmd) s.dev).2)
      (get_cmd_fails u core (some a.cmd) s.dev).1

handle_func-seen :
    (core : ℕ) (u : Sources) (f : CcSendAck) (a : Around) (s : System) (dev dev' : Option Dev)
    → seen (handle_func core (get_cmd u) f a (with_dev s dev))
      ≡ seen (handle_func core (get_cmd u) f a (with_dev s dev'))
handle_func-seen core u f a s dev dev' =
    ap seen (handle_func-local core u f a (with_dev s dev))
    ∙ post-seen core f a a.cmd (get_id_by_key a.cmd.opcode s.kernel) s.kernel _ _
    ∙ ap seen (sym (handle_func-local core u f a (with_dev s dev')))

-- What a core wrote to its registers does not count: whatever the device holds, or without one, the
-- handler of an event wakes the same readers and leaves the same queues.
pub handler_ignores_device :
    (soc : Soc) (u : Sources) (evt : ℕ) (a : Around) (s : System) (dev dev' : Option Dev)
    → seen (core_handler soc u evt a (with_dev s dev))
      ≡ seen (core_handler soc u evt a (with_dev s dev'))
unfolding core_handler
handler_ignores_device soc u evt a s dev dev' = ground (
  arith,
  handle_func-seen cpu1 u (send_ack soc) a s dev dev',
  handle_func-seen dsp u (send_ack soc) a s dev dev',
)
