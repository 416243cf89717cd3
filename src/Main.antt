-- ===== src/Main.antt =====
-- kernel_space/drv_chardev/drv_ipc_main.c: ipc_open, ipc_release and ipc_ioctl. The message of an
-- ioctl call is a value, which comes back as the caller then finds it; whether the copies to and
-- from the caller succeed is given.
pub mod Idle
pub mod Release
pub mod Calls
pub mod Handler
pub mod Files
pub mod Dispatch
pub mod Probe
pub mod Closing
pub mod Delivery
mod Tests
use ipc_msq_multicore.Common.{
  ℕ, zero, suc, ◌+◌, ◌-◌, ◌*◌, ◌/◌, ◌%◌, ◌^◌, Bool, true, false, not, Option, none, some, List, [],
  ◌∷◌, ◌==◌, ltb, if◌then◌else◌, ℤ, pos, negsuc, minus, is_negative, is_zero, u32, efault, enomem,
  get_or,
}
use ipc_msq_multicore.Common.Bytes.{cstr}
use ipc_msq_multicore.Common.Outcome.{Outcome, done, fault, blocked, ◌>>=◌, or_fault}
use ipc_msq_multicore.Msgque.{Msg}
use ipc_msq_multicore.Msqinfo.{Kernel, queue_num}
use ipc_msq_multicore.Table.{get_id_by_key, rel, ftok, msgpost}
use ipc_msq_multicore.Api.{System, Ambient, Wake, snd, rcv}
use ipc_msq_multicore.Cc.{Dev, Cmd, cpu1, dsp}

-- One open file and what it shares: `file` is its private data, the bits of the queues that it got;
-- `mutex` is ipc_mutex, `flags` the entries of readwait_interruptible.
pub record Driver : Type 0 where
  pub sys : System
  pub flags : List Bool
  pub mutex : Bool
  pub file : Option ℕ

-- ipc_open: `allocated` is whether kzalloc gives memory.
unfoldable pub open_file : Bool → Driver → ℤ × Driver
open_file allocated d = if allocated then (pos 0, record d { file = some 0 }) else (minus enomem, d)

abbrev pub bit : ℕ → ℕ → ℕ
bit n i = n / 2 ^ i % 2

-- n | (1 << i) and n & ~(1 << i)
abbrev pub set_bit : ℕ → ℕ → ℕ
set_bit n i = if bit n i == 1 then n else n + 2 ^ i

abbrev pub clear_bit : ℕ → ℕ → ℕ
clear_bit n i = if bit n i == 1 then n - 2 ^ i else n

-- The loop of ipc_release over the queues from `i` on, `n` of them left. `ret` is the last result.
unfoldable pub release_from : ℕ → ℕ → ℕ → ℤ → Kernel → Outcome (ℤ × Kernel)
release_from zero i bits ret k = done (ret, k)
release_from (suc n) i bits ret k = elim (bit bits i == 1) [
  | true ↦ rel i k >>= λ r. release_from n (suc i) bits r.0 r.1
  | false ↦ release_from n (suc i) bits ret k
]

abbrev pub with_kernel : Driver → Kernel → Driver
with_kernel d k = record d { sys = record (d.sys) { kernel = k } }

-- ipc_release: `ret` is what its local variable holds before the loop.
unfoldable pub release_file : ℤ → Driver → Outcome (ℤ × Driver)
release_file ret d = elim d.file [
  | none ↦ done (minus 1, d)
  | some bits ↦ release_from queue_num 0 bits ret d.sys.kernel >>= λ r.
      done (r.0, record (with_kernel d r.1) { file = none })
]

-- The five messages of inc/ipc-common.h, and a command that is none of them.
pub data Request : Type 0 where
  get_req : (key : ℕ) (rtn : ℤ) → Request
  rel_req : (msqid : ℕ) (rtn : ℤ) → Request
  ftok_req : (path : List ℕ) (rtn_key : ℕ) → Request
  snd_req : (msqid send_to : ℕ) (msg_data : List ℕ) (msg_size : ℕ) (rtn : ℤ) → Request
  rcv_req : (msqid : ℕ) (msg_data : List ℕ) (msg_size : ℕ) (rtn : ℤ) → Request
  other : ℕ → Request

-- What a call finds around it. `no_return` is what a function gives that ends without `return`, as
-- ipc_ioctl does on success.
pub record Env : Type 0 where
  pub ambient : Ambient
  pub copy_in : Bool
  pub copy_out : Bool
  pub no_return : ℤ
  pub msg_drv : Msg
  pub wakes : List Wake

abbrev pub Reply : Type 0
Reply = ℤ × Request × Driver

abbrev pub send_back : Env → Request → Request → Driver → Outcome Reply
send_back e old new d =
    if e.copy_out then done (e.no_return, new, d) else done (minus efault, old, d)

-- A mutex is not recursive: who takes it while it is taken waits.
abbrev pub lock_mutex : Driver → Outcome Driver
lock_mutex d = if d.mutex then blocked else done (record d { mutex = true })

abbrev pub unlock_mutex : Driver → Driver
unlock_mutex d = record d { mutex = false }

-- The bit of a queue id in the private data.
abbrev pub note_id : ℕ → ℤ → Driver → Outcome Driver
note_id bits (negsuc n) d = done d
note_id bits (pos id) d =
    lock_mutex d >>= λ d'. done (unlock_mutex (record d' { file = some (set_bit bits id) }))

unfoldable pub ioctl_get : Env → ℕ → ℤ → ℕ → Driver → Outcome Reply
ioctl_get e key rtn bits d =
    let msqid = get_id_by_key key d.sys.kernel in
    note_id bits msqid d >>= λ d'. send_back e (get_req key rtn) (get_req key msqid) d'

-- The second call of mutex_lock stands where the first should be undone.
unfoldable pub ioctl_rel : Env → ℕ → ℤ → ℕ → Driver → Outcome Reply
ioctl_rel e msqid rtn bits d = rel msqid d.sys.kernel >>= λ r.
    lock_mutex (with_kernel d r.1) >>= λ d'.
    lock_mutex (record d' { file = some (clear_bit bits msqid) }) >>= λ d''.
    send_back e (rel_req msqid rtn) (rel_req msqid r.0) d''

unfoldable pub ioctl_ftok : Env → List ℕ → ℕ → Driver → Outcome Reply
ioctl_ftok e path rtn_key d = or_fault (cstr path) >>= λ name.
    ftok (some name) d.sys.kernel >>= λ r.
    send_back e (ftok_req path rtn_key) (ftok_req path r.0) (with_kernel d r.1)

unfoldable pub ioctl_snd : Env → ℕ → ℕ → List ℕ → ℕ → ℤ → Driver → Outcome Reply
ioctl_snd e msqid send_to msg_data msg_size rtn d =
    snd e.ambient msqid send_to (some msg_data) msg_size d.sys >>= λ r.
    send_back e (snd_req msqid send_to msg_data msg_size rtn)
      (snd_req msqid send_to msg_data msg_size r.0) (record d { sys = r.1 })

abbrev pub or_else : List ℕ → Option (List ℕ) → List ℕ
or_else old none = old
or_else old (some new) = new

unfoldable pub ioctl_rcv : Env → ℕ → List ℕ → ℕ → ℤ → Driver → Outcome Reply
ioctl_rcv e msqid msg_data msg_size rtn d =
    rcv msqid (some msg_data) msg_size 0 e.msg_drv e.wakes d.flags d.sys.kernel >>= λ r.
    let d' = record (with_kernel d r.3) { flags = r.2 } in
    let old = rcv_req msqid msg_data msg_size rtn in
    if is_negative r.0
    then done (r.0, old, d')
    else send_back e old (rcv_req msqid (or_else msg_data r.1) msg_size r.0) d'

-- The part of ipc_ioctl behind the copy from the caller.
unfoldable pub handle : Env → Request → ℕ → Driver → Outcome Reply
handle e (get_req key rtn) bits d = ioctl_get e key rtn bits d
handle e (rel_req msqid rtn) bits d = ioctl_rel e msqid rtn bits d
handle e (ftok_req path rtn_key) bits d = ioctl_ftok e path rtn_key d
handle e (snd_req msqid send_to msg_data msg_size rtn) bits d =
    ioctl_snd e msqid send_to msg_data msg_size rtn d
handle e (rcv_req msqid msg_data msg_size rtn) bits d = ioctl_rcv e msqid msg_data msg_size rtn d
handle e (other cmd) bits d = done (e.no_return, other cmd, d)

-- The commands that ask for the private data of the file.
abbrev pub needs_file : Request → Bool
needs_file (get_req key rtn) = true
needs_file (rel_req msqid rtn) = true
needs_file _ = false

abbrev pub is_other : Request → Bool
is_other (other cmd) = true
is_other _ = false

abbrev pub copied_in : Env → Request → ℕ → Driver → Outcome Reply
copied_in e r bits d =
    if not e.copy_in
    then (if is_other r then handle e r bits d else done (minus efault, r, d))
    else handle e r bits d

-- ipc_ioctl
unfoldable pub ioctl : Env → Request → Driver → Outcome Reply
ioctl e r d = elim d.file [
  | none ↦ if needs_file r then done (minus efault, r, d) else copied_in e r 0 d
  | some bits ↦ copied_in e r bits d
]

-- Calls in their order; the results are left out.
unfoldable pub run : List (Env × Request) → Driver → Outcome Driver
run [] d = done d
run ((e, r) ∷ calls) d = ioctl e r d >>= λ out. run calls out.2
