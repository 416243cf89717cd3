-- ===== src/Main/Files.antt =====
-- The private data of a file stays there over the calls of ipc_ioctl.
use ipc_msq_multicore.Common.{
  ℕ, ◌≡◌, refl, Bool, true, false, Option, none, some, List, ℤ, pos, negsuc, is_negative,
}
use ipc_msq_multicore.Common.Bytes.{cstr}
use ipc_msq_multicore.Common.Outcome.{or_fault, Ends, Ends-bind, Ends-any, Ends-if, Ends-weaken}
use ipc_msq_multicore.Table.{get_id_by_key, ftok}
use ipc_msq_multicore.Api.{snd, rcv}
use ipc_msq_multicore.Main.{
  Driver, Env, Request, Reply, get_req, rel_req, ftok_req, snd_req, rcv_req, other, send_back,
  note_id, ioctl_get, ioctl_rel, ioctl_ftok, ioctl_snd, ioctl_rcv, handle, ioctl, lock_mutex,
  with_kernel,
}
use ipc_msq_multicore.Main.Dispatch.{ioctl-Ends}
use ipc_msq_multicore.Main.Release.{ioctl_rel_stops}

abbrev pub is_some {ℓ} : {A : Type ℓ} → Option A → Bool
is_some none = false
is_some (some a) = true

abbrev HasFile : Driver → Type 0
HasFile d = is_some d.file ≡ true

abbrev HasFileReply : Reply → Type 0
HasFileReply out = HasFile out.2

send_back-HasFile :
    (e : Env) (old new : Request) (d : Driver)
    → HasFile d
    → Ends HasFileReply (send_back e old new d)
send_back-HasFile e old new d h = Ends-if HasFileReply e.copy_out _ _ h h

note_id-HasFile :
    (bits : ℕ) (msqid : ℤ) (d : Driver) → HasFile d → Ends HasFile (note_id bits msqid d)
note_id-HasFile bits (negsuc n) d h = h
note_id-HasFile bits (pos id) d h =
    Ends-bind (λ _. Unit) HasFile (lock_mutex d) _ (Ends-any (lock_mutex d)) (λ d' _. refl)

get-HasFile :
    (e : Env) (key : ℕ) (rtn : ℤ) (bits : ℕ) (d : Driver)
    → HasFile d
    → Ends HasFileReply (ioctl_get e key rtn bits d)
unfolding ioctl_get
get-HasFile e key rtn bits d h =
    Ends-bind HasFile HasFileReply (note_id bits (get_id_by_key key d.sys.kernel) d) _
      (note_id-HasFile bits (get_id_by_key key d.sys.kernel) d h)
      (λ d' k. send_back-HasFile e _ _ d' k)

ftok-HasFile :
    (e : Env) (path : List ℕ) (rtn_key : ℕ) (d : Driver)
    → HasFile d
    → Ends HasFileReply (ioctl_ftok e path rtn_key d)
unfolding ioctl_ftok
ftok-HasFile e path rtn_key d h =
    Ends-bind (λ _. Unit) HasFileReply (or_fault (cstr path)) _ (Ends-any (or_fault (cstr path)))
      (λ name _.
        Ends-bind (λ _. Unit) HasFileReply (ftok (some name) d.sys.kernel) _
          (Ends-any (ftok (some name) d.sys.kernel))
          (λ r _. send_back-HasFile e _ _ (with_kernel d r.1) h))

snd-HasFile :
    (e : Env) (msqid send_to : ℕ) (bytes : List ℕ) (size : ℕ) (rtn : ℤ) (d : Driver)
    → HasFile d
    → Ends HasFileReply (ioctl_snd e msqid send_to bytes size rtn d)
unfolding ioctl_snd
snd-HasFile e msqid send_to bytes size rtn d h =
    let call = snd e.ambient msqid send_to (some bytes) size d.sys in
    Ends-bind (λ _. Unit) HasFileReply call _ (Ends-any call)
      (λ r _. send_back-HasFile e _ _ (record d { sys = r.1 }) h)

rcv-HasFile :
    (e : Env) (msqid : ℕ) (bytes : List ℕ) (size : ℕ) (rtn : ℤ) (d : Driver)
    → HasFile d
    → Ends HasFileReply (ioctl_rcv e msqid bytes size rtn d)
unfolding ioctl_rcv
rcv-HasFile e msqid bytes size rtn d h =
    let call = rcv msqid (some bytes) size 0 e.msg_drv e.wakes d.flags d.sys.kernel in
    Ends-bind (λ _. Unit) HasFileReply call _ (Ends-any call)
      (λ r _.
        Ends-if HasFileReply (is_negative r.0) _ _ h
          (send_back-HasFile e _ _ (record (with_kernel d r.3) { flags = r.2 }) h))

handle-HasFile :
    (e : Env) (r : Request) (bits : ℕ) (d : Driver)
    → HasFile d
    → Ends HasFileReply (handle e r bits d)
unfolding handle
handle-HasFile e (get_req key rtn) bits d h = get-HasFile e key rtn bits d h
handle-HasFile e (rel_req msqid rtn) bits d h =
    Ends-weaken (λ _. ⊥) HasFileReply (ioctl_rel e msqid rtn bits d) (λ out no. absurd no)
      (ioctl_rel_stops e msqid rtn bits d)
handle-HasFile e (ftok_req path rtn_key) bits d h = ftok-HasFile e path rtn_key d h
handle-HasFile e (snd_req msqid send_to bytes size rtn) bits d h =
    snd-HasFile e msqid send_to bytes size rtn d h
handle-HasFile e (rcv_req msqid bytes size rtn) bits d h = rcv-HasFile e msqid bytes size rtn d h
handle-HasFile e (other cmd) bits d h = h

-- A call on an open file leaves it one.
pub ioctl-file :
    (e : Env) (r : Request) (d : Driver)
    → HasFile d
    → Ends (λ out. is_some out.2.file ≡ true) (ioctl e r d)
ioctl-file e r d h = ioctl-Ends HasFileReply e r d h (λ bits. handle-HasFile e r bits d h)
