-- ===== src/Main/Calls.antt =====
-- The calls of ipc_ioctl on a driver whose table has no used queue.
use ipc_msq_multicore.Common.{
  ℕ, ◌≡◌, sym, Option, none, some, List, [], ◌∷◌, arith, Bool, true, Option-cases, Bool-cases, inl,
  inr, ℤ, pos, negsuc, minus, is_negative, efault, u16, ◌-◌, ◌^◌,
}
use std.Path.{subst}
use ipc_msq_multicore.Common.Bytes.{cstr}
use ipc_msq_multicore.Common.Outcome.{
  done, ◌>>=◌, or_fault, Ends, Ends-bind, Ends-any, Ends-done, Ends-weaken,
}
use ipc_msq_multicore.Msgque.{Msg}
use ipc_msq_multicore.Name.{namehash}
use ipc_msq_multicore.Msqinfo.{Msqinfo, Kernel}
use ipc_msq_multicore.Table.{
  get_id_by_key, get_que_by_id, ftok, fill_token, locked, unlocked, with_info,
}
use ipc_msq_multicore.Api.{System, Ambient, Wake, snd, rcv}
use ipc_msq_multicore.Main.{
  Driver, Env, Request, Reply, get_req, rel_req, ftok_req, snd_req, rcv_req, other, send_back,
  note_id, ioctl_get, ioctl_rel, ioctl_ftok, ioctl_snd, ioctl_rcv, handle, ioctl, run, with_kernel,
}
use ipc_msq_multicore.Main.Dispatch.{ioctl-Ends}
use ipc_msq_multicore.Main.Idle.{IsIdle, get_id_by_key_idle, get_que_by_id_idle}
use ipc_msq_multicore.Main.Release.{ioctl_rel_stops}

abbrev pub IsQuiet : Driver → Type 0
IsQuiet d = IsIdle d.sys.kernel

abbrev IsQuietReply : Reply → Type 0
IsQuietReply out = IsQuiet out.2

send_back-IsQuiet :
    (e : Env) (old new : Request) (d : Driver)
    → IsQuiet d
    → Ends IsQuietReply (send_back e old new d)
send_back-IsQuiet e old new d h = elim (Bool-cases e.copy_out) [
  | inl ok ↦ rw (ok) h
  | inr bad ↦ rw (bad) h
]

note_id-IsQuiet :
    (bits : ℕ) (msqid : ℤ) (d : Driver) → IsQuiet d → Ends IsQuiet (note_id bits msqid d)
note_id-IsQuiet bits (negsuc n) d h = h
note_id-IsQuiet bits (pos id) d h = elim (Bool-cases d.mutex) [
  | inl taken ↦ rw (taken) tt
  | inr free ↦ rw (free) h
]

ioctl_get-IsQuiet :
    (e : Env) (key : ℕ) (rtn : ℤ) (bits : ℕ) (d : Driver)
    → IsQuiet d
    → Ends IsQuietReply (ioctl_get e key rtn bits d)
unfolding ioctl_get
ioctl_get-IsQuiet e key rtn bits d h =
    Ends-bind IsQuiet IsQuietReply (note_id bits (get_id_by_key key d.sys.kernel) d) _
      (note_id-IsQuiet bits (get_id_by_key key d.sys.kernel) d h)
      (λ d' h'. send_back-IsQuiet e _ _ d' h')

IsIdle-tokens :
    (m : Msqinfo) (ts : List (List ℕ)) (k : Kernel)
    → k.info ≡ some m
    → IsIdle k
    → IsIdle (unlocked (with_info (record m { tokens = ts }) (locked k)))
IsIdle-tokens m ts k here h m' e = ground (arith, h m here)

ftok_null :
    (path : Option (List ℕ)) (k : Kernel) → k.info ≡ none → ftok path k ≡ done (u16 (2 ^ 16 - 1), k)
unfolding ftok
ftok_null path k null = ground arith

ftok-some :
    (path : Option (List ℕ)) (k : Kernel) {m : Msqinfo}
    → k.info ≡ some m
    → ftok path k ≡ (
        fill_token path m.tokens >>= λ ts.
        done (namehash path, unlocked (with_info (record m { tokens = ts }) (locked k))))
unfolding ftok
ftok-some path k here = ground arith

ftok-IsIdle :
    (path : Option (List ℕ)) (k : Kernel) → IsIdle k → Ends (λ r. IsIdle r.1) (ftok path k)
ftok-IsIdle path k h = elim (Option-cases k.info) [
  | inl null ↦ subst (Ends (λ r. IsIdle r.1)) (sym (ftok_null path k null)) h
  | inr (m, here) ↦ subst (Ends (λ r. IsIdle r.1)) (sym (ftok-some path k here)) (
      Ends-bind (λ _. Unit) (λ r. IsIdle r.1) (fill_token path m.tokens) _
        (Ends-any (fill_token path m.tokens)) (λ ts _. IsIdle-tokens m ts k here h))
]

ioctl_ftok-IsQuiet :
    (e : Env) (path : List ℕ) (rtn_key : ℕ) (d : Driver)
    → IsQuiet d
    → Ends IsQuietReply (ioctl_ftok e path rtn_key d)
unfolding ioctl_ftok
ioctl_ftok-IsQuiet e path rtn_key d h =
    Ends-bind (λ _. Unit) IsQuietReply (or_fault (cstr path)) _ (Ends-any (or_fault (cstr path)))
      (λ name _.
        Ends-bind (λ r. IsIdle r.1) IsQuietReply (ftok (some name) d.sys.kernel) _
          (ftok-IsIdle (some name) d.sys.kernel h)
          (λ r h'. send_back-IsQuiet e _ _ (with_kernel d r.1) h'))

snd_idle :
    (amb : Ambient) (msqid send_to : ℕ) (bytes : Option (List ℕ)) (size : ℕ) (s : System)
    → IsIdle s.kernel
    → snd amb msqid send_to bytes size s ≡ done (minus 1, s)
unfolding snd
snd_idle amb msqid send_to bytes size s h = ground (arith, get_que_by_id_idle msqid s.kernel h)

pub rcv_idle :
    (msqid : ℕ) (bytes : List ℕ) (size timeout : ℕ) (m : Msg) (wakes : List Wake)
    (flags : List Bool) (k : Kernel)
    → IsIdle k
    → rcv msqid (some bytes) size timeout m wakes flags k
      ≡ done (minus efault, some bytes, flags, k)
unfolding rcv
rcv_idle msqid bytes size timeout m wakes flags k h = ground (arith, get_que_by_id_idle msqid k h)

ioctl_snd-IsQuiet :
    (e : Env) (msqid send_to : ℕ) (bytes : List ℕ) (size : ℕ) (rtn : ℤ) (d : Driver)
    → IsQuiet d
    → Ends IsQuietReply (ioctl_snd e msqid send_to bytes size rtn d)
unfolding ioctl_snd
ioctl_snd-IsQuiet e msqid send_to bytes size rtn d h =
    rw (snd_idle e.ambient msqid send_to (some bytes) size d.sys h) (send_back-IsQuiet e _ _ d h)

ioctl_rcv-IsQuiet :
    (e : Env) (msqid : ℕ) (bytes : List ℕ) (size : ℕ) (rtn : ℤ) (d : Driver)
    → IsQuiet d
    → Ends IsQuietReply (ioctl_rcv e msqid bytes size rtn d)
unfolding ioctl_rcv
ioctl_rcv-IsQuiet e msqid bytes size rtn d h =
    rw (rcv_idle msqid bytes size 0 e.msg_drv e.wakes d.flags d.sys.kernel h) h

handle-IsQuiet :
    (e : Env) (r : Request) (bits : ℕ) (d : Driver)
    → IsQuiet d
    → Ends IsQuietReply (handle e r bits d)
unfolding handle
handle-IsQuiet e (get_req key rtn) bits d h = ioctl_get-IsQuiet e key rtn bits d h
handle-IsQuiet e (rel_req msqid rtn) bits d h =
    Ends-weaken (λ _. ⊥) IsQuietReply (ioctl_rel e msqid rtn bits d) (λ out no. absurd no)
      (ioctl_rel_stops e msqid rtn bits d)
handle-IsQuiet e (ftok_req path rtn_key) bits d h = ioctl_ftok-IsQuiet e path rtn_key d h
handle-IsQuiet e (snd_req msqid send_to bytes size rtn) bits d h =
    ioctl_snd-IsQuiet e msqid send_to bytes size rtn d h
handle-IsQuiet e (rcv_req msqid bytes size rtn) bits d h =
    ioctl_rcv-IsQuiet e msqid bytes size rtn d h
handle-IsQuiet e (other cmd) bits d h = h

pub ioctl-IsQuiet :
    (e : Env) (r : Request) (d : Driver) → IsQuiet d → Ends IsQuietReply (ioctl e r d)
ioctl-IsQuiet e r d h = ioctl-Ends IsQuietReply e r d h (λ bits. handle-IsQuiet e r bits d h)

run-IsQuiet : (calls : List (Env × Request)) (d : Driver) → IsQuiet d → Ends IsQuiet (run calls d)
unfolding run
run-IsQuiet [] d h = h
run-IsQuiet ((e, r) ∷ calls) d h =
    Ends-bind IsQuietReply IsQuiet (ioctl e r d) _ (ioctl-IsQuiet e r d h)
      (λ out h'. run-IsQuiet calls out.2 h')

-- From a driver without a used queue, as init leaves it, no sequence of ioctl calls makes one: after
-- the calls, when they return, every key is unknown, so the get command gives a negative id, and no
-- id has a queue.
pub no_queue_ever :
    (calls : List (Env × Request)) (d d' : Driver)
    → IsIdle d.sys.kernel
    → run calls d ≡ done d'
    → ((key : ℕ) → is_negative (get_id_by_key key d'.sys.kernel) ≡ true)
      × ((msqid : ℕ) → get_que_by_id msqid d'.sys.kernel ≡ none)
no_queue_ever calls d d' h e =
    let idle = Ends-done IsQuiet (run-IsQuiet calls d h) e in
    (
      λ key. get_id_by_key_idle key d'.sys.kernel idle,
      λ msqid. get_que_by_id_idle msqid d'.sys.kernel idle,
    )
