-- ===== src/User.antt =====
-- user_space/libipc/ipclib.c with user_space/inc/ipclib.h: the library of a process, over the calls of
-- the operating system. IOC_IPC_FTOK, which nothing defines, is read as IOC_IPC_MSGQUE_FTOK.
pub mod Session
pub mod Closed
pub mod Driver
pub mod Key
mod Tests
use ipc_msq_multicore.Common.{
  ℕ, zero, suc, ◌+◌, ◌-◌, ◌^◌, Bool, true, false, Option, none, some, List, [], ◌==◌, ltb,
  if◌then◌else◌, set, ℤ, pos, negsuc, minus, is_negative, is_zero, u16,
}
use ipc_msq_multicore.Common.Bytes.{memcpy, strncpy}
use ipc_msq_multicore.Common.Outcome.{
  Outcome, done, fault, blocked, ◌>>=◌, or_fault, Lock, spin_lock, spin_unlock,
}
use ipc_msq_multicore.Msgque.{element_size}
use ipc_msq_multicore.Msqinfo.{token_max}
use ipc_msq_multicore.Main.{Request, get_req, rel_req, ftok_req, snd_req, rcv_req, other}
use ipc_msq_multicore.Device.{Device}

-- The members of IPC_ERR that the library returns.
abbrev pub err_ok : ℤ
err_ok = pos 0

abbrev pub err_snd_msg : ℤ
err_snd_msg = minus 3

abbrev pub err_rcv_msg : ℤ
err_rcv_msg = minus 4

abbrev pub err_sndsize_over_limit : ℤ
err_sndsize_over_limit = minus 9

abbrev pub err_not_opened : ℤ
err_not_opened = minus 11

-- msqcnt++ and msqcnt-- of an int of 32 bits. C leaves an overflow undefined; here it wraps around.
abbrev pub increment : ℤ → ℤ
increment (pos n) = if n == 2 ^ 31 - 1 then negsuc (2 ^ 31 - 1) else pos (suc n)
increment (negsuc zero) = pos 0
increment (negsuc (suc n)) = negsuc n

abbrev pub decrement : ℤ → ℤ
decrement (pos zero) = negsuc 0
decrement (pos (suc n)) = pos n
decrement (negsuc n) = if n == 2 ^ 31 - 1 then pos (2 ^ 31 - 1) else negsuc (suc n)

-- Conversions between UINT16 and INT16.
abbrev pub to_int16 : ℕ → ℤ
to_int16 w = if ltb w (2 ^ 15) then pos w else negsuc (2 ^ 16 - w - 1)

abbrev pub to_uint16 : ℤ → ℕ
to_uint16 (pos n) = u16 n
to_uint16 (negsuc n) = 2 ^ 16 - 1 - u16 n

-- A local message before it is filled.
pub record Uninit : Type 0 where
  pub rtn : ℤ
  pub rtn_key : ℕ
  pub path : List ℕ
  pub msg_data : List ℕ

-- The results in a message that came back.
abbrev pub rtn_of : Request → ℤ
rtn_of (get_req key rtn) = rtn
rtn_of (rel_req msqid rtn) = rtn
rtn_of (ftok_req path rtn_key) = pos rtn_key
rtn_of (snd_req msqid send_to msg_data msg_size rtn) = rtn
rtn_of (rcv_req msqid msg_data msg_size rtn) = rtn
rtn_of (other cmd) = pos 0

abbrev pub key_of : Request → ℕ
key_of (ftok_req path rtn_key) = rtn_key
key_of _ = 0

abbrev pub bytes_of : Request → List ℕ
bytes_of (rcv_req msqid msg_data msg_size rtn) = msg_data
bytes_of _ = []

-- The path of the message: a copy of at most 32 characters, with a 0 behind.
abbrev pub path_of : Uninit → List ℕ → List ℕ
path_of u path = set (strncpy u.path path (token_max + 1)) token_max 0

-- A positive result is the number of bytes that are copied to the caller.
abbrev pub hand_over : List ℕ → Request → Outcome (List ℕ)
hand_over buffer r = elim (rtn_of r) [
  | pos n ↦ or_fault (memcpy buffer (bytes_of r) n)
  | negsuc n ↦ done buffer
]

module _ (D : Device) where
  -- ipcfd, msqcnt, the calls of the mutex so far, and what the device holds.
  pub record Process : Type 0 where
    pub ipcfd : ℤ
    pub msqcnt : ℤ
    pub mutex : Lock
    pub device : D.State

  abbrev pub Answer : Type 0
  Answer = ℤ × Process

  unfoldable pub ipc_open : Process → Answer
  ipc_open p =
      if is_negative p.ipcfd
      then (let (fd, s) = D.open_file p.device in
          let p' = record p { ipcfd = fd; device = s; mutex = spin_unlock (spin_lock p.mutex) } in
          if is_negative fd then (err_not_opened, p') else (fd, p'))
      else (p.ipcfd, record p { mutex = spin_unlock (spin_lock p.mutex) })

  unfoldable pub ipc_close : Process → Outcome Answer
  ipc_close p =
      if is_negative p.ipcfd
      then done (err_ok, p)
      else D.close_file p.ipcfd p.device >>= λ s. done (err_ok, record p { device = s })

  -- ioctl(ipcfd, …, &msg)
  abbrev pub request : Request → Process → Outcome (ℤ × Request × Process)
  request r p = D.ioctl p.ipcfd r p.device >>= λ a. done (a.0, a.1, record p { device = a.2 })

  unfoldable pub ipc_ftok : Uninit → Option (List ℕ) → Process → Outcome Answer
  ipc_ftok u none p = done (minus 1, p)
  ipc_ftok u (some path) p =
      let (fd, p') = ipc_open p in
      if is_negative fd
      then done (minus 2, p')
      else request (ftok_req (path_of u path) u.rtn_key) p' >>= λ a.
          if is_negative a.0 then done (minus 3, a.2) else done (to_int16 (key_of a.1), a.2)

  -- A queue more, if the answer is an id.
  abbrev pub counted : ℤ → Process → Process
  counted rtn p = if is_negative rtn then p else record p { msqcnt = increment p.msqcnt }

  unfoldable pub ipc_msg_get : Uninit → ℤ → Process → Outcome Answer
  ipc_msg_get u key p =
      let (fd, p') = ipc_open p in
      if is_negative fd
      then done (minus 1, p')
      else request (get_req (to_uint16 key) u.rtn) p' >>= λ a.
          if is_negative a.0
          then done (minus 2, a.2)
          else done (rtn_of a.1, counted (rtn_of a.1) a.2)

  -- A queue less; the descriptor is closed with the last one.
  unfoldable pub released : Process → Outcome Process
  released p =
      let p' = record p { msqcnt = decrement p.msqcnt } in
      if is_zero p'.msqcnt
      then (D.close_file p.ipcfd p.device >>= λ s. done (record p' { ipcfd = minus 1; device = s }))
      else done p'

  -- ipc_msg_rel does not open the device.
  unfoldable pub ipc_msg_rel : Uninit → ℕ → Process → Outcome Answer
  ipc_msg_rel u msqid p = request (rel_req msqid u.rtn) p >>= λ a.
      if is_negative a.0
      then done (minus 1, a.2)
      else if is_zero (rtn_of a.1)
      then (released a.2 >>= λ p'. done (rtn_of a.1, p'))
      else done (rtn_of a.1, a.2)

  unfoldable pub ipc_msg_snd : Uninit → ℕ → ℕ → Option (List ℕ) → ℕ → Process → Outcome Answer
  ipc_msg_snd u msqid send_to pmsg_data msg_size p =
      let (fd, p') = ipc_open p in
      if is_negative fd
      then done (err_snd_msg, p')
      else if ltb element_size msg_size
      then done (err_sndsize_over_limit, p')
      else elim pmsg_data [
        | none ↦ done (err_snd_msg, p')
        | some bytes ↦ or_fault (memcpy u.msg_data bytes msg_size) >>= λ msg_data.
            request (snd_req msqid send_to msg_data msg_size u.rtn) p' >>= λ a.
            if is_negative a.0 then done (err_snd_msg, a.2) else done (rtn_of a.1, a.2)
      ]

  -- What ipc_msg_rcv gives: the status, the caller's buffer and the process.
  abbrev pub Received : Type 0
  Received = ℤ × Option (List ℕ) × Process

  unfoldable pub ipc_msg_rcv : Uninit → ℕ → Option (List ℕ) → ℕ → Process → Outcome Received
  ipc_msg_rcv u msqid pmsg_data msg_size p =
      let (fd, p') = ipc_open p in
      if is_negative fd then done (err_rcv_msg, pmsg_data, p') else elim pmsg_data [
        | none ↦ done (err_rcv_msg, none, p')
        | some buffer ↦ request (rcv_req msqid u.msg_data msg_size u.rtn) p' >>= λ a.
            if is_negative a.0
            then done (err_rcv_msg, some buffer, a.2)
            else hand_over buffer a.1 >>= λ out. done (rtn_of a.1, some out, a.2)
      ]
