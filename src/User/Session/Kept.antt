-- ===== src/User/Session/Kept.antt =====
-- What the calls of the library keep of a process, from what ipc_open and the ioctl keep of it.
use ipc_msq_multicore.Common.{◌≡◌, false, ℕ, Option, none, some, List, ℤ, negsuc, is_negative, ltb}
use ipc_msq_multicore.Common.Outcome.{or_fault, Ends, Ends-bind, Ends-any, Ends-if, Ends-split}
use ipc_msq_multicore.Common.Bytes.{memcpy}
use ipc_msq_multicore.Msgque.{element_size}
use ipc_msq_multicore.Main.{Request, get_req, rcv_req}
use ipc_msq_multicore.Device.{Device}
use ipc_msq_multicore.User.{
  Uninit, Process, Answer, Received, ipc_open, request, ipc_ftok, ipc_msg_get, ipc_msg_snd,
  ipc_msg_rcv, counted, rtn_of, hand_over, to_uint16,
}

module _ (D : Device) (P : Process D → Type 0) where
  module _ (opened : (p : Process D) → P p → P (ipc_open D p).1)
      (requested : (r : Request) (p : Process D) → P p → Ends (λ a. P a.2) (request D r p)) where
    pub ftok_keeps :
        (u : Uninit) (path : Option (List ℕ)) (p : Process D)
        → P p
        → Ends (λ a. P a.1) (ipc_ftok D u path p)
    unfolding ipc_ftok
    ftok_keeps u none p h = h
    ftok_keeps u (some path) p h =
        let h' = opened p h in
        Ends-if (λ a. P a.1) (is_negative (ipc_open D p).0) _ _ h'
          (Ends-bind (λ a. P a.2) (λ a. P a.1) (request D _ (ipc_open D p).1) _
            (requested _ (ipc_open D p).1 h')
            (λ a k. Ends-if (λ b. P b.1) (is_negative a.0) _ _ k k))

    pub snd_keeps :
        (u : Uninit) (msqid send_to : ℕ) (pmsg_data : Option (List ℕ)) (msg_size : ℕ)
        (p : Process D)
        → P p
        → Ends (λ a. P a.1) (ipc_msg_snd D u msqid send_to pmsg_data msg_size p)
    unfolding ipc_msg_snd
    snd_keeps u msqid send_to none msg_size p h =
        let h' = opened p h in
        Ends-if (λ a. P a.1) (is_negative (ipc_open D p).0) _ _ h'
          (Ends-if (λ a. P a.1) (ltb element_size msg_size) _ _ h' h')
    snd_keeps u msqid send_to (some bytes) msg_size p h =
        let h' = opened p h in
        let copied = or_fault (memcpy u.msg_data bytes msg_size) in
        Ends-if (λ a. P a.1) (is_negative (ipc_open D p).0) _ _ h'
          (Ends-if (λ a. P a.1) (ltb element_size msg_size) _ _ h'
            (Ends-bind (λ _. Unit) (λ a. P a.1) copied _ (Ends-any copied)
              (λ msg_data _.
                Ends-bind (λ a. P a.2) (λ a. P a.1) (request D _ (ipc_open D p).1) _
                  (requested _ (ipc_open D p).1 h')
                  (λ a k. Ends-if (λ b. P b.1) (is_negative a.0) _ _ k k))))

  -- `Q` is what a failure and a result leave of the status as well.
  module _ (Q : Answer D → Type 0) (opened : (p : Process D) → P p → P (ipc_open D p).1)
      (failed : (n : ℕ) (p : Process D) → P p → Q (negsuc n, p)) where
    pub get_leaves :
        (u : Uninit) (key : ℤ) (p : Process D)
        → ((p : Process D) → P p → Ends (λ a. P a.2) (request D (get_req (to_uint16 key) u.rtn) p))
        → ((rtn : ℤ) (p : Process D) → P p → Q (rtn, counted D rtn p))
        → P p
        → Ends Q (ipc_msg_get D u key p)
    unfolding ipc_msg_get
    get_leaves u key p requested got h =
        let h' = opened p h in
        Ends-if Q (is_negative (ipc_open D p).0) _ _ (failed 0 (ipc_open D p).1 h') (
          Ends-bind (λ a. P a.2) Q (request D _ (ipc_open D p).1) _ (requested (ipc_open D p).1 h')
            (λ a k. Ends-if Q (is_negative a.0) _ _ (failed 1 a.2 k) (got (rtn_of a.1) a.2 k)))

    -- `answered` says of the ioctl, where it succeeds, what the call leaves then.
    pub rcv_leaves :
        (u : Uninit) (msqid : ℕ) (pmsg_data : Option (List ℕ)) (msg_size : ℕ) (p : Process D)
        → ((p : Process D)
            → P p
            → Ends
                (λ a. P a.2 × (is_negative a.0 ≡ false → Q (rtn_of a.1, a.2)))
                (request D (rcv_req msqid u.msg_data msg_size u.rtn) p))
        → P p
        → Ends (λ r. Q (r.0, r.2)) (ipc_msg_rcv D u msqid pmsg_data msg_size p)
    unfolding ipc_msg_rcv
    rcv_leaves u msqid none msg_size p answered h =
        let h' = failed 3 (ipc_open D p).1 (opened p h) in
        Ends-if (λ r. Q (r.0, r.2)) (is_negative (ipc_open D p).0) _ _ h' h'
    rcv_leaves u msqid (some buffer) msg_size p answered h =
        let h' = opened p h in
        let R : Received D → Type 0 = λ r. Q (r.0, r.2) in
        Ends-if R (is_negative (ipc_open D p).0) _ _ (failed 3 (ipc_open D p).1 h') (
          Ends-bind _ R (request D _ (ipc_open D p).1) _ (answered (ipc_open D p).1 h') (λ a k.
            Ends-split R (is_negative a.0) _ _ (λ _. failed 3 a.2 k.0)
              (λ ok.
                Ends-bind (λ _. Unit) R (hand_over buffer a.1) _ (Ends-any (hand_over buffer a.1))
                  (λ out _. k.1 ok))))
