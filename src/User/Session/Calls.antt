-- ===== src/User/Session/Calls.antt =====
-- What each call of the library keeps of the descriptor, the mutex and the count of queues.
use ipc_msq_multicore.Common.{
  ℕ, ◌≡◌, ap, ◌∙◌, Option, List, arith, ℤ, pos, negsuc, is_negative, is_zero, if◌then◌else◌,
}
use ipc_msq_multicore.Common.Outcome.{
  Ends, Ends-bind, Ends-any, Ends-if, Ends-split, Ends-intro, Ends-weaken,
}
use ipc_msq_multicore.Main.{Request}
use ipc_msq_multicore.Device.{Device, IsLawful}
use ipc_msq_multicore.User.{
  Uninit, Process, ipc_open, request, ipc_ftok, ipc_msg_get, released, ipc_msg_rel, ipc_msg_snd,
  ipc_msg_rcv, increment, decrement, counted, rtn_of,
}
use ipc_msq_multicore.User.Session.Kept.{ftok_keeps, snd_keeps, get_leaves, rcv_leaves}
use ipc_msq_multicore.User.Session.{get, rel, Keeps, Accounts}

module _ (D : Device) (law : IsLawful D) where
  ipc_open-Keeps : (n : ℤ) (p : Process D) → Keeps D n p → Keeps D n (ipc_open D p).1
  unfolding ipc_open
  ipc_open-Keeps n p h = ground (arith, law.opens p.device)

  request-Keeps :
      (n : ℤ) (r : Request) (p : Process D)
      → Keeps D n p
      → Ends (λ a. Keeps D n a.2) (request D r p)
  request-Keeps n r p h =
      Ends-bind (λ a. D.is_open a.2 p.ipcfd ≡ D.is_open p.device p.ipcfd) (λ a. Keeps D n a.2)
        (D.ioctl p.ipcfd r p.device) _
        (Ends-intro _ (D.ioctl p.ipcfd r p.device)
          (λ a e. law.keeps p.ipcfd p.ipcfd r a.1 a.0 p.device a.2 e))
        (λ a same. record {
          connected = record {
            open_fd = λ valid. same ∙ h.connected.open_fd valid;
            mutex_free = h.connected.mutex_free;
          };
          count = h.count;
        })

  pub ftok-Keeps :
      (n : ℤ) (u : Uninit) (path : Option (List ℕ)) (p : Process D)
      → Keeps D n p
      → Ends (λ a. Keeps D n a.1) (ipc_ftok D u path p)
  ftok-Keeps n = ftok_keeps D (Keeps D n) (ipc_open-Keeps n) (request-Keeps n)

  counted-Keeps :
      (n rtn : ℤ) (p : Process D)
      → Keeps D n p
      → Keeps D (if is_negative rtn then n else increment n) (counted D rtn p)
  counted-Keeps n (pos i) p h = record {
    connected = record { open_fd = h.connected.open_fd; mutex_free = h.connected.mutex_free };
    count = ap increment h.count;
  }
  counted-Keeps n (negsuc i) p h = h

  pub get-Keeps :
      (n : ℤ) (u : Uninit) (key : ℤ) (p : Process D)
      → Keeps D n p
      → Ends (Accounts D (get u key) n) (ipc_msg_get D u key p)
  get-Keeps n u key p h =
      get_leaves D (Keeps D n) (Accounts D (get u key) n) (ipc_open-Keeps n) (λ i p' k. k) u key p
        (request-Keeps n _) (counted-Keeps n) h

  released-Keeps :
      (n : ℤ) (p : Process D) → Keeps D n p → Ends (Keeps D (decrement n)) (released D p)
  unfolding released
  released-Keeps n p h =
      Ends-if (Keeps D (decrement n)) (is_zero (decrement p.msqcnt)) _ _
        (Ends-bind (λ _. Unit) (Keeps D (decrement n)) (D.close_file p.ipcfd p.device) _
          (Ends-any (D.close_file p.ipcfd p.device))
          (λ s _. record {
            connected = record {
              open_fd = λ neg. absurd (cc);
              mutex_free = h.connected.mutex_free;
            };
            count = ap decrement h.count;
          }))
        (record {
          connected = record { open_fd = h.connected.open_fd; mutex_free = h.connected.mutex_free };
          count = ap decrement h.count;
        })

  pub rel-Keeps :
      (n : ℤ) (u : Uninit) (msqid : ℕ) (p : Process D)
      → Keeps D n p
      → Ends (Accounts D (rel u msqid) n) (ipc_msg_rel D u msqid p)
  unfolding ipc_msg_rel
  rel-Keeps n u msqid p h =
      let P = Accounts D (rel u msqid) n in
      Ends-bind (λ a. Keeps D n a.2) P (request D _ p) _ (request-Keeps n _ p h)
        (λ a k. Ends-if P (is_negative a.0) _ _ k (
          Ends-split P (is_zero (rtn_of a.1)) _ _
            (λ hit.
              Ends-bind (Keeps D (decrement n)) P (released D a.2) _ (released-Keeps n a.2 k)
                (λ p' k'. rw hit k'))
            (λ miss. rw miss k)))

  pub snd-Keeps :
      (n : ℤ) (u : Uninit) (msqid send_to : ℕ) (pmsg_data : Option (List ℕ)) (msg_size : ℕ)
      (p : Process D)
      → Keeps D n p
      → Ends (λ a. Keeps D n a.1) (ipc_msg_snd D u msqid send_to pmsg_data msg_size p)
  snd-Keeps n = snd_keeps D (Keeps D n) (ipc_open-Keeps n) (request-Keeps n)

  pub rcv-Keeps :
      (n : ℤ) (u : Uninit) (msqid : ℕ) (pmsg_data : Option (List ℕ)) (msg_size : ℕ) (p : Process D)
      → Keeps D n p
      → Ends (λ r. Keeps D n r.2) (ipc_msg_rcv D u msqid pmsg_data msg_size p)
  rcv-Keeps n u msqid pmsg_data msg_size p h =
      rcv_leaves D (Keeps D n) (λ a. Keeps D n a.1) (ipc_open-Keeps n) (λ i p' k. k) u msqid
        pmsg_data msg_size p
        (λ p' h'.
          Ends-weaken (λ a. Keeps D n a.2) _ (request D _ p') (λ a k. (k, λ _. k))
            (request-Keeps n _ p' h'))
        h
