-- ===== src/App/Blocks.antt =====
-- The demo over the character device whose table has no used queue, which is what init leaves.
use ipc_msq_multicore.Common.{ℕ, suc, ◌≡◌, refl, true, Option, none, some, List, ℤ, is_negative}
use ipc_msq_multicore.Common.Outcome.{
  done, Ends, Ends-bind, Ends-split, Ends-done, Ends-weaken, Ends-both,
}
use ipc_msq_multicore.Main.{Env}
use ipc_msq_multicore.Main.Calls.{IsQuiet}
use ipc_msq_multicore.Main.Idle.{IsIdle}
use ipc_msq_multicore.Device.{Device}
use ipc_msq_multicore.User.{
  Process, Answer, ipc_open, request, ipc_ftok, ipc_msg_get, ipc_msg_rel, ipc_msg_snd, ipc_msg_rcv,
  Uninit,
}
use ipc_msq_multicore.User.Driver.{driver_device}
use ipc_msq_multicore.App.{
  Locals, round, loop, finish, main, demo_path, to_uint32, ask_jpg, send_to_core1, request_size,
  msg_sizeof,
}
use ipc_msq_multicore.User.Session.Kept.{ftok_keeps, snd_keeps, get_leaves, rcv_leaves}
use ipc_msq_multicore.App.Ready.{
  IsReady, request-rcv_fails, request-rel_stops, ipc_open-IsReady, request-IsReady, counted-IsReady,
  first_open,
}

module _ (e : Env) (ret : ℤ) where
  abbrev D : Device
  D = driver_device e true ret

  IsRefused : Answer D → Type 0
  IsRefused a = (is_negative a.0 ≡ true) × IsReady e ret a.1

  rcv-IsRefused :
      (u : Uninit) (msqid : ℕ) (pmsg_data : Option (List ℕ)) (msg_size : ℕ) (p : Process D)
      → IsReady e ret p
      → Ends (λ r. IsRefused (r.0, r.2)) (ipc_msg_rcv D u msqid pmsg_data msg_size p)
  unfolding IsRefused
  rcv-IsRefused u msqid pmsg_data msg_size p =
      rcv_leaves D (IsReady e ret) IsRefused (ipc_open-IsReady e ret) (λ i p' k. (refl, k)) u msqid
        pmsg_data msg_size p
        (λ p' h.
          Ends-weaken (λ a. IsReady e ret a.2 × (is_negative a.0 ≡ true)) _ (request D _ p')
            (λ a k. (k.0, λ ok. absurd (cc (k.1, ok))))
            (Ends-both (λ a. IsReady e ret a.2) (λ a. is_negative a.0 ≡ true) (request D _ p')
              (request-IsReady e ret _ p' h)
              (request-rcv_fails e ret msqid u.msg_data msg_size u.rtn p' h)))

  round-IsRefused :
      (l : Locals) (i : ℕ) (msqid : ℤ) (msg : List ℕ) (p : Process D)
      → IsReady e ret p
      → Ends (λ r. IsRefused (r.0, r.2)) (round D l i msqid msg p)
  round-IsRefused l i msqid msg p h =
      Ends-bind (λ a. IsReady e ret a.1) (λ r. IsRefused (r.0, r.2))
        (ipc_msg_snd D (l.snd i) (to_uint32 msqid) send_to_core1 (some (ask_jpg msg)) request_size
          p)
        _
        (snd_keeps D (IsReady e ret) (ipc_open-IsReady e ret) (request-IsReady e ret) (l.snd i)
          (to_uint32 msqid) send_to_core1 (some (ask_jpg msg)) request_size p h)
        (λ a k. rcv-IsRefused (l.rcv i) (to_uint32 msqid) (some (ask_jpg msg)) msg_sizeof a.1 k)

  Ended : Option (Process D) → Type 0
  Ended none = ⊥
  Ended (some p) = IsReady e ret p

  -- One round is enough for the loop.
  loop-Ended :
      (l : Locals) (n i : ℕ) (msqid : ℤ) (msg : List ℕ) (p : Process D)
      → IsReady e ret p
      → Ends Ended (loop D l (suc n) i msqid msg p)
  unfolding loop IsRefused Ended
  loop-Ended l n i msqid msg p h =
      Ends-bind (λ r. IsRefused (r.0, r.2)) Ended (round D l i msqid msg p) _
        (round-IsRefused l i msqid msg p h) (λ r k. rw (k.0) k.1)

  finish_stops :
      (l : Locals) (msqid : ℤ) (o : Option (Process D))
      → e.copy_in ≡ true
      → Ended o
      → Ends (λ _. ⊥) (finish D l msqid o)
  unfolding Ended ipc_msg_rel
  finish_stops l msqid none read h = h
  finish_stops l msqid (some p) read h =
      Ends-bind (λ _. ⊥) (λ _. ⊥) (ipc_msg_rel D l.rel (to_uint32 msqid) p) _
        (Ends-bind (λ _. ⊥) (λ _. ⊥) (request D _ p) _
          (request-rel_stops e ret (to_uint32 msqid) l.rel.rtn p read h) (λ a no. absurd no))
        (λ a no. absurd no)

  demo_stops :
      (l : Locals) (n : ℕ) (msg : List ℕ) (p : Process D)
      → e.copy_in ≡ true
      → is_negative p.ipcfd ≡ true
      → IsQuiet p.device.driver
      → Ends (λ _. ⊥) (main D l (suc n) msg p)
  unfolding main
  demo_stops l n msg p read fresh h =
      let (opened, ready) = first_open e ret p fresh h in
      Ends-split (λ _. ⊥) (is_negative (ipc_open D p).0) _ _
        (λ failed. absurd (cc (opened, failed)))
        (λ _.
          Ends-bind (λ a. IsReady e ret a.1) (λ _. ⊥)
            (ipc_ftok D l.ftok (some demo_path) (ipc_open D p).1) _
            (ftok_keeps D (IsReady e ret) (ipc_open-IsReady e ret) (request-IsReady e ret) l.ftok
              (some demo_path) (ipc_open D p).1 ready)
            (λ key k.
              Ends-bind (λ a. IsReady e ret a.1) (λ _. ⊥) (ipc_msg_get D l.get key.0 key.1) _
                (get_leaves D (IsReady e ret) (λ a. IsReady e ret a.1) (ipc_open-IsReady e ret)
                  (λ i p' k'. k') l.get key.0 key.1 (request-IsReady e ret _)
                  (counted-IsReady e ret) k)
                (λ id k'.
                  Ends-bind Ended (λ _. ⊥) (loop D l (suc n) 0 id.0 msg id.1) _
                    (loop-Ended l n 0 id.0 msg id.1 k') (λ o k''. finish_stops l id.0 o read k''))))

-- On the character device without a used queue, as ipc_msgque_init leaves it, the demo of a process
-- that has no descriptor yet does not end, however many rounds of its loop it is given beyond the first,
-- if the file can be allocated and the messages of the process be read: main does not return.
pub demo_never_ends :
    (e : Env) (ret : ℤ) (l : Locals) (n : ℕ) (msg : List ℕ) (p : Process (driver_device e true ret))
    → e.copy_in ≡ true
    → is_negative p.ipcfd ≡ true
    → IsIdle p.device.driver.sys.kernel
    → ¬ (
        (out : Option (Answer (driver_device e true ret))) × (main
            (driver_device e true ret)
            l
            (suc n)
            msg
            p
          ≡ done out))
demo_never_ends e ret l n msg p read fresh h (out, ends) =
    Ends-done (λ _. ⊥) (demo_stops e ret l n msg p read fresh h) ends
