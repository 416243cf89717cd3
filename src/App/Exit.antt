-- ===== src/App/Exit.antt =====
-- What the demo leaves when it ends.
use ipc_msq_multicore.Common.{ℕ, ◌≡◌, true, false, Option, none, some, List, ℤ, is_negative, arith}
use ipc_msq_multicore.Common.Outcome.{
  done, Ends, Ends-bind, Ends-any, Ends-split, Ends-done, Ends-intro,
}
use ipc_msq_multicore.Device.{Device, IsLawful}
use ipc_msq_multicore.User.{
  Process, Answer, ipc_open, ipc_close, ipc_ftok, ipc_msg_get, ipc_msg_rel,
}
use ipc_msq_multicore.App.{Locals, loop, finish, main, demo_path, to_uint32}

module _ (D : Device) (law : IsLawful D) where
  -- No descriptor that the process knows is open.
  abbrev pub IsShut : Process D → Type 0
  IsShut p = is_negative p.ipcfd ≡ false → D.is_open p.device p.ipcfd ≡ false

  abbrev OptionEnds : Option (Answer D) → Type 0
  OptionEnds none = Unit
  OptionEnds (some a) = IsShut a.1

  close-IsShut : (p : Process D) → Ends (λ a. IsShut a.1) (ipc_close D p)
  unfolding ipc_close
  close-IsShut p =
      Ends-split (λ a. IsShut a.1) (is_negative p.ipcfd) _ _ (λ hit valid. absurd (cc (hit, valid)))
        (λ _.
          Ends-bind (λ s. D.is_open s p.ipcfd ≡ false) (λ a. IsShut a.1)
            (D.close_file p.ipcfd p.device) _
            (Ends-intro _ (D.close_file p.ipcfd p.device) (λ s e. law.closes p.ipcfd p.device s e))
            (λ s shut _. shut))

  failed_open-IsShut :
      (p : Process D) → is_negative (ipc_open D p).0 ≡ true → IsShut (ipc_open D p).1
  unfolding ipc_open
  failed_open-IsShut p h = ground arith

  finish-IsShut :
      (l : Locals) (msqid : ℤ) (o : Option (Process D)) → Ends OptionEnds (finish D l msqid o)
  finish-IsShut l msqid none = tt
  finish-IsShut l msqid (some p) =
      Ends-bind (λ _. Unit) OptionEnds (ipc_msg_rel D l.rel (to_uint32 msqid) p) _
        (Ends-any (ipc_msg_rel D l.rel (to_uint32 msqid) p))
        (λ a _.
          Ends-bind (λ b. IsShut b.1) OptionEnds (ipc_close D a.1) _ (close-IsShut a.1)
            (λ b shut. shut))

  main-IsShut :
      (l : Locals) (n : ℕ) (msg : List ℕ) (p : Process D) → Ends OptionEnds (main D l n msg p)
  unfolding main
  main-IsShut l n msg p =
      Ends-split OptionEnds (is_negative (ipc_open D p).0) _ _ (λ hit. failed_open-IsShut p hit)
        (λ _.
          Ends-bind (λ _. Unit) OptionEnds (ipc_ftok D l.ftok (some demo_path) (ipc_open D p).1) _
            (Ends-any (ipc_ftok D l.ftok (some demo_path) (ipc_open D p).1))
            (λ key _.
              Ends-bind (λ _. Unit) OptionEnds (ipc_msg_get D l.get key.0 key.1) _
                (Ends-any (ipc_msg_get D l.get key.0 key.1))
                (λ id _.
                  Ends-bind (λ _. Unit) OptionEnds (loop D l n 0 id.0 msg id.1) _
                    (Ends-any (loop D l n 0 id.0 msg id.1)) (λ o _. finish-IsShut l id.0 o))))

  -- On a device that treats descriptors as documented, when the demo has ended, with whatever status,
  -- the descriptor that the process still knows is not open, if it is not negative.
  pub demo_closes :
      (l : Locals) (n : ℕ) (msg : List ℕ) (p p' : Process D) (status : ℤ)
      → main D l n msg p ≡ done (some (status, p'))
      → is_negative p'.ipcfd ≡ false
      → D.is_open p'.device p'.ipcfd ≡ false
  demo_closes l n msg p p' status e = Ends-done OptionEnds (main-IsShut l n msg p) e
