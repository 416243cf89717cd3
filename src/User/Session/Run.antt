-- ===== src/User/Session/Run.antt =====
-- The theorem on sequences of calls of the library.
use ipc_msq_multicore.Common.{
  ℕ, zero, suc, ◌+◌, ◌^◌, ◌<◌, ◌≤◌, ap, ◌∙◌, arith, length, pos, negsuc, is_zero, Bool-cases, inl,
  inr, ◌≡◌, refl, List, [], ◌∷◌, ℤ,
}
use ipc_msq_multicore.Common.Outcome.{done, Ends, Ends-bind, Ends-done}
use ipc_msq_multicore.Device.{Device, IsLawful}
use ipc_msq_multicore.User.{Process, ipc_msg_rcv, increment, decrement}
use ipc_msq_multicore.User.Session.{
  Call, ftok, get, rel, snd, rcv, account, tally, more, less, owned, total, step, run, IsConnected,
  Keeps, Accounts,
}
use ipc_msq_multicore.User.Session.Calls.{ftok-Keeps, get-Keeps, rel-Keeps, snd-Keeps, rcv-Keeps}

abbrev pub size : ℤ → ℕ
size (pos n) = n
size (negsuc n) = suc n

increment-more :
    (n : ℤ) → size n + 1 < 2 ^ 31 → (increment n ≡ more n) × (size (more n) ≤ size n + 1)
increment-more (pos n) h = (ground arith, omega arith)
increment-more (negsuc zero) h = (refl, omega arith)
increment-more (negsuc (suc n)) h = (refl, omega arith)

decrement-less :
    (n : ℤ) → size n + 1 < 2 ^ 31 → (decrement n ≡ less n) × (size (less n) ≤ size n + 1)
decrement-less (pos zero) h = (refl, omega arith)
decrement-less (pos (suc n)) h = (refl, omega arith)
decrement-less (negsuc n) h = (ground arith, omega arith)

account-owned :
    (c : Call) (ret n : ℤ)
    → size n + 1 < 2 ^ 31
    → (account c ret n ≡ owned c ret n) × (size (owned c ret n) ≤ size n + 1)
account-owned (get u key) (pos i) n h = increment-more n h
account-owned (get u key) (negsuc i) n h = (refl, omega arith)
account-owned (rel u msqid) ret n h = elim (Bool-cases (is_zero ret)) [
  | inl hit ↦ rw hit (decrement-less n h)
  | inr miss ↦ rw miss (refl, omega arith)
]
account-owned (ftok u path) ret n h = (refl, omega arith)
account-owned (snd u msqid send_to pmsg_data msg_size) ret n h = (refl, omega arith)
account-owned (rcv u msqid pmsg_data msg_size) ret n h = (refl, omega arith)

tally-total :
    (calls : List Call) (rets : List ℤ) (n : ℤ)
    → size n + length calls < 2 ^ 31
    → tally calls rets n ≡ total calls rets n
unfolding tally total
tally-total [] rets n h = refl
tally-total (c ∷ calls) [] n h = refl
tally-total (c ∷ calls) (ret ∷ rets) n h =
    let (same, near) = account-owned c ret n (omega (arith, h)) in
    ap (tally calls rets) same ∙ tally-total calls rets (owned c ret n) (omega (arith, h, near))

module _ (D : Device) (law : IsLawful D) where
  step-Keeps : (n : ℤ) (c : Call) (p : Process D) → Keeps D n p → Ends (Accounts D c n) (step D c p)
  unfolding step
  step-Keeps n (ftok u path) p h = ftok-Keeps D law n u path p h
  step-Keeps n (get u key) p h = get-Keeps D law n u key p h
  step-Keeps n (rel u msqid) p h = rel-Keeps D law n u msqid p h
  step-Keeps n (snd u msqid send_to pmsg_data msg_size) p h =
      snd-Keeps D law n u msqid send_to pmsg_data msg_size p h
  step-Keeps n (rcv u msqid pmsg_data msg_size) p h =
      Ends-bind (λ r. Keeps D n r.2) (λ a. Keeps D n a.1)
        (ipc_msg_rcv D u msqid pmsg_data msg_size p) _
        (rcv-Keeps D law n u msqid pmsg_data msg_size p h) (λ r k. k)

  run-Keeps :
      (calls : List Call) (n : ℤ) (p : Process D)
      → Keeps D n p
      → Ends (λ r. Keeps D (tally calls r.0 n) r.1) (run D calls p)
  unfolding run tally
  run-Keeps [] n p h = h
  run-Keeps (c ∷ calls) n p h =
      Ends-bind (Accounts D c n) (λ r. Keeps D (tally (c ∷ calls) r.0 n) r.1) (step D c p) _
        (step-Keeps n c p h)
        (λ a k.
          Ends-bind (λ r. Keeps D (tally calls r.0 (account c a.0 n)) r.1)
            (λ r. Keeps D (tally (c ∷ calls) r.0 n) r.1) (run D calls a.1) _
            (run-Keeps calls (account c a.0 n) a.1 k) (λ r k'. k'))

  -- On any device that treats descriptors as documented, a sequence of calls of ipc_ftok, ipc_msg_get,
  -- ipc_msg_rel, ipc_msg_snd and ipc_msg_rcv that returns keeps the descriptor negative or open and the
  -- mutex free, and the count of queues is what the results tell: one more for each id got, one less for
  -- each queue released. This is if the size of the count before and the number of calls are together
  -- below 2 ^ 31, so that the int does not overflow.
  pub session_accounts :
      (calls : List Call) (p p' : Process D) (rets : List ℤ)
      → IsConnected D p
      → run D calls p ≡ done (rets, p')
      → size p.msqcnt + length calls < 2 ^ 31
      → IsConnected D p' × (p'.msqcnt ≡ total calls rets p.msqcnt)
  session_accounts calls p p' rets h e few =
      let k =
        Ends-done (λ r. Keeps D (tally calls r.0 p.msqcnt) r.1)
          (run-Keeps calls p.msqcnt p (record { connected = h; count = refl })) e in
      (k.connected, k.count ∙ tally-total calls rets p.msqcnt few)
