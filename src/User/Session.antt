-- ===== src/User/Session.antt =====
-- Sequences of calls of the library, and what they keep of the descriptor and of the count of queues.
pub mod Kept
pub mod Calls
pub mod Run
use ipc_msq_multicore.Common.{
  zero, suc, ℕ, ◌≡◌, refl, sym, ap, ◌∙◌, Bool, true, false, Option, none, some, List, [], ◌∷◌,
  arith, ℤ, pos, negsuc, is_negative, is_zero, if◌then◌else◌, ltb, Bool-cases, inl, inr,
}
use ipc_msq_multicore.Common.Outcome.{
  Outcome, done, fault, blocked, ◌>>=◌, or_fault, Ends, Ends-bind, Ends-any, Ends-done, Ends-if,
  Ends-split, Ends-intro, Ends-weaken, LockState, free, lock_state,
}
use ipc_msq_multicore.Common.Bytes.{memcpy}
use ipc_msq_multicore.Msgque.{element_size}
use ipc_msq_multicore.Main.{Request}
use ipc_msq_multicore.Device.{Device, IsLawful}
use ipc_msq_multicore.User.{
  Uninit, Process, Answer, ipc_open, ipc_close, request, ipc_ftok, ipc_msg_get, released,
  ipc_msg_rel, ipc_msg_snd, ipc_msg_rcv, increment, decrement, counted, rtn_of, hand_over,
}

-- A call of the library, without ipc_open and ipc_close.
pub data Call : Type 0 where
  ftok : Uninit → Option (List ℕ) → Call
  get : Uninit → ℤ → Call
  rel : Uninit → ℕ → Call
  snd : Uninit → ℕ → ℕ → Option (List ℕ) → ℕ → Call
  rcv : Uninit → ℕ → Option (List ℕ) → ℕ → Call

-- How the result of a call changes the number of queues.
abbrev pub account : Call → ℤ → ℤ → ℤ
account (get u key) ret n = if is_negative ret then n else increment n
account (rel u msqid) ret n = if is_zero ret then decrement n else n
account _ ret n = n

unfoldable pub tally : List Call → List ℤ → ℤ → ℤ
tally (c ∷ calls) (ret ∷ rets) n = tally calls rets (account c ret n)
tally _ _ n = n

-- One more and one less, without a bound.
abbrev pub more : ℤ → ℤ
more (pos n) = pos (suc n)
more (negsuc zero) = pos 0
more (negsuc (suc n)) = negsuc n

abbrev pub less : ℤ → ℤ
less (pos zero) = negsuc 0
less (pos (suc n)) = pos n
less (negsuc n) = negsuc (suc n)

-- The number of queues got and not released, as the results tell it, from `n` on.
abbrev pub owned : Call → ℤ → ℤ → ℤ
owned (get u key) ret n = if is_negative ret then n else more n
owned (rel u msqid) ret n = if is_zero ret then less n else n
owned _ ret n = n

unfoldable pub total : List Call → List ℤ → ℤ → ℤ
total (c ∷ calls) (ret ∷ rets) n = total calls rets (owned c ret n)
total _ _ n = n

module _ (D : Device) where
  unfoldable pub step : Call → Process D → Outcome (Answer D)
  step (ftok u path) p = ipc_ftok D u path p
  step (get u key) p = ipc_msg_get D u key p
  step (rel u msqid) p = ipc_msg_rel D u msqid p
  step (snd u msqid send_to pmsg_data msg_size) p =
      ipc_msg_snd D u msqid send_to pmsg_data msg_size p
  step (rcv u msqid pmsg_data msg_size) p =
      ipc_msg_rcv D u msqid pmsg_data msg_size p >>= λ r. done (r.0, r.2)

  -- The results of the calls, in their order, and the process.
  unfoldable pub run : List Call → Process D → Outcome (List ℤ × Process D)
  run [] p = done ([], p)
  run (c ∷ calls) p = step c p >>= λ a. run calls a.1 >>= λ r. done (a.0 ∷ r.0, r.1)

  -- The descriptor is negative or open, and no call holds the mutex.
  pub record IsConnected (p : Process D) : Type 0 where
    pub open_fd : is_negative p.ipcfd ≡ false → D.is_open p.device p.ipcfd ≡ true
    pub mutex_free : lock_state p.mutex ≡ free

  -- What a call keeps: the descriptor as above, and the count of queues, which becomes `n`.
  pub record Keeps (n : ℤ) (p : Process D) : Type 0 where
    pub connected : IsConnected p
    pub count : p.msqcnt ≡ n

  -- What a call leaves, with the count that its result tells.
  abbrev pub Accounts : Call → ℤ → Answer D → Type 0
  Accounts c n a = Keeps (account c a.0 n) a.1
