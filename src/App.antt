-- ===== src/App.antt =====
-- user_space/apptest/test.c: the demo, over the library and any device. `ret`, which nothing declares,
-- is read as an int, and bcontinue as the loop's own.
pub mod Exit
pub mod Rounds
pub mod Ready
pub mod Blocks
mod Tests
use ipc_msq_multicore.Common.{
  ℕ, zero, suc, ◌+◌, ◌*◌, ◌^◌, ◌-◌, Option, none, some, List, [], ◌∷◌, ◌++◌, replicate, drop,
  if◌then◌else◌, ℤ, pos, negsuc, minus, is_negative, u32,
}
use ipc_msq_multicore.Common.Outcome.{Outcome, done, ◌>>=◌}
use ipc_msq_multicore.Device.{Device}
use ipc_msq_multicore.User.{
  Uninit, Process, Answer, Received, ipc_open, ipc_close, ipc_ftok, ipc_msg_get, ipc_msg_rel,
  ipc_msg_snd, ipc_msg_rcv,
}

-- "demoipc"
abbrev pub demo_path : List ℕ
demo_path = 100 ∷ 101 ∷ 109 ∷ 111 ∷ 105 ∷ 112 ∷ 99 ∷ []

-- IPC_SENDTO_CORE1
abbrev pub send_to_core1 : ℕ
send_to_core1 = 1

-- sizeof(msg): eight words.
abbrev pub msg_sizeof : ℕ
msg_sizeof = 8 * 4

abbrev pub request_size : ℕ
request_size = 4

-- msg[0] = IPC_GET_JPG
abbrev pub ask_jpg : List ℕ → List ℕ
ask_jpg msg = replicate 4 0 ++ drop 4 msg

-- An INT32 where a UINT32 is expected.
abbrev pub to_uint32 : ℤ → ℕ
to_uint32 (pos n) = u32 n
to_uint32 (negsuc n) = 2 ^ 32 - 1 - u32 n

abbrev pub buffer_of : List ℕ → Option (List ℕ) → List ℕ
buffer_of msg none = msg
buffer_of msg (some out) = out

-- The local messages of the library's calls before they are filled, by the call, and in the loop by the round.
pub record Locals : Type 0 where
  pub ftok : Uninit
  pub get : Uninit
  pub snd : ℕ → Uninit
  pub rcv : ℕ → Uninit
  pub rel : Uninit

module _ (D : Device) where
  -- Round `i` of the loop: the result of sending is not read.
  abbrev pub round : Locals → ℕ → ℤ → List ℕ → Process D → Outcome (Received D)
  round l i msqid msg p =
      ipc_msg_snd D (l.snd i) (to_uint32 msqid) send_to_core1 (some (ask_jpg msg)) request_size p
      >>= λ a. ipc_msg_rcv D (l.rcv i) (to_uint32 msqid) (some (ask_jpg msg)) msg_sizeof a.1

  -- At most `n` rounds from round `i` on: the loop ends when a message cannot be received, and there is
  -- no result when it has not ended by then.
  unfoldable pub loop : Locals → (n i : ℕ) → ℤ → List ℕ → Process D → Outcome (Option (Process D))
  loop l zero i msqid msg p = done none
  loop l (suc n) i msqid msg p = round l i msqid msg p >>= λ r.
      if is_negative r.0
      then done (some r.2)
      else loop l n (suc i) msqid (buffer_of (ask_jpg msg) r.1) r.2

  -- The statements behind the loop.
  abbrev pub finish : Locals → ℤ → Option (Process D) → Outcome (Option (Answer D))
  finish l msqid none = done none
  finish l msqid (some p) = ipc_msg_rel D l.rel (to_uint32 msqid) p >>= λ a.
      ipc_close D a.1 >>= λ b. done (some (pos 0, b.1))

  -- The exit status and the process, or none when the loop has not ended after `n` rounds.
  unfoldable pub main : Locals → ℕ → List ℕ → Process D → Outcome (Option (Answer D))
  main l n msg p =
      let (fd, p') = ipc_open D p in
      if is_negative fd
      then done (some (minus 1, p'))
      else ipc_ftok D l.ftok (some demo_path) p' >>= λ key.
          ipc_msg_get D l.get key.0 key.1 >>= λ id.
          loop l n 0 id.0 msg id.1 >>= λ o. finish l id.0 o
