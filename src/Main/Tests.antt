-- ===== src/Main/Tests.antt =====
-- The calls of ipc_ioctl and the handler of the inter-core events at concrete drivers.
use ipc_msq_multicore.Common.{
  ◌≡◌, refl, true, false, some, List, [], ◌∷◌, ℕ, pos, All-replicate, is_negative, replicate, none,
  Option, if◌then◌else◌, ◌==◌, All, arith, ◌++◌, ◌⊎◌, ℤ,
}
use ipc_msq_multicore.Common.Bytes.{cstr, strncpy}
use ipc_msq_multicore.Common.Outcome.{
  done, blocked, acquire, release, lock_state, free, on_build, smp,
}
use ipc_msq_multicore.Msqinfo.{Msqinfo}
use ipc_msq_multicore.Table.{get_id_by_key, get_que_by_id, find_key, ftok, fill_token}
use ipc_msq_multicore.Api.{System}
use ipc_msq_multicore.Main.{
  Driver, release_file, Env, Request, Reply, get_req, rel_req, ftok_req, ioctl, run, handle,
  ioctl_get, ioctl_ftok,
}
use ipc_msq_multicore.Main.Idle.{IsIdle, IsFree, free_table-IsIdle}
use ipc_msq_multicore.Main.Calls.{no_queue_ever}
use ipc_msq_multicore.Main.Release.{release_never_returns}
use ipc_msq_multicore.Main.Closing.{HasTable, Kept, Unreleased, file_lock, release_file_returns}
use ipc_msq_multicore.Main.Delivery.{
  Arrives, Reads, lock_after, handler_delivers, reader_one_behind,
}
use ipc_msq_multicore.Msgque.{Msgque}
use ipc_msq_multicore.Msgque.Ring.{IsValid}
use ipc_msq_multicore.Msgque.Fifo.{contents}
use ipc_msq_multicore.Table.Tokens.{IsString}
use ipc_msq_multicore.Main.Handler.{
  CcGetCmd, handle_func, get_noncache_addr, Around, core_handler, seen, handler_ignores_device,
}
use ipc_msq_multicore.Cc.{Dev, cpu1, send_ack}
use ipc_msq_multicore.Samples.{
  raw_queue, one_message, one_message-IsValid, blank_slot, two_messages, kernel_with, info_with,
  on_cpu2, soc, ab_key, ab_token, no_token, driver_at, env,
}

abbrev calls : List (Env × Request)
calls = (env, ftok_req (97 ∷ 98 ∷ 0 ∷ []) 0) ∷ (env, get_req ab_key (pos 0)) ∷ []

raw-IsIdle : IsIdle (kernel_with raw_queue)
raw-IsIdle = free_table-IsIdle (kernel_with raw_queue) refl (All-replicate IsFree 12 raw_queue refl)

abbrev after_calls : Driver
after_calls = driver_at (record (kernel_with raw_queue) {
  info =
      some (record (info_with raw_queue) { tokens = ab_token ∷ ab_token ∷ replicate 10 no_token });
  lock = release ∷ acquire ∷ [];
})

calls-run : run calls (driver_at (kernel_with raw_queue)) ≡ done after_calls
unfolding run ioctl handle ioctl_get ioctl_ftok get_id_by_key find_key ftok fill_token cstr strncpy
calls-run = refl

no_queue_ever_example :
    ((key : ℕ) → is_negative (get_id_by_key key after_calls.sys.kernel) ≡ true)
    × ((msqid : ℕ) → get_que_by_id msqid after_calls.sys.kernel ≡ none)
no_queue_ever_example =
    no_queue_ever calls (driver_at (kernel_with raw_queue)) after_calls raw-IsIdle calls-run

release_never_returns_example : ¬ (
    (out : Reply) × (ioctl env (rel_req 0 (pos 0)) (driver_at (kernel_with two_messages))
      ≡ done out))
release_never_returns_example =
    release_never_returns env 0 (pos 0) (driver_at (kernel_with two_messages)) 0 refl refl

-- A command for the queue of `ab_key` with four bytes at the mapped address.
abbrev around : Around
around = record {
  ctrl = record { flags = replicate 12 true; shm_phy_base = 0x9000; shm_non_cache_base = 0x1000 };
  shared = λ a. if a == 0x1004 then 1 ∷ 2 ∷ 3 ∷ 4 ∷ [] else [];
  cmd = record { opcode = ab_key; data_addr = 0x9004; data_size = 4 };
  rcvmsg = record { size = 0; bytes = replicate 12 0 };
}

abbrev system_at : Option Dev → System
system_at dev = record { kernel = kernel_with two_messages; dev = dev }

handler_ignores_device_example :
    seen (
      core_handler soc
        (record { buf1 = 0; buf2 = 4; buf3 = 8 })
        cpu1
        around
        (system_at (some on_cpu2)))
    ≡ seen (core_handler soc (record { buf1 = 0; buf2 = 4; buf3 = 8 }) cpu1 around (system_at none))
handler_ignores_device_example =
    handler_ignores_device soc (record { buf1 = 0; buf2 = 4; buf3 = 8 }) cpu1 around
      (system_at none) (some on_cpu2) none

-- A function that reads the command from the registers as they are meant.
abbrev reads_cmd : CcGetCmd
reads_cmd core cmd dev =
    (pos 0, some (record { opcode = ab_key; data_addr = 0x9004; data_size = 4 }), dev)

abbrev one_system : System
one_system = record { kernel = kernel_with one_message; dev = some on_cpu2 }

arrives :
    Arrives cpu1 reads_cmd around one_system
      (record { opcode = ab_key; data_addr = 0x9004; data_size = 4 })
      0
      one_message
      (1 ∷ 2 ∷ 3 ∷ 4 ∷ [])
      true
      (some on_cpu2)
unfolding get_id_by_key find_key get_que_by_id get_noncache_addr
arrives = record {
  read = refl;
  after = refl;
  key = refl;
  known = refl;
  queue = one_message-IsValid;
  room = omega arith;
  local = refl;
  mapped = refl;
  unlocked = refl;
  fits = omega arith;
  given = omega arith;
  reader = refl;
}

handler_delivers_example :
    (s' : System) × (q' : Msgque) × (handle_func cpu1 reads_cmd (send_ack soc) around one_system
      ≡ done (some (0, true), s'))
    × (s'.dev ≡ (send_ack soc cpu1 (some on_cpu2)).1)
    × (get_que_by_id 0 s'.kernel ≡ some q')
    × (contents q' ≡ contents one_message ++ ((1 ∷ 2 ∷ 3 ∷ 4 ∷ []) ∷ []))
    × IsValid q'
    × (on_build smp lock_after (handle_func cpu1 reads_cmd (send_ack soc) around one_system)
        ≡ blocked)
handler_delivers_example =
    handler_delivers cpu1 reads_cmd (send_ack soc) around one_system
      (record { opcode = ab_key; data_addr = 0x9004; data_size = 4 }) 0 one_message
      (1 ∷ 2 ∷ 3 ∷ 4 ∷ []) true (some on_cpu2) arrives

reader_one_behind_example :
    (s' : System) × (handle_func cpu1 reads_cmd (send_ack soc) around one_system
      ≡ done (some (0, true), s'))
    × Reads 0
        (replicate 8 0)
        8
        0
        blank_slot
        []
        (replicate 12 false)
        s'.kernel
        (7 ∷ 8 ∷ [])
        (1 ∷ 2 ∷ 3 ∷ 4 ∷ [])
    × (on_build smp lock_after (handle_func cpu1 reads_cmd (send_ack soc) around one_system)
        ≡ blocked)
reader_one_behind_example =
    reader_one_behind cpu1 reads_cmd (send_ack soc) around one_system
      (record { opcode = ab_key; data_addr = 0x9004; data_size = 4 }) 0 one_message
      (1 ∷ 2 ∷ 3 ∷ 4 ∷ []) true (some on_cpu2) (7 ∷ 8 ∷ []) (replicate 8 0) 8 0 blank_slot []
      (replicate 12 false) arrives refl refl (omega arith)

strings : All IsString (info_with two_messages).tokens
unfolding cstr
strings = ((97 ∷ 98 ∷ [], refl), All-replicate IsString 11 no_token ([], refl))

release_file_returns_example :
    (r : ℤ × Driver) × (m' : Msqinfo) × (release_file
        (pos 0)
        (record (driver_at (kernel_with two_messages)) { file = some 1 })
      ≡ done r)
    × (r.1.file ≡ none)
    × HasTable r.1.sys.kernel m'
    × Kept 1 (info_with two_messages) m'
    × (((on_build smp file_lock (
              release_file
                (pos 0)
                (record (driver_at (kernel_with two_messages)) { file = some 1 }))
            ≡ done r)
          × (lock_state (file_lock r) ≡ free))
        ⊎ Unreleased 1 m')
release_file_returns_example =
    release_file_returns (pos 0) (record (driver_at (kernel_with two_messages)) { file = some 1 })
      (info_with two_messages) refl (refl, strings) refl
