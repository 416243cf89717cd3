-- ===== src/User/Tests.antt =====
-- The properties of the library at a process with one open descriptor.
use ipc_msq_multicore.Common.{
  ◌≡◌, refl, true, false, some, none, List, [], ◌∷◌, pos, minus, replicate, arith,
}
use ipc_msq_multicore.Common.Outcome.{done, acquire, release}
use ipc_msq_multicore.Msqinfo.{Kernel}
use ipc_msq_multicore.Name.{namehash}
use ipc_msq_multicore.Table.{get_id_by_key, find_key}
use ipc_msq_multicore.Main.{ioctl, handle, ioctl_get, release_file, release_from}
use ipc_msq_multicore.Device.{Device}
use ipc_msq_multicore.User.{Uninit, Process, ipc_open, ipc_close, ipc_msg_get, ipc_ftok, to_int16}
use ipc_msq_multicore.User.Session.{Call, get, snd, step, run, total, IsConnected}
use ipc_msq_multicore.User.Session.Run.{session_accounts}
use ipc_msq_multicore.User.Closed.{Fails, closed-Fails}
use ipc_msq_multicore.User.Driver.{Files, driver_device, driver_device-IsLawful}
use ipc_msq_multicore.User.Key.{ftok_hashes}
use ipc_msq_multicore.Samples.{raw_queue, two_messages, kernel_with, driver_at, env, ab_key}

abbrev device : Device
device = driver_device env true (pos 0)

abbrev files_at : Kernel → Files
files_at k = record { driver = driver_at k; files = some 0 ∷ [] }

abbrev process_at : Kernel → Process device
process_at k = record { ipcfd = pos 0; msqcnt = pos 0; mutex = []; device = files_at k }

abbrev uninit : Uninit
uninit = record { rtn = pos 0; rtn_key = 0; path = replicate 33 0; msg_data = replicate 24 0 }

abbrev calls : List Call
calls = get uninit (to_int16 ab_key) ∷ get uninit (pos 3) ∷ []

abbrev after_calls : Process device
after_calls = record (process_at (kernel_with two_messages)) {
  msqcnt = pos 1;
  mutex = release ∷ acquire ∷ release ∷ acquire ∷ [];
  device = record {
    driver = record (driver_at (kernel_with two_messages)) { file = some 1 };
    files = some 1 ∷ [];
  };
}

calls-run :
    run device calls (process_at (kernel_with two_messages))
    ≡ done (pos 0 ∷ minus 3 ∷ [], after_calls)
unfolding run step ipc_open ipc_msg_get ioctl handle ioctl_get get_id_by_key find_key
calls-run = refl

session_accounts_example :
    IsConnected device after_calls
    × (after_calls.msqcnt ≡ total calls (pos 0 ∷ minus 3 ∷ []) (pos 0))
session_accounts_example =
    session_accounts device (driver_device-IsLawful env true (pos 0)) calls
      (process_at (kernel_with two_messages)) after_calls (pos 0 ∷ minus 3 ∷ [])
      (record { open_fd = λ h. refl; mutex_free = refl }) calls-run (omega arith)

abbrev closed : Process device
closed = record (process_at (kernel_with raw_queue)) {
  device = record {
    driver = record (driver_at (kernel_with raw_queue)) { file = none };
    files = none ∷ [];
  };
}

closed-run : ipc_close device (process_at (kernel_with raw_queue)) ≡ done (pos 0, closed)
unfolding ipc_close release_file release_from
closed-run = refl

closed-Fails_example :
    (device.is_open closed.device closed.ipcfd ≡ false)
    × ((ipc_open device closed).0 ≡ pos 0)
    × Fails device closed (step device (snd uninit 0 1 (some (1 ∷ 2 ∷ [])) 2) closed)
closed-Fails_example =
    closed-Fails device (driver_device-IsLawful env true (pos 0))
      (process_at (kernel_with raw_queue)) closed (pos 0) (snd uninit 0 1 (some (1 ∷ 2 ∷ [])) 2)
      refl closed-run (refl, omega arith)

ftok_hashes_example :
    let key = namehash (some (97 ∷ 98 ∷ [])) in
    (p' : Process device) × (ipc_ftok device uninit
        (some (97 ∷ 98 ∷ []))
        (process_at (kernel_with raw_queue))
      ≡ done (to_int16 key, p'))
    × ((v : Uninit)
        → (p'' : Process device) × (ipc_msg_get device v (to_int16 key) p'
            ≡ done (get_id_by_key key p'.device.driver.sys.kernel, p'')))
ftok_hashes_example =
    ftok_hashes env true (pos 0) uninit (97 ∷ 98 ∷ []) (process_at (kernel_with raw_queue)) refl
      refl refl refl refl refl refl (omega arith)
