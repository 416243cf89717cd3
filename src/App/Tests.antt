-- ===== src/App/Tests.antt =====
-- The properties of the demo over the character device.
use ipc_msq_multicore.Common.{
  ◌≡◌, refl, true, false, some, none, Option, [], ◌∷◌, pos, minus, replicate, All-replicate,
}
use ipc_msq_multicore.Common.Bytes.{memcpy}
use ipc_msq_multicore.Common.Outcome.{done, acquire, release}
use ipc_msq_multicore.Main.{ioctl, open_file, release_file, release_from}
use ipc_msq_multicore.Main.Idle.{IsFree, free_table-IsIdle}
use ipc_msq_multicore.Device.{Device}
use ipc_msq_multicore.User.{
  Uninit, Process, Answer, ipc_open, ipc_close, ipc_msg_get, ipc_ftok, ipc_msg_rel, ipc_msg_snd,
  ipc_msg_rcv,
}
use ipc_msq_multicore.User.Driver.{driver_device, driver_device-IsLawful}
use ipc_msq_multicore.App.{Locals, main, loop}
use ipc_msq_multicore.App.Exit.{demo_closes}
use ipc_msq_multicore.App.Blocks.{demo_never_ends}
use ipc_msq_multicore.Samples.{raw_queue, kernel_with, driver_at, env}

abbrev uninit : Uninit
uninit = record { rtn = pos 0; rtn_key = 0; path = replicate 33 0; msg_data = replicate 24 0 }

abbrev locals : Locals
locals = record { ftok = uninit; get = uninit; snd = λ i. uninit; rcv = λ i. uninit; rel = uninit }

abbrev device : Device
device = driver_device env true (pos 0)

abbrev fresh : Process device
fresh = record {
  ipcfd = minus 1;
  msqcnt = pos 0;
  mutex = [];
  device = record { driver = driver_at (kernel_with raw_queue); files = [] };
}

demo_never_ends_example :
    ¬ ((out : Option (Answer device)) × (main device locals 3 (replicate 32 0) fresh ≡ done out))
demo_never_ends_example =
    demo_never_ends env (pos 0) locals 2 (replicate 32 0) fresh refl refl
      (free_table-IsIdle (kernel_with raw_queue) refl (All-replicate IsFree 12 raw_queue refl))

-- No message of a process can be read.
abbrev deaf : Device
deaf = driver_device (record env { copy_in = false }) true (pos 0)

abbrev started : Process deaf
started = record {
  ipcfd = minus 1;
  msqcnt = pos 0;
  mutex = [];
  device = record { driver = driver_at (kernel_with raw_queue); files = [] };
}

abbrev ended : Process deaf
ended = record {
  ipcfd = pos 0;
  msqcnt = pos 0;
  mutex =
      release ∷ acquire ∷ release ∷ acquire ∷ release ∷ acquire ∷ release ∷ acquire ∷ release
      ∷ acquire ∷ [];
  device = record {
    driver = record (driver_at (kernel_with raw_queue)) { file = none };
    files = none ∷ [];
  };
}

demo_ends : main deaf locals 1 (replicate 32 0) started ≡ done (some (pos 0, ended))
unfolding main loop ipc_open ipc_close ipc_msg_get ipc_ftok ipc_msg_rel ipc_msg_snd ipc_msg_rcv
    ioctl open_file release_file release_from memcpy
demo_ends = refl

demo_closes_example : deaf.is_open ended.device (pos 0) ≡ false
demo_closes_example =
    demo_closes deaf (driver_device-IsLawful (record env { copy_in = false }) true (pos 0)) locals 1
      (replicate 32 0) started ended (pos 0) demo_ends refl
