-- ===== src/Sender/Tests.antt =====
-- The properties of the send buffers and of their semaphores at the sender for core 1.
use ipc_msq_multicore.Common.{if◌then◌else◌, ◌==◌, ◌≤◌, ◌<◌, ◌≡◌, refl, false}
use ipc_msq_multicore.Common.Outcome.{blocked}
use ipc_msq_multicore.Msqinfo.{Kernel}
use ipc_msq_multicore.Sender.{lock_snd_msg_buff}
use ipc_msq_multicore.Sender.Exclusion.{lock, here, next, senders_exclude}
use ipc_msq_multicore.Sender.Pingpong.{taken}
use ipc_msq_multicore.Samples.{raw_queue, idle_sender, info_with, kernel_with}

abbrev kernel : Kernel
kernel = kernel_with raw_queue

-- One thread holds the sender for core 1 and another asks for it.
senders_exclude_example :
    (1 ≤ 1)
    × (0 < 1
        → lock_snd_msg_buff false 1 (taken 1 (idle_sender 0x1000) (info_with raw_queue) kernel)
          ≡ blocked)
unfolding lock_snd_msg_buff
senders_exclude_example =
    senders_exclude kernel (taken 1 (idle_sender 0x1000) (info_with raw_queue) kernel)
      (λ e. if e == 0 then 1 else 0) (info_with raw_queue) _ 1 _ refl (refl, (refl, (refl, tt)))
      (next here (lock 1 _ refl (λ e. refl))) refl refl
