-- ===== src/Samples.antt =====
-- Concrete data for the tests of the other modules: a queue of two messages under the key of the
-- name "ab", the table and the tokens around it, and a device that runs on CPU2.
use ipc_msq_multicore.Common.{
  ℕ, ◌+◌, refl, none, some, List, [], ◌∷◌, arith, replicate, All-replicate, pos, true, false,
}
use ipc_msq_multicore.Msgque.{Msg, Msgque, fresh_queue}
use ipc_msq_multicore.Msgque.Ring.{
  HasData, IsValid, Fits, stored, fresh_queue-IsValid, stored-IsValid,
}
use ipc_msq_multicore.Msqinfo.{SndmsgBuff, Msqinfo, Kernel}
use ipc_msq_multicore.Cc.{Dev, Soc, Locals}
use ipc_msq_multicore.Main.{Driver, Env}

abbrev pub blank_slot : Msg
blank_slot = record { size = 0; bytes = replicate 12 0 }

abbrev pub hello : Msg
hello = record { size = 2; bytes = 7 ∷ 8 ∷ replicate 10 0 }

abbrev pub hello-Fits : Fits hello
hello-Fits = (refl, omega arith)

-- The hash of "ab".
abbrev pub ab_key : ℕ
ab_key = 32914

abbrev pub raw_queue : Msgque
raw_queue = record {
  initkey = 0;
  sharekey = 0;
  msqid = 0;
  indx = 0;
  outdx = 0;
  count = 0;
  element = replicate 16 blank_slot;
}

abbrev pub no_message : Msgque
no_message = fresh_queue raw_queue 0 ab_key

abbrev pub one_message : Msgque
one_message = stored no_message hello

abbrev pub two_messages : Msgque
two_messages = stored one_message hello

pub no_message-IsValid : IsValid no_message
no_message-IsValid =
    fresh_queue-IsValid raw_queue 0 ab_key refl (All-replicate HasData 16 blank_slot refl)

pub one_message-IsValid : IsValid one_message
one_message-IsValid = stored-IsValid hello no_message-IsValid (omega arith) hello-Fits

pub two_messages-IsValid : IsValid two_messages
two_messages-IsValid = stored-IsValid hello one_message-IsValid (omega arith) hello-Fits

abbrev pub idle_sender : ℕ → SndmsgBuff
idle_sender a = record { pingponidx = 0; sndmsg_0 = a; sndmsg_1 = a + 16; semid = 1 }

abbrev pub ab_token : List ℕ
ab_token = 97 ∷ 98 ∷ replicate 31 0

abbrev pub no_token : List ℕ
no_token = replicate 33 0

-- The first queue of the table is `q`.
abbrev pub info_with : Msgque → Msqinfo
info_with q = record {
  syscmdbuf_vir = 0x1000;
  syscmdbuf_dma = 0x9000;
  tbl = q ∷ replicate 11 raw_queue;
  tokens = ab_token ∷ replicate 11 no_token;
  buffs = idle_sender 0x1000 ∷ idle_sender 0x1020 ∷ idle_sender 0x1040 ∷ [];
}

abbrev pub no_info : Kernel
no_info = record {
  info = none;
  lock = [];
  memory = λ a. record { send_to = 0; bytes = replicate 12 0 };
  blocks = 0;
  dma_blocks = 0;
}

abbrev pub kernel_with : Msgque → Kernel
kernel_with q = record no_info { info = some (info_with q); blocks = 1; dma_blocks = 1 }

abbrev pub on_cpu2 : Dev
on_cpu2 = record {
  regs = λ ofs. 5;
  writes = [];
  irq = pos 9;
  irqs = [];
  lock = [];
  running_core = 1;
  cpu1_handler = some 100;
  cpu2_handler = some 200;
  dsp_handler = none;
}

abbrev pub soc : Soc
soc = record { clear_ack = 1; data_trigger = 2; cpu1_ack = 16; cpu2_ack = 32; dsp_ack = 48 }

abbrev pub locals : Locals
locals = record {
  sts = 0;
  act = 0;
  buf1 = 0;
  buf2 = 0;
  buf3 = 4;
  cmdbuf1 = 3;
  cmdbuf2 = 0;
  cmdbuf3 = 0;
}

-- A driver with one open file, and calls that succeed where the code can.
abbrev pub driver_at : Kernel → Driver
driver_at k = record {
  sys = record { kernel = k; dev = some on_cpu2 };
  flags = false ∷ [];
  mutex = false;
  file = some 0;
}

abbrev pub env : Env
env = record {
  ambient = record { soc = soc; locals = locals; no_return = pos 0; signal = false };
  copy_in = true;
  copy_out = true;
  no_return = pos 0;
  msg_drv = record { size = 0; bytes = [] };
  wakes = [];
}
