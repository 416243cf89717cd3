-- ===== src/Main/Probe/Tests.antt =====
-- A probe that fails and one that succeeds.
use ipc_msq_multicore.Common.{ℤ, ◌≡◌, refl, true, false, some, pos, minus}
use ipc_msq_multicore.Common.Outcome.{done}
use ipc_msq_multicore.Msqinfo.{init, set_up, place_buffs, calc_need_buff_size}
use ipc_msq_multicore.Cc.{cpu1, dsp, register_handler}
use ipc_msq_multicore.Main.Probe.{
  Boot, Answers, valid, error, probe, probe_cdev, probe_ctrl, probe_handlers, remove,
}
use ipc_msq_multicore.Main.Probe.Cleanup.{Remains, probe-Remains}
use ipc_msq_multicore.Main.Probe.Remove.{Leaves, remove_after_probe}
use ipc_msq_multicore.Samples.{raw_queue, info_with, no_info, on_cpu2}

abbrev bare : Boot
bare = record {
  region = false;
  class = false;
  node = false;
  cdev = false;
  ctrl = false;
  mapping = false;
  cc = some on_cpu2;
  kernel = no_info;
}

abbrev answers : Answers
answers = record {
  region = pos 0;
  class = valid;
  node = valid;
  cdev = valid;
  added = pos 0;
  allocated = true;
  mapped = 0x8000;
  info = some (info_with raw_queue);
  buffer = (0x1000, 0x9000);
}

no_device :
    probe 7 (record answers { node = error }) bare ≡ done (minus 3, record bare { class = true })
unfolding probe
no_device = refl

probe-Remains_example : Remains (minus 3) (record bare { class = true })
probe-Remains_example =
    probe-Remains 7 (record answers { node = error }) bare
      (record {
        region = refl;
        class = refl;
        node = refl;
        cdev = refl;
        ctrl = refl;
        mapping = refl;
      })
      no_device refl

abbrev probed : Boot
probed = record {
  region = true;
  class = true;
  node = true;
  cdev = true;
  ctrl = true;
  mapping = true;
  cc = (register_handler dsp (some 7) (register_handler cpu1 (some 7) (some on_cpu2)).1).1;
  kernel = (init (some (info_with raw_queue)) (0x1000, 0x9000) no_info).1;
}

succeeds : probe 7 answers bare ≡ done (pos 0, probed)
unfolding probe probe_cdev probe_ctrl probe_handlers register_handler init set_up place_buffs
    calc_need_buff_size
succeeds = refl

remove_after_probe_example : (r : ℤ × Boot) × (remove probed ≡ done r) × Leaves 7 bare r
remove_after_probe_example = remove_after_probe 7 answers bare on_cpu2 refl refl succeeds
