-- ===== src/Main/Probe.antt =====
-- kernel_space/drv_chardev/drv_ipc_main.c: ipc_probe and ipc_remove, with what they hold of the kernel.
-- The label of a `goto` is a function that goes on with the next one.
pub mod Cleanup
pub mod Remove
mod Tests
use ipc_msq_multicore.Common.{
  ℕ, Bool, true, false, not, Option, none, some, ◌==◌, if◌then◌else◌, ℤ, pos, minus, is_zero,
  is_negative,
}
use ipc_msq_multicore.Common.Outcome.{Outcome, done, fault, blocked, ◌>>=◌}
use ipc_msq_multicore.Msqinfo.{Msqinfo, Kernel, init, exit}
use ipc_msq_multicore.Cc.{Dev, cpu1, dsp, register_handler, unregister_handler}

-- What is held: the device numbers, the class, its device, the character device, the memory of m_ctrl
-- and its mapping. `cc` is ipc_cc_dev, `kernel` the state of the queues.
pub record Boot : Type 0 where
  pub region : Bool
  pub class : Bool
  pub node : Bool
  pub cdev : Bool
  pub ctrl : Bool
  pub mapping : Bool
  pub cc : Option Dev
  pub kernel : Kernel

-- A pointer that may carry an error number; IS_ERR tells only this one from the rest.
pub data Pointer : Type 0 where
  valid null error : Pointer

abbrev pub is_err : Pointer → Bool
is_err error = true
is_err _ = false

-- What the kernel answers: alloc_chrdev_region, class_create, device_create, cdev_alloc, cdev_add, kzalloc,
-- ioremap_nocache and the two allocations of ipc_msgque_init.
pub record Answers : Type 0 where
  pub region : ℤ
  pub class : Pointer
  pub node : Pointer
  pub cdev : Pointer
  pub added : ℤ
  pub allocated : Bool
  pub mapped : ℕ
  pub info : Option Msqinfo
  pub buffer : ℕ × ℕ

-- The labels, from the last to the first.
abbrev pub failed_create_device : Boot → Boot
failed_create_device b = record b { region = false }

abbrev pub failed_create_class_device : Boot → Boot
failed_create_class_device b = failed_create_device (record b { class = false })

abbrev pub failed_cdev_alloc : Boot → Boot
failed_cdev_alloc b = failed_create_class_device (record b { node = false })

abbrev pub failed_cdev_add : Boot → Boot
failed_cdev_add b = failed_cdev_alloc (record b { cdev = false })

abbrev pub failed_alloc_mem : Boot → Boot
failed_alloc_mem b = failed_cdev_add (record b { ctrl = false })

abbrev pub failed_init_core_handler : Boot → Boot
failed_init_core_handler b = failed_alloc_mem (record b { cc = (unregister_handler cpu1 b.cc).1 })

-- From the first handler on. `hdl` is ipc_core_handler.
unfoldable pub probe_handlers : ℕ → Answers → Boot → ℤ × Boot
probe_handlers hdl a b =
    let (ret1, cc1) = register_handler cpu1 (some hdl) b.cc in
    let (ret3, cc3) = register_handler dsp (some hdl) cc1 in
    let (ret, k) = init a.info a.buffer b.kernel in
    let b1 = record b { cc = cc1 } in
    let b3 = record b { cc = cc3 } in
    let b' = record b3 { kernel = k } in
    if not (is_zero ret1)
    then (minus 8, failed_alloc_mem b1)
    else if not (is_zero ret3)
    then (minus 9, failed_init_core_handler b3)
    else if not (is_zero ret)
    then (minus 8, failed_init_core_handler b')
    else (pos 0, b')

-- From the allocation of m_ctrl on.
unfoldable pub probe_ctrl : ℕ → Answers → Boot → ℤ × Boot
probe_ctrl hdl a b =
    if not a.allocated
    then (minus 6, failed_cdev_add b)
    else if a.mapped == 0
    then (minus 7, failed_alloc_mem (record b { ctrl = true }))
    else probe_handlers hdl a (record b { ctrl = true; mapping = true })

-- From cdev_alloc on, which gave the pointer; cdev_init writes through it.
unfoldable pub probe_cdev : Pointer → ℕ → Answers → Boot → Outcome (ℤ × Boot)
probe_cdev error hdl a b = done (minus 4, failed_cdev_alloc b)
probe_cdev null hdl a b = fault
probe_cdev valid hdl a b =
    let b' = record b { cdev = true } in
    if is_negative a.added then done (minus 5, failed_cdev_add b') else done (probe_ctrl hdl a b')

-- ipc_probe
unfoldable pub probe : ℕ → Answers → Boot → Outcome (ℤ × Boot)
probe hdl a b =
    if is_negative a.region
    then done (minus 1, b)
    else if is_err a.class
    then done (minus 2, failed_create_class_device (record b { region = true }))
    else if is_err a.node
    then done (minus 3, failed_create_device (record b { region = true; class = true }))
    else probe_cdev a.cdev hdl a (record b { region = true; class = true; node = true })

-- The statements of ipc_remove, which returns what the second unregister call gave.
unfoldable pub removed : Boot → ℤ × Boot
removed b =
    let (_, cc1) = unregister_handler cpu1 b.cc in
    let (ret, cc3) = unregister_handler dsp cc1 in
    (
      ret,
      record b {
        cdev = false;
        node = false;
        class = false;
        region = false;
        mapping = false;
        cc = cc3;
        kernel = exit b.kernel;
      },
    )

-- ipc_remove reads the address of the mapping through m_ctrl, a null pointer before a probe.
unfoldable pub remove : Boot → Outcome (ℤ × Boot)
remove b = if b.ctrl then done (removed b) else fault
