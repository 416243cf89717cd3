-- ===== src/Main/Probe/Remove.antt =====
-- What ipc_remove gives back of what a successful ipc_probe took.
use ipc_msq_multicore.Common.{
  ℕ, ◌≡◌, refl, true, false, Option, none, some, arith, ◌==◌, ℤ, pos, is_zero, is_negative,
  Bool-cases, inl, inr,
}
use ipc_msq_multicore.Common.Outcome.{
  done, Ends, Ends-if, Ends-done, Lock, spin_lock, spin_unlock, Lock, spin_lock, spin_unlock,
}
use ipc_msq_multicore.Msqinfo.{Kernel, init}
use ipc_msq_multicore.Msqinfo.Setup.{exit-init}
use ipc_msq_multicore.Cc.{Dev, cpu1, cpu2, dsp, register_handler, unregister_handler}
use ipc_msq_multicore.Main.Probe.{
  Boot, Answers, Pointer, valid, null, error, is_err, probe_handlers, probe_ctrl, probe_cdev, probe,
  remove, removed,
}

module _ (hdl : ℕ) (a : Answers) where
  -- What a probe that returns 0 has made of the handlers and of the queues.
  pub record Made (cc : Option Dev) (k : Kernel) (b' : Boot) : Type 0 where
    pub ctrl : b'.ctrl ≡ true
    pub handlers :
        b'.cc ≡ (register_handler dsp (some hdl) (register_handler cpu1 (some hdl) cc).1).1
    pub kernel : init a.info a.buffer k ≡ (pos 0, b'.kernel)

  abbrev Succeeds : Option Dev → Kernel → ℤ × Boot → Type 0
  Succeeds cc k r = is_zero r.0 ≡ true → Made cc k r.1

  handlers_made : (b : Boot) → b.ctrl ≡ true → Succeeds b.cc b.kernel (probe_handlers hdl a b)
  unfolding probe_handlers
  handlers_made b memory ok = ground arith

  ctrl_made : (b : Boot) → Succeeds b.cc b.kernel (probe_ctrl hdl a b)
  unfolding probe_ctrl
  ctrl_made b ok = elim (Bool-cases a.allocated) [
    | inr nothing ↦ ground arith
    | inl memory ↦ elim (Bool-cases (a.mapped == 0)) [
      | inl unmapped ↦ ground arith
      | inr mapped ↦ ground (arith, handlers_made (record b { ctrl = true; mapping = true }))
    ]
  ]

  cdev_made : (c : Pointer) (b : Boot) → Ends (Succeeds b.cc b.kernel) (probe_cdev c hdl a b)
  unfolding probe_cdev
  cdev_made error b = λ ok. absurd (cc)
  cdev_made null b = tt
  cdev_made valid b =
      Ends-if (Succeeds b.cc b.kernel) (is_negative a.added) _ _ (λ ok. absurd (cc))
        (λ ok. ground (arith, ctrl_made (record b { cdev = true })))

  probe_made : (b : Boot) → Ends (Succeeds b.cc b.kernel) (probe hdl a b)
  unfolding probe
  probe_made b =
      Ends-if (Succeeds b.cc b.kernel) (is_negative a.region) _ _ (λ ok. absurd (cc))
        (Ends-if (Succeeds b.cc b.kernel) (is_err a.class) _ _ (λ ok. absurd (cc))
          (Ends-if (Succeeds b.cc b.kernel) (is_err a.node) _ _ (λ ok. absurd (cc))
            (cdev_made a.cdev (record b { region = true; class = true; node = true }))))

-- What ipc_remove leaves: m_ctrl's memory and, as the driver runs on CPU2, both handlers.
pub record Leaves (hdl : ℕ) (b : Boot) (r : ℤ × Boot) : Type 0 where
  pub ret : r.0 ≡ pos 0
  pub region : r.1.region ≡ false
  pub class : r.1.class ≡ false
  pub node : r.1.node ≡ false
  pub cdev : r.1.cdev ≡ false
  pub mapping : r.1.mapping ≡ false
  pub kernel : r.1.kernel ≡ b.kernel
  pub ctrl : r.1.ctrl ≡ true
  pub handlers :
      (dd : Dev) × (r.1.cc ≡ some dd) × (dd.cpu1_handler ≡ some hdl) × (dd.dsp_handler ≡ some hdl)

-- Two uses of the lock.
abbrev twice : Lock → Lock
twice l = spin_unlock (spin_lock (spin_unlock (spin_lock l)))

-- After a probe that returned 0 on CPU2, remove ends with 0, gives back the character device with its
-- number and class and the mapping, and restores the state of the queues; the memory of m_ctrl stays
-- allocated, and both handlers stay registered.
pub remove_after_probe :
    (hdl : ℕ) (a : Answers) (b : Boot) (dd : Dev) {b' : Boot}
    → b.cc ≡ some dd
    → dd.running_core ≡ cpu2
    → probe hdl a b ≡ done (pos 0, b')
    → (r : ℤ × Boot) × (remove b' ≡ done r) × Leaves hdl b r
unfolding remove removed register_handler unregister_handler
remove_after_probe hdl a b dd {b'} there core e =
    let made = Ends-done (Succeeds hdl a b.cc b.kernel) (probe_made hdl a b) e refl in
    (
      removed b',
      ground (arith, made.ctrl),
      record {
        ret = ground (arith, made.handlers);
        region = refl;
        class = refl;
        node = refl;
        cdev = refl;
        mapping = refl;
        kernel = exit-init a.info a.buffer.0 a.buffer.1 b.kernel made.kernel;
        ctrl = made.ctrl;
        handlers = (
          record dd {
            cpu1_handler = some hdl;
            cpu2_handler = none;
            dsp_handler = some hdl;
            lock = twice (twice dd.lock);
          },
          ground (arith, made.handlers),
          refl,
          refl,
        );
      },
    )
