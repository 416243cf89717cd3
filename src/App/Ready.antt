-- ===== src/App/Ready.antt =====
-- A process with an open file over the character device whose table has no used queue: what each
-- request makes of it.
use ipc_msq_multicore.Common.{
  ℕ, ◌≡◌, refl, sym, ap, ◌∙◌, true, false, none, List, ℤ, pos, negsuc, minus, is_negative,
}
use std.Path.{subst}
use ipc_msq_multicore.Common.Outcome.{
  Ends, Ends-bind, Ends-done, Ends-intro, Ends-weaken, Ends-option,
}
use ipc_msq_multicore.Main.{
  Driver, Env, Request, open_file, ioctl, handle, ioctl_rcv, rel_req, rcv_req,
}
use ipc_msq_multicore.Main.Calls.{IsQuiet, ioctl-IsQuiet, rcv_idle}
use ipc_msq_multicore.Main.Release.{ioctl_rel_stops, ioctl-rel_req}
use ipc_msq_multicore.Device.{Device}
use ipc_msq_multicore.User.{Process, ipc_open, request, counted}
use ipc_msq_multicore.User.Driver.{
  driver_device, driver_device-IsLawful, ioctl_at, file_of, Files, on_file, keep_file, to_user,
}
use ipc_msq_multicore.Main.Files.{is_some}
use ipc_msq_multicore.Main.Dispatch.{ioctl-Ends}

module _ (e : Env) (ret : ℤ) where
  abbrev D : Device
  D = driver_device e true ret

  -- A process with an open file, over a driver without a used queue.
  pub record IsReady (p : Process D) : Type 0 where
    pub quiet : IsQuiet p.device.driver
    pub valid : is_negative p.ipcfd ≡ false
    pub open_fd : D.is_open p.device p.ipcfd ≡ true

  keep_file-IsQuiet :
      (fd : ℤ) (d : Driver) (s : Files) → IsQuiet d → IsQuiet (keep_file fd d s).driver
  keep_file-IsQuiet (pos i) d s h = h
  keep_file-IsQuiet (negsuc i) d s h = h

  -- What holds of the driver's answers on an open file, and of the refusal of any other.
  ioctl_at-Ends :
      (Q : ℤ × Request × Files → Type 0) (fd : ℤ) (r : Request) (s : Files)
      → (file_of s.files fd ≡ none → Q (minus 1, r, s))
      → ((bits : ℕ)
          → Ends (λ a. Q (to_user a.0, a.1, keep_file fd a.2 s)) (ioctl e r (on_file bits s)))
      → Ends Q (ioctl_at e fd r s)
  ioctl_at-Ends Q fd r s refused answered =
      Ends-option Q (file_of s.files fd) _ _ refused (λ bits _.
        Ends-bind (λ a. Q (to_user a.0, a.1, keep_file fd a.2 s)) Q (ioctl e r (on_file bits s)) _
          (answered bits) (λ a k. k))

  ioctl_at-IsQuiet :
      (fd : ℤ) (r : Request) (s : Files)
      → IsQuiet s.driver
      → Ends (λ a. IsQuiet a.2.driver) (ioctl_at e fd r s)
  ioctl_at-IsQuiet fd r s h =
      ioctl_at-Ends (λ a. IsQuiet a.2.driver) fd r s (λ _. h)
        (λ bits.
          Ends-weaken (λ a. IsQuiet a.2) _ (ioctl e r (on_file bits s))
            (λ a k. keep_file-IsQuiet fd a.2 s k) (ioctl-IsQuiet e r (on_file bits s) h))

  pub ipc_open-IsReady : (p : Process D) → IsReady p → IsReady (ipc_open D p).1
  unfolding ipc_open
  ipc_open-IsReady p h =
      rw (h.valid) (record { quiet = h.quiet; valid = h.valid; open_fd = h.open_fd })

  pub request-IsReady :
      (r : Request) (p : Process D) → IsReady p → Ends (λ a. IsReady a.2) (request D r p)
  request-IsReady r p h =
      Ends-bind (λ a. IsReady (record p { device = a.2 })) (λ a. IsReady a.2)
        (D.ioctl p.ipcfd r p.device) _
        (Ends-intro _ (D.ioctl p.ipcfd r p.device) (λ a called. record {
          quiet =
              Ends-done (λ a. IsQuiet a.2.driver) (ioctl_at-IsQuiet p.ipcfd r p.device h.quiet)
                called;
          valid = h.valid;
          open_fd =
              (driver_device-IsLawful e true ret).keeps p.ipcfd p.ipcfd r a.1 a.0 p.device a.2
                called
              ∙ h.open_fd;
        }))
        (λ a k. k)

  ioctl-rcv_fails :
      (msqid : ℕ) (bytes : List ℕ) (size : ℕ) (rtn : ℤ) (d : Driver)
      → IsQuiet d
      → Ends (λ a. is_negative a.0 ≡ true) (ioctl e (rcv_req msqid bytes size rtn) d)
  unfolding handle ioctl_rcv
  ioctl-rcv_fails msqid bytes size rtn d h =
      ioctl-Ends (λ a. is_negative a.0 ≡ true) e (rcv_req msqid bytes size rtn) d refl
        (λ bits. rw (rcv_idle msqid bytes size 0 e.msg_drv e.wakes d.flags d.sys.kernel h) refl)

  to_user_negative : (ret : ℤ) → is_negative ret ≡ true → is_negative (to_user ret) ≡ true
  to_user_negative ret h = rw (h) refl

  -- A receive on a ready process gets a negative status.
  pub request-rcv_fails :
      (msqid : ℕ) (bytes : List ℕ) (size : ℕ) (rtn : ℤ) (p : Process D)
      → IsReady p
      → Ends (λ a. is_negative a.0 ≡ true) (request D (rcv_req msqid bytes size rtn) p)
  request-rcv_fails msqid bytes size rtn p h =
      let r = rcv_req msqid bytes size rtn in
      Ends-bind (λ a. is_negative a.0 ≡ true) (λ a. is_negative a.0 ≡ true)
        (ioctl_at e p.ipcfd r p.device) _
        (ioctl_at-Ends (λ a. is_negative a.0 ≡ true) p.ipcfd r p.device (λ _. refl)
          (λ bits.
            Ends-weaken (λ a. is_negative a.0 ≡ true) _ (ioctl e r (on_file bits p.device))
              (λ a. to_user_negative a.0)
              (ioctl-rcv_fails msqid bytes size rtn (on_file bits p.device) h.quiet)))
        (λ a k. k)

  pub request-rel_stops :
      (msqid : ℕ) (rtn : ℤ) (p : Process D)
      → e.copy_in ≡ true
      → IsReady p
      → Ends (λ _. ⊥) (request D (rel_req msqid rtn) p)
  request-rel_stops msqid rtn p read h =
      Ends-bind (λ _. ⊥) (λ _. ⊥) (ioctl_at e p.ipcfd (rel_req msqid rtn) p.device) _
        (ioctl_at-Ends (λ _. ⊥) p.ipcfd (rel_req msqid rtn) p.device
          (λ gone. absurd (cc (h.open_fd, ap is_some gone)))
          (λ bits.
            subst (Ends (λ _. ⊥))
              (sym (ioctl-rel_req e msqid rtn (on_file bits p.device) bits refl read))
              (ioctl_rel_stops e msqid rtn bits (on_file bits p.device))))
        (λ a k. k)

  pub counted-IsReady : (rtn : ℤ) (p : Process D) → IsReady p → IsReady (counted D rtn p)
  counted-IsReady (pos i) p h = record { quiet = h.quiet; valid = h.valid; open_fd = h.open_fd }
  counted-IsReady (negsuc i) p h = h

  pub first_open :
      (p : Process D)
      → is_negative p.ipcfd ≡ true
      → IsQuiet p.device.driver
      → (is_negative (ipc_open D p).0 ≡ false) × IsReady (ipc_open D p).1
  unfolding ipc_open open_file
  first_open p fresh h =
      let opens = (driver_device-IsLawful e true ret).opens p.device refl in
      (rw (fresh) refl, rw (fresh) (record { quiet = h; valid = refl; open_fd = opens }))
