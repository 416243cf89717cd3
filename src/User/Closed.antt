-- ===== src/User/Closed.antt =====
-- What follows on ipc_close, which leaves the number of the closed descriptor in ipcfd.
use ipc_msq_multicore.Common.{
  ◌≤◌, ◌≡◌, refl, ap, ◌∙◌, true, false, none, some, arith, ℤ, minus, is_negative, length,
  Bool-cases, inl, inr, ltb,
}
use ipc_msq_multicore.Common.Bytes.{memcpy_fits}
use ipc_msq_multicore.Common.Outcome.{
  Outcome, done, ◌>>=◌, spin_lock, spin_unlock, Ends, Ends-done, Ends-intro, Ends-bind,
}
use ipc_msq_multicore.Msgque.{element_size}
use ipc_msq_multicore.Main.{Request}
use ipc_msq_multicore.Device.{Device, IsLawful}
use ipc_msq_multicore.User.{
  Process, Answer, ipc_open, ipc_close, request, ipc_ftok, ipc_msg_get, ipc_msg_rel, ipc_msg_snd,
  ipc_msg_rcv,
}
use ipc_msq_multicore.User.Session.{Call, ftok, get, rel, snd, rcv, step}

-- The caller's bytes are there, and so is the array of the message.
abbrev pub IsGiven : Call → Type 0
IsGiven (snd u msqid send_to (some bytes) msg_size) =
    (length u.msg_data ≡ element_size) × (msg_size ≤ length bytes)
IsGiven _ = Unit

module _ (D : Device) where
  abbrev again : Process D → Process D
  again p = record p { mutex = spin_unlock (spin_lock p.mutex) }

  reopen_lem : (p : Process D) → is_negative p.ipcfd ≡ false → ipc_open D p ≡ (p.ipcfd, again p)
  unfolding ipc_open
  reopen_lem p h = rw h refl

  refused :
      IsLawful D
      → (r : Request) (p : Process D) → D.is_open p.device p.ipcfd ≡ false
      → request D r p ≡ done (minus 1, r, p)
  refused law r p h =
      ap (λ o. o >>= λ a. done (a.0, a.1, record p { device = a.2 }))
        (law.refuses p.ipcfd r p.device h)

  -- The call returns an error, and neither the device nor the descriptor changes.
  abbrev pub Fails : Process D → Outcome (Answer D) → Type 0
  Fails p o =
      (a : Answer D) × (o ≡ done a)
      × (is_negative a.0 ≡ true)
      × (a.1.device ≡ p.device)
      × (a.1.ipcfd ≡ p.ipcfd)

  stale-Fails :
      (law : IsLawful D) (p : Process D) (c : Call)
      → is_negative p.ipcfd ≡ false
      → D.is_open p.device p.ipcfd ≡ false
      → IsGiven c
      → Fails p (step D c p)
  unfolding step ipc_ftok ipc_msg_get ipc_msg_rel ipc_msg_snd ipc_msg_rcv
  stale-Fails law p (ftok u none) h stale g = ((minus 1, p), refl, refl, refl, refl)
  stale-Fails law p (ftok u (some path)) h stale g = (
    (minus 3, again p),
    rw (reopen_lem p h, h, refused law _ (again p) stale) refl,
    refl,
    refl,
    refl,
  )
  stale-Fails law p (get u key) h stale g = (
    (minus 2, again p),
    rw (reopen_lem p h, h, refused law _ (again p) stale) refl,
    refl,
    refl,
    refl,
  )
  stale-Fails law p (rel u msqid) h stale g =
      ((minus 1, p), rw (refused law _ p stale) refl, refl, refl, refl)
  stale-Fails law p (snd u msqid send_to none msg_size) h stale g =
      elim (Bool-cases (ltb element_size msg_size)) [
        | inl large ↦ ((minus 9, again p), rw (reopen_lem p h, h, large) refl, refl, refl, refl)
        | inr small ↦ ((minus 3, again p), rw (reopen_lem p h, h, small) refl, refl, refl, refl)
      ]
  stale-Fails law p (snd u msqid send_to (some bytes) msg_size) h stale g =
      elim (Bool-cases (ltb element_size msg_size)) [
        | inl large ↦ ((minus 9, again p), rw (reopen_lem p h, h, large) refl, refl, refl, refl)
        | inr small ↦ (
          (minus 3, again p),
          rw
              (
                reopen_lem p h,
                h,
                small,
                memcpy_fits u.msg_data bytes msg_size (ground arith) g.1,
                refused law _ (again p) stale,
              )
              refl,
          refl,
          refl,
          refl,
        )
      ]
  stale-Fails law p (rcv u msqid none msg_size) h stale g =
      ((minus 4, again p), rw (reopen_lem p h, h) refl, refl, refl, refl)
  stale-Fails law p (rcv u msqid (some buffer) msg_size) h stale g = (
    (minus 4, again p),
    rw (reopen_lem p h, h, refused law _ (again p) stale) refl,
    refl,
    refl,
    refl,
  )

  ipc_close_stale :
      (law : IsLawful D) (p : Process D)
      → is_negative p.ipcfd ≡ false
      → Ends (λ a. (D.is_open a.1.device a.1.ipcfd ≡ false) × (a.1.ipcfd ≡ p.ipcfd)) (ipc_close D p)
  unfolding ipc_close
  ipc_close_stale law p h = rw h (
      Ends-bind (λ s. D.is_open s p.ipcfd ≡ false)
        (λ a. (D.is_open a.1.device a.1.ipcfd ≡ false) × (a.1.ipcfd ≡ p.ipcfd))
        (D.close_file p.ipcfd p.device) _
        (Ends-intro _ (D.close_file p.ipcfd p.device) (λ s e. law.closes p.ipcfd p.device s e))
        (λ s shut. (shut, refl)))

  -- On any device that treats descriptors as documented: once ipc_close has closed the descriptor, a call
  -- of ipc_ftok, ipc_msg_get, ipc_msg_rel, ipc_msg_snd or ipc_msg_rcv whose buffers are there returns an
  -- error and changes neither the device nor the descriptor. The descriptor stays closed, though ipc_open
  -- still gives its number.
  pub closed-Fails :
      (law : IsLawful D) (p p' : Process D) (ret : ℤ) (c : Call)
      → is_negative p.ipcfd ≡ false
      → ipc_close D p ≡ done (ret, p')
      → IsGiven c
      → (D.is_open p'.device p'.ipcfd ≡ false)
        × ((ipc_open D p').0 ≡ p.ipcfd)
        × Fails p' (step D c p')
  closed-Fails law p p' ret c h e g =
      let (shut, same) =
        Ends-done (λ a. (D.is_open a.1.device a.1.ipcfd ≡ false) × (a.1.ipcfd ≡ p.ipcfd))
          (ipc_close_stale law p h) e in
      let valid = ap is_negative same ∙ h in
      (shut, ap (λ a. a.0) (reopen_lem p' valid) ∙ same, stale-Fails law p' c valid shut g)
