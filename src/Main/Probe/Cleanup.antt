-- ===== src/Main/Probe/Cleanup.antt =====
-- What a probe leaves behind.
use ipc_msq_multicore.Common.{
  ℕ, ◌≡◌, suc, ◌||◌, Bool, true, false, arith, ◌==◌, ℤ, pos, negsuc, is_zero, is_negative,
  Bool-cases, inl, inr,
}
use ipc_msq_multicore.Common.Outcome.{done, Ends, Ends-if, Ends-done}
use ipc_msq_multicore.Main.Probe.{
  Boot, Answers, Pointer, valid, null, error, is_err, probe_handlers, probe_ctrl, probe_cdev, probe,
}

-- Nothing of the kernel's is held.
pub record IsBare (b : Boot) : Type 0 where
  pub region : b.region ≡ false
  pub class : b.class ≡ false
  pub node : b.node ≡ false
  pub cdev : b.cdev ≡ false
  pub ctrl : b.ctrl ≡ false
  pub mapping : b.mapping ≡ false

-- A return code -n.
abbrev pub is_minus : ℕ → ℤ → Bool
is_minus n (pos m) = false
is_minus n (negsuc m) = suc m == n

-- What remains after a failed probe: the class where its device could not be made, the mapping
-- where a handler or the queues could not be set up.
pub record Remains (ret : ℤ) (b : Boot) : Type 0 where
  pub region : b.region ≡ false
  pub node : b.node ≡ false
  pub cdev : b.cdev ≡ false
  pub ctrl : b.ctrl ≡ false
  pub class : b.class ≡ is_minus 3 ret
  pub mapping : b.mapping ≡ (is_minus 8 ret || is_minus 9 ret)

abbrev Failed : ℤ × Boot → Type 0
Failed r = is_zero r.0 ≡ false → Remains r.0 r.1

handlers_remains :
    (hdl : ℕ) (a : Answers) (b : Boot) → b.mapping ≡ true → Failed (probe_handlers hdl a b)
unfolding probe_handlers
handlers_remains hdl a b mapped failed = ground arith

ctrl_remains :
    (hdl : ℕ) (a : Answers) (b : Boot)
    → b.mapping ≡ false
    → b.ctrl ≡ false
    → Failed (probe_ctrl hdl a b)
unfolding probe_ctrl
ctrl_remains hdl a b none_yet no_ctrl failed = elim (Bool-cases a.allocated) [
  | inr nothing ↦ ground arith
  | inl memory ↦ elim (Bool-cases (a.mapped == 0)) [
    | inl unmapped ↦ ground arith
    | inr mapped ↦ ground (arith, handlers_remains hdl a (record b { ctrl = true; mapping = true }))
  ]
]

cdev_remains :
    (c : Pointer) (hdl : ℕ) (a : Answers) (b : Boot)
    → b.mapping ≡ false
    → b.ctrl ≡ false
    → b.cdev ≡ false
    → Ends Failed (probe_cdev c hdl a b)
unfolding probe_cdev
cdev_remains error hdl a b none_yet no_ctrl no_cdev = λ _. ground arith
cdev_remains null hdl a b none_yet no_ctrl no_cdev = tt
cdev_remains valid hdl a b none_yet no_ctrl no_cdev =
    Ends-if Failed (is_negative a.added) _ _ (λ _. ground arith)
      (ctrl_remains hdl a (record b { cdev = true }) none_yet no_ctrl)

probe-Failed : (hdl : ℕ) (a : Answers) (b : Boot) → IsBare b → Ends Failed (probe hdl a b)
unfolding probe
probe-Failed hdl a b bare =
    Ends-if Failed (is_negative a.region) _ _ (λ _. ground arith)
      (Ends-if Failed (is_err a.class) _ _ (λ _. ground arith)
        (Ends-if Failed (is_err a.node) _ _ (λ _. ground arith)
          (cdev_remains a.cdev hdl a (record b { region = true; class = true; node = true })
            bare.mapping bare.ctrl bare.cdev)))

-- From a state in which nothing is held, a probe that returns an error has given back the device numbers,
-- the device, the character device and the memory of m_ctrl; the class stays exactly at the result
-- -3, and the mapping exactly at -8 and -9.
pub probe-Remains :
    (hdl : ℕ) (a : Answers) (b : Boot) {ret : ℤ} {b' : Boot}
    → IsBare b
    → probe hdl a b ≡ done (ret, b')
    → is_zero ret ≡ false
    → Remains ret b'
probe-Remains hdl a b bare e failed = Ends-done Failed (probe-Failed hdl a b bare) e failed
