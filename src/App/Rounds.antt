-- ===== src/App/Rounds.antt =====
-- The number of rounds that the loop of the demo is given.
use ipc_msq_multicore.Common.{
  ℕ, zero, suc, ◌+◌, ◌≡◌, refl, ap, ◌∙◌, arith, Bool, true, false, Option, none, some, List, ℤ,
  is_negative, if◌then◌else◌,
}
use ipc_msq_multicore.Common.Outcome.{Outcome, done, fault, blocked, ◌>>=◌}
use ipc_msq_multicore.Device.{Device}
use ipc_msq_multicore.User.{Process, ipc_open, ipc_ftok, ipc_msg_get}
use ipc_msq_multicore.App.{Locals, round, loop, main, demo_path, ask_jpg, buffer_of}

-- Where the first gives a result, the second gives the same.
abbrev Settles : {A : Type 0} → Outcome (Option A) → Outcome (Option A) → Type 0
Settles {A} o o' = (a : A) → o ≡ done (some a) → o' ≡ done (some a)

Settles-bind :
    {A B : Type 0} (o : Outcome A) (f g : A → Outcome (Option B))
    → ((a : A) → Settles (f a) (g a))
    → Settles (o >>= f) (o >>= g)
Settles-bind (done a) f g h = h a
Settles-bind fault f g h = λ b e. absurd (cc (e))
Settles-bind blocked f g h = λ b e. absurd (cc (e))

Settles-result :
    {A B : Type 0} (o o' : Outcome (Option A)) (f : Option A → Outcome (Option B))
    → Settles o o'
    → Settles (f none) (done none)
    → Settles (o >>= f) (o' >>= f)
Settles-result (done (some a)) o' f h stop = λ b e. rw (h a refl) e
Settles-result (done none) o' f h stop = λ b e. absurd (cc (stop b e))
Settles-result fault o' f h stop = λ b e. absurd (cc (e))
Settles-result blocked o' f h stop = λ b e. absurd (cc (e))

Settles-if :
    {A : Type 0} (b : Bool) (o o₁ o₂ : Outcome (Option A))
    → Settles o₁ o₂
    → Settles (if b then o else o₁) (if b then o else o₂)
Settles-if true o o₁ o₂ h = λ a e. e
Settles-if false o o₁ o₂ h = h

module _ (D : Device) (l : Locals) where
  loop-Settles :
      (n i : ℕ) (msqid : ℤ) (msg : List ℕ) (p : Process D)
      → Settles (loop D l n i msqid msg p) (loop D l (suc n) i msqid msg p)
  unfolding loop
  loop-Settles zero i msqid msg p = λ p' e. absurd (cc (e))
  loop-Settles (suc n) i msqid msg p = Settles-bind (round D l i msqid msg p) _ _ (λ r.
      Settles-if (is_negative r.0) _ _ _
        (loop-Settles n (suc i) msqid (buffer_of (ask_jpg msg) r.1) r.2))

  main-Settles :
      (n : ℕ) (msg : List ℕ) (p : Process D) → Settles (main D l n msg p) (main D l (suc n) msg p)
  unfolding main
  main-Settles n msg p = Settles-if (is_negative (ipc_open D p).0) _ _ _ (
      Settles-bind (ipc_ftok D l.ftok (some demo_path) (ipc_open D p).1) _ _ (λ key.
        Settles-bind (ipc_msg_get D l.get key.0 key.1) _ _ (λ id.
          Settles-result (loop D l n 0 id.0 msg id.1) _ _ (loop-Settles n 0 id.0 msg id.1)
            (λ b e. e))))

  -- On any device, a demo that ends within `n` rounds of its loop ends with the same status and the same
  -- process however many rounds more it is given: the bound on the rounds does not decide.
  pub demo_settles :
      (k n : ℕ) (msg : List ℕ) (p p' : Process D) (status : ℤ)
      → main D l n msg p ≡ done (some (status, p'))
      → main D l (k + n) msg p ≡ done (some (status, p'))
  demo_settles zero n msg p p' status e =
      let zero_more : 0 + n ≡ n = omega arith in ap (λ j. main D l j msg p) zero_more ∙ e
  demo_settles (suc k) n msg p p' status e =
      let one_more : suc k + n ≡ suc (k + n) = omega arith in
      ap (λ j. main D l j msg p) one_more
      ∙ main-Settles (k + n) msg p (status, p') (demo_settles k n msg p p' status e)
