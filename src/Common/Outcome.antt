-- ===== src/Common/Outcome.antt =====
-- How a call ends, and what it does to a spinlock.
use mathlib.Core.List.{List, [], ◌∷◌}
use std.Path.{◌≡◌, refl, subst}
use mathlib.Core.Bool.{Bool, true, false}
use ipc_msq_multicore.Common.Tests.{if◌then◌else◌}
use mathlib.Core.Option.{Option, none, some}

-- A call returns, makes an access outside an object (or through a null pointer), or waits for an
-- event that only another thread can bring.
pub data Outcome {ℓ} (A : Type ℓ) : Type ℓ where
  done : A → Outcome A
  fault : Outcome A
  blocked : Outcome A

infixl 5 ◌>>=◌
abbrev pub ◌>>=◌ {ℓ κ} : {A : Type ℓ} {B : Type κ} → Outcome A → (A → Outcome B) → Outcome B
done a >>= f = f a
fault >>= f = fault
blocked >>= f = blocked

-- A null pointer or an index out of range is a fault.
abbrev pub or_fault {ℓ} : {A : Type ℓ} → Option A → Outcome A
or_fault none = fault
or_fault (some a) = done a

-- What holds of the result of a call that returns.
abbrev pub Ends {ℓ} : {A : Type ℓ} → (A → Type 0) → Outcome A → Type 0
Ends P (done a) = P a
Ends P fault = Unit
Ends P blocked = Unit

pub Ends-bind {ℓ κ} :
    {A : Type ℓ} {B : Type κ} (P : A → Type 0) (Q : B → Type 0) (o : Outcome A) (f : A → Outcome B)
    → Ends P o
    → ((a : A) → P a → Ends Q (f a))
    → Ends Q (o >>= f)
Ends-bind P Q (done a) f p h = h a p
Ends-bind P Q fault f p h = tt
Ends-bind P Q blocked f p h = tt

pub Ends-any {ℓ} : {A : Type ℓ} (o : Outcome A) → Ends (λ _. Unit) o
Ends-any (done a) = tt
Ends-any fault = tt
Ends-any blocked = tt

pub Ends-weaken {ℓ} :
    {A : Type ℓ} (P Q : A → Type 0) (o : Outcome A) → ((a : A) → P a → Q a) → Ends P o → Ends Q o
Ends-weaken P Q (done a) f p = f a p
Ends-weaken P Q fault f p = tt
Ends-weaken P Q blocked f p = tt

pub Ends-intro {ℓ} :
    {A : Type ℓ} (P : A → Type 0) (o : Outcome A) → ((a : A) → o ≡ done a → P a) → Ends P o
Ends-intro P (done a) f = f a refl
Ends-intro P fault f = tt
Ends-intro P blocked f = tt

pub Ends-if {ℓ} :
    {A : Type ℓ} (P : A → Type 0) (b : Bool) (o o' : Outcome A)
    → Ends P o
    → Ends P o'
    → Ends P (if b then o else o')
Ends-if P true o o' p q = p
Ends-if P false o o' p q = q

-- The branches may use what the test says.
pub Ends-split {ℓ} :
    {A : Type ℓ} (P : A → Type 0) (b : Bool) (o o' : Outcome A)
    → (b ≡ true → Ends P o)
    → (b ≡ false → Ends P o')
    → Ends P (if b then o else o')
Ends-split P true o o' p q = p refl
Ends-split P false o o' p q = q refl

pub Ends-both {ℓ} :
    {A : Type ℓ} (P Q : A → Type 0) (o : Outcome A) → Ends P o → Ends Q o → Ends (λ a. P a × Q a) o
Ends-both P Q (done a) p q = (p, q)
Ends-both P Q fault p q = tt
Ends-both P Q blocked p q = tt

pub Ends-option {ℓ κ} :
    {A : Type ℓ} {B : Type κ} (P : B → Type 0) (o : Option A) (x : Outcome B) (f : A → Outcome B)
    → (o ≡ none → Ends P x)
    → ((a : A) → o ≡ some a → Ends P (f a))
    → Ends P (elim o [ none ↦ x | some a ↦ f a ])
Ends-option P none x f p q = p refl
Ends-option P (some a) x f p q = q a refl

pub Ends-done {ℓ} :
    {A : Type ℓ} (P : A → Type 0) {o : Outcome A} {a : A} → Ends P o → o ≡ done a → P a
Ends-done P p e = subst (Ends P) e p

-- The calls of `spin_lock_irqsave` and `spin_unlock_irqrestore` made so far, latest first.
pub data LockOp : Type 0 where
  acquire release : LockOp

abbrev pub Lock : Type 0
Lock = List LockOp

abbrev pub spin_lock : Lock → Lock
spin_lock l = acquire ∷ l

abbrev pub spin_unlock : Lock → Lock
spin_unlock l = release ∷ l

-- What such a history means for a lock that one thread uses: a lock that is taken while it is held
-- spins for ever.
pub data LockState : Type 0 where
  free held stuck : LockState

abbrev pub after_acquire : LockState → LockState
after_acquire free = held
after_acquire _ = stuck

abbrev pub after_release : LockState → LockState
after_release stuck = stuck
after_release _ = free

abbrev pub lock_state : Lock → LockState
lock_state [] = free
lock_state (acquire ∷ l) = after_acquire (lock_state l)
lock_state (release ∷ l) = after_release (lock_state l)

abbrev pub is_stuck : LockState → Bool
is_stuck stuck = true
is_stuck _ = false

-- How the kernel was built. For one processor, spin_lock_irqsave does not wait. With several it spins
-- while the lock is held, so a call whose history has a second acquisition does not come to its end.
pub data Build : Type 0 where
  one_processor smp : Build

-- The end of a call on a kernel of that build; `lock_of` finds the history in the result.
abbrev pub on_build {ℓ} : {A : Type ℓ} → Build → (A → Lock) → Outcome A → Outcome A
on_build one_processor lock_of o = o
on_build smp lock_of o = o >>= λ a. if is_stuck (lock_state (lock_of a)) then blocked else done a

pub on_smp-stuck {ℓ} :
    {A : Type ℓ} (lock_of : A → Lock) (o : Outcome A) {a : A}
    → o ≡ done a
    → lock_state (lock_of a) ≡ stuck
    → on_build smp lock_of o ≡ blocked
on_smp-stuck lock_of o e h = rw (e, h) refl

pub on_smp_runs {ℓ} :
    {A : Type ℓ} (lock_of : A → Lock) (o : Outcome A) {a : A}
    → o ≡ done a
    → is_stuck (lock_state (lock_of a)) ≡ false
    → on_build smp lock_of o ≡ done a
on_smp_runs lock_of o e h = rw (e, h) refl
