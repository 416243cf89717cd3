-- ===== src/Msgque/Trace.antt =====
-- Sequences of enqueue and dequeue calls on one queue, against the same sequence on the bounded FIFO.
use ipc_msq_multicore.Common.{
  ℕ, ◌<◌, ◌≡◌, refl, sym, ap, ◌∙◌, Option, some, List, [], ◌∷◌, arith, length, length-append, ℤ,
  All, Bool, true, false, not, ◌&&◌, ◌||◌, is_zero, if◌then◌else◌, Bool-cases, inl, inr,
}
use ipc_msq_multicore.Common.Outcome.{
  Outcome, done, blocked, ◌>>=◌, Lock, Build, one_processor, smp, on_build, on_smp-stuck,
  on_smp_runs, free, held, stuck, lock_state, is_stuck,
}
use ipc_msq_multicore.Msgque.{Msg, Msgque, enqueue, dequeue}
use ipc_msq_multicore.Msgque.Ring.{Fits, IsValid}
use ipc_msq_multicore.Msgque.Locking.{
  after_call, enqueue_lock, dequeue_lock, enqueue_stuck, dequeue_stuck,
}
use ipc_msq_multicore.Msgque.Fifo.{
  Fifo, payload, contents, length-contents, put, get, enqueue_refines, dequeue_refines,
}

-- A call with the caller's message.
pub data Call : Type 0 where
  enq : Msg → Call
  deq : Msg → Call

abbrev pub message : Call → Msg
message (enq m) = m
message (deq m) = m

abbrev pub FitsCall : Call → Type 0
FitsCall c = Fits (message c)

-- The status and what the caller's message then holds.
abbrev pub Reply : Type 0
Reply = ℤ × List ℕ

unfoldable pub step : Build → Call → Option Msgque → Lock → Outcome (Reply × Option Msgque × Lock)
step b (enq m) q l =
    on_build b (λ r. r.2) (enqueue q m l >>= λ r. done ((r.0, payload m), r.1, r.2))
step b (deq m) q l =
    on_build b (λ r. r.2) (dequeue q m l >>= λ r. done ((r.0, payload r.2), r.1, r.3))

unfoldable pub run :
    Build → List Call → Option Msgque → Lock → Outcome (List Reply × Option Msgque × Lock)
run b [] q l = done ([], q, l)
run b (c ∷ calls) q l =
    step b c q l >>= λ r. run b calls r.1 r.2 >>= λ rest. done (r.0 ∷ rest.0, rest.1, rest.2)

-- The same on the specification.
abbrev pub spec_step : Call → Fifo → Reply × Fifo
spec_step (enq m) f = let (ret, after) = put f (payload m) in ((ret, payload m), after)
spec_step (deq m) f = let (ret, x, after) = get f (payload m) in ((ret, x), after)

unfoldable pub spec_run : List Call → Fifo → List Reply × Fifo
spec_run [] f = ([], f)
spec_run (c ∷ calls) f =
    let (reply, after) = spec_step c f in
    let (replies, last) = spec_run calls after in (reply ∷ replies, last)

-- A specification that holds a message keeps one.
put-nonempty : (f : Fifo) (x : List ℕ) → 0 < length f → 0 < length (put f x).1
unfolding put
put-nonempty f x h = ground (arith, length-append f (x ∷ []))

get-nonempty : (f : Fifo) (x : List ℕ) → 0 < length f → 0 < length (get f x).2
unfolding get
get-nonempty [] x h = h
get-nonempty (a ∷ []) x h = omega arith
get-nonempty (a ∷ b ∷ f) x h = omega arith

-- What a call leaves: the queue `q'` that holds the list `f`, not empty.
abbrev Holds : Msgque → Fifo → Type 0
Holds q f = (contents q ≡ f) × IsValid q × (0 < q.count)

Holds-nonempty : (q : Msgque) (f : Fifo) → contents q ≡ f → IsValid q → 0 < length f → Holds q f
Holds-nonempty q f e v h = (e, v, omega (arith, length-contents q, ap (length {A = List ℕ}) e))

module _ (l : Lock) where
  -- What a call on one processor returns, and what it makes of the lock.
  abbrev Locks : Reply → Lock → Type 0
  Locks reply l' =
      (lock_state l ≡ free → lock_state l' ≡ after_call reply.0)
      × (lock_state l ≡ held → lock_state l' ≡ stuck)

  step_refines :
      (c : Call) {q : Msgque}
      → IsValid q
      → 0 < q.count
      → FitsCall c
      → (q' : Msgque) × (l' : Lock) × (step one_processor c (some q) l
          ≡ done ((spec_step c (contents q)).0, some q', l'))
        × Holds q' (spec_step c (contents q)).1
        × Locks (spec_step c (contents q)).0 l'
  unfolding step
  step_refines (enq m) {q} v h f =
      let (q', l', e, same, v') = enqueue_refines m l v f in
      let left = put-nonempty (contents q) (payload m) (omega (arith, length-contents q)) in
      (
        q',
        l',
        ap (λ o. o >>= λ r. done ((r.0, payload m), r.1, r.2)) e,
        Holds-nonempty q' _ same v' left,
        (λ was. enqueue_lock (some q) m l was e, λ was. enqueue_stuck (some q) m l _ was e),
      )
  step_refines (deq m) {q} v h f =
      let (q', m', l', e, given, same, v', _) = dequeue_refines m l v h f in
      let left = get-nonempty (contents q) (payload m) (omega (arith, length-contents q)) in
      (
        q',
        l',
        ap (λ o. o >>= λ r. done ((r.0, payload r.2), r.1, r.3)) e
            ∙ ap (λ x. done (((get (contents q) (payload m)).0, x), some q', l')) given,
        Holds-nonempty q' _ same v' left,
        (λ was. dequeue_lock (some q) m l was e, λ was. dequeue_stuck (some q) m l _ was e),
      )

  step_smp :
      (c : Call) (q : Option Msgque)
      → step smp c q l ≡ on_build smp (λ r. r.2) (step one_processor c q l)
  unfolding step
  step_smp (enq m) q = refl
  step_smp (deq m) q = refl

-- Some reply that is not the last is a refusal.
unfoldable pub goes_on : List Reply → Bool
goes_on [] = false
goes_on (r ∷ []) = false
goes_on (r ∷ s ∷ rs) = not (is_zero r.0) || goes_on (s ∷ rs)

abbrev pub spins : Build → Bool
spins one_processor = false
spins smp = true

-- What a run of a sequence of calls comes to.
abbrev Runs : Build → List Call → Msgque → Lock → Type 0
Runs b calls q l =
    (q' : Msgque) × (l' : Lock) × (run b calls (some q) l ≡ (
      if spins b && goes_on (spec_run calls (contents q)).0
      then blocked
      else done ((spec_run calls (contents q)).0, some q', l')))
    × (contents q' ≡ (spec_run calls (contents q)).1)
    × IsValid q'
    × (0 < q'.count)

run_refines_one :
    (calls : List Call) {q : Msgque} (l : Lock)
    → IsValid q
    → 0 < q.count
    → All FitsCall calls
    → Runs one_processor calls q l
unfolding run spec_run
run_refines_one [] {q} l v h f = (q, l, refl, refl, v, h)
run_refines_one (c ∷ calls) {q} l v h f =
    let (q1, l1, e, (same, v1, h1), _) = step_refines l c v h f.0 in
    let (q2, l2, rest, kept, v2, h2) = run_refines_one calls l1 v1 h1 f.1 in
    (q2, l2, cc (e, rest, same), kept ∙ ap (λ f. (spec_run calls f).1) same, v2, h2)

not_stuck : (r : ℤ) (l : Lock) → lock_state l ≡ after_call r → is_stuck (lock_state l) ≡ false
not_stuck r l e = ground arith

chosen :
    {A : Type 0} (z g : Bool) (x y : A)
    → z ≡ true
    → (if not z || g then x else y) ≡ (if g then x else y)
chosen z g x y e = ground arith

refused : {A : Type 0} (z g : Bool) (x y : A) → z ≡ false → (if not z || g then x else y) ≡ x
refused z g x y e = ground arith

bind-if :
    {A B : Type 0} (g : Bool) (x : A) (f : A → B)
    → ((if g then blocked else done x) >>= λ a. done (f a)) ≡ (if g then blocked else done (f x))
bind-if true x f = refl
bind-if false x f = refl

after_zero :
    (r : ℤ) (l : Lock) → lock_state l ≡ after_call r → is_zero r ≡ true → lock_state l ≡ free
after_zero r l e z = ground arith

after_refusal :
    (r : ℤ) (l : Lock) → lock_state l ≡ after_call r → is_zero r ≡ false → lock_state l ≡ held
after_refusal r l e z = ground arith

returns :
    (l : Lock) (c : Call) (q : Msgque) {reply : Reply} {q' : Option Msgque} {l' : Lock}
    → step one_processor c (some q) l ≡ done (reply, q', l')
    → lock_state l' ≡ after_call reply.0
    → step smp c (some q) l ≡ done (reply, q', l')
returns l c q {reply} {q'} {l'} e after =
    step_smp l c (some q)
    ∙ on_smp_runs (λ r. r.2) (step one_processor c (some q) l) e (not_stuck reply.0 l' after)

run_nil : (b : Build) (q : Option Msgque) (l : Lock) → run b [] q l ≡ done ([], q, l)
unfolding run
run_nil b q l = refl

-- The reply of the first call in front of those of the others.
abbrev in_front :
    Reply
    → Outcome (List Reply × Option Msgque × Lock)
    → Outcome (List Reply × Option Msgque × Lock)
in_front reply o = o >>= λ rest. done (reply ∷ rest.0, rest.1, rest.2)

run_cons :
    (b : Build) (c : Call) (calls : List Call) (q : Option Msgque) (l : Lock) {reply : Reply}
    {q' : Option Msgque} {l' : Lock}
    → step b c q l ≡ done (reply, q', l')
    → run b (c ∷ calls) q l ≡ in_front reply (run b calls q' l')
unfolding run
run_cons b c calls q l e = ap (λ o. o >>= λ r. in_front r.0 (run b calls r.1 r.2)) e

run_spins :
    (b : Build) (c : Call) (calls : List Call) (q : Option Msgque) (l : Lock)
    → step b c q l ≡ blocked
    → run b (c ∷ calls) q l ≡ blocked
unfolding run
run_spins b c calls q l e = ap (λ o. o >>= λ r. in_front r.0 (run b calls r.1 r.2)) e

abbrev ends_as : List Call → Fifo → Msgque → Lock → Outcome (List Reply × Option Msgque × Lock)
ends_as calls f q l =
    if goes_on (spec_run calls f).0 then blocked else done ((spec_run calls f).0, some q, l)

run_refines_smp :
    (calls : List Call) {q : Msgque} (l : Lock)
    → lock_state l ≡ free
    → IsValid q
    → 0 < q.count
    → All FitsCall calls
    → Runs smp calls q l
unfolding spec_run goes_on
run_refines_smp [] {q} l was v h f = (q, l, run_nil smp (some q) l, refl, v, h)
run_refines_smp (c ∷ []) {q} l was v h f =
    let (q1, l1, e, (same, v1, h1), locks) = step_refines l c v h f.0 in
    (
      q1,
      l1,
      run_cons smp c [] (some q) l (returns l c q e (locks.0 was))
          ∙ ap (in_front (spec_step c (contents q)).0) (run_nil smp (some q1) l1),
      same,
      v1,
      h1,
    )
run_refines_smp (c ∷ c' ∷ calls) {q} l was v h f =
    let (q1, l1, e, (same, v1, h1), locks) = step_refines l c v h f.0 in
    let reply = (spec_step c (contents q)).0 in
    let first = run_cons smp c (c' ∷ calls) (some q) l (returns l c q e (locks.0 was)) in
    elim (Bool-cases (is_zero reply.0)) [
      | inl ok ↦
          let (q2, l2, rest, kept, v2, h2) =
            run_refines_smp (c' ∷ calls) l1 (after_zero reply.0 l1 (locks.0 was) ok) v1 h1 f.1 in
          (
            q2,
            l2,
            first
                ∙ ap (in_front reply) (rest ∙ ap (λ f. ends_as (c' ∷ calls) f q2 l2) same)
                ∙ bind-if (goes_on (spec_run (c' ∷ calls) (spec_step c (contents q)).1).0) _
                    (λ rest. (reply ∷ rest.0, rest.1, rest.2))
                ∙ sym (chosen (is_zero reply.0) _ _ _ ok),
            kept ∙ ap (λ f. (spec_run (c' ∷ calls) f).1) same,
            v2,
            h2,
          )
      | inr refusal ↦
          let (q2, l2, e2, _, locks2) = step_refines l1 c' v1 h1 f.1.0 in
          let spin =
            step_smp l1 c' (some q1)
            ∙ on_smp-stuck (λ r. r.2) (step one_processor c' (some q1) l1) e2
                (locks2.1 (after_refusal reply.0 l1 (locks.0 was) refusal)) in
          let (q3, l3, _, kept, v3, h3) = run_refines_one (c ∷ c' ∷ calls) l v h f in
          (
            q3,
            l3,
            first
                ∙ ap (in_front reply) (run_spins smp c' calls (some q1) l1 spin)
                ∙ sym (refused (is_zero reply.0) _ _ _ refusal),
            kept,
            v3,
            h3,
          )
    ]

-- On a valid queue that holds a message, with the lock free and messages that fit, a sequence of
-- enqueue and dequeue calls leaves a valid queue that holds the specification's list and is not empty,
-- and returns what the specification returns, call by call: on a kernel for one processor always; on
-- one for several, where no call but the last is refused. Otherwise it spins there for ever, since a
-- refusal leaves the lock held.
pub run_refines :
    (b : Build) (calls : List Call) {q : Msgque} (l : Lock)
    → lock_state l ≡ free
    → IsValid q
    → 0 < q.count
    → All FitsCall calls
    → (q' : Msgque) × (l' : Lock) × (run b calls (some q) l ≡ (
        if spins b && goes_on (spec_run calls (contents q)).0
        then blocked
        else done ((spec_run calls (contents q)).0, some q', l')))
      × (contents q' ≡ (spec_run calls (contents q)).1)
      × IsValid q'
      × (0 < q'.count)
run_refines one_processor calls l was v h f = run_refines_one calls l v h f
run_refines smp calls l was v h f = run_refines_smp calls l was v h f
