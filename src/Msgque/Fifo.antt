-- ===== src/Msgque/Fifo.antt =====
-- A queue against a bounded FIFO of byte strings that never gives its last message away.
use mathlib.Core.Path.{◌≡⟨◌⟩◌, ◌∎, ap₂}
use native.Mathlib.Numerals.{add-one}
use ipc_msq_multicore.Common.{
  ℕ, suc, ◌-◌, ◌<◌, ◌≡◌, refl, sym, ap, ◌∙◌, List, [], ◌∷◌, ◌++◌, some, arith, length, leb,
  if◌then◌else◌, ℤ, pos, minus, take, get_or, tabulate, tabulate_snoc, tabulate_ext,
  length-tabulate, Bool-cases, inl, inr,
}
use ipc_msq_multicore.Common.Bytes.{take-memcpy}
use ipc_msq_multicore.Common.Outcome.{done, Lock, spin_lock, spin_unlock}
use ipc_msq_multicore.Msgque.{dequeued}
use ipc_msq_multicore.Msgque.Ring.{HasData}
use ipc_msq_multicore.Common.{◌≤◌}
use ipc_msq_multicore.Msgque.{Msg, Msgque, element_num, isempty, isfull, enqueue, dequeue, enqueued}
use ipc_msq_multicore.Msgque.Ring.{
  Fits, IsValid, blank, in_slot, out_slot, copied, stored, fetched, store_lem, fetch_lem,
  stored-IsValid, fetched-IsValid, isempty-iff-one, isfull-iff-full, not-full_room,
  not-empty_ne_one,
}
use ipc_msq_multicore.Msgque.Ring.{
  copied-Fits, out_slot-Fits, slot, slot-stored_old, slot-stored_new, slot-fetched,
}

abbrev pub payload : Msg → List ℕ
payload m = take m.size m.bytes

-- The specification.
abbrev pub Fifo : Type 0
Fifo = List (List ℕ)

unfoldable pub put : Fifo → List ℕ → ℤ × Fifo
put q x = if leb element_num (length q) then (minus 1, q) else (pos 0, q ++ (x ∷ []))

-- `x` is what the caller's message holds before the call.
unfoldable pub get : Fifo → List ℕ → ℤ × List ℕ × Fifo
get [] x = (minus 1, x, [])
get (a ∷ []) x = (minus 1, x, a ∷ [])
get (a ∷ b ∷ q) x = (pos 0, a, b ∷ q)

-- The message at distance `i` from the oldest.
abbrev item : Msgque → ℕ → List ℕ
item q i = payload (slot q i)

abbrev pub contents : Msgque → Fifo
contents q = tabulate (item q) q.count

pub length-contents : (q : Msgque) → length (contents q) ≡ q.count
length-contents q = length-tabulate (item q) q.count

pub payload-copied : (m d : Msg) → Fits m → payload (copied m d) ≡ payload m
payload-copied m d f = take-memcpy d.bytes m.bytes m.size (omega arith)

pub contents-stored :
    {q : Msgque} (m : Msg)
    → IsValid q
    → q.count < element_num
    → Fits m
    → contents (stored q m) ≡ contents q ++ (payload m ∷ [])
contents-stored {q} m v room f =
    contents (stored q m)
    ≡⟨ ap (tabulate (item (stored q m))) (add-one q.count) ⟩
      tabulate (item (stored q m)) (suc q.count)
    ≡⟨ tabulate_snoc (item (stored q m)) q.count ⟩
      tabulate (item (stored q m)) q.count ++ (item (stored q m) q.count ∷ [])
    ≡⟨ ap₂ (λ l x. l ++ (x ∷ []))
        (tabulate_ext _ (item q) q.count (λ i lt. ap payload (slot-stored_old m v room i lt)))
        (ap payload (slot-stored_new m v) ∙ payload-copied m (in_slot q) f) ⟩
      contents q ++ (payload m ∷ []) ∎

pub contents-fetched :
    {q : Msgque}
    → IsValid q
    → 0 < q.count
    → contents q ≡ payload (out_slot q) ∷ contents (fetched q)
contents-fetched {q} v h =
    contents q
    ≡⟨ ap (tabulate (item q)) {y = suc (q.count - 1)} (omega arith) ⟩
      tabulate (item q) (suc (q.count - 1))
    ≡⟨ ap₂ ◌∷◌ (ap (λ j. payload (get_or q.element j blank)) (omega arith)) (
        tabulate_ext _ (item (fetched q)) (q.count - 1)
          (λ i lt. ap payload (sym (slot-fetched v i)))) ⟩
      payload (out_slot q) ∷ contents (fetched q) ∎

pub enqueue_room :
    {q : Msgque} (m : Msg) (l : Lock)
    → IsValid q
    → q.count < element_num
    → Fits m
    → enqueue (some q) m l ≡ done (enqueued l (stored q m))
unfolding enqueue isfull
enqueue_room {q} m l v room f = ground (arith, store_lem m v f)

-- On a valid queue and a message that fits, enqueue does what `put` does with the queue's contents:
-- it returns the same status and leaves a valid queue that holds the same list.
pub enqueue_refines :
    {q : Msgque} (m : Msg) (l : Lock)
    → IsValid q
    → Fits m
    → let (ret, after) = put (contents q) (payload m) in
      (q' : Msgque) × (l' : Lock) × (enqueue (some q) m l ≡ done (ret, some q', l'))
      × (contents q' ≡ after)
      × IsValid q'
unfolding enqueue put
enqueue_refines {q} m l v f = elim (Bool-cases (isfull (some q))) [
  | inl full ↦
      let e : q.count ≡ element_num = (isfull-iff-full v).0 full in
      (q, spin_lock l, ground (arith, length-contents q), ground (arith, length-contents q), v)
  | inr open_slot ↦
      let room : q.count < element_num = not-full_room q open_slot in
      (
        stored q m,
        spin_unlock (spin_lock l),
        ground (arith, length-contents q, store_lem m v f),
        ground (arith, length-contents q, contents-stored m v room f),
        stored-IsValid m v room f,
      )
]

get-one : (q : Fifo) (x : List ℕ) → length q ≡ 1 → get q x ≡ (minus 1, x, q)
unfolding get
get-one [] x h = refl
get-one (a ∷ []) x h = refl
get-one (a ∷ b ∷ q) x h = absurd (omega arith)

get-more : (a x : List ℕ) (q : Fifo) → 0 < length q → get (a ∷ q) x ≡ (pos 0, a, q)
unfolding get
get-more a x [] h = absurd (omega arith)
get-more a x (b ∷ q) h = refl

-- On a valid queue that is not empty, dequeue does what `get` does with the queue's contents: it
-- returns the same status, leaves the same message with the caller and a valid queue that holds the
-- same list.
pub dequeue_refines :
    {q : Msgque} (m : Msg) (l : Lock)
    → IsValid q
    → 0 < q.count
    → Fits m
    → let (ret, x, after) = get (contents q) (payload m) in
      (q' : Msgque) × (m' : Msg) × (l' : Lock) × (dequeue (some q) m l
        ≡ done (ret, some q', m', l'))
      × (payload m' ≡ x)
      × (contents q' ≡ after)
      × IsValid q'
      × Fits m'
unfolding dequeue
dequeue_refines {q} m l v h f = elim (Bool-cases (isempty (some q))) [
  | inl hit ↦
      let one = get-one (contents q) (payload m) (length-contents q ∙ (isempty-iff-one v).0 hit) in
      (q, m, spin_lock l, ground (arith, one), ground (arith, one), ground (arith, one), v, f)
  | inr miss ↦
      let more : 0 < length (contents (fetched q)) =
        omega (arith, length-contents (fetched q), not-empty_ne_one v miss) in
      let held = out_slot-Fits v h in
      let step : get (contents q) (payload m)
          ≡ (pos 0, payload (out_slot q), contents (fetched q)) =
        rw (contents-fetched v h)
          (get-more (payload (out_slot q)) (payload m) (contents (fetched q)) more) in
      (
        fetched q,
        copied (out_slot q) m,
        spin_unlock (spin_lock l),
        ground (arith, step, fetch_lem m v h f.0),
        ground (arith, step, payload-copied (out_slot q) m held),
        ground (arith, step),
        fetched-IsValid v h,
        copied-Fits (out_slot q) m held f,
      )
]

-- With two messages or more dequeue gives the oldest.
pub dequeue_more :
    {q : Msgque} (m : Msg) (l : Lock)
    → IsValid q
    → 2 ≤ q.count
    → HasData m
    → dequeue (some q) m l ≡ done (dequeued l (fetched q, copied (out_slot q) m))
unfolding dequeue isempty
dequeue_more {q} m l v more h = ground (arith, fetch_lem m v (omega arith) h)
