-- ===== src/Sender/Exclusion.antt =====
-- Any interleaving of threads that lock and unlock senders: who holds which sender.
use ipc_msq_multicore.Common.{
  ℕ, ◌+◌, ◌-◌, ◌<◌, ◌≤◌, ◌≡◌, ◌≢◌, sym, ap, ◌∙◌, Option-cases, Bool-cases, inl, inr, false, none,
  some, arith, ◌==◌, if◌then◌else◌, get_elem?, set, get_elem?-set_cases, All, All-get_elem?,
}
use ipc_msq_multicore.Common.Outcome.{done, blocked}
use ipc_msq_multicore.Msqinfo.{SndmsgBuff, Msqinfo, Kernel}
use ipc_msq_multicore.Sender.{entry, put_buff, swap_buff, lock_snd_msg_buff, unlock_snd_msg_buff}

-- The number of threads that hold an entry of the table of senders.
abbrev pub Holders : Type 0
Holders = ℕ → ℕ

-- One step of some thread from the state `k` with the holders `h`: it gets a sender that no signal
-- disturbs, it gives one back, or it changes something else of the kernel.
pub data Step (k k' : Kernel) (h h' : Holders) : Type 0 where
  lock :
      (send_to p : ℕ)
      → lock_snd_msg_buff false send_to k ≡ done (some p, k')
      → ((e : ℕ) → h' e ≡ (if e == entry send_to then h e + 1 else h e))
      → Step k k' h h'
  unlock :
      (send_to : ℕ)
      → 0 < h (entry send_to)
      → unlock_snd_msg_buff send_to k ≡ done k'
      → ((e : ℕ) → h' e ≡ (if e == entry send_to then h e - 1 else h e))
      → Step k k' h h'
  elsewhere :
      (m : Msqinfo)
      → k.info ≡ some m
      → ((m' : Msqinfo) → k'.info ≡ some m' → m'.buffs ≡ m.buffs)
      → ((e : ℕ) → h' e ≡ h e)
      → Step k k' h h'

pub data Reach (k : Kernel) (h : Holders) : Kernel → Holders → Type 0 where
  here : Reach k h k h
  next :
      {k' k'' : Kernel} {h' h'' : Holders}
      → Reach k h k' h'
      → Step k' k'' h' h''
      → Reach k h k'' h''

-- The semaphore of an entry counts what its holders leave of one.
pub record IsExclusive (k : Kernel) (h : Holders) : Type 0 where
  pub one :
      (m : Msqinfo) (e : ℕ) (b : SndmsgBuff)
      → k.info ≡ some m
      → get_elem? m.buffs e ≡ some b
      → b.semid + h e ≡ 1

lock_inverse :
    (send_to p : ℕ) (k k' : Kernel)
    → lock_snd_msg_buff false send_to k ≡ done (some p, k')
    → (m : Msqinfo) × (b : SndmsgBuff) × (k.info ≡ some m)
      × (get_elem? m.buffs (entry send_to) ≡ some b)
      × (0 < b.semid)
      × (k'.info
          ≡ some (put_buff (entry send_to) (swap_buff (record b { semid = b.semid - 1 })).1 m))
unfolding lock_snd_msg_buff
lock_inverse send_to p k k' e = elim (Option-cases k.info) [
  | inl null ↦ absurd (ground arith)
  | inr (m, info) ↦ elim (Option-cases (get_elem? m.buffs (entry send_to))) [
    | inl out ↦ absurd (ground arith)
    | inr (b, at) ↦ elim (Bool-cases (b.semid == 0)) [
      | inl busy ↦ absurd (ground arith)
      | inr free ↦ (m, b, info, at, ground arith, ground arith)
    ]
  ]
]

unlock_inverse :
    (send_to : ℕ) (k k' : Kernel) {m : Msqinfo}
    → k.info ≡ some m
    → unlock_snd_msg_buff send_to k ≡ done k'
    → (b : SndmsgBuff) × (get_elem? m.buffs (entry send_to) ≡ some b)
      × (k'.info ≡ some (put_buff (entry send_to) (record b { semid = b.semid + 1 }) m))
unfolding unlock_snd_msg_buff
unlock_inverse send_to k k' {m} info e = elim (Option-cases (get_elem? m.buffs (entry send_to))) [
  | inl out ↦ absurd (ground arith)
  | inr (b, at) ↦ (b, at, ground arith)
]

-- One entry was written, and the holders of no other entry changed.
written-IsExclusive :
    (E : ℕ) (nb : SndmsgBuff) (m : Msqinfo) (k k' : Kernel) (h h' : Holders)
    → IsExclusive k h
    → k.info ≡ some m
    → k'.info ≡ some (put_buff E nb m)
    → nb.semid + h' E ≡ 1
    → ((e : ℕ) → E ≢ e → h' e ≡ h e)
    → IsExclusive k' h'
written-IsExclusive E nb m k k' h h' x info info' now others = record {
  one = λ m' e b' there at'.
      let same : m'.buffs ≡ set m.buffs E nb = cc (there, info') in
      elim (get_elem?-set_cases m.buffs E e nb b' (sym (ap (λ l. get_elem? l e) same) ∙ at')) [
        | inl (hit, new) ↦ ap (λ b. b.semid + h' e) new ∙ ap (λ i. nb.semid + h' i) (sym hit) ∙ now
        | inr (miss, old) ↦ ap (λ n. b'.semid + n) (others e miss) ∙ x.one m e b' info old
      ];
}

unlock_none :
    (send_to : ℕ) (k k' : Kernel) {m : Msqinfo}
    → k.info ≡ none
    → unlock_snd_msg_buff send_to k ≡ done k'
    → k'.info ≡ some m
    → ⊥
unfolding unlock_snd_msg_buff
unlock_none send_to k k' null e there = ground arith

at_self : {A : Type 0} (E : ℕ) (n x y : A) → n ≡ (if E == E then x else y) → n ≡ x
at_self E n x y e = ground arith

at_other : {A : Type 0} (E e : ℕ) (n x y : A) → E ≢ e → n ≡ (if e == E then x else y) → n ≡ y
at_other E e n x y ne eq = ground arith

semid-swap_buff : (b : SndmsgBuff) → (swap_buff b).1.semid ≡ b.semid
semid-swap_buff b = ground arith

Step-IsExclusive :
    {k k' : Kernel} {h h' : Holders} → Step k k' h h' → IsExclusive k h → IsExclusive k' h'
Step-IsExclusive {k} {k'} {h} {h'} (lock send_to p locked more) x =
    let (m, b, info, at, free, info') = lock_inverse send_to p k k' locked in
    written-IsExclusive (entry send_to) _ m k k' h h' x info info'
      (omega (
        arith,
        semid-swap_buff (record b { semid = b.semid - 1 }),
        x.one m (entry send_to) b info at,
        at_self (entry send_to) (h' (entry send_to)) (h (entry send_to) + 1) (h (entry send_to))
            (more (entry send_to)),
      ))
      (λ e ne. at_other (entry send_to) e (h' e) (h e + 1) (h e) ne (more e))
Step-IsExclusive {k} {k'} {h} {h'} (unlock send_to held unlocked less) x =
    elim (Option-cases k.info) [
      | inl null ↦ record {
        one = λ m e b info at. absurd (unlock_none send_to k k' null unlocked info);
      }
      | inr (m, info) ↦
          let (b, at, info') = unlock_inverse send_to k k' info unlocked in
          written-IsExclusive (entry send_to) _ m k k' h h' x info info'
            (omega (
              arith,
              x.one m (entry send_to) b info at,
              at_self (entry send_to) (h' (entry send_to)) (h (entry send_to) - 1)
                  (h (entry send_to)) (less (entry send_to)),
            ))
            (λ e ne. at_other (entry send_to) e (h' e) (h e - 1) (h e) ne (less e))
    ]
Step-IsExclusive {k} {k'} {h} {h'} (elsewhere m info kept same) x = record {
  one = λ m' e b info' at.
      ap (λ n. b.semid + n) (same e)
      ∙ x.one m e b info (sym (ap (λ l. get_elem? l e) (kept m' info')) ∙ at);
}

Reach-IsExclusive :
    {k : Kernel} {h : Holders} {k' : Kernel} {h' : Holders}
    → IsExclusive k h
    → Reach k h k' h'
    → IsExclusive k' h'
Reach-IsExclusive x here = x
Reach-IsExclusive x (next r st) = Step-IsExclusive st (Reach-IsExclusive x r)

start_one :
    (m n : Msqinfo) (k : Kernel) (e : ℕ) (c : SndmsgBuff)
    → k.info ≡ some m
    → k.info ≡ some n
    → All (λ b. b.semid ≡ 1) m.buffs
    → get_elem? n.buffs e ≡ some c
    → c.semid + 0 ≡ 1
start_one m n k e c info there free at =
    let same : n.buffs ≡ m.buffs = cc (info, there) in
    omega (
      arith,
      All-get_elem? (λ b. b.semid ≡ 1) m.buffs e c free (sym (ap (λ l. get_elem? l e) same) ∙ at),
    )

-- From senders that are all free, however threads lock and unlock them, as long as no signal interrupts a
-- wait and who unlocks has locked: no sender of the table has two holders, and a thread that asks for
-- one that has a holder waits.
pub senders_exclude :
    (k k' : Kernel) (h' : Holders) (m m' : Msqinfo) (send_to : ℕ) (b : SndmsgBuff)
    → k.info ≡ some m
    → All (λ b. b.semid ≡ 1) m.buffs
    → Reach k (λ e. 0) k' h'
    → k'.info ≡ some m'
    → get_elem? m'.buffs (entry send_to) ≡ some b
    → (h' (entry send_to) ≤ 1)
      × (0 < h' (entry send_to) → lock_snd_msg_buff false send_to k' ≡ blocked)
unfolding lock_snd_msg_buff
senders_exclude k k' h' m m' send_to b info free r info' at =
    let start : IsExclusive k (λ e. 0) = record {
      one = λ n e c there here_c. start_one m n k e c info there free here_c;
    } in
    let counted = (Reach-IsExclusive start r).one m' (entry send_to) b info' at in
    (omega (arith, counted), λ held. ground (arith, counted))
