-- ===== src/Main/Closing.antt =====
-- ipc_release: the loop over the queues of a file.
use ipc_msq_multicore.Common.{
  ℕ, true, ◌<◌, ◌⊎◌, zero, suc, ◌≡◌, ◌≢◌, refl, sym, ap, ◌∙◌, Option, none, some, List, [], ◌∷◌,
  arith, ◌==◌, ℤ, minus, All, All-set, All-get_elem?, get_elem?, set, get_elem?-set_ne,
  Option-cases, Bool-cases, inl, inr,
}
use std.Path.{subst}
use ipc_msq_multicore.Common.Bytes.{cstr}
use ipc_msq_multicore.Common.Outcome.{
  done, Lock, LockState, free, lock_state, is_stuck, on_build, smp, on_smp_runs,
}
use ipc_msq_multicore.Msgque.{Msgque}
use ipc_msq_multicore.Msqinfo.{Msqinfo, Kernel, queue_num, clear_token}
use ipc_msq_multicore.Table.{
  get_que_by_id, get_token_by_key, rel, release_queue, clear_name, put_queue, is_used, locked,
  unlocked,
}
use ipc_msq_multicore.Table.Lookup.{tbl-clear_name, get_que_by_id-some}
use ipc_msq_multicore.Table.Tokens.{IsString, find_token-total}
use ipc_msq_multicore.Main.{Driver, bit, release_from, release_file, with_kernel}

-- The tables of a driver whose tokens are strings.
abbrev pub HasTable : Kernel → Msqinfo → Type 0
HasTable k m = (k.info ≡ some m) × All IsString m.tokens

clear_token-IsString : (t : List ℕ) → IsString t → IsString (clear_token t)
unfolding cstr
clear_token-IsString [] s = s
clear_token-IsString (c ∷ cs) s = ([], refl)

clear_name-some :
    (j : ℕ) (m : Msqinfo) (t : List ℕ)
    → get_elem? m.tokens j ≡ some t
    → (clear_name j m).tokens ≡ set m.tokens j (clear_token t)
clear_name-some j m t at = ground arith

clear_name-none :
    (j : ℕ) (m : Msqinfo) → get_elem? m.tokens j ≡ none → (clear_name j m).tokens ≡ m.tokens
clear_name-none j m out = ground arith

clear_name-IsString :
    (j : ℕ) (m : Msqinfo) → All IsString m.tokens → All IsString (clear_name j m).tokens
clear_name-IsString j m h = elim (Option-cases (get_elem? m.tokens j)) [
  | inl out ↦ subst (All IsString) (sym (clear_name-none j m out)) h
  | inr (t, at) ↦ subst (All IsString) (sym (clear_name-some j m t at)) (
      All-set IsString m.tokens j (clear_token t) h
        (clear_token-IsString t (All-get_elem? IsString m.tokens j t h at)))
]

-- The queues other than `i` are as before.
abbrev pub SameBut : ℕ → Msqinfo → Msqinfo → Type 0
SameBut i m m' = (j : ℕ) → i ≢ j → get_elem? m'.tbl j ≡ get_elem? m.tbl j

abbrev pub UsedAt : ℕ → Msqinfo → Type 0
UsedAt i m = (q : Msgque) × (get_elem? m.tbl i ≡ some q) × (is_used q ≡ true)

-- What ipc_msgque_rel leaves: from a free lock, either it is free again or the queue stays in use.
abbrev Left : ℕ → Msqinfo → LockState → ℤ × Kernel → Type 0
Left i m was r =
    (m' : Msqinfo) × HasTable r.1 m'
    × SameBut i m m'
    × (was ≡ free → (lock_state r.1.lock ≡ free) ⊎ UsedAt i m')

release_queue-Left :
    (i : ℕ) (q : Msgque) (token : Option ℕ) (k : Kernel) (m : Msqinfo)
    → HasTable k m
    → get_elem? m.tbl i ≡ some q
    → is_used q ≡ true
    → Left i m (lock_state k.lock) (release_queue i q token (locked k))
unfolding release_queue
release_queue-Left i q none k m h at used = (m, h, λ j ne. refl, λ was. inr (q, at, used))
release_queue-Left i q (some t) k m h at used = (
  put_queue i (record q { initkey = 0 }) (clear_name t m),
  (ground (arith, h.0), clear_name-IsString t m h.1),
  λ j ne.
      get_elem?-set_ne (clear_name t m).tbl i j (record q { initkey = 0 }) ne
      ∙ ap (λ qs. get_elem? qs j) (tbl-clear_name t m),
  λ was. inl (ground arith),
)

-- ipc_msgque_rel returns, and touches no queue but its own.
rel_total :
    (i : ℕ) (k : Kernel) (m : Msqinfo)
    → HasTable k m
    → (r : ℤ × Kernel) × (rel i k ≡ done r) × Left i m (lock_state k.lock) r
unfolding rel get_token_by_key
rel_total i k m (here, strings) = elim (Option-cases (get_que_by_id i k)) [
  | inl absent ↦ (
    (minus 1, unlocked (locked k)),
    ground (arith, absent),
    (m, (here, strings), λ j ne. refl, λ was. inl (ground arith)),
  )
  | inr (q, known) ↦
      let (token, found) = find_token-total q.sharekey 0 m.tokens strings in
      let (at, used, _) = get_que_by_id-some i k q here known in
      (
        release_queue i q token (locked k),
        ground (arith, known, found),
        release_queue-Left i q token k m (here, strings) at used,
      )
]

-- The queues whose bit is not set are as before.
abbrev pub Kept : ℕ → Msqinfo → Msqinfo → Type 0
Kept bits m m' = (j : ℕ) → bit bits j ≢ 1 → get_elem? m'.tbl j ≡ get_elem? m.tbl j

-- Some queue whose bit is set is still in use.
abbrev pub Unreleased : ℕ → Msqinfo → Type 0
Unreleased bits m = (j : ℕ) × (bit bits j ≡ 1) × UsedAt j m

-- What the loop from `i` on leaves.
abbrev Loop : ℕ → ℕ → Msqinfo → LockState → ℤ × Kernel → Type 0
Loop i bits m was r =
    (m' : Msqinfo) × HasTable r.1 m'
    × Kept bits m m'
    × ((j : ℕ) → j < i → get_elem? m'.tbl j ≡ get_elem? m.tbl j)
    × (was ≡ free → (lock_state r.1.lock ≡ free) ⊎ Unreleased bits m')

release_from_total :
    (n i bits : ℕ) (ret : ℤ) (k : Kernel) (m : Msqinfo)
    → HasTable k m
    → (r : ℤ × Kernel) × (release_from n i bits ret k ≡ done r)
      × Loop i bits m (lock_state k.lock) r
unfolding release_from
release_from_total zero i bits ret k m h =
    ((ret, k), refl, (m, h, λ j o. refl, λ j lt. refl, λ was. inl was))
release_from_total (suc n) i bits ret k m h = elim (Bool-cases (bit bits i == 1)) [
  | inl set_bit ↦
      let one : bit bits i ≡ 1 = ground arith in
      let (r1, e1, (m1, h1, same, after)) = rel_total i k m h in
      let (r, e, (m', h', kept, before, last)) =
        release_from_total n (suc i) bits r1.0 r1.1 m1 h1 in
      (
        r,
        ground (arith, e1, e),
        (
          m',
          h',
          λ j o. kept j o ∙ same j (λ here. o (ap (bit bits) (sym here) ∙ one)),
          λ j lt. before j (omega arith) ∙ same j (λ here. omega (arith, here)),
          λ was. elim (after was) [
            | inl again ↦ last again
            | inr (q, at, used) ↦ inr (i, one, (q, before i (omega arith) ∙ at, used))
          ],
        ),
      )
  | inr clear ↦
      let (r, e, (m', h', kept, before, last)) = release_from_total n (suc i) bits ret k m h in
      (r, ground (arith, e), (m', h', kept, λ j lt. before j (omega arith), last))
]

-- The lock after a call of ipc_release.
abbrev pub file_lock : ℤ × Driver → Lock
file_lock r = r.1.sys.kernel.lock

-- On an open file, when every token buffer holds a terminated string and the lock is free, ipc_release
-- on a kernel for one processor returns, whatever the bits of the file: the file is closed, the token
-- buffers hold strings again, and the queues whose bit is not set are as they were. On a kernel for
-- several processors it returns the same, and with the lock free, unless a queue whose bit is set is in
-- use after all.
pub release_file_returns :
    (ret : ℤ) (d : Driver) (m : Msqinfo) {bits : ℕ}
    → d.file ≡ some bits
    → HasTable d.sys.kernel m
    → lock_state d.sys.kernel.lock ≡ free
    → (r : ℤ × Driver) × (m' : Msqinfo) × (release_file ret d ≡ done r)
      × (r.1.file ≡ none)
      × HasTable r.1.sys.kernel m'
      × Kept bits m m'
      × (((on_build smp file_lock (release_file ret d) ≡ done r)
            × (lock_state (file_lock r) ≡ free))
          ⊎ Unreleased bits m')
unfolding release_file
release_file_returns ret d m {bits} file h was =
    let (r, e, (m', h', kept, _, last)) =
      release_from_total queue_num 0 bits ret d.sys.kernel m h in
    let out : ℤ × Driver = (r.0, record (with_kernel d r.1) { file = none }) in
    let closed : release_file ret d ≡ done out = ground (arith, e) in
    (
      out,
      m',
      closed,
      refl,
      h',
      kept,
      elim (last was) [
        | inl again ↦
            inl (on_smp_runs file_lock (release_file ret d) closed (ap is_stuck again), again)
        | inr left ↦ inr left
      ],
    )
