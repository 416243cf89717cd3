-- ===== src/Table/Tokens.antt =====
-- Paths and tokens: ipc_msgque_ftok and ipc_msgque_getTokenByKey.

use ipc_msq_multicore.Common.{
  ℕ, zero, suc, ◌<◌, ◌≡◌, ◌≢◌, refl, Option, none, some, List, [], ◌∷◌, ◌++◌, arith, Bool, true,
  false, ◌||◌, ◌==◌, Bool-cases, inl, inr, length, get_or, take, drop, replicate, All,
}
use ipc_msq_multicore.Common.Bytes.{cstr, strncpy}
use ipc_msq_multicore.Common.Outcome.{done}
use ipc_msq_multicore.Name.{namehash}
use ipc_msq_multicore.Msqinfo.{Msqinfo, Kernel, token_max}
use ipc_msq_multicore.Table.{
  find_token, get_token_by_key, fill_token, ftok, unlocked, locked, with_info,
}

-- A buffer that holds a terminated string.
abbrev pub IsString : List ℕ → Type 0
IsString t = (s : List ℕ) × (cstr t ≡ some s)

-- A path: no character is 0, and the terminator fits behind it.
abbrev pub IsPath : List ℕ → Type 0
IsPath p = All (λ c. c ≢ 0) p × (length p < token_max)

cstr-padded :
    (p r : List ℕ) (n m : ℕ)
    → All (λ c. c ≢ 0) p
    → length p < n
    → 0 < m
    → cstr (take n (p ++ replicate m 0) ++ r) ≡ some p
unfolding cstr
cstr-padded [] r zero m h lt pm = absurd (omega arith)
cstr-padded [] r (suc n) zero h lt pm = absurd (omega arith)
cstr-padded [] r (suc n) (suc m) h lt pm = refl
cstr-padded (c ∷ p) r zero m h lt pm = absurd (omega arith)
cstr-padded (c ∷ p) r (suc n) m h lt pm = ground (arith, h.0, cstr-padded p r n m h.1)

-- A stored path is read back as it is.
pub cstr-strncpy : (t p : List ℕ) → IsPath p → cstr (strncpy t p token_max) ≡ some p
unfolding strncpy
cstr-strncpy t p h = cstr-padded p (drop token_max t) token_max token_max h.0 h.1 (omega arith)

-- The search goes past strings only, and ends at a string that has the key.
pub find_token-total :
    (key n : ℕ) (ts : List (List ℕ))
    → All IsString ts
    → (o : Option ℕ) × (find_token key n ts ≡ done o)
unfolding find_token
find_token-total key n [] h = (none, refl)
find_token-total key n (t ∷ ts) h =
    let (s, e) = h.0 in
    elim (Bool-cases (namehash (some s) == key)) [
      | inl hit ↦ (some n, rw (e, find_token, hit))
      | inr miss ↦
          let (o, rest) = find_token-total key (suc n) ts h.1 in (o, rw (e, find_token, miss) rest)
    ]

-- Some token is empty.
abbrev pub has_empty : List (List ℕ) → Bool
has_empty [] = false
has_empty (t ∷ ts) = get_or t 0 0 == 0 || has_empty ts

-- The tokens after the path `p` was stored, when searched from index `n` on.
record Filled (p : List ℕ) (n : ℕ) (us : List (List ℕ)) : Type 0 where
  strings : All IsString us
  found : (j : ℕ) × (find_token (namehash (some p)) n us ≡ done (some j))

hash_hit :
    (key n : ℕ) (s t : List ℕ) (ts : List (List ℕ))
    → cstr t ≡ some s
    → (namehash (some s) == key) ≡ true
    → find_token key n (t ∷ ts) ≡ done (some n)
unfolding find_token
hash_hit key n s t ts e hit = rw (e, hit)

Filled-cons :
    (p s t : List ℕ) (n : ℕ) (us : List (List ℕ))
    → cstr t ≡ some s
    → Filled p (suc n) us
    → Filled p n (t ∷ us)
unfolding find_token
Filled-cons p s t n us e f = record {
  strings = ((s, e), f.strings);
  found = elim (Bool-cases (namehash (some s) == namehash (some p))) [
    | inl hit ↦ (n, hash_hit (namehash (some p)) n s t us e hit)
    | inr miss ↦ (f.found.0, rw (e, find_token, miss) f.found.1)
  ];
}

fill_token-Filled :
    (p : List ℕ) (n : ℕ) (ts : List (List ℕ))
    → IsPath p
    → All IsString ts
    → has_empty ts ≡ true
    → (us : List (List ℕ)) × (fill_token (some p) ts ≡ done us) × Filled p n us
unfolding fill_token
fill_token-Filled p n [] h s e = cc
fill_token-Filled p n (t ∷ ts) h s e = elim (Bool-cases (get_or t 0 0 == 0)) [
  | inl empty ↦
      let back = cstr-strncpy t p h in
      (
        strncpy t p token_max ∷ ts,
        rw empty,
        record {
          strings = ((p, back), s.1);
          found = (n, hash_hit (namehash (some p)) n p _ ts back (ground arith));
        },
      )
  | inr full ↦
      let (us, e', f) = fill_token-Filled p (suc n) ts h s.1 (rw full at e) in
      (t ∷ us, rw (full, e'), Filled-cons p s.0.0 t n us s.0.1 f)
]

-- If a token is empty, ipc_msgque_ftok returns the hash of a path that fits a token, and from then on
-- a token with that key is found; the tokens stay terminated strings.
pub ftok_then_token :
    (p : List ℕ) (k : Kernel) {m : Msqinfo}
    → k.info ≡ some m
    → IsPath p
    → All IsString m.tokens
    → has_empty m.tokens ≡ true
    → (k' : Kernel) × (j : ℕ) × (ts : List (List ℕ)) × (ftok (some p) k
        ≡ done (namehash (some p), k'))
      × (k'.info ≡ some (record m { tokens = ts }))
      × All IsString ts
      × (get_token_by_key (namehash (some p)) k' ≡ done (some j))
unfolding ftok get_token_by_key
ftok_then_token p k {m} here h s e =
    let (ts, filled, f) = fill_token-Filled p 0 m.tokens h s e in
    (
      unlocked (with_info (record m { tokens = ts }) (locked k)),
      f.found.0,
      ts,
      ground (arith, filled),
      refl,
      f.strings,
      f.found.1,
    )

fill_token_full :
    (path : Option (List ℕ)) (ts : List (List ℕ))
    → has_empty ts ≡ false
    → fill_token path ts ≡ done ts
unfolding fill_token
fill_token_full path [] e = refl
fill_token_full path (t ∷ ts) e = ground (arith, fill_token_full path ts)

-- If no token is empty, ipc_msgque_ftok stores nothing, and returns the hash of the path all the same.
pub ftok_full :
    (p : List ℕ) (k : Kernel) {m : Msqinfo}
    → k.info ≡ some m
    → has_empty m.tokens ≡ false
    → (k' : Kernel) × (ftok (some p) k ≡ done (namehash (some p), k')) × (k'.info ≡ some m)
unfolding ftok
ftok_full p k {m} here e =
    (unlocked (with_info m (locked k)), ground (arith, fill_token_full (some p) m.tokens e), refl)
