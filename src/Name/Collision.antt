-- ===== src/Name/Collision.antt =====
-- What the hash of a name tells of the name.
use ipc_msq_multicore.Common.{
  ℕ, ◌^◌, ◌<◌, ◌≡◌, ◌≢◌, refl, List, [], ◌∷◌, ◌++◌, some, arith, Option, none,
}
use ipc_msq_multicore.Name.{hash_step, hash_from, namehash}

hash_step-lt : (h c : ℕ) → hash_step h c < 2 ^ 16
unfolding hash_step
hash_step-lt h c = ground arith

hash_from-lt : (h : ℕ) (cs : List ℕ) → h < 2 ^ 16 → hash_from h cs < 2 ^ 16
unfolding hash_from
hash_from-lt h [] lt = lt
hash_from-lt h (c ∷ cs) lt = hash_from-lt (hash_step h c) cs (hash_step-lt h c)

-- A hash fits a UINT16.
pub namehash-lt : (name : Option (List ℕ)) → namehash name < 2 ^ 16
unfolding namehash
namehash-lt none = omega arith
namehash-lt (some name) = hash_from-lt 0 name (omega arith)

-- The loop is reversible: its body rotates the hash by one bit and adds the character.
hash_step-injective : (h k c : ℕ) → h < 2 ^ 16 → k < 2 ^ 16 → hash_step h c ≡ hash_step k c → h ≡ k
unfolding hash_step
hash_step-injective h k c hh hk e = ground arith

hash_step-injective_char :
    (h c d : ℕ) → c < 2 ^ 16 → d < 2 ^ 16 → hash_step h c ≡ hash_step h d → c ≡ d
unfolding hash_step
hash_step-injective_char h c d hc hd e = ground arith

hash_from-injective :
    (h k : ℕ) (cs : List ℕ) → h < 2 ^ 16 → k < 2 ^ 16 → hash_from h cs ≡ hash_from k cs → h ≡ k
unfolding hash_from
hash_from-injective h k [] hh hk e = e
hash_from-injective h k (c ∷ cs) hh hk e =
    hash_step-injective h k c hh hk (
      hash_from-injective (hash_step h c) (hash_step k c) cs (hash_step-lt h c) (hash_step-lt k c)
        e)

hash_from-append : (h : ℕ) (cs ds : List ℕ) → hash_from h (cs ++ ds) ≡ hash_from (hash_from h cs) ds
unfolding hash_from
hash_from-append h [] ds = refl
hash_from-append h (c ∷ cs) ds = hash_from-append (hash_step h c) cs ds

-- Two names that differ in one character, at the same place, have different hashes.
pub namehash-substitution :
    (pre post : List ℕ) (c d : ℕ)
    → c < 2 ^ 16
    → d < 2 ^ 16
    → c ≢ d
    → namehash (some (pre ++ (c ∷ post))) ≢ namehash (some (pre ++ (d ∷ post)))
unfolding namehash hash_from
namehash-substitution pre post c d hc hd ne e = ne (
    hash_step-injective_char (hash_from 0 pre) c d hc hd (
      hash_from-injective _ _ post (hash_step-lt _ c) (hash_step-lt _ d)
        (rw (hash_from-append 0 pre (c ∷ post), hash_from-append 0 pre (d ∷ post)) at e)))
