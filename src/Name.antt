-- ===== src/Name.antt =====
-- kernel_space/drv_chardev/drv_ipc_msgque.c: ipc_msgque_namehash. A character is the number that C
-- promotes it to, modulo 2 ^ 16, so both a signed and an unsigned `char` are covered.
pub mod Collision
use ipc_msq_multicore.Common.{
  ℕ, ◌+◌, ◌/◌, ◌%◌, List, [], ◌∷◌, Option, none, some, ◌==◌, if◌then◌else◌, u16,
}

-- The body of the loop.
unfoldable pub hash_step : ℕ → ℕ → ℕ
hash_step hash c = u16 ((if hash % 2 == 1 then 0x8000 else 0) + hash / 2 + c)

unfoldable pub hash_from : ℕ → List ℕ → ℕ
hash_from hash [] = hash
hash_from hash (c ∷ cs) = hash_from (hash_step hash c) cs

unfoldable pub namehash : Option (List ℕ) → ℕ
namehash none = 0
namehash (some name) = hash_from 0 name
