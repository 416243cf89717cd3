-- ===== src/Common/Bytes.antt =====
-- The functions of string.h that the code calls, over buffers as lists of bytes.
use Prim.Native.Nat.{ℕ, ◌≤◌}
use mathlib.Core.Path.{◌≡◌}
use mathlib.Core.Bool.{◌&&◌}
use mathlib.Core.Option
use mathlib.Core.Option.{Option, none, some}
use mathlib.Core.List.{List, [], ◌∷◌, ◌++◌}
use native.Mathlib.Omega.{arith}
use ipc_msq_multicore.Common.Tests.{leb, ◌==◌, if◌then◌else◌}
use ipc_msq_multicore.Common.Lists.{
  length, take, drop, replicate, length-append, length-take, length-drop, take-append_length,
}

-- `memcpy(dst, src, n)`; `none` is an access past the end of one of the two objects.
unfoldable pub memcpy : List ℕ → List ℕ → ℕ → Option (List ℕ)
memcpy dst src n =
    if leb n (length dst) && leb n (length src) then some (take n src ++ drop n dst) else none

-- `strncpy(dst, src, n)` for a terminated `src`: the rest of the `n` bytes is filled with 0.
unfoldable pub strncpy : List ℕ → List ℕ → ℕ → List ℕ
strncpy dst src n = take n (src ++ replicate n 0) ++ drop n dst

-- The string that a buffer holds; `none` if no 0 ends it inside the buffer.
unfoldable pub cstr : List ℕ → Option (List ℕ)
cstr [] = none
cstr (c ∷ cs) = if c == 0 then some [] else Option.map (λ s. c ∷ s) (cstr cs)

pub memcpy_fits :
    (dst src : List ℕ) (n : ℕ)
    → n ≤ length dst
    → n ≤ length src
    → memcpy dst src n ≡ some (take n src ++ drop n dst)
unfolding memcpy
memcpy_fits dst src n h k = ground arith

-- What was copied is a prefix of the target, whose length stays.
pub length-memcpy :
    (dst src : List ℕ) (n : ℕ)
    → n ≤ length dst
    → n ≤ length src
    → length (take n src ++ drop n dst) ≡ length dst
length-memcpy dst src n h k =
    omega (arith, length-append (take n src) (drop n dst), length-take n src, length-drop n dst)

pub take-memcpy :
    (dst src : List ℕ) (n : ℕ) → n ≤ length src → take n (take n src ++ drop n dst) ≡ take n src
take-memcpy dst src n k = take-append_length n _ _ (omega (arith, length-take n src))
