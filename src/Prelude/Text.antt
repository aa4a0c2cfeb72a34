-- ===== src/Prelude/Text.antt =====
-- Byte strings: lists of byte values without the terminating NUL.
use Prim.Native.Nat.{ℕ}
use Prim.Native.Char.{code}
use Prim.Native.String.{String}
use mathlib.Core.Path.{◌≡◌, refl, ap₂}
use mathlib.Core.Bool.{Bool, true, false, ◌&&◌}
use mathlib.Core.List.{List, [], ◌∷◌, ◌++◌}
use mathlib.Core.Option.{Option, none, some}
use native.Mathlib.Omega.{arith}
use nfsmw_arm_linux.Prelude.Tests.{◌==◌, if◌then◌else◌}

abbrev pub Bytes : Type 0
Bytes = List ℕ

-- The bytes of an ASCII text.
abbrev pub codes : String → Bytes
codes String.[] = []
codes (String.◌∷◌ c s) = code c ∷ codes s

-- `strcmp(xs, ys) == 0`.
unfoldable pub same_bytes : Bytes → Bytes → Bool
same_bytes [] [] = true
same_bytes [] (y ∷ ys) = false
same_bytes (x ∷ xs) [] = false
same_bytes (x ∷ xs) (y ∷ ys) = x == y && same_bytes xs ys

-- What follows a prefix, if the string begins with it: `strncmp(xs, prefix, strlen(prefix)) == 0`.
unfoldable pub strip_prefix : Bytes → Bytes → Option Bytes
strip_prefix [] xs = some xs
strip_prefix (p ∷ ps) [] = none
strip_prefix (p ∷ ps) (x ∷ xs) = let rest = strip_prefix ps xs in if p == x then rest else none

pub eq_of_same_bytes : (xs ys : Bytes) → same_bytes xs ys ≡ true → xs ≡ ys
unfolding same_bytes
eq_of_same_bytes [] [] h = refl
eq_of_same_bytes [] (y ∷ ys) h = absurd (cc h)
eq_of_same_bytes (x ∷ xs) [] h = absurd (cc h)
eq_of_same_bytes (x ∷ xs) (y ∷ ys) h =
    ap₂ ◌∷◌ (ground arith) (eq_of_same_bytes xs ys (ground arith))

pub same_bytes_refl : (xs : Bytes) → same_bytes xs xs ≡ true
unfolding same_bytes
same_bytes_refl [] = refl
same_bytes_refl (x ∷ xs) = ground (arith, same_bytes_refl xs)

pub strip_prefix-append : (ps xs : Bytes) → strip_prefix ps (ps ++ xs) ≡ some xs
unfolding strip_prefix
strip_prefix-append [] xs = refl
strip_prefix-append (p ∷ ps) xs = ground (arith, strip_prefix-append ps xs)

pub strip_prefix-some :
    (ps xs : Bytes) {rest : Bytes} → strip_prefix ps xs ≡ some rest → xs ≡ ps ++ rest
unfolding strip_prefix
strip_prefix-some [] xs h = ground arith
strip_prefix-some (p ∷ ps) [] h = absurd (ground arith)
strip_prefix-some (p ∷ ps) (x ∷ xs) {rest} h = ground (arith, strip_prefix-some ps xs {rest = rest})

pub same_bytes_comm : (xs ys : Bytes) → same_bytes xs ys ≡ same_bytes ys xs
unfolding same_bytes
same_bytes_comm [] [] = refl
same_bytes_comm [] (y ∷ ys) = refl
same_bytes_comm (x ∷ xs) [] = refl
same_bytes_comm (x ∷ xs) (y ∷ ys) = ground (arith, same_bytes_comm xs ys)
