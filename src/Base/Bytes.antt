-- ===== src/Base/Bytes.antt =====
-- Byte strings: `memcmp`, little-endian output, the codes of a C string literal.
use Prim.Native.Nat.{ℕ, zero, suc, ◌+◌, ◌*◌, ◌<◌}
use Prim.Native.Char.{code}
use Prim.Native.String.{String}
use mathlib.Core.Path.{◌≡◌, refl, ap, ap₂}
use mathlib.Core.Bool.{Bool, true, false, ◌&&◌}
use mathlib.Core.List.{List, [], ◌∷◌}
use native.Mathlib.Omega.{arith}
use camex.Base.Tests.{◌==◌}
use camex.Base.Lists.{length, All}
use camex.Base.Bits.{u8, ◌>>>◌}

abbrev pub codes : String → List ℕ
codes String.[] = []
codes (String.◌∷◌ c s) = code c ∷ codes s

abbrev pub IsBytes : List ℕ → Type 0
IsBytes = All (λ b. b < 256)

-- `memcmp(a, b, n) == 0` of two byte strings of length `n`, and `crypto_verify16/32`.
unfoldable pub bytes_eq : List ℕ → List ℕ → Bool
bytes_eq [] [] = true
bytes_eq [] (y ∷ ys) = false
bytes_eq (x ∷ xs) [] = false
bytes_eq (x ∷ xs) (y ∷ ys) = x == y && bytes_eq xs ys

pub bytes_eq_refl : (xs : List ℕ) → bytes_eq xs xs ≡ true
unfolding bytes_eq
bytes_eq_refl [] = refl
bytes_eq_refl (x ∷ xs) = ground (arith, bytes_eq_refl xs)

pub bytes_eq→eq : (xs ys : List ℕ) → bytes_eq xs ys ≡ true → xs ≡ ys
unfolding bytes_eq
bytes_eq→eq [] [] h = refl
bytes_eq→eq [] (y ∷ ys) h = ground arith
bytes_eq→eq (x ∷ xs) [] h = ground arith
bytes_eq→eq (x ∷ xs) (y ∷ ys) h = ap₂ ◌∷◌ (ground arith) (bytes_eq→eq xs ys (ground arith))

-- `for (i = 0; i < rounds; ++i) p[i] = (uint8_t)(n >> (8 * i))`, from round `i` on.
unfoldable pub le_bytes : ℕ → ℕ → ℕ → List ℕ
le_bytes zero i n = []
le_bytes (suc rounds) i n = u8 (n >>> (8 * i)) ∷ le_bytes rounds (i + 1) n

pub length-le_bytes : (rounds i n : ℕ) → length (le_bytes rounds i n) ≡ rounds
unfolding le_bytes
length-le_bytes zero i n = refl
length-le_bytes (suc rounds) i n = ap suc (length-le_bytes rounds (i + 1) n)
