-- ===== src/Io/Bytes.antt =====
-- Little-endian numbers, as `byteorder` writes and reads them.
use reql.Base.{ℕ, zero, suc, ◌+◌, ◌*◌, ◌/◌, ◌%◌, ◌<◌, Text, length, ◌≡◌, refl, [], ◌∷◌, arith}

-- The `n` low bytes of a number, the lowest first.
unfoldable pub le_bytes : ℕ → ℕ → Text
le_bytes zero v = []
le_bytes (suc n) v = (v % 256) ∷ le_bytes n (v / 256)

unfoldable pub le_value : Text → ℕ
le_value [] = 0
le_value (b ∷ bs) = b + 256 * le_value bs

pub length-le_bytes : (n v : ℕ) → length (le_bytes n v) ≡ n
unfolding le_bytes
length-le_bytes zero v = refl
length-le_bytes (suc n) v = omega (arith, length-le_bytes n (v / 256))

-- The greatest number of `n` bytes, and one.
unfoldable pub span : ℕ → ℕ
span zero = 1
span (suc n) = 256 * span n

pub le_value-le_bytes : (n v : ℕ) → v < span n → le_value (le_bytes n v) ≡ v
unfolding le_bytes le_value span
le_value-le_bytes zero v h = omega arith
le_value-le_bytes (suc n) v h = omega (arith, le_value-le_bytes n (v / 256) (omega arith))
