-- ===== src/Prelude/Word.antt =====
-- 64-bit words. An `int64` is kept as its bit pattern below 2^64; a pattern below 2^63 is its own
-- value, the others are negative.
use Prim.Native.Nat.{ℕ, ◌+◌, ◌-◌, ◌%◌, ◌^◌, ◌<◌}
use mathlib.Core.Path.{◌≡◌}
use mathlib.Core.Bool.{Bool, ◌&&◌}
use native.Mathlib.Omega.{arith}
use pgstorm.Prelude.Tests.{ltb}

abbrev pub word : ℕ
word = 2 ^ 64

abbrev pub half_word : ℕ
half_word = 2 ^ 63

-- `a + b`
abbrev pub add64 : ℕ → ℕ → ℕ
add64 a b = (a + b) % word

-- `a - b`
abbrev pub sub64 : ℕ → ℕ → ℕ
sub64 a b = (a + (word - b % word)) % word

-- `0 < a`
abbrev pub is_positive : ℕ → Bool
is_positive a = ltb 0 a && ltb a half_word

pub add64_assoc : (a b c : ℕ) → add64 (add64 a b) c ≡ add64 a (add64 b c)
add64_assoc a b c = omega arith

pub add64_comm : (a b : ℕ) → add64 a b ≡ add64 b a
add64_comm a b = omega arith

pub sub64-add64 : (a b : ℕ) → a < word → b < word → sub64 (add64 a b) b ≡ a
sub64-add64 a b h k = omega arith

-- `a < b`, of the signed values.
abbrev pub lt_signed : ℕ → ℕ → Bool
lt_signed a b = ltb ((a + half_word) % word) ((b + half_word) % word)
