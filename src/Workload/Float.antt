-- ===== src/Workload/Float.antt =====
-- What the statistics use of Go's `float64`, `math` and `time.Duration`.
--
-- The type and its operations are a parameter: nothing is assumed of rounding. `exact` is an
-- instance, in millionths and without negative values, on which the definitions run.
use pgstorm.Prelude.{
  ℕ, zero, suc, ◌+◌, ◌-◌, ◌*◌, ◌/◌, ◌%◌, ◌^◌, ℤ, pos, negsuc, pos_part, Bool, ltb, leb, half_word,
  word, if◌then◌else◌,
}

pub record Float64 : Type 1 where
  pub Float : Type 0
  -- `float64(n)`
  pub of_int : ℤ → Float
  -- `int64(x)`
  pub to_int : Float → ℤ
  -- the literal nearest to a quotient of two numbers: 0.99 is `ratio 99 100`
  pub ratio : ℕ → ℕ → Float
  pub add : Float → Float → Float
  pub sub : Float → Float → Float
  pub mul : Float → Float → Float
  pub div : Float → Float → Float
  -- `math.Ceil`
  pub ceil : Float → Float
  -- `x < y`
  pub lt : Float → Float → Bool
  -- `x <= y`
  pub le : Float → Float → Bool

-- The signed value of a 64-bit pattern.
abbrev pub signed : ℕ → ℤ
signed n = if ltb n half_word then pos n else negsuc (word - 1 - n)

-- -n
negated : ℕ → ℤ
negated zero = pos 0
negated (suc n) = negsuc n

module _ (F : Float64) where
  open F use {Float, of_int, ratio, add, div}

  -- `d.Seconds()`: the whole seconds and the rest are converted apart, both truncated to zero.
  pub seconds : ℤ → Float
  seconds (pos n) =
      add (of_int (pos (n / 10 ^ 9))) (div (of_int (pos (n % 10 ^ 9))) (ratio (10 ^ 9) 1))
  seconds (negsuc n) =
      add (of_int (negated (suc n / 10 ^ 9)))
        (div (of_int (negated (suc n % 10 ^ 9))) (ratio (10 ^ 9) 1))

abbrev pub million : ℕ
million = 10 ^ 6

abbrev pub exact : Float64
exact = record {
  Float = ℕ;
  of_int = λ z. pos_part z * million;
  to_int = λ x. pos (x / million);
  ratio = λ n d. n * million / d;
  add = ◌+◌;
  sub = ◌-◌;
  mul = λ x y. x * y / million;
  div = λ x y. x * million / y;
  ceil = λ x. (x + (million - 1)) / million * million;
  lt = ltb;
  le = leb;
}
