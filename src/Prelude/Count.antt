-- ===== src/Prelude/Count.antt =====
-- How many numbers of a range pass a test.
use Prim.Native.Nat.add
use Prim.Native.Nat.{ℕ, zero, suc, ◌+◌, ◌≤◌, ◌<◌}
use mathlib.Core.Path.{◌≡◌, refl, ap, ◌∙◌}
use mathlib.Core.Bool.{Bool}
use native.Mathlib.Nat.{add-zero}
use native.Mathlib.Omega.{arith}
use pgstorm.Prelude.Tests.{if◌then◌else◌}

-- Of the numbers `s`, `s + 1`, …, `s + n - 1`.
abbrev pub count_range : ℕ → ℕ → (ℕ → Bool) → ℕ
count_range s zero p = 0
count_range s (suc n) p = (if p s then 1 else 0) + count_range (suc s) n p

pub count_range-add :
    (m s n : ℕ) (p : ℕ → Bool)
    → count_range s (m + n) p ≡ count_range s m p + count_range (s + m) n p
count_range-add zero s n p = rw (add.zero n, add-zero s) (omega arith)
count_range-add (suc m) s n p =
    ap (λ k. count_range s k p) (add.suc m n)
    ∙ omega (arith, count_range-add m (suc s) n p, ap (λ t. count_range t n p) shift)
  where
    shift : suc s + m ≡ s + suc m
    shift = omega arith

pub count_range_all :
    (n s : ℕ) (p : ℕ → Bool) (b : Bool)
    → ((r : ℕ) → s ≤ r → r < s + n → p r ≡ b)
    → count_range s n p ≡ (if b then n else 0)
count_range_all zero s p b h = ground arith
count_range_all (suc n) s p b h = ground (
  arith,
  h s (omega arith) (omega arith),
  count_range_all n (suc s) p b (λ r lo hi. h r (omega arith) (omega arith)),
)

pub count_range_ext :
    (n s : ℕ) (p q : ℕ → Bool)
    → ((r : ℕ) → s ≤ r → r < s + n → p r ≡ q r)
    → count_range s n p ≡ count_range s n q
count_range_ext zero s p q h = refl
count_range_ext (suc n) s p q h = ground (
  arith,
  h s (omega arith) (omega arith),
  count_range_ext n (suc s) p q (λ r lo hi. h r (omega arith) (omega arith)),
)
