-- ===== src/Workload/Console/Grouping.antt =====
-- `commaf` groups the digits of a number by three, and its text still says the number.
use pgstorm.Prelude.{
  ℕ, zero, suc, ◌+◌, ◌-◌, ◌*◌, ◌/◌, ◌%◌, ◌≤◌, ◌<◌, half_word, pos, true, false, Option, some, ◌≡◌,
  refl, ap, sym, ◌∙◌, List, [], ◌∷◌, ◌++◌, length, All, digits_value, Bool-cases, inl, inr, ltb,
  leb, ◌==◌, arith,
}
use mathlib.Core.List.{append-nil}
use mathlib.Core.Option
use pgstorm.Workload.Console.{
  digits, sprint_int, groups, first_part, second_part, commaf_text, commaf,
}

abbrev pow10 : ℕ → ℕ
pow10 zero = 1
pow10 (suc k) = 10 * pow10 k

digits_value-digit :
    (m d : ℕ) (acc : List ℕ)
    → d < 10
    → digits_value m ((48 + d) ∷ acc) ≡ digits_value (m * 10 + d) acc
unfolding digits_value
digits_value-digit m d acc h =
    let low : leb 48 (48 + d) ≡ true = ground arith in
    let high : leb (48 + d) 57 ≡ true = ground arith in
    let value : m * 10 + (48 + d - 48) ≡ m * 10 + d = omega arith in rw (low, high, value) refl

digits_value-none : (n : ℕ) → digits_value n [] ≡ some n
unfolding digits_value
digits_value-none n = refl

-- With fuel for every digit, the digits are read back as the number.
digits_value-digits :
    (k n : ℕ) (acc : List ℕ) → n < pow10 k → digits_value 0 (digits k n acc) ≡ digits_value n acc
unfolding digits
digits_value-digits zero n acc h = ap (λ m. digits_value m acc) (omega arith)
digits_value-digits (suc k) n acc h = elim (Bool-cases (ltb n 10)) [
  | inl e ↦ rw e (
      digits_value-digit 0 (n % 10) acc (omega arith) ∙ ap (λ m. digits_value m acc) (ground arith))
  | inr e ↦ rw e (
      digits_value-digits k (n / 10) _ (omega arith)
      ∙ digits_value-digit (n / 10) (n % 10) acc (omega arith)
      ∙ ap (λ m. digits_value m acc) (omega arith))
]

-- Groups of three, each after a comma.
abbrev pub with_commas : List (List ℕ) → List ℕ
with_commas [] = []
with_commas (g ∷ gs) = b',' ∷ (g ++ with_commas gs)

abbrev pub joined_groups : List (List ℕ) → List ℕ
joined_groups [] = []
joined_groups (g ∷ gs) = g ++ joined_groups gs

abbrev pub IsTriple : List ℕ → Type 0
IsTriple g = length g ≡ 3

-- A text whose length is a multiple of three falls into groups.
groups-false :
    (s : List ℕ)
    → length s % 3 ≡ 0
    → (gs : List (List ℕ)) × (s ≡ joined_groups gs)
      × All IsTriple gs
      × (groups false s ≡ some (with_commas gs))
unfolding groups
groups-false [] h = ([], refl, tt, refl)
groups-false (a ∷ []) h = absurd (omega arith)
groups-false (a ∷ b ∷ []) h = absurd (omega arith)
groups-false (a ∷ b ∷ c ∷ s) h =
    let (gs, text, triples, done) = groups-false s (omega arith) in
    ((a ∷ b ∷ c ∷ []) ∷ gs, ap (λ t. a ∷ b ∷ c ∷ t) text, (refl, triples), rw done refl)

-- What `commaf` makes of a text: a first group of one to three characters, and groups of three.
abbrev pub Grouped : List ℕ → Option (List ℕ) → Type 0
Grouped s t =
    (g : List ℕ) × (gs : List (List ℕ)) × (s ≡ g ++ joined_groups gs)
    × (1 ≤ length g)
    × (length g ≤ 3)
    × All IsTriple gs
    × (t ≡ some (g ++ with_commas gs))

groups-rem :
    (s : List ℕ) (rem : ℕ)
    → 3 < length s
    → length s % 3 ≡ rem
    → Grouped s (Option.map (λ t. first_part rem s ++ t) (groups (rem == 0) (second_part rem s)))
unfolding groups
groups-rem [] rem long e = absurd (omega arith)
groups-rem (a ∷ []) rem long e = absurd (omega arith)
groups-rem (a ∷ b ∷ []) rem long e = absurd (omega arith)
groups-rem (a ∷ b ∷ c ∷ []) rem long e = absurd (omega arith)
groups-rem (a ∷ b ∷ c ∷ d ∷ s) zero long e =
    let (gs, text, triples, done) = groups-false (d ∷ s) (omega arith) in
    (
      a ∷ b ∷ c ∷ [],
      gs,
      ap (λ t. a ∷ b ∷ c ∷ t) text,
      omega arith,
      omega arith,
      triples,
      rw done refl,
    )
groups-rem (a ∷ b ∷ c ∷ d ∷ s) (suc zero) long e =
    let (gs, text, triples, done) = groups-false (b ∷ c ∷ d ∷ s) (omega arith) in
    (a ∷ [], gs, ap (λ t. a ∷ t) text, omega arith, omega arith, triples, rw done refl)
groups-rem (a ∷ b ∷ c ∷ d ∷ s) (suc (suc zero)) long e =
    let (gs, text, triples, done) = groups-false (c ∷ d ∷ s) (omega arith) in
    (a ∷ b ∷ [], gs, ap (λ t. a ∷ b ∷ t) text, omega arith, omega arith, triples, rw done refl)
groups-rem (a ∷ b ∷ c ∷ d ∷ s) (suc (suc (suc rem))) long e = absurd (omega arith)

-- A number has a digit.
length-digits : (k n : ℕ) (acc : List ℕ) → length acc ≤ length (digits k n acc)
unfolding digits
length-digits zero n acc = omega arith
length-digits (suc k) n acc = ground (arith, length-digits k (n / 10) ((48 + n % 10) ∷ acc))

some_digit : (k n : ℕ) → 1 ≤ length (digits (suc k) n [])
unfolding digits
some_digit k n = ground (arith, length-digits k (n / 10) ((48 + n % 10) ∷ []))

commaf_text-Grouped : (s : List ℕ) → 1 ≤ length s → Grouped s (commaf_text s)
unfolding commaf_text
commaf_text-Grouped s filled = elim (Bool-cases (leb (length s) 3)) [
  | inl e ↦ rw e (s, [], sym (append-nil s), filled, ground arith, tt, ap some (sym (append-nil s)))
  | inr e ↦ rw e (groups-rem s (length s % 3) (ground arith) refl)
]

-- For every number that is not negative, `commaf` returns a text: one to three digits, then groups
-- of three after a comma each; and without the commas the digits are read back as the number.
pub commaf-digits_value :
    (n : ℕ)
    → n < half_word
    → (g : List ℕ) × (gs : List (List ℕ)) × (commaf (pos n) ≡ some (g ++ with_commas gs))
      × (1 ≤ length g)
      × (length g ≤ 3)
      × All IsTriple gs
      × (digits_value 0 (g ++ joined_groups gs) ≡ some n)
unfolding commaf sprint_int
commaf-digits_value n small =
    let (g, gs, text, filled, short, triples, done) =
      commaf_text-Grouped (digits 20 n []) (some_digit 19 n) in
    (
      g,
      gs,
      done,
      filled,
      short,
      triples,
      ap (digits_value 0) (sym text)
          ∙ digits_value-digits 20 n [] (omega arith)
          ∙ digits_value-none n,
    )
