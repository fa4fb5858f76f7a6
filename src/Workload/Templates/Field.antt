-- ===== src/Workload/Templates/Field.antt =====
-- Where the field of a template lies.
use pgstorm.Prelude.{
  ℕ, zero, suc, ◌+◌, ◌*◌, ◌/◌, ◌%◌, ◌^◌, ◌≤◌, ◌≡◌, refl, ◌∙◌, ap, ◌⊎◌, inl, inr, true, some, List,
  [], ◌∷◌, ◌++◌, length, length-append, All, ltb, Bool-cases, arith,
}
use pgstorm.Workload.Payload.{Bytes}
use pgstorm.Workload.Payload.Mutation.{FitsField}
use pgstorm.Workload.Templates.{
  text, object, Fields, end, field, Encoding, hex_digits, hex16, starts_with, later, index_of,
  after_marker, marker_of, find_offset,
}
use pgstorm.Workload.Templates.Build.{encoded}

-- A lower-case letter, a digit or an underscore.
abbrev pub IsPlain : ℕ → Type 0
IsPlain c = ((48 ≤ c) × (c ≤ 57)) ⊎ ((97 ≤ c) × (c ≤ 122)) ⊎ (c ≡ 95)

-- A map has this text under this key.
abbrev pub HasText : Bytes → Bytes → Fields → Type 0
HasText key s end = ⊥
HasText key s (field k v rest) = ((k ≡ key) × (v ≡ text s)) ⊎ HasText key s rest

-- What is used of the encoders and of `make`: it gives 8192 bytes at least and, on 64 bits, never
-- more than 2^48; four characters for every three bytes begun, and a plain text under
-- a plain key printed as it is, with quotes and a colon.
pub record Laws (E : Encoding) : Type 0 where
  pub room_min : 8192 ≤ E.room
  pub room_max : E.room ≤ 2 ^ 48
  pub base64_length : (b : Bytes) → length (E.base64 b) ≡ (length b + 2) / 3 * 4
  pub marshal_field :
      (fs : Fields) (key s : Bytes)
      → HasText key s fs
      → All IsPlain key
      → All IsPlain s
      → (before : Bytes) × (rest : Bytes) × (E.marshal (object fs)
          ≡ before ++ (marker_of key ++ (s ++ rest)))

starts_with-append : (m ds : Bytes) → starts_with m (m ++ ds) ≡ true
unfolding starts_with
starts_with-append [] ds = refl
starts_with-append (c ∷ cs) ds = ground (arith, starts_with-append cs ds)

index_of-here : (m ds : Bytes) → starts_with m ds ≡ true → index_of m ds ≡ some 0
unfolding index_of
index_of-here m [] h = rw h refl
index_of-here m (d ∷ ds) h = rw h refl

-- The first occurrence is not after any other.
index_of-append :
    (m before ds : Bytes)
    → (i : ℕ) × (index_of m (before ++ (m ++ ds)) ≡ some i) × (i ≤ length before)
unfolding index_of
index_of-append m [] ds = (0, index_of-here m (m ++ ds) (starts_with-append m ds), omega arith)
index_of-append m (b ∷ bs) ds = elim (Bool-cases (starts_with m (b ∷ (bs ++ (m ++ ds))))) [
  | inl e ↦ (0, rw e refl, omega arith)
  | inr e ↦ let (i, at, le) = index_of-append m bs ds in (suc i, rw e (ap later at), omega arith)
]

-- The text of an object with a plain text of at least 16 characters: the offset found leaves room
-- for 16 bytes.
pub encoded-FitsField :
    (E : Encoding) (key s : Bytes) (fs : Fields)
    → Laws E
    → HasText key s fs
    → All IsPlain key
    → All IsPlain s
    → 16 ≤ length s
    → FitsField (encoded E key fs)
unfolding find_offset
encoded-FitsField E key s fs laws has plain_key plain long =
    let (before, rest, e) = laws.marshal_field fs key s has plain_key plain in
    let m = marker_of key in
    let (i, at, le) = index_of-append m before (s ++ rest) in
    let found : index_of m (E.marshal (object fs)) ≡ some i = ap (index_of m) e ∙ at in
    let size : length (E.marshal (object fs))
        ≡ length before + (length m + (length s + length rest)) =
      ap length e
      ∙ length-append before (m ++ (s ++ rest))
      ∙ ap (λ n. length before + n)
          (length-append m (s ++ rest) ∙ ap (λ n. length m + n) (length-append s rest)) in
    (i + length m, ap (after_marker m) found, omega (arith, size))

hex_digits-IsPlain : (k n : ℕ) (acc : Bytes) → All IsPlain acc → All IsPlain (hex_digits k n acc)
unfolding hex_digits
hex_digits-IsPlain zero n acc all = all
hex_digits-IsPlain (suc k) n acc all = elim (Bool-cases (ltb (n % 16) 10)) [
  | inl e ↦ rw e (hex_digits-IsPlain k (n / 16) _ (inl (omega arith, ground arith), all))
  | inr e ↦ rw e (hex_digits-IsPlain k (n / 16) _ (inr (inl (ground arith, omega arith)), all))
]

length-hex_digits : (k n : ℕ) (acc : Bytes) → length (hex_digits k n acc) ≡ k + length acc
unfolding hex_digits
length-hex_digits zero n acc = omega arith
length-hex_digits (suc k) n acc = length-hex_digits k (n / 16) _ ∙ (omega arith)

All-append : (P : ℕ → Type 0) (xs ys : List ℕ) → All P xs → All P ys → All P (xs ++ ys)
All-append P [] ys p q = q
All-append P (x ∷ xs) ys p q = (p.0, All-append P xs ys p.1 q)

-- A text that can stand for a template's field.
abbrev pub IsField : Bytes → Type 0
IsField s = All IsPlain s × (16 ≤ length s)

pub hex16-IsField : (n : ℕ) → IsField (hex16 n)
unfolding hex16
hex16-IsField n = (hex_digits-IsPlain 16 n [] tt, omega (arith, length-hex_digits 16 n []))

pub IsField-append : (s t : Bytes) → IsField s → IsField t → IsField (s ++ t)
IsField-append s t p q = (All-append IsPlain s t p.0 q.0, omega (arith, p.1, length-append s t))
