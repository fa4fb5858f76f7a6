-- ===== src/Workload/Payload/Mutation.antt =====
-- What a mutated payload has in common with its template.
use pgstorm.Prelude.{
  ℕ, suc, zero, ◌+◌, ◌≤◌, ◌<◌, pos, Option, none, some, ◌≡◌, refl, subst, ◌∙◌, ap, List, [], ◌∷◌,
  length, get_elem?, set, length-set, get_elem?-set_self, get_elem?-set_ne, inl, inr, ◌⊎◌, arith,
  All, ℕ_discrete,
}
use pgstorm.Workload.Rng.{Rng, Rand, ◌>>=◌, intn, intn-some, pick, element}
use pgstorm.Workload.Payload.{Bytes, Template, hex_chars, rewrite_hex, mutate, mutated_payload}

-- A lower-case hexadecimal digit.
abbrev pub IsHex : ℕ → Type 0
IsHex c = ((48 ≤ c) × (c ≤ 57)) ⊎ ((97 ≤ c) × (c ≤ 102))

-- `out` is `text` but for the bytes from `i` up to `j`, which are hexadecimal digits.
pub record Mutates (text : Bytes) (i j : ℕ) (out : Bytes) : Type 0 where
  pub same_length : length out ≡ length text
  pub outside : (k : ℕ) → (k < i) ⊎ (j ≤ k) → get_elem? out k ≡ get_elem? text k
  pub inside : (k : ℕ) → i ≤ k → k < j → (c : ℕ) × (get_elem? out k ≡ some c) × IsHex c

get_elem?-All {ℓ κ} :
    {A : Type ℓ} (P : A → Type κ) (xs : List A) (i : ℕ)
    → i < length xs
    → All P xs
    → (x : A) × (get_elem? xs i ≡ some x) × P x
get_elem?-All P [] i h all = elim h [ ]
get_elem?-All P (x ∷ xs) zero h all = (x, refl, all.0)
get_elem?-All P (x ∷ xs) (suc i) h all = get_elem?-All P xs i (omega arith) all.1

-- A draw followed by a computation, when both succeed.
>>=-some :
    {A B : Type 0} (m : Rand A) (f : A → Rand B) (g : Rng) {h : Rng} {a : A} {r : Option (B × Rng)}
    → m g ≡ some (a, h)
    → f a h ≡ r
    → (m >>= f) g ≡ r
>>=-some {B} m f g e e' =
    ap {B = Option (B × Rng)} (λ o. elim o [ none ↦ none | some (a, h) ↦ f a h ]) e ∙ e'

-- A choice among elements that all satisfy `P` succeeds with one that does.
pick-some :
    {A : Type 0} (P : A → Type 0) (xs : List A) (g : Rng)
    → 0 < length xs
    → All P xs
    → (x : A) × (h : Rng) × (pick xs g ≡ some (x, h)) × P x
unfolding pick
pick-some P xs g nonempty all =
    let (i, h, e, lt) = intn-some (length xs) g nonempty in
    let (x, ex, px) = get_elem?-All P xs i lt all in
    (
      x,
      h,
      >>=-some (intn (length xs)) (λ j. element (get_elem? xs j)) g e (ap (λ o. element o h) ex),
      px,
    )

hex_chars-IsHex : All IsHex hex_chars
hex_chars-IsHex = (
  inl (omega arith, omega arith),
  (
    inl (omega arith, omega arith),
    (
      inl (omega arith, omega arith),
      (
        inl (omega arith, omega arith),
        (
          inl (omega arith, omega arith),
          (
            inl (omega arith, omega arith),
            (
              inl (omega arith, omega arith),
              (
                inl (omega arith, omega arith),
                (
                  inl (omega arith, omega arith),
                  (
                    inl (omega arith, omega arith),
                    (
                      inr (omega arith, omega arith),
                      (
                        inr (omega arith, omega arith),
                        (
                          inr (omega arith, omega arith),
                          (
                            inr (omega arith, omega arith),
                            (inr (omega arith, omega arith), (inr (omega arith, omega arith), tt)),
                          ),
                        ),
                      ),
                    ),
                  ),
                ),
              ),
            ),
          ),
        ),
      ),
    ),
  ),
)

Mutates-none : (buf : Bytes) (i : ℕ) → Mutates buf i (i + 0) buf
Mutates-none buf i = record {
  same_length = refl;
  outside = (λ k h. refl);
  inside = (λ k a b. absurd (omega arith));
}

Mutates-step :
    (buf out : Bytes) (i n c : ℕ)
    → IsHex c
    → i < length buf
    → Mutates (set buf i c) (suc i) (suc i + n) out
    → Mutates buf i (i + suc n) out
Mutates-step buf out i n c hex lt m =
    let at_i : (k : ℕ) → i ≡ k → get_elem? out k ≡ some c = λ k e.
      subst (λ j. get_elem? out j ≡ some c) e
        (m.outside i (inl (omega arith)) ∙ get_elem?-set_self buf i c lt) in
    record {
      same_length = m.same_length ∙ length-set buf i c;
      outside = (λ k h. m.outside k (ground arith) ∙ get_elem?-set_ne buf c (ground arith));
      inside = (λ k a b. elim (ℕ_discrete i k) [
        | yes e ↦ (c, at_i k e, hex)
        | no ne ↦ m.inside k (omega arith) (omega arith)
      ]);
    }

rewrite_hex-Mutates :
    (n i : ℕ) (buf : Bytes) (g : Rng)
    → i + n ≤ length buf
    → (out : Bytes) × (h : Rng) × (rewrite_hex n i buf g ≡ some (out, h))
      × Mutates buf i (i + n) out
unfolding rewrite_hex
rewrite_hex-Mutates zero i buf g h = (buf, g, refl, Mutates-none buf i)
rewrite_hex-Mutates (suc n) i buf g h =
    let (c, g', e, hex) = pick-some IsHex hex_chars g (omega arith) hex_chars-IsHex in
    let fits : suc i + n ≤ length (set buf i c) = omega (arith, length-set buf i c) in
    let (out, g'', e', m) = rewrite_hex-Mutates n (suc i) (set buf i c) g' fits in
    (
      out,
      g'',
      >>=-some (pick hex_chars) (λ d. rewrite_hex n (suc i) (set buf i d)) g e e',
      Mutates-step buf out i n c hex (omega arith) m,
    )

-- A template whose field lies inside its text.
abbrev pub FitsField : Template → Type 0
FitsField t = (i : ℕ) × (t.offset ≡ pos i) × (i + 16 ≤ length t.text)

-- `out` is some template of the pool with only its field rewritten, in hexadecimal digits.
pub record IsMutant (pool : List Template) (out : Bytes) : Type 0 where
  pub idx : ℕ
  pub template : Template
  pub field : ℕ
  pub chosen : get_elem? pool idx ≡ some template
  pub at_field : template.offset ≡ pos field
  pub mutates : Mutates template.text field (field + 16) out

mutate_fits :
    (text : Bytes) (i : ℕ) (g : Rng) (r : Option (Bytes × Rng))
    → i + 16 ≤ length text
    → rewrite_hex 16 i text g ≡ r
    → mutate (record { text = text; offset = pos i }) g ≡ r
unfolding mutate
mutate_fits text i g r fits e = ground (arith, e)

mutate-Mutates :
    (t : Template) (i : ℕ) (g : Rng)
    → t.offset ≡ pos i
    → i + 16 ≤ length t.text
    → (out : Bytes) × (h : Rng) × (mutate t g ≡ some (out, h)) × Mutates t.text i (i + 16) out
mutate-Mutates t i g at_i fits =
    let (out, h, e, m) = rewrite_hex-Mutates 16 i t.text g fits in
    (
      out,
      h,
      ap (λ o. mutate (record { text = t.text; offset = o }) g) at_i
          ∙ mutate_fits t.text i g (some (out, h)) fits e,
      m,
    )

-- From a full pool whose templates' fields lie inside their texts, a payload is drawn without a
-- panic, and it is one of the templates with only the 16 bytes of its field replaced, by
-- hexadecimal digits: its length and all other bytes are the template's.
pub mutated_payload-IsMutant :
    (pool : List Template) (g : Rng)
    → length pool ≡ 100
    → All FitsField pool
    → (out : Bytes) × (h : Rng) × (mutated_payload pool g ≡ some (out, h)) × IsMutant pool out
unfolding mutated_payload
mutated_payload-IsMutant pool g full all =
    let (idx, g', e, lt) = intn-some 100 g (omega arith) in
    let (t, et, (i, at_i, fits)) = get_elem?-All FitsField pool idx (omega (arith, full)) all in
    let (out, h, em, m) = mutate-Mutates t i g' at_i fits in
    (
      out,
      h,
      >>=-some (intn 100) (λ j. element (get_elem? pool j) >>= λ u. mutate u) g e
          (>>=-some (element (get_elem? pool idx)) (λ u. mutate u) g' (ap (λ o. element o g') et)
            em),
      record { idx = idx; template = t; field = i; chosen = et; at_field = at_i; mutates = m },
    )
