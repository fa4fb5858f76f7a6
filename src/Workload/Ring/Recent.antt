-- ===== src/Workload/Ring/Recent.antt =====
-- The ring refines "the last `size` ids pushed".
use pgstorm.Prelude.{
  ℕ, suc, ◌+◌, ◌-◌, ◌%◌, ◌<◌, min, ◌⊎◌, inl, inr, get_elem?-some, Bool, true, false, Option, some,
  ◌≡◌, refl, ◌∙◌, sym, subst, List, [], ◌∷◌, length, get_elem?, set, length-set, get_elem?-set_self,
  get_elem?-set_ne, length-replicate, ltb, if◌then◌else◌, arith, dec_lt, ℕ_discrete,
}
use native.Mathlib.Nat.{mod-eq_of_lt, mod_self}
use pgstorm.Workload.Rng.{Rng, intn, intn-some}
use pgstorm.Workload.Ring.{SessionRing, new_ring, push, sample}

-- How many pushes ago the slot was written.
abbrev age : ℕ → ℕ → ℕ → ℕ
age size head j = if ltb j head then head - 1 - j else head + size - 1 - j

wrap_cases :
    (size head : ℕ)
    → head < size
    → (((head + 1) % size ≡ head + 1) × (head + 1 < size))
      ⊎ (((head + 1) % size ≡ 0) × (head + 1 ≡ size))
wrap_cases size head h = elim (dec_lt (head + 1) size) [
  | yes p ↦ inl (mod-eq_of_lt p, p)
  | no p ↦ let e : head + 1 ≡ size = omega arith in inr (rw e (mod_self size), e)
]

next_age :
    (size head j : ℕ)
    → head < size
    → j < size
    → ¬ (j ≡ head)
    → age size ((head + 1) % size) j ≡ suc (age size head j)
next_age size head j h k ne = ground (arith, wrap_cases size head h)

first_age : (size head : ℕ) → head < size → age size ((head + 1) % size) head ≡ 0
first_age size head h = ground (arith, wrap_cases size head h)

-- A ring holds the newest ids of a history, which lists them newest first.
pub record Represents {ℓ} {A : Type ℓ} (r : SessionRing A) (recent : List A) : Type ℓ where
  pub room : length r.buf ≡ r.size
  pub head_lt : r.head < r.size
  pub filled : r.fill ≡ min r.size (length recent)
  pub growing : r.fill < r.size → r.head ≡ r.fill
  pub slots : (j : ℕ) → j < r.fill → get_elem? r.buf j ≡ get_elem? recent (age r.size r.head j)

module _ {ℓ} {A : Type ℓ} where
  pub new_ring-Represents :
      (zero_id : A) (size : ℕ) → 0 < size → Represents (new_ring zero_id size) []
  unfolding new_ring
  new_ring-Represents zero_id size h = record {
    room = length-replicate size zero_id;
    head_lt = h;
    filled = omega arith;
    growing = λ k. refl;
    slots = λ j k. absurd (omega arith);
  }

  abbrev pushed : SessionRing A → A → SessionRing A
  pushed r id = record r {
    buf = set r.buf r.head id;
    head = (r.head + 1) % r.size;
    fill = if ltb r.fill r.size then r.fill + 1 else r.fill;
  }

  pushed-slots :
      (r : SessionRing A) (recent : List A) (id : A)
      → Represents r recent
      → (j : ℕ) → j < (pushed r id).fill
      → get_elem? (pushed r id).buf j ≡ get_elem? (id ∷ recent) (age r.size (pushed r id).head j)
  pushed-slots r recent id v j h = elim (ℕ_discrete j r.head) [
    | yes e ↦
        rw (e, first_age r.size r.head v.head_lt)
          (get_elem?-set_self r.buf r.head id (omega (arith, v.room, v.head_lt)))
    | no ne ↦
        rw (next_age r.size r.head j v.head_lt (ground (arith, v.filled)) ne)
          (get_elem?-set_ne r.buf id (λ e. ne (sym e)) ∙ v.slots j (ground (arith, v.growing)))
  ]

  -- A push succeeds, and puts the id in front of the history that the ring holds.
  pub push-Represents :
      (r : SessionRing A) (recent : List A) (id : A)
      → Represents r recent
      → (s : SessionRing A) × (push r id ≡ some s) × Represents s (id ∷ recent)
  unfolding push
  push-Represents r recent id v = (
    pushed r id,
    ground arith,
    record {
      room = length-set r.buf r.head id ∙ v.room;
      head_lt = ground (arith, wrap_cases r.size r.head v.head_lt);
      filled = ground arith;
      growing = ground (arith, wrap_cases r.size r.head v.head_lt);
      slots = pushed-slots r recent id v;
    },
  )

  -- Whatever ring a push returns holds the longer history.
  pub Represents-push :
      (r s : SessionRing A) (recent : List A) (id : A)
      → Represents r recent
      → push r id ≡ some s
      → Represents s (id ∷ recent)
  Represents-push r s recent id v e =
      let (t, done, w) = push-Represents r recent id v in
      let same : t ≡ s = cc in subst (λ u. Represents u (id ∷ recent)) same w

  -- What `Sample` may return on a ring that holds a history.
  abbrev pub Sampled : A → SessionRing A → List A → Rng → Option ((A × Bool) × Rng) → Type ℓ
  Sampled zero_id r recent g out =
      ((length recent ≡ 0) × (out ≡ some ((zero_id, false), g)))
      ⊎ ((k : ℕ) × (id : A) × (h : Rng) × (k < min r.size (length recent))
          × (get_elem? recent k ≡ some id)
          × (out ≡ some ((id, true), h)))

  sample_empty :
      (zero_id : A) (r : SessionRing A) (g : Rng)
      → r.fill ≡ 0
      → sample zero_id r g ≡ some ((zero_id, false), g)
  unfolding sample
  sample_empty zero_id r g e = rw e

  age_lt :
      (r : SessionRing A) (recent : List A) (i : ℕ)
      → Represents r recent
      → i < r.fill
      → age r.size r.head i < min r.size (length recent)
  age_lt r recent i v h = elim (dec_lt r.fill r.size) [
    | yes p ↦ ground (arith, v.filled, v.growing p)
    | no p ↦ ground (arith, v.filled, v.head_lt)
  ]

  sample_drawn :
      (zero_id : A) (r : SessionRing A) (recent : List A) (g h : Rng) (i : ℕ) (id : A)
      → Represents r recent
      → 0 < r.fill
      → intn r.fill g ≡ some (i, h)
      → i < r.fill
      → get_elem? r.buf i ≡ some id
      → Sampled zero_id r recent g (sample zero_id r g)
  unfolding sample
  sample_drawn zero_id r recent g h i id v pos drawn lt held =
      inr (
        age r.size r.head i,
        id,
        h,
        age_lt r recent i v lt,
        sym (v.slots i lt) ∙ held,
        ground arith,
      )

  -- On a ring that holds a history, `Sample` reports emptiness exactly for the empty history, and
  -- otherwise returns one of its newest `size` ids.
  pub sample-Sampled :
      (zero_id : A) (r : SessionRing A) (recent : List A) (g : Rng)
      → Represents r recent
      → Sampled zero_id r recent g (sample zero_id r g)
  sample-Sampled zero_id r recent g v = elim (ℕ_discrete r.fill 0) [
    | yes e ↦ inl (omega (arith, v.filled, v.head_lt), sample_empty zero_id r g e)
    | no ne ↦
        let (i, h, drawn, lt) = intn-some r.fill g (omega arith) in
        let (id, held) = get_elem?-some r.buf i (fits v lt) in
        sample_drawn zero_id r recent g h i id v (omega arith) drawn lt held
  ]
    where
      fits : {i : ℕ} → Represents r recent → i < r.fill → i < length r.buf
      fits w lt = omega (arith, w.room, w.filled)
