-- ===== src/Workload/Stats/NearestRank.antt =====
-- The percentiles are the nearest-rank percentiles: the walk over the distinct latencies finds the
-- element of that rank in the sorted list of all observations.
use pgstorm.Prelude.{
  ℕ, zero, suc, ◌+◌, ◌-◌, ◌≤◌, ◌<◌, dec_lt, Bool, true, false, some, ◌≡◌, refl, sym, ap, ◌∙◌, List,
  [], ◌∷◌, ◌++◌, get_elem?, replicate, map, All, half_word, add64, lt_signed, leb, ◌==◌, ℤ, pos,
  negsuc, nat_eq, keys, DistinctKeys, map-lookup, sum_by, sum_by-sort_by, sum64, count_if, IsSorted,
  sort_by-IsSorted, if◌then◌else◌, arith,
}
use pgstorm.Workload.Float.{Float64, signed}
use pgstorm.Workload.Stats.Window.{OpStats, value_or_zero}
use pgstorm.Workload.Stats.Quantile.{
  sort, sorted_keys, observations, walk, clamp_rank, ms, rank_of, quantile_from, percentile,
}

-- All observations, from the distinct latencies and how often each was observed.
abbrev pub expand : (ℕ → ℕ) → List ℕ → List ℕ
expand w [] = []
expand w (k ∷ ks) = replicate (w k) k ++ expand w ks

-- Each element is at most every later one.
abbrev pub Ascending : List ℕ → Type 0
Ascending [] = Unit
Ascending (x ∷ xs) = All (λ y. x ≤ y) xs × Ascending xs

get_elem?-replicate : (n i k : ℕ) (ys : List ℕ) → i < n → get_elem? (replicate n k ++ ys) i ≡ some k
get_elem?-replicate zero i k ys h = elim h [ ]
get_elem?-replicate (suc n) zero k ys h = refl
get_elem?-replicate (suc n) (suc i) k ys h = get_elem?-replicate n i k ys (omega arith)

get_elem?-past_replicate :
    (n i k : ℕ) (ys : List ℕ) → get_elem? (replicate n k ++ ys) (n + i) ≡ get_elem? ys i
get_elem?-past_replicate zero i k ys = ap (get_elem? ys) (omega arith)
get_elem?-past_replicate (suc n) i k ys =
    ap (get_elem? (replicate (suc n) k ++ ys)) (suc_add n i) ∙ get_elem?-past_replicate n i k ys
  where
    suc_add : (n i : ℕ) → suc n + i ≡ suc (n + i)
    suc_add n i = omega arith

-- The walk from `cum` observations on finds the element whose rank is `i + 1` beyond these.
walk-expand :
    (w : ℕ → ℕ) (cum i : ℕ) (ks : List ℕ)
    → i < sum_by w ks
    → cum + sum_by w ks < half_word
    → get_elem? (expand w ks) i ≡ some (walk w (cum + i + 1) cum ks)
unfolding walk
walk-expand w cum i [] h small = absurd (omega arith)
walk-expand w cum i (k ∷ []) h small = get_elem?-replicate (w k) i k [] (omega arith)
walk-expand w cum i (k ∷ l ∷ ks) h small = elim (dec_lt i (w k)) [
  | yes in_k ↦
      let stop : lt_signed (add64 cum (w k)) (cum + i + 1) ≡ false = ground arith in
      rw stop (get_elem?-replicate (w k) i k (expand w (l ∷ ks)) in_k)
  | no past ↦
      let on : lt_signed (add64 cum (w k)) (cum + i + 1) ≡ true = ground arith in
      let next : add64 cum (w k) ≡ cum + w k = omega arith in
      let at : i ≡ w k + (i - w k) = omega arith in
      let rank : cum + w k + (i - w k) + 1 ≡ cum + i + 1 = omega arith in
      let rest = walk-expand w (cum + w k) (i - w k) (l ∷ ks) (omega arith) (omega arith) in
      rw (on, next)
        (ap (get_elem? (expand w (k ∷ l ∷ ks))) at
          ∙ get_elem?-past_replicate (w k) (i - w k) k (expand w (l ∷ ks))
          ∙ rest
          ∙ ap (λ r. some (walk w r (cum + w k) (l ∷ ks))) rank)
]

All-replicate_append :
    (P : ℕ → Type 0) (n k : ℕ) (ys : List ℕ) → P k → All P ys → All P (replicate n k ++ ys)
All-replicate_append P zero k ys p all = all
All-replicate_append P (suc n) k ys p all = (p, All-replicate_append P n k ys p all)

All-expand : (P : ℕ → Type 0) (w : ℕ → ℕ) (ks : List ℕ) → All P ks → All P (expand w ks)
All-expand P w [] all = tt
All-expand P w (k ∷ ks) all =
    All-replicate_append P (w k) k (expand w ks) all.0 (All-expand P w ks all.1)

replicate-Ascending :
    (n k : ℕ) (ys : List ℕ) → All (λ y. k ≤ y) ys → Ascending ys → Ascending (replicate n k ++ ys)
replicate-Ascending zero k ys all s = s
replicate-Ascending (suc n) k ys all s =
    (All-replicate_append (λ y. k ≤ y) n k ys (omega arith) all, replicate-Ascending n k ys all s)

expand-Ascending : (w : ℕ → ℕ) (ks : List ℕ) → Ascending ks → Ascending (expand w ks)
expand-Ascending w [] s = tt
expand-Ascending w (k ∷ ks) s =
    replicate-Ascending (w k) k (expand w ks) (All-expand (λ y. k ≤ y) w ks s.0)
      (expand-Ascending w ks s.1)

le-All : (x y : ℕ) (ks : List ℕ) → x ≤ y → All (λ z. y ≤ z) ks → All (λ z. x ≤ z) ks
le-All x y [] h all = tt
le-All x y (k ∷ ks) h all = (omega (arith, all.0), le-All x y ks h all.1)

-- A list in which each element is at most the next ascends.
IsSorted-Ascending : (ks : List ℕ) → IsSorted leb ks → Ascending ks
IsSorted-Ascending [] s = tt
IsSorted-Ascending (k ∷ []) s = (tt, tt)
IsSorted-Ascending (k ∷ l ∷ ks) s =
    let rest = IsSorted-Ascending (l ∷ ks) s.1 in
    let first : k ≤ l = ground (arith, s.0) in ((first, le-All k l ks first rest.0), rest)

count_if-replicate :
    (p : ℕ → Bool) (n k : ℕ) (ys : List ℕ)
    → count_if p (replicate n k ++ ys) ≡ (if p k then n else 0) + count_if p ys
count_if-replicate p zero k ys = ground arith
count_if-replicate p (suc n) k ys = ground (arith, count_if-replicate p n k ys)

count_if-expand :
    (p : ℕ → Bool) (w : ℕ → ℕ) (ks : List ℕ)
    → count_if p (expand w ks) ≡ sum_by (λ k. if p k then w k else 0) ks
count_if-expand p w [] = refl
count_if-expand p w (k ∷ ks) =
    omega (arith, count_if-replicate p (w k) k (expand w ks), count_if-expand p w ks)

-- A sum over the keys, of what is kept under each, is the sum over the entries.
sum_by-map {ℓ μ} :
    {A : Type ℓ} {B : Type μ} (f : A → B) (g : B → ℕ) (xs : List A)
    → sum_by g (map f xs) ≡ sum_by (λ x. g (f x)) xs
sum_by-map f g [] = refl
sum_by-map f g (x ∷ xs) = ap (λ n. g (f x) + n) (sum_by-map f g xs)

sum_by-keys :
    (h : ℕ → ℕ → ℕ) (m : List (ℕ × ℕ))
    → DistinctKeys m
    → sum_by (λ k. h k (observations m k)) (keys m) ≡ sum_by (λ e. h e.0 e.1) m
unfolding observations
sum_by-keys h m d =
    sym (sum_by-map (λ k. h k (observations m k)) (λ n. n) (keys m))
    ∙ ap (sum_by (λ n. n)) (map-lookup (λ k o. h k (value_or_zero o)) m d)
    ∙ sum_by-map (λ e. h e.0 e.1) (λ n. n) m

sum64-small :
    (m : List (ℕ × ℕ))
    → sum_by (λ e. e.1) m < half_word
    → sum64 (map (λ e. e.1) m) ≡ sum_by (λ e. e.1) m
sum64-small [] h = refl
sum64-small (e ∷ m) h = omega (arith, sum64-small m (omega arith))

clamp_rank-bounds :
    (r : ℤ) (total : ℕ)
    → 0 < total
    → total < half_word
    → (1 ≤ clamp_rank r total) × (clamp_rank r total ≤ total)
unfolding clamp_rank
clamp_rank-bounds (pos n) total h small = ground arith
clamp_rank-bounds (negsuc n) total h small = ground arith

-- How many latencies were observed.
abbrev pub observed : OpStats → ℕ
observed s = sum_by (λ e. e.1) s.latencies

-- All latencies that were observed, sorted.
abbrev pub all_observations : OpStats → List ℕ
all_observations s = expand (observations s.latencies) (sort (keys s.latencies))

all_observations-Ascending : (s : OpStats) → Ascending (all_observations s)
unfolding sort
all_observations-Ascending s =
    expand-Ascending (observations s.latencies) (sort (keys s.latencies)) (
      IsSorted-Ascending (sort (keys s.latencies))
        (sort_by-IsSorted leb (λ a b h. ground arith) (keys s.latencies)))

sum_by-sort :
    (h : ℕ → ℕ → ℕ) (s : OpStats)
    → DistinctKeys s.latencies
    → sum_by (λ k. h k (observations s.latencies k)) (sort (keys s.latencies))
      ≡ sum_by (λ e. h e.0 e.1) s.latencies
unfolding sort
sum_by-sort h s d =
    sum_by-sort_by leb (λ k. h k (observations s.latencies k)) (keys s.latencies)
    ∙ sum_by-keys h s.latencies d

module _ (F : Float64) where
  open F use {Float}

  -- With one entry for each latency and fewer than 2^63 observations, but at least one: the sorted
  -- list of all observations holds each latency as often as it was observed, and the percentile is
  -- the element of this list at its rank, which lies between 1 and the number of observations.
  pub percentile-expand :
      (s : OpStats) (q : Float)
      → DistinctKeys s.latencies
      → 0 < observed s
      → observed s < half_word
      → (v : ℕ) × (percentile F s q ≡ ms F v)
        × (get_elem? (all_observations s) (rank_of F q (observed s) - 1) ≡ some v)
        × (1 ≤ rank_of F q (observed s))
        × (rank_of F q (observed s) ≤ observed s)
        × Ascending (all_observations s)
        × ((p : ℕ → Bool)
            → count_if p (all_observations s) ≡ sum_by (λ e. if p e.0 then e.1 else 0) s.latencies)
  unfolding percentile quantile_from sorted_keys rank_of
  percentile-expand s q d some_seen small =
      let w = observations s.latencies in
      let ks = sort (keys s.latencies) in
      let total = sum64-small s.latencies small in
      let size : sum_by w ks ≡ observed s = sum_by-sort (λ k n. n) s d in
      let at = rank_of F q (observed s) in
      let (low, high) =
        clamp_rank-bounds (F.to_int (F.ceil (F.mul q (F.of_int (signed (observed s))))))
          (observed s) some_seen small in
      let ix : 0 + (at - 1) + 1 ≡ at = omega arith in
      let zero_not : (observed s == 0) ≡ false = ground arith in
      (
        walk w at 0 ks,
        rw (total, zero_not) refl,
        walk-expand w 0 (at - 1) ks (omega arith) (omega arith) ∙ ap (λ r. some (walk w r 0 ks)) ix,
        low,
        high,
        all_observations-Ascending s,
        λ p. count_if-expand p w ks ∙ sum_by-sort (λ k n. if p k then n else 0) s d,
      )
