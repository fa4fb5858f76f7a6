-- ===== src/Metrics/PgStats/Deltas.antt =====
-- What the counters of the server's statistics are told to add over a run.
use pgstorm.Prelude.{
  Bool, true, String, string_eq, ◌≡◌, refl, ap, subst, sym, ◌∙◌, Option, none, some, List, [], ◌∷◌,
  ◌++◌, lookup, lookup-insert, Bool-cases, inl, inr, if◌then◌else◌, arith,
}
use mathlib.Core.List.{append_assoc, append-nil}
use pgstorm.Workload.Float.{Float64}
use pgstorm.Metrics.PgStats.{
  Counter, checkpoints_timed, checkpoints_req, buffers_checkpoint, buffers_clean, buffers_backend,
  checkpoint_write_seconds, checkpoint_sync_seconds, wal_bytes_total, wal_records_total,
  wal_fpi_total, wal_buffers_full_total, Publish, add, reset_waits, set_wait, delta_from, Published,
  follow, whole, from_ms,
}

-- The key that a counter is tracked under.
abbrev pub key_of : Counter → String
key_of checkpoints_timed = "cp_timed"
key_of checkpoints_req = "cp_req"
key_of buffers_checkpoint = "buf_checkpoint"
key_of buffers_clean = "buf_clean"
key_of buffers_backend = "buf_backend"
key_of checkpoint_write_seconds = "cp_write_ms"
key_of checkpoint_sync_seconds = "cp_sync_ms"
key_of wal_bytes_total = "wal_bytes"
key_of wal_records_total = "wal_records"
key_of wal_fpi_total = "wal_fpi"
key_of wal_buffers_full_total = "wal_buffers_full"

abbrev pub same : Counter → Counter → Bool
same k c = string_eq.beq (key_of k) (key_of c)

-- The first counter with a key.
abbrev with_key : List Counter → String → Counter
with_key [] key = wal_buffers_full_total
with_key (k ∷ ks) key = if string_eq.beq (key_of k) key then k else with_key ks key

abbrev all_counters : List Counter
all_counters =
    checkpoints_timed ∷ checkpoints_req ∷ buffers_checkpoint ∷ buffers_clean ∷ buffers_backend
    ∷ checkpoint_write_seconds ∷ checkpoint_sync_seconds ∷ wal_bytes_total ∷ wal_records_total
    ∷ wal_fpi_total ∷ wal_buffers_full_total ∷ []

with_key-key_of : (k : Counter) → with_key all_counters (key_of k) ≡ k
with_key-key_of checkpoints_timed = refl
with_key-key_of checkpoints_req = refl
with_key-key_of buffers_checkpoint = refl
with_key-key_of buffers_clean = refl
with_key-key_of buffers_backend = refl
with_key-key_of checkpoint_write_seconds = refl
with_key-key_of checkpoint_sync_seconds = refl
with_key-key_of wal_bytes_total = refl
with_key-key_of wal_records_total = refl
with_key-key_of wal_fpi_total = refl
with_key-key_of wal_buffers_full_total = refl

-- No two counters share a key.
same→eq : (k c : Counter) → same k c ≡ true → k ≡ c
same→eq k c h =
    sym (with_key-key_of k)
    ∙ ap (with_key all_counters) ((string_eq.beq_iff (key_of k) (key_of c)).0 h)
    ∙ with_key-key_of c

module _ (F : Float64) where
  open F use {Float, ratio, div}

  abbrev pub scale_of : Counter → Float → Float
  scale_of checkpoint_write_seconds = from_ms F
  scale_of checkpoint_sync_seconds = from_ms F
  scale_of k = whole F

  -- How much a value has grown: nothing at first, nor when it is less than before.
  abbrev pub increase : Option Float → Float → Float
  increase none v = ratio 0 1
  increase (some u) v = if F.lt v u then ratio 0 1 else F.sub v u

  -- The times of checkpoints are read in milliseconds and published in seconds.
  abbrev pub in_unit : Counter → Float → Float
  in_unit checkpoint_write_seconds d = div d (ratio 1000 1)
  in_unit checkpoint_sync_seconds d = div d (ratio 1000 1)
  in_unit k d = d

  delta_from-increase : (prev : Option Float) (v : Float) → delta_from F prev v ≡ increase prev v
  unfolding delta_from
  delta_from-increase none v = refl
  delta_from-increase (some u) v = refl

  scale_of-in_unit : (c : Counter) (d : Float) → scale_of c d ≡ in_unit c d
  scale_of-in_unit checkpoints_timed d = refl
  scale_of-in_unit checkpoints_req d = refl
  scale_of-in_unit buffers_checkpoint d = refl
  scale_of-in_unit buffers_clean d = refl
  scale_of-in_unit buffers_backend d = refl
  scale_of-in_unit checkpoint_write_seconds d = refl
  scale_of-in_unit checkpoint_sync_seconds d = refl
  scale_of-in_unit wal_bytes_total d = refl
  scale_of-in_unit wal_records_total d = refl
  scale_of-in_unit wal_fpi_total d = refl
  scale_of-in_unit wal_buffers_full_total d = refl

  -- What the code adds is the growth, in the counter's unit.
  adds_growth :
      (c : Counter) (prev : Option Float) (v : Float)
      → scale_of c (delta_from F prev v) ≡ in_unit c (increase prev v)
  adds_growth c prev v =
      ap (scale_of c) (delta_from-increase prev v) ∙ scale_of-in_unit c (increase prev v)

  -- What is to be added for a sequence of values, from the value last seen on.
  abbrev pub steps : Counter → Option Float → List Float → List Float
  steps c prev [] = []
  steps c prev (v ∷ vs) = in_unit c (increase prev v) ∷ steps c (some v) vs

  abbrev pub last_value : Option Float → List Float → Option Float
  last_value prev [] = prev
  last_value prev (v ∷ vs) = last_value (some v) vs

  steps-append :
      (c : Counter) (prev : Option Float) (vs ws : List Float)
      → steps c prev (vs ++ ws) ≡ steps c prev vs ++ steps c (last_value prev vs) ws
  steps-append c prev [] ws = refl
  steps-append c prev (v ∷ vs) ws =
      ap (λ rest. in_unit c (increase prev v) ∷ rest) (steps-append c (some v) vs ws)

  last_value-append :
      (prev : Option Float) (vs ws : List Float)
      → last_value prev (vs ++ ws) ≡ last_value (last_value prev vs) ws
  last_value-append prev [] ws = refl
  last_value-append prev (v ∷ vs) ws = last_value-append (some v) vs ws

  -- The arguments of a counter's `Add`, in order.
  abbrev pub adds : Counter → List (Publish F) → List Float
  adds c [] = []
  adds c (add k v ∷ log) = let rest = adds c log in if same k c then v ∷ rest else rest
  adds c (reset_waits ∷ log) = adds c log
  adds c (set_wait type event v ∷ log) = adds c log

  pub adds-append : (c : Counter) (l m : List (Publish F)) → adds c (l ++ m) ≡ adds c l ++ adds c m
  adds-append c [] m = refl
  adds-append c (add k v ∷ l) m = ground (arith, adds-append c l m)
  adds-append c (reset_waits ∷ l) m = adds-append c l m
  adds-append c (set_wait type event v ∷ l) m = adds-append c l m

  abbrev pub seen : Counter → Published F → Option Float
  seen c p = lookup (key_of c) p.tracker

  -- From `p` to `q` the counter has followed these values.
  abbrev pub Follows : Counter → List Float → Published F → Published F → Type 0
  Follows c vs p q =
      (adds c q.log ≡ adds c p.log ++ steps c (seen c p) vs) × (seen c q ≡ last_value (seen c p) vs)

  pub Follows-none : (c : Counter) (p : Published F) → Follows c [] p p
  Follows-none c p = (sym (append-nil (adds c p.log)), refl)

  pub Follows-then :
      (c : Counter) (vs ws : List Float) (p q r : Published F)
      → Follows c vs p q
      → Follows c ws q r
      → Follows c (vs ++ ws) p r
  Follows-then c vs ws p q r f g = (
    g.0
        ∙ ap (λ l. l ++ steps c (seen c q) ws) f.0
        ∙ append_assoc (adds c p.log) (steps c (seen c p) vs) (steps c (seen c q) ws)
        ∙ ap (λ o. adds c p.log ++ (steps c (seen c p) vs ++ steps c o ws)) f.1
        ∙ ap (λ l. adds c p.log ++ l) (sym (steps-append c (seen c p) vs ws)),
    g.1 ∙ ap (λ o. last_value o ws) f.1 ∙ sym (last_value-append (seen c p) vs ws),
  )

  -- A value that counts for one counter only.
  abbrev pub one : Counter → Counter → Float → List Float
  one k c v = if same k c then v ∷ [] else []

  abbrev pub lift : Counter → Float → Published F → Published F
  lift k v p = follow F (scale_of k) k (key_of k) v p

  abbrev addition : Counter → Float → Published F → Publish F
  addition k v p = add k (scale_of k (delta_from F (seen k p) v))

  Follows-self : (k : Counter) (v : Float) (p : Published F) → Follows k (v ∷ []) p (lift k v p)
  unfolding follow
  Follows-self k v p =
      let itself : same k k ≡ true = (string_eq.beq_iff (key_of k) (key_of k)).1 refl in
      (
        adds-append k p.log (addition k v p ∷ [])
            ∙ (rw itself (ap (λ x. adds k p.log ++ (x ∷ [])) (adds_growth k (seen k p) v))),
        rw (lookup-insert (key_of k) (key_of k) v p.tracker, itself) refl,
      )

  Follows-follow :
      (k c : Counter) (v : Float) (p : Published F) → Follows c (one k c v) p (lift k v p)
  unfolding follow
  Follows-follow k c v p = elim (Bool-cases (same k c)) [
    | inl e ↦
        rw e (subst (λ d. Follows d (v ∷ []) p (lift k v p)) (same→eq k c e) (Follows-self k v p))
    | inr e ↦ (
      adds-append c p.log (addition k v p ∷ []) ∙ (rw e refl),
      rw (lookup-insert (key_of k) (key_of c) v p.tracker, e) refl,
    )
  ]

  -- The counters of a row with their values, published in order.
  abbrev pub lift_all : List (Counter × Float) → Published F → Published F
  lift_all [] p = p
  lift_all ((k, v) ∷ cols) p = lift_all cols (lift k v p)

  abbrev pub picked : Counter → List (Counter × Float) → List Float
  picked c [] = []
  picked c ((k, v) ∷ cols) = one k c v ++ picked c cols

  pub Follows-lift_all :
      (c : Counter) (cols : List (Counter × Float)) (p : Published F)
      → Follows c (picked c cols) p (lift_all cols p)
  Follows-lift_all c [] p = Follows-none c p
  Follows-lift_all c ((k, v) ∷ cols) p =
      Follows-then c (one k c v) (picked c cols) p (lift k v p) (lift_all cols (lift k v p))
        (Follows-follow k c v p) (Follows-lift_all c cols (lift k v p))
