-- ===== src/Workload/Weights/Resolve.antt =====
-- Which mixes `resolve_weights` accepts.
use pgstorm.Prelude.{
  ℕ, ◌+◌, ◌%◌, ◌<◌, ℤ, pos, ◌≤ℤ◌, ltb_ℤ, bits, pos_part, add64, word, ◌≡◌, refl, ◌∙◌, sym, ap₂,
  false, negsuc, ◌↔◌, Bool-cases, inl, inr, List, [], ◌∷◌, ◌++◌, map, All, ok, >>=-eq-ok, err-ne-ok,
  arith,
}
use mathlib.Core.List.{append_assoc, append-nil}
use pgstorm.Config.{Env}
use pgstorm.Workload.Weights.{
  OpDef, WeightedOp, weight_of, resolve_loop, require_100, resolve_weights,
}

abbrev pub resolved : Env → OpDef → WeightedOp
resolved env od = record { name = od.name; weight = weight_of env od }

abbrev pub NonNegative : WeightedOp → Type 0
NonNegative o = pos 0 ≤ℤ o.weight

-- The sum of the weights as a number, with no wrap.
abbrev pub total_weight : List WeightedOp → ℕ
total_weight [] = 0
total_weight (o ∷ os) = pos_part o.weight + total_weight os

pub bits_nonneg : (w : ℤ) → pos 0 ≤ℤ w → bits w ≡ pos_part w % word
bits_nonneg (pos n) h = refl
bits_nonneg (negsuc n) h = absurd (omega arith)

-- The loop with every weight in order: the sum, wrapped, and the resolved operations.
resolve_loop_done :
    (env : Env) (total : ℕ) (out : List WeightedOp) (ods : List OpDef)
    → total < word
    → All NonNegative (map (resolved env) ods)
    → resolve_loop env total out ods
      ≡ ok ((total + total_weight (map (resolved env) ods)) % word, out ++ map (resolved env) ods)
unfolding resolve_loop
resolve_loop_done env total out [] lt h =
    ap₂ (λ t l. ok (t, l)) (omega arith) (sym (append-nil out))
resolve_loop_done env total out (od ∷ ods) lt h =
    let w = weight_of env od in
    let in_order : ltb_ℤ w (pos 0) ≡ false = ground arith in
    rw in_order (
      resolve_loop_done env (add64 total (bits w)) (out ++ (resolved env od ∷ [])) ods (omega arith)
        h.1
      ∙ ap₂ (λ t l. ok (t, l)) (omega (arith, bits_nonneg w h.0)) (append_assoc out _ _))

resolve_loop-NonNegative :
    (env : Env) (total : ℕ) (out : List WeightedOp) (ods : List OpDef) {r : ℕ × List WeightedOp}
    → resolve_loop env total out ods ≡ ok r
    → All NonNegative (map (resolved env) ods)
unfolding resolve_loop
resolve_loop-NonNegative env total out [] h = tt
resolve_loop-NonNegative env total out (od ∷ ods) h =
    elim (Bool-cases (ltb_ℤ (weight_of env od) (pos 0))) [
      | inl e ↦ err-ne-ok _ (rw e at h)
      | inr e ↦ (
        ground arith,
        resolve_loop-NonNegative env (add64 total (bits (weight_of env od)))
            (out ++ (resolved env od ∷ [])) ods (rw e at h),
      )
    ]

-- The environment's mix is accepted exactly when no weight is negative and the sum of the weights,
-- taken modulo 2^64, is 100; the result is then the operations in order with those weights.
pub resolve_weights_iff :
    (env : Env) (ods : List OpDef) (ws : List WeightedOp)
    → (resolve_weights env ods ≡ ok ws) ↔ (
        (ws ≡ map (resolved env) ods)
        × All NonNegative (map (resolved env) ods)
        × (total_weight (map (resolved env) ods) % word ≡ 100))
unfolding resolve_weights
resolve_weights_iff env ods ws = (accepted, returned)
  where
    mix : List WeightedOp
    mix = map (resolved env) ods

    accepted :
        resolve_weights env ods ≡ ok ws
        → (ws ≡ mix) × All NonNegative mix × (total_weight mix % word ≡ 100)
    accepted h =
        let (r, e, q) = >>=-eq-ok (resolve_loop env 0 [] ods) require_100 h in
        let fine = resolve_loop-NonNegative env 0 [] ods e in
        let sums = rw (resolve_loop_done env 0 [] ods (omega arith) fine) at h in
        (ground arith, fine, ground arith)

    returned :
        (ws ≡ mix) × All NonNegative mix × (total_weight mix % word ≡ 100)
        → resolve_weights env ods ≡ ok ws
    returned (e, fine, sum) = rw (resolve_loop_done env 0 [] ods (omega arith) fine) (ground arith)
