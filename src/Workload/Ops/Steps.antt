-- ===== src/Workload/Ops/Steps.antt =====
-- The steps of an operation, none of which panics on a state that the profile's set-up leaves.
use pgstorm.Prelude.{
  ℕ, ◌≡◌, refl, ap, ◌∙◌, string_eq, Option, none, some, List, ◌∷◌, inl, inr, Result, ok, err,
}
use pgstorm.Workload.Rng.{Rand}
use pgstorm.Workload.Ring.Recent.{Represents, push-Represents, sample-Sampled}
use pgstorm.Workload.Payload.Stocked.{Stocked, Draws}
use pgstorm.Workload.Ops.{
  Call, begin, database, Driver, Error, skipped, OltpExecutor, Op, continue, fail, return, drawn,
  draw, new_uuid, ask, failed_with, must, rolled_back, in_tx, sampled, sample_session, pushed,
  push_session, ◌>>=◌, ◌>>◌,
}

module _ {D : Driver} where
  -- A state that the set-up leaves, or an operation.
  pub record Ready (s : OltpExecutor D) : Type 0 where
    pub recent : List ℕ
    pub ring : Represents s.ring recent
    pub stocked : Stocked s.pools

  -- No panic, and such a state again.
  abbrev pub Runs {ℓ} : {A : Type ℓ} → Option (Result (Error D) A × OltpExecutor D) → Type ℓ
  Runs {A} o = (r : Result (Error D) A) × (t : OltpExecutor D) × (o ≡ some (r, t)) × Ready t

  abbrev pub Total {ℓ} : {A : Type ℓ} → Op D A → Type ℓ
  Total m = (s : OltpExecutor D) → Ready s → Runs (m s)

  pub Runs-continue {ℓ κ} :
      {A : Type ℓ} {B : Type κ} {next : A → Op D B}
      {o : Option (Result (Error D) A × OltpExecutor D)}
      → Runs o
      → ((a : A) → Total (next a))
      → Runs (continue next o)
  unfolding continue
  Runs-continue {next} (ok a, t, e, ready) h =
      let (r, u, d, done) = h a t ready in (r, u, ap (continue next) e ∙ d, done)
  Runs-continue {next} (err x, t, e, ready) h = (err x, t, ap (continue next) e, ready)

  pub Total-bind {ℓ κ} :
      {A : Type ℓ} {B : Type κ} (m : Op D A) (next : A → Op D B)
      → Total m
      → ((a : A) → Total (next a))
      → Total (m >>= next)
  Total-bind m next t h s ready = Runs-continue (t s ready) h

  pub Total-then {ℓ κ} :
      {A : Type ℓ} {B : Type κ} (m : Op D A) (rest : Op D B)
      → Total m
      → Total rest
      → Total (m >> rest)
  Total-then m rest t h = Total-bind m (λ _. rest) t (λ _. h)

  pub Total-draw : {A : Type 0} (d : Rand A) → Draws d → Total (draw d)
  unfolding draw
  Total-draw d y s ready =
      let (a, g, e, t) = y s.rng in
      (
        ok a,
        record s { rng = g },
        ap (drawn s) e,
        record { recent = ready.recent; ring = ready.ring; stocked = ready.stocked },
      )

  pub Total-new_uuid : Total new_uuid
  unfolding new_uuid
  Total-new_uuid s ready =
      (_, _, refl, record { recent = ready.recent; ring = ready.ring; stocked = ready.stocked })

  pub Total-ask : (c : Call) → Total (ask c)
  unfolding ask
  Total-ask c s ready =
      (_, _, refl, record { recent = ready.recent; ring = ready.ring; stocked = ready.stocked })

  pub Total-fail {ℓ} : {A : Type ℓ} (x : Error D) → Total {A = A} (fail x)
  Total-fail x s ready = (err x, s, refl, ready)

  pub Total-return {ℓ} : {A : Type ℓ} (a : A) → Total (return a)
  Total-return a s ready = (ok a, s, refl, ready)

  pub Total-must : (wrap : D.DbError → Error D) (c : Call) → Total (must wrap c)
  unfolding must
  Total-must wrap c = Total-bind (ask c) (failed_with wrap) (Total-ask c) answered
    where
      answered : (o : Option D.DbError) → Total (failed_with wrap o)
      answered none = Total-return tt
      answered (some x) = Total-fail (wrap x)

  pub Total-in_tx {ℓ} : {A : Type ℓ} (body : Op D A) → Total body → Total (in_tx body)
  unfolding in_tx rolled_back
  Total-in_tx body t =
      Total-then (must database begin) (λ s. rolled_back (body s)) (Total-must database begin)
        (λ s ready.
          let (r, u, e, done) = t s ready in
          (
            r,
            _,
            ap rolled_back e,
            record { recent = done.recent; ring = done.ring; stocked = done.stocked },
          ))

  pub Total-push_session : (id : ℕ) → Total (push_session id)
  unfolding push_session
  Total-push_session id s ready =
      let (ring, e, v) = push-Represents s.ring ready.recent id ready.ring in
      (
        ok tt,
        record s { ring = ring },
        ap (pushed s) e,
        record { recent = id ∷ ready.recent; ring = v; stocked = ready.stocked },
      )

  pub Total-sample_session : Total sample_session
  unfolding sample_session sampled
  Total-sample_session s ready = elim (sample-Sampled 0 s.ring ready.recent s.rng ready.ring) [
    | inl (empty, e) ↦ (
      err skipped,
      _,
      ap (sampled s) e,
      record { recent = ready.recent; ring = ready.ring; stocked = ready.stocked },
    )
    | inr (k, id, g, lt, at, e) ↦ (
      ok id,
      _,
      ap (sampled s) e,
      record { recent = ready.recent; ring = ready.ring; stocked = ready.stocked },
    )
  ]
