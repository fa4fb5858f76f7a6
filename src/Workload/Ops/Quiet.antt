-- ===== src/Workload/Ops/Quiet.antt =====
-- The parts of the operations that neither touch the ring nor begin or end a transaction.
use pgstorm.Prelude.{
  ℕ, suc, zero, Bool, true, false, Option, none, some, refl, String, [], ◌∷◌, Result,
}
use pgstorm.Workload.Rng.{Rng, Rand, intn, int63, pick}
use pgstorm.Workload.Payload.{get_event_payload, get_audit_diff, pick_actor}
use pgstorm.Workload.Ring.{sample}
use pgstorm.Workload.Ops.{
  Call, insert_event, insert_audit, rows_err, Driver, severities, event_types, Error, database,
  OltpExecutor, Op, continue, drawn, draw, new_uuid, ask, must, because, failed_with, sampled,
  sample_session,
}
use pgstorm.Workload.Ops.Handlers.{insert_event_row, insert_event_rows, audit, read_all}
use pgstorm.Workload.Ops.Outcome.{
  Outcome, Outcome-continue, IsPlain, Plain, Plain-refl, Plain-trans, IsPlainOp,
}

module _ {D : Driver} where
  pub continue-Plain {ℓ} :
      {A B : Type ℓ} (next : A → Op D B) (s : OltpExecutor D)
      (o : Option (Result (Error D) A × OltpExecutor D))
      → Outcome (λ r t. Plain s t) o
      → ((a : A) → IsPlainOp (next a))
      → Outcome (λ r t. Plain s t) (continue next o)
  continue-Plain {B = B} next s o p q =
      Outcome-continue (λ r t. Plain s t) (λ r t. Plain s t) next o p (λ x t h. h)
        (λ a t h. onward t h (next a t) (q a t))
    where
      onward :
          (t : OltpExecutor D)
          → Plain s t
          → (o' : Option (Result (Error D) B × OltpExecutor D)) → Outcome (λ r u. Plain t u) o'
          → Outcome (λ r u. Plain s u) o'
      onward t h none k = tt
      onward t h (some (r, u)) k = Plain-trans s t u h k

  pub draw-Plain {ℓ} : {A : Type ℓ} (d : Rand A) → IsPlainOp {D = D} (draw d)
  unfolding draw drawn
  draw-Plain {A = A} d s = after (d s.rng)
    where
      after : (o : Option (A × Rng)) → Outcome (λ r t. Plain s t) (drawn s o)
      after none = tt
      after (some (a, g)) = record { same_ring = refl; made = []; logged = refl; all_plain = tt }

  -- A draw, then the rest.
  pub draw->>=-Plain {ℓ} :
      {A B : Type ℓ} (d : Rand A) (next : A → Op D B)
      → ((a : A) → IsPlainOp (next a))
      → (s : OltpExecutor D) → Outcome (λ r t. Plain s t) (continue next (draw d s))
  draw->>=-Plain d next q s = continue-Plain next s (draw d s) (draw-Plain d s) q

  pub new_uuid-Plain : IsPlainOp {D = D} new_uuid
  unfolding new_uuid
  new_uuid-Plain s = record { same_ring = refl; made = []; logged = refl; all_plain = tt }

  pub ask-Plain : (c : Call) → IsPlain c → IsPlainOp {D = D} (ask c)
  unfolding ask
  ask-Plain c p s = record { same_ring = refl; made = c ∷ []; logged = refl; all_plain = (p, tt) }

  failed_with-Plain :
      (wrap : D.DbError → Error D) (o : Option D.DbError) → IsPlainOp (failed_with wrap o)
  failed_with-Plain wrap none s = Plain-refl s
  failed_with-Plain wrap (some x) s = Plain-refl s

  pub must-Plain : (wrap : D.DbError → Error D) (c : Call) → IsPlain c → IsPlainOp (must wrap c)
  unfolding must
  must-Plain wrap c p s =
      continue-Plain (failed_with wrap) s (ask c s) (ask-Plain c p s) (failed_with-Plain wrap)

  pub sample_session-Plain : IsPlainOp {D = D} sample_session
  unfolding sample_session sampled
  sample_session-Plain s = after (sample 0 s.ring s.rng)
    where
      after : (o : Option ((ℕ × Bool) × Rng)) → Outcome (λ r t. Plain s t) (sampled s o)
      after none = tt
      after (some ((id, true), g)) = record {
        same_ring = refl;
        made = [];
        logged = refl;
        all_plain = tt;
      }
      after (some ((id, false), g)) = record {
        same_ring = refl;
        made = [];
        logged = refl;
        all_plain = tt;
      }

  insert_event_row-Plain : (id : ℕ) → IsPlainOp {D = D} (insert_event_row id)
  unfolding insert_event_row
  insert_event_row-Plain id s = continue-Plain _ s (new_uuid s) (new_uuid-Plain s) (λ event_id t.
      draw->>=-Plain (get_event_payload t.pools) _
        (λ payload. draw->>=-Plain int63 _ (λ trace_id.
          draw->>=-Plain (pick severities) _ (λ severity.
            draw->>=-Plain (pick event_types) _ (λ event_type. draw->>=-Plain (intn 256) _ (λ third.
              draw->>=-Plain (intn 256) _ (λ fourth.
                must-Plain (because "insert event")
                  (insert_event id (record {
                    event_id = event_id;
                    event_type = event_type;
                    payload = payload;
                    severity = severity;
                    trace_id = trace_id;
                    source_ip = (third, fourth);
                  }))
                  tt))))))
        t)

  pub insert_event_rows-Plain : (id n : ℕ) → IsPlainOp {D = D} (insert_event_rows id n)
  unfolding insert_event_rows
  insert_event_rows-Plain id zero s = Plain-refl s
  insert_event_rows-Plain id (suc n) s =
      continue-Plain _ s (insert_event_row id s) (insert_event_row-Plain id s)
        (λ a. insert_event_rows-Plain id n)

  pub audit-Plain : (text action : String) (id : ℕ) → IsPlainOp {D = D} (audit text action id)
  unfolding audit
  audit-Plain text action id s = continue-Plain _ s (new_uuid s) (new_uuid-Plain s) (λ audit_id t.
      draw->>=-Plain (pick_actor t.pools) _
        (λ changed_by. draw->>=-Plain (get_audit_diff t.pools) _ (λ diff.
          draw->>=-Plain int63 _ (λ checksum.
            must-Plain (because text) (insert_audit audit_id id action changed_by diff checksum)
              tt)))
        t)

  pub read_all-Plain : (text : String) (c : Call) → IsPlain c → IsPlainOp {D = D} (read_all text c)
  unfolding read_all
  read_all-Plain text c p s =
      continue-Plain _ s (must (because text) c s) (must-Plain (because text) c p s)
        (λ a. must-Plain database rows_err tt)
