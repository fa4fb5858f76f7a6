-- ===== src/Workload/Templates/Fits.antt =====
-- Every template has room for its field.
use pgstorm.Prelude.{
  ◌%◌, word, pos_part, ◌∙◌, ℕ, zero, suc, ◌+◌, ◌-◌, ◌*◌, ◌/◌, ◌≤◌, ◌≡◌, refl, ap, inl, inr, true,
  Option, some, List, [], ◌∷◌, ◌++◌, codes, length, All, ltb, leb, ◌==◌, Bool-cases, arith,
}
use pgstorm.Workload.Rng.{Rand}
use pgstorm.Workload.Console.{first_part}
use pgstorm.Workload.Payload.{Bytes, Template}
use pgstorm.Workload.Payload.Mutation.{FitsField}
use pgstorm.Workload.Templates.{
  text, object, Fields, end, field, Encoding, span, hex16, trace_id, methods, statuses,
  random_base64_exact,
}
use pgstorm.Workload.Float.{signed}
use pgstorm.Workload.Templates.Build.{
  body_budget, at_least_one, request_kb, response_kb, encoded, payload, small_payload, small_diff,
  diff, padded, build_template, build_audit_template, build_small_payload_template,
  build_small_audit_template, build_pool, init_event_pool, session_templates, audit_templates,
  small_payloads, small_audits, small_paths,
}
use pgstorm.Workload.Templates.Yields.{
  Yields, Anything, Yields-bind, Yields-pure, Yields-intn, Yields-int63, Yields-pick,
}
use pgstorm.Workload.Templates.Parts.{
  signed-small, Draws, random_string-Draws, random_base64-Draws, random_base64-Yields,
  build_request-Draws, build_response-Draws, build_stack_trace-Draws, build_tags-Draws,
  build_metrics-Draws, build_context-Draws,
}
use pgstorm.Workload.Templates.Field.{
  IsPlain, HasText, Laws, encoded-FitsField, IsField, hex16-IsField, IsField-append,
}

trace_id-IsPlain : All IsPlain (codes "trace_id")
trace_id-IsPlain = (
  inr (inl (omega arith, omega arith)),
  (
    inr (inl (omega arith, omega arith)),
    (
      inr (inl (omega arith, omega arith)),
      (
        inr (inl (omega arith, omega arith)),
        (
          inr (inl (omega arith, omega arith)),
          (
            inr (inr refl),
            (inr (inl (omega arith, omega arith)), (inr (inl (omega arith, omega arith)), tt)),
          ),
        ),
      ),
    ),
  ),
)

nonce-IsPlain : All IsPlain (codes "_nonce")
nonce-IsPlain = (
  inr (inr refl),
  (
    inr (inl (omega arith, omega arith)),
    (
      inr (inl (omega arith, omega arith)),
      (
        inr (inl (omega arith, omega arith)),
        (inr (inl (omega arith, omega arith)), (inr (inl (omega arith, omega arith)), tt)),
      ),
    ),
  ),
)

trace_id-IsField : Yields IsField trace_id
unfolding trace_id
trace_id-IsField = Yields-bind _ _ Yields-int63 (λ a _. Yields-bind _ _ Yields-int63 (λ b _.
    Yields-pure IsField (hex16 a ++ hex16 b)
      (IsField-append (hex16 a) (hex16 b) (hex16-IsField a) (hex16-IsField b))))

-- A full pool of templates with room for their fields.
abbrev pub IsPool : ℕ → Option (List Template) → Type 0
IsPool n r = (ts : List Template) × (r ≡ some ts) × (length ts ≡ n) × All FitsField ts

module _ (E : Encoding) (laws : Laws E) where
  -- Enough bytes are drawn for the padding.
  random_base64_exact-Draws : (n : ℕ) → n ≤ 4096 → Draws (random_base64_exact E n)
  unfolding random_base64_exact
  random_base64_exact-Draws n small = elim (Bool-cases (n == 0)) [
    | inl e ↦ rw e (Yields-pure Anything [] tt)
    | inr e ↦ rw e (
        Yields-bind _ _
          (random_base64-Yields E (n * 3 / 4 + 3) (omega (arith, laws.room_min, small))
            (λ s. n ≤ length s) (λ b size. omega (arith, size, laws.base64_length b)))
          (λ s le.
            let enough : leb n (length s) ≡ true = ground arith in
            rw enough (Yields-pure Anything (first_part n s) tt)))
  ]

  bodies-fit :
      (target_kb : ℕ)
      → target_kb * 1024 ≤ E.room
      → (request_kb target_kb * 1024 ≤ E.room) × (response_kb target_kb * 1024 ≤ E.room)
  bodies-fit target_kb h =
      let b = body_budget target_kb in
      let budget : b * 1024 ≤ E.room = ground (arith, laws.room_min) in
      let exact : b * 3 % word ≡ b * 3 = omega (arith, budget, laws.room_max) in
      let fifths : request_kb target_kb ≡ at_least_one (b * 3 / 5) =
        ap (λ n. at_least_one (pos_part (signed n) / 5)) exact
        ∙ ap (λ z. at_least_one (pos_part z / 5))
            (signed-small (b * 3) (omega (arith, budget, laws.room_max))) in
      (rw fifths (ground (arith, budget, laws.room_min)), ground (arith, budget, laws.room_min))

  build_template-FitsField :
      (min_kb max_kb : ℕ)
      → min_kb ≤ max_kb
      → max_kb * 1024 ≤ E.room
      → Yields FitsField (build_template E min_kb max_kb)
  unfolding build_template
  build_template-FitsField min_kb max_kb h most =
      Yields-bind _ _ (Yields-intn (span min_kb max_kb) (ground arith)) (λ k lt.
        let drawn : min_kb + k ≤ max_kb = ground (arith, lt) in
        let fits : (min_kb + k) * 1024 ≤ E.room = omega (arith, drawn, most) in
        let (one, two) = bodies-fit (min_kb + k) fits in
        Yields-bind _ _ (build_request-Draws E (request_kb (min_kb + k)) one laws.room_max)
          (λ request _.
            Yields-bind _ _ (build_response-Draws E (response_kb (min_kb + k)) two laws.room_max)
              (λ response _. Yields-bind _ _ (build_stack_trace-Draws E) (λ stack _.
                Yields-bind _ _ (build_tags-Draws E) (λ tags _.
                  Yields-bind _ _ (build_metrics-Draws E) (λ metrics _.
                    Yields-bind _ _ (build_context-Draws E) (λ context _.
                      Yields-bind _ _ trace_id-IsField (λ id ok_id.
                        Yields-pure FitsField
                          (encoded E (codes "trace_id")
                            (payload E request response stack tags metrics context id))
                          (encoded-FitsField E (codes "trace_id") id
                            (payload E request response stack tags metrics context id) laws
                            (inr (inr (inr (inr (inr (inr (inl (refl, refl)))))))) trace_id-IsPlain
                            ok_id.0 ok_id.1)))))))))

  nonce-FitsField :
      (id : Bytes) (fs : Fields)
      → IsField id
      → HasText (codes "_nonce") id fs
      → FitsField (encoded E (codes "_nonce") fs)
  nonce-FitsField id fs ok_id has =
      encoded-FitsField E (codes "_nonce") id fs laws has nonce-IsPlain ok_id.0 ok_id.1

  -- With or without the padding.
  padded-FitsField :
      (target : ℕ) (fields : Fields → Fields) (id : Bytes)
      → IsField id
      → ((rest : Fields) → HasText (codes "_nonce") id (fields rest))
      → target ≤ 4096
      → Yields FitsField (padded E target fields)
  unfolding padded
  padded-FitsField target fields id ok_id has small =
      let pad = target - length (E.marshal (object (fields end))) - 12 in
      elim (Bool-cases (ltb 0 pad)) [
        | inl e ↦ rw e (
            Yields-bind _ _ (random_base64_exact-Draws pad (omega (arith, small))) (λ s _.
              Yields-pure FitsField _
                (nonce-FitsField id (fields (field (codes "_pad") (text s) end)) ok_id (has _))))
        | inr e ↦ rw e (Yields-pure FitsField _ (nonce-FitsField id (fields end) ok_id (has end)))
      ]

  build_audit_template-FitsField : Yields FitsField (build_audit_template E)
  unfolding build_audit_template
  build_audit_template-FitsField = Yields-bind _ _ Yields-int63 (λ id _.
      Yields-bind _ _ (random_string-Draws 50 100 (omega arith)) (λ before _.
        Yields-bind _ _ (random_string-Draws 50 100 (omega arith)) (λ after _.
          Yields-bind _ _ (random_string-Draws 100 200 (omega arith)) (λ context _.
            Yields-bind _ _ (Yields-intn 3 (omega arith)) (λ k lt.
              padded-FitsField ((2 + k) * 1024) (diff E (hex16 id) before after context) (hex16 id)
                (hex16-IsField id) (λ rest. inl (refl, refl)) (omega (arith, lt)))))))

  build_small_audit_template-FitsField : Yields FitsField (build_small_audit_template E)
  unfolding build_small_audit_template
  build_small_audit_template-FitsField = Yields-bind _ _ Yields-int63 (λ id _.
      Yields-bind _ _ (random_string-Draws 50 100 (omega arith)) (λ before _.
        Yields-bind _ _ (random_string-Draws 50 100 (omega arith)) (λ after _.
          Yields-bind _ _ (Yields-intn 513 (omega arith)) (λ k lt.
            Yields-bind _ _ (random_base64-Draws E (128 + k) (omega (arith, laws.room_min, lt)))
              (λ context _.
                let fs = small_diff E (hex16 id) before after context in
                Yields-pure FitsField (encoded E (codes "_nonce") fs)
                  (nonce-FitsField (hex16 id) fs (hex16-IsField id) (inl (refl, refl))))))))

  build_small_payload_template-FitsField : Yields FitsField (build_small_payload_template E)
  unfolding build_small_payload_template
  build_small_payload_template-FitsField =
      let tag = random_string-Draws 5 20 (omega arith) in
      Yields-bind _ _ (Yields-intn 769 (omega arith)) (λ k lt.
        Yields-bind _ _ (Yields-pick methods (omega arith)) (λ method _.
          Yields-bind _ _ (Yields-pick (small_paths E) (omega arith)) (λ path _.
            Yields-bind _ _ (Yields-pick statuses (omega arith)) (λ status _.
              Yields-bind _ _ tag (λ a _. Yields-bind _ _ tag (λ b _. Yields-bind _ _ tag (λ c _.
                Yields-bind _ _ (random_base64-Draws E (128 + k) (omega (arith, laws.room_min, lt)))
                  (λ body _. Yields-bind _ _ trace_id-IsField (λ id ok_id.
                    let fs = small_payload E method path status (a ∷ b ∷ c ∷ []) body id in
                    Yields-pure FitsField (encoded E (codes "trace_id") fs) (
                      encoded-FitsField E (codes "trace_id") id fs laws
                        (inr (inr (inr (inr (inr (inl (refl, refl))))))) trace_id-IsPlain ok_id.0
                        ok_id.1))))))))))

  build_pool-IsPool :
      (build : Rand Template) (seed n : ℕ)
      → Yields FitsField build
      → IsPool n (build_pool E build seed n)
  unfolding build_pool
  build_pool-IsPool build seed zero y = ([], refl, refl, tt)
  build_pool-IsPool build seed (suc n) y =
      let (t, g, e, fits) = y (E.source seed) in
      let (ts, es, size, all) = build_pool-IsPool build (suc seed) n y in
      (t ∷ ts, rw (e, es) refl, ap suc size, (fits, all))

  -- With encoders and a `make` that keep these laws, whatever is drawn: the building of the templates
  -- does not panic, the sizes of the events being in order and `make` giving the largest; and each of the five pools has 100 templates,
  -- each with an offset at which 16 bytes lie inside its text.
  pub templates-IsPool :
      (min_kb max_kb : ℕ)
      → min_kb ≤ max_kb
      → max_kb * 1024 ≤ E.room
      → IsPool 100 (session_templates E)
        × IsPool 100 (init_event_pool E min_kb max_kb)
        × IsPool 100 (audit_templates E)
        × IsPool 100 (small_payloads E)
        × IsPool 100 (small_audits E)
  unfolding session_templates init_event_pool audit_templates small_payloads small_audits
  templates-IsPool min_kb max_kb h most = (
    build_pool-IsPool (build_template E 4 8) 0 100
        (build_template-FitsField 4 8 (omega arith) (omega (arith, laws.room_min))),
    build_pool-IsPool (build_template E min_kb max_kb) 100 100
        (build_template-FitsField min_kb max_kb h most),
    build_pool-IsPool (build_audit_template E) 200 100 build_audit_template-FitsField,
    build_pool-IsPool (build_small_payload_template E) 300 100
        build_small_payload_template-FitsField,
    build_pool-IsPool (build_small_audit_template E) 400 100 build_small_audit_template-FitsField,
  )
