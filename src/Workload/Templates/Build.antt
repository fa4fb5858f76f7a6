-- ===== src/Workload/Templates/Build.antt =====
-- workload/payload.go: the four kinds of template, and the pools of them.
use pgstorm.Workload.Float.{signed}
use pgstorm.Prelude.{
  pos_part, pos, ◌%◌, word, ℕ, zero, suc, ◌+◌, ◌-◌, ◌*◌, ◌/◌, String, Option, none, some, List, [],
  ◌∷◌, codes, length, ltb, if◌then◌else◌,
}
use pgstorm.Workload.Rng.{Rng, Rand, ◌>>=◌, pure, intn, int63, pick}
use pgstorm.Workload.Payload.{Bytes, Template, template_pool_size}
use pgstorm.Workload.Templates.{
  Json, text, number, items, object, Fields, end, field, Encoding, string, items_of, span,
  random_string, hex16, trace_id, methods, statuses, find_offset, random_base64,
  random_base64_exact, build_request, build_response, build_stack_trace, build_tags, build_metrics,
  build_context,
}

-- At least one.
abbrev pub at_least_one : ℕ → ℕ
at_least_one n = if ltb n 1 then 1 else n

-- The sizes of the two bodies, from the size drawn: three fifths of what the fixed fields leave, in
-- an `int64`; where that is negative it is below one too.
abbrev pub body_budget : ℕ → ℕ
body_budget target_kb = at_least_one (target_kb - 4)

abbrev pub request_kb : ℕ → ℕ
request_kb target_kb = at_least_one (pos_part (signed (body_budget target_kb * 3 % word)) / 5)

abbrev pub response_kb : ℕ → ℕ
response_kb target_kb = at_least_one (body_budget target_kb - request_kb target_kb)

module _ (E : Encoding) where
  open E use {marshal, source}

  -- The encoded text of an object, with the offset of the field under a key.
  abbrev pub encoded : Bytes → Fields → Template
  encoded key fs =
      let doc = marshal (object fs) in record { text = doc; offset = find_offset key doc }

  -- The map that `buildTemplate` encodes.
  abbrev pub payload : Json → Json → Json → Json → Json → Json → Bytes → Fields
  payload request response stack tags metrics context id = field (codes "request") request (
      field (codes "response") response (
        field (codes "stack_trace") stack (
          field (codes "tags") tags (
            field (codes "metrics") metrics
              (field (codes "context") context (field (codes "trace_id") (text id) end))))))

  -- `buildTemplate`
  unfoldable pub build_template : ℕ → ℕ → Rand Template
  unfolding intn build_request build_response build_stack_trace build_tags build_metrics
      build_context trace_id find_offset
  build_template min_kb max_kb = intn (span min_kb max_kb) >>= λ k.
      build_request E (request_kb (min_kb + k)) >>= λ request.
      build_response E (response_kb (min_kb + k)) >>= λ response. build_stack_trace E >>= λ stack.
      build_tags E >>= λ tags. build_metrics E >>= λ metrics. build_context E >>= λ context.
      trace_id >>= λ id.
      pure (encoded (codes "trace_id") (payload request response stack tags metrics context id))

  abbrev pub nonce : Bytes
  nonce = codes "_nonce"

  abbrev pub changed : String → Bytes → Json
  changed status metadata =
      object (field (codes "status") (string status) (field (codes "metadata") (text metadata) end))

  -- The map that `buildAuditTemplate` encodes, with the fields that follow.
  abbrev pub diff : Bytes → Bytes → Bytes → Bytes → Fields → Fields
  diff id before after context rest = field nonce (text id) (
      field (codes "before") (changed "active" before) (
        field (codes "after") (changed "closed" after) (
          field (codes "changed_fields")
            (items (items_of (codes "status" ∷ codes "metadata" ∷ codes "ended_at" ∷ [])))
            (field (codes "context") (text context) rest))))

  -- The padding up to the target size, if there is room for it.
  unfoldable pub padded : ℕ → (Fields → Fields) → Rand Template
  unfolding random_base64_exact find_offset
  padded target fields =
      let pad = target - length (marshal (object (fields end))) - 12 in
      if ltb 0 pad
      then (random_base64_exact E pad >>= λ s.
          pure (encoded nonce (fields (field (codes "_pad") (text s) end))))
      else pure (encoded nonce (fields end))

  -- `buildAuditTemplate`
  unfoldable pub build_audit_template : Rand Template
  unfolding int63 hex16 random_string intn padded
  build_audit_template = int63 >>= λ id. random_string 50 100 >>= λ before.
      random_string 50 100 >>= λ after. random_string 100 200 >>= λ context.
      intn 3 >>= λ k. padded ((2 + k) * 1024) (diff (hex16 id) before after context)

  abbrev pub small_paths : List String
  small_paths = "/api/v2/users" ∷ "/api/v2/sessions" ∷ "/api/v2/events" ∷ []

  -- The maps that the small templates encode.
  abbrev pub small_payload : String → String → ℕ → List Bytes → Bytes → Bytes → Fields
  small_payload method path status tags body id = field (codes "method") (string method) (
      field (codes "path") (string path) (
        field (codes "status") (number status) (
          field (codes "tags") (items (items_of tags))
            (field (codes "body") (text body) (field (codes "trace_id") (text id) end)))))

  abbrev pub small_diff : Bytes → Bytes → Bytes → Bytes → Fields
  small_diff id before after context = field nonce (text id) (
      field (codes "before") (changed "active" before) (
        field (codes "after") (changed "closed" after) (
          field (codes "changed_fields") (items (items_of (codes "status" ∷ codes "metadata" ∷ [])))
            (field (codes "context") (text context) end))))

  -- `buildSmallPayloadTemplate`
  unfoldable pub build_small_payload_template : Rand Template
  unfolding intn pick random_string random_base64 trace_id find_offset
  build_small_payload_template = intn 769 >>= λ k. pick methods >>= λ method.
      pick small_paths >>= λ path. pick statuses >>= λ status. random_string 5 20 >>= λ a.
      random_string 5 20 >>= λ b. random_string 5 20 >>= λ c.
      random_base64 E (pos (128 + k)) >>= λ body. trace_id >>= λ id.
      pure (encoded (codes "trace_id") (small_payload method path status (a ∷ b ∷ c ∷ []) body id))

  -- `buildSmallAuditTemplate`
  unfoldable pub build_small_audit_template : Rand Template
  unfolding int63 hex16 random_string intn random_base64 find_offset
  build_small_audit_template = int63 >>= λ id. random_string 50 100 >>= λ before.
      random_string 50 100 >>= λ after. intn 513 >>= λ k.
      random_base64 E (pos (128 + k)) >>= λ context.
      pure (encoded nonce (small_diff (hex16 id) before after context))

  abbrev pub built : Option (Template × Rng) → Option (List Template) → Option (List Template)
  built (some (t, g)) (some ts) = some (t ∷ ts)
  built t ts = none

  -- A loop that builds so many templates, each from a source of its own.
  unfoldable pub build_pool : Rand Template → ℕ → ℕ → Option (List Template)
  build_pool build seed zero = some []
  build_pool build seed (suc n) = built (build (source seed)) (build_pool build (suc seed) n)

  -- The pools that the package's `init` builds.
  unfoldable pub session_templates : Option (List Template)
  unfolding build_pool build_template
  session_templates = build_pool (build_template 4 8) 0 template_pool_size

  unfoldable pub audit_templates : Option (List Template)
  unfolding build_pool build_audit_template
  audit_templates = build_pool build_audit_template (2 * template_pool_size) template_pool_size

  unfoldable pub small_payloads : Option (List Template)
  unfolding build_pool build_small_payload_template
  small_payloads =
      build_pool build_small_payload_template (3 * template_pool_size) template_pool_size

  unfoldable pub small_audits : Option (List Template)
  unfolding build_pool build_small_audit_template
  small_audits = build_pool build_small_audit_template (4 * template_pool_size) template_pool_size

  -- `InitEventPool`
  unfoldable pub init_event_pool : ℕ → ℕ → Option (List Template)
  unfolding build_pool build_template
  init_event_pool min_kb max_kb =
      build_pool (build_template min_kb max_kb) template_pool_size template_pool_size
