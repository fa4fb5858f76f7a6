-- ===== src/Workload/Payload/Tests.antt =====
-- Payloads from concrete templates.
use pgstorm.Prelude.{
  ℕ, suc, zero, ◌+◌, ◌*◌, ◌≡◌, refl, pos, negsuc, some, replicate, length-replicate, All, codes,
  arith,
}
use pgstorm.Workload.Rng.{Rng}
use pgstorm.Workload.Payload.{Bytes, Template, mutate, mutated_payload}
use pgstorm.Workload.Payload.Mutation.{FitsField, IsMutant, mutated_payload-IsMutant}

abbrev source : Rng
source = record { numbers = λ n. 7 * n + 5; used = 0 }

abbrev with_field : Template
with_field = record { text = codes "{\"k\":\"0000000000000000\"}"; offset = pos 6 }

abbrev without_field : Template
without_field = record { text = codes "{}"; offset = negsuc 0 }

with_field-fits : (n : ℕ) → All FitsField (replicate n with_field)
with_field-fits zero = tt
with_field-fits (suc n) = ((6, refl, omega arith), with_field-fits n)

mutate-without_field : mutate without_field source ≡ some (codes "{}", source)
unfolding mutate
mutate-without_field = refl

mutate-with_field :
    mutate with_field source
    ≡ some (codes "{\"k\":\"5c3a18f6d4b2907e\"}", record source { used = 16 })
unfolding mutate
mutate-with_field = refl

mutated_payload-IsMutant_example :
    (out : Bytes) × (h : Rng) × (mutated_payload (replicate 100 with_field) source ≡ some (out, h))
    × IsMutant (replicate 100 with_field) out
mutated_payload-IsMutant_example =
    mutated_payload-IsMutant (replicate 100 with_field) source (length-replicate 100 with_field)
      (with_field-fits 100)
