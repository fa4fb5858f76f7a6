-- ===== src/Workload/Templates/Tests.antt =====
-- Templates in an encoding that prints the texts of an object and nothing else.
use pgstorm.Prelude.{
  ℕ, ok, pos_part, ◌+◌, ◌^◌, ◌*◌, ◌/◌, ◌≡◌, refl, ◌∙◌, ap, ap₂, sym, inl, inr, some, none, [], ◌∷◌,
  ◌++◌, length, replicate, length-replicate, arith,
}
use mathlib.Core.List.{append_assoc}
use pgstorm.Config.{Env, load, read_config}
use pgstorm.Config.Valid.{IsValid, load-iff_IsValid}
use pgstorm.Workload.Ring.Recent.{Represents}
use pgstorm.Workload.Payload.{Pools}
use pgstorm.Workload.Payload.Stocked.{Stocked}
use pgstorm.Workload.Profile.Init.{Affordable, init_oltp, init_oltp-Stocked}
use pgstorm.Workload.Rng.{Rng}
use pgstorm.Workload.Payload.{Bytes}
use pgstorm.Workload.Templates.{
  Json, text, object, Fields, end, field, Encoding, marker_of, body_bytes, random_base64,
}
use pgstorm.Workload.Templates.Build.{
  request_kb, session_templates, init_event_pool, audit_templates, small_payloads, small_audits,
}
use pgstorm.Workload.Templates.Field.{HasText, Laws}
use pgstorm.Workload.Templates.Fits.{IsPool, templates-IsPool}

-- `"key":"text"`, one after the other.
abbrev printed : Bytes → Json → Bytes
printed key (text s) = marker_of key ++ (s ++ (34 ∷ []))
printed key v = []

abbrev printed_all : Fields → Bytes
printed_all end = []
printed_all (field k v rest) = printed k v ++ printed_all rest

abbrev marshal : Json → Bytes
marshal (object fs) = printed_all fs
marshal v = []

abbrev pub texts : Encoding
texts = record {
  marshal = marshal;
  base64 = (λ b. replicate ((length b + 2) / 3 * 4) 65);
  source = (λ seed. record { numbers = (λ i. seed * 7919 + i * 104729); used = 0 });
  room = 2 ^ 40;
}

printed_all-field :
    (fs : Fields) (key s : Bytes)
    → HasText key s fs
    → (before : Bytes) × (rest : Bytes) × (printed_all fs
        ≡ before ++ (marker_of key ++ (s ++ rest)))
printed_all-field end key s h = elim h [ ]
printed_all-field (field k v fs) key s (inl (same_key, same_text)) =
    let quote : Bytes = 34 ∷ [] in
    (
      [],
      quote ++ printed_all fs,
      ap₂ (λ j u. printed j u ++ printed_all fs) same_key same_text
          ∙ append_assoc (marker_of key) (s ++ quote) (printed_all fs)
          ∙ ap (λ t. marker_of key ++ t) (append_assoc s quote (printed_all fs)),
    )
printed_all-field (field k v fs) key s (inr h) =
    let (before, rest, e) = printed_all-field fs key s h in
    (
      printed k v ++ before,
      rest,
      ap (λ t. printed k v ++ t) e
          ∙ sym (append_assoc (printed k v) before (marker_of key ++ (s ++ rest))),
    )

pub texts-Laws : Laws texts
texts-Laws = record {
  room_min = omega arith;
  room_max = omega arith;
  base64_length = (λ b. length-replicate ((length b + 2) / 3 * 4) 65);
  marshal_field = (λ fs key s h plain_key plain. printed_all-field fs key s h);
}

templates-IsPool_example :
    IsPool 100 (session_templates texts)
    × IsPool 100 (init_event_pool texts 8 16)
    × IsPool 100 (audit_templates texts)
    × IsPool 100 (small_payloads texts)
    × IsPool 100 (small_audits texts)
templates-IsPool_example = templates-IsPool texts texts-Laws 8 16 (omega arith) (omega arith)

abbrev source : Rng
source = record { numbers = (λ i. i * 31); used = 0 }

-- A size of payloads that is accepted, whose body wraps to a negative size: `make` panics.
too_large : random_base64 texts (body_bytes (request_kb (10 ^ 16))) source ≡ none
unfolding random_base64
too_large = refl

-- The default settings.
abbrev pub no_settings : Env
no_settings name = ""

defaults : load no_settings ≡ ok (read_config no_settings)
unfolding load read_config
defaults = refl

pub defaults-IsValid : IsValid (read_config no_settings)
defaults-IsValid = ((load-iff_IsValid no_settings (read_config no_settings)).0 defaults).1

pub defaults-Affordable : Affordable texts (read_config no_settings)
unfolding read_config
defaults-Affordable = record {
  ring = omega arith;
  users = omega arith;
  actors = omega arith;
  payload = omega arith;
}

abbrev pub ids : ℕ → ℕ
ids n = n + 1

init_oltp-Stocked_example :
    (p : Pools) × ((init_oltp texts ids (read_config no_settings)).1 ≡ some p)
    × Represents (init_oltp texts ids (read_config no_settings)).0 []
    × Stocked p
    × (length p.users ≡ pos_part (read_config no_settings).user_pool_size)
    × (length p.actors ≡ pos_part (read_config no_settings).actor_pool_size)
init_oltp-Stocked_example =
    init_oltp-Stocked texts ids (read_config no_settings) texts-Laws defaults-IsValid
      defaults-Affordable
