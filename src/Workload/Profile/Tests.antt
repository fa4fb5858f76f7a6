-- ===== src/Workload/Profile/Tests.antt =====
-- The profile's defaults, and a mix from the environment.
use pgstorm.Prelude.{
  Bool, true, false, ◌||◌, String, string_eq, none, ◌≡◌, refl, sym, subst, List, [], ◌∷◌, map, ok,
  err, atoi, if◌then◌else◌, inl, inr, Bool-cases, arith,
}
use pgstorm.Config.{Env}
use pgstorm.Db.{
  Call, acquire, exec, list_tables, query_index, History, Server, done, ready, contains,
  wait_for_schema, migrate_with_lock,
}
use pgstorm.Db.Catalogue.{creates_table, creates_index, Succeeded, IsCatalogue}
use pgstorm.Workload.Profile.Follow.{oltp_schema-ready}
use pgstorm.Workload.Weights.{WeightedOp, resolve_weights, select_op}
use pgstorm.Workload.Weights.Resolve.{resolved}
use pgstorm.Workload.Ops.{Driver}
use pgstorm.Workload.Profile.{
  oltp_ops, oltp_schema, oltp_profile, get_profile, registered_profiles, register_profile,
}
use pgstorm.Workload.Templates.Tests.{texts, ids}
use pgstorm.Workload.Profile.Handled.{Handled, select_op-Handled}

-- Reads by address instead of deletions.
abbrev no_deletes : Env
no_deletes name =
    if string_eq.beq name "DELETE_PCT"
    then "0"
    else if string_eq.beq name "READ_IP_PCT"
    then "15"
    else ""

abbrev driver : Driver
driver = record { DbError = String; is_no_rows = (λ e. false); is_context_error = (λ e. false) }

abbrev mix : List WeightedOp
mix = map (resolved no_deletes) oltp_ops

accepted : resolve_weights no_deletes oltp_ops ≡ ok mix
unfolding resolve_weights oltp_ops atoi
accepted = refl

select_op-Handled_example : Handled driver (select_op 97 mix)
select_op-Handled_example = select_op-Handled driver no_deletes mix 97 accepted

-- The names in an error are sorted.
unknown :
    get_profile "pgvector"
      (register_profile "broker" (oltp_profile texts ids) (registered_profiles texts ids))
    ≡ err (record { name = "pgvector"; valid = "broker" ∷ "oltp-jsonb" ∷ [] })
unfolding get_profile registered_profiles
unknown = refl

-- A server that executes every statement and keeps a catalogue of it.
abbrev created : (String → String → Bool) → History → String → Bool
created p [] i = false
created p (exec ddl ∷ h) i = p i ddl || created p h i
created p (c ∷ h) i = created p h i

abbrev listed : History → List String → List String
listed h [] = []
listed h (t ∷ ts) = if created creates_table h t then t ∷ listed h ts else listed h ts

abbrev tables_of : History → List String
tables_of (list_tables ts ∷ h) = listed h ts
tables_of h = []

abbrev index_of : History → Bool
index_of (query_index i ∷ h) = created creates_index h i
index_of h = false

abbrev keeper : Server
keeper = record {
  Error = String;
  failure = (λ h. none);
  grants = (λ h. true);
  found = tables_of;
  has_index = index_of;
}

created-cons :
    (p : String → String → Bool) (c : Call) (h : History) (i : String)
    → created p h i ≡ true
    → created p (c ∷ h) i ≡ true
created-cons p (exec ddl) h i e = ground arith
created-cons p acquire h i e = e
created-cons p c h i e = e

Succeeded-created :
    (p : String → String → Bool) (h : History) (ddl i : String)
    → Succeeded keeper ddl h
    → p i ddl ≡ true
    → created p h i ≡ true
Succeeded-created p [] ddl i s e = elim s [ ]
Succeeded-created p (c ∷ h) ddl i (inl (same, fine)) e =
    subst (λ d. created p (d ∷ h) i ≡ true) (sym same) (rw e refl)
Succeeded-created p (c ∷ h) ddl i (inr s) e = created-cons p c h i (Succeeded-created p h ddl i s e)

contains-listed :
    (h : History) (t : String) (ts : List String)
    → created creates_table h t ≡ true
    → contains t ts ≡ true
    → contains t (listed h ts) ≡ true
contains-listed h t [] e c = c
contains-listed h t (u ∷ ts) e c = elim (Bool-cases (string_eq.beq u t)) [
  | inl same ↦
      let eq : u ≡ t = (string_eq.beq_iff u t).0 same in
      let there : created creates_table h u ≡ true =
        subst (λ v. created creates_table h v ≡ true) (sym eq) e in
      rw there (rw same refl)
  | inr other ↦ elim (Bool-cases (created creates_table h u)) [
    | inl there ↦ rw there (rw other (contains-listed h t ts e (rw other at c)))
    | inr gone ↦ rw gone (contains-listed h t ts e (rw other at c))
  ]
]

keeper-IsCatalogue : IsCatalogue keeper
keeper-IsCatalogue = record {
  tables =
      λ h ddl t ts s e c. contains-listed h t ts (Succeeded-created creates_table h ddl t s e) c;
  indexes = λ h ddl i s e. Succeeded-created creates_index h ddl i s e;
}

abbrev led : History
led = (migrate_with_lock keeper oltp_schema true [] []).1

leads : migrate_with_lock keeper oltp_schema true [] [] ≡ (done, led)
unfolding migrate_with_lock oltp_schema
leads = refl

oltp_schema-ready_example :
    (g : History) × (wait_for_schema keeper oltp_schema true (false ∷ []) (acquire ∷ led)
      ≡ (ready, g))
oltp_schema-ready_example =
    oltp_schema-ready keeper true [] [] [] led (acquire ∷ []) keeper-IsCatalogue refl refl refl
      leads refl refl
