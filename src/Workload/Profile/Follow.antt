-- ===== src/Workload/Profile/Follow.antt =====
-- workload/oltp.go: the schema creates what its followers wait for.
use pgstorm.Prelude.{Bool, true, false, none, ◌≡◌, refl, inl, inr, List, ◌∷◌, ◌++◌}
use pgstorm.Db.{
  Call, acquire, try_lock, list_tables, query_index, History, Server, done, ready, wait_for_schema,
  migrate_with_lock,
}
use pgstorm.Db.Catalogue.{IsConsistent, IsCatalogue, follower-ready}
use pgstorm.Workload.Profile.{oltp_schema}

oltp_schema-IsConsistent : IsConsistent oltp_schema
unfolding oltp_schema
oltp_schema-IsConsistent = record {
  tracked = (inl refl, (inr (inl refl), (inr (inr (inl refl)), tt)));
  sentinel = inr (inr (inr (inr (inr (inr (inr (inl refl)))))));
}

module _ (V : Server) where
  open V use {failure, grants}

  -- With a server whose catalogue names every table and index whose creation has succeeded: once a
  -- replica that holds the lock is done with the schema of the `oltp-jsonb` profile, a replica that
  -- waits for it, its indexes included if they are created, is ready at its next poll that is
  -- answered without an error, whatever was called in between.
  pub oltp_schema-ready :
      (w : Bool) (stops rest : List Bool) (h h' : History) (later : List Call)
      → IsCatalogue V
      → failure (acquire ∷ h) ≡ none
      → failure (try_lock ∷ acquire ∷ h) ≡ none
      → grants (try_lock ∷ acquire ∷ h) ≡ true
      → migrate_with_lock V oltp_schema w stops h ≡ (done, h')
      → failure (list_tables oltp_schema.tracked_tables ∷ (later ++ h')) ≡ none
      → failure (
          query_index oltp_schema.sentinel_index
          ∷ list_tables oltp_schema.tracked_tables
          ∷ (later ++ h'))
        ≡ none
      → (g : History) × (wait_for_schema V oltp_schema w (false ∷ rest) (later ++ h') ≡ (ready, g))
  oltp_schema-ready w stops rest h h' later catalogue =
      follower-ready V oltp_schema w stops rest h h' later catalogue oltp_schema-IsConsistent
