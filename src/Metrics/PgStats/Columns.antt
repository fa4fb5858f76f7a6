-- ===== src/Metrics/PgStats/Columns.antt =====
-- The columns of each query, with their counters.
use pgstorm.Prelude.{string_eq, ◌≡◌, refl, List, [], ◌∷◌}
use pgstorm.Workload.Float.{Float64}
use pgstorm.Metrics.PgStats.{
  Counter, checkpoints_timed, checkpoints_req, buffers_checkpoint, buffers_clean, buffers_backend,
  checkpoint_write_seconds, checkpoint_sync_seconds, wal_bytes_total, wal_records_total,
  wal_fpi_total, wal_buffers_full_total, Bgwriter16, Checkpointer17, WalRow,
}
use pgstorm.Metrics.PgStats.Deltas.{picked}

module _ (F : Float64) where
  open F use {Float}

  -- The columns of each query, with their counters.
  abbrev pub columns_of_bgwriter16 : Bgwriter16 F → List (Counter × Float)
  columns_of_bgwriter16 r =
      (checkpoints_timed, r.cp_timed)
      ∷ (checkpoints_req, r.cp_req)
      ∷ (buffers_checkpoint, r.buf_checkpoint)
      ∷ (buffers_clean, r.buf_clean)
      ∷ (buffers_backend, r.buf_backend)
      ∷ (checkpoint_write_seconds, r.write_time)
      ∷ (checkpoint_sync_seconds, r.sync_time)
      ∷ []

  abbrev pub columns_of_checkpointer17 : Checkpointer17 F → List (Counter × Float)
  columns_of_checkpointer17 r =
      (checkpoints_timed, r.cp_timed)
      ∷ (checkpoints_req, r.cp_req)
      ∷ (buffers_checkpoint, r.buf_checkpoint)
      ∷ (checkpoint_write_seconds, r.write_time)
      ∷ (checkpoint_sync_seconds, r.sync_time)
      ∷ []

  abbrev pub columns_of_clean : Float → List (Counter × Float)
  columns_of_clean r = (buffers_clean, r) ∷ []

  abbrev pub columns_of_wal : WalRow F → List (Counter × Float)
  columns_of_wal r =
      (wal_bytes_total, r.wal_bytes)
      ∷ (wal_records_total, r.wal_records)
      ∷ (wal_fpi_total, r.wal_fpi)
      ∷ (wal_buffers_full_total, r.wal_buffers_full)
      ∷ []

  -- What each query reads of a counter.
  abbrev pub of_bgwriter16 : Counter → Bgwriter16 F → List Float
  of_bgwriter16 checkpoints_timed r = r.cp_timed ∷ []
  of_bgwriter16 checkpoints_req r = r.cp_req ∷ []
  of_bgwriter16 buffers_checkpoint r = r.buf_checkpoint ∷ []
  of_bgwriter16 buffers_clean r = r.buf_clean ∷ []
  of_bgwriter16 buffers_backend r = r.buf_backend ∷ []
  of_bgwriter16 checkpoint_write_seconds r = r.write_time ∷ []
  of_bgwriter16 checkpoint_sync_seconds r = r.sync_time ∷ []
  of_bgwriter16 c r = []

  abbrev pub of_checkpointer17 : Counter → Checkpointer17 F → List Float
  of_checkpointer17 checkpoints_timed r = r.cp_timed ∷ []
  of_checkpointer17 checkpoints_req r = r.cp_req ∷ []
  of_checkpointer17 buffers_checkpoint r = r.buf_checkpoint ∷ []
  of_checkpointer17 checkpoint_write_seconds r = r.write_time ∷ []
  of_checkpointer17 checkpoint_sync_seconds r = r.sync_time ∷ []
  of_checkpointer17 c r = []

  abbrev pub of_clean : Counter → Float → List Float
  of_clean buffers_clean r = r ∷ []
  of_clean c r = []

  abbrev pub of_wal : Counter → WalRow F → List Float
  of_wal wal_bytes_total r = r.wal_bytes ∷ []
  of_wal wal_records_total r = r.wal_records ∷ []
  of_wal wal_fpi_total r = r.wal_fpi ∷ []
  of_wal wal_buffers_full_total r = r.wal_buffers_full ∷ []
  of_wal c r = []

  pub picked-of_bgwriter16 :
      (c : Counter) (r : Bgwriter16 F) → picked F c (columns_of_bgwriter16 r) ≡ of_bgwriter16 c r
  picked-of_bgwriter16 checkpoints_timed r = refl
  picked-of_bgwriter16 checkpoints_req r = refl
  picked-of_bgwriter16 buffers_checkpoint r = refl
  picked-of_bgwriter16 buffers_clean r = refl
  picked-of_bgwriter16 buffers_backend r = refl
  picked-of_bgwriter16 checkpoint_write_seconds r = refl
  picked-of_bgwriter16 checkpoint_sync_seconds r = refl
  picked-of_bgwriter16 wal_bytes_total r = refl
  picked-of_bgwriter16 wal_records_total r = refl
  picked-of_bgwriter16 wal_fpi_total r = refl
  picked-of_bgwriter16 wal_buffers_full_total r = refl

  pub picked-of_checkpointer17 :
      (c : Counter) (r : Checkpointer17 F)
      → picked F c (columns_of_checkpointer17 r) ≡ of_checkpointer17 c r
  picked-of_checkpointer17 checkpoints_timed r = refl
  picked-of_checkpointer17 checkpoints_req r = refl
  picked-of_checkpointer17 buffers_checkpoint r = refl
  picked-of_checkpointer17 buffers_clean r = refl
  picked-of_checkpointer17 buffers_backend r = refl
  picked-of_checkpointer17 checkpoint_write_seconds r = refl
  picked-of_checkpointer17 checkpoint_sync_seconds r = refl
  picked-of_checkpointer17 wal_bytes_total r = refl
  picked-of_checkpointer17 wal_records_total r = refl
  picked-of_checkpointer17 wal_fpi_total r = refl
  picked-of_checkpointer17 wal_buffers_full_total r = refl

  pub picked-of_clean : (c : Counter) (r : Float) → picked F c (columns_of_clean r) ≡ of_clean c r
  picked-of_clean checkpoints_timed r = refl
  picked-of_clean checkpoints_req r = refl
  picked-of_clean buffers_checkpoint r = refl
  picked-of_clean buffers_clean r = refl
  picked-of_clean buffers_backend r = refl
  picked-of_clean checkpoint_write_seconds r = refl
  picked-of_clean checkpoint_sync_seconds r = refl
  picked-of_clean wal_bytes_total r = refl
  picked-of_clean wal_records_total r = refl
  picked-of_clean wal_fpi_total r = refl
  picked-of_clean wal_buffers_full_total r = refl

  pub picked-of_wal : (c : Counter) (r : WalRow F) → picked F c (columns_of_wal r) ≡ of_wal c r
  picked-of_wal checkpoints_timed r = refl
  picked-of_wal checkpoints_req r = refl
  picked-of_wal buffers_checkpoint r = refl
  picked-of_wal buffers_clean r = refl
  picked-of_wal buffers_backend r = refl
  picked-of_wal checkpoint_write_seconds r = refl
  picked-of_wal checkpoint_sync_seconds r = refl
  picked-of_wal wal_bytes_total r = refl
  picked-of_wal wal_records_total r = refl
  picked-of_wal wal_fpi_total r = refl
  picked-of_wal wal_buffers_full_total r = refl
