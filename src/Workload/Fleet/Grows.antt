-- ===== src/Workload/Fleet/Grows.antt =====
-- What one operation does to the ring that the workers share, and to its worker.
use pgstorm.Prelude.{
  ℕ, ◌+◌, Bool, true, false, String, string_eq, Option, none, some, ◌≡◌, refl, List, ◌∷◌, length,
  inl, inr, Result, ok, err, arith,
}
use pgstorm.Workload.Ring.{SessionRing}
use pgstorm.Workload.Ring.Recent.{Represents, Represents-push}
use pgstorm.Workload.Payload.Stocked.{Stocked}
use pgstorm.Workload.Ops.{Driver, Error, OltpExecutor}
use pgstorm.Workload.Ops.Handlers.{execute}
use pgstorm.Workload.Ops.Contract.{RuleFor, execute-Executed}
use pgstorm.Workload.Ops.Total.{execute-Runs}
use pgstorm.Workload.Worker.Oltp.{oltp}

-- The ring holds a history that is so many ids longer.
pub record Grown (a : SessionRing ℕ) (recent : List ℕ) (pushed : ℕ) : Type 0 where
  pub recent' : List ℕ
  pub ring : Represents a recent'
  pub grown : length recent' ≡ length recent + pushed

module _ {D : Driver} where
  -- How many ids an operation with that outcome has pushed; the flag says whether it is an insert.
  abbrev pub pushes : Bool → Option (Error D) → ℕ
  pushes true none = 1
  pushes true (some x) = 0
  pushes false r = 0

  -- A failed operation has pushed nothing.
  pub pushes_failed : (b : Bool) (x : Error D) → pushes b (some x) ≡ 0
  pushes_failed true x = refl
  pushes_failed false x = refl

  -- The error of a result.
  abbrev error_of : Result (Error D) (Unit {0}) → Option (Error D)
  error_of (ok a) = none
  error_of (err x) = some x

  RuleFor-Grown :
      (insert : Bool) (r : Result (Error D) (Unit {0})) (a b : SessionRing ℕ) (recent : List ℕ)
      → Represents a recent
      → RuleFor insert r a b
      → Grown b recent (pushes insert (error_of r))
  RuleFor-Grown true (ok u) a b recent v (inl (id, e, p)) = record {
    recent' = id ∷ recent;
    ring = Represents-push a b recent id v p;
    grown = omega arith;
  }
  RuleFor-Grown true (ok u) a b recent v (inr (x, e, same)) = cc
  RuleFor-Grown true (err x) a b recent v (inl (id, e, p)) = cc
  RuleFor-Grown true (err x) a b recent v (inr (y, e, same)) = record {
    recent' = recent;
    ring = rw same v;
    grown = omega arith;
  }
  RuleFor-Grown false r a b recent v same = record {
    recent' = recent;
    ring = rw same v;
    grown = omega arith;
  }

  -- On a ring that holds a history and with full pools: an operation returns, with full pools, and
  -- the ring's history has grown by an id exactly if the operation is an insert without an error.
  pub execute-Grown :
      (op : String) (s : OltpExecutor D) (recent : List ℕ)
      → Represents s.ring recent
      → Stocked s.pools
      → (r : Option (Error D)) × (t : OltpExecutor D) × ((oltp D).execute op s ≡ some (r, t))
        × Stocked t.pools
        × Grown t.ring recent (pushes (string_eq.beq op "insert") r)
  execute-Grown op s recent v stocked =
      let (r, t, e, ready) =
        execute-Runs op s (record { recent = recent; ring = v; stocked = stocked }) in
      returning r t e ready.stocked (
        RuleFor-Grown (string_eq.beq op "insert") r s.ring t.ring recent v
          (execute-Executed op s t r e).rule)
    where
      returning :
          (r : Result (Error D) (Unit {0})) (t : OltpExecutor D)
          → execute op s ≡ some (r, t)
          → Stocked t.pools
          → Grown t.ring recent (pushes (string_eq.beq op "insert") (error_of r))
          → (q : Option (Error D)) × (u : OltpExecutor D) × ((oltp D).execute op s ≡ some (q, u))
            × Stocked u.pools
            × Grown u.ring recent (pushes (string_eq.beq op "insert") q)
      returning (ok a) t e p g = (none, t, rw e refl, p, g)
      returning (err x) t e p g = (some x, t, rw e refl, p, g)
