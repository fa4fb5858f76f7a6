-- ===== src/Workload/Ring.antt =====
-- workload/ring.go: the ring of recent session ids, which the reading operations sample.
--
-- Each method holds the ring's mutex from its first to its last access, so it is one atomic step.
-- An access out of range panics in Go: `push` and `sample` return `none` there.
pub mod Recent
mod Tests
use pgstorm.Prelude.{
  ℕ, ◌+◌, ◌%◌, Bool, true, false, Option, none, some, List, length, get_elem?, set, replicate, ltb,
  ◌==◌, if◌then◌else◌,
}
use pgstorm.Workload.Rng.{Rng, Rand, ◌>>=◌, intn}

pub record SessionRing {ℓ} (A : Type ℓ) : Type ℓ where
  pub buf : List A
  pub size : ℕ
  pub head : ℕ
  pub fill : ℕ

module _ {ℓ} {A : Type ℓ} where
  -- `NewSessionRing`; `zero_id` is `uuid.Nil`.
  unfoldable pub new_ring : A → ℕ → SessionRing A
  new_ring zero_id size = record { buf = replicate size zero_id; size = size; head = 0; fill = 0 }

  unfoldable pub push : SessionRing A → A → Option (SessionRing A)
  push r id =
      if ltb r.head (length r.buf)
      then some (record r {
        buf = set r.buf r.head id;
        head = (r.head + 1) % r.size;
        fill = if ltb r.fill r.size then r.fill + 1 else r.fill;
      })
      else none

  read_slot : Option A → Rand (A × Bool)
  read_slot none g = none
  read_slot (some id) g = some ((id, true), g)

  -- `Sample`: an id and whether there was one.
  unfoldable pub sample : A → SessionRing A → Rand (A × Bool)
  unfolding read_slot
  sample zero_id r g =
      if r.fill == 0
      then some ((zero_id, false), g)
      else (intn r.fill >>= λ idx. read_slot (get_elem? r.buf idx)) g
