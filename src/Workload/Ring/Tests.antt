-- ===== src/Workload/Ring/Tests.antt =====
-- The ring on concrete ids.
use pgstorm.Prelude.{ℕ, ◌+◌, ◌*◌, ◌≡◌, refl, [], ◌∷◌, none, some, true, arith}
use pgstorm.Workload.Rng.{Rng, intn}
use pgstorm.Workload.Ring.{SessionRing, new_ring, push, sample}
use pgstorm.Workload.Ring.Recent.{
  Represents, Sampled, new_ring-Represents, push-Represents, Represents-push, sample-Sampled,
}

abbrev source : Rng
source = record { numbers = λ n. 7 * n + 5; used = 0 }

-- After three pushes into a ring of two.
abbrev wrapped : SessionRing ℕ
wrapped = record { buf = 30 ∷ 20 ∷ []; size = 2; head = 1; fill = 2 }

push_wraps : push (record { buf = 10 ∷ 20 ∷ []; size = 2; head = 0; fill = 2 }) 30 ≡ some wrapped
unfolding push
push_wraps = refl

push_on_nothing : push {A = ℕ} (record { buf = []; size = 0; head = 0; fill = 0 }) 30 ≡ none
unfolding push
push_on_nothing = refl

sample-wrapped : sample 0 wrapped source ≡ some ((20, true), record source { used = 1 })
unfolding sample intn
sample-wrapped = refl

abbrev fresh : SessionRing ℕ
fresh = record { buf = 0 ∷ []; size = 1; head = 0; fill = 0 }

abbrev one : SessionRing ℕ
one = record { buf = 5 ∷ []; size = 1; head = 0; fill = 1 }

fresh-Represents : Represents fresh []
unfolding new_ring
fresh-Represents = new_ring-Represents {A = ℕ} 0 1 (omega arith)

push-Represents_example : (s : SessionRing ℕ) × (push fresh 5 ≡ some s) × Represents s (5 ∷ [])
push-Represents_example = push-Represents fresh [] 5 fresh-Represents

one-Represents : Represents one (5 ∷ [])
unfolding push
one-Represents = Represents-push fresh one [] 5 fresh-Represents refl

sample-Sampled_example : Sampled 0 one (5 ∷ []) source (sample 0 one source)
sample-Sampled_example = sample-Sampled 0 one (5 ∷ []) source one-Represents
