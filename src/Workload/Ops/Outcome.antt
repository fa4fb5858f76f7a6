-- ===== src/Workload/Ops/Outcome.antt =====
-- Reasoning about the operations' computations: what holds of the outcome, whatever it is.
use pgstorm.Prelude.{
  Option, none, some, ◌≡◌, refl, sym, subst, ◌∙◌, List, [], ◌∷◌, ◌++◌, All, Result, ok, err,
}
use pgstorm.Workload.Ops.{Call, begin, commit, rollback, Driver, Error, OltpExecutor, Op, continue}

module _ {D : Driver} where
  -- What holds of a computation that did not panic, of its result and of its last state.
  abbrev pub Outcome {ℓ κ} :
      {A : Type ℓ}
      → (Result (Error D) A → OltpExecutor D → Type κ)
      → Option (Result (Error D) A × OltpExecutor D)
      → Type κ
  Outcome R none = Unit
  Outcome R (some (r, s)) = R r s

  pub Outcome-continue {ℓ κ μ} :
      {A B : Type ℓ} (P : Result (Error D) A → OltpExecutor D → Type κ)
      (R : Result (Error D) B → OltpExecutor D → Type μ) (next : A → Op D B)
      (o : Option (Result (Error D) A × OltpExecutor D))
      → Outcome P o
      → ((x : Error D) (s : OltpExecutor D) → P (err x) s → R (err x) s)
      → ((a : A) (s : OltpExecutor D) → P (ok a) s → Outcome R (next a s))
      → Outcome R (continue next o)
  unfolding continue
  Outcome-continue P R next none p fails goes = tt
  Outcome-continue P R next (some (err x, s)) p fails goes = fails x s p
  Outcome-continue P R next (some (ok a, s)) p fails goes = goes a s p

  pub Outcome-some {ℓ κ} :
      {A : Type ℓ} (R : Result (Error D) A → OltpExecutor D → Type κ)
      {o : Option (Result (Error D) A × OltpExecutor D)} {r : Result (Error D) A}
      {s : OltpExecutor D}
      → o ≡ some (r, s)
      → Outcome R o
      → R r s
  Outcome-some R e p = subst (Outcome R) e p

-- A call that neither begins nor ends a transaction.
abbrev pub IsPlain : Call → Type 0
IsPlain begin = ⊥
IsPlain commit = ⊥
IsPlain rollback = ⊥
IsPlain c = Unit

pub All-append {ℓ κ} :
    {A : Type ℓ} (P : A → Type κ) (xs ys : List A) → All P xs → All P ys → All P (xs ++ ys)
All-append P [] ys p q = q
All-append P (x ∷ xs) ys p q = (p.0, All-append P xs ys p.1 q)

pub append_assoc {ℓ} : {A : Type ℓ} (xs ys zs : List A) → (xs ++ ys) ++ zs ≡ xs ++ (ys ++ zs)
append_assoc [] ys zs = refl
append_assoc (x ∷ xs) ys zs = cc (append_assoc xs ys zs)

-- Between the two states the ring stays as it is and only plain calls are made.
pub record Plain {D : Driver} (s t : OltpExecutor D) : Type 0 where
  pub same_ring : t.ring ≡ s.ring
  pub made : List Call
  pub logged : t.log ≡ made ++ s.log
  pub all_plain : All IsPlain made

module _ {D : Driver} where
  pub Plain-refl : (s : OltpExecutor D) → Plain s s
  Plain-refl s = record { same_ring = refl; made = []; logged = refl; all_plain = tt }

  pub Plain-trans : (s t u : OltpExecutor D) → Plain s t → Plain t u → Plain s u
  Plain-trans s t u p q = record {
    same_ring = q.same_ring ∙ p.same_ring;
    made = q.made ++ p.made;
    logged =
        q.logged
        ∙ subst (λ l. q.made ++ t.log ≡ q.made ++ l) p.logged refl
        ∙ sym (append_assoc q.made p.made s.log);
    all_plain = All-append IsPlain q.made p.made q.all_plain p.all_plain;
  }

  -- A computation that is plain, however it ends.
  abbrev pub IsPlainOp {ℓ} : {A : Type ℓ} → Op D A → Type 0
  IsPlainOp m = (s : OltpExecutor D) → Outcome (λ r t. Plain s t) (m s)
