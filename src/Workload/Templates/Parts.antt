-- ===== src/Workload/Templates/Parts.antt =====
-- The parts of the templates are built without a panic.
use pgstorm.Prelude.{
  ℕ, zero, suc, ◌+◌, ◌*◌, ◌/◌, ◌%◌, ◌^◌, ◌≤◌, ◌<◌, ◌≡◌, refl, sym, ◌∙◌, subst, ap, ltb, leb, word,
  half_word, true, some, pos, String, ◌++◌, codes, length, arith,
}
use pgstorm.Workload.Payload.{Bytes}
use pgstorm.Workload.Float.{signed}
use pgstorm.Workload.Rng.{Rand, ◌>>=◌, pure, intn, int63, pick}
use pgstorm.Workload.Console.{sprint_int}
use pgstorm.Workload.Templates.{
  quarter, body_bytes, made, filled, Json, text, real, items, object, end, field, Encoding, span,
  times, charset, random_string, numbered, random_base64, build_request, build_response, some_text,
  methods, statuses, paths, items_of, request_of, response_of, frame_of, context_of, stack_frame,
  build_stack_trace, build_tags, build_metrics, build_context,
}
use pgstorm.Workload.Templates.Yields.{
  Yields, Anything, Yields-bind, Yields-pure, Yields-intn, Yields-int63, Yields-pick, Yields-times,
}

abbrev pub Draws : {A : Type 0} → Rand A → Type 0
Draws {A} m = Yields {A = A} Anything m

bind :
    {A B : Type 0} {P : A → Type 0} (m : Rand A) (f : A → Rand B)
    → Yields P m
    → ((a : A) → Draws (f a))
    → Draws (m >>= f)
bind m f y next = Yields-bind m f y (λ a p. next a)

done : {A : Type 0} (a : A) → Draws (pure a)
done a = Yields-pure Anything a tt

Draws-times : {A : Type 0} (n : ℕ) (m : Rand A) → Draws m → Draws (times n m)
Draws-times n m y g = let (xs, h, e, p) = Yields-times n m y g in (xs, h, e, tt)

pub Draws-intn : (n : ℕ) → 0 < n → Draws (intn n)
Draws-intn n lt g = let (i, h, e, p) = Yields-intn n lt g in (i, h, e, tt)

pub random_string-Draws : (lo hi : ℕ) → lo ≤ hi → Draws (random_string lo hi)
unfolding random_string
random_string-Draws lo hi h =
    bind (intn (span lo hi)) (λ k. times (lo + k) (pick charset))
      (Yields-intn (span lo hi) (ground arith))
      (λ k. Draws-times (lo + k) (pick charset) (Yields-pick charset (omega arith)))

some_text-Draws : (lo hi : ℕ) → lo ≤ hi → Draws (some_text lo hi)
some_text-Draws lo hi h = bind _ _ (random_string-Draws lo hi h) (λ s. done (text s))

numbered-Draws :
    (prefix : String) (m : Rand Json) (i n : ℕ) → Draws m → Draws (numbered prefix m i n)
unfolding numbered
numbered-Draws prefix m i zero y = done end
numbered-Draws prefix m i (suc n) y = bind _ _ y (λ v.
    bind _ _ (numbered-Draws prefix m (suc i) n y)
      (λ rest. done (field (codes prefix ++ sprint_int (pos i)) v rest)))

pub signed-small : (n : ℕ) → n < half_word → signed n ≡ pos n
signed-small n h = let low : ltb n half_word ≡ true = ground arith in rw low refl

-- Sizes that are given neither wrap nor panic.
pub body_bytes-small :
    (body_kb : ℕ) → body_kb < 2 ^ 50 → body_bytes body_kb ≡ pos (body_kb * 1024 * 3 / 4)
body_bytes-small body_kb h =
    let exact : body_kb * 1024 * 3 % word ≡ body_kb * 1024 * 3 = omega arith in
    ap (λ n. quarter (signed n)) exact
    ∙ ap quarter (signed-small (body_kb * 1024 * 3) (omega arith))

pub made-some : (room each n : ℕ) → n * each ≤ room → made room each (pos n) ≡ some n
made-some room each n h = let fits : leb (n * each) room ≡ true = ground arith in rw fits refl

module _ (E : Encoding) where
  pub random_base64-Yields :
      (n : ℕ)
      → n ≤ E.room
      → (b : Bytes → Type 0) → ((s : Bytes) → length s ≡ n → b (E.base64 s))
      → Yields b (random_base64 E (pos n))
  unfolding random_base64
  random_base64-Yields n h Q good =
      subst (λ o. Yields Q (filled E o)) (sym (made-some E.room 1 n (omega (arith, h))))
        (Yields-bind _ _ (Yields-times n (intn 256) (Draws-intn 256 (omega arith)))
          (λ b size. Yields-pure Q (E.base64 b) (good b size)))

  pub random_base64-Draws : (n : ℕ) → n ≤ E.room → Draws (random_base64 E (pos n))
  random_base64-Draws n h = random_base64-Yields n h Anything (λ s e. tt)

  -- A body of a size that fits.
  body-Draws :
      (body_kb : ℕ)
      → body_kb * 1024 ≤ E.room
      → E.room ≤ 2 ^ 48
      → Draws (random_base64 E (body_bytes body_kb))
  body-Draws body_kb h most =
      subst (λ n. Draws (random_base64 E n))
        (sym (body_bytes-small body_kb (omega (arith, h, most))))
        (random_base64-Draws (body_kb * 1024 * 3 / 4) (omega (arith, h)))

  pub build_request-Draws :
      (body_kb : ℕ) → body_kb * 1024 ≤ E.room → E.room ≤ 2 ^ 48 → Draws (build_request E body_kb)
  unfolding build_request
  build_request-Draws body_kb h most =
      bind _ _
        (numbered-Draws "X-Header-" (some_text 20 60) 0 25 (some_text-Draws 20 60 (omega arith)))
        (λ headers. bind _ _ (Yields-pick methods (omega arith)) (λ method.
          bind _ _ (Yields-pick paths (omega arith)) (λ path.
            bind _ _ (body-Draws body_kb h most)
              (λ body. done (request_of headers method path body)))))

  pub build_response-Draws :
      (body_kb : ℕ) → body_kb * 1024 ≤ E.room → E.room ≤ 2 ^ 48 → Draws (build_response E body_kb)
  unfolding build_response
  build_response-Draws body_kb h most =
      bind _ _
        (numbered-Draws "X-Resp-Header-" (some_text 10 40) 0 15
          (some_text-Draws 10 40 (omega arith)))
        (λ headers. bind _ _ (Yields-pick statuses (omega arith)) (λ status.
          bind _ _ (body-Draws body_kb h most) (λ body. done (response_of headers status body))))

  stack_frame-Draws : Draws (stack_frame E)
  unfolding stack_frame
  stack_frame-Draws =
      let word' = random_string-Draws 5 15 (omega arith) in
      bind _ _ word' (λ a. bind _ _ word' (λ b.
        bind _ _ word'
          (λ c. bind _ _ (Yields-intn 500 (omega arith)) (λ line. done (frame_of a b c line)))))

  pub build_stack_trace-Draws : Draws (build_stack_trace E)
  unfolding build_stack_trace
  build_stack_trace-Draws = bind _ _ (Yields-intn 21 (omega arith)) (λ k.
      bind _ _ (Yields-times (20 + k) (stack_frame E) stack_frame-Draws)
        (λ frames. done (items (items_of frames))))

  pub build_tags-Draws : Draws (build_tags E)
  unfolding build_tags
  build_tags-Draws = bind _ _ (Yields-intn 51 (omega arith)) (λ k.
      bind _ _ (Yields-times (50 + k) (random_string 5 20) (random_string-Draws 5 20 (omega arith)))
        (λ tags. done (items (items_of tags))))

  pub build_metrics-Draws : Draws (build_metrics E)
  unfolding build_metrics
  build_metrics-Draws =
      bind _ _
        (numbered-Draws "metric_" (int63 >>= λ x. pure (real x)) 0 40
          (bind _ _ Yields-int63 (λ x. done (real x))))
        (λ ms. done (object ms))

  pub build_context-Draws : Draws (build_context E)
  unfolding build_context
  build_context-Draws =
      let short = random_string-Draws 10 30 (omega arith) in
      bind _ _ short (λ a. bind _ _ short (λ b. bind _ _ short (λ c.
        bind _ _ (random_string-Draws 50 100 (omega arith)) (λ d. done (context_of a b c d)))))
