-- ===== src/Workload/Templates.antt =====
-- workload/payload.go, the building of the templates, from random parts and JSON; each template is
-- built once, before any worker starts, and holds the offset of its field of 16 hexadecimal digits.
--
-- The JSON and base64 encoders and the sources of numbers are a parameter, `Encoding`. A Go map is
-- the list of its fields in the order of the source; the encoder sorts them. The sizes of bodies
-- are an `int64` that wraps, and `make` panics where one is negative or more than the runtime gives;
-- slices of a fixed small size are taken to be given. A range is of numbers that are not negative;
-- `span` stands for `hi-lo+1`, 0 where that is not positive. The drawn numbers that a `float64` is
-- made of stand for it.
pub mod Build
pub mod Yields
pub mod Parts
pub mod Field
pub mod Fits
pub mod Tests
use pgstorm.Prelude.{
  ℕ, zero, suc, word, half_word, ◌+◌, ◌-◌, ◌*◌, ◌/◌, ◌%◌, ◌^◌, ℤ, pos, negsuc, Bool, true, false,
  ◌&&◌, String, Option, none, some, List, [], ◌∷◌, ◌++◌, length, codes, ltb, leb, ◌==◌,
  if◌then◌else◌,
}
use pgstorm.Workload.Float.{signed}
use pgstorm.Workload.Rng.{Rng, Rand, ◌>>=◌, pure, panic, intn, int63, pick}
use pgstorm.Workload.Payload.{Bytes, Template, template_pool_size, hex_chars}
use pgstorm.Workload.Console.{sprint_int, first_part}

mutual
  pub data Json : Type 0 where
    text : Bytes → Json
    number : ℕ → Json
    real : ℕ → Json
    items : Items → Json
    object : Fields → Json

  pub data Items : Type 0 where
    last : Items
    item : Json → Items → Items

  pub data Fields : Type 0 where
    end : Fields
    field : Bytes → Json → Fields → Fields

pub record Encoding : Type 0 where
  -- `json.Marshal`
  pub marshal : Json → Bytes
  -- `base64.StdEncoding.EncodeToString`
  pub base64 : Bytes → Bytes
  -- `rand.New(rand.NewSource(seed))`
  pub source : ℕ → Rng
  -- The most bytes that `make` gives; it panics at more.
  pub room : ℕ

abbrev string : String → Json
string s = text (codes s)

abbrev pub span : ℕ → ℕ → ℕ
span lo hi = if leb lo hi then hi - lo + 1 else 0

-- A loop of draws.
unfoldable pub times {ℓ} : {A : Type ℓ} → ℕ → Rand A → Rand (List A)
times zero m = pure []
times (suc n) m = m >>= λ x. times n m >>= λ xs. pure (x ∷ xs)

abbrev pub charset : Bytes
charset = codes "abcdefghijklmnopqrstuvwxyzABCDEFGHIJKLMNOPQRSTUVWXYZ0123456789"

-- `randomString`
unfoldable pub random_string : ℕ → ℕ → Rand Bytes
unfolding intn times pick
random_string lo hi = intn (span lo hi) >>= λ k. times (lo + k) (pick charset)

-- The lowest hexadecimal digits of a number, before those of `acc`.
unfoldable pub hex_digits : ℕ → ℕ → Bytes → Bytes
hex_digits zero n acc = acc
hex_digits (suc k) n acc =
    hex_digits k (n / 16) ((if ltb (n % 16) 10 then 48 + n % 16 else 87 + n % 16) ∷ acc)

-- "%016x"
unfoldable pub hex16 : ℕ → Bytes
unfolding hex_digits
hex16 n = hex_digits 16 n []

-- The trace id: two numbers of 16 digits.
unfoldable pub trace_id : Rand Bytes
unfolding int63 hex16
trace_id = int63 >>= λ a. int63 >>= λ b. pure (hex16 a ++ hex16 b)

abbrev items_of : List Bytes → Items
items_of [] = last
items_of (s ∷ ss) = item (text s) (items_of ss)

-- `prefix` with the numbers from `i` on, and what is drawn for each.
unfoldable pub numbered : String → Rand Json → ℕ → ℕ → Rand Fields
unfolding sprint_int
numbered prefix m i zero = pure end
numbered prefix m i (suc n) = m >>= λ v.
    numbered prefix m (suc i) n >>= λ rest. pure (field (codes prefix ++ sprint_int (pos i)) v rest)

abbrev some_text : ℕ → ℕ → Rand Json
some_text lo hi = random_string lo hi >>= λ s. pure (text s)

abbrev methods : List String
methods = "GET" ∷ "POST" ∷ "PUT" ∷ "DELETE" ∷ "PATCH" ∷ []

abbrev statuses : List ℕ
statuses = 200 ∷ 201 ∷ 400 ∷ 404 ∷ 500 ∷ []

abbrev paths : List String
paths =
    "/api/v2/users" ∷ "/api/v2/sessions" ∷ "/api/v2/events" ∷ "/api/v2/reports" ∷ "/api/v2/metrics"
    ∷ []

-- The values that the parts consist of.
abbrev request_of : Fields → String → String → Bytes → Json
request_of headers method path body = object (
    field (codes "method") (string method) (
      field (codes "path") (string path)
        (field (codes "headers") (object headers) (field (codes "body") (text body) end))))

abbrev response_of : Fields → ℕ → Bytes → Json
response_of headers status body = object (
    field (codes "status") (number status)
      (field (codes "headers") (object headers) (field (codes "body") (text body) end)))

abbrev frame_of : Bytes → Bytes → Bytes → ℕ → Bytes
frame_of a b c line =
    codes "at "
    ++ (a
        ++ (codes "."
            ++ (b
                ++ (codes " ("
                    ++ (c ++ (codes ".go:" ++ (sprint_int (pos (line + 1)) ++ codes ")")))))))

abbrev context_of : Bytes → Bytes → Bytes → Bytes → Json
context_of a b c d = object (
    field (codes "level1")
      (object (
        field (codes "value") (text a) (
          field (codes "level2")
            (object (
              field (codes "value") (text b) (
                field (codes "level3")
                  (object (field (codes "value") (text c) (field (codes "data") (text d) end)))
                  end)))
            end)))
      end)

-- `bytes.Index`
unfoldable pub starts_with : Bytes → Bytes → Bool
starts_with [] ds = true
starts_with (c ∷ cs) [] = false
starts_with (c ∷ cs) (d ∷ ds) = if c == d then starts_with cs ds else false

abbrev later : Option ℕ → Option ℕ
later none = none
later (some i) = some (suc i)

unfoldable pub index_of : Bytes → Bytes → Option ℕ
unfolding starts_with
index_of marker [] = if starts_with marker [] then some 0 else none
index_of marker (d ∷ ds) =
    let rest = later (index_of marker ds) in if starts_with marker (d ∷ ds) then some 0 else rest

abbrev after_marker : Bytes → Option ℕ → ℤ
after_marker marker none = negsuc 0
after_marker marker (some i) = pos (i + length marker)

-- `"key":"`
abbrev pub marker_of : Bytes → Bytes
marker_of key = b'"' ∷ (key ++ codes "\":\"")

-- `findTraceIDOffset` and `findAuditNonceOffset`
unfoldable pub find_offset : Bytes → Bytes → ℤ
unfolding index_of
find_offset key doc = after_marker (marker_of key) (index_of (marker_of key) doc)

-- `n / 4`, which Go rounds towards 0.
abbrev minus : ℕ → ℤ
minus zero = pos 0
minus (suc n) = negsuc n

abbrev pub quarter : ℤ → ℤ
quarter (pos n) = pos (n / 4)
quarter (negsuc n) = minus ((n + 1) / 4)

-- `bodyKB*1024*3/4`
abbrev pub body_bytes : ℕ → ℤ
body_bytes body_kb = quarter (signed (body_kb * 1024 * 3 % word))

-- `make`, of so many elements of so many bytes each: their number, unless it panics.
abbrev pub made : ℕ → ℕ → ℤ → Option ℕ
made room each (pos n) = if leb (n * each) room then some n else none
made room each (negsuc n) = none

module _ (E : Encoding) where
  open E use {base64, room}

  -- Random bytes, once there is room for them.
  abbrev pub filled : Option ℕ → Rand Bytes
  filled none = panic
  filled (some n) = times n (intn 256) >>= λ b. pure (base64 b)

  -- `randomBase64`
  unfoldable pub random_base64 : ℤ → Rand Bytes
  unfolding times intn
  random_base64 n = filled (made room 1 n)

  -- `randomBase64Exact`; too short a text would be sliced out of bounds.
  unfoldable pub random_base64_exact : ℕ → Rand Bytes
  unfolding random_base64
  random_base64_exact n =
      if n == 0
      then pure []
      else (random_base64 (pos (n * 3 / 4 + 3)) >>= λ s.
          if leb n (length s) then pure (first_part n s) else panic)

  -- `buildRequest`
  unfoldable pub build_request : ℕ → Rand Json
  unfolding numbered random_string pick random_base64
  build_request body_kb = numbered "X-Header-" (some_text 20 60) 0 25 >>= λ headers.
      pick methods >>= λ method. pick paths >>= λ path.
      random_base64 (body_bytes body_kb) >>= λ body. pure (request_of headers method path body)

  -- `buildResponse`
  unfoldable pub build_response : ℕ → Rand Json
  unfolding numbered random_string pick random_base64
  build_response body_kb = numbered "X-Resp-Header-" (some_text 10 40) 0 15 >>= λ headers.
      pick statuses >>= λ status.
      random_base64 (body_bytes body_kb) >>= λ body. pure (response_of headers status body)

  -- A line of `buildStackTrace`.
  unfoldable pub stack_frame : Rand Bytes
  unfolding random_string intn sprint_int
  stack_frame = random_string 5 15 >>= λ a. random_string 5 15 >>= λ b.
      random_string 5 15 >>= λ c. intn 500 >>= λ line. pure (frame_of a b c line)

  -- `buildStackTrace`
  unfoldable pub build_stack_trace : Rand Json
  unfolding stack_frame times intn
  build_stack_trace =
      intn 21 >>= λ k. times (20 + k) stack_frame >>= λ frames. pure (items (items_of frames))

  -- `buildTags`
  unfoldable pub build_tags : Rand Json
  unfolding random_string times intn
  build_tags =
      intn 51 >>= λ k. times (50 + k) (random_string 5 20) >>= λ tags. pure (items (items_of tags))

  -- `buildMetrics`
  unfoldable pub build_metrics : Rand Json
  unfolding numbered int63
  build_metrics = numbered "metric_" (int63 >>= λ x. pure (real x)) 0 40 >>= λ ms. pure (object ms)

  -- `buildContext`
  unfoldable pub build_context : Rand Json
  unfolding random_string
  build_context = random_string 10 30 >>= λ a. random_string 10 30 >>= λ b.
      random_string 10 30 >>= λ c. random_string 50 100 >>= λ d. pure (context_of a b c d)
