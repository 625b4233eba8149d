-- ===== src/Web/Middleware/RequestId.antt =====
-- web/middleware/request_id.go: the ids of requests. `reqid` is a uint64, and `prefix` is chosen
-- when the process starts, from the name of the host and random bytes.
use goji.Prelude.{
  ℕ, zero, suc, ◌+◌, ◌-◌, ◌%◌, ◌^◌, ◌<◌, ◌≡◌, ◌≢◌, refl, sym, ap, ◌∙◌, Option, none, some, [], ◌∷◌,
  ◌++◌, length, drop, drop-append, arith,
}
use mathlib.Core.Option.{some-injective}
use goji.Prelude.Bytes.{Bytes, codes}
use goji.Prelude.Decimal.{format, value, value-format}
use goji.Web.Context.{Context, Value, text_value, set_env, read, read-set_env}
use goji.Web.Middleware.{Shared, Handler}

abbrev pub request_id_key : Bytes
request_id_key = codes "reqID"

abbrev pub zeros : ℕ → Bytes
zeros zero = []
zeros (suc n) = b'0' ∷ zeros n

-- `%06d` of a number that is not negative.
unfoldable pub format_06d : ℕ → Bytes
format_06d n = zeros (6 - length (format n)) ++ format n

-- `fmt.Sprintf("%s-%06d", prefix, myid)`
unfoldable pub id_text : Bytes → ℕ → Bytes
unfolding format_06d
id_text prefix n = prefix ++ b'-' ∷ format_06d n

-- `atomic.AddUint64(&reqid, 1)`
abbrev pub next_id : ℕ → ℕ
next_id n = (n + 1) % 2 ^ 64

module _ {H W : Type 0} where
  -- `RequestID`: the counter before the request, and the counter after it besides.
  unfoldable pub request_id : Bytes → Handler H W → ℕ → Shared H W → ℕ × (Shared H W × Option ℕ)
  request_id prefix h n s =
      let myid = next_id n in
      (
        myid,
        h (record s {
          context = set_env request_id_key (text_value (id_text prefix myid)) s.context;
        }),
      )

module _ {H : Type 0} where
  abbrev pub as_text : Option (Value H) → Bytes
  as_text (some (text_value t)) = t
  as_text _ = []

  -- `GetReqID`
  unfoldable pub get_req_id : Context H → Bytes
  get_req_id c = as_text (read request_id_key c.env)

  pub get_req_id-set :
      (t : Bytes) (c : Context H) → get_req_id (set_env request_id_key (text_value t) c) ≡ t
  unfolding get_req_id
  get_req_id-set t c = ap as_text (read-set_env request_id_key request_id_key (text_value t) c)

-- Leading zeros do not change the value.
value-zeros : (k : ℕ) (s : Bytes) → value (zeros k ++ s) 0 ≡ value s 0
unfolding value
value-zeros zero s = refl
value-zeros (suc k) s = value-zeros k s

value-format_06d : (n : ℕ) → n < 10 ^ 20 → value (format_06d n) 0 ≡ some n
unfolding format_06d
value-format_06d n h = value-zeros _ (format n) ∙ value-format n h

pub id_text-injective :
    (prefix : Bytes) (a b : ℕ)
    → a < 2 ^ 64
    → b < 2 ^ 64
    → id_text prefix a ≡ id_text prefix b
    → a ≡ b
unfolding id_text
id_text-injective prefix a b ha hb e =
    let tails : b'-' ∷ format_06d a ≡ b'-' ∷ format_06d b =
      sym (drop-append prefix _) ∙ ap (drop (length prefix)) e ∙ drop-append prefix _ in
    let digits : format_06d a ≡ format_06d b = ap (drop 1) tails in
    some-injective _ _ (
      sym (value-format_06d a (omega arith))
      ∙ ap (λ t. value t 0) digits
      ∙ value-format_06d b (omega arith))

-- The counter of a process that has made `k` ids.
unfoldable pub counter : ℕ → ℕ
counter zero = 0
counter (suc k) = next_id (counter k)

counter-mod : (k : ℕ) → counter k ≡ k % 2 ^ 64
unfolding counter
counter-mod zero = refl
counter-mod (suc k) = omega (arith, counter-mod k)

-- The context that the handler is given.
abbrev pub seen : {H W : Type 0} → Bytes → ℕ → Shared H W → Context H
unfolding request_id
seen prefix n s = (request_id prefix (λ t. (t, none)) n s).1.0.context

ids_differ :
    (prefix : Bytes) (i j : ℕ)
    → i < j
    → j < i + 2 ^ 64
    → id_text prefix (counter (suc i)) ≢ id_text prefix (counter (suc j))
ids_differ prefix i j h g e =
    let a = counter-mod (suc i) in
    let b = counter-mod (suc j) in
    let same = id_text-injective prefix _ _ (omega (arith, a)) (omega (arith, b)) e in
    omega (arith, same, a, b)

module _ {H W : Type 0} where
  get_req_id-seen :
      (prefix : Bytes) (n : ℕ) (s : Shared H W)
      → get_req_id (seen prefix n s) ≡ id_text prefix (next_id n)
  unfolding seen
  get_req_id-seen prefix n s = get_req_id-set _ s.context

  -- Any two requests of one process of which the later is less than 2^64 requests after the
  -- earlier have different ids under GetReqID, whatever their contexts.
  pub request_ids_differ :
      (prefix : Bytes) (i j : ℕ) (s t : Shared H W)
      → i < j
      → j < i + 2 ^ 64
      → get_req_id (seen prefix (counter i) s) ≢ get_req_id (seen prefix (counter j) t)
  unfolding counter
  request_ids_differ prefix i j s t h g e =
      ids_differ prefix i j h g
        (sym (get_req_id-seen prefix (counter i) s) ∙ e ∙ get_req_id-seen prefix (counter j) t)
