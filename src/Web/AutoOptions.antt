-- ===== src/Web/AutoOptions.antt =====
-- web/middleware/options.go: the proxy that answers OPTIONS requests. A response writer is known by
-- the calls made on it, in their order.
mod Tests
use goji.Prelude.{
  ℕ, ◌≡◌, refl, sym, ap, ◌∙◌, Bool, true, false, ◌&&◌, Option, none, some, List, [], ◌∷◌, ◌++◌, map,
  ◌==◌, if◌then◌else◌, arith, Bool-cases, inl, inr,
}
use mathlib.Core.List.{append_assoc, append-nil}
use goji.Prelude.Bytes.{Bytes, codes, str_eq}
use goji.Web.Context.{Context, Value, methods_value, valid_methods_key, read}

-- `autoOptionsState`
pub data AutoOptionsState : Type 0 where
  aos_init : AutoOptionsState
  aos_header_written : AutoOptionsState
  aos_proxying : AutoOptionsState

pub data ResponseCall : Type 0 where
  sets_header : Bytes → Bytes → ResponseCall
  writes_header : ℕ → ResponseCall
  writes : Bytes → ResponseCall

-- `autoOptionsProxy`; the context is read when it is needed.
pub record AutoOptionsProxy : Type 0 where
  pub w : List ResponseCall
  pub state : AutoOptionsState

module _ {H : Type 0} where
  abbrev as_methods : Option (Value H) → Option (List Bytes)
  as_methods (some (methods_value ms)) = some ms
  as_methods _ = none

  -- `getValidMethods`
  unfoldable pub get_valid_methods : Context H → Option (List Bytes)
  unfolding read
  get_valid_methods c = as_methods (read valid_methods_key c.env)

contains : Bytes → List Bytes → Bool
contains m [] = false
contains m (x ∷ xs) = if str_eq x m then true else contains m xs

-- `addMethod`
unfoldable pub add_method : List Bytes → Bytes → List Bytes
unfolding contains
add_method methods method = if contains method methods then methods else methods ++ method ∷ []

-- `strings.Join(methods, ", ")`
abbrev pub join_comma : List Bytes → Bytes
join_comma [] = []
join_comma (m ∷ []) = m
join_comma (m ∷ n ∷ ms) = m ++ (codes ", " ++ join_comma (n ∷ ms))

abbrev pub allow : List Bytes → List ResponseCall
allow methods =
    sets_header (codes "Allow") (join_comma (add_method methods (codes "OPTIONS")))
    ∷ writes_header 200
    ∷ []

abbrev pub forward : ResponseCall → AutoOptionsState → AutoOptionsProxy → AutoOptionsProxy
forward x st p = record { w = p.w ++ x ∷ []; state = st }

-- `Write`
abbrev pub write_on : AutoOptionsState → Bytes → AutoOptionsProxy → AutoOptionsProxy
write_on aos_init buf p = forward (writes buf) aos_header_written p
write_on aos_header_written buf p = forward (writes buf) aos_header_written p
write_on aos_proxying buf p = p

-- `WriteHeader`
abbrev pub header_on :
    AutoOptionsState → Option (List Bytes) → ℕ → AutoOptionsProxy → AutoOptionsProxy
header_on aos_init none code p = forward (writes_header code) aos_header_written p
header_on aos_init (some methods) code p =
    if code == 404
    then record { w = p.w ++ allow methods; state = aos_proxying }
    else forward (writes_header code) aos_header_written p
header_on aos_header_written methods code p = forward (writes_header code) aos_header_written p
header_on aos_proxying methods code p = forward (writes_header code) aos_proxying p

-- A call on the proxy; `sets_header` goes to the map of the writer behind it. `methods` are those in
-- the context at the time of the call.
abbrev pub Timed : Type 0
Timed = ResponseCall × Option (List Bytes)

unfoldable pub proxy_call : Timed → AutoOptionsProxy → AutoOptionsProxy
proxy_call (sets_header k v, methods) p = forward (sets_header k v) p.state p
proxy_call (writes buf, methods) p = write_on p.state buf p
proxy_call (writes_header code, methods) p = header_on p.state methods code p

unfoldable pub proxy_run : List Timed → AutoOptionsProxy → AutoOptionsProxy
unfolding proxy_call
proxy_run [] p = p
proxy_run (x ∷ xs) p = proxy_run xs (proxy_call x p)

-- The calls but those that write to the body.
unfoldable pub without_body : List Timed → List ResponseCall
without_body [] = []
without_body ((writes buf, ms) ∷ xs) = without_body xs
without_body ((x, ms) ∷ xs) = x ∷ without_body xs

unfoldable pub all_calls : List Timed → List ResponseCall
all_calls [] = []
all_calls ((x, ms) ∷ xs) = x ∷ all_calls xs

-- Sets headers only.
abbrev pub Quiet : List Timed → Type 0
Quiet [] = Unit
Quiet ((sets_header k v, ms) ∷ xs) = Quiet xs
Quiet (_ ∷ xs) = ⊥

-- Starts the response, and not with a 404 that methods could replace.
abbrev pub Other : Timed → Type 0
Other (sets_header k v, ms) = ⊥
Other (writes buf, ms) = Unit
Other (writes_header code, none) = Unit
Other (writes_header code, some ms) = (code == 404) ≡ false

-- One more call behind those of before.
then_more :
    (w rest : List ResponseCall) (x : ResponseCall) (l : List ResponseCall)
    → l ≡ (w ++ x ∷ []) ++ rest
    → l ≡ w ++ x ∷ rest
then_more w rest x l e = e ∙ append_assoc w (x ∷ []) rest

written :
    (xs : List Timed) (w : List ResponseCall)
    → (proxy_run xs (record { w = w; state = aos_header_written })).w ≡ w ++ all_calls xs
unfolding proxy_run proxy_call all_calls
written [] w = sym (append-nil w)
written ((sets_header k v, ms) ∷ xs) w =
    then_more w (all_calls xs) _ _ (written xs (w ++ sets_header k v ∷ []))
written ((writes buf, ms) ∷ xs) w =
    then_more w (all_calls xs) _ _ (written xs (w ++ writes buf ∷ []))
written ((writes_header code, ms) ∷ xs) w =
    then_more w (all_calls xs) _ _ (written xs (w ++ writes_header code ∷ []))

proxied :
    (xs : List Timed) (w : List ResponseCall)
    → (proxy_run xs (record { w = w; state = aos_proxying })).w ≡ w ++ without_body xs
unfolding proxy_run proxy_call without_body
proxied [] w = sym (append-nil w)
proxied ((sets_header k v, ms) ∷ xs) w =
    then_more w (without_body xs) _ _ (proxied xs (w ++ sets_header k v ∷ []))
proxied ((writes buf, ms) ∷ xs) w = proxied xs w
proxied ((writes_header code, ms) ∷ xs) w =
    then_more w (without_body xs) _ _ (proxied xs (w ++ writes_header code ∷ []))

-- A proxy that has passed on `w` and has not started the response.
abbrev pub opened : List ResponseCall → AutoOptionsProxy
opened w = record { w = w; state = aos_init }

Quiet-front :
    (front xs : List Timed) (w : List ResponseCall)
    → Quiet front
    → proxy_run (front ++ xs) (opened w) ≡ proxy_run xs (opened (w ++ all_calls front))
unfolding proxy_run proxy_call all_calls
Quiet-front [] xs w q = ap (λ v. proxy_run xs (opened v)) (sym (append-nil w))
Quiet-front ((sets_header k v, ms) ∷ front) xs w q =
    Quiet-front front xs (w ++ sets_header k v ∷ []) q
    ∙ ap (λ u. proxy_run xs (opened u)) (append_assoc w (sets_header k v ∷ []) (all_calls front))
Quiet-front ((writes buf, ms) ∷ front) xs w q = absurd q
Quiet-front ((writes_header code, ms) ∷ front) xs w q = absurd q

-- Where the handler only sets headers before it writes a 404, with methods in the context at that
-- time: the response begins with those headers, and then has the methods and OPTIONS in `Allow` and
-- the status 200; what the handler writes to the body afterwards is dropped.
pub proxy_run-answered :
    (front xs : List Timed) (methods : List Bytes)
    → Quiet front
    → (proxy_run (front ++ (writes_header 404, some methods) ∷ xs) (opened [])).w
      ≡ (all_calls front ++ allow methods) ++ without_body xs
unfolding proxy_run proxy_call
proxy_run-answered front xs methods q =
    ap (λ p. p.w) (Quiet-front front ((writes_header 404, some methods) ∷ xs) [] q)
    ∙ proxied xs (all_calls front ++ allow methods)

other_header :
    (code : ℕ) (ms : List Bytes) (w : List ResponseCall)
    → (code == 404) ≡ false
    → header_on aos_init (some ms) code (opened w)
      ≡ record { w = w ++ writes_header code ∷ []; state = aos_header_written }
other_header code ms w h = rw h

-- Where the response starts in any other way, by a write to the body, another status, or without
-- methods in the context, every call is passed on as it is.
pub proxy_run-passed :
    (front : List Timed) (x : Timed) (xs : List Timed)
    → Quiet front
    → Other x
    → (proxy_run (front ++ x ∷ xs) (opened [])).w ≡ all_calls front ++ all_calls (x ∷ xs)
unfolding proxy_run proxy_call all_calls
proxy_run-passed front x xs q o =
    ap (λ p. p.w) (Quiet-front front (x ∷ xs) [] q) ∙ first x (all_calls front) o
  where
    first :
        (y : Timed) (w : List ResponseCall)
        → Other y
        → (proxy_run (y ∷ xs) (opened w)).w ≡ w ++ all_calls (y ∷ xs)
    first (sets_header k v, ms) w h = absurd h
    first (writes buf, ms) w h = then_more w (all_calls xs) _ _ (written xs (w ++ writes buf ∷ []))
    first (writes_header code, none) w h =
        then_more w (all_calls xs) _ _ (written xs (w ++ writes_header code ∷ []))
    first (writes_header code, some ms) w h =
        ap (λ p. (proxy_run xs p).w) (other_header code ms w h)
        ∙ then_more w (all_calls xs) _ _ (written xs (w ++ writes_header code ∷ []))
