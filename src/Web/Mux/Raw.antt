-- ===== src/Web/Mux/Raw.antt =====
-- web/match.go: `RawHandler`, the value that a handler was made from.
use goji.Prelude.{◌≡◌, Option, none, some, ap, sym}
use goji.Web.Mux.{
  HandlerType, context_func, http_func, web_handler, http_handler, unknown_handler, Handler,
  handler_func_wrap, net_http_handler_func_wrap, custom, net_http_handler_wrap, parse_handler,
}

-- `Match.RawHandler`; a nil handler is `none`.
abbrev pub raw_handler : Option Handler → Option HandlerType
raw_handler none = none
raw_handler (some (net_http_handler_wrap f)) = some (http_handler f)
raw_handler (some (handler_func_wrap f)) = some (context_func f)
raw_handler (some (net_http_handler_func_wrap f)) = some (http_func f)
raw_handler (some (custom f)) = some (web_handler f)

-- `RawHandler` gives back the value of which `parseHandler` made the handler, for each kind that it
-- accepts.
pub raw_handler-parse_handler :
    (t : HandlerType) (h : Handler) → parse_handler t ≡ some h → raw_handler (some h) ≡ some t
raw_handler-parse_handler (context_func f) h e = sym (ap raw_handler e)
raw_handler-parse_handler (http_func f) h e = sym (ap raw_handler e)
raw_handler-parse_handler (web_handler f) h e = sym (ap raw_handler e)
raw_handler-parse_handler (http_handler f) h e = sym (ap raw_handler e)
raw_handler-parse_handler (unknown_handler f) h e = cc
