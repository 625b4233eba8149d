-- ===== src/Web/WriterProxy/Wrapping.antt =====
-- web/mutil/writer_proxy.go and web/mutil/writer_proxy_go1_8.go: which proxy `WrapWriter` makes, by
-- the interfaces that the writer has (the second file is built from Go 1.8 on), and the type assertions of the methods that the proxy adds. A
-- failed assertion is a panic.
use goji.Prelude.{Bool, true, false, ◌&&◌, ◌||◌, ◌≡◌, refl, if◌then◌else◌, arith, ◌⊎◌, inl, inr}

-- The interfaces of a writer: `http.CloseNotifier`, `http.Flusher`, `http.Hijacker`,
-- `io.ReaderFrom` and `http.Pusher`.
pub record Interfaces : Type 0 where
  pub close_notifier : Bool
  pub flusher : Bool
  pub hijacker : Bool
  pub reader_from : Bool
  pub pusher : Bool

pub data ProxyKind : Type 0 where
  basic_writer : ProxyKind
  fancy_writer : ProxyKind
  flush_writer : ProxyKind

-- `WrapWriter` before Go 1.8
abbrev pub old_proxy_kind : Interfaces → ProxyKind
old_proxy_kind w =
    if w.close_notifier && (w.flusher && (w.hijacker && w.reader_from))
    then fancy_writer
    else if w.flusher
    then flush_writer
    else basic_writer

-- `WrapWriter` from Go 1.8 on
abbrev pub new_proxy_kind : Interfaces → ProxyKind
new_proxy_kind w = if w.flusher && (w.hijacker && w.reader_from) then fancy_writer else basic_writer

-- The methods that a proxy can have beyond those of `WriterProxy`.
pub data ExtraMethod : Type 0 where
  close_notify : ExtraMethod
  flush : ExtraMethod
  hijack : ExtraMethod
  read_from : ExtraMethod
  push : ExtraMethod

-- The methods that `fancyWriter` and `flushWriter` declare before Go 1.8.
unfoldable pub old_declares : ProxyKind → ExtraMethod → Bool
old_declares basic_writer m = false
old_declares flush_writer flush = true
old_declares flush_writer _ = false
old_declares fancy_writer push = false
old_declares fancy_writer _ = true

-- The methods that `fancyWriter` declares from Go 1.8 on, where there is no `flushWriter`.
unfoldable pub new_declares : ProxyKind → ExtraMethod → Bool
new_declares fancy_writer close_notify = false
new_declares fancy_writer _ = true
new_declares _ m = false

-- Whether the method's assertion on the writer behind holds; `ReadFrom` makes none with a tee.
unfoldable pub assertion_holds : Bool → Interfaces → ExtraMethod → Bool
assertion_holds teed w close_notify = w.close_notifier
assertion_holds teed w flush = w.flusher
assertion_holds teed w hijack = w.hijacker
assertion_holds teed w read_from = teed || w.reader_from
assertion_holds teed w push = w.pusher

-- Before Go 1.8, no method of a proxy that `WrapWriter` makes fails its assertion.
pub old_proxy_kind-assertion_holds :
    (teed : Bool) (w : Interfaces) (m : ExtraMethod)
    → old_declares (old_proxy_kind w) m ≡ true
    → assertion_holds teed w m ≡ true
unfolding old_declares assertion_holds
old_proxy_kind-assertion_holds teed w close_notify h = ground (arith, h)
old_proxy_kind-assertion_holds teed w flush h = ground (arith, h)
old_proxy_kind-assertion_holds teed w hijack h = ground (arith, h)
old_proxy_kind-assertion_holds teed w read_from h = ground (arith, h)
old_proxy_kind-assertion_holds teed w push h = ground (arith, h)

-- From Go 1.8 on, the same holds of every method but `Push`.
pub new_proxy_kind-assertion_holds :
    (teed : Bool) (w : Interfaces) (m : ExtraMethod)
    → new_declares (new_proxy_kind w) m ≡ true
    → (m ≡ push) ⊎ (assertion_holds teed w m ≡ true)
unfolding new_declares assertion_holds
new_proxy_kind-assertion_holds teed w close_notify h = ground (arith, h)
new_proxy_kind-assertion_holds teed w flush h = inr (ground (arith, h))
new_proxy_kind-assertion_holds teed w hijack h = inr (ground (arith, h))
new_proxy_kind-assertion_holds teed w read_from h = inr (ground (arith, h))
new_proxy_kind-assertion_holds teed w push h = inl refl

-- From Go 1.8 on, the proxy of a writer that has all interfaces but `http.Pusher` declares `Push`,
-- which fails.
pub push-fails :
    (w : Interfaces)
    → w.flusher ≡ true
    → w.hijacker ≡ true
    → w.reader_from ≡ true
    → w.pusher ≡ false
    → (new_declares (new_proxy_kind w) push ≡ true) × (assertion_holds false w push ≡ false)
unfolding new_declares assertion_holds
push-fails w f h r p = (ground (arith, f, h, r, p), p)
