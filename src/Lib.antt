-- ===== src/Lib.antt =====
-- Verification of goji, a minimalistic web framework (packages web, web/mutil, web/middleware, graceful,
-- graceful/listener and bind).
--
-- The program's parts. A Mux (web/mux.go) is a middleware stack (web/middleware.go) around a router
-- (web/router.go). The stack wraps layers around the router's `route`, and keeps built instances in
-- a pool; a request takes an instance by `alloc`, runs it on a context `C`, and gives it back by
-- `release`. The router keeps its routes sorted by prefix and compiles them (web/
-- bytecode_compiler.go) to a byte code that web/bytecode_runner.go runs on the path of a request; the
-- machine asks the patterns (web/pattern.go, web/string_pattern.go) of the routes that it reaches.
-- The result is a Match (web/match.go), whose handler answers. graceful/listener wraps a listener
-- and keeps account of the idle and the busy connections, so that a server can be drained. graceful
-- turns signals into calls of `shutdown`, which calls hooks, closes and drains the listeners, and
-- ends `Wait`. bind chooses the socket to listen on by the environment and by an address.
--
-- Files and code:
--   Prelude, Prelude/*       names, tests on numbers, lists and byte strings that all modules share
--   Web/Method               web/router.go: the method bits, validMethodsMap, httpMethod
--   Web/Route                web/pattern.go: Pattern; web/router.go: route; matchRoute; and `scan`, the
--                            naive router that the theorems compare with
--   Web/Context              web/web.go: C; web/match.go: Match, GetMatch; maps as association lists
--   Web/Bytecode             state, smMode and stateMachine; below it Trie (buildTrie,
--                            buildTrieSegment, commonPrefix), Encode (trie.encode, trieSegment.encode,
--                            compile) and Runner (routeMachine.route), each with its proofs in child
--                            modules; Walk is what a trie tries, read off the tree; Correct joins them
--   Web/Router               router: handle, compile, getMatch; Insertion, Order, Naive, Search and
--                            History hold the proofs about sorting, compiling and histories;
--                            Concurrent is the router among goroutines, with web/atomic.go
--   Web/StringPattern        stringPattern: parse, Match, Run; Reads is its meaning without a
--                            loop, Print its text
--   Web/RegexpPattern        regexpPattern: Match and Run, over the finder of package regexp; Groups
--                            is what they bind, Sketch sketchOnRegex on a compiled program
--   Web/FuncEqual            web/func_equal.go: funcEqual
--   Web/MiddlewareStack      mStack, cStack and cPool; Layers on the slice, Pooling on the pool
--   Web/Mux                  Mux, parseHandler, ParsePattern, router.route, routerMiddleware;
--                            Dispatch, Verbs and Serving hold the proofs
--   Web/AutoOptions          web/middleware/options.go: the proxy that answers OPTIONS requests
--   Web/WriterProxy          web/mutil/writer_proxy.go: basicWriter and ReadFrom of fancyWriter;
--                            Wrapping is WrapWriter there and in writer_proxy_go1_8.go
--   Web/Middleware           web/middleware: envinit.go, urlquery.go; SubRouter (subrouter.go),
--                            RequestId (request_id.go), Headers (nocache.go, realip.go), Panics
--                            (recoverer.go, logger.go), Terminal (what these
--                            print, terminal.go)
--   Graceful/Signal          graceful/signal.go: the state under `mu` and the bodies of the five
--                            sync.Once; Threads is their interleaving; Loop the registrations, the
--                            signals, graceful/einhorn.go and graceful/graceful.go. The proofs:
--                            Invariant, which Order reads, Unforced, Rounds, and Liveness
--   Graceful/Middleware      graceful/middleware.go: basicWriter and fancyWriter; Answer is what the
--                            client gets
--   Graceful/Server          graceful/serve13.go, serve.go, server.go: connState.Wrap and Serve; Run
--                            is a server with its listener, from the life of a connection that
--                            net/http documents; Sane, Safe and Drained hold the proofs
--   Defaults                 default.go and serve.go: the default mux, and ServeListener
--   Bind                     bind/bind.go, einhorn.go and systemd.go; Laws holds the proofs
--   Graceful/Listener        Shard (shard.go), Conn (conn.go), CloseConns (closeConns), Shards
--                            (listener.go); Counting, Invariant, Calls, History, After, Drain, Closing
--                            and Faults hold the proofs
--
-- State is passed explicitly: every operation takes the record of its state and gives the new one.
-- What can panic gives an Option or a result type of its own: an index or slice out of range in the
-- machine and in a pattern, a wait group below 0. Where the program ends by log.Fatalf there is no
-- result either.
--
-- Numbers. Lengths, indices and method sets are natural numbers. The int32 indices of the machine
-- do not wrap around in the model, so it speaks of machines with fewer than 2^31 states; the index -1
-- is a value of its own. The connection counter of the listener wraps at 2^64, and is taken to be
-- below 2^63 where the code turns it into an int. A mode byte is a record of its flags. Strings are
-- lists of bytes.
--
-- Fuel. buildTrie recurses through buildTrieSegment with growing depth; the model counts down from
-- `depth_bound`, one more than the longest prefix, and each level goes at least one byte deeper. The
-- runner is given one step more than the machine has states, since no index ever goes back. The loop
-- of sketchOnRegex needs one more than the instructions on a way without an alternative. That the
-- machine returns is part of what is stated of it below.
--
-- Concurrency. The locks are left out where an operation holds one from its beginning to its end:
-- such an operation is one step. For the stack any sequence of operations is a history, as it is for
-- the router; there Concurrent lets goroutines interleave, with the lock, and with loads of the
-- machine's pointer that need no lock. For a shard the steps are the sections under a connection's
-- lock (SetReadDeadline has two, which are one step, and the second also a call by itself), and
-- closeConns is its snapshot and one step per connection, so that other calls come between; a
-- snapshot that is taken while another goroutine is inside such a section is not modelled. In graceful/signal.go every
-- call of `shutdown`, and every goroutine of closeListeners, makes its own steps, and a list of
-- actions says which goroutine is next. A sync.Once lets one goroutine run its body and the others
-- wait; `mu` is held from the lock of a body to its unlock, and a goroutine that finds it held
-- stays where it is. Hooks, listeners and durations are registered before the first call of
-- `shutdown`, and sigLoop reads them without waiting for `mu`.
--
-- Parameters: patterns of the user (functions that read and change the context), handlers and
-- middleware (functions on the context and on all other state), the parser of regular expressions,
-- the choice that sync.Pool makes, the connections below the listener and whether a read or an
-- accept fails, the server of net/http, the environment of the process, and when `Drain` of a
-- listener returns. Functions are compared, as web/func_equal.go does, by their identity, a number.
-- A handler gets a copy of the context whose maps it may write; what it writes into them is not
-- seen by the model. A nil *C in stringPattern.match is left out: the router never passes one.
--
-- Not modelled: what package regexp/syntax compiles, the random prefix of the ids of requests, the
-- copies of crypto/tls configurations and the listening functions of graceful/server.go, which only
-- call net and crypto/tls, the stubs for other systems, the flags and the log of serve.go, and the example.
pub mod Prelude
pub mod Web
pub mod Graceful
pub mod Bind
pub mod Defaults
