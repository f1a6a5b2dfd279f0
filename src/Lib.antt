-- ===== src/Lib.antt =====
-- Toki: the request pipeline, the datagram security and the plugin state machines of the web
-- framework, modelled from its TypeScript.
--
-- A request comes from the native engine into `Toki.#dispatch` (ts/core/app.ts), which runs the
-- before chain, the handler and the response hooks of a route compiled from its scopes
-- (ts/core/scope.ts, `#compile`), and turns the result into the engine's wire form
-- (ts/http/response.ts). The plugins add middleware; their state is kept in stores. Datagrams pass
-- through a Noise session (ts/net).
--
-- Files and code:
--   Base        lists, options, texts and the integers from -1 up, over the native numbers.
--   JsMap       JavaScript's `Map`: the entries in insertion order; JsMap/Laws its lookups and sizes,
--               JsMap/Evict the loop that deletes the oldest entries, on fuel that is the map's size;
--               JsMap/Expiry tables with entries that expire; JsMap/Count totals of weights.
--   Core/Task   a call of a hook or handler: it returns, throws, or returns a promise. `settle` runs
--               it to its end, with what the rest of the program does between as a parameter.
--   Core/Pipeline  `runBefore`, `runSerialization`, `runAfter` of ts/core/pipeline.ts.
--   Core/Dispatch  `#dispatch`, `#run`, `#afterBefore`, `#afterHandler`, `#finishResponse`,
--               `#handleError`, `#submit` of ts/core/app.ts and `materialize` of ts/core/pipeline.ts.
--   Core/Scope  the hook lists of ts/core/scope.ts; `#compile`, `#compileNotFound`, `ancestry` of
--               ts/core/app.ts. A scope is the root or a child of a scope.
--   Core/Registration  `use`, `addHook`, `setErrorHandler`, `decorateRequest` and
--               `addContentTypeParser` of ts/core/scope.ts.
--   Http/Headers, Http/Reply  ts/http/response.ts, and the staged headers of ts/http/request.ts.
--   Http/Schema ts/http/schema.ts: Check is `validate` and the checks below it, Accepts what a schema
--               accepts, Checks and Valid compare the two. Doubles and regular expressions are the
--               parameter `Language`.
--   Net/Bytes   big-endian numbers and sets of counters.
--   Net/Cipher  ts/net/noise/cipher-state.ts, over an AES-256-GCM that is a parameter `Gcm`; what the
--               code relies on is `IsGcm`: a tag of 16 bytes, and what was encrypted decrypts.
--   Net/ReplayFilter, Net/Session  ts/net/noise-session.ts.
--   Net/SecureDatagram  ts/net/secure-datagram.ts; the random nonce of a seal is an argument.
--   Net/Noise   ts/net/noise: Symmetric is symmetric-state.ts with `dh` of dh.ts, Handshake is
--               handshake-state.ts; SHA-256, HKDF and X25519 are fields of the parameter `Suite`.
--               Handshake/Sealing, Handshake/Messages and Handshake/Agreement follow the three messages.
--   Net/SecureUdp  ts/net/secure-udp.ts: the server's table of peers as a state with one function per
--               event, its effects listed; Client is the client. Table, Peers, Owed and Runs follow
--               the counters, Safety the sessions, Exchange and Meeting an exchange between the two,
--               Drift a second handshake of one peer.
--   Net/Tcp     ts/net/tcp.ts: Socket is the class `Socket`, Dispatch `dispatch` and `connectTcp`,
--               Server `createTcpServer` over the variables of the module, Options the flattened
--               options. What the native engine answers comes with each call, and what the
--               listeners do, up to an exception, with each event.
--   NumMap      JavaScript's `Map` with numbers as keys.
--   RateLimit/Store  plugins/ratelimiter/src/store.ts, the clock an argument of each operation.
--   Idempotency/Store  plugins/idempotency/src/store.ts; Ideal compares it with a function from keys
--               to slots, Once counts the requests let through, Ceiling the keys, and Kept follows
--               a stored record.
--   RateLimit/Middleware  plugins/ratelimiter/src/rate-limit.ts, with number formatting a parameter.
--   RateLimit/Transport  plugins/ratelimiter/src/tcp-rate-limit.ts and udp-rate-limit.ts.
--   IpFilter    plugins/ip-filter/src: Address is the parsing of cidr.ts, IpFilter its ranges and
--               ip-filter.ts; Prefix says what a range covers, Bounds what fits in a
--               version. Base/Bits has the masks.
--   Breaker     plugins/circuit-breaker/src/breaker.ts, with the transition hooks it calls as events.
--   Idempotency/Hooks  plugins/idempotency/src/idempotency.ts and fingerprint.ts, with SHA-256 and the
--               UTF-8 encoder in the parameter `Crypto`.
--   Session     plugins/session/src: Store is store.ts, Stored is session.ts, Plugin the hooks `load` and
--               `save` of plugin.ts, with what a handler does to the session as a list of calls. The
--               signing of the cookie is the parameter `Signer`; a session id is an argument.
--               Store/Kept follows a stored session.
--   Cache/Store  plugins/cache/src/store.ts; Recency is the order that a write leaves, Ceiling the number
--               of entries, Lru the entries that a history leaves.
--   Jwt/Verify  plugins/jwt/src/verify.ts and claims.ts; decoding and signatures are the parameter
--               `Crypto`. Order has the guards of an accepted token, Valid what makes it valid.
--   Tests       runs on concrete inputs.
--
-- Loops are recursion on lists. The one loop on fuel, that of `#capacityEvict`, is given the number of
-- entries, and each turn deletes one. Counters on the wire are natural numbers below 2^64; the
-- code reads them as unsigned 64-bit values, and refuses to count past the reserved one.
--
-- Left out: the native engine (build.zig, src) and its binding ts/native/native.ts, request timeouts,
-- streams' chunks, logging, the plugins not named above, and the promise of a JSON encoder that throws
-- (`#safeToNative`). JSON encoding is a parameter. Times are whole milliseconds
-- from 0, those of tokens whole seconds.
pub mod Base
pub mod JsMap
pub mod NumMap
pub mod IpFilter
pub mod Core
pub mod Http
pub mod Net
pub mod RateLimit
pub mod Breaker
pub mod Jwt
pub mod Cache
pub mod Session
pub mod Idempotency
mod Tests
