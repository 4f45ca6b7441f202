-- ===== src/Lib.antt =====
-- ARP, the agent relationship protocol: two agents pair by a proposal that both principals sign, each
-- keeps the resulting connection in its registry, and the runtime answers the messages on it.
--
-- Parts and files:
-- - Common, Text: helpers; JsMap is a Map in insertion order, Text the string methods of the language.
-- - Spec: the wire types of packages/spec/src/schemas (JSON values, obligations, connection tokens and
--   ConnectionTokenSchema as `token_ok`).
-- - Audit: packages/audit/src/log.ts. A file is a list of characters of an abstract alphabet; `append`,
--   `load_tail_state`, `open_audit_log` and `verify_file` are the functions of that name. The hash of the
--   canonical JSON and the line codec are parameters with their laws in `IsCodec`.
-- - Registry: packages/registry/src/registry.ts. The three tables are lists of rows; every method has
--   its function, and `Call` with `perform` is a sequence of them. Strings of JSON columns are kept as
--   the values they encode; that of the token, which a caller gives, as the token that it parses as, if
--   it does: reading a row throws where it does not. listRevocations is not modelled.
-- - Bundle: packages/scope-catalog/src/bundle-compiler.ts. `expand` is the work queue of
--   expandImplications on fuel; it starts with one unit for each requested scope and each implication
--   of the catalog, since each scope is expanded at most once. The parent walk of
--   resolveParamsForScope gets as many rounds as scopes were expanded, since a parent stands before its
--   child in the order. The compiler of one scope is a parameter.
-- - Pairing: packages/pairing/src (canonical.ts, signing.ts, countersign.ts, verify.ts). The signature
--   scheme, text codecs and the DID resolver are parameters (`Crypto`, laws in `IsCrypto`). Recompile
--   checks the policies of a proposal with the bundle compiler of Bundle, as countersign.ts does.
-- - Message, Runtime: packages/runtime/src/runtime.ts. `on_message` is the listener, and
--   `evaluate_and_dispatch` the function of that name, over a world of the registry, the memories of the
--   connections and the events (audit entries, handler runs, replies). The policy decision point and the
--   application's handler are parameters that may throw. A handler run that stores nothing leaves an
--   empty memory behind, where the code leaves none; both read the same.
-- - Transport: packages/transport/src (transport.ts, mailbox.ts). The inbox is a list of rows;
--   `receive_envelope` and `do_deliver` are the functions of that name, with the JWS decoder, the
--   verifier and the key resolver as parameters (`Services`).
-- - Egress: packages/sdk/src/obligations.ts, the obligations on the payload of a reply; Guard is
--   packages/sdk/src/guard.ts, a guarded action as the list of its effects and its result.
-- - Base58: base58btc and the texts of keys, packages/transport/src/envelope.ts and
--   packages/resolver/src/did-key.ts. The pushing loop has the carry as fuel, which is enough since
--   each round divides it; numbers stay far below 32 bits, so shifts are products and quotients.
-- - Auth: packages/runtime/src/auth-store.ts, challenges and identity rotation. A table is a function
--   from the challenge's text to its row, one for each purpose.
-- - Lru: packages/resolver/src/lru.ts, with the clock's reading as an argument; a Map is the list of its
--   entries in the order of insertion.
-- - Sessions: packages/cloud-runtime/src/sessions.ts, the two maps of open sessions.
-- - CloudDb: packages/cloud-db/src. Tables are lists of rows that carry their tenant; Agents,
--   Connections, Messages, Records, Identity and Registrations have the methods of `withTenant` by
--   their names, Calls their sequences, Quota the plans. A statement that a key refuses is `none`.
--   Rows have the columns that the modelled methods read or write.
-- - CloudRuntime: packages/cloud-runtime/src/dispatch.ts. Request is mapRequest, Envelope
--   dispatchInbound up to the verified message, Inbound dispatchVerifiedMessage (with World, Guards,
--   Decision and Delivery), Queue drainQueue. The world has the database, the awaited replies and
--   the events (audit entries, sends, replies, pushes). The clock is
--   read once for a dispatch; the policy decision point may throw; calls of other requests do not
--   come between the steps of one. PostgresAudit is audit.ts, where they do: a schedule of reads and
--   insertions of several writers; Atomic is its specification. A timestamp is kept as the text that
--   was given, and read back as a function `iso` of it, a parameter.
--
-- Numbers are natural; times are milliseconds or seconds as in the code. Not modelled: HTTP routes,
-- user interfaces, network and file errors, the cloud's HTTP and WebSocket servers, and sending.
pub mod Common
pub mod Text
pub mod Spec
pub mod Audit
pub mod Registry
pub mod Bundle
pub mod Pairing
pub mod Base58
pub mod Message
pub mod Transport
pub mod Runtime
pub mod Egress
pub mod Auth
pub mod Lru
pub mod Sessions
pub mod CloudDb
pub mod CloudRuntime
