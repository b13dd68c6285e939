-- ===== src/Lib.antt =====
-- A model of searxng-wth-frnds, a peer-to-peer search node, and the theorems that show its core correct.
--
-- The program. A query enters at `web_search` (src/swf/search/router.py), which reads a policy
-- (policy.py), makes a context (query.py), walks over the policy's routes (local cache, local index,
-- LAN friends, public web), stops at the first route whose results suffice (sufficiency.py), and answers
-- with an envelope (response.py) whose privacy labels are checked before it leaves. LAN friends pay
-- with anonymous tickets (tickets.py, ticket_flow.py). Peers replicate signed records (src/swf/sync/),
-- and their activity is read from a bounded event log (event_log.py).
--
-- Which file models which code:
--   Prelude            shared types, tests on native numbers, lists, dictionaries, JSON values, and the
--                      reading of a chain of checks
--   Search/Response    src/swf/search/response.py: the envelope, `validate_invariants`, `make`
--   Search/Policy      src/swf/search/policy.py: `_check_consistency`, `parse`, `parse_all` and the
--                      documents of the built-in policies
--   Search/Query       src/swf/search/query.py: the context and `build_context`
--   Search/Sufficiency src/swf/search/sufficiency.py: `check`
--   Search/Router      src/swf/search/route.py and router.py: handlers, gates, envelopes, `web_search`
--   Search/Tickets     src/swf/search/tickets.py and ticket_flow.py: envelope checks, the registry of
--                      spent nullifiers, the pinned issuer keys, the node's own tickets,
--                      `verify_query_ticket`, `issue_query_tickets`
--   Sync/Envelope      src/swf/sync/envelope.py: the shape, the hashes and the signature of a record's
--                      envelope, over a codec
--   Sync/CohortKeys    src/swf/sync/cohort_keys.py: the loader of the cohort's keys, and its cache
--   Sync/Store         src/swf/sync/store.py and schema.py: `apply_envelope` over its two tables and the
--                      connection's open transaction, and `latest_envelope`
--   Sync/Manifest      src/swf/sync/store.py: `build_manifest`, the pages and the history of a record
--   Sync/Reachability  src/swf/sync/sync_loop.py: `_record_peer_status` and its events
--   Sync/Compare       src/swf/sync/sync_loop.py: what becomes of a record of a peer's manifest
--   Sync/Pull          src/swf/sync/sync_loop.py: `sync_with_peer`
--   Sync/Loop          src/swf/sync/sync_loop.py: the rate limit and `_tick`
--   Sync/Samples       documents for the tests of these
--   Bundles            src/swf/bundles/envelope.py, signing.py, store.py, verify.py and puller.py: the shape,
--                      the table and the verifier of bundles, and `pull_from_peer`
--   Sync/EventLog      src/swf/sync/event_log.py: the ring of recent events and its cursors
-- A file's children prove what their names say; its tests and examples stand in `Tests`.
--
-- How code becomes definitions. Functions keep their names and the order of their tests; a raised
-- error is a constructor of the result; a module's variables or tables are a record that is passed and
-- returned; effects that leave the process (a cache write, an audit line) are a list in their order. A
-- function whose whole body runs under a lock or as one SQL statement is one step. Numbers are naturals
-- (times in milliseconds since 1970), which Python's integers do not bound; the cursors and limits of
-- the event log and the scores of results, which may be negative, are integers. Scores are
-- ten-thousandths, as the routes round them; NaN and an infinite score, which `check` assumes away and
-- a public engine may send, are not represented. All loops are
-- structural over the list that the source iterates, so there is no fuel.
--
-- Parameters. The modules behind the routes (`Services`), the inferences on a query (`QueryTools`), the
-- host of an address, the hash, the encoding and the signature library of tickets (`Crypto`),
-- JSON, SHA-256 and Ed25519 for envelopes (`Codec`), the checks that `apply_envelope` calls (`Node`, which
-- `node_of` fills with those of envelope.py and cohort_keys.py), what `int` and `repr` make of JSON values
-- (`Builtins`), `base64.b64decode` (`Tools`), the files of the cohort's keys, what a peer answers or that
-- a request raises (`Peer`, `Fetched`), the issuer of tickets, the clock, and whether a database opens.
-- `policies` of `web_search` is the dictionary after `policies or BUILT_IN_POLICIES`.
--
-- Not modelled: the HTTP server and client, discovery, file and SQL plumbing, HTML, the routes' own
-- modules, the threads of the sync loop and of the puller, `_default_discover`, the
-- rosters and the encryption of bundles, receipts, and errors of SQLite other than a database that does
-- not open or a value that it cannot bind.
pub mod Prelude
pub mod Search
pub mod Sync
pub mod Bundles
