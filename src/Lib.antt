-- ===== src/Lib.antt =====
-- Junon's daemon lets coding agents work through the IDE that has a project open. IDE adapters and
-- consumers hold sessions with the daemon; it keeps what each adapter has registered, routes the
-- requests of consumers to the adapter of a workspace, and holds the edit plans and the undo
-- tokens between the preparation of an edit and its application.
--
-- Which file models which part:
-- - Uri: packages/protocol/src/workspace-uri.ts. `is_uri_within_workspace_root` is
--   isUriWithinWorkspaceRoot; `new URL` and `decodeURIComponent` are the functions of a record
--   UrlPlatform, which returns `none` where they throw. Uri/Containment has what an accepted pair
--   is.
-- - EditStore: packages/bridge-daemon/src/plan/in-memory-edit-store.ts. The record EditStore has
--   the maps, sets and limits of InMemoryEditStore, and each method is a function of the state:
--   Plans has createPlan, consumePlan and discardPlan, Undo the methods for undo tokens, Removal
--   the deletions, the invalidations, the sweep and close. Step makes of them the steps of a state
--   machine; Bounds, Indexed and Reservation have its invariants, Lifecycle and Removal/Purge what
--   each operation does.
-- - Registry: packages/bridge-daemon/src/session/session-registry.ts. Ops and Updates have the
--   methods of SessionRegistry, Step its state machine, Consistent its invariant, Routes and
--   Ownership what the daemon's routes rely on.
-- - Handshake: packages/bridge-daemon/src/session/handshake-processor.ts with the tests on tokens
--   of packages/bridge-daemon/src/security/authentication-token.ts. Versions has the reading, the
--   order, the sort and the selection of versions, Processor the class HandshakeProcessor; Order,
--   Selection, Outcomes and Total have what they do. A message comes as the schema's validator
--   classifies it, and the digest of a token and its comparison are a record Crypto.
-- - Router: packages/bridge-daemon/src/routing/application-router.ts, over the registry and the
--   edit store. Table has the table of routes with its timers, Requests the guards of routeRequest
--   and sessionClosed, Edits routeEditRequest, Notifications applyAdapterNotification. Payload has
--   what a response carries, Bounds routedSymbolsWithinBounds, Results the tests of a result,
--   Modified those of the documents that an edit has modified, Responses the rewriting of the
--   response to an edit, and Answers handleResponse. Dispatch has the requests that the daemon
--   answers itself, Handle the entry `handle`. Sending has what follows an awaited send to an
--   adapter that fails: that handler is one step up to its `await`, one after the failure and one
--   after the answer that tells of it, and other calls may come between them. The other awaits
--   only send, and what they send is returned at once. Steps is the state machine of requests,
--   edits, responses, timers and ends of sessions. A connection is the ID of its session, what is
--   sent is returned as messages, and the validators of the schemas are arguments. Tabled,
--   Admitted, Loops, Reuse, Foreign, Routed and the children of the others have what they do.
-- - Cli: packages/cli/src/arguments.ts. Arguments has parseCliArguments, RoundTrip a printer of
--   its results.
-- - Metrics: packages/bridge-daemon/src/observability/metrics-registry.ts. Data has the methods of
--   MetricsRegistry that write, Counts what they add up to.
-- - Protocol: the lists of methods in packages/protocol/src/application-validation.ts.
-- - Client: packages/bridge-client/src/connection/json-rpc-engine.ts. Requests has the requests
--   that ClientJsonRpcEngine sends and the ends of its connection, Inbound what it receives,
--   Handlers its handlers, notify and close, Step the state machine; Settled has what becomes of
--   the promises, Listeners what becomes of the handlers of a notification. A promise is a number,
--   and what the engine sends, settles, runs and aborts is returned as effects.
-- - Reconnect: packages/bridge-client/src/connection/reconnecting-connection.ts. Data has
--   reconnectSettings and the delays, Loop the loop of ReconnectingBridgeConnection, where a step
--   goes from one `await` to the next, with close and the registration of handlers; Closing,
--   Recovery and Handlers have what they do. Connections are numbers, and whether one is made, and
--   whether a session is restored, are events.
-- - Clock: the timestamps, as milliseconds, or as a text with what `Date.parse` reads of it.
-- - Shared: tests, lists, texts, results, the Map and the Set of the source.
--
-- Terms of the results: a store is indexed (EditStore/Removal/Purge, IsIndexed) where each plan
-- stands under its own ID and the keys of both maps are distinct, and a registry is consistent
-- (Registry/Consistent) where its four maps fit together; both hold after any calls.
--
-- How it corresponds: a Map is the list of its entries in insertion order, and a Set of texts the
-- list of its members. A method that throws is a function to a result type; one that has written
-- before it throws returns the state beside the result. `structuredClone` is the identity, since
-- the values are immutable here. The clock and the random IDs are arguments of the operations:
-- where the source reads the clock twice, so does the model. Numbers that the source bounds by
-- safe integers are unbounded. The loops that are not over lists are those of uniqueId and
-- nextRouteId, which make sixteen attempts and then throw, and the two over a tree of symbols,
-- which stop after 5000 of them; the model counts the rounds down, and one round more than that is
-- enough. createRequestId draws until an ID is free, so the drawings of a call are counted, and
-- one that runs out of them is one that has not returned yet; Client/Drawings has how many it
-- needs.
--
-- Not modelled: sockets, files and processes, the checks of messages against the JSON schema, the
-- counters and the queries that the router records for a request, the error of a time too late to
-- be written as a text, the texts of its errors, the rest of the client, the extension and the
-- commands, and the programs of other languages in the repository.
pub mod Shared
pub mod Clock
pub mod Uri
pub mod EditStore
pub mod Registry
pub mod Handshake
pub mod Router
pub mod Cli
pub mod Metrics
pub mod Client
pub mod Protocol
pub mod Reconnect
