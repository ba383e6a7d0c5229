-- ===== src/Lib.antt =====
-- The BKE worker's relay: a Cloudflare Worker that takes GitHub webhooks for pull requests, routes each
-- to one worker's Durable Object, and hands the wake on to the worker's browser over a WebSocket; with
-- the gates of the browser extension that receives it.
--
-- The parts and their files:
--
--   Prelude, Text, Js      strings as UTF-16 code units, JavaScript values as JSON.parse returns them,
--                          and the tests that the code makes of them. Js/Keys has the two tests on an
--                          object's keys: exactKeys of cloudflare-relay/src/protocol.js, which sorts,
--                          and the `exact` of the retirement modules, which counts and looks up.
--   Protocol               cloudflare-relay/src/protocol.js. Patterns has its regular expressions,
--                          Wake has validateWake with the record behind an accepted value, Frames the
--                          validators of the browser's frames, Active the phases of stored work,
--                          Recovery the plan after a reconnect, Routing the way from a GitHub event to
--                          a wake (routeGitHubPullRequest), with Labels and Edits for the parts, and
--                          Assignments the list that recovery plans over.
--   Session                the class WorkerSession of cloudflare-relay/src/index.js. State has its
--                          storage keys and sockets; Sockets has authoritativeSocket, sendActiveIfSafe
--                          and clearConnectionIfAuthoritative; Dispatch, Recover and Messages have the
--                          handlers of those names, and Events the object's entry points, one step for
--                          each event. Session/Consistency has the invariants of every run.
--   Relay                  the HTTP entry points of cloudflare-relay/src/index.js: the default fetch and
--                          its handlers, over the objects by worker id. Paths has the paths under
--                          /relay/; Causes relates a request to the events of one object, World runs
--                          requests and socket events in any order, Delivery follows a signed event
--                          to dispatch, and Recovery a request for recovery to its refusal.
--   Admin                  cloudflare-relay/src/admin-broker.js: Broker has the gates of its requests,
--                          Assignments the projection of the inventory. Admin/Inventory has
--                          cloudflare-relay/src/admin-assignment-inventory.js, which reads it: Grant
--                          the installation and the token, Repositories their list, Projecting a page's
--                          pull requests, Paging a query's answer, and Listing the loop and the whole;
--                          Admin/Inventory/Finishing has the loop's end, Sound and Counted, Keyed and
--                          Apart what its rounds keep, and Fulfilled the way on to the broker.
--   Attempt                the gates before a message to a new conversation, pure functions of what was
--                          observed: Attempt/Bootstrap has browser-extension/src/bootstrap-fence.ts
--                          (Reading the shape of its input, Pages and Fences its tests, Evaluate the
--                          decision) and Attempt/Fresh browser-extension/src/fresh-attempt-gate.ts;
--                          Platform and History have the tests that both write.
--   Retirement             the dormant retirement modules of cloudflare-relay/src: Fence has
--                          relay-retirement-fence-policy.js, Witness relay-retirement-witness.js and
--                          Kernel relay-retirement-transaction-kernel.js, its storage a record of the
--                          values under the keys that are read. Kernel/Seen and Kernel/First read the
--                          first write off the storage, Kernel/Staging and Kernel/Readback follow a
--                          fence from the write to the readback, Kernel/Blocks to the policy, and
--                          RouteFence to relay-retirement-route-fence.js. Membership has
--                          relay-socket-membership-witness.js.
--   Claims                 browser-extension/src/send-once-claim.ts: claimSendOnce cut at each await, and
--                          any number of calls over the refs of one repository in Claims/World;
--                          Claims/World/Answered runs one call alone.
--   Framing                browser-extension/native-host/framing.mjs: a frame's bytes, and the reader over
--                          the chunks of a stream.
--   Target                 browser-extension/src/target-binding.ts: the calls of a binding, cut at each
--                          await (Selecting, Proving, over the variables in State), and any
--                          interleaving of them in Target/Calls. Target/Page has the
--                          tests on tabs and frames, and the page status of
--                          browser-extension/src/protocol.ts.
--
-- How they interact: a webhook's wake reaches Session.Events.fetch as a dispatch request, whose value
-- Protocol.Wake.validate_wake tests; a browser connects through fetch too, and its frames reach
-- Session.Messages.web_socket_message, which tests them by Protocol.Frames; a recovery request carries
-- GitHub's answer, from which Protocol.Recovery.plan_recovery chooses. Relay.serve_http is what stands
-- before Session.Events.fetch: it routes a signed event by Protocol.Routing and addresses one object.
--
-- How state is modelled: a handler is a function from the session to the session after it, with its
-- response. Sent wakes and close codes are kept with the socket. The runtime lets no other event of the
-- object in while a handler waits for storage, so an event is one step. A recovery waits for GitHub
-- before it reads storage; GitHub's answer is part of the event. An integral JavaScript number is an
-- integer; a pull request number is a natural number, positive where it was validated.
--
-- An asynchronous function outside the objects is cut at each await, and its calls are interleaved
-- freely; an object that is compared by identity carries a number that is never used again.
--
-- Fuel: the digits of a number recur on fuel one more than the number, of which every round divides by
-- ten. The loop of the inventory has fuel for 41 rounds: every round but the last makes one of at most
-- 40 queries, and the code throws where a 41st would be needed.
--
-- What is not modelled: the WebSocket runtime (a send is taken not to throw, and the text of a close
-- reason is left out), HMAC and base64 (whether a signature or a bearer is accepted is part of the
-- request), JSON and UTF-8 (a parsed body is a value, and the two codecs are arguments of the frames),
-- decodeURIComponent, URL and trim (arguments), the tabs, frames and refs that a browser or GitHub
-- answers with (part of a step; the inventory asks a function of the request and its number),
-- toLowerCase, String and Number (arguments of the routing, of the list of assignments, of the broker's
-- snapshot and of the inventory, as localeCompare, Date.now and signJwt are there), Date.parse and
-- toISOString (arguments of the gates), the storage transaction of the retirement kernel (an argument,
-- with its law in IsCommitting), the comments that the relay posts to GitHub, and the modules that
-- PROJECT.json lists as not modelled.
pub mod Prelude
pub mod Text
pub mod Js
pub mod Protocol
pub mod Relay
pub mod Admin
pub mod Attempt
pub mod Session
pub mod Retirement
pub mod Claims
pub mod Framing
pub mod Target
