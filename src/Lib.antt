-- ===== src/Lib.antt =====
-- A verification library for the meowth daemon (daemon/, in Go): the part of it that guards access
-- and carries agent sessions to their clients, modelled by functions, with the theorems about them.
--
-- The program. The daemon serves agents' sessions over HTTP on the local machine. A first token is
-- minted through a one-shot setup code; every other endpoint wants a bearer token. A session runs a
-- command-line agent, whose messages the exec pump wraps in numbered envelopes, stores as rows and
-- sends as lines; a registry of cancel functions serves cancels and the shutdown.
--
-- The parts, and the code that they follow.
--   Prelude        names that the other modules share: Boolean tests, lists measured by native
--                  numbers, Go strings as lists of bytes, results, insertion sort of pages.
--   Store          daemon/internal/store: secret.go, tokens.go, dbtypes.go, sessions.go, messages.go,
--                  with the SQL of queries/ and the constraints of migrations/. A table is a list
--                  of rows in the order of insertion. Each operation takes a Boolean for the driver's
--                  failure, and returns the new table or an error.
--   SetupNonce     daemon/internal/setupnonce/setupnonce.go: Write and Parse.
--   Mint           daemon/internal/server/mint/window.go: Open and Consume. The state is a World: the
--                  window, whether the nonce file is there, and a database of any type. Consume is
--                  one step, since its second half holds the mutex and its first half reads only
--                  fields that never change. Probe is probe.go, the decision at startup.
--   Handlers       daemon/internal/server/handlers: Minting is mint.go, over Mint and Store.Tokens;
--                  Tokens is tokens.go, over Store; Queries and Sessions are sessions.go, over
--                  Store and CancelRegistry; Exec has the durations of exec.go, and
--                  Exec.Flow its handler, over Store, CancelRegistry and Pump.
--   Auth           daemon/internal/server/auth: the bearer middleware, over Store.Tokens.
--   CancelRegistry daemon/internal/server/cancel_registry.go: each operation holds the mutex, so an
--                  interleaving is a list of operations.
--   Envelope       daemon/internal/envelope/envelope.go: the builder, lines, truncation.
--   Pump           daemon/internal/server/exec_pump.go: the select loop is a fold over a list of
--                  events (a message, a tick, the end of the messages, the result, the cancel), each
--                  with what the clock, the driver and the connection answer to it. Pump.Stream has
--                  the loop and its two ends, finalizeStream and abortStream.
--   Agent          daemon/pkg/agent: MessagePipe is message_pipe.go, with a producer, the relay and the
--                  consumer as three movers; StderrTail is stderr_tail.go; Messages and CommandLines
--                  are agent.go and the builders of the five command lines, over Arguments, the filter
--                  of user arguments in claude.go. Copilot, Pi and Claude are copilot.go, pi.go and
--                  claude.go: a run is a fold over the decoded lines of the child, then the end of the
--                  process. Codex is codex.go: the JSON-RPC client as a state, its Notifications and
--                  what they read (Reading), the start of a run (Threads), the wait for a turn (Turn),
--                  the texts of its timeouts (Diagnostics), the servers in config.toml (Toml) and the
--                  usage in a session's log (SessionLog). Json is what the decoder yields. Thinking is thinking.go.
--   RemoteAccess   daemon/internal/remoteaccess/remoteaccess.go: the address the daemon may listen on.
--   Problem        daemon/internal/server/problem/problem.go.
--
-- Parameters. The argon2id hasher, the JSON and base64 codecs, what an app-server answers, the random source, the clock, the
-- driver's failures and address parsing are arguments of the definitions, and what a theorem needs
-- of them is a hypothesis of it. Numbers are natural numbers where the code's are never negative;
-- times are in the unit that the code truncates them to. The int64 numbers of envelopes are not
-- wrapped: a stream would need 2^63 envelopes.
--
-- Fuel. shrinkMessagePayload counts rounds, and its 32 are the code's own: what they are enough
-- for is a theorem. The scans of pi's texts and the digits of a number count down from the length of
-- the text and from the number, which no step of theirs exceeds. Every other loop is over a list.
--
-- Not modelled: goroutines beyond the orders of events above; the HTTP server, logging, files and
-- processes; hermes but for its arguments; the marked block in codex's config.toml; the parsers of
-- model lists; opening and migrating the database; generated queries.
pub mod Prelude
pub mod Store
pub mod SetupNonce
pub mod Mint
pub mod Problem
pub mod Handlers
pub mod CancelRegistry
pub mod Envelope
pub mod Pump
pub mod Auth
pub mod Agent
pub mod RemoteAccess
