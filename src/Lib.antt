-- ===== src/Lib.antt =====
-- agbridge: a relay by which a command-line client (the bridge) runs tools on a remote machine (the
-- daemon) through a gateway that both dial out to. A peer authenticates with a hello, the gateway
-- checks it against its credentials, registers daemons by name, and forwards each bridge's frames
-- to the daemon that the bridge asked for and may reach. Devices get credentials from the gateway's
-- enroll endpoint, for a token that is good once.
--
-- Wire, Proto, Handshake: the frames of internal/proto/frame.go and the hello of
--   internal/handshake/handshake.go, as lists of bytes; lengths are written and read as Go's
--   16-bit and 32-bit big-endian integers, with their wrap-around. Proto/Parse is an independent
--   parser, Proto/RoundTrip, Proto/Sound and Proto/Limits relate the code to it and to the encoding.
-- Hex, Auth: encoding/hex as internal/auth uses it, and SecretMatches, SignFrame, VerifyFrame,
--   CertFingerprintSHA256 and AttachCertPin. SHA-256 and HMAC are arguments; where a theorem needs
--   their results to be 32 bytes, or to be bytes at all, it says so.
-- Auth/TlsMode, Config, Errcode: internal/auth/tlsmode.go, where a tls.Config is what it asks of the
--   peer's certificates; the loaders of internal/config/config.go; the payloads and classes of
--   internal/errcode/errcode.go. The parsers of YAML and JSON are arguments.
-- Gateway/Creds, Gateway/Registry, Gateway/Sessions: the shared tables of internal/gateway
--   (credregistry.go, registry.go, sessions.go). Each method holds its lock throughout and is one
--   function. A connection is a number; the proxy of a daemon and its writer are entries of a map
--   from the daemon's connection to the bridge's.
-- Gateway/Server: handleConn, handleDaemon and handleBridge of internal/gateway/server.go.
--   Gateway/Server/State has where each handler stands (Pc), with its local variables, and what
--   they share; `advance` takes one handler to its next access to what is shared; `step` and `run`
--   follow a schedule that interleaves accepted connections, handlers, the SIGHUP of
--   cmd/agbridge/gateway.go and enrolments in any order. Gateway/Server/Cases has the branches of
--   the handlers and Gateway/Server/Invariants the induction on schedules that the theorems use.
-- Gateway/Tokens, Gateway/Enroll: internal/gateway/tokens.go, with the file that the gateway shares
--   with `agbridge issue-token`, and HandleEnroll of internal/gateway/enrollserver.go. The clock,
--   the random source, the decoded JSON and the outcome of writes are arguments.
-- Tools/Buffer, Tools/Background: background processes, internal/tools/bgexec.go: the buffers that
--   keep the end of each output stream, and the registry that starts, reports, signals and forgets
--   processes.
-- Files: regular files by path, with the calls of package os that the tools and the state store
--   make; Files/Swap is about a file that is written beside its target and renamed into place.
-- Tools/Payload, Tools/Transfer, Tools/Edit, Tools/ReadFile: the file tools of internal/tools
--   (writefile.go, upload.go, editfile.go, readfile.go); Tools/Exec: exec.go. What each call of the system and each
--   pull from a source of chunks answers is an argument, errors included. Tools/Text has the
--   functions of package strings that they use, Tools/Text/Rewriting what they do together.
-- State: internal/state: the states of bridge and daemon, their validation, saving and loading.
-- E2e, Client/Router, Daemon: internal/e2e over a record `Noise` of the library's calls; the
--   bridge's router, internal/cliclient/router.go; and cmd/agbridge/daemon.go: Daemon/Session has
--   the handshake, the check of peers and the sealing of frames, Daemon/Dispatch the loop's
--   handling of a frame, Daemon/Run its interleaving with the handlers, where a send to a channel
--   is a step that may have to wait. What a theorem needs of Noise are the records
--   `Lockstep` and, in Relay/Desync, `Numbered`.
-- Client/Files, Client/Handlers, Daemon/Handlers: ReadFileHandler and WriteFileHandler of
--   internal/cliclient/handlers_file.go, and the daemon's handlers of the file tools, as the frames
--   that they send. The encoders and decoders of JSON are arguments.
-- Relay: bridge, gateway and daemon composed on one connection (Relay/Upstream), also after a send
--   that failed (Relay/Desync), and the two handlers of a write and of a read (Relay/Writing,
--   Relay/Reading). Send of internal/transport/wss/conn.go stands with the router: whether its context
--   is live and its write works is an argument.
-- Audit: internal/audit/writer.go, the log that the gateway writes, with its rotation.
-- Dialer: the retry loop and delay of internal/dialer/loop.go on 64-bit durations, before its
--   floating-point jitter.
-- Tests: the same definitions on concrete inputs.
-- Prelude: equality and order as Boolean tests, lists measured by native numbers, results, and maps.
--
-- All loops are structural recursion but two. The one of matchLines in Tools/Edit runs on fuel, one
-- round for each byte of the text; every round but the last goes past a match, so that is enough, as
-- Tools/Edit/Matches shows. The one by which Client/Files cuts a content into chunks has a round for
-- each byte too, and Client/Files/Chunks shows that nothing is left. Go's `int` and `int64` are natural
-- numbers where they count bytes in memory or nanoseconds since the epoch, which stay far below
-- 2^63; lengths on the wire keep their wrap-around.
--
-- Not modelled: sockets, TLS and WebSockets (the rest of internal/transport), the Noise library itself, JSON
-- schemas with no logic (internal/searchproto and its like), the search, directory and port-forward
-- tools, the client's dialling and its other handlers, the daemon's other handlers, process and
-- terminal I/O of cmd/agbridge. A frame that a peer sends or a send that fails is an input of the
-- schedule; contexts and their cancellation appear as failing receives. Map iteration is in one fixed
-- order.
pub mod Prelude
pub mod Wire
pub mod Proto
pub mod Handshake
pub mod Hex
pub mod Auth
pub mod Config
pub mod Files
pub mod Audit
pub mod State
pub mod Errcode
pub mod E2e
pub mod Client
pub mod Daemon
pub mod Relay
pub mod Dialer
pub mod Gateway
pub mod Tools
pub mod Tests
