-- ===== src/Lib.antt =====
-- smtp-proxy: the proxy, modelled from its source, and what is proved of it.
--
-- The program accepts mail from clients, asks a handler (the proxy) about each command and streams
-- each message to an upstream server. Its parts, and the files that model them:
--   src/smtp/command.rs, the command parser: Smtp/Command (`take_line`, `parse_command`), with
--     Smtp/Command/Lines and Smtp/Command/Outcome for what is proved of it;
--   src/smtp/params.rs, parameter lists: Smtp/Params, Smtp/Params/Grammar;
--   src/smtp/dsn.rs, the checks of DSN parameters: Smtp/Dsn, Smtp/Dsn/Accepted;
--   src/smtp/reply.rs, replies: Smtp/Reply, Smtp/Reply/Wire;
--   src/smtp/extensions.rs, what an EHLO reply announces: Smtp/Extensions;
--   src/relay.rs, the connection to the upstream: Relay (errors, verdicts and what is appended to
--     command lines, with Relay/Codes, Relay/Suffixes and Relay/Reparse), Relay/Wire (the transport and `read_reply`), Relay/Upstream (`open`, `connect`,
--     `open_transaction`, `write`, `finish`, `probe`); their children are proofs;
--   src/proxy.rs, the proxy: Proxy/Headers (parsing, merging, checking and writing of headers) and
--     Proxy/Handler (`ProxyHandler` and `ProxySink`, with the records of src/api.rs); their children
--     are proofs;
--   src/server/listener.rs, the limits on connections: Server/Limits, with its children for proofs;
--   src/server/auth.rs, the decoding of credentials: Server/Auth, Server/Auth/Bounds;
--   src/server/mod.rs, the handler's interface and the configuration: Server;
--   src/server/data.rs, the header collector and the body framer: Server/Data and its children;
--   src/server/session.rs, one connection from greeting to end: Server/Session and its children,
--     Reading (lines and replies), Message (DATA), Authentication (AUTH), Transaction (MAIL and
--     RCPT) and Dispatch (greetings, STARTTLS and the loop); Calm, Quiet, Security and Termination
--     are proofs.
-- A session reads lines (`next_line`), parses them (`parse_command`) and dispatches on its state
-- (`dispatch`); DATA feeds the collector and the framer; every reply goes through `Reply.wire`.
-- The proxy is such a handler (`proxy_handler`): it asks the API about a message while it connects to
-- the upstream, and the session's framer writes to its sink, which writes to the upstream.
--
-- How the code is carried over. A `&mut self` method is a function that returns the new state. A
-- session's method is an action `M H A`: it takes the session and returns an outcome and the
-- session. `?` on an I/O error is the outcome `stopped (failed k)`; a panic is `stopped panicked`.
-- The network is a script in the session: what each read brings and after which wait, and which
-- writes fail. A TLS handshake is a function of the script, a parameter that stands for the TLS
-- library: it is fed what is still to be read, and yields the decrypted stream, or fails. A drain
-- begins where the script says; the wait for a command notices it first, whatever is in the
-- buffer. `starved` says that the script ended while the session waited. A timeout is a wait that
-- is longer than the deadline. The handler is the record `Handler`, over any types of its own
-- state and of a sink's. What the session does to the outside is recorded in `sent` and `calls`,
-- the last first. Texts are lists of bytes, a `String` being their UTF-8; numbers are natural
-- numbers, since the lengths that the code counts are those of buffers in memory. The base64
-- decoder is a parameter.
-- The loops over the network take fuel: `serve`, `read_headers`, `read_body` and
-- `discard_to_terminator` stop with `exhausted` when it is used up. The bytes that a session may
-- still take in without a handshake, its `weight`, are enough for the loops of DATA: a round that
-- goes on has taken a line or emptied the buffer. What is proved of `serve` holds for every fuel.
--
-- The upstream is a script too, the record `Wire`: what each read brings, which writes and races
-- of a write against the reader end how, and what each TLS handshake makes of what is still to be
-- read; `sent` says what is handed to the transport and whether inside TLS. A timeout is
-- `silence`. The loop of `read_reply` has fuel for one line more than a reply may have bytes, and
-- every line has a byte, so that it is enough. The answers of the API and the TCP connections are
-- lists in the handler's state. The rate limiter is a parameter, and so is tokio's semaphore, with
-- the laws `IsSemaphore`; a mutex that is locked is state that is passed on.
--
-- Not modelled: logging, the log of the conversation and its redaction, the shutdown of a stream,
-- the accept loop of the listener, the rate limiter's buckets, the HTTP calls of the API client, TLS
-- itself, configuration, signals and privileges. They are I/O and library calls, or parts that the
-- modelled ones only meet through the handler.
pub mod Prelude
pub mod Smtp
pub mod Relay
pub mod Server
pub mod Tests
pub mod Proxy
