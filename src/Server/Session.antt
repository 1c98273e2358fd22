-- ===== src/Server/Session.antt =====
-- src/server/session.rs: one client connection, driven as sequential code. The state is passed
-- explicitly; what the network does is a script that the session reads from: what each read call
-- returns, what each TLS handshake makes of it, and which writes fail. This file has the state, the
-- monad, and the reading and sending that the children share.
pub mod Reading
pub mod Message
pub mod Authentication
pub mod Transaction
pub mod Dispatch
pub mod Quiet
pub mod Security
pub mod Termination
pub mod Calm
use smtp_proxy_rs.Prelude.{
  ℕ, suc, ◌+◌, ◌-◌, Bool, true, false, not, ◌&&◌, ◌||◌, List, [], ◌∷◌, ◌++◌, Option, none, some,
  Bytes, codes, is_empty, length, ltb, ◌==◌, if◌then◌else◌, Result, ok, err,
}
use smtp_proxy_rs.Smtp.Command.{take_line}
use smtp_proxy_rs.Smtp.Params.{Param}
use smtp_proxy_rs.Smtp.Reply
use smtp_proxy_rs.Smtp.Reply.{Reply}
use smtp_proxy_rs.Server.{ServerConfig}

abbrev pub max_command_buffer : ℕ
max_command_buffer = 65536

abbrev pub terminator_slack : ℕ
terminator_slack = 2

pub data ErrorKind : Type 0 where
  unexpected_eof broken_pipe connection_reset connection_aborted not_connected : ErrorKind
  timed_out other : ErrorKind

unfoldable pub is_hangup : ErrorKind → Bool
is_hangup timed_out = false
is_hangup other = false
is_hangup _ = true

pub data State : Type 0 where
  want_greeting want_start_tls want_auth want_mail want_rcpt want_data : State

-- the derived order
abbrev pub rank : State → ℕ
rank want_greeting = 0
rank want_start_tls = 1
rank want_auth = 2
rank want_mail = 3
rank want_rcpt = 4
rank want_data = 5

pub data Line : Type 0 where
  got : Bytes → Line
  eof too_long : Line

pub data End : Type 0 where
  quit eof tls_failed closed drained timeout : End
  io : ErrorKind → End

pub data Flow : Type 0 where
  continue quit tls_failed close : Flow

-- What the connection brings next: bytes after a wait (no bytes: the client closed its side), a
-- read that fails after a wait, or the start of a drain.
pub data Read : Type 0 where
  chunk : ℕ → Bytes → Read
  failing : ℕ → ErrorKind → Read
  cancelled : Read

-- The TLS library's part of a handshake: it is fed what is still to be read of the connection, and
-- yields the decrypted stream, or fails.
abbrev pub Handshake : Type 0
Handshake = List Read → Option (List Read)

-- What the session asks of its handler and of TLS, as it is recorded. `authenticated` is an
-- AUTH that the handler has accepted, `recipient` a RCPT that it has accepted.
pub data Call : Type 0 where
  upgraded : Call
  asked_auth authenticated : Call
  asked_mail : Bytes → Call
  asked_rcpt recipient : Bytes → Call
  opened : Bytes → Call
  reset : Call

-- `sent` and `calls` record what was done, the last first.
pub record Session (H : Type 0) : Type 0 where
  pub buf : Bytes
  pub state : State
  pub tls_active : Bool
  pub config : ServerConfig
  pub handler : H
  pub first_command_seen : Bool
  pub recipients : ℕ
  pub reads : List Read
  pub handshakes : List Handshake
  pub writes : List (Option ErrorKind)
  pub draining : Bool
  pub sent : List Reply
  pub calls : List Call

-- Why a step has no result: an I/O error that `?` passes on, a panic, a wait that the script does
-- not end, or a model's loop that is out of fuel.
pub data Stop : Type 0 where
  failed : ErrorKind → Stop
  panicked starved exhausted : Stop

pub data Outcome (A : Type 0) : Type 0 where
  done : A → Outcome A
  stopped : Stop → Outcome A

abbrev pub M : Type 0 → Type 0 → Type 0
M H A = Session H → Outcome A × Session H

module _ {H : Type 0} where
  abbrev pub bind_outcome :
      {A B : Type 0} → Outcome A → Session H → (A → M H B) → Outcome B × Session H
  bind_outcome (done a) s f = f a s
  bind_outcome (stopped w) s f = (stopped w, s)

  infixl 5 ◌>>=◌ ◌>>◌
  abbrev pub ◌>>=◌ : {A B : Type 0} → M H A → (A → M H B) → M H B
  ◌>>=◌ m f s = bind_outcome (m s).0 (m s).1 f

  abbrev pub ◌>>◌ : {A B : Type 0} → M H A → M H B → M H B
  m >> k = m >>= λ _. k

  abbrev pub pure : {A : Type 0} → A → M H A
  pure a s = (done a, s)

  abbrev pub stop : {A : Type 0} → Stop → M H A
  stop w s = (stopped w, s)

  abbrev pub modify : (Session H → Session H) → M H (Unit {0})
  modify f s = (done tt, f s)

  abbrev pub goto : State → M H (Unit {0})
  goto st = modify (λ s. record s { state = st })

  -- A failure as a value, for `if let Err(e) = ..` and `let _ = ..`.
  abbrev pub caught :
      {A : Type 0} → Outcome A × Session H → Outcome (Result ErrorKind A) × Session H
  caught (done a, s) = (done (ok a), s)
  caught (stopped (failed k), s) = (done (err k), s)
  caught (stopped panicked, s) = (stopped panicked, s)
  caught (stopped starved, s) = (stopped starved, s)
  caught (stopped exhausted, s) = (stopped exhausted, s)

  abbrev pub attempt : {A : Type 0} → M H A → M H (Result ErrorKind A)
  attempt m s = caught (m s)

  -- the outcome of the next write, which succeeds if the script names none
  abbrev write_outcome : List (Option ErrorKind) → Session H → Outcome (Unit {0}) × Session H
  write_outcome [] s = (done tt, s)
  write_outcome (none ∷ ws) s = (done tt, record s { writes = ws })
  write_outcome (some k ∷ ws) s = (stopped (failed k), record s { writes = ws })

  -- `send`, whose smtplog is left out. A reply that cannot be formatted panics.
  unfoldable pub send : Reply → M H (Unit {0})
  send reply s = elim (Reply.wire reply) [
    | none ↦ (stopped panicked, s)
    | some _ ↦ write_outcome s.writes (record s { sent = reply ∷ s.sent })
  ]

-- What a wait for a line gives: a line, an error of the read, a drain, or nothing.
pub data Pulled : Type 0 where
  line : Line → Pulled
  failing : ErrorKind → Pulled
  interrupted starved : Pulled

pub record Pull : Type 0 where
  pub pulled : Pulled
  pub buf : Bytes
  pub reads : List Read
  pub draining : Bool

-- A line that is in the buffer, or a buffer that is too full to read on.
unfoldable pub settle : ℕ → Bytes → Option (Pulled × Bytes)
settle max_incomplete buf = elim (take_line buf) [
  | some (l, rest) ↦ some (line (got l), rest)
  | none ↦ if ltb max_incomplete (length buf) then some (line too_long, buf) else none
]

-- The loop of `next_line`, which finds a line in the buffer before it waits. A drain interrupts the
-- wait for a command, which `stops` says it is, and is noted in every other.
unfoldable pub pull : Bool → ℕ → ℕ → Bool → Bytes → List Read → Pull
unfolding settle
pull stops deadline max_incomplete d buf [] = elim (settle max_incomplete buf) [
  | some (p, rest) ↦ record { pulled = p; buf = rest; reads = []; draining = d }
  | none ↦ record { pulled = starved; buf = buf; reads = []; draining = d }
]
pull stops deadline max_incomplete d buf (chunk wait bytes ∷ reads) =
    elim (settle max_incomplete buf) [
      | some (p, rest) ↦ record {
        pulled = p;
        buf = rest;
        reads = chunk wait bytes ∷ reads;
        draining = d;
      }
      | none ↦ elim (ltb deadline wait) [
        | true ↦ record { pulled = failing timed_out; buf = buf; reads = reads; draining = d }
        | false ↦ elim (is_empty bytes) [
          | true ↦ record { pulled = line eof; buf = buf; reads = reads; draining = d }
          | false ↦ pull stops deadline max_incomplete d (buf ++ bytes) reads
        ]
      ]
    ]
pull stops deadline max_incomplete d buf (failing wait k ∷ reads) =
    elim (settle max_incomplete buf) [
      | some (p, rest) ↦ record {
        pulled = p;
        buf = rest;
        reads = failing wait k ∷ reads;
        draining = d;
      }
      | none ↦ elim (ltb deadline wait) [
        | true ↦ record { pulled = failing timed_out; buf = buf; reads = reads; draining = d }
        | false ↦ record { pulled = failing k; buf = buf; reads = reads; draining = d }
      ]
    ]
pull stops deadline max_incomplete d buf (cancelled ∷ reads) = elim (settle max_incomplete buf) [
  | some (p, rest) ↦ record { pulled = p; buf = rest; reads = cancelled ∷ reads; draining = d }
  | none ↦ elim stops [
    | true ↦ record { pulled = interrupted; buf = buf; reads = reads; draining = true }
    | false ↦ pull stops deadline max_incomplete true buf reads
  ]
]
