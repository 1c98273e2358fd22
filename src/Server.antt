-- ===== src/Server.antt =====
-- src/server/mod.rs: the application side of a connection, which the session calls, and the
-- server's configuration.
pub mod Limits
pub mod Data
pub mod Auth
pub mod Session
use smtp_proxy_rs.Prelude.{ℕ, Bool, List, Option, Bytes, codes, ◌++◌, Result}
use smtp_proxy_rs.Relay.{UpstreamVerdict}
use smtp_proxy_rs.Smtp.Params.{Param}

pub record Rejection : Type 0 where
  pub code : ℕ
  pub text : Bytes

unfoldable pub reject_mail : Bytes → Rejection
reject_mail why = record { code = 553; text = codes "Requested action not taken: " ++ why }

unfoldable pub reject_rcpt : Bytes → Rejection
reject_rcpt why = record { code = 550; text = codes "Will not send mail to this user: " ++ why }

unfoldable pub rate_limited : Rejection
rate_limited = record { code = 450; text = codes "4.7.1 Rate limit exceeded, try again later" }

-- The traits `Handler` and `BodySink`, over the states of a handler and of a sink. A method with
-- `&mut self` returns the new state. A failed write or finish leaves no sink.
pub record Handler (H S : Type 0) : Type 0 where
  pub auth : H → Bytes → Bytes → Bytes → H × Bool
  pub mail : H → Bytes → List Param → H × Option Rejection
  pub rcpt : H → Bytes → List Param → H × Option Rejection
  pub open_body : H → Bytes → H × Result Rejection S
  pub reset : H → H
  pub dsn_available : H → Bool
  pub size_limit : H → Option ℕ
  pub write : S → Bytes → Result UpstreamVerdict S
  pub write_final : S → Bytes → Result UpstreamVerdict S
  pub finish : S → Result UpstreamVerdict Bytes

-- `tls` and `drain` say whether there is one. Times are in one unit.
pub record ServerConfig : Type 0 where
  pub service_name : Bytes
  pub require_starttls : Bool
  pub require_auth : Bool
  pub tls : Bool
  pub max_header_size : ℕ
  pub idle_timeout : ℕ
  pub greeting_timeout : ℕ
  pub max_recipients : ℕ
  pub drain : Bool
