-- ===== src/Server/Data/HeaderCollector.antt =====
-- src/server/data.rs, `HeaderCollector`: holds the header block whole, undoes the client's dot
-- stuffing and bounds the block. A `&mut self` method returns the new record with its result.
pub mod Block
use smtp_proxy_rs.Prelude.{
  ℕ, ◌+◌, ◌-◌, Bool, true, false, ◌||◌, [], ◌∷◌, ◌++◌, Option, none, some, Bytes, length, ltb, ◌==◌,
  if◌then◌else◌,
}
use smtp_proxy_rs.Server.Data.{is_empty_line, is_terminator}

pub data HeaderEvent : Type 0 where
  complete : Bytes → HeaderEvent
  terminator too_large : HeaderEvent

pub record HeaderCollector : Type 0 where
  pub max_header_size : ℕ
  pub headers : Bytes
  pub size : ℕ
  pub is_too_large : Bool
  pub delivered : Bool

unfoldable pub new : ℕ → HeaderCollector
new max_header_size = record {
  max_header_size = max_header_size;
  headers = [];
  size = 0;
  is_too_large = false;
  delivered = false;
}

unfoldable pub mark_too_large : HeaderCollector → HeaderCollector
mark_too_large h = record h { is_too_large = true; headers = [] }

-- `line.strip_prefix(b".").unwrap_or(line)`
unfoldable pub unstuff : Bytes → Bytes
unstuff [] = []
unstuff (c ∷ line) = if c == b'.' then line else c ∷ line

unfoldable pub push_line : HeaderCollector → Bytes → HeaderCollector × Option HeaderEvent
unfolding mark_too_large
push_line h line =
    let unstuffed = unstuff line in
    let counted = record h { size = h.size + length unstuffed } in
    if h.is_too_large
    then (h, some too_large)
    else if is_terminator line
    then (h, some terminator)
    else if h.delivered
    then (h, none)
    else if is_empty_line line
    then (record h { delivered = true; headers = [] }, some (complete h.headers))
    else if ltb h.max_header_size counted.size
    then (mark_too_large counted, some too_large)
    else (record counted { headers = h.headers ++ unstuffed }, none)

unfoldable pub remaining_capacity : HeaderCollector → Option ℕ
remaining_capacity h = if h.is_too_large then none else some (h.max_header_size - h.size)

unfoldable pub take_pending : HeaderCollector → HeaderCollector × Option Bytes
take_pending h =
    if h.delivered || h.is_too_large
    then (h, none)
    else (record h { delivered = true; headers = [] }, some h.headers)
