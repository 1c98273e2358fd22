-- ===== src/Server/Data/HeaderCollector/Block.antt =====
-- The header block of src/server/data.rs: what is collected, and how much of it.
use smtp_proxy_rs.Prelude.{
  ℕ, ◌+◌, ◌≤◌, ◌≡◌, refl, true, false, List, [], ◌∷◌, ◌++◌, Option, none, some, arith, Bytes, leb,
  if◌then◌else◌, length, length-append, All,
}
use smtp_proxy_rs.Server.Data.{is_empty_line, is_terminator}
use smtp_proxy_rs.Server.Data.HeaderCollector.{
  HeaderEvent, complete, too_large, HeaderCollector, new, unstuff, push_line,
}
use mathlib.Core.List.{append_assoc, append-nil}

-- What the collector holds is what it has counted, and within the cap, unless it discards.
pub record IsBounded (h : HeaderCollector) : Type 0 where
  pub counted : h.is_too_large ≡ false → h.delivered ≡ false → h.size ≡ length h.headers
  pub capped : h.is_too_large ≡ false → h.size ≤ h.max_header_size
  pub discarded : h.is_too_large ≡ true → h.headers ≡ []
  pub handed_over : h.delivered ≡ true → h.headers ≡ []

pub new-IsBounded : (n : ℕ) → IsBounded (new n)
unfolding new
new-IsBounded n = ground arith

-- A line keeps the collector's invariant, if it holds: what is held is what was counted and within
-- the cap, and nothing is held once the block is discarded or handed over.
pub push_line-IsBounded :
    (h : HeaderCollector) (line : Bytes) → IsBounded h → IsBounded (push_line h line).0
unfolding push_line
push_line-IsBounded h line v = ground (arith, length-append h.headers (unstuff line))

-- Of a collector within its bounds: whatever line is pushed, the collector holds at most
-- `max_header_size` bytes, the block that it hands over has at most that many, and the cap itself
-- stays as it was.
pub push_line_capped :
    (h : HeaderCollector) (line : Bytes)
    → IsBounded h
    → (length (push_line h line).0.headers ≤ h.max_header_size)
      × ((block : Bytes)
          → (push_line h line).1 ≡ some (complete block)
          → length block ≤ h.max_header_size)
      × ((push_line h line).0.max_header_size ≡ h.max_header_size)
unfolding push_line
push_line_capped h line v = (
  ground (arith, length-append h.headers (unstuff line)),
  (λ block e. ground arith),
  ground arith,
)

-- The session's use of the collector: lines are pushed until one of them is answered by an event.
pub collect : HeaderCollector → List Bytes → Option HeaderEvent
collect h [] = none
collect h (line ∷ lines) = elim (push_line h line).1 [
  | none ↦ collect (push_line h line).0 lines
  | some e ↦ some e
]

-- A line that belongs to the header block.
abbrev pub IsHeaderLine : Bytes → Type 0
IsHeaderLine line = (is_terminator line ≡ false) × (is_empty_line line ≡ false)

-- The lines with their stuffing taken off, one behind the other.
abbrev pub unstuffed_block : List Bytes → Bytes
unstuffed_block [] = []
unstuffed_block (line ∷ lines) = unstuff line ++ unstuffed_block lines

collect_from :
    (h : HeaderCollector) (lines : List Bytes) (blank : Bytes)
    → h.is_too_large ≡ false
    → h.delivered ≡ false
    → h.size ≤ h.max_header_size
    → All IsHeaderLine lines
    → is_terminator blank ≡ false
    → is_empty_line blank ≡ true
    → collect h (lines ++ blank ∷ []) ≡ (
        if leb (h.size + length (unstuffed_block lines)) h.max_header_size
        then some (complete (h.headers ++ unstuffed_block lines))
        else some too_large)
unfolding collect push_line
collect_from h [] blank nt nd fits plain b0 b1 = ground (arith, append-nil h.headers)
collect_from h (line ∷ lines) blank nt nd fits plain b0 b1 =
    let counted = record h {
      size = h.size + length (unstuff line);
      headers = h.headers ++ unstuff line;
    } in
    ground (
      arith,
      collect_from counted lines blank,
      length-append (unstuff line) (unstuffed_block lines),
      append_assoc h.headers (unstuff line) (unstuffed_block lines),
    )

-- Header lines that are followed by a blank line are handed over as one block, each with one
-- leading dot taken off, if that block fits the cap; if it does not, the answer is `too_large`.
pub collect-block :
    (cap : ℕ) (lines : List Bytes) (blank : Bytes)
    → All IsHeaderLine lines
    → is_terminator blank ≡ false
    → is_empty_line blank ≡ true
    → collect (new cap) (lines ++ blank ∷ []) ≡ (
        if leb (length (unstuffed_block lines)) cap
        then some (complete (unstuffed_block lines))
        else some too_large)
unfolding new
collect-block cap lines blank plain b0 b1 =
    ground (arith, collect_from (new cap) lines blank refl refl (omega arith) plain b0 b1)
