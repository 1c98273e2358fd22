-- ===== src/Prelude/Utf8.antt =====
-- UTF-8 as Rust's standard library reads it: validation, the lossy conversion, and the white
-- space that `str::trim_start` takes off.
pub mod Length
use Prim.Native.Nat.{ℕ, zero, suc}
use mathlib.Core.Bool.{Bool, true, false, ◌&&◌, ◌||◌}
use mathlib.Core.List.{[], ◌∷◌, ◌++◌}
use mathlib.Core.Option.{Option, none, some}
use smtp_proxy_rs.Prelude.Lists.{is_empty}
use smtp_proxy_rs.Prelude.Tests.{◌==◌, within, ltb, if◌then◌else◌}
use smtp_proxy_rs.Prelude.Text.{Bytes}

-- What the next byte of a character may be: any first byte, or a continuation byte within a
-- range, with so many more behind it.
pub data Utf8 : Type 0 where
  first : Utf8
  next : ℕ → ℕ → ℕ → Utf8

-- The well-formed sequences of the Unicode standard, table 3-7.
unfoldable pub utf8_step : Utf8 → ℕ → Option Utf8
utf8_step first c =
    if ltb c 0x80
    then some first
    else if within 0xc2 0xdf c
    then some (next 0 0x80 0xbf)
    else if c == 0xe0
    then some (next 1 0xa0 0xbf)
    else if c == 0xed
    then some (next 1 0x80 0x9f)
    else if within 0xe1 0xef c
    then some (next 1 0x80 0xbf)
    else if c == 0xf0
    then some (next 2 0x90 0xbf)
    else if within 0xf1 0xf3 c
    then some (next 2 0x80 0xbf)
    else if c == 0xf4
    then some (next 2 0x80 0x8f)
    else none
utf8_step (next zero lo hi) c = if within lo hi c then some first else none
utf8_step (next (suc more) lo hi) c = if within lo hi c then some (next more 0x80 0xbf) else none

unfoldable pub utf8_from : Utf8 → Bytes → Bool
unfolding utf8_step
utf8_from first [] = true
utf8_from (next _ _ _) [] = false
utf8_from s (c ∷ cs) = elim (utf8_step s c) [ none ↦ false | some t ↦ utf8_from t cs ]

-- `std::str::from_utf8`: the same bytes, if they are UTF-8.
unfoldable pub from_utf8 : Bytes → Option Bytes
unfolding utf8_from
from_utf8 bytes = if utf8_from first bytes then some bytes else none

-- U+FFFD
abbrev pub replacement : Bytes
replacement = 0xef ∷ 0xbf ∷ 0xbd ∷ []

-- What a byte adds to the text: with `held` the bytes of a character that is not complete. A byte
-- that cannot continue it ends it as one replacement character, and is read afresh.
unfoldable pub lossy_step : Utf8 → Bytes → ℕ → Bytes × Utf8 × Bytes
unfolding utf8_step
lossy_step first held c = elim (utf8_step first c) [
  | none ↦ (replacement, first, [])
  | some first ↦ (c ∷ [], first, [])
  | some (next m lo hi) ↦ ([], next m lo hi, c ∷ [])
]
lossy_step (next m lo hi) held c = elim (utf8_step (next m lo hi) c) [
  | some first ↦ (held ++ c ∷ [], first, [])
  | some (next m' lo' hi') ↦ ([], next m' lo' hi', held ++ c ∷ [])
  | none ↦ elim (utf8_step first c) [
    | none ↦ (replacement ++ replacement, first, [])
    | some first ↦ (replacement ++ c ∷ [], first, [])
    | some (next m' lo' hi') ↦ (replacement, next m' lo' hi', c ∷ [])
  ]
]

unfoldable pub lossy_from : Utf8 → Bytes → Bytes → Bytes
unfolding lossy_step
lossy_from s held [] = if is_empty held then [] else replacement
lossy_from s held (c ∷ cs) =
    (lossy_step s held c).0 ++ lossy_from (lossy_step s held c).1 (lossy_step s held c).2 cs

-- `String::from_utf8_lossy`
unfoldable pub from_utf8_lossy : Bytes → Bytes
unfolding lossy_from
from_utf8_lossy bytes = lossy_from first [] bytes

-- How many bytes the character at the start takes, if it has the property White_Space; else 0.
unfoldable pub white_length : Bytes → ℕ
white_length [] = 0
white_length (c ∷ []) = if within 9 13 c || c == 32 then 1 else 0
white_length (c ∷ d ∷ []) =
    if within 9 13 c || c == 32 then 1 else if c == 0xc2 && (d == 0x85 || d == 0xa0) then 2 else 0
white_length (c ∷ d ∷ e ∷ _) =
    if within 9 13 c || c == 32
    then 1
    else if c == 0xc2 && (d == 0x85 || d == 0xa0)
    then 2
    else if c == 0xe1 && (d == 0x9a && e == 0x80)
    then 3
    else if c == 0xe2
        && (d == 0x80 && (within 0x80 0x8a e || (e == 0xa8 || (e == 0xa9 || e == 0xaf))))
    then 3
    else if c == 0xe2 && (d == 0x81 && e == 0x9f)
    then 3
    else if c == 0xe3 && (d == 0x80 && e == 0x80)
    then 3
    else 0

-- The loop of `trim_start`; the number counts the bytes left of the character that goes.
unfoldable pub trim_from : ℕ → Bytes → Bytes
unfolding white_length
trim_from skip [] = []
trim_from (suc skip) (c ∷ cs) = trim_from skip cs
trim_from zero (c ∷ cs) = elim (white_length (c ∷ cs)) [
  | zero ↦ c ∷ cs
  | suc skip ↦ trim_from skip cs
]

-- `str::trim_start`
unfoldable pub trim_start : Bytes → Bytes
unfolding trim_from
trim_start s = trim_from 0 s

-- `str::trim_end`: what is white space to the end goes. No continuation byte begins white space.
unfoldable pub trim_end : Bytes → Bytes
unfolding trim_start
trim_end [] = []
trim_end (c ∷ cs) =
    let rest = trim_end cs in if is_empty (trim_start (c ∷ cs)) then [] else c ∷ rest
