-- ===== src/Proxy/Headers/Stuffing.antt =====
-- src/proxy.rs, `dot_stuff`, line by line, and what `HeaderCollector` undoes of it.
use smtp_proxy_rs.Prelude.{
  ℕ, ◌≡◌, refl, ap, Bool, true, false, ◌&&◌, List, [], ◌∷◌, ◌++◌, map, arith, Bytes, All, ◌==◌,
  if◌then◌else◌, glue, bytes_eq,
}
use smtp_proxy_rs.Proxy.Headers.{split_inclusive, dot_stuff_from, dot_stuff}
use smtp_proxy_rs.Server.Data.{lf, is_terminator}
use smtp_proxy_rs.Server.Data.HeaderCollector.{unstuff}
use smtp_proxy_rs.Server.Data.HeaderCollector.Block.{unstuffed_block}

-- A line with its leading dot doubled.
abbrev pub stuff : Bytes → Bytes
stuff [] = []
stuff (c ∷ line) = if c == b'.' then b'.' ∷ c ∷ line else c ∷ line

-- The flag says whether the first of the lines begins here.
abbrev stuff_lines : Bool → List Bytes → List Bytes
stuff_lines true lines = map stuff lines
stuff_lines false [] = []
stuff_lines false (line ∷ lines) = line ∷ map stuff lines

-- The lines, one behind the other.
abbrev pub flat : List Bytes → Bytes
flat [] = []
flat (line ∷ lines) = line ++ flat lines

pub flat-glue : (c : ℕ) (lines : List Bytes) → flat (glue c lines) ≡ c ∷ flat lines
flat-glue c [] = refl
flat-glue c (line ∷ lines) = refl

glue-stuff :
    (at_start : Bool) (c : ℕ) (lines : List Bytes)
    → stuff_lines at_start (glue c lines) ≡ (
        if at_start && c == b'.'
        then glue b'.' (glue c (stuff_lines false lines))
        else glue c (stuff_lines false lines))
glue-stuff true c [] = ground arith
glue-stuff false c [] = refl
glue-stuff true c (w ∷ ws) = ground arith
glue-stuff false c (w ∷ ws) = refl

split-dot_stuff_from :
    (at_start : Bool) (block : Bytes)
    → split_inclusive (dot_stuff_from at_start block) ≡ stuff_lines at_start (split_inclusive block)
unfolding split_inclusive dot_stuff_from
split-dot_stuff_from true [] = refl
split-dot_stuff_from false [] = refl
split-dot_stuff_from true (c ∷ cs) =
    ground (arith, split-dot_stuff_from (c == lf) cs, glue-stuff true c (split_inclusive cs))
split-dot_stuff_from false (c ∷ cs) =
    ground (arith, split-dot_stuff_from (c == lf) cs, glue-stuff false c (split_inclusive cs))

-- The lines of a block that is dot stuffed are its lines, each with its leading dot doubled.
pub split-dot_stuff :
    (block : Bytes) → split_inclusive (dot_stuff block) ≡ map stuff (split_inclusive block)
unfolding dot_stuff
split-dot_stuff block = split-dot_stuff_from true block

-- No line so written is a lone dot.
pub stuff-is_terminator : (line : Bytes) → is_terminator (stuff line) ≡ false
unfolding is_terminator bytes_eq
stuff-is_terminator [] = refl
stuff-is_terminator (c ∷ []) = ground arith
stuff-is_terminator (c ∷ d ∷ []) = ground arith
stuff-is_terminator (c ∷ d ∷ e ∷ line) = ground arith

none_terminates : (lines : List Bytes) → All (λ line. is_terminator line ≡ false) (map stuff lines)
none_terminates [] = tt
none_terminates (line ∷ lines) = (stuff-is_terminator line, none_terminates lines)

unstuff-stuff : (line : Bytes) → unstuff (stuff line) ≡ line
unfolding unstuff
unstuff-stuff [] = refl
unstuff-stuff (c ∷ line) = ground arith

pub unstuffed_block-stuff : (lines : List Bytes) → unstuffed_block (map stuff lines) ≡ flat lines
unstuffed_block-stuff [] = refl
unstuffed_block-stuff (line ∷ lines) =
    rw (unstuff-stuff line) (ap (λ b. line ++ b) (unstuffed_block-stuff lines))

-- The lines of a block, one behind the other, are the block.
pub flat-split_inclusive : (block : Bytes) → flat (split_inclusive block) ≡ block
unfolding split_inclusive
flat-split_inclusive [] = refl
flat-split_inclusive (c ∷ cs) =
    ground (arith, flat-glue c (split_inclusive cs), flat-split_inclusive cs)

-- Of any block: what `dot_stuff` writes, cut into lines at each LF, holds no line that is a lone
-- dot, and the lines with their leading dots taken off are the block again.
pub dot_stuff-unstuff :
    (block : Bytes)
    → All (λ line. is_terminator line ≡ false) (split_inclusive (dot_stuff block))
      × (unstuffed_block (split_inclusive (dot_stuff block)) ≡ block)
dot_stuff-unstuff block =
    rw
      (
        split-dot_stuff block,
        unstuffed_block-stuff (split_inclusive block),
        flat-split_inclusive block,
      )
      (none_terminates (split_inclusive block), refl)
