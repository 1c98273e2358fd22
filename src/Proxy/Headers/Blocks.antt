-- ===== src/Proxy/Headers/Blocks.antt =====
-- src/proxy.rs, the first loop of `parse_headers`: lines put together with their continuations.
use smtp_proxy_rs.Prelude.{
  ℕ, ◌≡◌, refl, ap, ◌∙◌, true, false, List, [], ◌∷◌, ◌++◌, map, arith, Bytes, All, bytes_eq,
  All-append,
}
use mathlib.Core.List.{append_assoc, append-nil, map-append}
use smtp_proxy_rs.Server.Data.{crlf, is_empty_line}
use smtp_proxy_rs.Server.Data.HeaderCollector.Block.{IsHeaderLine}
use smtp_proxy_rs.Proxy.Headers.{is_continuation, join_line, join_lines, begins_fold, is_break}
use smtp_proxy_rs.Proxy.Headers.Lines.{AreFolds}
use smtp_proxy_rs.Proxy.Headers.Stuffing.{flat, stuff, stuff-is_terminator}

-- A line that begins no continuation, and the folds behind it.
abbrev pub IsBlock : List Bytes → Type 0
IsBlock [] = ⊥
IsBlock ([] ∷ folds) = ⊥
IsBlock ((c ∷ line) ∷ folds) =
    (is_continuation (c ∷ line) ≡ false) × (is_break c ≡ false) × AreFolds folds

-- The lines of all blocks.
abbrev pub all_lines : List (List Bytes) → List Bytes
all_lines [] = []
all_lines (block ∷ blocks) = block ++ all_lines blocks

join_line-new :
    (lines : List Bytes) (raw : Bytes)
    → is_continuation raw ≡ false
    → join_line lines raw ≡ lines ++ raw ∷ []
unfolding join_line
join_line-new [] raw e = refl
join_line-new (line ∷ []) raw e = rw e refl
join_line-new (line ∷ next ∷ lines) raw e =
    ap (λ ls. line ∷ ls) (join_line-new (next ∷ lines) raw e)

-- The blank line goes to a line of its own.
pub join_lines-blank : (lines : List Bytes) → join_lines lines (crlf ∷ []) ≡ lines ++ crlf ∷ []
unfolding join_lines
join_lines-blank lines = join_line-new lines crlf refl

join_line-fold :
    (lines : List Bytes) (last raw : Bytes)
    → begins_fold raw ≡ true
    → join_line (lines ++ last ∷ []) raw ≡ lines ++ (last ++ raw) ∷ []
unfolding join_line
join_line-fold [] last [] e = cc
join_line-fold [] last (c ∷ raw) e = ground arith
join_line-fold (line ∷ []) last [] e = cc
join_line-fold (line ∷ []) last (c ∷ raw) e = ground arith
join_line-fold (line ∷ next ∷ lines) last raw e =
    ap (λ ls. line ∷ ls) (join_line-fold (next ∷ lines) last raw e)

join_lines-folds :
    (lines : List Bytes) (last : Bytes) (folds raws : List Bytes)
    → AreFolds folds
    → join_lines (lines ++ last ∷ []) (folds ++ raws)
      ≡ join_lines (lines ++ (last ++ flat folds) ∷ []) raws
unfolding join_lines
join_lines-folds lines last [] raws h = rw (append-nil last) refl
join_lines-folds lines last (fold ∷ folds) raws h =
    ap (λ ls. join_lines ls (folds ++ raws)) (join_line-fold lines last fold h.0)
    ∙ (join_lines-folds lines (last ++ fold) folds raws h.1
        ∙ ap (λ l. join_lines (lines ++ l ∷ []) raws) (append_assoc last fold (flat folds)))

join_lines-block :
    (lines block raws : List Bytes)
    → IsBlock block
    → join_lines lines (block ++ raws) ≡ join_lines (lines ++ flat block ∷ []) raws
unfolding join_lines
join_lines-block lines [] raws h = absurd h
join_lines-block lines ([] ∷ folds) raws h = absurd h
join_lines-block lines ((c ∷ line) ∷ folds) raws h =
    ap (λ ls. join_lines ls (folds ++ raws)) (join_line-new lines (c ∷ line) h.0)
    ∙ join_lines-folds lines (c ∷ line) folds raws h.2

-- Blocks are put together to one line each.
pub join_lines-blocks :
    (lines : List Bytes) (blocks : List (List Bytes)) (raws : List Bytes)
    → All IsBlock blocks
    → join_lines lines (all_lines blocks ++ raws) ≡ join_lines (lines ++ map flat blocks) raws
join_lines-blocks lines [] raws h = rw (append-nil lines) refl
join_lines-blocks lines (block ∷ blocks) raws h =
    rw
      (
        append_assoc block (all_lines blocks) raws,
        join_lines-block lines block (all_lines blocks ++ raws) h.0,
        join_lines-blocks (lines ++ flat block ∷ []) blocks raws h.1,
        append_assoc lines (flat block ∷ []) (map flat blocks),
      )
      refl

stuff-folds : (folds : List Bytes) → AreFolds folds → map stuff folds ≡ folds
stuff-folds [] h = refl
stuff-folds ([] ∷ folds) h = cc
stuff-folds ((c ∷ line) ∷ folds) h = ground (arith, stuff-folds folds h.1)

-- Dot stuffing keeps a block one, and doubles the dot that it begins with.
pub stuff-IsBlock :
    (block : List Bytes)
    → IsBlock block
    → IsBlock (map stuff block) × (flat (map stuff block) ≡ stuff (flat block))
stuff-IsBlock [] h = absurd h
stuff-IsBlock ([] ∷ folds) h = absurd h
stuff-IsBlock ((c ∷ line) ∷ folds) h = rw (stuff-folds folds h.2) (ground arith)

stuff-is_empty_line :
    (c : ℕ) (line : Bytes) → is_break c ≡ false → is_empty_line (stuff (c ∷ line)) ≡ false
unfolding is_empty_line bytes_eq
stuff-is_empty_line c [] h = ground arith
stuff-is_empty_line c (d ∷ line) h = ground arith

folds-AreHeaderLines : (folds : List Bytes) → AreFolds folds → All IsHeaderLine (map stuff folds)
folds-AreHeaderLines [] h = tt
folds-AreHeaderLines ([] ∷ folds) h = cc
folds-AreHeaderLines ((c ∷ line) ∷ folds) h = (
  (stuff-is_terminator (c ∷ line), stuff-is_empty_line c line (ground arith)),
  folds-AreHeaderLines folds h.1,
)

block-AreHeaderLines : (block : List Bytes) → IsBlock block → All IsHeaderLine (map stuff block)
block-AreHeaderLines [] h = absurd h
block-AreHeaderLines ([] ∷ folds) h = absurd h
block-AreHeaderLines ((c ∷ line) ∷ folds) h = (
  (stuff-is_terminator (c ∷ line), stuff-is_empty_line c line h.1),
  folds-AreHeaderLines folds h.2,
)

-- None of the lines of a block is blank or a lone dot.
pub blocks-AreHeaderLines :
    (blocks : List (List Bytes))
    → All IsBlock blocks
    → All IsHeaderLine (map stuff (all_lines blocks))
blocks-AreHeaderLines [] h = tt
blocks-AreHeaderLines (block ∷ blocks) h = rw (map-append stuff block (all_lines blocks)) (
    All-append IsHeaderLine (map stuff block) (map stuff (all_lines blocks))
      (block-AreHeaderLines block h.0) (blocks-AreHeaderLines blocks h.1))
