-- ===== src/Proxy/Headers/Breaks.antt =====
-- src/proxy.rs, `normalize_breaks`, beside what src/server/data.rs makes of a body.
use smtp_proxy_rs.Prelude.{
  ◌≡◌, refl, inl, inr, Bool, false, ◌&&◌, [], ◌∷◌, ◌++◌, arith, Bytes, Bool-cases, ◌==◌,
  if◌then◌else◌,
}
use mathlib.Core.List.{append_assoc, append-nil}
use smtp_proxy_rs.Proxy.Headers.{normalize_breaks}
use smtp_proxy_rs.Server.Data.{cr, lf, crlf}
use smtp_proxy_rs.Server.Data.BodyFramer.Stream.{
  normalize, holds_after, normal_pair, normal_other, normalize-append, holds_after-append,
}

-- The CR that is left at the end, if one is held there.
abbrev pub left_over : Bool → Bytes
left_over held = if held then cr ∷ [] else []

-- A header block gets the line endings that a body gets: each LF becomes CRLF, with the CR before
-- it if there is one. A CR at the very end, which a body would hold back, stays.
pub normalize_breaks-normalize :
    (block : Bytes)
    → normalize_breaks block ≡ normalize false block ++ left_over (holds_after false block)
unfolding normalize_breaks
normalize_breaks-normalize [] = unfold normalize holds_after in refl
normalize_breaks-normalize (c ∷ []) = unfold normalize holds_after in ground arith
normalize_breaks-normalize (c ∷ d ∷ rest) = elim (Bool-cases (c == cr && d == lf)) [
  | inl pair ↦ ground (
    arith,
    normal_pair c d rest pair,
    normalize_breaks-normalize rest,
    append_assoc crlf (normalize false rest) (left_over (holds_after false rest)),
  )
  | inr other ↦
      let first = if c == lf then crlf else c ∷ [] in
      ground (
        arith,
        normal_other c d rest other,
        normalize_breaks-normalize (d ∷ rest),
        append_assoc first (normalize false (d ∷ rest)) (left_over (holds_after false (d ∷ rest))),
      )
]

-- The rewriting goes piece by piece, where no piece ends in a CR.
pub normalize_breaks-append :
    (xs ys : Bytes)
    → holds_after false xs ≡ false
    → normalize_breaks (xs ++ ys) ≡ normalize_breaks xs ++ normalize_breaks ys
normalize_breaks-append xs ys h = ground (
  arith,
  normalize_breaks-normalize (xs ++ ys),
  normalize_breaks-normalize xs,
  normalize_breaks-normalize ys,
  normalize-append false xs ys,
  holds_after-append false xs ys,
  append-nil (normalize false xs),
  append_assoc (normalize false xs) (normalize false ys) (left_over (holds_after false ys)),
)
