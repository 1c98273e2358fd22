-- ===== src/Server/Data/BodyFramer/Smuggling.antt =====
-- What a reader that frames on LF makes of what `BodyFramer` of src/server/data.rs sends.
use smtp_proxy_rs.Prelude.{
  ℕ, ◌<◌, ◌≡◌, ◌≢◌, refl, ap, ◌∙◌, ◌⊎◌, inl, inr, Bool, true, false, List, [], ◌∷◌, ◌++◌, arith,
  Bytes, length, All, Bool-cases, ◌==◌, if◌then◌else◌,
}
use smtp_proxy_rs.Server.Data.{write_chunk, cr, lf, is_terminator}
use smtp_proxy_rs.Server.Data.BodyFramer.{new}
use smtp_proxy_rs.Smtp.Command.Lines.{IsLine}
use smtp_proxy_rs.Server.Data.BodyFramer.Stream.{
  normal_step, holds, normalize, holds_after, Arrival, line, partial, bytes_of, feed, body,
  feed-normalize,
}

-- How an upstream reads a body, which it frames on LF: at the start of a line, behind the dot
-- of a line that may be the terminator, behind that dot and a CR, within another line; and past
-- a terminator.
pub data Scan : Type 0 where
  start dot dot_cr mid found : Scan

unfoldable pub scan_step : Scan → ℕ → Scan
scan_step start c = if c == lf then start else if c == b'.' then dot else mid
scan_step dot c = if c == lf then found else if c == cr then dot_cr else mid
scan_step dot_cr c = if c == lf then found else mid
scan_step mid c = if c == lf then start else mid
scan_step found c = found

unfoldable pub scan : Scan → Bytes → Scan
scan s [] = s
scan s (c ∷ cs) = scan (scan_step s c) cs

pub scan-append : (s : Scan) (xs ys : Bytes) → scan s (xs ++ ys) ≡ scan (scan s xs) ys
unfolding scan
scan-append s [] ys = refl
scan-append s (x ∷ xs) ys = scan-append (scan_step s x) xs ys

-- A held CR has been read, and is not written.
abbrev behind : Bool → Scan → Scan
behind true s = scan_step s cr
behind false s = s

-- A CR at the end of the output is a held one's, so what is written never ends between the CR
-- and the LF of a terminator while nothing is held.
abbrev Agrees : Bool → Scan → Type 0
Agrees false dot_cr = ⊥
Agrees _ _ = Unit

abbrev After : Scan → Bool → ℕ → Type 0
After s held c =
    (behind (holds c) (scan s (normal_step held c)) ≡ scan_step (behind held s) c)
    × Agrees (holds c) (scan s (normal_step held c))

normal_step-scan : (s : Scan) (held : Bool) (c : ℕ) → Agrees held s → After s held c
unfolding scan scan_step
normal_step-scan start true c h = ground arith
normal_step-scan start false c h = ground arith
normal_step-scan dot true c h = ground arith
normal_step-scan dot false c h = ground arith
normal_step-scan dot_cr true c h = ground arith
normal_step-scan dot_cr false c h = absurd h
normal_step-scan mid true c h = ground arith
normal_step-scan mid false c h = ground arith
normal_step-scan found true c h = ground arith
normal_step-scan found false c h = ground arith

-- Normalising neither makes a terminator nor hides one.
scan-normalize :
    (s : Scan) (held : Bool) (bytes : Bytes)
    → Agrees held s
    → behind (holds_after held bytes) (scan s (normalize held bytes)) ≡ scan (behind held s) bytes
unfolding normalize holds_after
scan-normalize s held [] h = unfold scan in refl
scan-normalize s held (c ∷ cs) h =
    let step = normal_step-scan s held c h in
    rw (scan-append s (normal_step held c) (normalize (holds c) cs)) (
      scan-normalize (scan s (normal_step held c)) (holds c) cs step.1
      ∙ (unfold scan in ap (λ t. scan t cs) step.0))

-- What the session's reader hands over: complete lines, and partial ones only once more than a
-- write's worth of bytes has come with no LF in it.
abbrev pub IsArrival : Arrival → Type 0
IsArrival (line l) = IsLine l
IsArrival (partial b) = All (λ c. c ≢ lf) b × (write_chunk < length b)

scan_mid-IsLine : (l : Bytes) → IsLine l → scan mid l ≡ start
unfolding scan scan_step
scan_mid-IsLine [] h = absurd h
scan_mid-IsLine (c ∷ []) h = ground arith
scan_mid-IsLine (c ∷ d ∷ rest) h = ground (arith, scan_mid-IsLine (d ∷ rest) h.1)

scan_mid-partial : (b : Bytes) → All (λ c. c ≢ lf) b → scan mid b ≡ mid
unfolding scan scan_step
scan_mid-partial [] h = refl
scan_mid-partial (c ∷ b) h = ground (arith, scan_mid-partial b h.1)

-- Three bytes with no LF are past the place where a terminator could still come of them.
scan_start-partial : (b : Bytes) → All (λ c. c ≢ lf) b → write_chunk < length b → scan start b ≡ mid
unfolding scan scan_step
scan_start-partial (x ∷ y ∷ z ∷ b) h long = ground (arith, scan_mid-partial b h.1.1.1)
scan_start-partial (x ∷ y ∷ []) h long = absurd (omega arith)
scan_start-partial (x ∷ []) h long = absurd (omega arith)
scan_start-partial [] h long = absurd (omega arith)

scan_start-IsLine : (l : Bytes) → IsLine l → is_terminator l ≡ false → scan start l ≡ start
unfolding scan scan_step is_terminator
scan_start-IsLine [] h n = absurd h
scan_start-IsLine (c ∷ []) h n = ground arith
scan_start-IsLine (c ∷ d ∷ []) h n = ground arith
scan_start-IsLine (c ∷ d ∷ e ∷ []) h n = ground arith
scan_start-IsLine (c ∷ d ∷ e ∷ e' ∷ rest) h n = ground (
  arith,
  scan_mid-IsLine (d ∷ e ∷ e' ∷ rest) h.1,
  scan_mid-IsLine (e ∷ e' ∷ rest) h.1.1,
  scan_mid-IsLine (e' ∷ rest) h.1.1.1,
)

abbrev here : Bool → Scan
here true = start
here false = mid

abbrev Outside : Scan → Type 0
Outside s = (s ≡ start) ⊎ (s ≡ mid)

scan-body :
    (at_start : Bool) (pieces : List Arrival)
    → All IsArrival pieces
    → Outside (scan (here at_start) (body at_start pieces))
unfolding body
scan-body true [] h = unfold scan in inl refl
scan-body false [] h = unfold scan in inr refl
scan-body true (line l ∷ more) h = elim (Bool-cases (is_terminator l)) [
  | inl e ↦ rw e (unfold scan in inl refl)
  | inr e ↦ rw e (
      rw (scan-append start l (body true more), scan_start-IsLine l h.0 e)
        (scan-body true more h.1))
]
scan-body false (line l ∷ more) h =
    rw (scan-append mid l (body true more), scan_mid-IsLine l h.0) (scan-body true more h.1)
scan-body true (partial b ∷ more) h =
    rw (scan-append start b (body false more), scan_start-partial b h.0.0 h.0.1)
      (scan-body false more h.1)
scan-body false (partial b ∷ more) h =
    rw (scan-append mid b (body false more), scan_mid-partial b h.0.0) (scan-body false more h.1)

IsArrival-ne : (pieces : List Arrival) → All IsArrival pieces → All (λ a. bytes_of a ≢ []) pieces
IsArrival-ne [] h = tt
IsArrival-ne (line [] ∷ more) h = absurd h.0
IsArrival-ne (line (c ∷ l) ∷ more) h = ((λ e. cc), IsArrival-ne more h.1)
IsArrival-ne (partial [] ∷ more) h = absurd (omega arith)
IsArrival-ne (partial (c ∷ b) ∷ more) h = ((λ e. cc), IsArrival-ne more h.1)

behind_ne : (held : Bool) (s : Scan) → Outside (behind held s) → s ≢ found
unfolding scan_step
behind_ne held s h = ground arith

-- However a body arrives, in complete lines and in pieces of lines that hold no LF and are longer
-- than a write, a reader that ends a line at each LF finds no line that is a lone dot in what is sent of it: not
-- in the chunks written, and not in the tail that is flushed behind them.
pub feed_no_smuggling :
    (pieces : List Arrival)
    → All IsArrival pieces
    → scan start ((feed new pieces).0 ++ (feed new pieces).1.out) ≢ found
unfolding new
feed_no_smuggling pieces h =
    let sent = body true pieces in
    rw (feed-normalize new pieces (IsArrival-ne pieces h)) (
      behind_ne (holds_after false sent) (scan start (normalize false sent))
        (rw (scan-normalize start false sent tt) (scan-body true pieces h)))
