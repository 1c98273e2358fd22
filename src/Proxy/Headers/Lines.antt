-- ===== src/Proxy/Headers/Lines.antt =====
-- The lines that a header block is cut into at each LF.
use smtp_proxy_rs.Prelude.{
  ℕ, ◌≡◌, ◌≢◌, refl, sym, inl, inr, true, false, List, [], ◌∷◌, ◌++◌, arith, Bytes, codes, All,
  Bool-cases, ◌==◌, glue,
}
use mathlib.Core.List.{append_assoc}
use smtp_proxy_rs.Proxy.Headers.{RawHeader, split_inclusive, begins_fold, normalize_breaks}
use smtp_proxy_rs.Proxy.Headers.Fields.{field}
use smtp_proxy_rs.Server.Data.{lf, crlf}

-- Text whose last byte, if it has one, is an LF.
abbrev pub EndsLine : Bytes → Type 0
EndsLine [] = Unit
EndsLine (c ∷ []) = c ≡ lf
EndsLine (c ∷ d ∷ rest) = EndsLine (d ∷ rest)

EndsLine-crlf : (xs : Bytes) → EndsLine (xs ++ crlf)
EndsLine-crlf [] = refl
EndsLine-crlf (c ∷ []) = refl
EndsLine-crlf (c ∷ d ∷ xs) = EndsLine-crlf (d ∷ xs)

pub EndsLine-field : (h : RawHeader) → EndsLine (field h)
EndsLine-field h =
    let text = codes ": " ++ normalize_breaks h.value in
    rw (sym (append_assoc h.name text crlf)) (EndsLine-crlf (h.name ++ text))

pub split-lf :
    (c : ℕ) (cs : Bytes)
    → (c == lf) ≡ true
    → split_inclusive (c ∷ cs) ≡ (c ∷ []) ∷ split_inclusive cs
unfolding split_inclusive
split-lf c cs h = rw h refl

pub split-other :
    (c : ℕ) (cs : Bytes)
    → (c == lf) ≡ false
    → split_inclusive (c ∷ cs) ≡ glue c (split_inclusive cs)
unfolding split_inclusive
split-other c cs h = rw h refl

glue-ne : (c : ℕ) (lines : List Bytes) → glue c lines ≢ []
glue-ne c [] e = cc
glue-ne c (line ∷ lines) e = cc

split_ne : (c : ℕ) (cs : Bytes) → split_inclusive (c ∷ cs) ≢ []
unfolding split_inclusive
split_ne c cs = ground (arith, glue-ne c (split_inclusive cs))

glue-append : (c : ℕ) (xs ys : List Bytes) → xs ≢ [] → glue c (xs ++ ys) ≡ glue c xs ++ ys
glue-append c [] ys h = absurd (h refl)
glue-append c (x ∷ xs) ys h = refl

pub split_inclusive-append :
    (xs ys : Bytes)
    → EndsLine xs
    → split_inclusive (xs ++ ys) ≡ split_inclusive xs ++ split_inclusive ys
split_inclusive-append [] ys h = unfold split_inclusive in refl
split_inclusive-append (c ∷ []) ys h = unfold split_inclusive in ground arith
split_inclusive-append (c ∷ d ∷ xs) ys h =
    let ih = split_inclusive-append (d ∷ xs) ys h in
    elim (Bool-cases (c == lf)) [
      | inl e ↦ rw (split-lf c (d ∷ (xs ++ ys)) e, split-lf c (d ∷ xs) e, ih) refl
      | inr e ↦
          rw (split-other c (d ∷ (xs ++ ys)) e, split-other c (d ∷ xs) e, ih)
            (glue-append c (split_inclusive (d ∷ xs)) (split_inclusive ys) (split_ne d xs))
    ]

abbrev pub behind_first : List Bytes → List Bytes
behind_first [] = []
behind_first (line ∷ lines) = lines

-- All lines of a text but the first begin with a space or a tab.
abbrev pub AreFolds : List Bytes → Type 0
AreFolds = All λ line. begins_fold line ≡ true

AreFolds-glue :
    (c : ℕ) (lines : List Bytes)
    → AreFolds (behind_first lines)
    → AreFolds (behind_first (glue c lines))
AreFolds-glue c [] h = tt
AreFolds-glue c (line ∷ lines) h = h

pub AreFolds-other :
    (c : ℕ) (cs : Bytes)
    → (c == lf) ≡ false
    → AreFolds (behind_first (split_inclusive cs))
    → AreFolds (behind_first (split_inclusive (c ∷ cs)))
AreFolds-other c cs e h = rw (split-other c cs e) (AreFolds-glue c (split_inclusive cs) h)

begins-glue :
    (c : ℕ) (lines : List Bytes)
    → begins_fold (c ∷ []) ≡ true
    → AreFolds (behind_first (glue c lines))
    → AreFolds (glue c lines)
begins-glue c [] e h = (e, tt)
begins-glue c (line ∷ lines) e h = (e, h)

pub AreFolds-begins :
    (c : ℕ) (cs : Bytes)
    → begins_fold (c ∷ []) ≡ true
    → AreFolds (behind_first (split_inclusive (c ∷ cs)))
    → AreFolds (split_inclusive (c ∷ cs))
AreFolds-begins c cs e h =
    let other = split-other c cs (ground arith) in
    rw other (begins-glue c (split_inclusive cs) e (rw (sym other) h))
