-- ===== src/Proxy/Headers/Folds.antt =====
-- Where src/proxy.rs breaks the lines of a header that it writes.
use smtp_proxy_rs.Prelude.{
  ℕ, ◌≡◌, refl, sym, ap, inl, inr, true, false, ◌&&◌, [], ◌∷◌, ◌++◌, arith, Bytes, codes,
  Bool-cases, ◌==◌,
}
use smtp_proxy_rs.Proxy.Headers.{
  RawHeader, split_inclusive, begins_fold, is_break, folds_at, value_folds, normalize_breaks,
}
use smtp_proxy_rs.Proxy.Headers.Fields.{IsRelayable, IsPlainName, bad_in_name-IsPlainName, field}
use smtp_proxy_rs.Proxy.Headers.Lines.{
  split-lf, split-other, behind_first, AreFolds, AreFolds-other, AreFolds-begins,
}
use smtp_proxy_rs.Server.Data.{cr, lf, crlf}

pub normalize_breaks-other :
    (c : ℕ) (cs : Bytes) → is_break c ≡ false → normalize_breaks (c ∷ cs) ≡ c ∷ normalize_breaks cs
unfolding normalize_breaks
normalize_breaks-other c [] e = ground arith
normalize_breaks-other c (d ∷ cs) e = ground arith

pub normalize_breaks-lf :
    (c : ℕ) (cs : Bytes)
    → (c == lf) ≡ true
    → normalize_breaks (c ∷ cs) ≡ crlf ++ normalize_breaks cs
unfolding normalize_breaks
normalize_breaks-lf c [] e = ground arith
normalize_breaks-lf c (d ∷ cs) e = ground arith

pub normalize_breaks-pair :
    (c d : ℕ) (cs : Bytes)
    → (c == cr && d == lf) ≡ true
    → normalize_breaks (c ∷ d ∷ cs) ≡ crlf ++ normalize_breaks cs
unfolding normalize_breaks
normalize_breaks-pair c d cs e = ground arith

-- Behind a break there is a fold, in the text that the break is written in.
AreFolds-break :
    (value : Bytes)
    → begins_fold value ≡ true
    → AreFolds (behind_first (split_inclusive (normalize_breaks value ++ crlf)))
    → AreFolds (behind_first (split_inclusive (crlf ++ (normalize_breaks value ++ crlf))))
AreFolds-break [] e h = cc
AreFolds-break (c ∷ cs) e h =
    let text = normalize_breaks cs ++ crlf in
    let whole = ap (λ b. b ++ crlf) (normalize_breaks-other c cs (ground arith)) in
    rw (whole, split-other cr (lf ∷ c ∷ text) refl, split-lf lf (c ∷ text) refl)
      (AreFolds-begins c text (ground arith) (rw (sym whole) h))

pub folds_later : (c : ℕ) (rest : Bytes) → value_folds (c ∷ rest) ≡ true → value_folds rest ≡ true
unfolding value_folds
folds_later c rest e = ground arith

pub break_folds :
    (c : ℕ) (rest : Bytes)
    → value_folds (c ∷ rest) ≡ true
    → (c == lf) ≡ true
    → begins_fold rest ≡ true
unfolding value_folds folds_at
break_folds c [] e is_lf = ground arith
break_folds c (d ∷ rest) e is_lf = ground arith

pub pair_folds :
    (c d : ℕ) (rest : Bytes)
    → value_folds (c ∷ d ∷ rest) ≡ true
    → (c == cr && d == lf) ≡ true
    → begins_fold rest ≡ true
unfolding value_folds folds_at
pair_folds c d rest e pair = ground arith

pub no_lone_cr :
    (c d : ℕ) (rest : Bytes)
    → value_folds (c ∷ d ∷ rest) ≡ true
    → (c == cr && d == lf) ≡ false
    → (c == lf) ≡ false
    → is_break c ≡ false
unfolding value_folds folds_at
no_lone_cr c d rest e other not_lf = ground arith

pub no_last_break : (c : ℕ) → value_folds (c ∷ []) ≡ true → is_break c ≡ false
unfolding value_folds folds_at
no_last_break c e = ground arith

AreFolds-value :
    (value : Bytes)
    → value_folds value ≡ true
    → AreFolds (behind_first (split_inclusive (normalize_breaks value ++ crlf)))
AreFolds-value [] e = unfold split_inclusive normalize_breaks in tt
AreFolds-value (c ∷ []) e =
    let plain = no_last_break c e in
    rw (ap (λ b. b ++ crlf) (normalize_breaks-other c [] plain)) (
      AreFolds-other c (normalize_breaks [] ++ crlf) (ground arith)
        (AreFolds-value [] (folds_later c [] e)))
AreFolds-value (c ∷ d ∷ rest) e = elim (Bool-cases (c == cr && d == lf)) [
  | inl pair ↦ rw (ap (λ b. b ++ crlf) (normalize_breaks-pair c d rest pair)) (
      AreFolds-break rest (pair_folds c d rest e pair)
        (AreFolds-value rest (folds_later d rest (folds_later c (d ∷ rest) e))))
  | inr other ↦ elim (Bool-cases (c == lf)) [
    | inl is_lf ↦ rw (ap (λ b. b ++ crlf) (normalize_breaks-lf c (d ∷ rest) is_lf)) (
        AreFolds-break (d ∷ rest) (break_folds c (d ∷ rest) e is_lf)
          (AreFolds-value (d ∷ rest) (folds_later c (d ∷ rest) e)))
    | inr not_lf ↦
        let plain = no_lone_cr c d rest e other not_lf in
        rw (ap (λ b. b ++ crlf) (normalize_breaks-other c (d ∷ rest) plain)) (
          AreFolds-other c (normalize_breaks (d ∷ rest) ++ crlf) not_lf
            (AreFolds-value (d ∷ rest) (folds_later c (d ∷ rest) e)))
  ]
]

AreFolds-name :
    (name rest : Bytes)
    → IsPlainName name
    → AreFolds (behind_first (split_inclusive rest))
    → AreFolds (behind_first (split_inclusive (name ++ rest)))
AreFolds-name [] rest plain h = h
AreFolds-name (c ∷ name) rest plain h =
    AreFolds-other c (name ++ rest) (ground arith) (AreFolds-name name rest plain.1 h)

-- A header is written as one line and its folds.
pub AreFolds-field :
    (h : RawHeader) → IsRelayable h → AreFolds (behind_first (split_inclusive (field h)))
AreFolds-field h (_, plain, folds) =
    let text = normalize_breaks h.value ++ crlf in
    AreFolds-name h.name (codes ": " ++ text) (bad_in_name-IsPlainName h.name plain) (
      AreFolds-other b':' (b' ' ∷ text) refl
        (AreFolds-other b' ' text refl (AreFolds-value h.value folds)))
