-- ===== src/Relay/Reparse.antt =====
-- The parameters that src/relay.rs appends to MAIL and RCPT, as src/smtp/params.rs reads them.
use smtp_proxy_rs.Prelude.{
  ℕ, ◌≡◌, refl, ap, ◌∙◌, Bool, true, false, not, List, [], ◌∷◌, ◌++◌, Option, none, some, arith,
  Bytes, All, all, map, ◌==◌, is_empty, if◌then◌else◌, is_ascii_whitespace, split_once,
  split_ascii_whitespace, starts_word, glue,
}
use smtp_proxy_rs.Smtp.Params.{
  Param, is_keyword, is_keyword_char, is_value, is_value_char, split_word, parse_param, parse_words,
  parse_params,
}
use smtp_proxy_rs.Smtp.Params.Grammar.{IsParam, parse_params-IsParam}
use smtp_proxy_rs.Relay.{filter_params, show_param, show_params, dsn_suffix}
use smtp_proxy_rs.Relay.Suffixes.{filter_params-IsParam}

-- A parameter as it is written.
abbrev word : Bytes → Option Bytes → Bytes
word keyword none = keyword
word keyword (some value) = keyword ++ b'=' ∷ value

abbrev InWord : ℕ → Type 0
InWord c = is_ascii_whitespace c ≡ false

-- Not the '=' between a keyword and its value.
abbrev InKeyword : ℕ → Type 0
InKeyword c = (InWord c) × ((c == b'=') ≡ false)

keyword_chars : (k : Bytes) → all is_keyword_char k ≡ true → All InKeyword k
keyword_chars [] h = tt
keyword_chars (c ∷ k) h =
    ((ground (arith, h), ground (arith, h)), keyword_chars k (ground (arith, h)))

keyword-InKeyword : (k : Bytes) → is_keyword k ≡ true → All InKeyword k
keyword-InKeyword [] h = cc
keyword-InKeyword (c ∷ k) h = keyword_chars (c ∷ k) (ground (arith, h))

value_chars : (v : Bytes) → all is_value_char v ≡ true → All InWord v
value_chars [] h = tt
value_chars (c ∷ v) h = (ground (arith, h), value_chars v (ground (arith, h)))

value-InWord : (v : Bytes) → is_value (some v) ≡ true → All InWord v
value-InWord [] h = cc
value-InWord (c ∷ v) h = value_chars (c ∷ v) (ground (arith, h))

within_word :
    (c : ℕ) (cs : Bytes)
    → InWord c
    → starts_word cs ≡ true
    → split_ascii_whitespace (c ∷ cs) ≡ glue c (split_ascii_whitespace cs)
unfolding split_ascii_whitespace
within_word c cs h e = rw (h, e) refl

split-word_rest :
    (c : ℕ) (w rest : Bytes)
    → All InWord (c ∷ w)
    → starts_word rest ≡ false
    → split_ascii_whitespace (c ∷ w ++ rest) ≡ (c ∷ w) ∷ split_ascii_whitespace rest
unfolding split_ascii_whitespace
split-word_rest c [] rest h e = rw (h.0, e) refl
split-word_rest c (d ∷ w) rest h e =
    within_word c (d ∷ w ++ rest) h.0 (rw h.1.0 refl) ∙ ap (glue c) (split-word_rest d w rest h.1 e)

split_once-none : (k : Bytes) → All InKeyword k → split_once b'=' k ≡ none
unfolding split_once
split_once-none [] h = refl
split_once-none (c ∷ k) h = rw (h.0.1, split_once-none k h.1) refl

split_once-some : (k v : Bytes) → All InKeyword k → split_once b'=' (k ++ b'=' ∷ v) ≡ some (k, v)
unfolding split_once
split_once-some [] v h = refl
split_once-some (c ∷ k) v h = rw (h.0.1, split_once-some k v h.1) refl

split_word-word :
    (keyword : Bytes) (value : Option Bytes)
    → All InKeyword keyword
    → split_word (word keyword value) ≡ record { keyword = keyword; value = value }
unfolding split_word
split_word-word keyword none h = rw (split_once-none keyword h, split_word) refl
split_word-word keyword (some v) h = rw (split_once-some keyword v h, split_word) refl

parse_param-word : (p : Param) → IsParam p → parse_param (word p.keyword p.value) ≡ some p
unfolding parse_param
parse_param-word p h =
    rw (split_word-word p.keyword p.value (keyword-InKeyword p.keyword h.0), h.0, h.1) refl

keyword-InWord :
    (k : Bytes) (rest : Bytes) → All InKeyword k → All InWord rest → All InWord (k ++ rest)
keyword-InWord [] rest h i = i
keyword-InWord (c ∷ k) rest h i = (h.0.0, keyword-InWord k rest h.1 i)

equals-InWord : (v : Bytes) → is_value (some v) ≡ true → All InWord (b'=' ∷ v)
equals-InWord v h = (refl, value-InWord v h)

word-InWord : (p : Param) → IsParam p → All InWord (word p.keyword p.value)
word-InWord p h = go p.keyword p.value h.0 h.1
  where
    go :
        (k : Bytes) (o : Option Bytes)
        → is_keyword k ≡ true
        → is_value o ≡ true
        → All InWord (word k o)
    go k none i j = plain k (keyword-InKeyword k i)
      where
        plain : (k : Bytes) → All InKeyword k → All InWord k
        plain [] i = tt
        plain (c ∷ k) i = (i.0.0, plain k i.1)
    go k (some v) i j = keyword-InWord k (b'=' ∷ v) (keyword-InKeyword k i) (equals-InWord v j)

split-word :
    (w rest : Bytes)
    → is_empty w ≡ false
    → All InWord w
    → starts_word rest ≡ false
    → split_ascii_whitespace (b' ' ∷ w ++ rest) ≡ w ∷ split_ascii_whitespace rest
unfolding split_ascii_whitespace
split-word [] rest ne h e = cc
split-word (c ∷ w) rest ne h e = split-word_rest c w rest h e

word-ne : (k : Bytes) (o : Option Bytes) → is_keyword k ≡ true → is_empty (word k o) ≡ false
word-ne [] o h = cc
word-ne (c ∷ k) none h = refl
word-ne (c ∷ k) (some v) h = refl

show_param-word : (k : Bytes) (o : Option Bytes) → show_param k o ≡ b' ' ∷ word k o
unfolding show_param
show_param-word k none = refl
show_param-word k (some v) = refl

starts_word-show_params : (ps : List Param) → starts_word (show_params ps) ≡ false
unfolding show_params
starts_word-show_params [] = refl
starts_word-show_params (p ∷ ps) =
    ap (λ x. starts_word (x ++ show_params ps)) (show_param-word p.keyword p.value)

split-show_params :
    (ps : List Param)
    → All IsParam ps
    → split_ascii_whitespace (show_params ps) ≡ map (λ p. word p.keyword p.value) ps
unfolding show_params
split-show_params [] h = unfold split_ascii_whitespace in refl
split-show_params (p ∷ ps) h =
    ap (λ x. split_ascii_whitespace (x ++ show_params ps)) (show_param-word p.keyword p.value)
    ∙ (split-word (word p.keyword p.value) (show_params ps) (word-ne p.keyword p.value h.0.0)
          (word-InWord p h.0) (starts_word-show_params ps)
        ∙ ap (λ ws. word p.keyword p.value ∷ ws) (split-show_params ps h.1))

parse_words-cons :
    (w : Bytes) (ws : List Bytes) (p : Param) (ps : List Param)
    → parse_param w ≡ some p
    → parse_words ws ≡ some ps
    → parse_words (w ∷ ws) ≡ some (p ∷ ps)
unfolding parse_words
parse_words-cons w ws p ps e f =
    ap
      (λ o. elim o as (λ _. Option (List Param)) [
        | none ↦ none
        | some q ↦ elim (parse_words ws) [ none ↦ none | some qs ↦ some (q ∷ qs) ]
      ])
      e
    ∙ ap (λ o. elim o as (λ _. Option (List Param)) [ none ↦ none | some qs ↦ some (p ∷ qs) ]) f

parse_words-words :
    (ps : List Param)
    → All IsParam ps
    → parse_words (map (λ p. word p.keyword p.value) ps) ≡ some ps
unfolding parse_words
parse_words-words [] h = refl
parse_words-words (p ∷ ps) h =
    parse_words-cons (word p.keyword p.value) (map (λ q. word q.keyword q.value) ps) p ps
      (parse_param-word p h.0) (parse_words-words ps h.1)

parse_params-show_params :
    (ps : List Param) → All IsParam ps → parse_params (show_params ps) ≡ some ps
unfolding parse_params
parse_params-show_params ps h = ap parse_words (split-show_params ps h) ∙ parse_words-words ps h

-- The parameters of the keywords that are to be kept, in their order.
pub kept : (Bytes → Bool) → List Param → List Param
kept keep [] = []
kept keep (p ∷ ps) = if keep p.keyword then p ∷ kept keep ps else kept keep ps

filter_params-kept : (keep : Bytes → Bool) (ps : List Param) → filter_params keep ps ≡ kept keep ps
unfolding filter_params kept
filter_params-kept keep [] = refl
filter_params-kept keep (p ∷ ps) = rw (filter_params-kept keep ps) refl

dsn_suffix-offered :
    (ps : List Param) (keep : Bytes → Bool)
    → dsn_suffix ps keep true ≡ show_params (filter_params keep ps)
unfolding dsn_suffix
dsn_suffix-offered ps keep = go (filter_params keep ps)
  where
    go :
        (wanted : List Param)
        → (if is_empty wanted then [] else if not true then [] else show_params wanted)
          ≡ show_params wanted
    go [] = unfold show_params in refl
    go (p ∷ wanted) = refl

-- Of parameters that were parsed from a client's line: what is appended for an upstream that offers DSN
-- parses to those of the keywords that are to be kept, with their values and in their order.
pub parse_params-dsn_suffix :
    (text : Bytes) (ps : List Param) (keep : Bytes → Bool)
    → parse_params text ≡ some ps
    → parse_params (dsn_suffix ps keep true) ≡ some (kept keep ps)
parse_params-dsn_suffix text ps keep e =
    let wanted = filter_params-IsParam keep ps (parse_params-IsParam text e) in
    ap parse_params (dsn_suffix-offered ps keep)
    ∙ (parse_params-show_params (filter_params keep ps) wanted
        ∙ ap some (filter_params-kept keep ps))
