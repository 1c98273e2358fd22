-- ===== src/Relay/Wire/Replies.antt =====
-- src/relay.rs, `read_reply`: whatever the upstream sends.
use smtp_proxy_rs.Prelude.{
  ℕ, zero, suc, ◌+◌, ◌-◌, ◌≤◌, ◌<◌, ◌≡◌, refl, inl, inr, Bool, true, false, not, ◌&&◌, List, [],
  ◌∷◌, ◌++◌, Option, none, some, arith, Bytes, codes, ltb, leb, length, is_empty, is_ascii_digit,
  Bool-cases, length-append, Result, ok, err, from_utf8,
}
use smtp_proxy_rs.Relay.{RelayError, io}
use smtp_proxy_rs.Relay.Wire.{
  max_upstream_reply_line, max_reply_total, Wire, Outcome, done, failed, exhausted, R, ◌>>=◌, pure,
  fail, UpstreamReply, read_line, trim_line, text_of, line_code, join_texts, ends_with_lf,
  take_line, read_reply_loop, read_reply, as_text, bind_outcome, not_utf8, read_bytes,
}

-- A step that comes to an end, and whose result is as stated if it has one.
abbrev pub Ends : {A : Type 0} → (A → Type 0) → Outcome A → Type 0
Ends P (done a) = P a
Ends P (failed e) = Unit
Ends P exhausted = ⊥

outcome-Ends :
    {A B : Type 0} (P : A → Type 0) (Q : B → Type 0) (o : Outcome A) (w : Wire) (f : A → R B)
    → Ends P o
    → ((a : A) (w' : Wire) → P a → Ends Q (f a w').0)
    → Ends Q (bind_outcome o w f).0
outcome-Ends P Q (done a) w f h k = k a w h
outcome-Ends P Q (failed e) w f h k = tt
outcome-Ends P Q exhausted w f h k = h

pub bind-Ends :
    {A B : Type 0} (P : A → Type 0) (Q : B → Type 0) (m : R A) (f : A → R B) (w : Wire)
    → Ends P (m w).0
    → ((a : A) (w' : Wire) → P a → Ends Q (f a w').0)
    → Ends Q ((m >>= f) w).0
bind-Ends P Q m f w h k = outcome-Ends P Q (m w).0 (m w).1 f h k

abbrev pub Any : {A : Type 0} → A → Type 0
Any _ = Unit

-- What a reply of the upstream's is known to be.
pub record IsReply (r : UpstreamReply) : Type 0 where
  pub is_capped : length r.raw ≤ max_reply_total
  pub code_range : r.code ≤ 999

length-ne : (line : Bytes) → is_empty line ≡ false → 1 ≤ length line
length-ne [] e = cc
length-ne (c ∷ line) e = omega arith

ltb-false : (a b : ℕ) → ltb a b ≡ false → b ≤ a
ltb-false a b h = ground arith

digit_range : (c : ℕ) → is_ascii_digit c ≡ true → c - b'0' ≤ 9
digit_range c h = ground arith

line_code-range :
    (line : Bytes) (code : ℕ) (last : Bool) → line_code line ≡ some (code, last) → code ≤ 999
unfolding line_code
line_code-range [] code last e = cc
line_code-range (a ∷ []) code last e = cc
line_code-range (a ∷ b ∷ []) code last e = cc
line_code-range (a ∷ b ∷ c ∷ rest) code last e =
    ground (arith, digit_range a, digit_range b, digit_range c)

text-Ends :
    (o : Option Bytes) → Ends Any (elim o [ none ↦ failed (io not_utf8) | some text ↦ done text ])
text-Ends none = tt
text-Ends (some text) = tt

as_text-Ends : (r : Result RelayError Bytes) → Ends Any (as_text r)
as_text-Ends (err e) = tt
as_text-Ends (ok line) = text-Ends (from_utf8 line)

read_line-Ends : (w : Wire) → Ends Any (read_line w).0
unfolding read_line
read_line-Ends w = as_text-Ends (read_bytes max_upstream_reply_line [] w.buffer w.reads).0

next-Ends :
    (o : Option (ℕ × Bool)) (trimmed raw text : Bytes) (again : R UpstreamReply) (w : Wire)
    → ((code : ℕ) (last : Bool) → o ≡ some (code, last) → code ≤ 999)
    → length raw ≤ max_reply_total
    → Ends IsReply (again w).0
    → Ends IsReply
        ((elim o as (λ _. R UpstreamReply) [
          | none ↦ fail (io (codes "unparseable upstream reply: " ++ trimmed))
          | some (code, true) ↦ pure (record { code = code; text = text; raw = raw })
          | some (code, false) ↦ again
        ])
          w).0
next-Ends none trimmed raw text again w range cap h = tt
next-Ends (some (code, true)) trimmed raw text again w range cap h = record {
  is_capped = cap;
  code_range = range code true refl;
}
next-Ends (some (code, false)) trimmed raw text again w range cap h = h

take_line-Ends :
    (again : Bytes → List Bytes → R UpstreamReply) (raw : Bytes) (texts : List Bytes) (line : Bytes)
    (w : Wire)
    → ((more : List Bytes)
        → is_empty line ≡ false
        → length (raw ++ line) ≤ max_reply_total
        → Ends IsReply (again (raw ++ line) more w).0)
    → Ends IsReply (take_line again raw texts line w).0
unfolding take_line
take_line-Ends again raw texts line w h =
    let trimmed = trim_line line in
    let more = texts ++ text_of trimmed ∷ [] in
    elim (Bool-cases (is_empty line)) [
      | inl e ↦ rw e tt
      | inr e ↦
          elim (Bool-cases (not (ends_with_lf line) && leb max_upstream_reply_line (length line))) [
            | inl long ↦ rw (e, long) tt
            | inr short ↦ elim (Bool-cases (ltb max_reply_total (length (raw ++ line)))) [
              | inl large ↦ rw (e, short, large) tt
              | inr fits ↦
                  let cap = ltb-false max_reply_total (length (raw ++ line)) fits in
                  rw (e, short, fits)
                    (next-Ends (line_code trimmed) trimmed (raw ++ line) (join_texts more)
                      (again (raw ++ line) more) w (line_code-range trimmed) cap (h more e cap))
            ]
          ]
    ]

read_reply_loop-Ends :
    (fuel : ℕ) (raw : Bytes) (texts : List Bytes) (w : Wire)
    → length raw ≤ max_reply_total
    → max_reply_total < fuel + length raw
    → Ends IsReply (read_reply_loop fuel raw texts w).0
unfolding read_reply_loop
read_reply_loop-Ends zero raw texts w cap enough = absurd (omega arith)
read_reply_loop-Ends (suc fuel) raw texts w cap enough =
    bind-Ends Any IsReply read_line (take_line (read_reply_loop fuel) raw texts) w
      (read_line-Ends w)
      (λ line w' _. take_line-Ends (read_reply_loop fuel) raw texts line w' (λ more e cap'.
        read_reply_loop-Ends fuel (raw ++ line) more w' cap'
          (omega (arith, length-append raw line, length-ne line e, enough))))

-- Whatever the upstream sends and however it is cut into reads: reading a reply comes to an end, and
-- a reply that is read has at most max_reply_total bytes and a code of at most 999.
pub read_reply-Ends : (w : Wire) → Ends IsReply (read_reply w).0
unfolding read_reply
read_reply-Ends w =
    read_reply_loop-Ends (suc max_reply_total + 1) [] [] w (omega arith) (omega arith)
