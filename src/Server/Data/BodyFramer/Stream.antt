-- ===== src/Server/Data/BodyFramer/Stream.antt =====
-- What `BodyFramer` of src/server/data.rs sends, whatever pieces the body arrives in.
use smtp_proxy_rs.Prelude.{
  ℕ, ◌<◌, ◌≡◌, ◌≢◌, refl, sym, inl, inr, Bool, true, false, ◌&&◌, List, [], ◌∷◌, ◌++◌, arith, Bytes,
  length, All, Bool-cases, ◌==◌, if◌then◌else◌,
}
use mathlib.Core.List.{append_assoc, append-nil}
use smtp_proxy_rs.Server.Data.{write_chunk, cr, lf, crlf, is_terminator}
use smtp_proxy_rs.Server.Data.BodyFramer.{
  BodyPiece, pending, chunk, terminator, BodyFramer, append_loop, append, piece, push, push_partial,
}

-- The intended output, one byte at a time: every LF ends a line and becomes CRLF, with the CR
-- before it if there is one, and all other bytes stay. `held` says that a CR has been read
-- that is not written yet.
abbrev pub normal_step : Bool → ℕ → Bytes
normal_step held c =
    if c == lf
    then crlf
    else if c == cr
    then (if held then cr ∷ [] else [])
    else if held
    then cr ∷ c ∷ []
    else c ∷ []

abbrev pub holds : ℕ → Bool
holds c = c == cr

unfoldable pub normalize : Bool → Bytes → Bytes
normalize held [] = []
normalize held (c ∷ cs) = normal_step held c ++ normalize (holds c) cs

unfoldable pub holds_after : Bool → Bytes → Bool
holds_after held [] = held
holds_after held (c ∷ cs) = holds_after (holds c) cs

pub normalize-append :
    (held : Bool) (xs ys : Bytes)
    → normalize held (xs ++ ys) ≡ normalize held xs ++ normalize (holds_after held xs) ys
unfolding normalize holds_after
normalize-append held [] ys = refl
normalize-append held (x ∷ xs) ys = simp (normalize-append (holds x) xs ys, append_assoc)

pub holds_after-append :
    (held : Bool) (xs ys : Bytes)
    → holds_after held (xs ++ ys) ≡ holds_after (holds_after held xs) ys
unfolding holds_after
holds_after-append held [] ys = refl
holds_after-append held (x ∷ xs) ys = holds_after-append (holds x) xs ys

pub normal_pair :
    (c d : ℕ) (rest : Bytes)
    → (c == cr && d == lf) ≡ true
    → (normalize false (c ∷ d ∷ rest) ≡ crlf ++ normalize false rest)
      × (holds_after false (c ∷ d ∷ rest) ≡ holds_after false rest)
unfolding normalize holds_after
normal_pair c d rest h = ground arith

pub normal_other :
    (c d : ℕ) (rest : Bytes)
    → (c == cr && d == lf) ≡ false
    → (normalize false (c ∷ d ∷ rest)
        ≡ (if c == lf then crlf else c ∷ []) ++ normalize false (d ∷ rest))
      × (holds_after false (c ∷ d ∷ rest) ≡ holds_after false (d ∷ rest))
unfolding normalize holds_after
normal_other c d rest h = ground arith

append_loop_lem :
    (out bytes : Bytes)
    → append_loop out bytes ≡ (out ++ normalize false bytes, holds_after false bytes)
unfolding append_loop
append_loop_lem out [] = unfold normalize holds_after in ground (arith, append-nil out)
append_loop_lem out (c ∷ []) = unfold normalize holds_after in ground (arith, append-nil out)
append_loop_lem out (c ∷ d ∷ rest) = elim (Bool-cases (c == cr && d == lf)) [
  | inl pair ↦ ground (
    arith,
    normal_pair c d rest pair,
    append_loop_lem (out ++ crlf) rest,
    append_assoc out crlf (normalize false rest),
  )
  | inr other ↦
      let first = if c == lf then crlf else c ∷ [] in
      ground (
        arith,
        normal_other c d rest other,
        append_loop_lem (out ++ first) (d ∷ rest),
        append_assoc out first (normalize false (d ∷ rest)),
      )
]

normalize_head :
    (held : Bool) (c : ℕ) (rest : Bytes)
    → (normalize held (c ∷ rest) ≡ normal_step held c ++ normalize (holds c) rest)
      × (holds_after held (c ∷ rest) ≡ holds_after (holds c) rest)
unfolding normalize holds_after
normalize_head held c rest = (refl, refl)

append_fields :
    (f : BodyFramer) (c : ℕ) (rest : Bytes)
    → ((append f (c ∷ rest)).out ≡ f.out ++ normalize f.held_cr (c ∷ rest))
      × ((append f (c ∷ rest)).held_cr ≡ holds_after f.held_cr (c ∷ rest))
unfolding append
append_fields f c rest = ground (
  arith,
  append_loop_lem (f.out ++ crlf) rest,
  append_loop_lem (f.out ++ cr ∷ []) (c ∷ rest),
  append_loop_lem f.out (c ∷ rest),
  normalize_head false c rest,
  normalize_head true c rest,
  append_assoc f.out crlf (normalize false rest),
  append_assoc f.out (cr ∷ []) (normalize false (c ∷ rest)),
)

-- What a piece from the reader is: a complete line, or bytes with no line ending in sight.
pub data Arrival : Type 0 where
  line : Bytes → Arrival
  partial : Bytes → Arrival

abbrev pub bytes_of : Arrival → Bytes
bytes_of (line l) = l
bytes_of (partial b) = b

-- What is written to the sink for a piece.
abbrev pub written : BodyPiece → Bytes
written pending = []
written (chunk b) = b
written terminator = []

abbrev pub ends : BodyPiece → Bool
ends terminator = true
ends _ = false

pub take_in : BodyFramer → Arrival → BodyFramer × BodyPiece
take_in f (line l) = push f l
take_in f (partial b) = push_partial f b

-- The pieces up to the terminator, through the framer: the bytes written to the sink, and the
-- framer that is left to flush.
pub feed : BodyFramer → List Arrival → Bytes × BodyFramer
feed f [] = ([], f)
feed f (a ∷ more) = elim (ends (take_in f a).1) [
  | true ↦ ([], f)
  | false ↦
      (written (take_in f a).1 ++ (feed (take_in f a).0 more).0, (feed (take_in f a).0 more).1)
]

-- The bytes of the body: those of all pieces before the terminator, which counts at a line
-- start only. The flag says whether the next piece begins a line.
unfoldable pub body : Bool → List Arrival → Bytes
body at_start [] = []
body at_start (line l ∷ more) = if at_start && is_terminator l then [] else l ++ body true more
body at_start (partial b ∷ more) = b ++ body false more

abbrev pub begins : Arrival → Bool
begins (line _) = true
begins (partial _) = false

take_in_lem :
    (f : BodyFramer) (a : Arrival)
    → bytes_of a ≢ []
    → ends (take_in f a).1 ≡ false
    → (written (take_in f a).1 ++ (take_in f a).0.out ≡ f.out ++ normalize f.held_cr (bytes_of a))
      × ((take_in f a).0.held_cr ≡ holds_after f.held_cr (bytes_of a))
      × ((take_in f a).0.at_line_start ≡ begins a)
unfolding take_in push push_partial
take_in_lem f (line []) ne e = absurd (ne refl)
take_in_lem f (line (c ∷ rest)) ne e =
    ground (arith, append_fields f c rest, append-nil (append f (c ∷ rest)).out)
take_in_lem f (partial []) ne e = absurd (ne refl)
take_in_lem f (partial (c ∷ rest)) ne e =
    ground (arith, append_fields f c rest, append-nil (append f (c ∷ rest)).out)

body_cons :
    (f : BodyFramer) (a : Arrival) (more : List Arrival)
    → body f.at_line_start (a ∷ more)
      ≡ (if ends (take_in f a).1 then [] else bytes_of a ++ body (begins a) more)
unfolding body take_in push push_partial piece
body_cons f (line l) more = ground arith
body_cons f (partial b) more = ground arith

normalize_nil : (held : Bool) → normalize held [] ≡ []
unfolding normalize
normalize_nil held = refl

-- However a body is cut into pieces, none of them empty, what is written to the sink and what is left to flush are
-- together the body with its line endings made CRLF: nothing is lost, added or reordered.
pub feed-normalize :
    (f : BodyFramer) (pieces : List Arrival)
    → All (λ a. bytes_of a ≢ []) pieces
    → (feed f pieces).0 ++ (feed f pieces).1.out
      ≡ f.out ++ normalize f.held_cr (body f.at_line_start pieces)
unfolding feed
feed-normalize f [] h = unfold body normalize in sym (append-nil f.out)
feed-normalize f (a ∷ more) h =
    let f' = (take_in f a).0 in
    ground (
      arith,
      body_cons f a more,
      take_in_lem f a h.0,
      feed-normalize f' more h.1,
      append-nil f.out,
      normalize_nil f.held_cr,
      append_assoc (written (take_in f a).1) (feed f' more).0 (feed f' more).1.out,
      append_assoc f.out (normalize f.held_cr (bytes_of a))
          (normalize (holds_after f.held_cr (bytes_of a)) (body (begins a) more)),
      append_assoc (written (take_in f a).1) f'.out
          (normalize f'.held_cr (body f'.at_line_start more)),
      normalize-append f.held_cr (bytes_of a) (body (begins a) more),
    )

-- A framer that holds less than one write's worth holds less than that after any piece.
pub take_in_staged :
    (f : BodyFramer) (a : Arrival)
    → length f.out < write_chunk
    → length (take_in f a).0.out < write_chunk
unfolding take_in push push_partial
take_in_staged f (line l) h = ground arith
take_in_staged f (partial b) h = ground arith
