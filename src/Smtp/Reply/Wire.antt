-- ===== src/Smtp/Reply/Wire.antt =====
-- What src/smtp/reply.rs puts on the wire.
use smtp_proxy_rs.Prelude.{
  ℕ, suc, ◌+◌, ◌≤◌, ◌<◌, ◌≡◌, ◌≢◌, ◌↔◌, refl, ◌⊎◌, inl, inr, Bool, true, false, not, List, [], ◌∷◌,
  ◌++◌, none, some, Bytes, codes, length, take, within, ltb, ◌==◌, if◌then◌else◌, decimal,
  decimal_from, trim_end, arith, All, All-append, length-append, length-take-le, Bool-cases,
}
use Prim.Native.Nat.{zero, max, ◌/◌, ◌%◌}
use native.Mathlib.Nat.{add-zero}
use mathlib.Core.List.{append_assoc, append-nil}
use smtp_proxy_rs.Smtp.Reply.{
  max_text, is_printable, fold_runs, sanitize, format_line, format_lines, format_reply, Reply, wire,
}

abbrev pub IsPrintable : Bytes → Type 0
IsPrintable s = All (λ c. is_printable c ≡ true) s

fold_runs-IsPrintable : (in_run : Bool) (s : Bytes) → IsPrintable (fold_runs in_run s)
unfolding fold_runs
fold_runs-IsPrintable in_run [] = tt
fold_runs-IsPrintable in_run (c ∷ cs) =
    ground (arith, fold_runs-IsPrintable (not (is_printable c)) cs)

trim_end-IsPrintable : (s : Bytes) → IsPrintable s → IsPrintable (trim_end s)
unfolding trim_end
trim_end-IsPrintable [] h = tt
trim_end-IsPrintable (c ∷ cs) h = ground (arith, trim_end-IsPrintable cs h.1)

All-take {ℓ κ} : {A : Type ℓ} (P : A → Type κ) (n : ℕ) (xs : List A) → All P xs → All P (take n xs)
All-take P zero xs h = tt
All-take P (suc n) [] h = tt
All-take P (suc n) (x ∷ xs) h = (h.0, All-take P n xs h.1)

-- A sanitized text holds printable ASCII and tabs only, and has at most `max_text` bytes, whatever
-- the text was.
pub sanitize_lem :
    (text : Bytes) → IsPrintable (sanitize text) × (length (sanitize text) ≤ max_text)
unfolding sanitize
sanitize_lem text =
    let trimmed = trim_end (fold_runs false text) in
    let p = trim_end-IsPrintable (fold_runs false text) (fold_runs-IsPrintable false text) in
    elim (Bool-cases (ltb max_text (length trimmed))) [
      | inl e ↦ rw e (
        All-append (λ c. is_printable c ≡ true) (take 503 trimmed) (codes "...")
            (All-take (λ c. is_printable c ≡ true) 503 trimmed p) (refl, (refl, (refl, tt))),
        omega (arith, length-append (take 503 trimmed) (codes "..."), length-take-le 503 trimmed),
      )
      | inr e ↦ rw e (p, ground arith)
    ]

-- How a client cuts a reply into lines: the number of LFs, and the length of the longest line
-- with its LF; `cur` bytes of the first line have been read.
pub count_lf : Bytes → ℕ
count_lf [] = 0
count_lf (c ∷ cs) = (if c == b'\n' then 1 else 0) + count_lf cs

pub longest : ℕ → Bytes → ℕ
longest cur [] = cur
longest cur (c ∷ cs) =
    let rest = longest (if c == b'\n' then 0 else cur + 1) cs in
    if c == b'\n' then max (cur + 1) rest else rest

count_lf-append : (xs ys : Bytes) → count_lf (xs ++ ys) ≡ count_lf xs + count_lf ys
unfolding count_lf
count_lf-append [] ys = omega arith
count_lf-append (x ∷ xs) ys = omega (arith, count_lf-append xs ys)

abbrev NoLf : Bytes → Type 0
NoLf s = All (λ c. c ≢ b'\n') s

count_lf_none : (s : Bytes) → NoLf s → count_lf s ≡ 0
unfolding count_lf
count_lf_none [] h = refl
count_lf_none (c ∷ s) h = ground (arith, count_lf_none s h.1)

longest-append :
    (cur : ℕ) (s rest : Bytes) → NoLf s → longest cur (s ++ rest) ≡ longest (cur + length s) rest
unfolding longest
longest-append cur [] rest h = rw add-zero
longest-append cur (c ∷ s) rest h =
    let e : cur + 1 + length s ≡ cur + suc (length s) = omega arith in
    ground (arith, longest-append (cur + 1) s rest h.1, e)

IsPrintable-NoLf : (s : Bytes) → IsPrintable s → NoLf s
IsPrintable-NoLf [] h = tt
IsPrintable-NoLf (c ∷ s) h = (ground arith, IsPrintable-NoLf s h.1)

decimal_three_from :
    (k n : ℕ)
    → 100 ≤ n
    → n < 1000
    → decimal_from (suc (suc (suc k))) n []
      ≡ (n / 10 / 10 + b'0') ∷ (n / 10 % 10 + b'0') ∷ (n % 10 + b'0') ∷ []
unfolding decimal_from
decimal_three_from k n lo hi = ground arith

decimal_three :
    (n : ℕ)
    → 100 ≤ n
    → n < 1000
    → decimal n ≡ (n / 10 / 10 + b'0') ∷ (n / 10 % 10 + b'0') ∷ (n % 10 + b'0') ∷ []
unfolding decimal
decimal_three zero lo hi = absurd (omega arith)
decimal_three (suc zero) lo hi = absurd (omega arith)
decimal_three (suc (suc k)) lo hi = decimal_three_from k (suc (suc k)) lo hi

code_lem :
    (code : ℕ) → within 200 599 code ≡ true → NoLf (decimal code) × (length (decimal code) ≡ 3)
code_lem code h =
    let range : (200 ≤ code) × (code ≤ 599) = (ground arith, ground arith) in
    rw (decimal_three code (omega arith) (omega arith))
      (((λ e. omega arith), ((λ e. omega arith), ((λ e. omega arith), tt))), refl)

-- A line up to its CR.
abbrev shown : ℕ → ℕ → Bytes → Bytes
shown code sep line = decimal code ++ (sep ∷ (sanitize line ++ b'\r' ∷ []))

shown_lem :
    (code sep : ℕ) (line : Bytes)
    → within 200 599 code ≡ true
    → sep ≢ b'\n'
    → NoLf (shown code sep line) × (length (shown code sep line) ≤ 511)
shown_lem code sep line h n =
    let (digits, three) = code_lem code h in
    let (printable, short) = sanitize_lem line in
    (
      All-append (λ c. c ≢ b'\n') (decimal code) (sep ∷ (sanitize line ++ b'\r' ∷ [])) digits
          (
            n,
            All-append (λ c. c ≢ b'\n') (sanitize line) (b'\r' ∷ [])
                (IsPrintable-NoLf (sanitize line) printable) ((λ e. omega arith), tt),
          ),
      omega (
        arith,
        three,
        short,
        length-append (decimal code) (sep ∷ (sanitize line ++ b'\r' ∷ [])),
        length-append (sanitize line) (b'\r' ∷ []),
      ),
    )

format_line-append :
    (code sep : ℕ) (line rest : Bytes)
    → format_line code sep line ++ rest ≡ shown code sep line ++ b'\n' ∷ rest
unfolding format_line
format_line-append code sep line rest = simp append_assoc

count_lf_newline : (rest : Bytes) → count_lf (b'\n' ∷ rest) ≡ 1 + count_lf rest
unfolding count_lf
count_lf_newline rest = refl

longest_newline :
    (cur : ℕ) (rest : Bytes) → longest cur (b'\n' ∷ rest) ≡ max (cur + 1) (longest 0 rest)
unfolding longest
longest_newline cur rest = refl

terminated :
    (s rest : Bytes)
    → NoLf s
    → (count_lf (s ++ b'\n' ∷ rest) ≡ 1 + count_lf rest)
      × (longest 0 (s ++ b'\n' ∷ rest) ≡ max (length s + 1) (longest 0 rest))
terminated s rest h = (
  omega (arith, count_lf-append s (b'\n' ∷ rest), count_lf_none s h, count_lf_newline rest),
  omega (arith, longest-append 0 s (b'\n' ∷ rest) h, longest_newline (0 + length s) rest),
)

-- One line of a reply, with the reply's rest behind it.
format_line_lem :
    (code sep : ℕ) (line rest : Bytes)
    → within 200 599 code ≡ true
    → sep ≢ b'\n'
    → (count_lf (format_line code sep line ++ rest) ≡ 1 + count_lf rest)
      × (longest 0 (format_line code sep line ++ rest) ≤ max 512 (longest 0 rest))
unfolding format_line
format_line_lem code sep line rest h n =
    let (free, short) = shown_lem code sep line h n in
    rw (format_line-append code sep line rest)
      (omega (arith, terminated (shown code sep line) rest free, short))

empty_lem : (count_lf [] ≡ 0) × (longest 0 [] ≡ 0)
unfolding count_lf longest
empty_lem = (refl, refl)

format_lines_lem :
    (code : ℕ) (lines : List Bytes)
    → within 200 599 code ≡ true
    → (count_lf (format_lines code lines) ≡ length lines)
      × (longest 0 (format_lines code lines) ≤ 512)
unfolding format_lines
format_lines_lem code [] h = unfold count_lf longest in (refl, omega arith)
format_lines_lem code (line ∷ []) h =
    let last = format_line_lem code b' ' line [] h (λ e. omega arith) in
    omega (arith, rw append-nil at last, empty_lem)
format_lines_lem code (line ∷ more ∷ lines) h = omega (
  arith,
  format_line_lem code b'-' line (format_lines code (more ∷ lines)) h (λ e. omega arith),
  format_lines_lem code (more ∷ lines) h,
)

-- A reply of n lines that has a wire form is n lines there, whatever their texts hold, and none of
-- them is longer than 512 bytes, its line ending included.
pub wire_lines :
    (r : Reply) {out : Bytes}
    → wire r ≡ some out
    → (count_lf out ≡ length r.lines) × (longest 0 out ≤ 512)
unfolding wire format_reply
wire_lines r {out} e = ground (arith, format_lines_lem r.code r.lines)

-- A reply panics exactly when its code is outside 200 to 599 or it has no line.
pub wire-none : (r : Reply) → (wire r ≡ none) ↔ ((r.code < 200) ⊎ ((599 < r.code) ⊎ (r.lines ≡ [])))
unfolding wire format_reply
wire-none r = ((λ e. ground arith), (λ h. ground arith))
