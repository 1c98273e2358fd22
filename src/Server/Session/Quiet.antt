-- ===== src/Server/Session/Quiet.antt =====
-- Reading and replying change nothing but the buffers, the scripts and what was sent.
use smtp_proxy_rs.Prelude.{
  ℕ, ◌+◌, ◌≤◌, ◌<◌, ◌≡◌, refl, inl, inr, Bool, true, false, List, [], ◌∷◌, ◌++◌, some, arith, Bytes,
  length, length-append, Result, Option-cases, codes,
}
use smtp_proxy_rs.Server.Session.{
  max_command_buffer, ErrorKind, Line, got, too_long, Read, chunk, cancelled, Session, failed,
  panicked, starved, exhausted, Outcome, done, stopped, M, ◌>>=◌, pure, attempt, caught, send,
  Pulled, Pull, line, interrupted, settle, pull, bind_outcome,
}
use smtp_proxy_rs.Server.Session.Reading.{
  behind_drain, deadline, line_of, forgive, next_line, next_command_line, clear_buf,
  refuse_long_line, refuse_data,
}
use smtp_proxy_rs.Smtp.Command.{take_line}
use smtp_proxy_rs.Smtp.Command.Lines.{take_line-length}
use smtp_proxy_rs.Smtp.Reply
use smtp_proxy_rs.Smtp.Reply.{Reply}

abbrev weight_reads : List Read → ℕ
weight_reads [] = 0
weight_reads (chunk wait bytes ∷ rs) = length bytes + weight_reads rs
weight_reads (Read.failing wait k ∷ rs) = weight_reads rs
weight_reads (cancelled ∷ rs) = weight_reads rs

-- The bytes that a session may still take in without a handshake: those in its buffer and those still
-- to be read.
abbrev pub weight : {H : Type 0} → Session H → ℕ
weight s = length s.buf + weight_reads s.reads

behind_drain-weight : (reads : List Read) → weight_reads (behind_drain reads) ≡ weight_reads reads
behind_drain-weight [] = refl
behind_drain-weight (chunk wait bytes ∷ rs) = refl
behind_drain-weight (Read.failing wait k ∷ rs) = refl
behind_drain-weight (cancelled ∷ rs) = refl

pub record Quiet {H : Type 0} (s t : Session H) : Type 0 where
  pub same_state : t.state ≡ s.state
  pub same_tls : t.tls_active ≡ s.tls_active
  pub same_config : t.config ≡ s.config
  pub same_handler : t.handler ≡ s.handler
  pub same_recipients : t.recipients ≡ s.recipients
  pub same_calls : t.calls ≡ s.calls
  pub lighter : weight t ≤ weight s

module _ {H : Type 0} where
  pub Quiet-refl : (s : Session H) → Quiet s s
  Quiet-refl s = ground arith

  pub Quiet-trans : {s t u : Session H} → Quiet s t → Quiet t u → Quiet s u
  Quiet-trans p q = ground arith

  -- An action that is quiet, whatever comes of it.
  abbrev pub IsQuiet : {A : Type 0} → M H A → Type 0
  IsQuiet m = (s : Session H) → Quiet s (m s).1

  pub bind-IsQuiet :
      {A B : Type 0} (m : M H A) (f : A → M H B)
      → IsQuiet m
      → ((a : A) → IsQuiet (f a))
      → IsQuiet (m >>= f)
  bind-IsQuiet {A} m f h k s = go (m s).0 (m s).1 (h s)
    where
      go : (o : Outcome A) (t : Session H) → Quiet s t → Quiet s (bind_outcome o t f).1
      go (done a) t q = Quiet-trans q (k a t)
      go (stopped w) t q = q

  pub attempt-IsQuiet : {A : Type 0} (m : M H A) → IsQuiet m → IsQuiet (attempt m)
  attempt-IsQuiet {A} m h s = go (m s) (h s)
    where
      go : (r : Outcome A × Session H) → Quiet s r.1 → Quiet s (caught r).1
      go (done a, t) q = q
      go (stopped (failed k), t) q = q
      go (stopped panicked, t) q = q
      go (stopped starved, t) q = q
      go (stopped exhausted, t) q = q

  pub send-IsQuiet : (reply : Reply) → IsQuiet (send reply)
  unfolding send
  send-IsQuiet reply s = ground arith

-- A line costs at least its LF.
abbrev pub cost : Pulled → ℕ
cost (line (got _)) = 1
cost _ = 0

-- A buffer that is too full is not empty.
abbrev pub Full : Pulled → Bytes → Type 0
Full (line too_long) buf = 0 < length buf
Full _ buf = Unit

settle-cost :
    (max_incomplete : ℕ) (buf : Bytes) (p : Pulled) (rest : Bytes)
    → settle max_incomplete buf ≡ some (p, rest)
    → (length rest + cost p ≤ length buf) × Full p rest
unfolding settle
settle-cost max_incomplete buf p rest e = elim (Option-cases (take_line buf)) [
  | inl n ↦ ground arith
  | inr (l, n) ↦ ground (arith, take_line-length buf l.0 l.1 n)
]

abbrev Charged : ℕ → Pull → Type 0
Charged w p = (length p.buf + weight_reads p.reads + cost p.pulled ≤ w) × Full p.pulled p.buf

pub pull-Charged :
    (stops : Bool) (dl max_incomplete : ℕ) (d : Bool) (buf : Bytes) (reads : List Read)
    → Charged (length buf + weight_reads reads) (pull stops dl max_incomplete d buf reads)
unfolding pull
pull-Charged stops dl max_incomplete d buf [] = elim (Option-cases (settle max_incomplete buf)) [
  | inl n ↦ ground arith
  | inr (r, n) ↦ ground (arith, settle-cost max_incomplete buf r.0 r.1 n)
]
pull-Charged stops dl max_incomplete d buf (chunk wait bytes ∷ reads) =
    elim (Option-cases (settle max_incomplete buf)) [
      | inl n ↦ ground (
        arith,
        pull-Charged stops dl max_incomplete d (buf ++ bytes) reads,
        length-append buf bytes,
      )
      | inr (r, n) ↦ ground (arith, settle-cost max_incomplete buf r.0 r.1 n)
    ]
pull-Charged stops dl max_incomplete d buf (Read.failing wait k ∷ reads) =
    elim (Option-cases (settle max_incomplete buf)) [
      | inl n ↦ ground arith
      | inr (r, n) ↦ ground (arith, settle-cost max_incomplete buf r.0 r.1 n)
    ]
pull-Charged stops dl max_incomplete d buf (cancelled ∷ reads) =
    elim (Option-cases (settle max_incomplete buf)) [
      | inl n ↦ ground (arith, pull-Charged stops dl max_incomplete true buf reads)
      | inr (r, n) ↦ ground (arith, settle-cost max_incomplete buf r.0 r.1 n)
    ]

line_cost : {l : Bytes} (p : Pulled) → line_of p ≡ done (got l) → cost p ≡ 1
line_cost (line (got _)) e = refl
line_cost (line Line.eof) e = cc
line_cost (line too_long) e = cc
line_cost (Pulled.failing k) e = cc
line_cost interrupted e = cc
line_cost Pulled.starved e = cc

Full-line_of : (p : Pulled) (buf : Bytes) → line_of p ≡ done too_long → Full p buf → 0 < length buf
Full-line_of (line (got _)) buf e h = cc
Full-line_of (line Line.eof) buf e h = cc
Full-line_of (line too_long) buf e h = h
Full-line_of (Pulled.failing k) buf e h = cc
Full-line_of interrupted buf e h = cc
Full-line_of Pulled.starved buf e h = cc

module _ {H : Type 0} where
  pub forgive-IsQuiet : (r : Result ErrorKind (Unit {0})) → IsQuiet {H = H} (forgive r)
  forgive-IsQuiet r s = ground arith

  pub next_line-IsQuiet : (max_incomplete : ℕ) → IsQuiet {H = H} (next_line max_incomplete)
  unfolding next_line
  next_line-IsQuiet max_incomplete s =
      ground (arith, pull-Charged false (deadline s) max_incomplete s.draining s.buf s.reads)

  -- A line that is taken makes the rest lighter, and a buffer that is too full is not empty.
  pub next_line_cost :
      (max_incomplete : ℕ) (s : Session H)
      → ((l : Bytes)
          → (next_line max_incomplete s).0 ≡ done (got l)
          → weight (next_line max_incomplete s).1 < weight s)
        × ((next_line max_incomplete s).0 ≡ done too_long
            → 0 < length (next_line max_incomplete s).1.buf)
  unfolding next_line
  next_line_cost max_incomplete s =
      let p = pull false (deadline s) max_incomplete s.draining s.buf s.reads in
      let charged = pull-Charged false (deadline s) max_incomplete s.draining s.buf s.reads in
      (
        (λ l e. omega (arith, charged, line_cost p.pulled e)),
        λ e. Full-line_of p.pulled p.buf e charged.1,
      )

  pub clear_buf-IsQuiet : IsQuiet {H = H} clear_buf
  clear_buf-IsQuiet s = ground arith

  pub refuse_long_line-IsQuiet : IsQuiet {H = H} refuse_long_line
  unfolding refuse_long_line
  refuse_long_line-IsQuiet =
      bind-IsQuiet (attempt (send (Reply.new 500 (codes "Line too long")))) (λ _. pure tt)
        (attempt-IsQuiet _ (send-IsQuiet _)) (λ _ s. Quiet-refl s)

  pub refuse_data-IsQuiet : (code : ℕ) (text : Bytes) → IsQuiet {H = H} (refuse_data code text)
  unfolding refuse_data
  refuse_data-IsQuiet code text =
      bind-IsQuiet (attempt (send (Reply.new code text))) forgive
        (attempt-IsQuiet _ (send-IsQuiet _)) (λ r s. forgive-IsQuiet r s)

  pub next_command_line-IsQuiet : IsQuiet {H = H} next_command_line
  unfolding next_command_line
  next_command_line-IsQuiet s = ground (
    behind_drain-weight s.reads,
    arith,
    pull-Charged s.config.drain (deadline s) max_command_buffer s.draining s.buf s.reads,
  )
