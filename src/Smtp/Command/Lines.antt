-- ===== src/Smtp/Command/Lines.antt =====
-- src/smtp/command.rs, `take_line`: where a buffer is cut.
use smtp_proxy_rs.Prelude.{
  ℕ, ◌+◌, ◌≡◌, refl, ap, ◌≢◌, ◌↔◌, inl, inr, [], ◌∷◌, ◌++◌, none, some, arith, Bytes, All, length,
  length-append, Option-cases,
}
use smtp_proxy_rs.Smtp.Command.{take_line}

-- A complete line: its one LF is its last byte.
abbrev pub IsLine : Bytes → Type 0
IsLine [] = ⊥
IsLine (c ∷ []) = c ≡ b'\n'
IsLine (c ∷ d ∷ rest) = (c ≢ b'\n') × IsLine (d ∷ rest)

IsLine-cons : (c : ℕ) (l : Bytes) → c ≢ b'\n' → IsLine l → IsLine (c ∷ l)
IsLine-cons c [] n h = absurd h
IsLine-cons c (d ∷ l) n h = (n, h)

-- A line that is taken off a buffer is its beginning and ends at its first LF, and what is left
-- of the buffer is the rest.
pub take_line-IsLine :
    (buf line rest : Bytes) → take_line buf ≡ some (line, rest) → (line ++ rest ≡ buf) × IsLine line
unfolding take_line
take_line-IsLine [] line rest e = cc
take_line-IsLine (c ∷ cs) line rest e = elim (Option-cases (take_line cs)) [
  | inl n ↦ ground arith
  | inr (p, n) ↦ ground (arith, take_line-IsLine cs p.0 p.1 n, IsLine-cons c p.0)
]

-- There is no line to take exactly when the buffer holds no LF.
pub take_line-none : (buf : Bytes) → (take_line buf ≡ none) ↔ All (λ c. c ≢ b'\n') buf
unfolding take_line
take_line-none [] = ((λ e. tt), (λ h. refl))
take_line-none (c ∷ cs) =
    let ih = take_line-none cs in ((λ e. ground (arith, ih.0)), (λ h. ground (arith, ih.1 h.1)))

IsLine-length : (line : Bytes) → IsLine line → length line ≢ 0
IsLine-length [] h = absurd h
IsLine-length (c ∷ line) h = omega arith

-- The buffer gets shorter by the line, which is not empty.
pub take_line-length :
    (buf line rest : Bytes)
    → take_line buf ≡ some (line, rest)
    → (length line + length rest ≡ length buf) × (length line ≢ 0)
take_line-length buf line rest e =
    let (cut, whole) = take_line-IsLine buf line rest e in
    (omega (arith, ap length cut, length-append line rest), IsLine-length line whole)
