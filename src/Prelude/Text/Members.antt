-- ===== src/Prelude/Text/Members.antt =====
-- What holds of every byte of a text holds of every byte of its pieces.
use mathlib.Core.Bool.{Bool, false}
use mathlib.Core.List.{List, [], ◌∷◌, ◌++◌}
use mathlib.Core.Logic.{inl, inr}
use mathlib.Core.Option.{some}
use mathlib.Core.Path.{◌≡◌, refl}
use native.Mathlib.Omega.{arith}
use Prim.Native.Nat.{ℕ, zero, suc}
use smtp_proxy_rs.Prelude.Lists.{All, drop}
use smtp_proxy_rs.Prelude.Tests.{Option-cases}
use smtp_proxy_rs.Prelude.Text.{
  Bytes, split_once, strip_prefix, drop_while, glue, split_ascii_whitespace, strip_crlf, contains,
}
use smtp_proxy_rs.Prelude.Utf8.{white_length, trim_from, trim_start}

module _ (P : ℕ → Type 0) where
  pub All-drop : (n : ℕ) (s : Bytes) → All P s → All P (drop n s)
  All-drop zero s h = h
  All-drop (suc n) [] h = tt
  All-drop (suc n) (c ∷ s) h = All-drop n s h.1

  pub All-drop_while : (p : ℕ → Bool) (s : Bytes) → All P s → All P (drop_while p s)
  unfolding drop_while
  All-drop_while p [] h = tt
  All-drop_while p (c ∷ s) h = ground (arith, All-drop_while p s h.1)

  pub All-strip_prefix :
      (b : ℕ) (s : Bytes) {t : Bytes} → strip_prefix b s ≡ some t → All P s → All P t
  unfolding strip_prefix
  All-strip_prefix b [] e h = cc
  All-strip_prefix b (c ∷ s) e h = ground arith

  pub All-split_once :
      (sep : ℕ) (s a b : Bytes) → split_once sep s ≡ some (a, b) → All P s → All P a × All P b
  unfolding split_once
  All-split_once sep [] a b e h = cc
  All-split_once sep (c ∷ s) a b e h = elim (Option-cases (split_once sep s)) [
    | inl n ↦ ground arith
    | inr (p, n) ↦ ground (arith, All-split_once sep s p.0 p.1 n h.1)
  ]

  pub All-trim_from : (skip : ℕ) (s : Bytes) → All P s → All P (trim_from skip s)
  unfolding trim_from
  All-trim_from skip [] h = tt
  All-trim_from (suc skip) (c ∷ s) h = All-trim_from skip s h.1
  All-trim_from zero (c ∷ s) h =
      elim (white_length (c ∷ s))
        as (λ n. All P (elim n [ zero ↦ c ∷ s | suc k ↦ trim_from k s ])) [
          | zero ↦ h
          | suc k ↦ All-trim_from k s h.1
        ]

  pub All-trim_start : (s : Bytes) → All P s → All P (trim_start s)
  unfolding trim_start
  All-trim_start s h = All-trim_from 0 s h

  All-glue : (c : ℕ) (ws : List Bytes) → P c → All (All P) ws → All (All P) (glue c ws)
  All-glue c [] h k = ((h, tt), tt)
  All-glue c (w ∷ ws) h k = ((h, k.0), k.1)

  pub All-split_ascii_whitespace : (s : Bytes) → All P s → All (All P) (split_ascii_whitespace s)
  unfolding split_ascii_whitespace
  All-split_ascii_whitespace [] h = tt
  All-split_ascii_whitespace (c ∷ s) h =
      let rest = All-split_ascii_whitespace s h.1 in
      ground (arith, rest, All-glue c (split_ascii_whitespace s) h.0)

-- The part before the separator does not hold it.
pub split_once-contains :
    (sep : ℕ) (s a b : Bytes) → split_once sep s ≡ some (a, b) → contains sep a ≡ false
unfolding split_once contains
split_once-contains sep [] a b e = cc
split_once-contains sep (c ∷ s) a b e = elim (Option-cases (split_once sep s)) [
  | inl n ↦ ground arith
  | inr (p, n) ↦ ground (arith, split_once-contains sep s p.0 p.1 n)
]

pub strip_crlf_lem : (s body : Bytes) → strip_crlf s ≡ some body → s ≡ body ++ 13 ∷ 10 ∷ []
unfolding strip_crlf
strip_crlf_lem [] body e = cc
strip_crlf_lem (c ∷ []) body e = cc
strip_crlf_lem (c ∷ d ∷ []) body e = ground arith
strip_crlf_lem (c ∷ d ∷ e' ∷ s) body e = elim (Option-cases (strip_crlf (d ∷ e' ∷ s))) [
  | inl n ↦ ground arith
  | inr (b, n) ↦ ground (arith, strip_crlf_lem (d ∷ e' ∷ s) b n)
]

pub strip_crlf-append : (body : Bytes) → strip_crlf (body ++ 13 ∷ 10 ∷ []) ≡ some body
unfolding strip_crlf
strip_crlf-append [] = refl
strip_crlf-append (c ∷ []) = refl
strip_crlf-append (c ∷ d ∷ s) = ground (arith, strip_crlf-append (d ∷ s))
