-- ===== src/Prelude/Utf8/Length.antt =====
-- How long the text is that `String::from_utf8_lossy` makes of bytes.
use Prim.Native.Nat.{ℕ, ◌+◌, ◌*◌, ◌≤◌, ◌<◌}
use mathlib.Core.List.{[], ◌∷◌, ◌++◌}
use mathlib.Core.Option.{Option, none, some}
use native.Mathlib.Omega.{arith}
use smtp_proxy_rs.Prelude.Lists.{length, length-append}
use smtp_proxy_rs.Prelude.Text.{Bytes}
use smtp_proxy_rs.Prelude.Utf8.{
  Utf8, first, next, utf8_step, replacement, lossy_step, lossy_from, from_utf8_lossy,
}

-- Within a character there is a byte of it that is held.
abbrev Held : Utf8 → Bytes → Type 0
Held first held = Unit
Held (next m lo hi) held = 0 < length held

abbrev Within : Bytes → Bytes × Utf8 × Bytes → Type 0
Within held r = (length r.0 + 3 * length r.2 ≤ 3 * (length held + 1)) × Held r.1 r.2

begin-Within :
    (o : Option Utf8) (held : Bytes) (c : ℕ)
    → Within held (elim o as (λ _. Bytes × Utf8 × Bytes) [
      | none ↦ (replacement, first, [])
      | some first ↦ (c ∷ [], first, [])
      | some (next m lo hi) ↦ ([], next m lo hi, c ∷ [])
    ])
begin-Within none held c = (omega arith, tt)
begin-Within (some first) held c = (omega arith, tt)
begin-Within (some (next m lo hi)) held c = (omega arith, omega arith)

afresh-Within :
    (o : Option Utf8) (held : Bytes) (c : ℕ)
    → 0 < length held
    → Within held (elim o as (λ _. Bytes × Utf8 × Bytes) [
      | none ↦ (replacement ++ replacement, first, [])
      | some first ↦ (replacement ++ c ∷ [], first, [])
      | some (next m lo hi) ↦ (replacement, next m lo hi, c ∷ [])
    ])
afresh-Within none held c h = (omega (arith, h), tt)
afresh-Within (some first) held c h = (omega (arith, h), tt)
afresh-Within (some (next m lo hi)) held c h = (omega (arith, h), omega arith)

continue-Within :
    (o o' : Option Utf8) (held : Bytes) (c : ℕ)
    → 0 < length held
    → Within held (elim o as (λ _. Bytes × Utf8 × Bytes) [
      | some first ↦ (held ++ c ∷ [], first, [])
      | some (next m lo hi) ↦ ([], next m lo hi, held ++ c ∷ [])
      | none ↦ elim o' as (λ _. Bytes × Utf8 × Bytes) [
        | none ↦ (replacement ++ replacement, first, [])
        | some first ↦ (replacement ++ c ∷ [], first, [])
        | some (next m lo hi) ↦ (replacement, next m lo hi, c ∷ [])
      ]
    ])
continue-Within none o' held c h = afresh-Within o' held c h
continue-Within (some first) o' held c h = (omega (arith, h, length-append held (c ∷ [])), tt)
continue-Within (some (next m lo hi)) o' held c h =
    (omega (arith, h, length-append held (c ∷ [])), omega (arith, length-append held (c ∷ [])))

lossy_step-Within :
    (s : Utf8) (held : Bytes) (c : ℕ) → Held s held → Within held (lossy_step s held c)
unfolding lossy_step
lossy_step-Within first held c h = begin-Within (utf8_step first c) held c
lossy_step-Within (next m lo hi) held c h =
    continue-Within (utf8_step (next m lo hi) c) (utf8_step first c) held c h

length-lossy_from :
    (s : Utf8) (held bytes : Bytes)
    → Held s held
    → length (lossy_from s held bytes) ≤ 3 * (length held + length bytes)
unfolding lossy_from
length-lossy_from s [] [] h = omega arith
length-lossy_from s (c ∷ held) [] h = omega arith
length-lossy_from s held (c ∷ cs) h =
    let r = lossy_step s held c in
    let w = lossy_step-Within s held c h in
    omega (arith, w.0, length-append r.0 (lossy_from r.1 r.2 cs), length-lossy_from r.1 r.2 cs w.1)

pub length-from_utf8_lossy : (bytes : Bytes) → length (from_utf8_lossy bytes) ≤ 3 * length bytes
unfolding from_utf8_lossy
length-from_utf8_lossy bytes = omega (arith, length-lossy_from first [] bytes tt)
