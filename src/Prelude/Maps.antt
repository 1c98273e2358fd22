-- ===== src/Prelude/Maps.antt =====
-- `HashMap`, as a list of its entries: `entry(..)`, `insert` and `remove` leave one entry of a key at
-- most. The key's `Eq` is a parameter.
use mathlib.Core.Bool.{Bool, true, false}
use mathlib.Core.List.{List, [], ◌∷◌}
use mathlib.Core.Logic.{◌↔◌, inl, inr}
use mathlib.Core.Option.{Option, none, some}
use mathlib.Core.Path.{◌≡◌, refl, ap, ◌∙◌}
use smtp_proxy_rs.Prelude.Tests.{if◌then◌else◌, Bool-cases}

module _ {K V : Type 0} (eq : K → K → Bool) where
  unfoldable pub get : K → List (K × V) → Option V
  get k [] = none
  get k (e ∷ m) = let rest = get k m in if eq e.0 k then some e.1 else rest

  unfoldable pub remove : K → List (K × V) → List (K × V)
  remove k [] = []
  remove k (e ∷ m) = let rest = remove k m in if eq e.0 k then rest else e ∷ rest

  unfoldable pub insert : K → V → List (K × V) → List (K × V)
  unfolding remove
  insert k v m = (k, v) ∷ remove k m

module _ {K V : Type 0} (eq : K → K → Bool) (eq_iff : (a b : K) → (eq a b ≡ true) ↔ (a ≡ b)) where
  pub get-remove : (k : K) (m : List (K × V)) → get eq k (remove eq k m) ≡ none
  unfolding get remove
  get-remove k [] = refl
  get-remove k (e ∷ m) = elim (Bool-cases (eq e.0 k)) [
    | inl h ↦ rw h (get-remove k m)
    | inr h ↦ rw h (rw h (get-remove k m))
  ]

  pub get-remove-other :
      (k k' : K) (m : List (K × V)) → eq k k' ≡ false → get eq k' (remove eq k m) ≡ get eq k' m
  unfolding get remove
  get-remove-other k k' [] h = refl
  get-remove-other k k' (e ∷ m) h = elim (Bool-cases (eq e.0 k)) [
    | inl same ↦
        let apart = ap (λ x. eq x k') ((eq_iff e.0 k).0 same) ∙ h in
        rw (same, apart) (get-remove-other k k' m h)
    | inr other ↦ rw (other, get-remove-other k k' m h) refl
  ]

  pub get-insert : (k : K) (v : V) (m : List (K × V)) → get eq k (insert eq k v m) ≡ some v
  unfolding get insert
  get-insert k v m = rw ((eq_iff k k).1 refl) refl

  pub get-insert-other :
      (k k' : K) (v : V) (m : List (K × V))
      → eq k k' ≡ false
      → get eq k' (insert eq k v m) ≡ get eq k' m
  unfolding get insert
  get-insert-other k k' v m h = rw h (get-remove-other k k' m h)
