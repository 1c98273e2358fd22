-- ===== src/Proxy/Headers/Merge.antt =====
-- src/proxy.rs, `merge_headers`: which headers of a name there are behind the merge.
use smtp_proxy_rs.Prelude.{
  ◌≡◌, refl, ap, ◌∙◌, inl, inr, Bool, true, false, ◌||◌, none, some, Option-cases, List, [], ◌∷◌,
  ◌++◌, map, arith, Bytes, if◌then◌else◌, Bool-cases, eq_ignore_ascii_case, to_lower,
}
use smtp_proxy_rs.Proxy.Headers.{
  RawHeader, ResponseHeader, is_named, keep_unnamed, given_values, merge_headers,
}

-- The headers of a name, in whatever case they spell it, in their order.
pub named : Bytes → List RawHeader → List RawHeader
named name [] = []
named name (h ∷ hs) =
    let rest = named name hs in if eq_ignore_ascii_case h.name name then h ∷ rest else rest

abbrev lower : Bytes → Bytes
lower = map to_lower

lower_eq : (a b : Bytes) → eq_ignore_ascii_case a b ≡ true → lower a ≡ lower b
unfolding eq_ignore_ascii_case
lower_eq [] [] e = refl
lower_eq [] (y ∷ b) e = cc
lower_eq (x ∷ a) [] e = cc
lower_eq (x ∷ a) (y ∷ b) e = ground (arith, lower_eq a b)

same_match :
    (s a b : Bytes) → lower a ≡ lower b → eq_ignore_ascii_case s a ≡ eq_ignore_ascii_case s b
unfolding eq_ignore_ascii_case
same_match [] [] [] e = refl
same_match [] (x ∷ a) (y ∷ b) e = refl
same_match s [] (y ∷ b) e = cc
same_match s (x ∷ a) [] e = cc
same_match (z ∷ s) [] [] e = refl
same_match (z ∷ s) (x ∷ a) (y ∷ b) e = ground (arith, same_match s a b)

is_named-same :
    (api : List ResponseHeader) (a b : Bytes) → lower a ≡ lower b → is_named api a ≡ is_named api b
unfolding is_named
is_named-same [] a b e = refl
is_named-same (r ∷ api) a b e = rw (same_match r.name a b e, is_named-same api a b e) refl

named-append :
    (name : Bytes) (xs ys : List RawHeader) → named name (xs ++ ys) ≡ named name xs ++ named name ys
unfolding named
named-append name [] ys = refl
named-append name (h ∷ xs) ys = ground (arith, named-append name xs ys)

named-keep_unnamed :
    (name : Bytes) (hs : List RawHeader) (api : List ResponseHeader)
    → named name (keep_unnamed hs api) ≡ (if is_named api name then [] else named name hs)
unfolding named keep_unnamed
named-keep_unnamed name [] api = ground arith
named-keep_unnamed name (h ∷ hs) api = elim (Bool-cases (eq_ignore_ascii_case h.name name)) [
  | inl e ↦ ground (
    arith,
    named-keep_unnamed name hs api,
    is_named-same api h.name name (lower_eq h.name name e),
  )
  | inr e ↦ ground (arith, named-keep_unnamed name hs api)
]

-- Whether the API names a header, with a value or without.
pub names : List ResponseHeader → Bytes → Bool
names [] name = false
names (a ∷ api) name = eq_ignore_ascii_case a.name name || names api name

-- What the API gives a name: the headers of it that have a value.
pub given : List ResponseHeader → Bytes → List RawHeader
given [] name = []
given (a ∷ api) name = elim a.value [
  | none ↦ given api name
  | some value ↦
      let rest = given api name in
      if eq_ignore_ascii_case a.name name
      then record { name = a.name; value = value } ∷ rest
      else rest
]

is_named-names : (api : List ResponseHeader) (name : Bytes) → is_named api name ≡ names api name
unfolding is_named names
is_named-names [] name = refl
is_named-names (a ∷ api) name = ground (arith, is_named-names api name)

named-given_values :
    (name : Bytes) (api : List ResponseHeader) → named name (given_values api) ≡ given api name
unfolding named given_values given
named-given_values name [] = refl
named-given_values name (a ∷ api) = elim (Option-cases a.value) [
  | inl n ↦ rw n (named-given_values name api)
  | inr (value, n) ↦ rw (n, named-given_values name api) refl
]

-- Of any name, in whatever case: behind a merge there are the headers that were there, if the API
-- does not name it, and none of them if it does; and behind those the headers that the API gives
-- it with a value, in the API's order.
pub named-merge_headers :
    (name : Bytes) (existing : List RawHeader) (api : List ResponseHeader)
    → named name (merge_headers existing api)
      ≡ (if names api name then [] else named name existing) ++ given api name
unfolding merge_headers
named-merge_headers name existing api =
    named-append name (keep_unnamed existing api) (given_values api)
    ∙ ap (λ hs. hs ++ named name (given_values api)) (named-keep_unnamed name existing api)
    ∙ ap (λ b. (if b then [] else named name existing) ++ named name (given_values api))
        (is_named-names api name)
    ∙ ap (λ hs. (if names api name then [] else named name existing) ++ hs)
        (named-given_values name api)
