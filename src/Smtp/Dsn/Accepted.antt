-- ===== src/Smtp/Dsn/Accepted.antt =====
-- What src/smtp/dsn.rs accepts.
use smtp_proxy_rs.Prelude.{
  ℕ, suc, ◌≤◌, ◌≡◌, ◌≢◌, ap, sym, ◌∙◌, refl, ◌⊎◌, inl, inr, true, false, List, [], ◌∷◌, ◌++◌, none,
  some, arith, Bytes, All, ok, bytes_eq, to_ascii_uppercase, if◌then◌else◌, Bool-cases,
  Option-cases, Result-cases,
}
use smtp_proxy_rs.Smtp.Params.{Param}
use smtp_proxy_rs.Smtp.Dsn.{
  DsnCommand, Check, pick_check, run_check, has, validate_from, validate_dsn,
}

-- The parameters with a keyword, in any case.
abbrev pub occurrences : Bytes → List Param → ℕ
occurrences k [] = 0
occurrences k (p ∷ ps) =
    if bytes_eq (to_ascii_uppercase p.keyword) k then suc (occurrences k ps) else occurrences k ps

-- The value of a parameter passes a check, if it has the keyword.
abbrev pub Passes : Bytes → Check → Param → Type 0
Passes k c p = bytes_eq (to_ascii_uppercase p.keyword) k ≡ true → run_check c p.value ≡ ok tt

bytes_eq_lem : (a b : Bytes) → bytes_eq a b ≡ true → a ≡ b
unfolding bytes_eq
bytes_eq_lem [] [] h = refl
bytes_eq_lem [] (c ∷ b) h = cc
bytes_eq_lem (c ∷ a) [] h = cc
bytes_eq_lem (c ∷ a) (d ∷ b) h = ground (arith, bytes_eq_lem a b)

bytes_eq_refl : (a : Bytes) → bytes_eq a a ≡ true
unfolding bytes_eq
bytes_eq_refl [] = refl
bytes_eq_refl (c ∷ a) = ground (arith, bytes_eq_refl a)

has-more : (seen : List Bytes) (u k : Bytes) → has seen k ≡ true → has (seen ++ u ∷ []) k ≡ true
unfolding has
has-more [] u k h = cc
has-more (s ∷ seen) u k h = ground (arith, has-more seen u k)

has-last : (seen : List Bytes) (k : Bytes) → has (seen ++ k ∷ []) k ≡ true
unfolding has
has-last [] k = ground (arith, bytes_eq_refl k)
has-last (s ∷ seen) k = ground (arith, has-last seen k)

-- How a list of parameters with a first one comes to be accepted.
abbrev Accepted : List Bytes → Param → List Param → DsnCommand → Type 0
Accepted seen p ps which =
    let u = to_ascii_uppercase p.keyword in
    ((pick_check which u ≡ none) × (validate_from seen ps which ≡ ok tt))
    ⊎ ((c : Check) × (pick_check which u ≡ some c)
        × (has seen u ≡ false)
        × (run_check c p.value ≡ ok tt)
        × (validate_from (seen ++ u ∷ []) ps which ≡ ok tt))

validate_from-Accepted :
    (seen : List Bytes) (p : Param) (ps : List Param) (which : DsnCommand)
    → validate_from seen (p ∷ ps) which ≡ ok tt
    → Accepted seen p ps which
unfolding validate_from
validate_from-Accepted seen p ps which e =
    let u = to_ascii_uppercase p.keyword in
    elim (Option-cases (pick_check which u)) [
      | inl n ↦ inl (n, ground (arith, e, n))
      | inr (c, n) ↦ elim (Bool-cases (has seen u)) [
        | inl h ↦ absurd (ground (arith, e, n, h))
        | inr h ↦ elim (Result-cases (run_check c p.value)) [
          | inl (t, r) ↦ absurd (ground (arith, e, n, h, r))
          | inr (t, r) ↦ inr (c, n, h, r, ground (arith, e, n, h, r))
        ]
      ]
    ]

some-injective : {c d : Check} → some c ≡ some d → c ≡ d
some-injective e = cc

picked : {c : Check} → none ≢ some c
picked e = cc

same_check :
    (which : DsnCommand) {u k : Bytes} {c d : Check}
    → u ≡ k
    → pick_check which u ≡ some c
    → pick_check which k ≡ some d
    → c ≡ d
same_check which {c} {d} h p q = some-injective (sym p ∙ (ap (pick_check which) h ∙ q))

module _ (which : DsnCommand) (k : Bytes) (c : Check) (picks : pick_check which k ≡ some c) where
  -- A keyword that has been seen does not come again, and one that has not comes once at most.
  abbrev Once : List Bytes → List Param → Type 0
  Once seen ps =
      (occurrences k ps ≤ 1) × (has seen k ≡ true → occurrences k ps ≡ 0) × All (Passes k c) ps

  Once-other :
      (seen seen' : List Bytes) (p : Param) (ps : List Param)
      → bytes_eq (to_ascii_uppercase p.keyword) k ≡ false
      → (has seen k ≡ true → has seen' k ≡ true)
      → Once seen' ps
      → Once seen (p ∷ ps)
  Once-other seen seen' p ps b m h =
      (ground (arith, h.0, b), (λ e. rw b (h.1 (m e))), ((λ e. absurd (ground (arith, e, b))), h.2))

  Once-same :
      (seen : List Bytes) (p : Param) (ps : List Param) (d : Check)
      → to_ascii_uppercase p.keyword ≡ k
      → bytes_eq (to_ascii_uppercase p.keyword) k ≡ true
      → has seen (to_ascii_uppercase p.keyword) ≡ false
      → d ≡ c
      → run_check d p.value ≡ ok tt
      → Once (seen ++ to_ascii_uppercase p.keyword ∷ []) ps
      → Once seen (p ∷ ps)
  Once-same seen p ps d q b h same r ih =
      let none_left = ih.1 (ap (λ x. has (seen ++ x ∷ []) k) q ∙ has-last seen k) in
      (
        ground (arith, none_left, b),
        (λ e. absurd (differ (sym h ∙ (ap (has seen) q ∙ e)))),
        ((λ e. ap (λ x. run_check x p.value) (sym same) ∙ r), ih.2),
      )
    where
      differ : false ≢ true
      differ e = cc

  Once-validate_from :
      (seen : List Bytes) (ps : List Param) → validate_from seen ps which ≡ ok tt → Once seen ps
  Once-validate_from seen [] e = (omega arith, (λ h. refl), tt)
  Once-validate_from seen (p ∷ ps) e =
      let u = to_ascii_uppercase p.keyword in
      elim (Bool-cases (bytes_eq u k)) [
        | inr b ↦ elim (validate_from-Accepted seen p ps which e) [
          | inl (n, rest) ↦ Once-other seen seen p ps b (λ h. h) (Once-validate_from seen ps rest)
          | inr (d, n, h, r, rest) ↦
              Once-other seen (seen ++ u ∷ []) p ps b (has-more seen u k)
                (Once-validate_from (seen ++ u ∷ []) ps rest)
        ]
        | inl b ↦ elim (validate_from-Accepted seen p ps which e) [
          | inl (n, rest) ↦
              absurd (picked (sym n ∙ (ap (pick_check which) (bytes_eq_lem u k b) ∙ picks)))
          | inr (d, n, h, r, rest) ↦
              let q = bytes_eq_lem u k b in
              Once-same seen p ps d q b h (same_check which q n picks) r
                (Once-validate_from (seen ++ u ∷ []) ps rest)
        ]
      ]

-- MAIL and RCPT parameters are accepted only if each of the command's DSN keywords is given at
-- most once, in whatever case, and its value passes the check of that keyword.
pub validate_dsn_lem :
    (params : List Param) (which : DsnCommand) (k : Bytes) (c : Check)
    → validate_dsn params which ≡ ok tt
    → pick_check which k ≡ some c
    → (occurrences k params ≤ 1) × All (Passes k c) params
unfolding validate_dsn
validate_dsn_lem params which k c e picks =
    let h = Once-validate_from which k c picks [] params e in (h.0, h.2)
