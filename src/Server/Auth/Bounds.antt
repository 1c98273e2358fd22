-- ===== src/Server/Auth/Bounds.antt =====
-- How long the user name of src/server/auth.rs can be, which is kept by the rate limiter.
use Prim.Native.Nat.{◌*◌}
use smtp_proxy_rs.Prelude.{
  ◌≤◌, ◌≡◌, ◌⊎◌, inl, inr, List, [], ◌∷◌, Option, some, arith, Bytes, length, Option-cases, split,
}
use smtp_proxy_rs.Prelude.Utf8.Length.{length-from_utf8_lossy}
use smtp_proxy_rs.Server.Auth.{
  Credentials, max_username, username, plain_parts, decode_lenient, decode_plain, decode_login,
}

username-length :
    (decoded name : Bytes) → username decoded ≡ some name → length name ≤ 3 * max_username
unfolding username
username-length decoded name e = ground (arith, length-from_utf8_lossy decoded, e)

plain_parts-length :
    (parts : List Bytes) (c : Credentials)
    → plain_parts parts ≡ some c
    → length c.authcid ≤ 3 * max_username
unfolding plain_parts
plain_parts-length [] c e = cc
plain_parts-length (zid ∷ []) c e = cc
plain_parts-length (zid ∷ cid ∷ []) c e = cc
plain_parts-length (zid ∷ cid ∷ password ∷ rest) c e = elim (Option-cases (username cid)) [
  | inl n ↦ ground (arith, e, n)
  | inr (user, n) ↦ ground (arith, e, n, username-length cid user n)
]

-- Whatever the base64 decoder does, credentials that are decoded, by PLAIN or by LOGIN, name a
-- user in at most 768 bytes: three for each byte of the longest user name that is let through.
pub decoded_authcid_length :
    (decode : Bytes → Option Bytes) (b64 user_b64 pass_b64 : Bytes) (c : Credentials)
    → (decode_plain decode b64 ≡ some c) ⊎ (decode_login decode user_b64 pass_b64 ≡ some c)
    → length c.authcid ≤ 768
unfolding decode_plain decode_login
decoded_authcid_length decode b64 user_b64 pass_b64 c (inl e) =
    elim (Option-cases (decode_lenient decode b64)) [
      | inl n ↦ ground (arith, e, n)
      | inr (raw, n) ↦ ground (arith, e, n, plain_parts-length (split 0 raw) c)
    ]
decoded_authcid_length decode b64 user_b64 pass_b64 c (inr e) =
    elim (Option-cases (decode_lenient decode user_b64)) [
      | inl n ↦ ground (arith, e, n)
      | inr (user, n) ↦ elim (Option-cases (username user)) [
        | inl m ↦ ground (arith, e, n, m)
        | inr (name, m) ↦ elim (Option-cases (decode_lenient decode pass_b64)) [
          | inl q ↦ ground (arith, e, n, m, q)
          | inr (pass, q) ↦ ground (arith, e, n, m, q, username-length user name m)
        ]
      ]
    ]
