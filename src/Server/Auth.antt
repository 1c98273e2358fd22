-- ===== src/Server/Auth.antt =====
-- src/server/auth.rs: AUTH PLAIN (RFC 4616) and AUTH LOGIN. The base64 decoder of the crate base64
-- (standard alphabet, padding optional) is the parameter `decode`.
pub mod Bounds
use smtp_proxy_rs.Prelude.{
  ℕ, List, [], ◌∷◌, Option, none, some, Bytes, codes, length, leb, if◌then◌else◌, split, trim_start,
  trim_end, from_utf8_lossy,
}

pub record Credentials : Type 0 where
  pub authzid : Bytes
  pub authcid : Bytes
  pub password : Bytes

abbrev pub username_challenge : Bytes
username_challenge = codes "VXNlcm5hbWU6"

abbrev pub password_challenge : Bytes
password_challenge = codes "UGFzc3dvcmQ6"

abbrev pub max_username : ℕ
max_username = 256

infixl 5 ◌>>=◌
abbrev ◌>>=◌ : {A B : Type 0} → Option A → (A → Option B) → Option B
none >>= f = none
some a >>= f = f a

unfoldable pub username : Bytes → Option Bytes
username decoded =
    if leb (length decoded) max_username then some (from_utf8_lossy decoded) else none

-- the parts of PLAIN: authzid, authcid and password
unfoldable pub plain_parts : List Bytes → Option Credentials
unfolding username
plain_parts (zid ∷ cid ∷ password ∷ _) = do
  user ← username cid
  some (record {
    authzid = from_utf8_lossy zid;
    authcid = user;
    password = from_utf8_lossy password;
  })
plain_parts (zid ∷ cid ∷ []) = none
plain_parts (zid ∷ []) = none
plain_parts [] = none

module _ (decode : Bytes → Option Bytes) where
  unfoldable pub decode_lenient : Bytes → Option Bytes
  decode_lenient b64 = decode (trim_start (trim_end b64))

  unfoldable pub decode_plain : Bytes → Option Credentials
  unfolding decode_lenient plain_parts
  decode_plain b64 = do raw ← decode_lenient b64; plain_parts (split 0 raw)

  unfoldable pub decode_login : Bytes → Bytes → Option Credentials
  unfolding decode_lenient username
  decode_login user_b64 pass_b64 = do
    user ← decode_lenient user_b64
    name ← username user
    pass ← decode_lenient pass_b64
    some (record { authzid = []; authcid = name; password = from_utf8_lossy pass })
