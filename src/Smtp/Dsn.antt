-- ===== src/Smtp/Dsn.antt =====
-- src/smtp/dsn.rs: the DSN parameters of RFC 3461.
pub mod Accepted
use smtp_proxy_rs.Prelude.{
  ℕ, Bool, true, false, not, ◌&&◌, ◌||◌, List, [], ◌∷◌, ◌++◌, Option, none, some, Bytes, codes, all,
  is_empty, length, within, ltb, ◌==◌, if◌then◌else◌, is_ascii_alphanumeric, is_ascii_hexdigit,
  to_ascii_uppercase, bytes_eq, eq_ignore_ascii_case, split_once, split, Result, ok, err,
}
use smtp_proxy_rs.Smtp.Params.{Param}

pub data DsnCommand : Type 0 where
  mail rcpt : DsnCommand

unfoldable pub is_mail_dsn_keyword : Bytes → Bool
is_mail_dsn_keyword k =
    eq_ignore_ascii_case k (codes "RET") || eq_ignore_ascii_case k (codes "ENVID")

unfoldable pub is_rcpt_dsn_keyword : Bytes → Bool
is_rcpt_dsn_keyword k =
    eq_ignore_ascii_case k (codes "NOTIFY") || eq_ignore_ascii_case k (codes "ORCPT")

abbrev pub is_plain : ℕ → Bool
is_plain c = within 0x21 0x2a c || (within 0x2c 0x3c c || within 0x3e 0x7e c)

-- the `while` loop, over what is left of the bytes
unfoldable pub is_xtext : Bytes → Bool
is_xtext [] = true
is_xtext (c ∷ []) = if c == b'+' then false else is_plain c
is_xtext (c ∷ d ∷ []) = if c == b'+' then false else is_plain c && is_xtext (d ∷ [])
is_xtext (c ∷ d ∷ e ∷ rest) = elim (c == b'+') [
  | true ↦ is_ascii_hexdigit d && is_ascii_hexdigit e && is_xtext rest
  | false ↦ is_plain c && is_xtext (d ∷ e ∷ rest)
]

-- the four checks, and what picks one
pub data Check : Type 0 where
  ret envid notify orcpt : Check

unfoldable pub pick_check : DsnCommand → Bytes → Option Check
pick_check mail keyword =
    if bytes_eq keyword (codes "RET")
    then some ret
    else if bytes_eq keyword (codes "ENVID")
    then some envid
    else none
pick_check rcpt keyword =
    if bytes_eq keyword (codes "NOTIFY")
    then some notify
    else if bytes_eq keyword (codes "ORCPT")
    then some orcpt
    else none

abbrev pub Checked : Type 0
Checked = Result Bytes (Unit {0})

unfoldable pub check_ret : Option Bytes → Checked
check_ret none = err (codes "RET requires a value of FULL or HDRS")
check_ret (some v) =
    if eq_ignore_ascii_case v (codes "FULL") || eq_ignore_ascii_case v (codes "HDRS")
    then ok tt
    else err (codes "RET requires a value of FULL or HDRS")

unfoldable pub check_envid : Option Bytes → Checked
unfolding is_xtext
check_envid none = err (codes "ENVID requires a value")
check_envid (some v) =
    if is_empty v
    then err (codes "ENVID requires a value")
    else if ltb 100 (length v)
    then err (codes "ENVID is limited to 100 characters")
    else if not (is_xtext v)
    then err (codes "ENVID must be xtext")
    else ok tt

-- `seen.contains(..)`
unfoldable pub has : List Bytes → Bytes → Bool
has [] k = false
has (s ∷ seen) k = bytes_eq s k || has seen k

-- `iter().any(|i| i.is_empty())`
unfoldable pub any_empty : List Bytes → Bool
any_empty [] = false
any_empty (i ∷ items) = is_empty i || any_empty items

abbrev pub is_notify_value : Bytes → Bool
is_notify_value upper =
    bytes_eq upper (codes "NEVER")
    || (bytes_eq upper (codes "SUCCESS")
        || (bytes_eq upper (codes "FAILURE") || bytes_eq upper (codes "DELAY")))

-- the loop over the items: the values seen
unfoldable pub notify_items : List Bytes → List Bytes → Result Bytes (List Bytes)
unfolding has
notify_items seen [] = ok seen
notify_items seen (item ∷ items) =
    let upper = to_ascii_uppercase item in
    let rest = notify_items (seen ++ upper ∷ []) items in
    if not (is_notify_value upper)
    then err (codes "NOTIFY value '" ++ (item ++ codes "' is not recognised"))
    else if has seen upper
    then err (codes "NOTIFY lists " ++ (upper ++ codes " more than once"))
    else rest

abbrev pub more_than_one : List Bytes → Bool
more_than_one items = ltb 1 (length items)

unfoldable pub notify_seen : List Bytes → Result Bytes (List Bytes) → Checked
notify_seen items (err e) = err e
notify_seen items (ok seen) =
    if has seen (codes "NEVER") && more_than_one items
    then err (codes "NOTIFY=NEVER cannot be combined with other values")
    else ok tt

unfoldable pub check_notify : Option Bytes → Checked
unfolding any_empty notify_items notify_seen
check_notify none = err (codes "NOTIFY requires a value")
check_notify (some v) =
    let items = split b',' v in
    if is_empty v
    then err (codes "NOTIFY requires a value")
    else if any_empty items
    then err (codes "NOTIFY has an empty element")
    else notify_seen items (notify_items [] items)

abbrev pub bad_shape : Bytes
bad_shape = codes "ORCPT must be an address type, a semicolon and an address"

abbrev pub is_address_type : Bytes → Bool
is_address_type [] = false
is_address_type (b ∷ bs) =
    is_ascii_alphanumeric b && all (λ c. is_ascii_alphanumeric c || c == b'-') (b ∷ bs)

unfoldable pub check_orcpt : Option Bytes → Checked
unfolding is_xtext
check_orcpt none = err (codes "ORCPT requires a value")
check_orcpt (some v) =
    if is_empty v
    then err (codes "ORCPT requires a value")
    else if ltb 500 (length v)
    then err (codes "ORCPT is limited to 500 characters")
    else elim (split_once b';' v) [
      | none ↦ err bad_shape
      | some (atype, address) ↦
          if not (is_address_type atype) || is_empty address
          then err bad_shape
          else if not (is_xtext address)
          then err (codes "ORCPT address must be xtext")
          else ok tt
    ]

unfoldable pub run_check : Check → Option Bytes → Checked
unfolding check_ret check_envid check_notify check_orcpt
run_check ret v = check_ret v
run_check envid v = check_envid v
run_check notify v = check_notify v
run_check orcpt v = check_orcpt v

-- the loop over the parameters
unfoldable pub validate_from : List Bytes → List Param → DsnCommand → Checked
unfolding pick_check run_check has
validate_from seen [] which = ok tt
validate_from seen (p ∷ params) which =
    let keyword = to_ascii_uppercase p.keyword in
    elim (pick_check which keyword) [
      | none ↦ validate_from seen params which
      | some check ↦
          if has seen keyword
          then err (keyword ++ codes " given more than once")
          else elim (run_check check p.value) [
            | err text ↦ err text
            | ok _ ↦ validate_from (seen ++ keyword ∷ []) params which
          ]
    ]

unfoldable pub validate_dsn : List Param → DsnCommand → Checked
unfolding validate_from
validate_dsn params which = validate_from [] params which
