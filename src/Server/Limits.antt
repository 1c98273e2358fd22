-- ===== src/Server/Limits.antt =====
-- src/server/listener.rs, `ConnectionLimits`: the total and the per-IP limit on connections. Tokio's
-- semaphore is a parameter; the state is passed on where the source locks a mutex.
pub mod Keys
pub mod Refinement
pub mod Release
pub mod Bounds
use smtp_proxy_rs.Prelude.{
  ℕ, zero, suc, ◌+◌, ◌-◌, ◌≡◌, ◌≢◌, ◌↔◌, Bool, true, false, not, List, [], ◌∷◌, ◌++◌, Option, none,
  some, Bytes, codes, bytes_eq, take, drop, leb, ◌==◌, if◌then◌else◌, Result, ok, err,
}
use smtp_proxy_rs.Prelude.Maps.{get, insert, remove}

-- `std::net::IpAddr` by its octets.
pub data IpAddr : Type 0 where
  v4 : Bytes → IpAddr
  v6 : Bytes → IpAddr

unfoldable pub ip_eq : IpAddr → IpAddr → Bool
unfolding bytes_eq
ip_eq (v4 a) (v4 b) = bytes_eq a b
ip_eq (v6 a) (v6 b) = bytes_eq a b
ip_eq _ _ = false

abbrev pub zeros : ℕ → Bytes
zeros zero = []
zeros (suc n) = 0 ∷ zeros n

-- `::ffff:0:0/96`
abbrev pub mapped_prefix : Bytes
mapped_prefix = zeros 10 ++ 0xff ∷ 0xff ∷ []

-- `Ipv6Addr::to_ipv4_mapped`
unfoldable pub to_ipv4_mapped : Bytes → Option Bytes
unfolding bytes_eq
to_ipv4_mapped octets =
    if bytes_eq (take 12 octets) mapped_prefix then some (drop 12 octets) else none

unfoldable pub limit_key : IpAddr → IpAddr
unfolding to_ipv4_mapped
limit_key (v4 octets) = v4 octets
limit_key (v6 octets) = elim (to_ipv4_mapped octets) [
  | some mapped ↦ v4 mapped
  | none ↦ v6 (take 8 octets ++ zeros 8)
]

-- `tokio::sync::Semaphore`: a permit is taken, or there is none; a permit that is dropped is back.
pub record Semaphore (S : Type 0) : Type 0 where
  pub new : ℕ → S
  pub try_acquire_owned : S → Option S
  pub release : S → S
  pub available_permits : S → ℕ

pub record IsSemaphore {S : Type 0} (sem : Semaphore S) : Type 0 where
  pub new_permits : (n : ℕ) → sem.available_permits (sem.new n) ≡ n
  pub none_left : (s : S) → sem.try_acquire_owned s ≡ none → sem.available_permits s ≡ 0
  pub one_taken :
      (s s' : S)
      → sem.try_acquire_owned s ≡ some s'
      → sem.available_permits s ≡ suc (sem.available_permits s')
  pub one_back : (s : S) → sem.available_permits (sem.release s) ≡ suc (sem.available_permits s)

pub record ConnectionLimits (S : Type 0) : Type 0 where
  pub total : Option S
  pub per_ip : List (IpAddr × ℕ)
  pub per_ip_max : ℕ

pub record ConnectionPermit : Type 0 where
  pub total : Bool
  pub ip : IpAddr
  pub counted : Bool

-- `counts.entry(key).or_insert(0)`: the map with that entry in it, and the count.
unfoldable pub entry_or_zero : IpAddr → List (IpAddr × ℕ) → List (IpAddr × ℕ) × ℕ
unfolding get insert
entry_or_zero key counts = elim (get ip_eq key counts) [
  | some count ↦ (counts, count)
  | none ↦ (insert ip_eq key 0 counts, 0)
]

module _ {S : Type 0} (sem : Semaphore S) where
  unfoldable pub new : ℕ → ℕ → ConnectionLimits S
  new max_connections max_connections_per_ip = record {
    total = if not (max_connections == 0) then some (sem.new max_connections) else none;
    per_ip = [];
    per_ip_max = max_connections_per_ip;
  }

  -- what a permit of the semaphore does when it is dropped
  unfoldable pub release_total : Option S → Option S
  release_total none = none
  release_total (some s) = some (sem.release s)

  -- `try_acquire` behind the total limit; the flag says that a slot has been reserved.
  unfoldable pub acquire_ip :
      ConnectionLimits S → Bool → IpAddr → ConnectionLimits S × Result Bytes ConnectionPermit
  unfolding limit_key entry_or_zero insert release_total
  acquire_ip l reserved ip =
      let key = limit_key ip in
      let (counts, count) = entry_or_zero key l.per_ip in
      if not (l.per_ip_max == 0)
      then (if leb l.per_ip_max count
          then (
            record l {
              total = if reserved then release_total l.total else l.total;
              per_ip = counts;
            },
            err (codes "per-ip"),
          )
          else (
            record l { per_ip = insert ip_eq key (suc count) counts },
            ok (record { total = reserved; ip = key; counted = true }),
          ))
      else (l, ok (record { total = reserved; ip = key; counted = false }))

  unfoldable pub try_acquire :
      ConnectionLimits S → IpAddr → ConnectionLimits S × Result Bytes ConnectionPermit
  unfolding acquire_ip
  try_acquire l ip = elim l.total [
    | none ↦ acquire_ip l false ip
    | some s ↦ elim (sem.try_acquire_owned s) [
      | none ↦ (l, err (codes "total"))
      | some s' ↦ acquire_ip (record l { total = some s' }) true ip
    ]
  ]

  -- `Drop` of the permit, and behind it that of its semaphore permit. No entry of the map is 0, so
  -- the subtraction does not underflow.
  unfoldable pub drop_permit : ConnectionLimits S → ConnectionPermit → ConnectionLimits S
  unfolding get insert remove release_total
  drop_permit l p =
      let total = if p.total then release_total l.total else l.total in
      if not p.counted then record l { total = total } else elim (get ip_eq p.ip l.per_ip) [
        | none ↦ record l { total = total }
        | some count ↦
            if count - 1 == 0
            then record l { total = total; per_ip = remove ip_eq p.ip l.per_ip }
            else record l { total = total; per_ip = insert ip_eq p.ip (count - 1) l.per_ip }
      ]
