-- ===== src/Server/Limits/Bounds.antt =====
-- src/server/listener.rs: how many connections there are at a time, whatever is accepted and closed.
use smtp_proxy_rs.Prelude.{
  ℕ, suc, ◌≤◌, ◌≡◌, ◌≢◌, ap, inl, inr, false, List, [], ◌∷◌, ◌++◌, arith, length, Bool-cases,
}
use smtp_proxy_rs.Server.Limits.{
  IpAddr, ip_eq, limit_key, Semaphore, IsSemaphore, ConnectionLimits, ConnectionPermit, new,
  try_acquire, drop_permit,
}
use smtp_proxy_rs.Server.Limits.Keys.{ip_eq_iff}
use smtp_proxy_rs.Server.Limits.Refinement.{
  holders, is_full, granted, answer, held_behind, Represents, new-Represents,
  try_acquire-Represents,
}
use smtp_proxy_rs.Server.Limits.Release.{drop_permit-Represents, holders-middle, length-middle}

-- What the limits are for.
pub record IsWithin (max max_per_ip : ℕ) (held : List ConnectionPermit) : Type 0 where
  pub in_total : max ≢ 0 → length held ≤ max
  pub per_key : (key : IpAddr) → max_per_ip ≢ 0 → holders key held ≤ max_per_ip

not_full : (limit n : ℕ) → is_full limit n ≡ false → limit ≢ 0 → suc n ≤ limit
not_full limit n e ne = ground arith

granted-IsWithin :
    (max max_per_ip : ℕ) (held : List ConnectionPermit) (ip : IpAddr)
    → IsWithin max max_per_ip held
    → is_full max (length held) ≡ false
    → is_full max_per_ip (holders (limit_key ip) held) ≡ false
    → IsWithin max max_per_ip (granted max max_per_ip ip ∷ held)
unfolding holders
granted-IsWithin max max_per_ip held ip w room room_ip = record {
  in_total = not_full max (length held) room;
  per_key = λ key ne. elim (Bool-cases (ip_eq (limit_key ip) key)) [
    | inl same ↦ rw same (
        omega (
          arith,
          ap (λ k. holders k held) ((ip_eq_iff (limit_key ip) key).0 same),
          not_full max_per_ip (holders (limit_key ip) held) room_ip ne,
        ))
    | inr other ↦ rw other (w.per_key key ne)
  ];
}

answer-IsWithin :
    (max max_per_ip : ℕ) (held : List ConnectionPermit) (ip : IpAddr)
    → IsWithin max max_per_ip held
    → IsWithin max max_per_ip (held_behind (answer max max_per_ip held ip) held)
unfolding answer
answer-IsWithin max max_per_ip held ip w = elim (Bool-cases (is_full max (length held))) [
  | inl full ↦ rw full w
  | inr room ↦ elim (Bool-cases (is_full max_per_ip (holders (limit_key ip) held))) [
    | inl full_ip ↦ rw (room, full_ip) w
    | inr room_ip ↦ rw (room, room_ip) (granted-IsWithin max max_per_ip held ip w room room_ip)
  ]
]

middle-IsWithin :
    (max max_per_ip : ℕ) (xs : List ConnectionPermit) (p : ConnectionPermit)
    (ys : List ConnectionPermit)
    → IsWithin max max_per_ip (xs ++ p ∷ ys)
    → IsWithin max max_per_ip (xs ++ ys)
unfolding holders
middle-IsWithin max max_per_ip xs p ys w = record {
  in_total = λ ne. omega (arith, length-middle xs p ys, w.in_total ne);
  per_key = λ key ne. ground (arith, holders-middle key xs p ys, w.per_key key ne);
}

module _ {S : Type 0} (sem : Semaphore S) (max max_per_ip : ℕ) where
  -- The states that connections lead to, with the permits that are held: one is asked for, or one of
  -- those that are held is dropped, in any order.
  pub data Reached : ConnectionLimits S → List ConnectionPermit → Type 0 where
    start : Reached (new sem max max_per_ip) []
    asked :
        {l : ConnectionLimits S} {held : List ConnectionPermit} (ip : IpAddr)
        → Reached l held
        → Reached (try_acquire sem l ip).0 (held_behind (try_acquire sem l ip).1 held)
    dropped :
        {l : ConnectionLimits S} (xs : List ConnectionPermit) (p : ConnectionPermit)
        (ys : List ConnectionPermit)
        → Reached l (xs ++ p ∷ ys)
        → Reached (drop_permit sem l p) (xs ++ ys)

module _ {S : Type 0} (sem : Semaphore S) (laws : IsSemaphore sem) (max max_per_ip : ℕ) where
  -- In whatever order connections are asked for and dropped: those that are held are within both
  -- limits, and the counters are those of the connections held, with no entry that counts none.
  pub Reached-IsWithin :
      (l : ConnectionLimits S) (held : List ConnectionPermit)
      → Reached sem max max_per_ip l held
      → IsWithin max max_per_ip held × Represents sem max max_per_ip l held
  unfolding holders
  Reached-IsWithin _ _ start = (
    record { in_total = λ ne. omega arith; per_key = λ key ne. omega arith },
    new-Represents sem laws max max_per_ip,
  )
  Reached-IsWithin _ _ (asked {l} {held} ip r) =
      let (w, counted) = Reached-IsWithin l held r in
      let (answered, next) = try_acquire-Represents sem laws max max_per_ip l held ip counted in
      (rw answered (answer-IsWithin max max_per_ip held ip w), next)
  Reached-IsWithin _ _ (dropped {l} xs p ys r) =
      let (w, counted) = Reached-IsWithin l (xs ++ p ∷ ys) r in
      (
        middle-IsWithin max max_per_ip xs p ys w,
        drop_permit-Represents sem laws max max_per_ip l xs p ys counted,
      )
