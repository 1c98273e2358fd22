-- ===== src/Server/Limits/Refinement.antt =====
-- src/server/listener.rs: the counters as an account of the permits that are held.
use smtp_proxy_rs.Prelude.{
  ℕ, zero, suc, ◌+◌, ◌≡◌, ◌≢◌, refl, sym, ap, ◌∙◌, inl, inr, Bool, true, false, not, ◌&&◌, List, [],
  ◌∷◌, Option, none, some, arith, Bytes, codes, leb, ◌==◌, if◌then◌else◌, Result, ok, err, length,
  All, Bool-cases,
}
use smtp_proxy_rs.Prelude.Maps.{
  get, insert, remove, get-remove, get-remove-other, get-insert, get-insert-other,
}
use smtp_proxy_rs.Server.Limits.{
  IpAddr, ip_eq, limit_key, Semaphore, IsSemaphore, ConnectionLimits, ConnectionPermit,
  entry_or_zero, new, release_total, acquire_ip, try_acquire,
}
use smtp_proxy_rs.Server.Limits.Keys.{ip_eq_iff}

-- How many of the permits count against a key.
unfoldable pub holders : IpAddr → List ConnectionPermit → ℕ
holders key [] = 0
holders key (p ∷ ps) = let rest = holders key ps in if ip_eq p.ip key then suc rest else rest

-- What a map holds of a count: no entry is 0.
abbrev pub entry : ℕ → Option ℕ
entry zero = none
entry (suc n) = some (suc n)

-- A limit of 0 is none.
abbrev pub is_full : ℕ → ℕ → Bool
is_full limit n = not (limit == 0) && leb limit n

-- The permit of a connection.
abbrev pub granted : ℕ → ℕ → IpAddr → ConnectionPermit
granted max max_per_ip ip = record {
  total = not (max == 0);
  ip = limit_key ip;
  counted = not (max_per_ip == 0);
}

-- What `try_acquire` promises: a permit unless a limit is reached, the total one first.
unfoldable pub answer : ℕ → ℕ → List ConnectionPermit → IpAddr → Result Bytes ConnectionPermit
answer max max_per_ip held ip =
    if is_full max (length held)
    then err (codes "total")
    else if is_full max_per_ip (holders (limit_key ip) held)
    then err (codes "per-ip")
    else ok (granted max max_per_ip ip)

abbrev pub held_behind :
    Result Bytes ConnectionPermit → List ConnectionPermit → List ConnectionPermit
held_behind (err _) held = held
held_behind (ok p) held = p ∷ held

unfoldable pub Tallies : (IpAddr → ℕ) → List (IpAddr × ℕ) → Type 0
Tallies f counts = (key : IpAddr) → get ip_eq key counts ≡ entry (f key)

abbrev pub tally : ℕ → List ConnectionPermit → IpAddr → ℕ
tally max_per_ip held key = if max_per_ip == 0 then 0 else holders key held

pub get-insert-if :
    (k k' : IpAddr) (v : ℕ) (m : List (IpAddr × ℕ))
    → get ip_eq k' (insert ip_eq k v m) ≡ (if ip_eq k k' then some v else get ip_eq k' m)
get-insert-if k k' v m = elim (Bool-cases (ip_eq k k')) [
  | inl same ↦ rw (same, sym ((ip_eq_iff k k').0 same)) (get-insert ip_eq ip_eq_iff k v m)
  | inr other ↦ rw other (get-insert-other ip_eq ip_eq_iff k k' v m other)
]

pub get-remove-if :
    (k k' : IpAddr) (m : List (IpAddr × ℕ))
    → get ip_eq k' (remove ip_eq k m) ≡ (if ip_eq k k' then none else get ip_eq k' m)
get-remove-if k k' m = elim (Bool-cases (ip_eq k k')) [
  | inl same ↦ rw (same, sym ((ip_eq_iff k k').0 same)) (get-remove ip_eq ip_eq_iff k m)
  | inr other ↦ rw other (get-remove-other ip_eq ip_eq_iff k k' m other)
]

entry_other :
    (key other : IpAddr) (counts : List (IpAddr × ℕ)) (o : Option ℕ)
    → ip_eq key other ≡ false
    → get ip_eq other
        (elim o as (λ _. List (IpAddr × ℕ) × ℕ) [
          | some count ↦ (counts, count)
          | none ↦ (insert ip_eq key 0 counts, 0)
        ]).0
      ≡ get ip_eq other counts
entry_other key other counts none e = rw (get-insert-if key other 0 counts, e) refl
entry_other key other counts (some n) e = refl

entry_or_zero-other :
    (key other : IpAddr) (counts : List (IpAddr × ℕ))
    → ip_eq key other ≡ false
    → get ip_eq other (entry_or_zero key counts).0 ≡ get ip_eq other counts
unfolding entry_or_zero
entry_or_zero-other key other counts e = entry_other key other counts (get ip_eq key counts) e

entry_or_zero-count :
    (key : IpAddr) (counts : List (IpAddr × ℕ)) (n : ℕ)
    → get ip_eq key counts ≡ entry n
    → (entry_or_zero key counts).1 ≡ n
unfolding entry_or_zero
entry_or_zero-count key counts zero e = ground arith
entry_or_zero-count key counts (suc n) e = ground arith

entry_or_zero-map :
    (key : IpAddr) (counts : List (IpAddr × ℕ)) (n : ℕ)
    → get ip_eq key counts ≡ entry n
    → n ≢ 0
    → (entry_or_zero key counts).0 ≡ counts
unfolding entry_or_zero
entry_or_zero-map key counts zero e ne = absurd (ne refl)
entry_or_zero-map key counts (suc n) e ne = ground arith

-- One holder more of a key.
more_holders :
    (max_per_ip : ℕ) (p : ConnectionPermit) (held : List ConnectionPermit)
    (counts : List (IpAddr × ℕ))
    → (max_per_ip == 0) ≡ false
    → Tallies (tally max_per_ip held) counts
    → Tallies
        (tally max_per_ip (p ∷ held))
        (insert ip_eq p.ip (suc (holders p.ip held)) (entry_or_zero p.ip counts).0)
unfolding holders Tallies
more_holders max_per_ip p held counts ne h key =
    let grown = (entry_or_zero p.ip counts).0 in
    elim (Bool-cases (ip_eq p.ip key)) [
      | inl same ↦
          rw
            (
              get-insert-if p.ip key (suc (holders p.ip held)) grown,
              ne,
              same,
              (ip_eq_iff p.ip key).0 same,
            )
            refl
      | inr other ↦
          rw
            (
              get-insert-if p.ip key (suc (holders p.ip held)) grown,
              ne,
              other,
              entry_or_zero-other p.ip key counts other,
              h key,
              ne,
            )
            refl
    ]

module _ {S : Type 0} (sem : Semaphore S) where
  -- The slots that are left and those held are all there are.
  abbrev pub Slots : ℕ → Option S → ℕ → Type 0
  Slots max none held = max ≡ 0
  Slots max (some s) held = (max ≢ 0) × (sem.available_permits s + held ≡ max)

  -- The counters of limits of `max` and `max_per_ip` while the permits `held` are.
  pub record Represents (max max_per_ip : ℕ) (l : ConnectionLimits S) (held : List ConnectionPermit)
      : Type 0 where
    pub slots : Slots max l.total (length held)
    pub limit : l.per_ip_max ≡ max_per_ip
    pub counts : Tallies (tally max_per_ip held) l.per_ip
    pub permits : All (λ p. (p.total ≡ not (max == 0)) × (p.counted ≡ not (max_per_ip == 0))) held

module _ {S : Type 0} (sem : Semaphore S) (laws : IsSemaphore sem) where
  new-Slots : (max : ℕ) → Slots sem max (if not (max == 0) then some (sem.new max) else none) 0
  new-Slots max = elim (Bool-cases (max == 0)) [
    | inl e ↦ rw e (ground arith)
    | inr e ↦ rw e ((λ z. ground arith), omega (arith, laws.new_permits max))
  ]

  pub new-Represents :
      (max max_per_ip : ℕ) → Represents sem max max_per_ip (new sem max max_per_ip) []
  unfolding new holders get Tallies
  new-Represents max max_per_ip = record {
    slots = new-Slots max;
    limit = refl;
    counts = λ key. ground arith;
    permits = tt;
  }

  pub release-Slots :
      (max n : ℕ) (t : Option S)
      → Slots sem max t (suc n)
      → Slots sem max (if not (max == 0) then release_total sem t else t) n
  unfolding release_total
  release-Slots max n none h = ground arith
  release-Slots max n (some s) h = ground (arith, laws.one_back s)

  acquire_ip_lem :
      (max max_per_ip : ℕ) (l : ConnectionLimits S) (held : List ConnectionPermit) (ip : IpAddr)
      (reserved : Bool)
      → reserved ≡ not (max == 0)
      → Slots sem max l.total (suc (length held))
      → l.per_ip_max ≡ max_per_ip
      → Tallies (tally max_per_ip held) l.per_ip
      → All (λ p. (p.total ≡ not (max == 0)) × (p.counted ≡ not (max_per_ip == 0))) held
      → ((acquire_ip sem l reserved ip).1 ≡ (
          if is_full max_per_ip (holders (limit_key ip) held)
          then err (codes "per-ip")
          else ok (granted max max_per_ip ip)))
        × Represents sem max max_per_ip
            (acquire_ip sem l reserved ip).0
            (held_behind (acquire_ip sem l reserved ip).1 held)
  unfolding acquire_ip Tallies holders
  acquire_ip_lem max max_per_ip l held ip reserved res slots limit counts permits =
      elim (Bool-cases (max_per_ip == 0)) [
        | inl free ↦
            rw (res, limit, free)
              (
                refl,
                record {
                  slots = slots;
                  limit = refl;
                  counts = λ key. ground (arith, counts key);
                  permits = ground arith;
                },
              )
        | inr bound ↦
            let key = limit_key ip in
            let n = holders key held in
            let here = counts key ∙ ap (λ b. entry (if b then 0 else n)) bound in
            let count = entry_or_zero-count key l.per_ip n here in
            elim (Bool-cases (leb max_per_ip n)) [
              | inl full ↦
                  rw
                    (
                      res,
                      limit,
                      bound,
                      count,
                      full,
                      entry_or_zero-map key l.per_ip n here (λ e. ground arith),
                    )
                    (
                      refl,
                      record {
                        slots = release-Slots max (length held) l.total slots;
                        limit = refl;
                        counts = counts;
                        permits = permits;
                      },
                    )
              | inr room ↦
                  rw (res, limit, bound, count, room)
                    (
                      refl,
                      record {
                        slots = slots;
                        limit = refl;
                        counts =
                            more_holders max_per_ip (granted max max_per_ip ip) held l.per_ip bound
                              counts;
                        permits = ground arith;
                      },
                    )
            ]
      ]

  acquire_slot :
      (max max_per_ip : ℕ) (l : ConnectionLimits S) (held : List ConnectionPermit) (ip : IpAddr)
      (s : S) (o : Option S)
      → sem.try_acquire_owned s ≡ o
      → max ≢ 0
      → sem.available_permits s + length held ≡ max
      → Represents sem max max_per_ip (record l { total = some s }) held
      → let r = elim o as (λ _. ConnectionLimits S × Result Bytes ConnectionPermit) [
        | none ↦ (record l { total = some s }, err (codes "total"))
        | some s' ↦ acquire_ip sem (record l { total = some s' }) true ip
      ] in
        (r.1 ≡ answer max max_per_ip held ip)
        × Represents sem max max_per_ip r.0 (held_behind r.1 held)
  unfolding answer
  acquire_slot max max_per_ip l held ip s none e ne all r =
      let full = laws.none_left s e in ground arith
  acquire_slot max max_per_ip l held ip s (some s') e ne all r =
      let taken = laws.one_taken s s' e in
      let sure : true ≡ not (max == 0) = ground arith in
      let room : is_full max (length held) ≡ false = ground arith in
      rw room (
        acquire_ip_lem max max_per_ip (record l { total = some s' }) held ip true sure
          (ne, omega arith) r.limit r.counts r.permits)

  acquire_total :
      (max max_per_ip : ℕ) (t : Option S) (l : ConnectionLimits S) (held : List ConnectionPermit)
      (ip : IpAddr)
      → Represents sem max max_per_ip (record l { total = t }) held
      → ((try_acquire sem (record l { total = t }) ip).1 ≡ answer max max_per_ip held ip)
        × Represents sem max max_per_ip
            (try_acquire sem (record l { total = t }) ip).0
            (held_behind (try_acquire sem (record l { total = t }) ip).1 held)
  unfolding try_acquire answer
  acquire_total max max_per_ip none l held ip r =
      let sure : false ≡ not (max == 0) = ground (arith, r.slots) in
      let room : is_full max (length held) ≡ false = ground (arith, r.slots) in
      rw room (
        acquire_ip_lem max max_per_ip (record l { total = none }) held ip false sure r.slots r.limit
          r.counts r.permits)
  acquire_total max max_per_ip (some s) l held ip r =
      acquire_slot max max_per_ip l held ip s (sem.try_acquire_owned s) refl r.slots.0 r.slots.1 r

  -- While the permits `held` are: `try_acquire` answers as is promised, and its counters are then those
  -- of the permits that are held.
  pub try_acquire-Represents :
      (max max_per_ip : ℕ) (l : ConnectionLimits S) (held : List ConnectionPermit) (ip : IpAddr)
      → Represents sem max max_per_ip l held
      → ((try_acquire sem l ip).1 ≡ answer max max_per_ip held ip)
        × Represents sem max max_per_ip
            (try_acquire sem l ip).0
            (held_behind (try_acquire sem l ip).1 held)
  try_acquire-Represents max max_per_ip l held ip r =
      acquire_total max max_per_ip l.total l held ip r
