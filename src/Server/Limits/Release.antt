-- ===== src/Server/Limits/Release.antt =====
-- src/server/listener.rs: the counters behind the drop of a permit.
use smtp_proxy_rs.Prelude.{
  ℕ, zero, suc, ◌-◌, ◌≡◌, refl, sym, ap, ◌∙◌, inl, inr, not, List, [], ◌∷◌, ◌++◌, none, some, arith,
  ◌==◌, if◌then◌else◌, length, All, Bool-cases,
}
use smtp_proxy_rs.Prelude.Maps.{get, insert, remove}
use smtp_proxy_rs.Server.Limits.{
  IpAddr, ip_eq, Semaphore, IsSemaphore, ConnectionLimits, ConnectionPermit, release_total,
  drop_permit,
}
use smtp_proxy_rs.Server.Limits.Keys.{ip_eq_iff}
use smtp_proxy_rs.Server.Limits.Refinement.{
  holders, entry, Tallies, tally, Represents, Slots, release-Slots, get-insert-if, get-remove-if,
}

pub holders-middle :
    (key : IpAddr) (xs : List ConnectionPermit) (p : ConnectionPermit) (ys : List ConnectionPermit)
    → holders key (xs ++ p ∷ ys) ≡ holders key (p ∷ (xs ++ ys))
unfolding holders
holders-middle key [] p ys = refl
holders-middle key (x ∷ xs) p ys = ground (arith, holders-middle key xs p ys)

pub length-middle :
    (xs : List ConnectionPermit) (p : ConnectionPermit) (ys : List ConnectionPermit)
    → length (xs ++ p ∷ ys) ≡ suc (length (xs ++ ys))
length-middle [] p ys = refl
length-middle (x ∷ xs) p ys = ap suc (length-middle xs p ys)

All-middle :
    (P : ConnectionPermit → Type 0) (xs : List ConnectionPermit) (p : ConnectionPermit)
    (ys : List ConnectionPermit)
    → All P (xs ++ p ∷ ys)
    → P p × All P (xs ++ ys)
All-middle P [] p ys h = h
All-middle P (x ∷ xs) p ys h = let (here, more) = All-middle P xs p ys h.1 in (here, (h.0, more))

positive : (n : ℕ) → (if n == 0 then none else some n) ≡ entry n
positive zero = refl
positive (suc n) = ground arith

-- A holder of the key less.
fewer_holders :
    (p : ConnectionPermit) (held : List ConnectionPermit) (counts : List (IpAddr × ℕ)) (n : ℕ)
    → Tallies (λ key. holders key (p ∷ held)) counts
    → n ≡ holders p.ip held
    → Tallies
        (λ key. holders key held)
        (if n == 0 then remove ip_eq p.ip counts else insert ip_eq p.ip n counts)
unfolding holders Tallies
fewer_holders p held counts n h e key = elim (Bool-cases (ip_eq p.ip key)) [
  | inl same ↦
      let here = ap (λ k. holders k held) ((ip_eq_iff p.ip key).0 same) in
      ground (arith, get-remove-if p.ip key counts, get-insert-if p.ip key n counts, positive n)
  | inr other ↦
      ground (arith, get-remove-if p.ip key counts, get-insert-if p.ip key n counts, h key)
]

module _ {S : Type 0} (sem : Semaphore S) (laws : IsSemaphore sem) where
  drop_first :
      (max max_per_ip : ℕ) (l : ConnectionLimits S) (p : ConnectionPermit)
      (held : List ConnectionPermit)
      → Slots sem max l.total (suc (length held))
      → l.per_ip_max ≡ max_per_ip
      → Tallies (tally max_per_ip (p ∷ held)) l.per_ip
      → p.total ≡ not (max == 0)
      → p.counted ≡ not (max_per_ip == 0)
      → All (λ p. (p.total ≡ not (max == 0)) × (p.counted ≡ not (max_per_ip == 0))) held
      → Represents sem max max_per_ip (drop_permit sem l p) held
  unfolding drop_permit Tallies
  drop_first max max_per_ip l p held slots limit counts t c permits =
      let n = holders p.ip held in
      let left : Slots sem max (if p.total then release_total sem l.total else l.total)
          (length held) =
        rw t (release-Slots sem laws max (length held) l.total slots) in
      elim (Bool-cases (max_per_ip == 0)) [
        | inl free ↦
            rw (c, free)
              (record {
                slots = left;
                limit = limit;
                counts = λ key. ground (arith, counts key);
                permits = permits;
              })
        | inr bound ↦
            let all : Tallies (λ key. holders key (p ∷ held)) l.per_ip =
              λ key. counts key ∙ ap (λ b. entry (if b then 0 else holders key (p ∷ held))) bound in
            let own : get ip_eq p.ip l.per_ip ≡ some (suc n) =
              all p.ip
              ∙ (unfold holders in
                  ap (λ b. entry (if b then suc n else n)) ((ip_eq_iff p.ip p.ip).1 refl)) in
            let less : suc n - 1 ≡ n = omega arith in
            let fewer = fewer_holders p held l.per_ip n all refl in
            elim (Bool-cases (n == 0)) [
              | inl last ↦
                  rw (c, bound, own, less, last)
                    (record {
                      slots = left;
                      limit = limit;
                      counts = λ key. ground (arith, fewer key);
                      permits = permits;
                    })
              | inr others ↦
                  rw (c, bound, own, less, others)
                    (record {
                      slots = left;
                      limit = limit;
                      counts = λ key. ground (arith, fewer key);
                      permits = permits;
                    })
            ]
      ]

  -- The counters are again those of the permits that are held, whichever of them is dropped.
  pub drop_permit-Represents :
      (max max_per_ip : ℕ) (l : ConnectionLimits S) (xs : List ConnectionPermit)
      (p : ConnectionPermit) (ys : List ConnectionPermit)
      → Represents sem max max_per_ip l (xs ++ p ∷ ys)
      → Represents sem max max_per_ip (drop_permit sem l p) (xs ++ ys)
  unfolding Tallies
  drop_permit-Represents max max_per_ip l xs p ys r =
      let (here, more) =
        All-middle (λ q. (q.total ≡ not (max == 0)) × (q.counted ≡ not (max_per_ip == 0))) xs p ys
          r.permits in
      drop_first max max_per_ip l p (xs ++ ys) (rw (sym (length-middle xs p ys)) r.slots) r.limit
        (λ key.
          r.counts key
          ∙ ap (λ n. entry (if max_per_ip == 0 then 0 else n)) (holders-middle key xs p ys))
        here.0 here.1 more
