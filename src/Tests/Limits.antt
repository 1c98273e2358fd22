-- ===== src/Tests/Limits.antt =====
-- src/server/listener.rs on concrete inputs, with a semaphore that counts.
use smtp_proxy_rs.Prelude.{
  ℕ, zero, suc, ◌≡◌, refl, sym, [], ◌∷◌, Option, none, some, arith, codes, err,
}
use smtp_proxy_rs.Server.Limits.{
  IpAddr, v4, v6, Semaphore, IsSemaphore, ConnectionLimits, ConnectionPermit, new, try_acquire,
  drop_permit,
}
use smtp_proxy_rs.Server.Limits.Bounds.{IsWithin, start, asked, Reached-IsWithin}
use smtp_proxy_rs.Server.Limits.Refinement.{
  Represents, answer, granted, held_behind, new-Represents, try_acquire-Represents,
}
use smtp_proxy_rs.Server.Limits.Release.{drop_permit-Represents}

abbrev take_one : ℕ → Option ℕ
take_one zero = none
take_one (suc n) = some n

abbrev counting : Semaphore ℕ
counting = record {
  new = λ n. n;
  try_acquire_owned = take_one;
  release = suc;
  available_permits = λ n. n;
}

none_left : (n : ℕ) → take_one n ≡ none → n ≡ 0
none_left zero e = refl
none_left (suc n) e = cc

one_taken : (n n' : ℕ) → take_one n ≡ some n' → n ≡ suc n'
one_taken zero n' e = cc
one_taken (suc n) n' e = ground arith

counting-IsSemaphore : IsSemaphore counting
counting-IsSemaphore = record {
  new_permits = λ n. refl;
  none_left = none_left;
  one_taken = one_taken;
  one_back = λ n. refl;
}

abbrev home : IpAddr
home = v4 (192 ∷ 0 ∷ 2 ∷ 1 ∷ [])

-- The same address, mapped into IPv6.
abbrev home_mapped : IpAddr
home_mapped = v6 (0 ∷ 0 ∷ 0 ∷ 0 ∷ 0 ∷ 0 ∷ 0 ∷ 0 ∷ 0 ∷ 0 ∷ 0xff ∷ 0xff ∷ 192 ∷ 0 ∷ 2 ∷ 1 ∷ [])

abbrev one_open : ConnectionLimits ℕ
one_open = (try_acquire counting (new counting 3 1) home).0

mapped_is_the_same : (try_acquire counting one_open home_mapped).1 ≡ err (codes "per-ip")
unfolding try_acquire new smtp_proxy_rs.Server.Limits.ip_eq
mapped_is_the_same = refl

try_acquire-Represents_example :
    ((try_acquire counting (new counting 3 1) home).1 ≡ answer 3 1 [] home)
    × Represents counting 3 1
        (try_acquire counting (new counting 3 1) home).0
        (held_behind (try_acquire counting (new counting 3 1) home).1 [])
try_acquire-Represents_example =
    try_acquire-Represents counting counting-IsSemaphore 3 1 (new counting 3 1) [] home
      (new-Represents counting counting-IsSemaphore 3 1)

abbrev granted_home : ConnectionPermit
granted_home = granted 3 1 home

granted_first : held_behind (try_acquire counting (new counting 3 1) home).1 [] ≡ granted_home ∷ []
unfolding try_acquire new
granted_first = refl

one_open-Represents : Represents counting 3 1 one_open (granted_home ∷ [])
one_open-Represents =
    rw (sym granted_first)
      (try_acquire-Represents counting counting-IsSemaphore 3 1 (new counting 3 1) [] home
        (new-Represents counting counting-IsSemaphore 3 1)).1

drop_permit-Represents_example :
    Represents counting 3 1 (drop_permit counting one_open granted_home) []
drop_permit-Represents_example =
    drop_permit-Represents counting counting-IsSemaphore 3 1 one_open [] granted_home []
      one_open-Represents

Reached-IsWithin_example :
    IsWithin 3 1 (held_behind (try_acquire counting (new counting 3 1) home).1 [])
    × Represents counting 3 1 one_open
        (held_behind (try_acquire counting (new counting 3 1) home).1 [])
Reached-IsWithin_example =
    Reached-IsWithin counting counting-IsSemaphore 3 1 one_open
      (held_behind (try_acquire counting (new counting 3 1) home).1 []) (asked home start)
