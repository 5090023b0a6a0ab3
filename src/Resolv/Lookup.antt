-- ===== src/Resolv/Lookup.antt =====
-- `ResolveAddr` of resolv/main.go. What the resolver of package net gives is a parameter: addresses
-- or an error. What is printed of them on the way is left out.
use cubic_go_playground.Prelude.{
  ℕ, ltb, length, List, [], ◌∷◌, Bytes, ◌==◌, if◌then◌else◌, Option, none, some, not, ◌&&◌, ◌||◌,
}
use cubic_go_playground.Prelude.Result.{Result, err, ok}
use cubic_go_playground.Ip.Endpoint.{Addr, is4, is4_in6}
use cubic_go_playground.Resolv.Family.{
  address_family_unspecified, address_family_ipv4, address_family_ipv6, set_family,
}

module _ (E : Type 0) where
  -- How a call ends; `LookupNetIP` with an error has no addresses.
  pub data Outcome : Type 0 where
    found : Addr → Outcome
    lookup_failed : E → Outcome
    invalid_family : ℕ → Outcome
    panics : Outcome

  -- The loops over the addresses for a preferred family.
  unfoldable pub first_ipv4 : List Addr → Option Addr
  first_ipv4 [] = none
  first_ipv4 (ip ∷ ips) =
      let rest = first_ipv4 ips in if is4 ip || is4_in6 ip then some ip else rest

  unfoldable pub first_ipv6 : List Addr → Option Addr
  first_ipv6 [] = none
  first_ipv6 (ip ∷ ips) =
      let rest = first_ipv6 ips in if not (is4 ip) && not (is4_in6 ip) then some ip else rest

  -- `return ips[0], nil`.
  abbrev pub at_0 : List Addr → Outcome
  at_0 [] = panics
  at_0 (ip ∷ ips) = found ip

  abbrev pub or_at_0 : Option Addr → List Addr → Outcome
  or_at_0 none ips = at_0 ips
  or_at_0 (some ip) ips = found ip

  unfoldable pub resolve_addr : Result E (List Addr) → ℕ → Outcome
  resolve_addr (err e) preferred_af = lookup_failed e
  resolve_addr (ok ips) preferred_af =
      if ltb 1 (length ips)
      then if preferred_af == address_family_unspecified
        then at_0 ips
        else if preferred_af == address_family_ipv4
        then or_at_0 (first_ipv4 ips) ips
        else if preferred_af == address_family_ipv6
        then or_at_0 (first_ipv6 ips) ips
        else invalid_family preferred_af
      else at_0 ips

  pub data Exit : Type 0 where
    prints : Addr → Exit
    exit_1 : Exit
    exit_2 : Exit
    crashes : Exit

  abbrev pub exit_of : Outcome → Exit
  exit_of (found ip) = prints ip
  exit_of (lookup_failed e) = exit_1
  exit_of (invalid_family af) = exit_1
  exit_of panics = crashes

  -- `main`, for the values that its arguments give the flag, one after the other. `flag.Parse` exits
  -- at a value that `Set` refuses.
  unfoldable pub main : ℕ → List Bytes → Result E (List Addr) → Exit
  main inet [] answer = exit_of (resolve_addr answer inet)
  main inet (value ∷ values) answer = elim (set_family value) [
    | err text ↦ exit_2
    | ok af ↦ main af values answer
  ]
