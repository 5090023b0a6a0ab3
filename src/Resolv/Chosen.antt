-- ===== src/Resolv/Chosen.antt =====
-- Which address resolv/main.go chooses, and when it fails.
use cubic_go_playground.Prelude.{
  ℕ, ◌≡◌, ◌≢◌, refl, ap, ◌∙◌, map, Bool, true, not, ◌||◌, List, [], ◌∷◌, ◌++◌, Bytes, ◌==◌, ==_iff,
  if◌then◌else◌, codes, arith,
}
use cubic_go_playground.Prelude.Result.{Result, err, ok}
use cubic_go_playground.Ip.Endpoint.{Addr, is4, is4_in6}
use cubic_go_playground.Resolv.Family.{
  address_family_unspecified, address_family_ipv4, address_family_ipv6, set_family, same_text,
}
use cubic_go_playground.Resolv.Lookup.{
  Outcome, found, lookup_failed, invalid_family, panics, first_ipv4, first_ipv6, or_at_0,
  resolve_addr, Exit, exit_of, prints, exit_1, exit_2, crashes, main,
}

-- Whether an address is of the family; any is, if no family is preferred.
abbrev pub is_of : ℕ → Addr → Bool
is_of af ip =
    if af == address_family_ipv4
    then is4 ip || is4_in6 ip
    else if af == address_family_ipv6
    then not (is4 ip || is4_in6 ip)
    else true

-- The first one of the family, or else the one that is given.
abbrev pub preferred : ℕ → Addr → List Addr → Addr
preferred af other [] = other
preferred af other (ip ∷ ips) =
    let rest = preferred af other ips in if is_of af ip then ip else rest

abbrev pub is_known : ℕ → Bool
is_known af =
    (af == address_family_unspecified)
    || ((af == address_family_ipv4) || (af == address_family_ipv6))

pub data Family : Type 0 where
  ipv4 : Family
  ipv6 : Family

abbrev pub value_of : Family → Bytes
value_of ipv4 = codes "4"
value_of ipv6 = codes "6"

-- The one that is named last.
abbrev pub last_family : ℕ → List Family → ℕ
last_family af [] = af
last_family af (ipv4 ∷ families) = last_family 4 families
last_family af (ipv6 ∷ families) = last_family 6 families

same_text-eq : (s t : Bytes) → same_text s t ≡ true → s ≡ t
unfolding same_text
same_text-eq [] [] h = refl
same_text-eq [] (y ∷ t) h = cc
same_text-eq (x ∷ s) [] h = cc
same_text-eq (x ∷ s) (y ∷ t) h = ground (arith, ==_iff x y, same_text-eq s t)

module _ (E : Type 0) where
  -- What the resolver's answer and the preference ask for.
  abbrev pub Answers : Result E (List Addr) → ℕ → Outcome E → Type 0
  Answers (err e) af o = o ≡ lookup_failed e
  Answers (ok []) af o = o ≡ panics
  Answers (ok (ip ∷ [])) af o = o ≡ found ip
  Answers (ok (ip ∷ (ip' ∷ ips))) af o =
      if is_known af then o ≡ found (preferred af ip (ip ∷ ip' ∷ ips)) else o ≡ invalid_family af

  first_ipv4-preferred :
      (other : Addr) (others ips : List Addr)
      → or_at_0 E (first_ipv4 E ips) (other ∷ others) ≡ found (preferred 4 other ips)
  unfolding first_ipv4
  first_ipv4-preferred other others [] = refl
  first_ipv4-preferred other others (ip ∷ ips) =
      ground (arith, first_ipv4-preferred other others ips)

  first_ipv6-preferred :
      (other : Addr) (others ips : List Addr)
      → or_at_0 E (first_ipv6 E ips) (other ∷ others) ≡ found (preferred 6 other ips)
  unfolding first_ipv6
  first_ipv6-preferred other others [] = refl
  first_ipv6-preferred other others (ip ∷ ips) =
      ground (arith, first_ipv6-preferred other others ips)

  -- `ResolveAddr` returns the resolver's error, panics if there is neither an error nor an address,
  -- and returns the address if there is one only, whatever the preference. Of more addresses it
  -- returns the first one of the preferred family, or else the first one, and an error if the
  -- preference is no family.
  pub resolve_addr-Answers :
      (answer : Result E (List Addr)) (af : ℕ) → Answers answer af (resolve_addr E answer af)
  unfolding resolve_addr
  resolve_addr-Answers (err e) af = refl
  resolve_addr-Answers (ok []) af = refl
  resolve_addr-Answers (ok (ip ∷ [])) af = refl
  resolve_addr-Answers (ok (ip ∷ (ip' ∷ ips))) af =
      let all : List Addr = ip ∷ ip' ∷ ips in
      ground
        (arith, first_ipv4-preferred ip (ip' ∷ ips) all, first_ipv6-preferred ip (ip' ∷ ips) all)

  -- What is printed if no value of the flag is refused.
  abbrev pub reports : Result E (List Addr) → ℕ → Exit E
  reports (err e) af = exit_1
  reports (ok []) af = crashes
  reports (ok (ip ∷ ips)) af = prints (preferred af ip (ip ∷ ips))

  exit_of-Answers :
      (answer : Result E (List Addr)) (af : ℕ) (o : Outcome E)
      → is_known af ≡ true
      → Answers answer af o
      → exit_of E o ≡ reports answer af
  exit_of-Answers (err e) af o known h = ap (exit_of E) h
  exit_of-Answers (ok []) af o known h = ap (exit_of E) h
  exit_of-Answers (ok (ip ∷ [])) af o known h = ap (exit_of E) h ∙ ground arith
  exit_of-Answers (ok (ip ∷ (ip' ∷ ips))) af o known h = ground arith

  main-accepted :
      (inet : ℕ) (families : List Family) (answer : Result E (List Addr))
      → is_known inet ≡ true
      → main E inet (map value_of families) answer ≡ reports answer (last_family inet families)
  unfolding main set_family same_text
  main-accepted inet [] answer known =
      exit_of-Answers answer inet (resolve_addr E answer inet) known
        (resolve_addr-Answers answer inet)
  main-accepted inet (ipv4 ∷ families) answer known = main-accepted 4 families answer refl
  main-accepted inet (ipv6 ∷ families) answer known = main-accepted 6 families answer refl

  main-refused :
      (inet : ℕ) (families : List Family) (value : Bytes) (values : List Bytes)
      (answer : Result E (List Addr))
      → value ≢ value_of ipv4
      → value ≢ value_of ipv6
      → main E inet (map value_of families ++ value ∷ values) answer ≡ exit_2
  unfolding main set_family
  main-refused inet [] value values answer ne4 ne6 =
      ground (arith, same_text-eq value (value_of ipv4), same_text-eq value (value_of ipv6))
  main-refused inet (ipv4 ∷ families) value values answer ne4 ne6 =
      main-refused 4 families value values answer ne4 ne6
  main-refused inet (ipv6 ∷ families) value values answer ne4 ne6 =
      main-refused 6 families value values answer ne4 ne6

-- If each value of the flag is 4 or 6, then the program prints the first address of the family that
-- the last one names, or else the first address; it exits with 1 on an error of the resolver only,
-- and panics only if that has neither an error nor an address. At a value that is neither, whatever
-- is around it, it exits with 2.
pub main-reports :
    (E : Type 0) (families : List Family) (value : Bytes) (values : List Bytes)
    (answer : Result E (List Addr))
    → value ≢ value_of ipv4
    → value ≢ value_of ipv6
    → (main E 0 (map value_of families) answer ≡ reports E answer (last_family 0 families))
      × (main E 0 (map value_of families ++ value ∷ values) answer ≡ exit_2)
main-reports E families value values answer ne4 ne6 =
    (main-accepted E 0 families answer refl, main-refused E 0 families value values answer ne4 ne6)
