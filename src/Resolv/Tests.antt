-- ===== src/Resolv/Tests.antt =====
-- Runs of the model of resolv/main.go, and its theorems at concrete inputs.
use cubic_go_playground.Prelude.{◌≡◌, refl, map, List, [], ◌∷◌, ◌++◌, codes, itoa}
use cubic_go_playground.Prelude.Result.{Result, ok}
use cubic_go_playground.Ip.Endpoint.{Addr, z4, z6noz, same_zone, is4, is4_in6}
use cubic_go_playground.Resolv.Family.{string, set_family, same_text}
use cubic_go_playground.Resolv.Lookup.{
  found, invalid_family, first_ipv4, resolve_addr, prints, exit_2, main,
}
use cubic_go_playground.Resolv.Chosen.{
  Answers, resolve_addr-Answers, ipv4, ipv6, value_of, last_family, reports, main-reports,
}

abbrev hosts : List Addr
hosts =
    record { ip = 1; z = z6noz }
    ∷ record { ip = 0xffff01020304; z = z4 }
    ∷ record { ip = 2; z = z6noz }
    ∷ []

abbrev answer : Result Unit (List Addr)
answer = ok hosts

string_ipv6 : string 6 ≡ codes "6"
unfolding string itoa
string_ipv6 = refl

resolve_addr_ipv4 : resolve_addr Unit answer 4 ≡ found (record { ip = 0xffff01020304; z = z4 })
unfolding resolve_addr first_ipv4 is4 is4_in6 same_zone
resolve_addr_ipv4 = refl

resolve_addr_bad : resolve_addr Unit answer 5 ≡ invalid_family 5
unfolding resolve_addr
resolve_addr_bad = refl

-- The last value counts.
main_twice :
    main Unit 0 (codes "6" ∷ codes "4" ∷ []) answer
    ≡ prints (record { ip = 0xffff01020304; z = z4 })
unfolding main set_family same_text resolve_addr first_ipv4 is4 is4_in6 same_zone
main_twice = refl

resolve_addr-Answers_example : Answers Unit answer 6 (resolve_addr Unit answer 6)
resolve_addr-Answers_example = resolve_addr-Answers Unit answer 6

main-reports_example :
    (main Unit 0 (map value_of (ipv6 ∷ ipv4 ∷ [])) answer
      ≡ reports Unit answer (last_family 0 (ipv6 ∷ ipv4 ∷ [])))
    × (main Unit 0 (map value_of (ipv6 ∷ ipv4 ∷ []) ++ codes "0" ∷ []) answer ≡ exit_2)
main-reports_example =
    main-reports Unit (ipv6 ∷ ipv4 ∷ []) (codes "0") [] answer (λ e. cc) (λ e. cc)
