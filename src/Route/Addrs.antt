-- ===== src/Route/Addrs.antt =====
-- `ParseAddrs` of route/bsdroute/bsdroute_bsd.go. A pointer into the buffer is the bytes from there
-- to the end of the buffer. RTAX_MAX and SizeofSockaddrInet4 are constants of the system.
use cubic_go_playground.Prelude.{
  ℕ, zero, suc, ◌/◌, ◌%◌, ◌^◌, Bool, true, false, not, List, [], ◌∷◌, Option, none, some, Bytes,
  length, set, drop, replicate, leb, ltb, ◌==◌, if◌then◌else◌,
}
use cubic_go_playground.Route.Align.{rta_align}

unfoldable pub has_bit : ℕ → ℕ → Bool
has_bit addrs i = not (addrs / 2 ^ i % 2 == 0)

-- `b[0]`, which is read only of a buffer that is not empty.
abbrev pub first_byte : Bytes → ℕ
first_byte [] = 0
first_byte (n ∷ b) = n

abbrev pub store : ℕ → ℕ → Bytes → List (Option Bytes) → List (Option Bytes)
store sizeof_sockaddr_inet4 i b dst =
    if leb sizeof_sockaddr_inet4 (length b) then set dst i (some b) else dst

module _ (align_to sizeof_sockaddr_inet4 : ℕ) where
  -- `k` of the addresses are left, and `i` is the number of the next one.
  unfoldable pub parse_addrs_loop : ℕ → ℕ → ℕ → List (Option Bytes) → Bytes → List (Option Bytes)
  parse_addrs_loop zero i addrs dst b = dst
  parse_addrs_loop (suc k) i addrs dst b = elim (has_bit addrs i) [
    | false ↦ parse_addrs_loop k (suc i) addrs dst b
    | true ↦ elim (length b == 0) [
      | true ↦ store sizeof_sockaddr_inet4 i b dst
      | false ↦
          let aligned_len = rta_align align_to (first_byte b) in
          elim (ltb (length b) aligned_len) [
            | true ↦ store sizeof_sockaddr_inet4 i b dst
            | false ↦
                parse_addrs_loop k (suc i) addrs (store sizeof_sockaddr_inet4 i b dst)
                  (drop aligned_len b)
          ]
    ]
  ]

  unfoldable pub parse_addrs : ℕ → Bytes → ℕ → List (Option Bytes)
  parse_addrs rtax_max b addrs = parse_addrs_loop rtax_max 0 addrs (replicate rtax_max none) b
