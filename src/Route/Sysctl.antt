-- ===== src/Route/Sysctl.antt =====
-- `SysctlGetBytes` of route/bsdroute/bsdroute_bsd.go. What the system answers is a parameter: in the
-- round of that number, to the call for the size, and to the second call, with a buffer of that
-- capacity, or with none: `b` is nil as long as its capacity is 0, `unsafe.SliceData` gives nil for
-- it, and that call asks for the size again. `slices.Grow` on an empty slice is a parameter too: the
-- capacity that there is and the room that is asked for to the capacity from then on.
use cubic_go_playground.Prelude.{
  ℕ, zero, suc, ◌+◌, ◌≤◌, ◌<◌, ◌≡◌, ◌⊎◌, inl, inr, true, false, [], Bytes, length, ltb, ◌==◌,
  ==_refl, ap, subst, ◌∙◌, Bool-cases, if◌then◌else◌, arith,
}
use cubic_go_playground.Prelude.Result.{Result, err, ok}

pub record Answers : Type 0 where
  pub size : ℕ → Result ℕ ℕ
  pub fill : (round cap : ℕ) → Result ℕ Bytes
  pub size_again : ℕ → Result ℕ ℕ

pub data Fetched : Type 0 where
  fetched : Bytes → Fetched
  failed : ℕ → Fetched
  out_of_range : Fetched
  out_of_rounds : Fetched

-- The second call: the value of `n` behind it, and what it has written.
unfoldable pub second_call : Answers → (round cap : ℕ) → Result ℕ (ℕ × Bytes)
second_call sys round zero = elim (sys.size_again round) [ err e ↦ err e | ok n ↦ ok (n, []) ]
second_call sys round (suc cap) = elim (sys.fill round (suc cap)) [
  | err e ↦ err e
  | ok b ↦ ok (length b, b)
]

module _ (enomem : ℕ) (grow : ℕ → ℕ → ℕ) (sys : Answers) where
  -- The loop, with the number of the round and the capacity of `b`, whose length stays 0.
  unfoldable pub sysctl_loop : ℕ → ℕ → ℕ → Fetched
  sysctl_loop zero round cap = out_of_rounds
  sysctl_loop (suc fuel) round cap = elim (sys.size round) [
    | err e ↦ failed e
    | ok n ↦
        let cap' = grow cap n in
        elim (second_call sys round cap') [
          | err e ↦ elim (e == enomem) [
            | true ↦ sysctl_loop fuel (suc round) cap'
            | false ↦ failed e
          ]
          | ok (n', b) ↦ if ltb cap' n' then out_of_range else fetched b
        ]
  ]

  unfoldable pub sysctl_get_bytes : ℕ → Fetched
  sysctl_get_bytes fuel = sysctl_loop fuel 0 0

-- What is documented of `slices.Grow`, and of sysctl on something that changes: it tells a size, and
-- fills a buffer that is large enough for what there is; for a smaller one it says ENOMEM.
abbrev pub Grows : (ℕ → ℕ → ℕ) → Type 0
Grows grow = (cap n : ℕ) → (cap ≤ grow cap n) × (n ≤ grow cap n)

abbrev pub Tells : ℕ → Answers → (ℕ → ℕ) → (ℕ → Bytes) → Type 0
Tells enomem sys told content =
    (round : ℕ)
    → (sys.size round ≡ ok (told round))
      × ((cap : ℕ)
          → sys.fill round (suc cap)
            ≡ (if ltb (suc cap) (length (content round)) then err enomem else ok (content round)))

module _ (enomem : ℕ) (grow : ℕ → ℕ → ℕ) (sys : Answers) (told : ℕ → ℕ) (content : ℕ → Bytes)
    (grows : Grows grow) (tells : Tells enomem sys told content) where
  second_call-fill :
      (round cap : ℕ)
      → 0 < cap
      → second_call sys round cap ≡ (
          if ltb cap (length (content round))
          then err enomem
          else ok (length (content round), content round))
  unfolding second_call
  second_call-fill round zero some = absurd (omega arith)
  second_call-fill round (suc cap) some = ground (arith, (tells round).1 cap)

  round-cases :
      (fuel round cap : ℕ)
      → 0 < grow cap (told round)
      → (sysctl_loop enomem grow sys (suc fuel) round cap ≡ fetched (content round))
        ⊎ ((grow cap (told round) < length (content round))
            × (sysctl_loop enomem grow sys (suc fuel) round cap
                ≡ sysctl_loop enomem grow sys fuel (suc round) (grow cap (told round))))
  unfolding sysctl_loop
  round-cases fuel round cap some =
      ground (
        arith,
        (tells round).0,
        second_call-fill round (grow cap (told round)) some,
        ==_refl enomem,
      )

  -- Whether the buffer is large enough for what there is in round `k`, now or from some round on.
  abbrev Enough : (k round cap : ℕ) → Type 0
  Enough k round cap =
      (length (content k) ≤ cap) ⊎ ((j : ℕ) × (round ≤ j) × (j ≤ k) × (length (content k) ≤ told j))

  Enough-next :
      (k round cap : ℕ) → Enough k round cap → Enough k (suc round) (grow cap (told round))
  Enough-next k round cap (inl le) = inl (omega (arith, grows cap (told round)))
  Enough-next k round cap (inr (j, from, to, le)) = elim (Bool-cases (j == round)) [
    | inl same ↦
        let at : told j ≡ told round = ap told (ground arith) in
        inl (omega (arith, grows cap (told round), at))
    | inr other ↦ inr (j, ground arith, to, le)
  ]

  Enough-last : (k cap : ℕ) → Enough k k cap → length (content k) ≤ grow cap (told k)
  Enough-last k cap (inl le) = omega (arith, grows cap (told k))
  Enough-last k cap (inr (j, from, to, le)) =
      let at : told j ≡ told k = ap told (omega arith) in omega (arith, grows cap (told k), at)

  sysctl_loop-fetched :
      (d round k cap : ℕ)
      → k ≡ round + d
      → Enough k round cap
      → 0 < grow cap (told round)
      → (i : ℕ) × (i ≤ k) × (sysctl_loop enomem grow sys (suc d) round cap ≡ fetched (content i))
  sysctl_loop-fetched zero round k cap last enough some =
      let same : k ≡ round = omega arith in
      let fits : length (content round) ≤ grow cap (told round) =
        Enough-last round cap (subst (λ k. Enough k round cap) same enough) in
      elim (round-cases 0 round cap some) [
        | inl done ↦ (round, omega arith, done)
        | inr (small, _) ↦ absurd (omega arith)
      ]
  sysctl_loop-fetched (suc d) round k cap last enough some =
      elim (round-cases (suc d) round cap some) [
        | inl done ↦ (round, omega arith, done)
        | inr (small, again) ↦
            let (i, le, done) =
              sysctl_loop-fetched d (suc round) k (grow cap (told round)) (omega arith)
                (Enough-next k round cap enough)
                (omega (arith, some, grows (grow cap (told round)) (told (suc round)))) in
            (i, le, again ∙ done)
      ]

-- Where the size told at first is 0 and there is a byte when it is asked for again, the slice is out
-- of range, and where there is still none, it is empty.
sysctl_get_bytes-nil :
    (enomem : ℕ) (grow : ℕ → ℕ → ℕ) (sys : Answers) (fuel n : ℕ)
    → sys.size 0 ≡ ok 0
    → grow 0 0 ≡ 0
    → sys.size_again 0 ≡ ok n
    → sysctl_get_bytes enomem grow sys (suc fuel) ≡ (if ltb 0 n then out_of_range else fetched [])
unfolding sysctl_get_bytes sysctl_loop second_call
sysctl_get_bytes-nil enomem grow sys fuel n none kept again = ground arith

-- Against a system that tells a size above 0 at first, and fills any buffer that is large enough and
-- else says ENOMEM: if what there is in some round is no longer than the size that was told in that
-- round or in an earlier one, then `SysctlGetBytes` returns in that round at the latest, with all
-- that there was in the round in which it returns.
pub sysctl_get_bytes-fetched :
    (enomem : ℕ) (grow : ℕ → ℕ → ℕ) (sys : Answers) (told : ℕ → ℕ) (content : ℕ → Bytes) (k j : ℕ)
    → Grows grow
    → Tells enomem sys told content
    → 0 < told 0
    → j ≤ k
    → length (content k) ≤ told j
    → (i : ℕ) × (i ≤ k) × (sysctl_get_bytes enomem grow sys (suc k) ≡ fetched (content i))
unfolding sysctl_get_bytes
sysctl_get_bytes-fetched enomem grow sys told content k j grows tells some le enough =
    sysctl_loop-fetched enomem grow sys told content grows tells k 0 k 0 (omega arith)
      (inr (j, omega arith, le, enough)) (omega (arith, some, grows 0 (told 0)))
