-- ===== src/Route/Align.antt =====
-- `RtaAlign` of route/bsdroute/bsdroute_bsd.go. The alignment is 4 on darwin, 8 on netbsd and the
-- size of a pointer elsewhere (rta_align_4.go, rta_align_8.go, rta_align_ptr.go), so 4 or 8.
use Prim.Native.Nat.{bit_and}
use cubic_go_playground.Prelude.{
  ℕ, ◌+◌, ◌-◌, ◌*◌, ◌/◌, ◌%◌, ◌≤◌, ◌<◌, ◌≡◌, refl, ◌⊎◌, inl, inr, true, ◌==◌, ltb, if◌then◌else◌,
  arith, all_below, all_below-true, ==_iff, Bool-cases, subst, sym, ◌∙◌,
}

-- The additions are those of `uint8`, and so is the complement.
unfoldable pub rta_align : ℕ → ℕ → ℕ
rta_align align_to n =
    if n == 0 then align_to else bit_and (((n + align_to) % 256 + 255) % 256) (255 - (align_to - 1))

abbrev pub IsAlignment : ℕ → Type 0
IsAlignment a = (a ≡ 4) ⊎ (a ≡ 8)

-- The least positive multiple of the alignment that is no less than `n`, if it fits a byte.
abbrev pub rounded : ℕ → ℕ → ℕ
rounded a n = if n == 0 then a else if ltb (256 - a) n then 0 else (n + a - 1) / a * a

table_4 : all_below 256 (λ n. rta_align 4 n == rounded 4 n) ≡ true
unfolding all_below rta_align
table_4 = refl

table_8 : all_below 256 (λ n. rta_align 8 n == rounded 8 n) ≡ true
unfolding all_below rta_align
table_8 = refl

rta_align-rounded : (a n : ℕ) → IsAlignment a → n < 256 → rta_align a n ≡ rounded a n
rta_align-rounded a n (inl e) lt =
    subst (λ b. rta_align b n ≡ rounded b n) (sym e)
      ((==_iff (rta_align 4 n) (rounded 4 n)).0
        (all_below-true 256 (λ n. rta_align 4 n == rounded 4 n) n table_4 lt))
rta_align-rounded a n (inr e) lt =
    subst (λ b. rta_align b n ≡ rounded b n) (sym e)
      ((==_iff (rta_align 8 n) (rounded 8 n)).0
        (all_below-true 256 (λ n. rta_align 8 n == rounded 8 n) n table_8 lt))

-- The least positive multiple of `a` that is no less than `n`.
abbrev pub RoundsUp : ℕ → ℕ → ℕ → Type 0
RoundsUp a n r = (n ≤ r) × (0 < r) × (r % a ≡ 0) × ((m : ℕ) → n ≤ m → 0 < m → m % a ≡ 0 → r ≤ m)

rounded-RoundsUp_4 : (n : ℕ) → n ≤ 252 → RoundsUp 4 n (rounded 4 n)
rounded-RoundsUp_4 n le = ground arith

rounded-RoundsUp_8 : (n : ℕ) → n ≤ 248 → RoundsUp 8 n (rounded 8 n)
rounded-RoundsUp_8 n le = ground arith

rounded-RoundsUp : (a n : ℕ) → IsAlignment a → n ≤ 256 - a → RoundsUp a n (rounded a n)
rounded-RoundsUp a n (inl e) le =
    subst (λ b. RoundsUp b n (rounded b n)) (sym e) (rounded-RoundsUp_4 n (omega arith))
rounded-RoundsUp a n (inr e) le =
    subst (λ b. RoundsUp b n (rounded b n)) (sym e) (rounded-RoundsUp_8 n (omega arith))

IsAlignment-lt : (a n : ℕ) → IsAlignment a → n ≤ 256 - a → n < 256
IsAlignment-lt a n h le = ground arith

pub rta_align-least : (a n : ℕ) → IsAlignment a → n ≤ 256 - a → RoundsUp a n (rta_align a n)
rta_align-least a n h le =
    subst (RoundsUp a n) (sym (rta_align-rounded a n h (IsAlignment-lt a n h le)))
      (rounded-RoundsUp a n h le)

rta_align-wraps : (a n : ℕ) → IsAlignment a → 256 - a < n → n < 256 → rta_align a n ≡ 0
rta_align-wraps a n h gt lt = rta_align-rounded a n h lt ∙ ground arith

-- For the alignments 4 and 8 and a length that fits a byte: up to the length 256 less the alignment
-- the result is the least positive multiple of the alignment that is no less than the length; above
-- that the sum wraps around the byte and the result is 0.
pub rta_align-RoundsUp :
    (a n : ℕ)
    → IsAlignment a
    → n < 256
    → ((n ≤ 256 - a) × RoundsUp a n (rta_align a n)) ⊎ ((256 - a < n) × (rta_align a n ≡ 0))
rta_align-RoundsUp a n h lt = elim (Bool-cases (ltb (256 - a) n)) [
  | inl long ↦ let gt : 256 - a < n = ground arith in inr (gt, rta_align-wraps a n h gt lt)
  | inr short ↦ let le : n ≤ 256 - a = ground arith in inl (le, rta_align-least a n h le)
]
