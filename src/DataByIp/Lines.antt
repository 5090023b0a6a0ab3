-- ===== src/DataByIp/Lines.antt =====
-- What `eventJSONReader` of ssgodatabyip/ssgodatabyip.go keeps of a text, and its two calls of
-- `ReadSlice`.
use cubic_go_playground.Prelude.{
  ℕ, zero, suc, ◌≡◌, ◌⊎◌, inl, refl, Bool, true, false, not, [], ◌∷◌, ◌++◌, none, some, Bytes, ◌==◌,
  if◌then◌else◌, arith,
}
use cubic_go_playground.DataByIp.Reader.{eof, read_slice}

abbrev pub delim : Bool → ℕ
delim false = b'{'
delim true = b'\n'

-- The text that is kept; the flag says whether the line has had its brace.
abbrev pub json_of : Bool → Bytes → Bytes
json_of keep [] = []
json_of false (c ∷ t) =
    let kept = c ∷ json_of true t in let rest = json_of false t in if c == b'{' then kept else rest
json_of true (c ∷ t) =
    let next = json_of false t in
    let rest = json_of true t in c ∷ (if c == b'\n' then next else rest)

-- The text ends behind a newline, or in a line without a brace.
abbrev pub ended : Bool → Bytes → Bool
ended keep [] = not keep
ended keep (c ∷ t) =
    let next = ended (not keep) t in
    let rest = ended keep t in if c == delim keep then next else rest

module _ (size : ℕ) where
  -- From each delimiter to the next one the text is shorter than the buffer, of which `n` are left.
  abbrev pub fits : Bool → ℕ → Bytes → Bool
  fits keep zero t = false
  fits keep (suc n) [] = true
  fits keep (suc n) (c ∷ t) =
      let next = fits (not keep) size t in
      let rest = fits keep n t in if c == delim keep then next else rest

  abbrev pub Ready : Bool → Bytes → Type 0
  Ready keep t = (fits keep size t ≡ true) × (ended keep t ≡ true)

  pub read_slice-skip :
      (n : ℕ) (t : Bytes)
      → fits false n t ≡ true
      → ended false t ≡ true
      → (((read_slice n b'{' t).err ≡ some eof) × (json_of false t ≡ []))
        ⊎ (((read_slice n b'{' t).err ≡ none)
            × Ready true (read_slice n b'{' t).rest
            × (json_of false t ≡ b'{' ∷ json_of true (read_slice n b'{' t).rest))
  unfolding read_slice
  read_slice-skip zero t f h = cc
  read_slice-skip (suc n) [] f h = inl (refl, refl)
  read_slice-skip (suc n) (c ∷ t) f h = ground (arith, read_slice-skip n t)

  pub read_slice-keep :
      (n : ℕ) (t : Bytes)
      → fits true n t ≡ true
      → ended true t ≡ true
      → ((read_slice n b'\n' t).err ≡ none)
        × Ready false (read_slice n b'\n' t).rest
        × (json_of true t
            ≡ (read_slice n b'\n' t).line ++ json_of false (read_slice n b'\n' t).rest)
  unfolding read_slice
  read_slice-keep zero t f h = cc
  read_slice-keep (suc n) [] f h = cc
  read_slice-keep (suc n) (c ∷ t) f h = ground (arith, read_slice-keep n t)
