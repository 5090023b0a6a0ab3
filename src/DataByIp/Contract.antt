-- ===== src/DataByIp/Contract.antt =====
-- `Read` of ssgodatabyip/ssgodatabyip.go as an `io.Reader`.
use cubic_go_playground.Prelude.{
  ℕ, zero, suc, ◌+◌, ◌-◌, ◌≤◌, ◌<◌, ◌≡◌, ◌≢◌, ◌⊎◌, [], ◌∷◌, ◌++◌, none, Bytes, length,
  length-append, take, drop, arith,
}
use cubic_go_playground.DataByIp.Reader.{Slice, read_slice, EventJsonReader, read_loop, read}

length-take_le : (n : ℕ) (l : Bytes) → (length (take n l) ≤ n) × (length (take n l) ≤ length l)
length-take_le zero l = (omega arith, omega arith)
length-take_le (suc n) [] = (omega arith, omega arith)
length-take_le (suc n) (x ∷ l) = ground (arith, length-take_le n l)

module _ (size : ℕ) where
  read_loop-room :
      (fuel room : ℕ) (p : Bytes) (reader : EventJsonReader)
      → room ≤ fuel
      → (length p ≤ length (read_loop size fuel room p reader).p)
        × (length (read_loop size fuel room p reader).p ≤ length p + room)
        × (0 < room
            → (length p < length (read_loop size fuel room p reader).p)
              ⊎ ((read_loop size fuel room p reader).err ≢ none))
  unfolding read_loop
  read_loop-room zero room p reader le = ground arith
  read_loop-room (suc fuel) zero p reader le = ground arith
  read_loop-room (suc fuel) (suc k) p reader le =
      let start : Slice = read_slice size b'{' reader.r in
      let s : Slice = read_slice size b'\n' start.rest in
      let p' : Bytes = p ++ b'{' ∷ take k s.line in
      ground (
        arith,
        length-take_le k s.line,
        length-append p (b'{' ∷ take k s.line),
        read_loop-room fuel (k - length s.line) p' (record reader { r = s.rest }),
      )

-- `Read` writes no more than the buffer holds, and if the buffer is not empty it writes a byte at
-- least or returns an error, whatever the state of the reader and the text behind it.
pub read-some :
    (size room : ℕ) (reader : EventJsonReader)
    → (length (read size room reader).p ≤ room)
      × ((room ≡ 0) ⊎ (0 < length (read size room reader).p) ⊎ ((read size room reader).err ≢ none))
unfolding read
read-some size room reader =
    let p : Bytes = take room reader.leftover in
    let n : ℕ = room - length p in
    ground (
      arith,
      length-take_le room reader.leftover,
      read_loop-room size n n p (record reader { leftover = drop room reader.leftover }),
    )
