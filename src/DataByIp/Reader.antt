-- ===== src/DataByIp/Reader.antt =====
-- `eventJSONReader` of ssgodatabyip/ssgodatabyip.go. The `bufio.Reader` is the input that it has
-- not given out yet and the size of its buffer: `ReadSlice` gives the text up to the delimiter, or
-- what there is if the input ends or the buffer is full before that. A buffer `p` that is to be
-- filled is its length; what is written to it is the result.
use cubic_go_playground.Prelude.{
  ℕ, zero, suc, ◌-◌, true, false, List, [], ◌∷◌, ◌++◌, Option, none, some, Bytes, length, take,
  drop, ltb, ◌==◌, if◌then◌else◌,
}

pub data ReadError : Type 0 where
  eof : ReadError
  buffer_full : ReadError

-- What `ReadSlice` gives, and the input behind it.
pub record Slice : Type 0 where
  pub line : Bytes
  pub err : Option ReadError
  pub rest : Bytes

abbrev pub after : ℕ → Slice → Slice
after c s = record s { line = c ∷ s.line }

-- `size` is the room that is left in the buffer.
unfoldable pub read_slice : ℕ → ℕ → Bytes → Slice
read_slice zero delim text = record { line = []; err = some buffer_full; rest = text }
read_slice (suc size) delim [] = record { line = []; err = some eof; rest = [] }
read_slice (suc size) delim (c ∷ text) =
    let more = after c (read_slice size delim text) in
    if c == delim then record { line = c ∷ []; err = none; rest = text } else more

pub record EventJsonReader : Type 0 where
  pub r : Bytes
  pub leftover : Bytes
  pub err : Option ReadError

pub record Filled : Type 0 where
  pub p : Bytes
  pub err : Option ReadError
  pub reader : EventJsonReader

unfoldable pub new_event_json_reader : Bytes → EventJsonReader
new_event_json_reader text = record { r = text; leftover = []; err = none }

module _ (size : ℕ) where
  -- The loop, with the room that is left in `p` and what is written to it. A round writes a byte at
  -- least, so `fuel` is the room at first.
  unfoldable pub read_loop : ℕ → ℕ → Bytes → EventJsonReader → Filled
  read_loop zero room p reader = record { p = p; err = none; reader = reader }
  read_loop (suc fuel) room p reader = elim (room == 0) [
    | true ↦ record { p = p; err = none; reader = reader }
    | false ↦
        let start = read_slice size b'{' reader.r in
        elim (start.err) [
          | some e ↦ record { p = p; err = some e; reader = record reader { r = start.rest } }
          | none ↦
              let s = read_slice size b'\n' start.rest in
              let room' = room - 1 in
              let p' = p ++ b'{' ∷ take room' s.line in
              if ltb room' (length s.line)
              then record {
                p = p';
                err = none;
                reader = record { r = s.rest; leftover = drop room' s.line; err = s.err };
              }
              else elim (s.err) [
                | some e ↦ record { p = p'; err = some e; reader = record reader { r = s.rest } }
                | none ↦ read_loop fuel (room' - length s.line) p' (record reader { r = s.rest })
              ]
        ]
  ]

  -- `Read` for a buffer of that length.
  unfoldable pub read : ℕ → EventJsonReader → Filled
  read room reader =
      let p = take room reader.leftover in
      let reader' = record reader { leftover = drop room reader.leftover } in
      elim (reader.err) [
        | some e ↦ record { p = p; err = some e; reader = reader' }
        | none ↦ read_loop (room - length p) (room - length p) p reader'
      ]

  -- What a caller gets that reads into buffers of these lengths until there is an error.
  unfoldable pub read_all : List ℕ → EventJsonReader → Bytes × Option ReadError
  read_all [] reader = ([], none)
  read_all (room ∷ rooms) reader =
      let f = read room reader in
      elim (f.err) [
        | some e ↦ (f.p, some e)
        | none ↦ let (out, err) = read_all rooms f.reader in (f.p ++ out, err)
      ]
