-- ===== src/DataByIp/Delivered.antt =====
-- What a caller of `Read` of ssgodatabyip/ssgodatabyip.go gets in all.
use cubic_go_playground.Prelude.{
  ℕ, ◌<◌, ◌≡◌, ◌∙◌, refl, ap, true, false, List, [], ◌∷◌, ◌++◌, none, some, Bytes, length,
  length-append, arith, inl, inr,
}
use cubic_go_playground.DataByIp.Reader.{
  eof, EventJsonReader, Filled, new_event_json_reader, read, read_all,
}
use cubic_go_playground.DataByIp.Lines.{json_of, ended, fits}
use cubic_go_playground.DataByIp.Stream.{rest_of, Good, read-Gives}

-- No buffer is empty.
abbrev pub HaveRoom : List ℕ → Type 0
HaveRoom [] = Unit
HaveRoom (room ∷ rooms) = (0 < room) × HaveRoom rooms

module _ (size : ℕ) where
  read_all-done :
      (room : ℕ) (rooms : List ℕ) (reader : EventJsonReader)
      → (read size room reader).err ≡ some eof
      → read_all size (room ∷ rooms) reader ≡ ((read size room reader).p, some eof)
  unfolding read_all
  read_all-done room rooms reader h = cc

  read_all-next :
      (room : ℕ) (rooms : List ℕ) (reader : EventJsonReader) (rest : Bytes)
      → (read size room reader).err ≡ none
      → read_all size rooms (read size room reader).reader ≡ (rest, some eof)
      → read_all size (room ∷ rooms) reader ≡ ((read size room reader).p ++ rest, some eof)
  unfolding read_all
  read_all-next room rooms reader rest h ih = cc

  read_all-rest :
      (rooms : List ℕ) (reader : EventJsonReader)
      → HaveRoom rooms
      → Good size reader
      → length (rest_of size reader) < length rooms
      → read_all size rooms reader ≡ (rest_of size reader, some eof)
  read_all-rest [] reader pos good lt = absurd (omega arith)
  read_all-rest (room ∷ rooms) reader (pos, each) good lt =
      let f : Filled = read size room reader in
      elim (read-Gives size room reader good) [
        | inl (e, h) ↦ read_all-done room rooms reader e ∙ ap (λ l. (l, some eof)) h
        | inr (e, good', h, grown, some_byte) ↦
            let shorter : length (rest_of size f.reader) < length rooms = omega (
              arith,
              some_byte pos,
              ap (λ l. length l) h,
              length-append f.p (rest_of size f.reader),
            ) in
            read_all-next room rooms reader (rest_of size f.reader) e
              (read_all-rest rooms f.reader each good' shorter)
            ∙ ap (λ l. (l, some eof)) h
      ]

-- If the text of the log ends behind a newline or in a line without a brace, and from each brace to
-- the newline and back there is less than the buffer holds, then reading it into any non-empty
-- buffers, more of them than there are bytes to give, gives of each line that has a brace the text
-- from the first one on, in order and whole, and ends with `io.EOF`.
pub read_all-json_of :
    (size : ℕ) (rooms : List ℕ) (text : Bytes)
    → fits size false size text ≡ true
    → ended false text ≡ true
    → HaveRoom rooms
    → length (json_of false text) < length rooms
    → read_all size rooms (new_event_json_reader text) ≡ (json_of false text, some eof)
unfolding new_event_json_reader
read_all-json_of size rooms text f h pos lt =
    read_all-rest size rooms (new_event_json_reader text) pos (refl, (f, h)) lt
