-- ===== src/Route/Texts.antt =====
-- What the texts of names tell, on each of the five systems.
use cubic_go_playground.Prelude.{ℕ, ◌≤◌, ◌<◌, ◌≡◌, [], some, length, get_elem?, String}
use cubic_go_playground.Route.Flags.{Flag, is_set, append_chars, marshal_text, string}
use cubic_go_playground.Route.Names.{
  Os, message_types, route_flag_names, iface_flag_names, ifa_flags6_names,
}
use cubic_go_playground.Route.Types.{read_type, read_type-string}
use cubic_go_playground.Route.Shown.{has, shown, append_chars-has}
use cubic_go_playground.Route.Joined.{fields, parts_of, marshal_text-fields}

-- For every system and any values of its constants: the text of a message type tells the type; that
-- of route flags has the letter of a flag of the table exactly if the flag is set, and fits in the
-- room that MarshalText reserves; that of interface flags, cut at its commas, and that of IPv6
-- address flags, cut at its spaces, give the names of the flags that are set, in the order of the
-- table.
pub string-marshal_text :
    (os : Os) (unix : String → ℕ) (m f i : ℕ) (g : Flag ℕ)
    → m < 256
    → get_elem? (route_flag_names os unix) i ≡ some g
    → (read_type unix (message_types os) (string unix (message_types os) m) ≡ m)
      × (has g.name (append_chars (route_flag_names os unix) f []) ≡ is_set f g)
      × (length (append_chars (route_flag_names os unix) f []) ≤ length (route_flag_names os unix))
      × (fields b',' (marshal_text b',' (iface_flag_names os unix) f)
          ≡ parts_of (shown (iface_flag_names os unix) f))
      × (fields b' ' (marshal_text b' ' (ifa_flags6_names os) f)
          ≡ parts_of (shown (ifa_flags6_names os) f))
string-marshal_text os unix m f i g lt h =
    let letters = append_chars-has os unix f i g h in
    let words = marshal_text-fields os unix f in
    (read_type-string os unix m lt, letters.0, letters.1, words.0, words.1)
