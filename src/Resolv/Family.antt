-- ===== src/Resolv/Family.antt =====
-- `AddressFamily` of resolv/main.go: a byte, and the value of a flag.
use cubic_go_playground.Prelude.{
  ℕ, Bool, true, false, ◌&&◌, [], ◌∷◌, Bytes, codes, itoa, ◌==◌, if◌then◌else◌,
}
use cubic_go_playground.Prelude.Result.{Result, err, ok}

abbrev pub address_family_unspecified : ℕ
address_family_unspecified = 0

abbrev pub address_family_ipv4 : ℕ
address_family_ipv4 = 4

abbrev pub address_family_ipv6 : ℕ
address_family_ipv6 = 6

-- `AddressFamily.String`. A byte has three digits at most.
unfoldable pub string : ℕ → Bytes
string af = itoa 3 af []

unfoldable pub same_text : Bytes → Bytes → Bool
same_text [] [] = true
same_text (x ∷ s) (y ∷ t) = (x == y) && same_text s t
same_text _ _ = false

-- `AddressFamily.Set`: the new value of the variable, or the text that its error shows.
unfoldable pub set_family : Bytes → Result Bytes ℕ
unfolding same_text
set_family s =
    if same_text s (codes "4")
    then ok address_family_ipv4
    else if same_text s (codes "6")
    then ok address_family_ipv6
    else err s
