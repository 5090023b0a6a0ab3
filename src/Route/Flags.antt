-- ===== src/Route/Flags.antt =====
-- The texts of flags and of message types: `MsgType.String` and the `AppendText` and `MarshalText`
-- of `RouteFlags`, `IfaceFlags` and `IfaFlags6` in route/bsdroute/bsdroute_bsd.go, over a table of
-- one system. An `int32` is its bit pattern; the error that these methods return is always nil.
use Prim.Native.Nat.{bit_and}
use cubic_go_playground.Prelude.{
  ℕ, ◌-◌, Bool, not, List, [], ◌∷◌, ◌++◌, Bytes, codes, itoa, String, length, take, ltb, ◌==◌,
  if◌then◌else◌,
}

pub record Flag (N : Type 0) : Type 0 where
  pub mask : ℕ
  pub name : N

abbrev pub flag : {N : Type 0} → ℕ → N → Flag N
flag mask name = record { mask = mask; name = name }

unfoldable pub is_set : {N : Type 0} → ℕ → Flag N → Bool
is_set f g = not (bit_and f g.mask == 0)

-- `RouteFlags.AppendText`.
unfoldable pub append_chars : List (Flag ℕ) → ℕ → Bytes → Bytes
append_chars [] f b = b
append_chars (g ∷ gs) f b = append_chars gs f (if is_set f g then b ++ g.name ∷ [] else b)

-- The loop of `IfaceFlags.AppendText` and of `IfaFlags6.AppendText`.
unfoldable pub append_names : ℕ → List (Flag Bytes) → ℕ → Bytes → Bytes
append_names sep [] f b = b
append_names sep (g ∷ gs) f b =
    append_names sep gs f (if is_set f g then (b ++ g.name) ++ sep ∷ [] else b)

-- The two methods themselves, for the separators ',' and ' '.
unfoldable pub append_text : ℕ → List (Flag Bytes) → ℕ → Bytes → Bytes
append_text sep gs f b =
    let r = append_names sep gs f b in
    if ltb (length b) (length r) then take (length r - 1) r else r

unfoldable pub marshal_text : ℕ → List (Flag Bytes) → ℕ → Bytes
marshal_text sep gs f = append_text sep gs f []

-- `MsgType.string`: the first case whose constant is the type. Three digits are enough for a byte.
unfoldable pub string : (String → ℕ) → List String → ℕ → Bytes
string unix [] m = itoa 3 m []
string unix (c ∷ cs) m = let rest = string unix cs m in if m == unix c then codes c else rest
