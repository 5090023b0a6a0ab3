-- ===== src/Prelude/Result.antt =====
-- A Go result of the form `(value, err)`.
pub data Result (E A : Type 0) : Type 0 where
  err : E → Result E A
  ok : A → Result E A

abbrev pub and_then : {E A B : Type 0} → Result E A → (A → Result E B) → Result E B
and_then r f = elim r [ err e ↦ err e | ok a ↦ f a ]
