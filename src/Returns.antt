-- ===== src/Returns.antt =====
-- What a Go function with an error returns: a value, or an error that is not nil.
use core_shared.Apperror.{Error}

pub data Result (A : Type 0) : Type 0 where
  ok : A → Result A
  err : Error → Result A

abbrev pub IsErr : {A : Type 0} → Result A → Type 0
IsErr (ok a) = ⊥
IsErr (err e) = Unit {0}
