-- ===== src/Logger/Slog.antt =====
-- What the handlers of logger/ use of package `log/slog`: levels, values, records, and the interface
-- `Handler`.
use core_shared.Base.{
  ℕ, ◌-◌, Text, codes, Bool, Option, List, ◌∷◌, ◌++◌, ◌==◌, leb, if◌then◌else◌, ℤ, pos, negsuc,
}
use core_shared.Apperror.{Error}
use core_shared.Json.{decimal}

-- `slog.Level`: -4, 0, 4 and 8.
abbrev pub level_debug : ℤ
level_debug = negsuc 3

abbrev pub level_info : ℤ
level_info = pos 0

abbrev pub level_warn : ℤ
level_warn = pos 4

abbrev pub level_error : ℤ
level_error = pos 8

-- A level's name, and how far it stands above that.
abbrev named : Text → ℕ → Text
named name above = if above == 0 then name else name ++ b'+' ∷ decimal above

-- `Level.String`; the numbers below "DEBUG" have a sign of their own.
unfoldable pub level_text : ℤ → Text
level_text (pos n) =
    if leb 8 n
    then named (codes "ERROR") (n - 8)
    else if leb 4 n
    then named (codes "WARN") (n - 4)
    else named (codes "INFO") n
level_text (negsuc n) =
    if leb n 3 then named (codes "DEBUG") (3 - n) else codes "DEBUG-" ++ decimal (n - 3)

-- A value after `Resolve`, by its kind. A float is its bits, a time and a duration are the texts
-- that the handler prints them as, and `other` is what `String` gives for the rest.
mutual
  pub data Value : Type 0 where
    bool : Bool → Value
    float64 : ℕ → Value
    int : ℤ → Value
    uint : ℕ → Value
    text time duration other : Text → Value
    group : Attrs → Value

  pub data Attrs : Type 0 where
    nil : Attrs
    attr : Text → Value → Attrs → Attrs

abbrev pub Attr : Type 0
Attr = Text × Value

pub record Record : Type 0 where
  pub time_stamp : ℕ
  pub level : ℤ
  pub message : Text
  pub attrs : List Attr

-- The interface `Handler`: handlers of type `H` that write to `S`.
pub record Handler (H S : Type 0) : Type 0 where
  pub is_enabled : H → ℤ → Bool
  pub handle : H → Record → S → S × Option Error
  pub with_attrs : List Attr → H → H
  pub with_group : Text → H → H

-- A call of `WithAttrs` or of `WithGroup`.
pub data Added : Type 0 where
  added_attrs : List Attr → Added
  added_group : Text → Added
