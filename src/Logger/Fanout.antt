-- ===== src/Logger/Fanout.antt =====
-- logger/fanout.go: one handler over several.
pub mod Dispatch
use core_shared.Base.{
  Text, Bool, true, false, Option, none, some, List, [], ◌∷◌, map, ℤ, if◌then◌else◌,
}
use core_shared.Apperror.{Error}
use core_shared.Logger.Slog.{Attr, Record, Handler}

-- `err != nil && firstErr == nil`
abbrev pub first_error : Option Error → Option Error → Option Error
first_error none e = e
first_error (some first) e = some first

module _ {H S : Type 0} (child : Handler H S) where
  unfoldable pub any_enabled : List H → ℤ → Bool
  any_enabled [] level = false
  any_enabled (h ∷ hs) level = if child.is_enabled h level then true else any_enabled hs level

  -- What the loop does with one child, with the first error so far.
  abbrev pub offer : H → Record → S × Option Error → S × Option Error
  offer h r (s, first) =
      if child.is_enabled h r.level
      then (let (s', e) = child.handle h r s in (s', first_error first e))
      else (s, first)

  -- The loop of `Handle`.
  unfoldable pub handle_from : List H → Record → S × Option Error → S × Option Error
  handle_from [] r now = now
  handle_from (h ∷ hs) r now = handle_from hs r (offer h r now)

  unfoldable pub handle_all : List H → Record → S → S × Option Error
  unfolding handle_from
  handle_all hs r s = handle_from hs r (s, none)

  -- `fanoutHandler`, which is the list of its children.
  abbrev pub fanout_handler : Handler (List H) S
  fanout_handler = record {
    is_enabled = any_enabled;
    handle = handle_all;
    with_attrs = λ attrs hs. map (child.with_attrs attrs) hs;
    with_group = λ name hs. map (child.with_group name) hs;
  }
