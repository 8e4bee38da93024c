-- ===== src/Logger/Otel/Keys.antt =====
-- The keys of the attributes that logger/otel_handler.go emits, next to the keys qualified by the
-- names of the groups. The documentation of `slog.Handler` asks for these where no name of a group,
-- no key and no group value is empty; empty ones it wants ignored or inlined.
use core_shared.Base.{
  Text, List, [], ◌∷◌, ◌++◌, map, append_assoc, append-nil, ◌≡◌, ◌≢◌, ◌∙◌, ap, sym, refl,
}
use mathlib.Core.Path.{ap₂}
use core_shared.Logger.Slog.{Attr, Record, Added, added_attrs, added_group}
use core_shared.Logger.Otel.{
  KeyValue, OtelHandler, OtelRecord, new_otel_handler, grouped_key, slog_attr_to_kv,
  slog_value_to_otel_value, handle, with_attrs, with_group,
}
use mathlib.Core.List.{map-append}

-- A handler after calls of `WithAttrs` and `WithGroup`.
abbrev pub extended : List Added → OtelHandler → OtelHandler
extended [] h = h
extended (added_attrs attrs ∷ calls) h = extended calls (with_attrs attrs h)
extended (added_group name ∷ calls) h = extended calls (with_group name h)

-- The attributes of the records in a list.
abbrev pub all_attributes : List OtelRecord → List KeyValue
all_attributes [] = []
all_attributes (r ∷ rs) = r.attributes ++ all_attributes rs

abbrev pub emitted_attributes : OtelHandler → Record → List KeyValue
emitted_attributes h r = all_attributes (handle h r []).0

-- The key behind the names of the groups that are open, with dots between.
abbrev pub dotted : List Text → Text → Text
dotted [] k = k
dotted (g ∷ gs) k = g ++ b'.' ∷ dotted gs k

abbrev pub qualified_attrs : List Text → List Attr → List KeyValue
qualified_attrs gs [] = []
qualified_attrs gs ((k, v) ∷ attrs) =
    (dotted gs k, slog_value_to_otel_value v) ∷ qualified_attrs gs attrs

-- The attributes of the calls and of the record in their order, each under the groups that were
-- opened before it.
abbrev pub qualified : List Text → List Added → Record → List KeyValue
qualified gs [] r = qualified_attrs gs r.attrs
qualified gs (added_attrs attrs ∷ calls) r = qualified_attrs gs attrs ++ qualified gs calls r
qualified gs (added_group name ∷ calls) r = qualified (gs ++ name ∷ []) calls r

-- The same under a path.
abbrev by_path : Text → List Added → Record → List KeyValue
by_path path [] r = map (slog_attr_to_kv path) r.attrs
by_path path (added_attrs attrs ∷ calls) r =
    map (slog_attr_to_kv path) attrs ++ by_path path calls r
by_path path (added_group name ∷ calls) r = by_path (grouped_key path name) calls r

-- No group has an empty name.
abbrev pub NamesGroups : List Added → Type 0
NamesGroups [] = Unit {0}
NamesGroups (added_attrs attrs ∷ calls) = NamesGroups calls
NamesGroups (added_group name ∷ calls) = (name ≢ []) × NamesGroups calls

abbrev IsPathOf : List Text → Text → Type 0
IsPathOf gs path = (k : Text) → grouped_key path k ≡ dotted gs k

grouped_key-append :
    (path name k : Text)
    → name ≢ []
    → grouped_key (grouped_key path name) k ≡ grouped_key path name ++ b'.' ∷ k
grouped_key-append [] [] k named = absurd (named refl)
grouped_key-append [] (c ∷ name) k named = refl
grouped_key-append (c ∷ path) name k named = refl

dotted-append :
    (gs : List Text) (name k : Text) → dotted (gs ++ name ∷ []) k ≡ dotted gs name ++ b'.' ∷ k
dotted-append [] name k = refl
dotted-append (g ∷ gs) name k =
    ap (λ (t : Text). g ++ b'.' ∷ t) (dotted-append gs name k)
    ∙ sym (append_assoc g (b'.' ∷ dotted gs name) (b'.' ∷ k))

deeper-IsPathOf :
    (gs : List Text) (path name : Text)
    → IsPathOf gs path
    → name ≢ []
    → IsPathOf (gs ++ name ∷ []) (grouped_key path name)
deeper-IsPathOf gs path name is_path named k =
    grouped_key-append path name k named
    ∙ ap (λ (t : Text). t ++ b'.' ∷ k) (is_path name)
    ∙ sym (dotted-append gs name k)

qualified_attrs_lem :
    (gs : List Text) (path : Text) (attrs : List Attr)
    → IsPathOf gs path
    → map (slog_attr_to_kv path) attrs ≡ qualified_attrs gs attrs
unfolding slog_attr_to_kv
qualified_attrs_lem gs path [] is_path = refl
qualified_attrs_lem gs path ((k, v) ∷ attrs) is_path =
    ap₂ (λ (t : Text) (kvs : List KeyValue). (t, slog_value_to_otel_value v) ∷ kvs) (is_path k)
      (qualified_attrs_lem gs path attrs is_path)

by_path-qualified :
    (gs : List Text) (path : Text) (calls : List Added) (r : Record)
    → IsPathOf gs path
    → NamesGroups calls
    → by_path path calls r ≡ qualified gs calls r
by_path-qualified gs path [] r is_path named = qualified_attrs_lem gs path r.attrs is_path
by_path-qualified gs path (added_attrs attrs ∷ calls) r is_path named =
    ap₂ ◌++◌ (qualified_attrs_lem gs path attrs is_path)
      (by_path-qualified gs path calls r is_path named)
by_path-qualified gs path (added_group name ∷ calls) r is_path (named, rest) =
    by_path-qualified (gs ++ name ∷ []) (grouped_key path name) calls r
      (deeper-IsPathOf gs path name is_path named) rest

-- No group is opened.
abbrev pub NoGroup : List Added → Type 0
NoGroup [] = Unit {0}
NoGroup (added_attrs attrs ∷ calls) = NoGroup calls
NoGroup (added_group name ∷ calls) = ⊥

-- All groups are opened before the first attribute is added.
abbrev pub GroupsFirst : List Added → Type 0
GroupsFirst [] = Unit {0}
GroupsFirst (added_group name ∷ calls) = GroupsFirst calls
GroupsFirst (added_attrs attrs ∷ calls) = NoGroup calls

abbrev at_path : Text → List Attr → OtelHandler → OtelHandler
at_path path attrs h = record h { attrs = attrs; group_path = path }

no_group_lem :
    (calls : List Added) (h : OtelHandler) (r : Record)
    → NoGroup calls
    → emitted_attributes (extended calls h) r
      ≡ map (slog_attr_to_kv h.group_path) h.attrs ++ by_path h.group_path calls r
unfolding handle
no_group_lem [] h r n = append-nil _
no_group_lem (added_attrs attrs ∷ calls) h r n =
    no_group_lem calls (with_attrs attrs h) r n
    ∙ ap (λ (kvs : List KeyValue). kvs ++ by_path h.group_path calls r)
        (map-append (slog_attr_to_kv h.group_path) h.attrs attrs)
    ∙ append_assoc (map (slog_attr_to_kv h.group_path) h.attrs)
        (map (slog_attr_to_kv h.group_path) attrs) _
no_group_lem (added_group name ∷ calls) h r n = elim n [ ]

groups_first_lem :
    (calls : List Added) (h : OtelHandler) (r : Record)
    → h.attrs ≡ []
    → GroupsFirst calls
    → emitted_attributes (extended calls h) r ≡ by_path h.group_path calls r
groups_first_lem [] h r none_yet g = no_group_lem [] h r tt ∙ rw none_yet
groups_first_lem (added_attrs attrs ∷ calls) h r none_yet g =
    no_group_lem (added_attrs attrs ∷ calls) h r g ∙ rw none_yet
groups_first_lem (added_group name ∷ calls) h r none_yet g =
    groups_first_lem calls (with_group name h) r none_yet g

-- A new handler on which groups with names that are not empty are opened, all before the first
-- attribute is added, emits the attributes that were added and then those of the record, in their
-- order and with their values, each under its key with the names of the groups before it, in the
-- order in which they were opened and with a dot behind each.
pub handle-qualified :
    (scope : Text) (calls : List Added) (r : Record)
    → GroupsFirst calls
    → NamesGroups calls
    → emitted_attributes (extended calls (new_otel_handler scope)) r ≡ qualified [] calls r
handle-qualified scope calls r g named =
    groups_first_lem calls (new_otel_handler scope) r refl g
    ∙ by_path-qualified [] [] calls r (λ k. refl) named

-- If attributes are added before a group is opened, the handler puts the group's name before
-- their keys too, and the qualified keys leave them as they are.
pub handle-with_group :
    (scope name : Text) (attrs : List Attr) (r : Record)
    → (emitted_attributes
          (extended (added_attrs attrs ∷ added_group name ∷ []) (new_otel_handler scope))
          r
        ≡ map (slog_attr_to_kv name) attrs ++ map (slog_attr_to_kv name) r.attrs)
      × (qualified [] (added_attrs attrs ∷ added_group name ∷ []) r
          ≡ qualified_attrs [] attrs ++ qualified_attrs (name ∷ []) r.attrs)
unfolding handle
handle-with_group scope name attrs r = (append-nil _, refl)
