-- ===== src/Base/Dict.antt =====
-- Python's `dict` from texts, as the list of its items in the order of insertion.
use mathlib.Core.List.{List, [], ◌∷◌}
use mathlib.Core.Option.{Option, none, some}
use workspace.Base.Tests.{if◌then◌else◌}
use workspace.Base.Strings.{Text, text_eq}

module _ {V : Type 0} where
  -- `d.get(key)`
  unfoldable pub dict_get : Text → List (Text × V) → Option V
  dict_get key [] = none
  dict_get key ((k, v) ∷ d) = if text_eq k key then some v else dict_get key d

  -- `d[key] = v`
  unfoldable pub dict_set : Text → V → List (Text × V) → List (Text × V)
  dict_set key v [] = (key, v) ∷ []
  dict_set key v ((k, u) ∷ d) =
      let rest = dict_set key v d in if text_eq k key then (k, v) ∷ d else (k, u) ∷ rest

  -- `d.setdefault(key, v)`
  unfoldable pub dict_default : Text → V → List (Text × V) → List (Text × V)
  unfolding dict_get dict_set
  dict_default key v d = elim (dict_get key d) [ none ↦ dict_set key v d | some _ ↦ d ]

module _ {V : Type 0} where
  -- `{key: value for key, value in items}`, onto what is there.
  unfoldable pub dict_extend : List (Text × V) → List (Text × V) → List (Text × V)
  unfolding dict_set
  dict_extend d [] = d
  dict_extend d ((key, v) ∷ items) = dict_extend (dict_set key v d) items

  abbrev pub keys : List (Text × V) → List Text
  keys [] = []
  keys ((key, v) ∷ d) = key ∷ keys d
