-- ===== src/Object.antt =====
-- A JavaScript object that serves as a dictionary, such as `session.files_read` of the hooks: its
-- own properties in their order, and the properties that every object inherits.
pub mod Laws
pub mod Sizes
use efipix.Prelude.{
  ◌-◌, ◌^◌, Bool, true, false, not, ◌&&◌, Option, none, some, List, [], ◌∷◌, ◌++◌, ◌==◌, ltb, leb,
  if◌then◌else◌,
}
use efipix.Text.{Text, codes, equal}
use efipix.Text.Decimal.{parse_int}
use efipix.Tokens.{one_of}

abbrev pub Object {ℓ} : Type ℓ → Type ℓ
Object V = List (Text × V)

-- What reading a property gives. An inherited property is a function or an object, so it is truthy.
pub data Property {ℓ} (V : Type ℓ) : Type ℓ where
  absent : Property V
  inherited : Property V
  own : V → Property V

abbrev inherited_names : List Text
inherited_names =
    codes "constructor"
    ∷ codes "__defineGetter__"
    ∷ codes "__defineSetter__"
    ∷ codes "hasOwnProperty"
    ∷ codes "__lookupGetter__"
    ∷ codes "__lookupSetter__"
    ∷ codes "isPrototypeOf"
    ∷ codes "propertyIsEnumerable"
    ∷ codes "toString"
    ∷ codes "valueOf"
    ∷ codes "__proto__"
    ∷ codes "toLocaleString"
    ∷ []

unfoldable pub is_inherited : Text → Bool
unfolding one_of
is_inherited k = one_of inherited_names k

module _ {ℓ} {V : Type ℓ} where
  unfoldable pub find_own : Text → Object V → Option V
  unfolding equal
  find_own k [] = none
  find_own k ((j, v) ∷ o) = if equal j k then some v else find_own k o

  -- `o[k]`
  unfoldable pub get : Text → Object V → Property V
  get k o = elim (find_own k o) [
    | some v ↦ own v
    | none ↦ if is_inherited k then inherited else absent
  ]

all_digits : Text → Bool
all_digits [] = true
all_digits (c ∷ s) = leb b'0' c && leb c b'9' && all_digits s

-- Canonical array indices: they come first in an object, in ascending order.
unfoldable pub is_index : Text → Bool
unfolding all_digits parse_int
is_index [] = false
is_index (c ∷ []) = all_digits (c ∷ [])
is_index (c ∷ d ∷ s) =
    not (c == b'0') && all_digits (c ∷ d ∷ s) && ltb (parse_int (c ∷ d ∷ s)) (2 ^ 32 - 1)

unfoldable pub comes_before : Text → Text → Bool
unfolding is_index
comes_before j k = is_index j && ltb (parse_int j) (parse_int k)

module _ {ℓ} {V : Type ℓ} where
  -- a new index before the first property that is no smaller index
  unfoldable pub place : Text → V → Object V → Object V
  unfolding comes_before
  place k v [] = (k, v) ∷ []
  place k v ((j, w) ∷ o) =
      let rest = place k v o in if comes_before j k then (j, w) ∷ rest else (k, v) ∷ (j, w) ∷ o

  unfoldable pub replace : Text → V → Object V → Object V
  unfolding equal
  replace k v [] = []
  replace k v ((j, w) ∷ o) = if equal j k then (j, v) ∷ o else (j, w) ∷ replace k v o

  -- `o[k] = v`, for a key that is not `__proto__`
  unfoldable pub set : Text → V → Object V → Object V
  unfolding find_own place replace
  set k v o = elim (find_own k o) [
    | some _ ↦ replace k v o
    | none ↦ if is_index k then place k v o else o ++ (k, v) ∷ []
  ]
