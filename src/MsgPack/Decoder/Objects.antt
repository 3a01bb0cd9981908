-- ===== src/MsgPack/Decoder/Objects.antt =====
-- Objects of JavaScript as `_decodeMap` of packages/core/src/utils/msgpack.js fills them.
use reticulum_js.Common.{
  ℕ, ◌+◌, ◌-◌, ◌*◌, Bool, true, false, not, ◌&&◌, ◌||◌, Option, none, some, List, [], ◌∷◌, ltb, leb,
  ◌==◌, if◌then◌else◌,
}
use reticulum_js.Common.Dict.{str_eq}
use reticulum_js.MsgPack.{
  Value, null, str, bin, arr, map, obj, Entries, done, entry, Proto, default_proto, no_proto, proto,
}

-- The property key of a value that is no string: what the language makes of it by `String`.
abbrev pub PropertyKey : Type 0
PropertyKey = Value → List ℕ

-- "__proto__", "constructor", "prototype"
abbrev pub proto_name : List ℕ
proto_name = 95 ∷ 95 ∷ 112 ∷ 114 ∷ 111 ∷ 116 ∷ 111 ∷ 95 ∷ 95 ∷ []

abbrev pub constructor_name : List ℕ
constructor_name = 99 ∷ 111 ∷ 110 ∷ 115 ∷ 116 ∷ 114 ∷ 117 ∷ 99 ∷ 116 ∷ 111 ∷ 114 ∷ []

abbrev pub prototype_name : List ℕ
prototype_name = 112 ∷ 114 ∷ 111 ∷ 116 ∷ 111 ∷ 116 ∷ 121 ∷ 112 ∷ 101 ∷ []

-- The number that a text of decimal digits writes.
unfoldable pub digits_from : ℕ → List ℕ → Option ℕ
digits_from acc [] = some acc
digits_from acc (c ∷ cs) =
    let rest = digits_from (acc * 10 + (c - 48)) cs in if leb 48 c && leb c 57 then rest else none

-- An array index: a decimal below `2 ^ 32 - 1` without leading zeros. Such keys come first among the
-- properties of an object, in ascending order.
unfoldable pub index_of : List ℕ → Option ℕ
index_of [] = none
index_of (c ∷ []) = digits_from 0 (c ∷ [])
index_of (c ∷ d ∷ cs) = elim (digits_from 0 (c ∷ d ∷ cs)) [
  | none ↦ none
  | some n ↦ if c == 48 || leb 4294967295 n then none else some n
]

unfoldable pub goes_before : List ℕ → List ℕ → Bool
goes_before k j = elim (index_of k) [
  | none ↦ false
  | some a ↦ elim (index_of j) [ none ↦ true | some b ↦ ltb a b ]
]

-- A key of an own property is a string.
unfoldable pub key_is : Value → List ℕ → Bool
key_is (str j) k = str_eq j k
key_is q k = false

unfoldable pub key_after : Value → List ℕ → Bool
key_after (str j) k = goes_before k j
key_after q k = false

-- An own property is written, or made in its place.
unfoldable pub set_property : List ℕ → Value → Entries → Entries
set_property k v done = entry (str k) v done
set_property k v (entry q w es) =
    let rest = set_property k v es in
    if key_is q k
    then entry q v es
    else if key_after q k
    then entry (str k) v (entry q w es)
    else entry q w rest

-- The setter of `Object.prototype.__proto__`: it takes objects and null, and passes over other values.
unfoldable pub set_proto : Value → Proto → Proto
set_proto null p = no_proto
set_proto (bin b) p = proto (bin b)
set_proto (arr vs) p = proto (arr vs)
set_proto (map es) p = proto (map es)
set_proto (obj q es) p = proto (obj q es)
set_proto v p = p

unfoldable pub has_own : List ℕ → Entries → Bool
has_own k done = false
has_own k (entry q v es) = key_is q k || has_own k es

-- Whether assigning to `__proto__` meets that setter on the chain of prototypes. A `Uint8Array` on the
-- chain is taken for an ordinary object.
unfoldable mutual
  pub inherits_setter : Value → Bool
  inherits_setter (bin b) = true
  inherits_setter (arr vs) = true
  inherits_setter (map es) = true
  inherits_setter (obj p es) = not (has_own proto_name es) && meets_setter p
  inherits_setter v = false

  pub meets_setter : Proto → Bool
  meets_setter default_proto = true
  meets_setter no_proto = false
  meets_setter (proto q) = inherits_setter q

-- `map[key] = value`.
unfoldable pub assign : List ℕ → Value → Proto → Entries → Proto × Entries
assign k v p es =
    if str_eq k proto_name && (not (has_own proto_name es) && meets_setter p)
    then (set_proto v p, es)
    else (p, set_property k v es)

unfoldable pub is_guarded : List ℕ → Bool
is_guarded k = str_eq k proto_name || (str_eq k constructor_name || str_eq k prototype_name)

-- What the loop of `_decodeMap` does with one key and its value.
unfoldable pub put_entry : PropertyKey → Value → Value → Proto → Entries → Proto × Entries
put_entry key (str s) v p es = if is_guarded s then (p, set_property s v es) else assign s v p es
put_entry key k v p es = assign (key k) v p es
