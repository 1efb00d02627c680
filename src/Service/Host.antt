-- ===== src/Service/Host.antt =====
-- internal/service/host/store.go: the key value store that services share.
pub mod Access
pub mod Listing
use arupa.Base.{Bool, true, false, List, [], ◌∷◌, Option, none, some, GoString, string_eq}
use arupa.Base.{if◌then◌else◌, is_empty}
use arupa.Base.Dict.{Dict, lookup, insert, erase}
use arupa.Base.Result.{Result, ok, err}
use arupa.Strings.{bytes}
use arupa.Strings.Sort.{sort_strings}

-- `SysNamespace`
abbrev pub sys_namespace : GoString
sys_namespace = bytes "sys"

-- A value is a slice of bytes that is copied on its way in and out.
pub record Store : Type 0 where
  pub namespaces : Dict GoString (Dict GoString GoString)  -- `data`
  pub read_only : Dict GoString Bool

unfoldable pub new_store : Store
new_store = record { namespaces = []; read_only = (sys_namespace, true) ∷ [] }

pub data StoreError : Type 0 where
  namespace_read_only : StoreError

-- `s.readOnly[namespace]`
unfoldable pub is_read_only : GoString → Store → Bool
is_read_only namespace s = elim (lookup namespace s.read_only) [ none ↦ false | some b ↦ b ]

-- `s.data[namespace]`, an empty map where it is missing.
unfoldable pub values_of : GoString → Store → Dict GoString GoString
values_of namespace s = elim (lookup namespace s.namespaces) [ none ↦ [] | some values ↦ values ]

unfoldable pub get : GoString → GoString → Store → Option GoString
get namespace key s = elim (lookup namespace s.namespaces) [
  | none ↦ none
  | some values ↦ elim (lookup key values) [ none ↦ none | some value ↦ some value ]
]

unfoldable pub write : GoString → GoString → GoString → Store → Store
unfolding values_of
write namespace key value s = record s {
  namespaces = insert namespace (insert key value (values_of namespace s)) s.namespaces;
}

-- `remove`: the namespace stays, even when it is empty.
unfoldable pub remove : GoString → GoString → Store → Store
remove namespace key s = elim (lookup namespace s.namespaces) [
  | none ↦ s
  | some values ↦ record s { namespaces = insert namespace (erase key values) s.namespaces }
]

unfoldable pub set : GoString → GoString → GoString → Store → Result StoreError Store
unfolding is_read_only write
set namespace key value s =
    if is_read_only namespace s then err namespace_read_only else ok (write namespace key value s)

unfoldable pub delete : GoString → GoString → Store → Result StoreError Store
unfolding is_read_only remove
delete namespace key s =
    if is_read_only namespace s then err namespace_read_only else ok (remove namespace key s)

unfoldable pub system_set : GoString → GoString → GoString → Store → Store
unfolding write
system_set namespace key value s = write namespace key value s

unfoldable pub system_delete : GoString → GoString → Store → Store
unfolding remove
system_delete namespace key s = remove namespace key s

unfoldable pub keys : {V : Type 0} → Dict GoString V → List GoString
keys [] = []
keys ((k, v) ∷ d) = k ∷ keys d

-- `List`: the namespaces, or the keys of one.
unfoldable pub list : GoString → Store → List GoString
unfolding keys values_of sort_strings
list namespace s =
    if is_empty namespace
    then sort_strings (keys s.namespaces)
    else sort_strings (keys (values_of namespace s))
