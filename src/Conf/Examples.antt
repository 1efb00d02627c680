-- ===== src/Conf/Examples.antt =====
-- Runs of internal/conf, and its theorems at concrete configurations.
mod Checking
mod Updating
use arupa.Base.{ℕ, ◌≡◌, ◌≢◌, ◌↔◌, ◌⊎◌, ◌<◌, refl, true, false, List, [], ◌∷◌, Option, none}
use arupa.Base.{some, GoString, string_eq, length, In, arith}
use arupa.Base.Dict.{NodupKeys, lookup, insert, erase}
use arupa.Base.Result.{ok}
use arupa.Strings.{bytes}
use arupa.Service.Filepath.{split_slash}
use arupa.Strings.Sort.{sort_strings, insert_sorted, string_leb}
use arupa.Auth.Policy.{AccessPolicy, AccessDecision, check}
use arupa.Conf.Types.{Slice, GoMap, elements, entries, no_log, no_api}
use arupa.Conf.Pointer.{join_path, parse_pointer, replace_slash, replace_tilde}
use arupa.Conf.Pointer.RoundTrip.{parse_pointer-join_path, parse_pointer_iff}
use arupa.Conf.Groups.{at, index_groups_by_user}
use arupa.Conf.Groups.Members.{groups_of, at-index_groups_by_user, In-index_groups_by_user_iff}
use arupa.Conf.Groups.Access.{configured_user, IsMember, check-configured_iff}
use arupa.Conf.Keys.{valid_toml_key}
use arupa.Conf.Keys.Schema.{leads, config_schema, valid_toml_key_iff}
use arupa.Conf.Heap.{Ref, Heap, read_cell, write_cell, read_ref}
use arupa.Conf.Editor.{ConfigCell, new_editor}
use arupa.Conf.Editor.Request.{Value, OperationType, Operation, as_string_map, as_text, is_nil}
use arupa.Conf.Editor.Maps.{Field, apply_map}
use arupa.Conf.Editor.Maps.Reads.{Changes, IsAllocated, reads, held, plain, apply_map-plain}
use arupa.Conf.Editor.Apply.{apply_operations}
use arupa.Conf.Editor.Apply.Safe.{apply_operations-shared}

-- "Users", "a/b~" is written as "/Users/a~1b~0".
join_path_test : join_path (bytes "Users" ∷ bytes "a/b~" ∷ []) ≡ bytes "/Users/a~1b~0"
unfolding join_path replace_slash replace_tilde
join_path_test = refl

parse_pointer-join_path_example :
    parse_pointer (join_path (bytes "Users" ∷ bytes "a/b~" ∷ []))
    ≡ ok (bytes "Users" ∷ bytes "a/b~" ∷ [])
parse_pointer-join_path_example = parse_pointer-join_path (bytes "Users") (bytes "a/b~" ∷ [])

parse_pointer_iff_example :
    (parse_pointer (bytes "/Users/a~1b") ≡ ok (bytes "Users" ∷ bytes "a/b" ∷ [])) ↔ (
      (◌≢◌ {A = List GoString} (bytes "Users" ∷ bytes "a/b" ∷ []) [])
      × (join_path (bytes "Users" ∷ bytes "a/b" ∷ []) ≡ bytes "/Users/a~1b"))
parse_pointer_iff_example =
    parse_pointer_iff (bytes "/Users/a~1b") (bytes "Users" ∷ bytes "a/b" ∷ [])

-- Two groups, one of which lists a user twice.
abbrev groups : GoMap Slice
groups = some (
    (bytes "ops", some (bytes "ann" ∷ bytes "ann" ∷ []))
    ∷ (bytes "dev", some (bytes "ann" ∷ bytes "bob" ∷ []))
    ∷ (bytes "idle", none)
    ∷ [])

groups-NodupKeys : NodupKeys (entries groups)
unfolding lookup string_eq
groups-NodupKeys = (refl, (refl, (refl, tt)))

index_test : at (bytes "ann") (index_groups_by_user groups) ≡ bytes "dev" ∷ bytes "ops" ∷ []
unfolding at index_groups_by_user lookup string_eq insert sort_strings insert_sorted string_leb
index_test = refl

at-index_groups_by_user_example :
    at (bytes "ann") (index_groups_by_user groups)
    ≡ sort_strings (groups_of (bytes "ann") (entries groups))
at-index_groups_by_user_example = at-index_groups_by_user (bytes "ann") groups

In-index_groups_by_user_iff_example :
    In (bytes "dev") (at (bytes "bob") (index_groups_by_user groups)) ↔ (
      (users : Slice) × (lookup (bytes "dev") (entries groups) ≡ some users)
      × In (bytes "bob") (elements users))
In-index_groups_by_user_iff_example =
    In-index_groups_by_user_iff (bytes "bob") (bytes "dev") groups groups-NodupKeys

abbrev ops_only : AccessPolicy
ops_only = record { require_auth = true; groups = bytes "ops" ∷ [] }

bob-named : bytes "bob" ≢ []
bob-named q = cc

check-configured_iff_example :
    (check ops_only (configured_user groups (bytes "bob")) ≡ AccessDecision.access_allowed) ↔ (
      (◌≡◌ {A = List GoString} ops_only.groups [])
      ⊎ IsMember groups (bytes "bob") (bytes "ops" ∷ []))
check-configured_iff_example =
    check-configured_iff groups groups-NodupKeys (bytes "bob") bob-named ops_only

valid_toml_key_test : valid_toml_key (bytes "Services" ∷ bytes "s" ∷ bytes "restart" ∷ []) ≡ false
unfolding valid_toml_key string_eq
valid_toml_key_test = refl

-- The spelling of the comment at `Service.Params`.
params_key_test : valid_toml_key (bytes "Services" ∷ bytes "s" ∷ bytes "params" ∷ []) ≡ false
unfolding valid_toml_key string_eq
params_key_test = refl

valid_toml_key_iff_example :
    valid_toml_key (bytes "Services" ∷ bytes "s" ∷ bytes "Params" ∷ bytes "p" ∷ [])
    ≡ leads config_schema (bytes "Services" ∷ bytes "s" ∷ bytes "Params" ∷ bytes "p" ∷ [])
valid_toml_key_iff_example =
    valid_toml_key_iff (bytes "Services" ∷ bytes "s" ∷ bytes "Params" ∷ bytes "p" ∷ [])

-- A configuration with one user and one group, and operations of which the last fails.
abbrev heap : Heap
heap = record {
  strings = ((bytes "ann", bytes "hash") ∷ []) ∷ [];
  slices = ((bytes "ops", some (bytes "ann" ∷ [])) ∷ []) ∷ [];
  services = [];
}

abbrev current : ConfigCell
current = record {
  listen = [];
  tls = false;
  log = no_log;
  api = no_api;
  users = some 0;
  groups = some 0;
  route_allow = none;
  service_dir = [];
  service_temp_dir = [];
  services = none;
  pages = none;
}

abbrev set_user : Operation
set_user = record {
  kind = OperationType.set;
  path = bytes "/Users/bob";
  value = Value.text (bytes "other");
}

abbrev operations : List Operation
operations =
    set_user
    ∷ record { kind = OperationType.remove; path = bytes "/Groups/ops"; value = Value.nil }
    ∷ record { kind = OperationType.set; path = bytes "/Nothing"; value = Value.text [] }
    ∷ []

abbrev keep_document : Operation → List GoString → ℕ → Option ℕ
keep_document op segments document = some document

-- The editor's own users have the new user; those of the configuration do not.
apply_operations_test :
    (let after = (apply_operations keep_document operations 0 (new_editor current heap)).0 in
      (lookup (bytes "bob") (read_ref after.next.users after.heap.strings) ≡ some (bytes "other"))
      × (read_ref after.next.groups after.heap.slices ≡ [])
      × (read_cell 0 after.heap.slices ≡ (bytes "ops", some (bytes "ann" ∷ [])) ∷ []))
unfolding apply_operations new_editor parse_pointer lookup string_eq read_cell insert erase is_nil
    split_slash write_cell
apply_operations_test = (refl, refl, refl)

apply_operations-shared_example :
    (let after = (apply_operations keep_document operations 0 (new_editor current heap)).0.heap in
      ((a : ℕ) → a < length heap.strings → read_cell a after.strings ≡ read_cell a heap.strings)
      × ((a : ℕ) → a < length heap.slices → read_cell a after.slices ≡ read_cell a heap.slices)
      × ((a : ℕ)
          → a < length heap.services
          → read_cell a after.services ≡ read_cell a heap.services))
apply_operations-shared_example = apply_operations-shared keep_document operations 0 current heap

abbrev users : Field GoString
users = record { ref = some 0; owned = false; cells = heap.strings }

users-IsAllocated : IsAllocated users
users-IsAllocated a q = by a q
  where
    by : (a : ℕ) → ◌≡◌ {A = Ref} (some 0) (some a) → a < 1
    by a q = let e : 0 ≡ a = cc in omega arith

apply_map-plain_example :
    (let x = apply_map as_string_map as_text set_user (bytes "bob" ∷ []) users in
      ◌≡◌ {A = Changes GoString}
        (reads x.0, x.1)
        (plain (held as_string_map users.cells) as_text set_user (bytes "bob" ∷ []) (reads users)))
apply_map-plain_example =
    apply_map-plain as_string_map as_text set_user (bytes "bob" ∷ []) users users-IsAllocated
