-- ===== src/Conf/Keys/Schema.antt =====
-- The configuration's fields as a tree, and the paths that lead into it.
use arupa.Base.{◌≡◌, refl, sym, ap, ◌∙◌, Bool, true, false, ◌&&◌, ◌||◌, List, [], ◌∷◌, GoString}
use arupa.Base.{string_eq, ◌==◌, if◌then◌else◌, is_empty}
use arupa.Strings.{bytes}
use arupa.Conf.Keys.{
  valid_toml_key, valid_log_key, valid_api_key, valid_map_key, valid_route_key, valid_service_key,
}

-- A value, a table with named fields, or a map from names.
mutual
  pub data Schema : Type 0 where
    leaf : Schema
    table : Fields → Schema
    each : Schema → Schema

  pub data Fields : Type 0 where
    stop : Fields
    field : GoString → Schema → Fields → Fields

-- A path leads to a part of the tree.
mutual
  pub leads : Schema → List GoString → Bool
  leads s [] = true
  leads Schema.leaf (name ∷ rest) = false
  leads (Schema.table fields) (name ∷ rest) = leads_in fields name rest
  leads (Schema.each s) (name ∷ rest) = leads s rest

  leads_in : Fields → GoString → List GoString → Bool
  leads_in Fields.stop name rest = false
  leads_in (Fields.field f s fields) name rest =
      if name == f then leads s rest else leads_in fields name rest

-- Fields that are values.
abbrev pub values : List GoString → Fields → Fields
values [] fields = fields
values (f ∷ names) fields = Fields.field f Schema.leaf (values names fields)

abbrev pub service_schema : Schema
service_schema = Schema.table (
    values (bytes "Restart" ∷ bytes "RunAsUser" ∷ bytes "Checksum" ∷ bytes "Allow" ∷ [])
      (Fields.field (bytes "Params") (Schema.each Schema.leaf) Fields.stop))

abbrev log_schema : Schema
log_schema = Schema.table (values (bytes "Format" ∷ bytes "Level" ∷ []) Fields.stop)

abbrev api_schema : Schema
api_schema = Schema.table (
    values
      (bytes "User"
        ∷ bytes "Group"
        ∷ bytes "Pages"
        ∷ bytes "Access"
        ∷ bytes "Service"
        ∷ bytes "Log"
        ∷ bytes "Network"
        ∷ [])
      Fields.stop)

abbrev route_schema : Schema
route_schema = Schema.table (Fields.field (bytes "Allow") (Schema.each Schema.leaf) Fields.stop)

abbrev pub config_schema : Schema
config_schema = Schema.table (
    values (bytes "Listen" ∷ bytes "TLS" ∷ bytes "ServiceDir" ∷ bytes "ServiceTempDir" ∷ []) (
      Fields.field (bytes "Log") log_schema (
        Fields.field (bytes "API") api_schema (
          Fields.field (bytes "Users") (Schema.each Schema.leaf) (
            Fields.field (bytes "Groups") (Schema.each Schema.leaf) (
              Fields.field (bytes "Pages") (Schema.each Schema.leaf) (
                Fields.field (bytes "Route") route_schema
                  (Fields.field (bytes "Services") (Schema.each service_schema) Fields.stop))))))))

-- A test of several names, and the tests one after the other.
module _ {x x' y y' : Bool} (p : x ≡ x') (q : y ≡ y') where
  if_cong : (a : Bool) → (if a then x else y) ≡ (if a then x' else y')
  if_cong true = p
  if_cong false = q

  any_3 :
      (a b c : Bool)
      → (if a || b || c then x else y) ≡ (if a then x' else if b then x' else if c then x' else y')
  any_3 true b c = p
  any_3 false true c = p
  any_3 false false true = p
  any_3 false false false = q

  any_4 :
      (a b c d : Bool)
      → (if a || b || c || d then x else y)
        ≡ (if a then x' else if b then x' else if c then x' else if d then x' else y')
  any_4 true b c d = p
  any_4 false true c d = p
  any_4 false false true d = p
  any_4 false false false true = p
  any_4 false false false false = q

leaf_lem : (rest : List GoString) → is_empty rest ≡ leads Schema.leaf rest
unfolding leads
leaf_lem [] = refl
leaf_lem (x ∷ rest) = refl

map_lem : (rest : List GoString) → valid_map_key rest ≡ leads (Schema.each Schema.leaf) rest
unfolding leads valid_map_key
map_lem [] = refl
map_lem (x ∷ rest) = leaf_lem rest

log_lem : (rest : List GoString) → valid_log_key rest ≡ leads log_schema rest
unfolding leads valid_log_key
log_lem [] = refl
log_lem (x ∷ []) = by (x == bytes "Format") (x == bytes "Level")
  where
    by : (a b : Bool) → (a || b) ≡ (if a then true else if b then true else false)
    by true b = refl
    by false true = refl
    by false false = refl
log_lem (x ∷ y ∷ rest) = sym (none_of (x == bytes "Format") (x == bytes "Level"))
  where
    none_of : (a b : Bool) → (if a then false else if b then false else false) ≡ false
    none_of true b = refl
    none_of false true = refl
    none_of false false = refl

service_lem :
    (rest : List GoString) → valid_service_key rest ≡ leads (Schema.each service_schema) rest
unfolding leads valid_service_key
service_lem [] = refl
service_lem (name ∷ []) = refl
service_lem (name ∷ f ∷ rest) =
    any_4 (leaf_lem rest) (if_cong (map_lem rest) refl (f == bytes "Params")) (f == bytes "Restart")
      (f == bytes "RunAsUser") (f == bytes "Checksum") (f == bytes "Allow")

route_lem : (rest : List GoString) → valid_route_key rest ≡ leads route_schema rest
unfolding leads valid_route_key
route_lem [] = refl
route_lem (x ∷ rest) = by (x == bytes "Allow")
  where
    by :
        (a : Bool)
        → (a && valid_map_key rest) ≡ (if a then leads (Schema.each Schema.leaf) rest else false)
    by true = map_lem rest
    by false = refl

capability_lem :
    (a b c d e f g x : Bool)
    → (if x then a || b || c || d || e || f || g else false) ≡ (
        if a
        then x
        else if b
        then x
        else if c
        then x
        else if d
        then x
        else if e
        then x
        else if f
        then x
        else if g
        then x
        else false)
capability_lem true b c d e f g true = refl
capability_lem true b c d e f g false = refl
capability_lem false b c d e f g x = under b c d e f g x
  where
    under :
        (b c d e f g x : Bool)
        → (if x then b || c || d || e || f || g else false) ≡ (
            if b
            then x
            else if c
            then x
            else if d
            then x
            else if e
            then x
            else if f
            then x
            else if g
            then x
            else false)
    under true c d e f g true = refl
    under true c d e f g false = refl
    under false true d e f g true = refl
    under false true d e f g false = refl
    under false false true e f g true = refl
    under false false true e f g false = refl
    under false false false true f g true = refl
    under false false false true f g false = refl
    under false false false false true g true = refl
    under false false false false true g false = refl
    under false false false false false true true = refl
    under false false false false false true false = refl
    under false false false false false false true = refl
    under false false false false false false false = refl

api_lem : (rest : List GoString) → valid_api_key rest ≡ leads api_schema rest
unfolding leads valid_api_key
api_lem [] = refl
api_lem (x ∷ rest) =
    capability_lem (x == bytes "User") (x == bytes "Group") (x == bytes "Pages")
      (x == bytes "Access") (x == bytes "Service") (x == bytes "Log") (x == bytes "Network")
      (is_empty rest)
    ∙ ap (λ b. chosen x b) (leaf_lem rest)
  where
    chosen : GoString → Bool → Bool
    chosen x b =
        if x == bytes "User"
        then b
        else if x == bytes "Group"
        then b
        else if x == bytes "Pages"
        then b
        else if x == bytes "Access"
        then b
        else if x == bytes "Service"
        then b
        else if x == bytes "Log"
        then b
        else if x == bytes "Network"
        then b
        else false

-- A key of the configuration file is accepted exactly if it leads into the tree of the
-- configuration's fields: along fields with their exact names, and any name below a map.
pub valid_toml_key_iff : (key : List GoString) → valid_toml_key key ≡ leads config_schema key
unfolding leads valid_toml_key
valid_toml_key_iff [] = refl
valid_toml_key_iff (name ∷ rest) =
    any_4 (leaf_lem rest)
      (if_cong (log_lem rest)
        (if_cong (api_lem rest)
          (any_3 (map_lem rest)
            (if_cong (route_lem rest) (if_cong (service_lem rest) refl (name == bytes "Services"))
              (name == bytes "Route"))
            (name == bytes "Users") (name == bytes "Groups") (name == bytes "Pages"))
          (name == bytes "API"))
        (name == bytes "Log"))
      (name == bytes "Listen") (name == bytes "TLS") (name == bytes "ServiceDir")
      (name == bytes "ServiceTempDir")
