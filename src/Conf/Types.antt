-- ===== src/Conf/Types.antt =====
-- internal/conf/types.go: the configuration as a value.
use arupa.Base.{Bool, false, List, [], Option, none, some, GoString}
use arupa.Base.Dict.{Dict}

-- A Go slice of texts; nil is `none`.
abbrev pub Slice : Type 0
Slice = Option (List GoString)

-- The elements that `range` meets.
abbrev pub elements : Slice → List GoString
elements none = []
elements (some xs) = xs

-- A Go map with keys that are texts; nil is `none`.
abbrev pub GoMap : Type 0 → Type 0
GoMap V = Option (Dict GoString V)

abbrev pub entries : {V : Type 0} → GoMap V → Dict GoString V
entries none = []
entries (some d) = d

pub record ApiConfig : Type 0 where
  pub user : Bool
  pub group : Bool
  pub pages : Bool
  pub access : Bool
  pub service : Bool
  pub log : Bool
  pub network : Bool

-- `APIConfig{}`
abbrev pub no_api : ApiConfig
no_api = record {
  user = false;
  group = false;
  pages = false;
  access = false;
  service = false;
  log = false;
  network = false;
}

pub record LogConfig : Type 0 where
  pub format : GoString
  pub level : GoString

abbrev pub no_log : LogConfig
no_log = record { format = []; level = [] }

pub record Service : Type 0 where
  pub restart : GoString
  pub run_as_user : GoString
  pub checksum : GoString
  pub allow : Slice
  pub params : GoMap GoString

abbrev pub no_service : Service
no_service = record { restart = []; run_as_user = []; checksum = []; allow = none; params = none }

-- The embedded structs `Auth` and `ServiceSystem` and the struct `RouteConfig` stand flat.
pub record Config : Type 0 where
  pub listen : GoString
  pub tls : Bool
  pub log : LogConfig
  pub api : ApiConfig
  pub users : GoMap GoString
  pub groups : GoMap Slice
  pub route_allow : GoMap Slice
  pub service_dir : GoString
  pub service_temp_dir : GoString
  pub services : GoMap Service
  pub pages : GoMap GoString

-- `Config{}`
abbrev pub no_config : Config
no_config = record {
  listen = [];
  tls = false;
  log = no_log;
  api = no_api;
  users = none;
  groups = none;
  route_allow = none;
  service_dir = [];
  service_temp_dir = [];
  services = none;
  pages = none;
}
