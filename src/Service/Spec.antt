-- ===== src/Service/Spec.antt =====
-- internal/service/spec/types.go: the declarations that services make.
use arupa.Base.{Bool, List, Option, GoString}
use arupa.Base.Dict.{Dict}
use arupa.Auth.Policy.{AccessPolicy}

-- A Go string type with named constants; any other text is `unknown`.
pub data TransportType : Type 0 where
  static http socket_io proxy : TransportType
  unknown : GoString → TransportType

pub data ProxyNetwork : Type 0 where
  inherited unix tcp : ProxyNetwork
  unknown : GoString → ProxyNetwork

pub record ProxyTarget : Type 0 where
  pub network : ProxyNetwork
  pub address : GoString
  pub scheme : GoString

pub record Transport : Type 0 where
  pub id : GoString
  pub kind : TransportType  -- `Type`
  pub static_source : GoString
  pub proxy : Option ProxyTarget

pub record RewriteRule : Type 0 where
  pub prefix : Bool
  pub location : Bool

pub record HttpRoute : Type 0 where
  pub method : GoString
  pub pattern : GoString
  pub rewrite : Option RewriteRule
  pub access : AccessPolicy

pub record SocketIoRoute : Type 0 where
  pub namespace : GoString
  pub events : List GoString
  pub access : AccessPolicy
  pub event_access : Dict GoString AccessPolicy

pub record Route : Type 0 where
  pub id : GoString
  pub transport_id : GoString
  pub http : Option HttpRoute
  pub socket_io : Option SocketIoRoute

pub record ServiceRecord : Type 0 where
  pub instance_id : GoString
  pub name : GoString
  pub version : GoString
  pub kind : GoString  -- `Type`
  pub path : GoString
  pub transports : List Transport
  pub routes : List Route
