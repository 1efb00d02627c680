-- ===== src/Service/Transport/Prepare.antt =====
-- How a declared transport becomes a binding: the static source in the service's directory, the
-- address of a proxy.
pub mod Within
use arupa.Base.{ℕ, Bool, true, false, not, ◌&&◌, ◌||◌, [], ◌∷◌, Option, none, some}
use arupa.Base.{GoString, string_eq, ◌==◌, is_empty}
use arupa.Base.Dict.{Dict, lookup}
use arupa.Base.Result.{Result, ok, err, ◌>>=◌, ◌>>◌, reject_if}
use arupa.Strings.{bytes, has_prefix, trim_space, to_lower}
use arupa.Service.Filepath.{clean, is_abs, join, rel, dot, dot_dot}
use arupa.Service.Spec.{Transport, TransportType, ProxyTarget, ProxyNetwork}

pub data TransportError : Type 0 where
  owner_required id_required already_registered not_registered : TransportError
  needs_connection no_root source_not_relative source_escapes source_missing : TransportError
  proxy_required bad_scheme listener_unavailable address_not_absolute : TransportError
  address_required : TransportError
  unsupported_type unsupported_network : GoString → TransportError

-- What the operating system and the running instances tell: for a path, whether it is a directory,
-- or `none` if `os.Stat` fails; for an endpoint, whether it has a connection.
pub record World : Type 0 where
  pub stat : GoString → Option Bool
  pub connected : ℕ → Bool

-- An endpoint is the address of an instance, or nil.
pub record Session : Type 0 where
  pub endpoint : Option ℕ
  pub root : GoString
  pub inherited : Dict GoString GoString

-- A reverse proxy: the upstream URL, and the Unix socket that it is dialled through.
pub record ProxyHandler : Type 0 where
  pub upstream_scheme : GoString
  pub upstream_host : GoString
  pub unix_socket : Option GoString

-- `Binding`; it has something to close exactly if it has a handler.
pub record Binding : Type 0 where
  pub owner : GoString
  pub declared : Transport  -- `spec`
  pub endpoint : Option ℕ
  pub handler : Option ProxyHandler
  pub static_path : GoString
  pub static_dir : Bool

-- `p == ".." || strings.HasPrefix(p, "../")`
abbrev pub climbs_out : GoString → Bool
climbs_out p = p == dot_dot || has_prefix p (bytes "../")

unfoldable pub climbs_out_or_none : Option GoString → Bool
climbs_out_or_none none = true
climbs_out_or_none (some p) = climbs_out p

unfoldable pub stat_source : World → GoString → Result TransportError (GoString × Bool)
stat_source w path = elim (w.stat path) [
  | none ↦ err source_missing
  | some is_dir ↦ ok (path, is_dir)
]

unfoldable pub resolve_static_source :
    World → GoString → GoString → Result TransportError (GoString × Bool)
unfolding climbs_out_or_none stat_source
resolve_static_source w root source = do
  let root' = clean root
  let source' = trim_space source
  reject_if (root' == dot || is_empty root') no_root
  reject_if (is_empty source' || is_abs source') source_not_relative
  let clean' = clean source'
  reject_if (climbs_out clean') source_escapes
  let path = join root' clean'
  reject_if (climbs_out_or_none (rel root' path)) source_escapes
  stat_source w path

abbrev http_scheme : GoString
http_scheme = bytes "http"

abbrev or_default : GoString → GoString → GoString
or_default [] default = default
or_default (b ∷ s) default = b ∷ s

-- `inherited[id]`, empty where the key is missing.
abbrev text_at : GoString → Dict GoString GoString → GoString
text_at k d = elim (lookup k d) [ none ↦ [] | some v ↦ v ]

abbrev over_socket : GoString → GoString → ProxyHandler
over_socket scheme address = record {
  upstream_scheme = scheme;
  upstream_host = bytes "service";
  unix_socket = some address;
}

-- The switch over the network.
dial :
    GoString → GoString → Dict GoString GoString → ProxyNetwork → Result TransportError ProxyHandler
dial scheme address inherited ProxyNetwork.inherited = do
  let address' = text_at (or_default address (bytes "proxy")) inherited
  reject_if (is_empty address') listener_unavailable
  ok (over_socket scheme address')
dial scheme address inherited ProxyNetwork.unix = do
  reject_if (not (is_abs address)) address_not_absolute
  ok (over_socket scheme address)
dial scheme address inherited ProxyNetwork.tcp = do
  reject_if (is_empty address) address_required
  ok (record { upstream_scheme = scheme; upstream_host = address; unix_socket = none })
dial scheme address inherited (ProxyNetwork.unknown text) = err (unsupported_network text)

unfoldable pub new_proxy_handler :
    Option ProxyTarget → Dict GoString GoString → Result TransportError ProxyHandler
unfolding dial
new_proxy_handler none inherited = err proxy_required
new_proxy_handler (some target) inherited = do
  let scheme = or_default (to_lower (trim_space target.scheme)) http_scheme
  reject_if (not (scheme == http_scheme) && not (scheme == bytes "https")) bad_scheme
  dial scheme (trim_space target.address) inherited target.network

-- A binding before the switch over its type.
abbrev plain_binding : GoString → Transport → Session → Binding
plain_binding owner declaration session = record {
  owner = owner;
  declared = declaration;
  endpoint = session.endpoint;
  handler = none;
  static_path = [];
  static_dir = false;
}

-- `session.Endpoint == nil || session.Endpoint.Connection() == nil`
abbrev unconnected : World → Option ℕ → Bool
unconnected w none = true
unconnected w (some i) = not (w.connected i)

prepare_kind : World → Binding → Session → TransportType → Result TransportError Binding
prepare_kind w b session TransportType.http = do
  reject_if (unconnected w session.endpoint) needs_connection
  ok b
prepare_kind w b session TransportType.socket_io = do
  reject_if (unconnected w session.endpoint) needs_connection
  ok b
prepare_kind w b session TransportType.static = do
  resolved ← resolve_static_source w session.root b.declared.static_source
  ok (record b { static_path = resolved.0; static_dir = resolved.1 })
prepare_kind w b session TransportType.proxy = do
  handler ← new_proxy_handler b.declared.proxy session.inherited
  ok (record b { handler = some handler })
prepare_kind w b session (TransportType.unknown text) = err (unsupported_type text)

unfoldable pub prepare : World → GoString → Transport → Session → Result TransportError Binding
unfolding prepare_kind
prepare w owner declaration session =
    prepare_kind w (plain_binding owner declaration session) session declaration.kind
