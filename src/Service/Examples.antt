-- ===== src/Service/Examples.antt =====
-- Runs of internal/service, and its theorems at concrete routes and transports.
mod Running
mod Storing
use arupa.Base.{◌≡◌, ◌≢◌, ◌↔◌, refl, false, [], ◌∷◌, GoString, Option, some, none}
use arupa.Base.{ℕ, Bool, In, true, false, string_eq, key_eq, bool_eq}
use arupa.Base.Dict.{Dict, lookup, insert, erase}
use arupa.Base.Result.{ok}
use arupa.Strings.{bytes, has_prefix, has_suffix, to_upper, trim_space}
use arupa.Netx.Path.{validate_path_pattern}
use arupa.Service.Spec.{Route, Transport, TransportType}
use arupa.Base.{if◌then◌else◌, ◌==◌}
use arupa.Service.Filepath.{
  clean, clean_parts, resolve_parts, split_slash, join_slash, join, rel, strip_common, step_up,
  is_abs,
}
use arupa.Service.Transport.Prepare.Within.{IsWithin, resolve_static_source-IsWithin}
use arupa.Service.Transport.Prepare.{
  World, resolve_static_source, climbs_out_or_none, stat_source, Binding,
}
use arupa.Service.Transport
use arupa.Service.Transport.Prepare.{prepare}
use arupa.Service.Instance.{Instance}
use arupa.Service.Binding.{
  Controller, new_controller, attach, register_transport, register_routes, register_all,
  register_one,
}
use arupa.Service.Binding.Linked.{Linked}
use arupa.Service.Binding.Reachable.{Reachable, Step, Reachable-Linked}
use arupa.Netx.Path.{match_path_pattern}
use arupa.Service.Route.Match.{match_http, best_from, select_method, root_mode, found, not_found}
use arupa.Service.Route.Match.Best.{covers}
use arupa.Service.Route.Match.Decides.{Serves, match_http-found_iff, match_http-not_found_iff}
use arupa.Service.Route.{remove_locked, remove_owner, unregister}
use arupa.Service.Route.Register.{
  Bound, Registry, new_registry, register, reserve, check_http, register_http, find_conflict,
  check_reserve, reserve_all, path_in_use, normalize_method,
}
use arupa.Service.Route.Valid.{IsValid, new_registry-IsValid}
use arupa.Service.Route.Valid.Entry.{register-IsValid}
use arupa.Service.Route.Valid.Remove.{unregister-IsValid}
use arupa.Service.Route.Valid.Owner.{remove_owner-IsValid, remove_owner_iff}
use arupa.Service.Route.Valid.Reserve.{reserve-IsValid}

abbrev shop : GoString
shop = bytes "shop"

abbrev web : Binding
web = record {
  owner = shop;
  declared = record {
    id = bytes "web";
    kind = TransportType.http;
    static_source = [];
    proxy = none;
  };
  endpoint = some 1;
  handler = none;
  static_path = [];
  static_dir = false;
}

-- The transports of the examples: every service has the one.
abbrev all_web : GoString → GoString → Option Binding
all_web owner id = some web

abbrev get_cart : Route
get_cart = record {
  id = bytes "cart";
  transport_id = bytes "web";
  http = some (record {
    method = bytes "GET";
    pattern = bytes "/cart";
    rewrite = none;
    access = record { require_auth = false; groups = [] };
  });
  socket_io = none;
}

abbrev cart : Bound
cart = record { owner = shop; route = get_cart; transport = web }

abbrev no_routes : Registry (Unit {0})
no_routes = new_registry tt

abbrev cart_alone : Registry (Unit {0})
cart_alone = record {
  by_id = ((shop, bytes "cart"), cart) ∷ [];
  http = ((bytes "/cart", bytes "GET"), cart) ∷ [];
  reserved = [];
  socket = tt;
}

no_routes-IsValid : IsValid no_routes
no_routes-IsValid = new_registry-IsValid tt

cart_registered : register none all_web shop get_cart no_routes ≡ ok cart_alone
unfolding register register_http check_http find_conflict normalize_method trim_space to_upper
    validate_path_pattern has_prefix has_suffix lookup insert string_eq bool_eq key_eq
cart_registered = refl

register-IsValid_example : IsValid cart_alone
register-IsValid_example =
    register-IsValid none all_web shop get_cart no_routes cart_alone no_routes-IsValid
      cart_registered

cart_alone-IsValid : IsValid cart_alone
cart_alone-IsValid =
    register-IsValid none all_web shop get_cart no_routes cart_alone no_routes-IsValid
      cart_registered

cart_removed : unregister none shop (bytes " cart") cart_alone ≡ ok no_routes
unfolding unregister remove_locked trim_space to_upper normalize_method lookup erase string_eq
    key_eq
cart_removed = refl

unregister-IsValid_example : IsValid no_routes
unregister-IsValid_example =
    unregister-IsValid none shop (bytes " cart") cart_alone no_routes cart_alone-IsValid
      cart_removed

remove_owner-IsValid_example : IsValid (remove_owner none shop cart_alone)
remove_owner-IsValid_example = remove_owner-IsValid none shop cart_alone cart_alone-IsValid

remove_owner_iff_example :
    (lookup (shop, bytes "cart") (remove_owner none (bytes "ads") cart_alone).by_id ≡ some cart)
    ↔ ((lookup (shop, bytes "cart") cart_alone.by_id ≡ some cart) × (shop ≢ bytes "ads"))
remove_owner_iff_example =
    remove_owner_iff none (bytes "ads") cart_alone (shop, bytes "cart") cart cart_alone-IsValid

abbrev login_reserved : Registry (Unit {0})
login_reserved = record cart_alone { reserved = (bytes "/login", bytes "core") ∷ [] }

login_taken : reserve (bytes "core") (bytes "/login" ∷ []) cart_alone ≡ ok login_reserved
unfolding reserve check_reserve reserve_all path_in_use validate_path_pattern has_prefix has_suffix
    lookup insert string_eq
login_taken = refl

reserve-IsValid_example : IsValid login_reserved
reserve-IsValid_example =
    reserve-IsValid (bytes "core") (bytes "/login" ∷ []) cart_alone login_reserved
      cart_alone-IsValid login_taken

cart_found : match_http (bytes "get") (bytes "/cart") cart_alone.http ≡ found cart
unfolding match_http best_from select_method root_mode normalize_method match_path_pattern
    has_prefix has_suffix trim_space to_upper string_eq
cart_found = refl

match_http-found_iff_example :
    (match_http (bytes "get") (bytes "/cart") cart_alone.http ≡ found cart)
    ↔ Serves cart_alone (bytes "get") (bytes "/cart") cart
match_http-found_iff_example =
    match_http-found_iff cart_alone cart_alone-IsValid (bytes "get") (bytes "/cart") cart

match_http-not_found_iff_example :
    (match_http (bytes "GET") (bytes "/x") cart_alone.http ≡ not_found) ↔ (
      (p m : GoString) (b : Bound)
      → In ((p, m), b) cart_alone.http
      → covers (bytes "/x") p b ≡ false)
match_http-not_found_iff_example =
    match_http-not_found_iff (bytes "GET") (bytes "/x") cart_alone.http

-- A service with two routes at the root: GET over its own connection, POST over a proxy.
abbrev at_root : GoString → TransportType → Bound
at_root method kind = record {
  owner = shop;
  route = record {
    id = method;
    transport_id = method;
    http = some (record {
      method = method;
      pattern = bytes "/";
      rewrite = none;
      access = record { require_auth = false; groups = [] };
    });
    socket_io = none;
  };
  transport = record web {
    declared = record { id = method; kind = kind; static_source = []; proxy = none };
  };
}

abbrev two_at_root : Dict (GoString × GoString) Bound
two_at_root =
    ((bytes "/", bytes "GET"), at_root (bytes "GET") TransportType.http)
    ∷ ((bytes "/", bytes "POST"), at_root (bytes "POST") TransportType.proxy)
    ∷ []

-- The first one alone does not match below the root; with the second one it is found there.
below_root :
    (match_http (bytes "GET") (bytes "/x") two_at_root
      ≡ found (at_root (bytes "GET") TransportType.http))
    × (covers (bytes "/x") (bytes "/") (at_root (bytes "GET") TransportType.http) ≡ false)
unfolding match_http best_from select_method root_mode normalize_method match_path_pattern
    has_prefix has_suffix trim_space to_upper string_eq
below_root = (refl, refl)

-- A file system that holds one directory.
abbrev one_directory : World
one_directory = record {
  stat = λ path. if path == bytes "/srv/shop/static" then some true else none;
  connected = λ i. false;
}

static_resolved :
    resolve_static_source one_directory (bytes "/srv/shop/") (bytes "a/../static")
    ≡ ok (bytes "/srv/shop/static", true)
unfolding resolve_static_source climbs_out_or_none stat_source clean clean_parts resolve_parts
    split_slash join_slash join rel strip_common step_up is_abs has_prefix trim_space string_eq
    bool_eq
static_resolved = refl

resolve_static_source-IsWithin_example :
    IsWithin (clean (bytes "/srv/shop/")) (bytes "/srv/shop/static")
    × (one_directory.stat (bytes "/srv/shop/static") ≡ some true)
resolve_static_source-IsWithin_example =
    resolve_static_source-IsWithin one_directory (bytes "/srv/shop/") (bytes "a/../static")
      (bytes "/srv/shop/static") true static_resolved
