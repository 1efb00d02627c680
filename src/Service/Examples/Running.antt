-- ===== src/Service/Examples/Running.antt =====
-- A service that attaches, declares a transport and registers a route.
use arupa.Base.{◌≢◌, ◌++◌}
use arupa.Service.Spec.{ServiceRecord}
use arupa.Service.Instance.{close}
use arupa.Service.Instance.Laws.{close-close}
use arupa.Service.Route.{uses_transport}
use arupa.Service.Binding.{unregister_transport}
use arupa.Service.Binding.Spaced.{unregister_transport-register_transport}
use arupa.Base.{◌≡◌, refl, false, [], ◌∷◌, GoString, Option, some, none}
use arupa.Base.{ℕ, Bool, true, false, string_eq, key_eq, bool_eq}
use arupa.Base.Dict.{lookup, insert, erase}
use arupa.Base.Result.{ok}
use arupa.Strings.{bytes, has_prefix, has_suffix, to_upper, trim_space}
use arupa.Netx.Path.{validate_path_pattern}
use arupa.Service.Spec.{Transport, TransportType}
use arupa.Service.Transport
use arupa.Service.Transport.Prepare.{prepare}
use arupa.Service.Instance.{Instance}
use arupa.Service.Binding.{
  Controller, new_controller, attach, register_transport, register_routes, register_all,
  register_one,
}
use arupa.Service.Binding.Linked.{Linked}
use arupa.Service.Binding.Reachable.{Reachable, Step, Reachable-Linked}
use arupa.Service.Route.Register.{
  register, check_http, register_http, find_conflict, normalize_method,
}
use arupa.Service.Examples.{shop, get_cart, cart}

-- A service whose instance is at address 1: it is attached, declares a transport and a route.
abbrev running : ℕ → Instance
running i = record {
  connected = true;
  service_record = none;
  access = none;
  cancelled = false;
  degraded = false;
  broker_stopped = false;
  close_backend = none;
  stop_host_broker = false;
  cleanup_dirs = [];
  close_done = false;
  close_err = none;
  backend_closes = 0;
}

abbrev no_files : GoString → Option Bool
no_files path = none

abbrev shop_attached : Controller (Unit {0})
shop_attached = record (new_controller tt running) {
  sessions = (shop, record { owner = 1; root = bytes "/srv/shop"; inherited = [] }) ∷ [];
}

shop_attaches :
    attach (bytes " shop") (some 1) (bytes "/srv/shop") [] (new_controller tt running)
    ≡ ok shop_attached
unfolding attach trim_space lookup insert string_eq
shop_attaches = refl

abbrev web_declared : Transport
web_declared = record {
  id = bytes "web";
  kind = TransportType.http;
  static_source = [];
  proxy = none;
}

abbrev shop_with_web : Controller (Unit {0})
shop_with_web = (register_transport no_files shop web_declared shop_attached).0

abbrev shop_with_cart : Controller (Unit {0})
shop_with_cart = (register_routes none shop (get_cart ∷ []) shop_with_web).0

cart_served : lookup (shop, bytes "cart") shop_with_cart.routes.by_id ≡ some cart
unfolding register_transport register_routes register_all register_one Transport.register prepare
    Transport.lookup_transport register register_http check_http find_conflict normalize_method
    trim_space to_upper validate_path_pattern has_prefix has_suffix lookup insert string_eq bool_eq
    key_eq
cart_served = refl

shop_with_cart-Reachable : Reachable none shop_with_cart
shop_with_cart-Reachable =
    Reachable.next
      (Reachable.next
        (Reachable.next (Reachable.start tt running)
          (Step.attached (bytes " shop") (some 1) (bytes "/srv/shop") [] shop_attaches))
        (Step.transport_registered no_files shop web_declared))
      (Step.routes_registered shop (get_cart ∷ []))

Reachable-Linked_example : Linked shop_with_cart
Reachable-Linked_example = Reachable-Linked none shop_with_cart shop_with_cart-Reachable

abbrev shop_record : ServiceRecord
shop_record = record {
  instance_id = bytes "1";
  name = shop;
  version = bytes "2";
  kind = bytes "grpc";
  path = bytes "/srv/shop";
  transports = [];
  routes = [];
}

abbrev shop_instance : Instance
shop_instance = record (running 1) {
  service_record = some shop_record;
  close_backend = some none;
  cleanup_dirs = bytes "/tmp/shop" ∷ [];
}

close-close_example :
    close (λ _. none) (close (λ _. some (bytes "busy")) shop_instance).0
    ≡ close (λ _. some (bytes "busy")) shop_instance
close-close_example = close-close (λ _. some (bytes "busy")) (λ _. none) shop_instance

abbrev spaced : Transport
spaced = record web_declared { id = bytes " web" }

abbrev shop_published : Controller (Unit {0})
shop_published = record shop_attached { instances = λ _. shop_instance }

spaced_registers : (register_transport no_files shop spaced shop_published).1 ≡ ok tt
unfolding register_transport Transport.register prepare trim_space lookup insert string_eq key_eq
spaced_registers = refl

spaced_unregisters :
    (unregister_transport shop spaced.id
      (register_transport no_files shop spaced shop_published).0).1
    ≡ ok tt
unfolding unregister_transport register_transport Transport.register Transport.unregister prepare
    uses_transport trim_space lookup insert erase string_eq key_eq
spaced_unregisters = refl

shop_is_attached :
    lookup shop shop_published.sessions
    ≡ some (record { owner = 1; root = bytes "/srv/shop"; inherited = [] })
unfolding lookup string_eq
shop_is_attached = refl

unregister_transport-register_transport_example :
    (let after =
        (unregister_transport shop spaced.id
          (register_transport no_files shop spaced shop_published).0).0 in
      (Transport.lookup_transport shop (trim_space spaced.id) after.transports ≡ none)
      × (spaced.id ≡ trim_space spaced.id → (after.instances 1).service_record ≡ some shop_record)
      × (spaced.id ≢ trim_space spaced.id
          → (after.instances 1).service_record
            ≡ some (record shop_record { transports = shop_record.transports ++ (spaced ∷ []) })))
unregister_transport-register_transport_example =
    unregister_transport-register_transport no_files shop spaced shop_published
      (record { owner = 1; root = bytes "/srv/shop"; inherited = [] }) shop_record shop_is_attached
      refl (λ t m. absurd m) spaced_registers spaced_unregisters
