-- ===== src/Service/Route.antt =====
-- internal/service/route/registry.go: the route table of the control plane and the data plane.
-- Its lock makes every operation one step.
pub mod Socket
pub mod Register
pub mod Match
pub mod Valid
use arupa.Base.{Bool, true, false, List, [], ◌∷◌, Option, none, some, GoString, string_eq, key_eq}
use arupa.Base.{◌==◌, if◌then◌else◌, ◌&&◌, ◌||◌}
use arupa.Base.Dict.{Dict, lookup, erase}
use arupa.Base.Result.{Result, ok, err}
use arupa.Strings.{trim_space}
use arupa.Service.Spec.{HttpRoute, SocketIoRoute}
use arupa.Service.Route.Socket.{SocketRegistry}
use arupa.Service.Route.Register.{Bound, Registry, RouteError, normalize_method}

unfoldable pub uses_transport : GoString → GoString → Dict (GoString × GoString) Bound → Bool
uses_transport owner id [] = false
uses_transport owner id ((_, current) ∷ by_id) =
    (current.owner == owner && current.route.transport_id == id) || uses_transport owner id by_id

module _ {S : Type 0} (socket : Option (SocketRegistry S)) where
  abbrev drop_namespace : Bound → Option SocketIoRoute → S → S
  drop_namespace current none s = s
  drop_namespace current (some declaration) s = elim socket [
    | none ↦ s
    | some ops ↦ ops.unregister current.owner declaration.namespace s
  ]

  -- `removeLocked`
  unfoldable pub remove_locked : GoString × GoString → Bound → Registry S → Registry S
  remove_locked k current r = elim current.route.http [
    | some declaration ↦ record r {
      by_id = erase k r.by_id;
      http = erase (declaration.pattern, normalize_method declaration.method) r.http;
    }
    | none ↦ record r {
      by_id = erase k r.by_id;
      socket = drop_namespace current current.route.socket_io r.socket;
    }
  ]

  unfoldable pub unregister : GoString → GoString → Registry S → Result RouteError (Registry S)
  unregister owner id r =
      let k : GoString × GoString = (owner, trim_space id) in
      elim (lookup k r.by_id) [
        | none ↦ err RouteError.not_registered
        | some current ↦ ok (remove_locked k current r)
      ]

  -- The loop over the table, whose entries are those when it starts: it deletes only the entry
  -- that it stands at.
  unfoldable pub remove_owned :
      GoString → Dict (GoString × GoString) Bound → Registry S → Registry S
  remove_owned owner [] r = r
  remove_owned owner ((k, current) ∷ entries) r =
      remove_owned owner entries (if current.owner == owner then remove_locked k current r else r)

  unfoldable pub remove_owner : GoString → Registry S → Registry S
  unfolding remove_owned
  remove_owner owner r =
      let removed = remove_owned owner r.by_id r in
      elim socket [
        | none ↦ removed
        | some ops ↦ record removed { socket = ops.remove_owner owner removed.socket }
      ]
