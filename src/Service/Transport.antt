-- ===== src/Service/Transport.antt =====
-- internal/service/transport/registry.go: the transports that services have registered.
pub mod Prepare
pub mod Laws
use arupa.Base.{ℕ, Bool, true, false, List, [], ◌∷◌, ◌++◌, map, Option, none, some, GoString}
use arupa.Base.{string_eq, key_eq, ◌==◌, if◌then◌else◌, is_empty}
use arupa.Base.Dict.{Dict, lookup, insert, erase, remove_where}
use arupa.Base.Result.{Result, ok, err, ◌>>=◌, ◌>>◌, reject_if}
use arupa.Strings.{trim_space}
use arupa.Service.Spec.{Transport}
use arupa.Service.Transport.Prepare.{Binding, Session, World, TransportError, prepare}

-- The registry, and the bindings that were closed so far, in order.
pub record Registry : Type 0 where
  pub transports : Dict (GoString × GoString) Binding
  pub closed : List Binding

abbrev pub new_registry : Registry
new_registry = record { transports = []; closed = [] }

-- A failed call returns the registry too, since the prepared binding may have been closed.
unfoldable pub register :
    World → GoString → Transport → Session → Registry → Registry × Result TransportError (Unit {0})
register w owner declaration session r =
    let owner' = trim_space owner in
    let id = trim_space declaration.id in
    let declaration' = record declaration { id = id } in
    if is_empty owner'
    then (r, err TransportError.owner_required)
    else if is_empty id
    then (r, err TransportError.id_required)
    else elim (prepare w owner' declaration' session) [
      | err e ↦ (r, err e)
      | ok b ↦ elim (lookup (owner', id) r.transports) [
        | some _ ↦
            (record r { closed = r.closed ++ (b ∷ []) }, err TransportError.already_registered)
        | none ↦ (record r { transports = insert (owner', id) b r.transports }, ok tt)
      ]
    ]

unfoldable pub unregister :
    GoString → GoString → Registry → Registry × Result TransportError (Unit {0})
unregister owner id r =
    let key : GoString × GoString = (owner, trim_space id) in
    elim (lookup key r.transports) [
      | none ↦ (r, err TransportError.not_registered)
      | some b ↦
          (record { transports = erase key r.transports; closed = r.closed ++ (b ∷ []) }, ok tt)
    ]

unfoldable pub lookup_transport : GoString → GoString → Registry → Option Binding
lookup_transport owner id r = lookup (owner, id) r.transports

-- The bindings of an owner, as the loop collects them.
unfoldable pub owned_by : GoString → Dict (GoString × GoString) Binding → List Binding
owned_by owner [] = []
owned_by owner (((o, id), b) ∷ d) =
    let rest = owned_by owner d in if o == owner then b ∷ rest else rest

unfoldable pub remove_owner : GoString → Registry → Registry
unfolding owned_by
remove_owner owner r = record {
  transports = remove_where (λ k b. k.0 == owner) r.transports;
  closed = r.closed ++ owned_by owner r.transports;
}
