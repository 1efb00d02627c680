-- ===== src/Service/Binding.antt =====
-- internal/service/binding/controller.go: the one component that works on routes and transports
-- together. Its lock makes every operation one step.
pub mod Linked
pub mod Spaced
pub mod Transports
pub mod Routes
pub mod Reachable
use arupa.Base.{ℕ, Bool, true, false, List, [], ◌∷◌, ◌++◌, Option, none, some, GoString}
use arupa.Base.{string_eq, key_eq, if◌then◌else◌, is_empty, nat_eqb}
use arupa.Base.Dict.{Dict, lookup, insert, erase}
use arupa.Base.Result.{Result, ok, err}
use arupa.Strings.{trim_space}
use arupa.Service.Spec.{Transport, Route, ServiceRecord}
use arupa.Service.Instance.{Instance, add_transport, remove_transport, add_route, remove_route}
use arupa.Service.Instance.{mark_degraded}
use arupa.Service.Transport
use arupa.Service.Transport.Prepare.{TransportError, World}
use arupa.Service.Route
use arupa.Service.Route.Socket.{SocketRegistry}
use arupa.Service.Route.Register.{Bound, RouteError}
use arupa.Service.Route.Register

pub data BindingError : Type 0 where
  owner_required state_required already_attached no_session : BindingError
  transport_in_use : GoString → BindingError
  transport_failed : TransportError → BindingError
  route_failed : RouteError → BindingError

-- `owner` is the address of the instance that the session belongs to.
pub record OwnerSession : Type 0 where
  pub owner : ℕ
  pub root : GoString
  pub inherited : Dict GoString GoString

-- The controller with the two registries and the instances that it reaches by their addresses.
-- `published` lists the snapshots that were handed to the publisher.
pub record Controller (S : Type 0) : Type 0 where
  pub sessions : Dict GoString OwnerSession
  pub transports : Transport.Registry
  pub routes : Register.Registry S
  pub instances : ℕ → Instance
  pub published : List (Option ServiceRecord)

pub record RegistrationResult : Type 0 where
  pub registered : List GoString
  pub failures : List (GoString × BindingError)
  pub degraded : Bool
  pub error : Option BindingError

-- The kernel's controller over registries that are new too.
abbrev pub new_controller : {S : Type 0} → S → (ℕ → Instance) → Controller S
new_controller s instances = record {
  sessions = [];
  transports = Transport.new_registry;
  routes = Register.new_registry s;
  instances = instances;
  published = [];
}

abbrev pub failed_result : Bool → BindingError → RegistrationResult
failed_result degraded e = record {
  registered = [];
  failures = [];
  degraded = degraded;
  error = some e;
}

abbrev pub empty_result : RegistrationResult
empty_result = record { registered = []; failures = []; degraded = false; error = none }

abbrev pub update_at : ℕ → (Instance → Instance) → (ℕ → Instance) → ℕ → Instance
update_at i f instances j = if nat_eqb i j then f (instances j) else instances j

module _ {S : Type 0} where
  unfoldable pub attach :
      GoString
      → Option ℕ
      → GoString
      → Dict GoString GoString
      → Controller S
      → Result BindingError (Controller S)
  attach owner state root inherited c =
      let owner' = trim_space owner in
      if is_empty owner' then err BindingError.owner_required else elim state [
        | none ↦ err BindingError.state_required
        | some i ↦ elim (lookup owner' c.sessions) [
          | some _ ↦ err BindingError.already_attached
          | none ↦ ok (record c {
            sessions =
                insert owner' (record { owner = i; root = root; inherited = inherited }) c.sessions;
          })
        ]
      ]

  -- `publishOwner`, with a publisher.
  abbrev publish_owner : ℕ → Controller S → Controller S
  publish_owner i c = record c { published = c.published ++ ((c.instances i).service_record ∷ []) }

  abbrev pub world : (GoString → Option Bool) → Controller S → World
  world stat c = record { stat = stat; connected = λ i. (c.instances i).connected }

  -- The calls behind a successful change of the transports.
  abbrev with_instance : ℕ → (Instance → Instance) → Controller S → Controller S
  with_instance i f c = publish_owner i (record c { instances = update_at i f c.instances })

  abbrev pub registered_transport :
      ℕ
      → Transport
      → Controller S
      → Transport.Registry × Result TransportError (Unit {0})
      → Controller S × Result BindingError (Unit {0})
  registered_transport i declaration c (registry, err e) =
      (record c { transports = registry }, err (BindingError.transport_failed e))
  registered_transport i declaration c (registry, ok _) =
      (with_instance i (add_transport declaration) (record c { transports = registry }), ok tt)

  unfoldable pub register_transport :
      (GoString → Option Bool)
      → GoString
      → Transport
      → Controller S
      → Controller S × Result BindingError (Unit {0})
  register_transport stat owner declaration c = elim (lookup owner c.sessions) [
    | none ↦ (c, err BindingError.no_session)
    | some session ↦ registered_transport session.owner declaration c (
        Transport.register (world stat c) owner declaration
          (record {
            endpoint = some session.owner;
            root = session.root;
            inherited = session.inherited;
          })
          c.transports)
  ]

  abbrev pub unregistered_transport :
      ℕ
      → GoString
      → Controller S
      → Transport.Registry × Result TransportError (Unit {0})
      → Controller S × Result BindingError (Unit {0})
  unregistered_transport i id c (registry, err e) =
      (record c { transports = registry }, err (BindingError.transport_failed e))
  unregistered_transport i id c (registry, ok _) =
      (with_instance i (remove_transport id) (record c { transports = registry }), ok tt)

  unfoldable pub unregister_transport :
      GoString → GoString → Controller S → Controller S × Result BindingError (Unit {0})
  unregister_transport owner id c = elim (lookup owner c.sessions) [
    | none ↦ (c, err BindingError.no_session)
    | some session ↦
        if Route.uses_transport owner (trim_space id) c.routes.by_id
        then (c, err (BindingError.transport_in_use (trim_space id)))
        else unregistered_transport session.owner (trim_space id) c
            (Transport.unregister owner id c.transports)
  ]

  module _ (socket : Option (SocketRegistry S)) where
    unfoldable pub detach : GoString → Controller S → Controller S
    detach owner c = record c {
      routes = Route.remove_owner socket owner c.routes;
      transports = Transport.remove_owner owner c.transports;
      sessions = erase owner c.sessions;
    }

    abbrev add_failure : GoString → RouteError → RegistrationResult → RegistrationResult
    add_failure id e result = record result {
      failures = result.failures ++ ((id, BindingError.route_failed e) ∷ []);
      degraded = true;
    }

    abbrev add_removal_failure : GoString → RouteError → RegistrationResult → RegistrationResult
    add_removal_failure id e result = record result {
      failures = result.failures ++ ((id, BindingError.route_failed e) ∷ []);
    }

    abbrev add_registered : GoString → RegistrationResult → RegistrationResult
    add_registered id result = record result { registered = result.registered ++ (id ∷ []) }

    -- One round of the loop of `RegisterRoutes`.
    unfoldable pub register_one :
        GoString → ℕ → Route → Controller S → RegistrationResult → Controller S × RegistrationResult
    register_one owner i declaration c result =
        elim (Register.register socket (λ o id. Transport.lookup_transport o id c.transports) owner
          declaration c.routes) [
            | err e ↦ (c, add_failure declaration.id e result)
            | ok routes ↦ (
              record c {
                routes = routes;
                instances = update_at i (add_route declaration) c.instances;
              },
              add_registered declaration.id result,
            )
          ]

    unfoldable pub register_all :
        GoString
        → ℕ
        → List Route
        → Controller S
        → RegistrationResult
        → Controller S × RegistrationResult
    unfolding register_one
    register_all owner i [] c result = (c, result)
    register_all owner i (declaration ∷ declarations) c result =
        let (c', result') = register_one owner i declaration c result in
        register_all owner i declarations c' result'

    abbrev pub registered_routes :
        ℕ → Controller S × RegistrationResult → Controller S × RegistrationResult
    registered_routes i (c, result) = (
      publish_owner i (
          if result.degraded
          then record c { instances = update_at i mark_degraded c.instances }
          else c),
      result,
    )

    unfoldable pub register_routes :
        GoString → List Route → Controller S → Controller S × RegistrationResult
    unfolding register_all
    register_routes owner declarations c = elim (lookup owner c.sessions) [
      | none ↦ (c, failed_result true BindingError.no_session)
      | some session ↦
          registered_routes session.owner
            (register_all owner session.owner declarations c empty_result)
    ]

    unfoldable pub unregister_one :
        GoString
        → ℕ
        → GoString
        → Controller S
        → RegistrationResult
        → Controller S × RegistrationResult
    unregister_one owner i id c result = elim (Route.unregister socket owner id c.routes) [
      | err e ↦ (c, add_removal_failure id e result)
      | ok routes ↦ (
        record c {
          routes = routes;
          instances = update_at i (remove_route (trim_space id)) c.instances;
        },
        add_registered id result,
      )
    ]

    unfoldable pub unregister_all :
        GoString
        → ℕ
        → List GoString
        → Controller S
        → RegistrationResult
        → Controller S × RegistrationResult
    unfolding unregister_one
    unregister_all owner i [] c result = (c, result)
    unregister_all owner i (id ∷ ids) c result =
        let (c', result') = unregister_one owner i id c result in
        unregister_all owner i ids c' result'

    abbrev pub unregistered_routes :
        ℕ → Controller S × RegistrationResult → Controller S × RegistrationResult
    unregistered_routes i (c, result) = (publish_owner i c, result)

    unfoldable pub unregister_routes :
        GoString → List GoString → Controller S → Controller S × RegistrationResult
    unfolding unregister_all
    unregister_routes owner ids c = elim (lookup owner c.sessions) [
      | none ↦ (c, failed_result false BindingError.no_session)
      | some session ↦
          unregistered_routes session.owner (unregister_all owner session.owner ids c empty_result)
    ]
