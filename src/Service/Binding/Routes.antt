-- ===== src/Service/Binding/Routes.antt =====
-- The controller and its linked parts: RegisterRoutes and UnregisterRoutes.
use arupa.Base.{ℕ, ◌≡◌, inl, inr, refl, Option}
use arupa.Base.{GoString, string_eq, key_eq, List, [], ◌∷◌}
use arupa.Base.{Option-cases, Bool-cases}
use arupa.Base.Dict.{Dict, lookup}
use arupa.Base.Result.{Result, ok, err}
use arupa.Service.Spec.{Route}
use arupa.Service.Transport
use arupa.Service.Route
use arupa.Service.Route.Socket.{SocketRegistry}
use arupa.Service.Route.Register
use arupa.Service.Route.Register.{Bound, RouteError}
use arupa.Service.Route.Register.Inverted.{register-Registered}
use arupa.Service.Route.Valid.Entry.{register-IsValid}
use arupa.Service.Route.Valid.Remove.{unregister-IsValid, unregister-old}
use arupa.Service.Binding.{
  Controller, OwnerSession, RegistrationResult, register_routes, unregister_routes, register_one,
  register_all, unregister_one, unregister_all, empty_result, registered_routes,
}
use arupa.Service.Binding.Linked.{IsLinked, route-served, Linked}

module _ {S : Type 0} (socket : Option (SocketRegistry S)) where
  register_routes_table :
      (sessions : Dict GoString OwnerSession) (transports : Transport.Registry)
      (r out : Register.Registry S) (owner : GoString) (declaration : Route)
      → IsLinked sessions transports.transports r
      → Register.register socket
          (λ o id. Transport.lookup_transport o id transports)
          owner
          declaration
          r
        ≡ ok out
      → IsLinked sessions transports.transports out
  unfolding Transport.lookup_transport
  register_routes_table sessions transports r out owner declaration l h = record {
    valid = register-IsValid socket _ owner declaration r out l.valid h;
    distinct = l.distinct;
    trimmed = l.trimmed;
    attached = l.attached;
    served = λ o i b k.
        elim (route-served (register-Registered socket _ owner declaration r out h) o i b k) [
          | inl old ↦ l.served o i b old
          | inr new ↦ new
        ];
  }

  unregister_routes_table :
      (sessions : Dict GoString OwnerSession) (transports : Transport.Registry)
      (r out : Register.Registry S) (owner id : GoString)
      → IsLinked sessions transports.transports r
      → Route.unregister socket owner id r ≡ ok out
      → IsLinked sessions transports.transports out
  unregister_routes_table sessions transports r out owner id l h = record {
    valid = unregister-IsValid socket owner id r out l.valid h;
    distinct = l.distinct;
    trimmed = l.trimmed;
    attached = l.attached;
    served = λ o i b k. l.served o i b (unregister-old socket owner id r out h (o, i) b k);
  }

  register_one-Linked :
      (owner : GoString) (i : ℕ) (declaration : Route) (c : Controller S)
      (result : RegistrationResult)
      → Linked c
      → Linked (register_one socket owner i declaration c result).0
  unfolding register_one
  register_one-Linked owner i declaration c result l = by _ refl
    where
      by :
          (x : Result RouteError (Register.Registry S))
          → Register.register socket
              (λ o id. Transport.lookup_transport o id c.transports)
              owner
              declaration
              c.routes
            ≡ x
          → Linked (register_one socket owner i declaration c result).0
      by (err e) h = rw (h, register_one) l
      by (ok routes) h =
          rw (h, register_one)
            (register_routes_table c.sessions c.transports c.routes routes owner declaration l h)

  register_all-Linked :
      (owner : GoString) (i : ℕ) (declarations : List Route) (c : Controller S)
      (result : RegistrationResult)
      → Linked c
      → Linked (register_all socket owner i declarations c result).0
  unfolding register_all
  register_all-Linked owner i [] c result l = l
  register_all-Linked owner i (declaration ∷ declarations) c result l =
      register_all-Linked owner i declarations _ _
        (register_one-Linked owner i declaration c result l)

  pub register_routes-Linked :
      (owner : GoString) (declarations : List Route) (c : Controller S)
      → Linked c
      → Linked (register_routes socket owner declarations c).0
  unfolding register_routes
  register_routes-Linked owner declarations c l = elim (Option-cases (lookup owner c.sessions)) [
    | inl n ↦ rw (n, register_routes) l
    | inr (s, there) ↦
        rw (there, register_routes)
          (marked s.owner (register_all socket owner s.owner declarations c empty_result)
            (register_all-Linked owner s.owner declarations c empty_result l))
  ]
    where
      marked :
          (i : ℕ) (x : Controller S × RegistrationResult)
          → Linked x.0
          → Linked (registered_routes socket i x).0
      marked i (c, result) l = elim (Bool-cases result.degraded) [ inl t ↦ rw t l | inr f ↦ rw f l ]

  unregister_one-Linked :
      (owner : GoString) (i : ℕ) (id : GoString) (c : Controller S) (result : RegistrationResult)
      → Linked c
      → Linked (unregister_one socket owner i id c result).0
  unfolding unregister_one
  unregister_one-Linked owner i id c result l = by _ refl
    where
      by :
          (x : Result RouteError (Register.Registry S))
          → Route.unregister socket owner id c.routes ≡ x
          → Linked (unregister_one socket owner i id c result).0
      by (err e) h = rw (h, unregister_one) l
      by (ok routes) h =
          rw (h, unregister_one)
            (unregister_routes_table c.sessions c.transports c.routes routes owner id l h)

  unregister_all-Linked :
      (owner : GoString) (i : ℕ) (ids : List GoString) (c : Controller S)
      (result : RegistrationResult)
      → Linked c
      → Linked (unregister_all socket owner i ids c result).0
  unfolding unregister_all
  unregister_all-Linked owner i [] c result l = l
  unregister_all-Linked owner i (id ∷ ids) c result l =
      unregister_all-Linked owner i ids _ _ (unregister_one-Linked owner i id c result l)

  pub unregister_routes-Linked :
      (owner : GoString) (ids : List GoString) (c : Controller S)
      → Linked c
      → Linked (unregister_routes socket owner ids c).0
  unfolding unregister_routes
  unregister_routes-Linked owner ids c l = elim (Option-cases (lookup owner c.sessions)) [
    | inl n ↦ rw (n, unregister_routes) l
    | inr (s, there) ↦
        rw (there, unregister_routes) (unregister_all-Linked owner s.owner ids c empty_result l)
  ]
