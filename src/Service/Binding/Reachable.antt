-- ===== src/Service/Binding/Reachable.antt =====
-- The controllers that the operations of binding/controller.go lead to, in any order.
use arupa.Base.{ℕ, ◌≡◌, sym, ap, ◌∙◌, Bool, Option}
use arupa.Base.{GoString, string_eq, key_eq, List}
use arupa.Base.Dict.{Dict, lookup}
use arupa.Base.Result.{ok}
use arupa.Service.Spec.{Transport, Route}
use arupa.Service.Instance.{Instance}
use arupa.Service.Route.Socket.{SocketRegistry}
use arupa.Service.Route.Register
use arupa.Service.Route.Register.{Bound, RouteError}
use arupa.Service.Route.Valid.{new_registry-IsValid}
use arupa.Service.Route.Valid.Reserve.{reserve-IsValid, reserve-by_id}
use arupa.Service.Binding.{
  Controller, attach, detach, register_transport, unregister_transport, register_routes,
  unregister_routes, new_controller,
}
use arupa.Service.Binding.Transports.{
  attach-Linked, register_transport-Linked, unregister_transport-Linked,
}
use arupa.Service.Binding.Routes.{register_routes-Linked, unregister_routes-Linked}
use arupa.Service.Binding.Linked.{detach-IsLinked, none-some, Linked}

-- One operation: of a service through the controller, of the kernel that reserves paths, or of
-- anything else that changes the instances.
pub data Step {S : Type 0} (socket : Option (SocketRegistry S)) (c : Controller S)
    : Controller S → Type 0 where
  attached :
      (owner : GoString) (state : Option ℕ) (root : GoString) (inherited : Dict GoString GoString)
      {out : Controller S}
      → attach owner state root inherited c ≡ ok out
      → Step socket c out
  detached : (owner : GoString) → Step socket c (detach socket owner c)
  transport_registered :
      (stat : GoString → Option Bool) (owner : GoString) (declaration : Transport)
      → Step socket c (register_transport stat owner declaration c).0
  transport_unregistered : (owner id : GoString) → Step socket c (unregister_transport owner id c).0
  routes_registered :
      (owner : GoString) (declarations : List Route)
      → Step socket c (register_routes socket owner declarations c).0
  routes_unregistered :
      (owner : GoString) (ids : List GoString)
      → Step socket c (unregister_routes socket owner ids c).0
  paths_reserved :
      (owner : GoString) (patterns : List GoString) {routes : Register.Registry S}
      → Register.reserve owner patterns c.routes ≡ ok routes
      → Step socket c (record c { routes = routes })
  instances_changed :
      (instances : ℕ → Instance) → Step socket c (record c { instances = instances })

-- The controllers that operations in some order lead to.
pub data Reachable {S : Type 0} (socket : Option (SocketRegistry S)) : Controller S → Type 0 where
  start : (s : S) (instances : ℕ → Instance) → Reachable socket (new_controller s instances)
  next : {c out : Controller S} → Reachable socket c → Step socket c out → Reachable socket out

new_controller-Linked :
    {S : Type 0} (s : S) (instances : ℕ → Instance) → Linked (new_controller s instances)
unfolding lookup
new_controller-Linked s instances = record {
  valid = new_registry-IsValid s;
  distinct = tt;
  trimmed = λ o t h. absurd (none-some h);
  attached = λ o i t h. absurd (none-some h);
  served = λ o i b h. absurd (none-some h);
}

Step-Linked :
    {S : Type 0} (socket : Option (SocketRegistry S)) (c out : Controller S)
    → Step socket c out
    → Linked c
    → Linked out
unfolding detach
Step-Linked socket c out (Step.attached owner state root inherited h) l =
    attach-Linked owner state root inherited c out l h
Step-Linked socket c out (Step.detached owner) l =
    detach-IsLinked socket c.sessions c.transports c.routes owner l
Step-Linked socket c out (Step.transport_registered stat owner declaration) l =
    register_transport-Linked stat owner declaration c l
Step-Linked socket c out (Step.transport_unregistered owner id) l =
    unregister_transport-Linked owner id c l
Step-Linked socket c out (Step.routes_registered owner declarations) l =
    register_routes-Linked socket owner declarations c l
Step-Linked socket c out (Step.routes_unregistered owner ids) l =
    unregister_routes-Linked socket owner ids c l
Step-Linked socket c out (Step.paths_reserved owner patterns {routes} h) l = record {
  valid = reserve-IsValid owner patterns c.routes routes l.valid h;
  distinct = l.distinct;
  trimmed = l.trimmed;
  attached = l.attached;
  served = λ o i b k.
      l.served o i b
        (ap (λ d. lookup (o, i) d) (sym (reserve-by_id owner patterns c.routes routes h)) ∙ k);
}
Step-Linked socket c out (Step.instances_changed instances) l = l

-- After any operations of the controller, reservations of paths and changes of the instances, in
-- any order: the route table is valid, every transport belongs to an
-- attached service, and every route is bound to the transport that its owner has registered now
-- under the id that the route names.
pub Reachable-Linked :
    {S : Type 0} (socket : Option (SocketRegistry S)) (c : Controller S)
    → Reachable socket c
    → Linked c
Reachable-Linked socket c (Reachable.start s instances) = new_controller-Linked s instances
Reachable-Linked socket c (Reachable.next {c = before} way step) =
    Step-Linked socket before c step (Reachable-Linked socket before way)
