-- ===== src/Service/Route/Register/Inverted.antt =====
-- What a successful registration has done, as one of two cases.
use arupa.Base.{◌≡◌, inl, inr, refl, subst, false, not, Option, some, none}
use arupa.Base.{GoString, string_eq, key_eq, bool_eq, ◌==◌, is_empty, Bool-cases}
use arupa.Base.Dict.{lookup, insert}
use arupa.Base.Result.{Result, ok, err, reject-ok, ok-injective, bind-ok}
use arupa.Strings.{trim_space}
use arupa.Service.Spec.{HttpRoute, SocketIoRoute, Route}
use arupa.Service.Transport.Prepare.{Binding}
use arupa.Service.Route.Socket.{SocketRegistry}
use arupa.Service.Route.Register.{
  Bound, Registry, RouteError, normalize_method, check_http, with_http, register_http,
  register_socket, register, register_kind, register_resolved, is_nil, is_socket_io,
}
use arupa.Service.Route.Register.Checks.{Passed, check_http-Passed}

-- The binding that is prepared for a declaration.
abbrev pub trimmed : Route → Route
trimmed declaration = record declaration {
  id = trim_space declaration.id;
  transport_id = trim_space declaration.transport_id;
}

abbrev pub prepare_bound : GoString → Route → Binding → Bound
prepare_bound owner declaration resolved = record {
  owner = trim_space owner;
  route = trimmed declaration;
  transport = resolved;
}

pub data Registered {S : Type 0} (transports : GoString → GoString → Option Binding)
    (owner : GoString) (declaration : Route) (r out : Registry S) : Type 0 where
  http :
      (prepared : Bound) (d : HttpRoute)
      → transports (trim_space owner) (trim_space declaration.transport_id)
        ≡ some prepared.transport
      → prepared ≡ prepare_bound owner declaration prepared.transport
      → lookup (prepared.owner, prepared.route.id) r.by_id ≡ none
      → prepared.route.http ≡ some d
      → is_empty prepared.owner ≡ false
      → Passed prepared d r (record d { method = normalize_method d.method })
      → (let stored = record d { method = normalize_method d.method } in
          record r {
            http = insert (stored.pattern, stored.method) (with_http prepared stored) r.http;
            by_id = insert (prepared.owner, prepared.route.id) (with_http prepared stored) r.by_id;
          })
        ≡ out
      → Registered transports owner declaration r out
  socket_io :
      (prepared : Bound) (d : SocketIoRoute) (s : S)
      → transports (trim_space owner) (trim_space declaration.transport_id)
        ≡ some prepared.transport
      → prepared ≡ prepare_bound owner declaration prepared.transport
      → lookup (prepared.owner, prepared.route.id) r.by_id ≡ none
      → prepared.route.http ≡ none
      → record r { by_id = insert (prepared.owner, prepared.route.id) prepared r.by_id; socket = s }
        ≡ out
      → Registered transports owner declaration r out

-- A Socket.IO route that was registered: the bridge took it.
socket_added :
    {S : Type 0} (socket : Option (SocketRegistry S)) (prepared : Bound) (d : SocketIoRoute)
    (r out : Registry S)
    → register_socket socket prepared d r ≡ ok out
    → (s : S) × (record r {
      by_id = insert (prepared.owner, prepared.route.id) prepared r.by_id;
      socket = s;
    }
        ≡ out)
unfolding register_socket
socket_added {S} socket prepared d r out h =
    elim (Bool-cases (is_socket_io prepared.transport.declared.kind)) [
      | inl t ↦ taken socket (rw t at h)
      | inr f ↦ absurd (refused (rw f at h))
    ]
  where
    refused :
        ◌≡◌ {A = Result RouteError (Registry S)} (err RouteError.socket_transport_required) (ok out)
        → ⊥
    refused q = cc

    answer :
        (x : Result GoString S)
        → ◌≡◌ {A = Result RouteError (Registry S)}
            (elim x [
              | err e ↦ err (RouteError.socket_refused e)
              | ok s ↦ ok (record r {
                by_id = insert (prepared.owner, prepared.route.id) prepared r.by_id;
                socket = s;
              })
            ])
            (ok out)
        → (s : S) × (record r {
          by_id = insert (prepared.owner, prepared.route.id) prepared r.by_id;
          socket = s;
        }
            ≡ out)
    answer (ok s) q = (s, ok-injective q)
    answer (err e) q = cc

    taken :
        (x : Option (SocketRegistry S))
        → ◌≡◌ {A = Result RouteError (Registry S)}
            (elim x [
              | none ↦ err RouteError.socket_unavailable
              | some ops ↦
                  elim (ops.register prepared.owner prepared.route.id d prepared.transport.endpoint
                    r.socket) [
                      | err e ↦ err (RouteError.socket_refused e)
                      | ok s ↦ ok (record r {
                        by_id = insert (prepared.owner, prepared.route.id) prepared r.by_id;
                        socket = s;
                      })
                    ]
            ])
            (ok out)
        → (s : S) × (record r {
          by_id = insert (prepared.owner, prepared.route.id) prepared r.by_id;
          socket = s;
        }
            ≡ out)
    taken none q = cc
    taken (some ops) q = answer (ops.register _ _ _ _ _) q

module _ {S : Type 0} (socket : Option (SocketRegistry S))
    (transports : GoString → GoString → Option Binding) (owner : GoString) (declaration : Route)
    (r out : Registry S) (resolved : Binding)
    (found : transports (trim_space owner) (trim_space declaration.transport_id) ≡ some resolved)
    (named : is_empty (trim_space owner) ≡ false)
    (fresh : lookup (trim_space owner, trim_space declaration.id) r.by_id ≡ none) where
  abbrev ready : Bound
  ready = prepare_bound owner declaration resolved

  http-Registered :
      (d : HttpRoute)
      → declaration.http ≡ some d
      → register_http ready d r ≡ ok out
      → Registered transports owner declaration r out
  unfolding register_http
  http-Registered d kind h =
      let (stored, checked, h') = bind-ok (check_http ready d r) _ h in
      let passed = check_http-Passed ready d r stored checked in
      let e = passed.stored in
      Registered.http ready d found refl fresh kind named (subst (λ s. Passed ready d r s) e passed)
        (subst
          (λ (s : HttpRoute).
            record r {
              http = insert (s.pattern, s.method) (with_http ready s) r.http;
              by_id = insert (ready.owner, ready.route.id) (with_http ready s) r.by_id;
            }
            ≡ out)
          e (ok-injective h'))

  socket-Registered :
      (d : SocketIoRoute)
      → declaration.http ≡ none
      → register_socket socket ready d r ≡ ok out
      → Registered transports owner declaration r out
  socket-Registered d no_http h =
      let (s, e) = socket_added socket ready d r out h in
      Registered.socket_io ready d s found refl fresh no_http e

  kind-Registered :
      (http : Option HttpRoute) (socket_io : Option SocketIoRoute)
      → declaration.http ≡ http
      → register_kind socket ready http socket_io r ≡ ok out
      → Registered transports owner declaration r out
  unfolding register_kind
  kind-Registered (some d) none e h = http-Registered d e h
  kind-Registered none (some d) e h = socket-Registered d e h
  kind-Registered none none e h = cc
  kind-Registered (some d) (some f) e h = cc

pub register-Registered :
    {S : Type 0} (socket : Option (SocketRegistry S))
    (transports : GoString → GoString → Option Binding) (owner : GoString) (declaration : Route)
    (r out : Registry S)
    → register socket transports owner declaration r ≡ ok out
    → Registered transports owner declaration r out
unfolding register
register-Registered socket transports owner declaration r out h =
    let o = trim_space owner in
    let t = trim_space declaration.transport_id in
    let (named, h₁) = reject-ok (is_empty o) RouteError.owner_required _ h in
    let (_, h₂) = reject-ok (is_empty (trim_space declaration.id)) RouteError.id_required _ h₁ in
    let (_, h₃) = reject-ok (is_empty t) RouteError.transport_required _ h₂ in
    let (_, h₄) =
      reject-ok (is_nil declaration.http == is_nil declaration.socket_io)
        RouteError.one_kind_required _ h₃ in
    resolve (transports o t) refl named h₄
  where
    not_nil : {A : Type 0} (x : Option A) → not (is_nil x) ≡ false → x ≡ none
    not_nil none h = refl
    not_nil (some a) h = cc

    resolve :
        (x : Option Binding)
        → transports (trim_space owner) (trim_space declaration.transport_id) ≡ x
        → is_empty (trim_space owner) ≡ false
        → register_resolved socket (trim_space owner) (trimmed declaration) r x ≡ ok out
        → Registered transports owner declaration r out
    resolve none e named h = cc
    resolve (some resolved) e named h =
        let (fresh, h') =
          reject-ok (not (is_nil (lookup (trim_space owner, trim_space declaration.id) r.by_id)))
            RouteError.id_registered _ h in
        kind-Registered socket transports owner declaration r out resolved e named (not_nil _ fresh)
          declaration.http declaration.socket_io refl h'
