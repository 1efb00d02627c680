-- ===== src/Service/Route/Valid/Entry.antt =====
-- The table of routes behind Register, for routes of either kind.
use arupa.Base.{◌≡◌, ◌≢◌, inl, inr, sym, ap, ◌∙◌, subst, Option}
use arupa.Base.{some, none, GoString, string_eq, key_eq, bool_eq}
use arupa.Base.Dict.{lookup, insert, insert-NodupKeys, insert-cases, lookup-insert_ne}
use arupa.Base.Result.{ok}
use arupa.Service.Spec.{HttpRoute, Route}
use arupa.Service.Transport.Prepare.{Binding}
use arupa.Service.Route.Socket.{SocketRegistry}
use arupa.Service.Route.Register.{Bound, Registry, register}
use arupa.Service.Route.Register.Inverted.{Registered, register-Registered}
use arupa.Service.Route.Valid.{IsValid}
use arupa.Service.Route.Valid.Register.{added-IsValid}

-- An entry without an HTTP route touches the table by ids alone.
module _ {S : Type 0} (r : Registry S) (v : IsValid r) (prepared : Bound) (s : S)
    (fresh : lookup (prepared.owner, prepared.route.id) r.by_id ≡ none)
    (no_http : prepared.route.http ≡ none) where
  abbrev entered_socket : Registry S
  entered_socket = record r {
    by_id = insert (prepared.owner, prepared.route.id) prepared r.by_id;
    socket = s;
  }

  not_fresh :
      (b : Bound)
      → lookup (b.owner, b.route.id) r.by_id ≡ some b
      → ◌≢◌ {A = GoString × GoString} (prepared.owner, prepared.route.id) (b.owner, b.route.id)
  not_fresh b h e = clash (sym fresh ∙ ap (λ (k : GoString × GoString). lookup k r.by_id) e ∙ h)
    where
      clash : ◌≢◌ {A = Option Bound} none (some b)
      clash e = cc

  socket-keyed :
      (o i : GoString) (b : Bound)
      → lookup (o, i) entered_socket.by_id ≡ some b
      → (b.owner ≡ o) × (b.route.id ≡ i)
  socket-keyed o i b h = elim (insert-cases (o, i) _ prepared r.by_id h) [
    | inl (k, e) ↦
        subst (λ (c : Bound). (c.owner ≡ o) × (c.route.id ≡ i)) e
          (ap (λ (t : GoString × GoString). t.0) k, ap (λ (t : GoString × GoString). t.1) k)
    | inr (_, old) ↦ v.keyed o i b old
  ]

  socket-entered :
      (o i : GoString) (b : Bound) (f : HttpRoute)
      → lookup (o, i) entered_socket.by_id ≡ some b
      → b.route.http ≡ some f
      → lookup (f.pattern, f.method) r.http ≡ some b
  socket-entered o i b f h g = elim (insert-cases (o, i) _ prepared r.by_id h) [
    | inl (_, e) ↦
        absurd (clash (sym no_http ∙ subst (λ (c : Bound). c.route.http ≡ some f) (sym e) g))
    | inr (_, old) ↦ v.entered o i b f old g
  ]
    where
      clash : ◌≢◌ {A = Option HttpRoute} none (some f)
      clash e = cc

  entered_socket-IsValid : IsValid entered_socket
  entered_socket-IsValid = record {
    distinct_ids = insert-NodupKeys _ prepared r.by_id v.distinct_ids;
    distinct_paths = v.distinct_paths;
    keyed = socket-keyed;
    listed = λ p m b h.
        let l = v.listed p m b h in lookup-insert_ne prepared r.by_id (not_fresh b l) ∙ l;
    stored = v.stored;
    entered = socket-entered;
    one_owner = v.one_owner;
    no_overlap = v.no_overlap;
    unreserved = v.unreserved;
  }

-- Registering a route of either kind, where it is accepted, keeps a valid table valid.
pub register-IsValid :
    {S : Type 0} (socket : Option (SocketRegistry S))
    (transports : GoString → GoString → Option Binding) (owner : GoString) (declaration : Route)
    (r out : Registry S)
    → IsValid r
    → register socket transports owner declaration r ≡ ok out
    → IsValid out
register-IsValid socket transports owner declaration r out v h =
    case (register-Registered socket transports owner declaration r out h)
  where
    case : Registered transports owner declaration r out → IsValid out
    case (Registered.http prepared d _ _ fresh _ _ passed e) =
        subst IsValid e (added-IsValid r v prepared d fresh passed)
    case (Registered.socket_io prepared d s _ _ fresh no_http e) =
        subst IsValid e (entered_socket-IsValid r v prepared s fresh no_http)
