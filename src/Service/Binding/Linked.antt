-- ===== src/Service/Binding/Linked.antt =====
-- How the registries and the sessions hang together between two operations of the controller.
use arupa.Base.{◌≡◌, ◌≢◌, ◌⊎◌, inl, inr, sym, ap, ◌∙◌, false, Option}
use arupa.Base.{some, none, GoString, string_eq, key_eq, [], ◌∷◌}
use arupa.Base.{arith, In}
use arupa.Base.Dict.{
  Dict, NodupKeys, lookup, insert, erase, insert-NodupKeys, erase-NodupKeys, insert-cases,
  erase-cases, lookup-insert_ne, lookup-erase_ne, lookup-In,
}
use arupa.Strings.{trim_space}
use arupa.Service.Spec.{Route}
use arupa.Service.Transport
use arupa.Service.Transport.Prepare.{Binding}
use arupa.Service.Transport.Laws.{remove_owner-cases, remove_owner-keeps, remove_owner-NodupKeys}
use arupa.Service.Route
use arupa.Service.Route.Socket.{SocketRegistry}
use arupa.Service.Route.Register
use arupa.Service.Route.Register.{Bound}
use arupa.Service.Route.Register.Inverted.{Registered, prepare_bound}
use arupa.Service.Route.Valid.{IsValid}
use arupa.Service.Route.Valid.Owner.{remove_owner-IsValid, remove_owner_iff}
use arupa.Service.Binding.{OwnerSession, Controller}

-- A transport belongs to an attached service, a route to a registered transport: the one that it
-- was resolved to.
pub record IsLinked {S : Type 0} (sessions : Dict GoString OwnerSession)
    (transports : Dict (GoString × GoString) Binding) (routes : Register.Registry S) : Type 0 where
  pub valid : IsValid routes
  pub distinct : NodupKeys transports
  pub trimmed : (o : GoString) (s : OwnerSession) → lookup o sessions ≡ some s → trim_space o ≡ o
  pub attached :
      (o i : GoString) (t : Binding)
      → lookup (o, i) transports ≡ some t
      → (s : OwnerSession) × (lookup o sessions ≡ some s)
  pub served :
      (o i : GoString) (b : Bound)
      → lookup (o, i) routes.by_id ≡ some b
      → lookup (b.owner, b.route.transport_id) transports ≡ some b.transport

pub none-some : {A : Type 0} {a : A} → ◌≡◌ {A = Option A} none (some a) → ⊥
none-some e = cc

uses_transport-In :
    (owner id : GoString) (by_id : Dict (GoString × GoString) Bound)
    → Route.uses_transport owner id by_id ≡ false
    → (b : Bound) (k : GoString × GoString) → In (k, b) by_id
    → ◌≢◌ {A = GoString × GoString} (owner, id) (b.owner, b.route.transport_id)
unfolding Route.uses_transport
uses_transport-In owner id [] h b k m e = m
uses_transport-In owner id ((j, c) ∷ by_id) h b k m e =
    let owners : owner ≡ b.owner = ap (λ (x : GoString × GoString). x.0) e in
    let ids : id ≡ b.route.transport_id = ap (λ (x : GoString × GoString). x.1) e in
    elim m [
      | inl q ↦
          let same : c ≡ b = ap (λ (x : (GoString × GoString) × Bound). x.1) q in
          let owners' : c.owner ≡ owner = ap (λ (x : Bound). x.owner) same ∙ sym owners in
          let ids' : c.route.transport_id ≡ id =
            ap (λ (x : Bound). x.route.transport_id) same ∙ sym ids in
          ground arith
      | inr m' ↦ uses_transport-In owner id by_id (ground arith) b k m' e
    ]

-- A binding of the resolved transport.
resolved-at :
    (transports : GoString → GoString → Option Binding) (owner : GoString) (declaration : Route)
    (prepared b : Bound)
    → transports (trim_space owner) (trim_space declaration.transport_id) ≡ some prepared.transport
    → prepared ≡ prepare_bound owner declaration prepared.transport
    → b.owner ≡ prepared.owner
    → b.route.transport_id ≡ prepared.route.transport_id
    → b.transport ≡ prepared.transport
    → transports b.owner b.route.transport_id ≡ some b.transport
resolved-at transports owner declaration prepared b known same p q t =
    rw (p, q, t, ap (λ (x : Bound). x.owner) same, ap (λ (x : Bound). x.route.transport_id) same)
      known

module _ {S : Type 0} where
  -- A new transport under a free key of an attached service.
  pub add-IsLinked :
      (sessions : Dict GoString OwnerSession) (transports : Dict (GoString × GoString) Binding)
      (routes : Register.Registry S) (owner id : GoString) (s : OwnerSession) (t : Binding)
      → IsLinked sessions transports routes
      → lookup owner sessions ≡ some s
      → lookup (owner, id) transports ≡ none
      → IsLinked sessions (insert (owner, id) t transports) routes
  add-IsLinked sessions transports routes owner id s t l there free = record {
    valid = l.valid;
    distinct = insert-NodupKeys _ t transports l.distinct;
    trimmed = l.trimmed;
    attached = λ o i u h. elim (insert-cases (o, i) _ t transports h) [
      | inl (e, _) ↦
          (s, ap (λ x. lookup x sessions) (sym (ap (λ (x : GoString × GoString). x.0) e)) ∙ there)
      | inr (_, old) ↦ l.attached o i u old
    ];
    served = λ o i b h.
        let known = l.served o i b h in
        lookup-insert_ne t transports (λ e.
          none-some (sym free ∙ ap (λ (x : GoString × GoString). lookup x transports) e ∙ known))
        ∙ known;
  }

  -- A transport that no route uses is removed.
  pub erase-IsLinked :
      (sessions : Dict GoString OwnerSession) (transports : Dict (GoString × GoString) Binding)
      (routes : Register.Registry S) (owner id : GoString)
      → IsLinked sessions transports routes
      → Route.uses_transport owner id routes.by_id ≡ false
      → IsLinked sessions (erase (owner, id) transports) routes
  erase-IsLinked sessions transports routes owner id l unused = record {
    valid = l.valid;
    distinct = erase-NodupKeys _ transports l.distinct;
    trimmed = l.trimmed;
    attached = λ o i t h. l.attached o i t (erase-cases (o, i) _ transports h).1;
    served = λ o i b h.
        lookup-erase_ne transports (λ e.
          uses_transport-In owner id routes.by_id unused b (o, i) (lookup-In _ b routes.by_id h) e)
        ∙ l.served o i b h;
  }

  -- A service is detached.
  pub detach-IsLinked :
      (socket : Option (SocketRegistry S)) (sessions : Dict GoString OwnerSession)
      (transports : Transport.Registry) (routes : Register.Registry S) (owner : GoString)
      → IsLinked sessions transports.transports routes
      → IsLinked
          (erase owner sessions)
          (Transport.remove_owner owner transports).transports
          (Route.remove_owner socket owner routes)
  detach-IsLinked socket sessions transports routes owner l = record {
    valid = remove_owner-IsValid socket owner routes l.valid;
    distinct = remove_owner-NodupKeys owner transports l.distinct;
    trimmed = λ o s h. l.trimmed o s (erase-cases o owner sessions h).1;
    attached = λ o i t h.
        let (other, old) = remove_owner-cases owner o i transports t l.distinct h in
        let (s, there) = l.attached o i t old in
        (s, lookup-erase_ne sessions (λ e. other (sym e)) ∙ there);
    served = λ o i b h.
        let (old, other) = (remove_owner_iff socket owner routes (o, i) b l.valid).0 h in
        remove_owner-keeps owner b.owner b.route.transport_id transports b.transport l.distinct
          other (l.served o i b old);
  }

  -- A registered route is served by the transport that its owner has under its id.
  pub route-served :
      {transports : GoString → GoString → Option Binding} {owner : GoString} {declaration : Route}
      {r out : Register.Registry S}
      → Registered transports owner declaration r out
      → (o i : GoString) (b : Bound) → lookup (o, i) out.by_id ≡ some b
      → (lookup (o, i) r.by_id ≡ some b)
        ⊎ (transports b.owner b.route.transport_id ≡ some b.transport)
  route-served {transports} {owner} {declaration} {r}
        (Registered.http prepared d known same fresh _ _ _ e) o i b h =
      elim (insert-cases (o, i) _ _ r.by_id
        (ap (λ (x : Register.Registry S). lookup (o, i) x.by_id) e ∙ h)) [
          | inl (_, q) ↦ inr (
              resolved-at transports owner declaration prepared b known same
                (ap (λ (x : Bound). x.owner) (sym q))
                (ap (λ (x : Bound). x.route.transport_id) (sym q))
                (ap (λ (x : Bound). x.transport) (sym q)))
          | inr (_, old) ↦ inl old
        ]
  route-served {transports} {owner} {declaration} {r}
        (Registered.socket_io prepared d s known same fresh _ e) o i b h =
      elim (insert-cases (o, i) _ prepared r.by_id
        (ap (λ (x : Register.Registry S). lookup (o, i) x.by_id) e ∙ h)) [
          | inl (_, q) ↦ inr (
              resolved-at transports owner declaration prepared b known same
                (ap (λ (x : Bound). x.owner) (sym q))
                (ap (λ (x : Bound). x.route.transport_id) (sym q))
                (ap (λ (x : Bound). x.transport) (sym q)))
          | inr (_, old) ↦ inl old
        ]

-- The parts of a controller that hang together.
abbrev pub Linked : {S : Type 0} → Controller S → Type 0
Linked c = IsLinked c.sessions c.transports.transports c.routes
