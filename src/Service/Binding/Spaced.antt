-- ===== src/Service/Binding/Spaced.antt =====
-- The controller: a transport that is registered and removed again under the id that it is declared
-- with, which may have white space around it.
use arupa.Base.{ℕ, ◌≡◌, ◌≢◌, inl, inr, refl, ap, ◌∙◌, Option, Option-cases, Bool-cases}
use arupa.Base.{Bool, true, some, none, GoString, string_eq, key_eq, ==-cases, ==_self, nat_eqb}
use arupa.Base.{List, [], ◌∷◌, ◌++◌, In, arith}
use arupa.Base.Dict.{lookup, lookup-erase}
use arupa.Base.Result.{Result, ok, err}
use arupa.Strings.{trim_space}
use arupa.Service.Spec.{Transport, ServiceRecord}
use arupa.Service.Instance.{Instance, add_transport, remove_transport, cut_transport}
use arupa.Service.Transport
use arupa.Service.Transport.Prepare.{TransportError}
use arupa.Service.Route
use arupa.Service.Binding.{
  Controller, OwnerSession, BindingError, register_transport, unregister_transport,
  registered_transport, unregistered_transport,
}

cut_transport-last :
    (id : GoString) (d : Transport) (ts : List Transport)
    → ((t : Transport) → In t ts → t.id ≢ id)
    → (d.id ≡ id → cut_transport id (ts ++ (d ∷ [])) ≡ ts)
      × (d.id ≢ id → cut_transport id (ts ++ (d ∷ [])) ≡ ts ++ (d ∷ []))
unfolding cut_transport
cut_transport-last id d [] n = elim (==-cases d.id id) [
  | inl (q, e) ↦ (λ _. rw (cut_transport, q) refl, λ m. absurd (m e))
  | inr (q, m) ↦ (λ e. absurd (m e), λ _. rw (cut_transport, q) refl)
]
cut_transport-last id d (t ∷ ts) n = elim (==-cases t.id id) [
  | inl (_, e) ↦ absurd (n t (inl refl) e)
  | inr (q, _) ↦
      let (same, kept) = cut_transport-last id d ts (λ u l. n u (inr l)) in
      (
        λ e. rw (cut_transport, q) (ap (λ us. t ∷ us) (same e)),
        λ m. rw (cut_transport, q) (ap (λ us. t ∷ us) (kept m)),
      )
]

nat_eqb_self : (i : ℕ) → nat_eqb i i ≡ true
nat_eqb_self i = ground arith

failed : (e : BindingError) → ◌≢◌ {A = Result BindingError (Unit {0})} (err e) (ok tt)
failed e q = cc

unregister-free :
    (owner id : GoString) (r : Transport.Registry)
    → (Transport.unregister owner id r).1 ≡ ok tt
    → Transport.lookup_transport owner (trim_space id) (Transport.unregister owner id r).0 ≡ none
unfolding Transport.unregister Transport.lookup_transport
unregister-free owner id r h =
    let key : GoString × GoString = (owner, trim_space id) in
    elim (Option-cases (lookup key r.transports)) [
      | inl n ↦ absurd (missing (rw (Transport.unregister, n) at h))
      | inr (b, e) ↦
          rw (Transport.unregister, Transport.lookup_transport, e)
            (rw (lookup-erase key key r.transports, ==_self key) refl)
    ]
  where
    missing : ◌≢◌ {A = Result TransportError (Unit {0})} (err TransportError.not_registered) (ok tt)
    missing q = cc

-- The record of an instance that a declaration is added to and cut from under its trimmed id.
removed :
    (i : Instance) (published : ServiceRecord) (d : Transport)
    → i.service_record ≡ some published
    → ((remove_transport (trim_space d.id) (add_transport d i)).service_record
        ≡ some (record published {
          transports = cut_transport (trim_space d.id) (published.transports ++ (d ∷ []));
        }))
unfolding remove_transport add_transport
removed i published d e = rw (e, remove_transport, add_transport) refl

module _ {S : Type 0} where
  registered :
      (i : ℕ) (d : Transport) (c : Controller S)
      (x : Transport.Registry × Result TransportError (Unit {0}))
      → (registered_transport i d c x).1 ≡ ok tt
      → ((registered_transport i d c x).0.instances i ≡ add_transport d (c.instances i))
        × ((registered_transport i d c x).0.sessions ≡ c.sessions)
  registered i d c (r, err e) h = absurd (failed (BindingError.transport_failed e) h)
  registered i d c (r, ok _) h = (rw (nat_eqb_self i) refl, refl)

  unregistered :
      (i : ℕ) (id : GoString) (c : Controller S)
      (x : Transport.Registry × Result TransportError (Unit {0}))
      → (unregistered_transport i id c x).1 ≡ ok tt
      → ((unregistered_transport i id c x).0.instances i ≡ remove_transport id (c.instances i))
        × ((unregistered_transport i id c x).0.transports ≡ x.0)
        × (x.1 ≡ ok tt)
  unregistered i id c (r, err e) h = absurd (failed (BindingError.transport_failed e) h)
  unregistered i id c (r, ok _) h = (rw (nat_eqb_self i) refl, refl, refl)

  unregister_transport-removes :
      (owner id : GoString) (c : Controller S) (session : OwnerSession)
      → lookup owner c.sessions ≡ some session
      → (unregister_transport owner id c).1 ≡ ok tt
      → ((unregister_transport owner id c).0.instances session.owner
          ≡ remove_transport (trim_space id) (c.instances session.owner))
        × (Transport.lookup_transport owner
              (trim_space id)
              (unregister_transport owner id c).0.transports
            ≡ none)
  unfolding unregister_transport
  unregister_transport-removes owner id c session s h =
      elim (Bool-cases (Route.uses_transport owner (trim_space id) c.routes.by_id)) [
        | inl used ↦ absurd (
            failed (BindingError.transport_in_use (trim_space id))
              (rw (unregister_transport, s, used) at h))
        | inr unused ↦
            let (at_owner, table, done) =
              unregistered session.owner (trim_space id) c
                (Transport.unregister owner id c.transports)
                (rw (unregister_transport, s, unused) at h) in
            (
              rw (unregister_transport, s, unused) at_owner,
              rw (unregister_transport, s, unused)
                  (ap (λ r. Transport.lookup_transport owner (trim_space id) r) table
                    ∙ unregister-free owner id c.transports done),
            )
      ]

  register_transport-adds :
      (stat : GoString → Option Bool) (owner : GoString) (d : Transport) (c : Controller S)
      (session : OwnerSession)
      → lookup owner c.sessions ≡ some session
      → (register_transport stat owner d c).1 ≡ ok tt
      → ((register_transport stat owner d c).0.instances session.owner
          ≡ add_transport d (c.instances session.owner))
        × ((register_transport stat owner d c).0.sessions ≡ c.sessions)
  unfolding register_transport
  register_transport-adds stat owner d c session s h =
      rw (register_transport, s) (registered session.owner d c _ (rw (register_transport, s) at h))

  -- The instance of an attached service publishes a record, none of whose transports has the
  -- trimmed id of a declaration. Where the controller registers that transport and then removes it
  -- again under the id of the declaration, both with success, the registry no longer has it. Where
  -- the id has no white space around it, the published record is the one that it was before. Where
  -- it has, the record still lists the transport, behind those that it listed before.
  pub unregister_transport-register_transport :
      (stat : GoString → Option Bool) (owner : GoString) (d : Transport) (c : Controller S)
      (session : OwnerSession) (published : ServiceRecord)
      → lookup owner c.sessions ≡ some session
      → (c.instances session.owner).service_record ≡ some published
      → ((t : Transport) → In t published.transports → t.id ≢ trim_space d.id)
      → (register_transport stat owner d c).1 ≡ ok tt
      → (unregister_transport owner d.id (register_transport stat owner d c).0).1 ≡ ok tt
      → (let after = (unregister_transport owner d.id (register_transport stat owner d c).0).0 in
          (Transport.lookup_transport owner (trim_space d.id) after.transports ≡ none)
          × (d.id ≡ trim_space d.id
              → (after.instances session.owner).service_record ≡ some published)
          × (d.id ≢ trim_space d.id
              → (after.instances session.owner).service_record
                ≡ some (record published { transports = published.transports ++ (d ∷ []) })))
  unregister_transport-register_transport stat owner d c session published s p n h k =
      let (added, same) = register_transport-adds stat owner d c session s h in
      let (cut, free) =
        unregister_transport-removes owner d.id (register_transport stat owner d c).0 session
          (ap (λ x. lookup owner x) same ∙ s) k in
      let after =
        ap (λ (i : Instance). i.service_record)
          (cut ∙ ap (λ i. remove_transport (trim_space d.id) i) added)
        ∙ removed (c.instances session.owner) published d p in
      let (trimmed, spaced) = cut_transport-last (trim_space d.id) d published.transports n in
      (
        free,
        λ e. after ∙ ap (λ ts. some (record published { transports = ts })) (trimmed e),
        λ m. after ∙ ap (λ ts. some (record published { transports = ts })) (spaced m),
      )
