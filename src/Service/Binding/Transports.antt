-- ===== src/Service/Binding/Transports.antt =====
-- The controller and its linked parts: Attach, RegisterTransport and UnregisterTransport.
use arupa.Base.{ℕ, ◌≡◌, inl, inr, sym, ap, ◌∙◌, subst, Bool, Option}
use arupa.Base.{some, none, GoString, string_eq, key_eq}
use arupa.Base.{Option-cases, Bool-cases, arith}
use arupa.Base.Dict.{Dict, lookup, insert, insert-cases, lookup-insert_ne}
use arupa.Base.Result.{Result, ok, err}
use arupa.Strings.{trim_space}
use arupa.Strings.Trim.{trim_space_idem}
use arupa.Service.Spec.{Transport}
use arupa.Service.Transport
use arupa.Service.Transport.Prepare.{Session, TransportError}
use arupa.Service.Transport.Laws.{register-cases, unregister-cases}
use arupa.Service.Route
use arupa.Service.Binding.{
  Controller, OwnerSession, attach, register_transport, unregister_transport, registered_transport,
  unregistered_transport, world,
}
use arupa.Service.Binding.Linked.{IsLinked, add-IsLinked, erase-IsLinked, none-some, Linked}

abbrev session_of : OwnerSession → Session
session_of s = record { endpoint = some s.owner; root = s.root; inherited = s.inherited }

module _ {S : Type 0} where
  pub attach-Linked :
      (owner : GoString) (state : Option ℕ) (root : GoString) (inherited : Dict GoString GoString)
      (c out : Controller S)
      → Linked c
      → attach owner state root inherited c ≡ ok out
      → Linked out
  unfolding attach
  attach-Linked owner none root inherited c out l h = absurd (ground arith)
  attach-Linked owner (some i) root inherited c out l h =
      let session : OwnerSession = record { owner = i; root = root; inherited = inherited } in
      let free : lookup (trim_space owner) c.sessions ≡ none = ground arith in
      let e : record c { sessions = insert (trim_space owner) session c.sessions } ≡ out =
        ground arith in
      subst Linked e (record {
        valid = l.valid;
        distinct = l.distinct;
        trimmed = λ o s k. elim (insert-cases o _ session c.sessions k) [
          | inl (q, _) ↦ ap trim_space (sym q) ∙ trim_space_idem owner ∙ q
          | inr (_, old) ↦ l.trimmed o s old
        ];
        attached = λ o j t k.
            let (s, there) = l.attached o j t k in
            (
              s,
              lookup-insert_ne session c.sessions
                    (λ q. none-some (sym free ∙ ap (λ x. lookup x c.sessions) q ∙ there))
                  ∙ there,
            );
        served = l.served;
      })

  registered_transport-Linked :
      (i : ℕ) (declaration : Transport) (c : Controller S)
      (x : Transport.Registry × Result TransportError (Unit {0}))
      → IsLinked c.sessions x.0.transports c.routes
      → Linked (registered_transport i declaration c x).0
  registered_transport-Linked i declaration c (registry, err e) l = l
  registered_transport-Linked i declaration c (registry, ok _) l = l

  unregistered_transport-Linked :
      (i : ℕ) (id : GoString) (c : Controller S)
      (x : Transport.Registry × Result TransportError (Unit {0}))
      → IsLinked c.sessions x.0.transports c.routes
      → Linked (unregistered_transport i id c x).0
  unregistered_transport-Linked i id c (registry, err e) l = l
  unregistered_transport-Linked i id c (registry, ok _) l = l

  pub register_transport-Linked :
      (stat : GoString → Option Bool) (owner : GoString) (declaration : Transport)
      (c : Controller S)
      → Linked c
      → Linked (register_transport stat owner declaration c).0
  unfolding register_transport
  register_transport-Linked stat owner declaration c l =
      elim (Option-cases (lookup owner c.sessions)) [
        | inl n ↦ rw (n, register_transport) l
        | inr (s, there) ↦
            rw (there, register_transport)
              (registered_transport-Linked s.owner declaration c
                (Transport.register (world stat c) owner declaration (session_of s) c.transports)
                (elim (register-cases (world stat c) owner declaration (session_of s)
                  c.transports) [
                    | inl same ↦ subst (λ d. IsLinked c.sessions d c.routes) (sym same) l
                    | inr (t, free, added) ↦
                        subst (λ d. IsLinked c.sessions d c.routes) (sym added)
                          (add-IsLinked c.sessions c.transports.transports c.routes
                            (trim_space owner) (trim_space declaration.id) s t l
                            (ap (λ o. lookup o c.sessions) (l.trimmed owner s there) ∙ there) free)
                  ]))
      ]

  pub unregister_transport-Linked :
      (owner id : GoString) (c : Controller S)
      → Linked c
      → Linked (unregister_transport owner id c).0
  unfolding unregister_transport
  unregister_transport-Linked owner id c l = elim (Option-cases (lookup owner c.sessions)) [
    | inl n ↦ rw (n, unregister_transport) l
    | inr (s, there) ↦
        elim (Bool-cases (Route.uses_transport owner (trim_space id) c.routes.by_id)) [
          | inl used ↦ rw (there, unregister_transport, used) l
          | inr unused ↦
              rw (there, unregister_transport, unused)
                (unregistered_transport-Linked s.owner (trim_space id) c
                  (Transport.unregister owner id c.transports)
                  (elim (unregister-cases owner id c.transports) [
                    | inl same ↦ subst (λ d. IsLinked c.sessions d c.routes) (sym same) l
                    | inr erased ↦
                        subst (λ d. IsLinked c.sessions d c.routes) (sym erased)
                          (erase-IsLinked c.sessions c.transports.transports c.routes owner
                            (trim_space id) l unused)
                  ]))
        ]
  ]
