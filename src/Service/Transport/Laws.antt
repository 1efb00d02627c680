-- ===== src/Service/Transport/Laws.antt =====
-- What the operations of the transport registry do to its table.
use arupa.Base.{◌≡◌, ◌≢◌, ◌⊎◌, inl, inr, refl, false, some, none}
use arupa.Base.{GoString, string_eq, key_eq, ◌==◌, is_empty, Option-cases, Bool-cases}
use arupa.Base.{arith}
use arupa.Base.Dict.{NodupKeys, lookup, insert, erase, remove_where-NodupKeys, lookup-remove_where}
use arupa.Base.Result.{Result, ok, err}
use arupa.Strings.{trim_space}
use arupa.Service.Spec.{Transport}
use arupa.Service.Transport.Prepare.{Binding, Session, World, TransportError, prepare}
use arupa.Service.Transport.{Registry, register, unregister, remove_owner}

-- A registration leaves the table or adds one transport under a key that was free.
pub register-cases :
    (w : World) (owner : GoString) (d : Transport) (s : Session) (r : Registry)
    → ((register w owner d s r).0.transports ≡ r.transports)
      ⊎ ((b : Binding) × (lookup (trim_space owner, trim_space d.id) r.transports ≡ none)
          × ((register w owner d s r).0.transports
              ≡ insert (trim_space owner, trim_space d.id) b r.transports))
unfolding register
register-cases w owner d s r = elim (Bool-cases (is_empty (trim_space owner))) [
  | inl e ↦ inl (ground arith)
  | inr no_owner ↦ elim (Bool-cases (is_empty (trim_space d.id))) [
    | inl e ↦ inl (ground arith)
    | inr no_id ↦
        prepared no_owner no_id (prepare w (trim_space owner) (record d { id = trim_space d.id }) s)
          refl
  ]
]
  where
    prepared :
        is_empty (trim_space owner) ≡ false
        → is_empty (trim_space d.id) ≡ false
        → (p : Result TransportError Binding)
        → prepare w (trim_space owner) (record d { id = trim_space d.id }) s ≡ p
        → ((register w owner d s r).0.transports ≡ r.transports)
          ⊎ ((b : Binding) × (lookup (trim_space owner, trim_space d.id) r.transports ≡ none)
              × ((register w owner d s r).0.transports
                  ≡ insert (trim_space owner, trim_space d.id) b r.transports))
    prepared a c (err e) q = inl (ground arith)
    prepared a c (ok b) q =
        elim (Option-cases (lookup (trim_space owner, trim_space d.id) r.transports)) [
          | inl free ↦ inr (b, free, ground arith)
          | inr (old, there) ↦ inl (ground arith)
        ]

pub unregister-cases :
    (owner id : GoString) (r : Registry)
    → ((unregister owner id r).0.transports ≡ r.transports)
      ⊎ ((unregister owner id r).0.transports ≡ erase (owner, trim_space id) r.transports)
unfolding unregister
unregister-cases owner id r = ground arith

-- Behind the removal of an owner there is what was there of the others.
pub remove_owner-cases :
    (owner o i : GoString) (r : Registry) (b : Binding)
    → NodupKeys r.transports
    → lookup (o, i) (remove_owner owner r).transports ≡ some b
    → (o ≢ owner) × (lookup (o, i) r.transports ≡ some b)
unfolding remove_owner
remove_owner-cases owner o i r b u h = ground (
  arith,
  lookup-remove_where (λ (k : GoString × GoString) (_ : Binding). k.0 == owner) (o, i) r.transports
      u,
)

pub remove_owner-keeps :
    (owner o i : GoString) (r : Registry) (b : Binding)
    → NodupKeys r.transports
    → o ≢ owner
    → lookup (o, i) r.transports ≡ some b
    → lookup (o, i) (remove_owner owner r).transports ≡ some b
unfolding remove_owner
remove_owner-keeps owner o i r b u n h = ground (
  arith,
  lookup-remove_where (λ (k : GoString × GoString) (_ : Binding). k.0 == owner) (o, i) r.transports
      u,
)

pub remove_owner-NodupKeys :
    (owner : GoString) (r : Registry)
    → NodupKeys r.transports
    → NodupKeys (remove_owner owner r).transports
unfolding remove_owner
remove_owner-NodupKeys owner r u = remove_where-NodupKeys _ r.transports u
