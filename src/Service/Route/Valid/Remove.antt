-- ===== src/Service/Route/Valid/Remove.antt =====
-- The table of routes behind Unregister and behind a round of RemoveOwner.
use arupa.Base.{◌≡◌, inl, inr, refl, sym, ap, ◌∙◌, subst, Option, some, none}
use arupa.Base.{GoString, string_eq, key_eq, ==-cases, Option-cases, In, [], ◌∷◌, arith}
use arupa.Base.Dict.{
  Dict, NodupKeys, lookup, erase, erase-NodupKeys, erase-cases, lookup-erase_ne, In-lookup,
}
use arupa.Base.Result.{Result, ok, err, ok-injective}
use arupa.Strings.{trim_space}
use arupa.Service.Spec.{HttpRoute}
use arupa.Service.Route.Socket.{SocketRegistry}
use arupa.Service.Route.Register.{Bound, Registry, RouteError, normalize_method}
use arupa.Service.Route.{remove_locked, unregister, remove_owned}
use arupa.Service.Route.Valid.{IsValid, IsStored}

pub some-inj {ℓ} : {A : Type ℓ} {x y : A} → ◌≡◌ {A = Option A} (some x) (some y) → x ≡ y
some-inj q = cc

-- The two forms of the table behind a removal.
module _ {S : Type 0} (r : Registry S) (v : IsValid r) (o i : GoString) (current : Bound)
    (there : lookup (o, i) r.by_id ≡ some current) (s : S) where
  at_key :
      (b : Bound)
      → lookup (b.owner, b.route.id) r.by_id ≡ some b
      → ◌≡◌ {A = GoString × GoString} (o, i) (b.owner, b.route.id)
      → current ≡ b
  at_key b l e = some-inj (sym there ∙ ap (λ (k : GoString × GoString). lookup k r.by_id) e ∙ l)

  key_of_current : ◌≡◌ {A = GoString × GoString} (current.owner, current.route.id) (o, i)
  key_of_current = let (p, q) = v.keyed o i current there in λ t. (p t, q t)

  abbrev without_socket : Registry S
  without_socket = record r { by_id = erase (o, i) r.by_id; socket = s }

  without_socket-IsValid : current.route.http ≡ none → IsValid without_socket
  without_socket-IsValid no_http = record {
    distinct_ids = erase-NodupKeys (o, i) r.by_id v.distinct_ids;
    distinct_paths = v.distinct_paths;
    keyed = λ p q b h. v.keyed p q b (erase-cases (p, q) (o, i) r.by_id h).1;
    listed = λ p m b h.
        let l = v.listed p m b h in
        lookup-erase_ne r.by_id (λ e. no_route b (v.stored p m b h) (at_key b l e)) ∙ l;
    stored = v.stored;
    entered = λ p q b d h. v.entered p q b d (erase-cases (p, q) (o, i) r.by_id h).1;
    one_owner = v.one_owner;
    no_overlap = v.no_overlap;
    unreserved = v.unreserved;
  }
    where
      no_route : {p m : GoString} (b : Bound) → IsStored p m b → current ≡ b → ⊥
      no_route b st e = clash (sym no_http ∙ ap (λ (c : Bound). c.route.http) e ∙ st.holds)
        where
          clash : {d : HttpRoute} → ◌≡◌ {A = Option HttpRoute} none (some d) → ⊥
          clash q = cc

  module _ (d : HttpRoute) (holds : current.route.http ≡ some d) where
    abbrev without_http : Registry S
    without_http = record r {
      by_id = erase (o, i) r.by_id;
      http = erase (d.pattern, d.method) r.http;
    }

    entry : lookup (d.pattern, d.method) r.http ≡ some current
    entry = v.entered o i current d there holds

    http-listed :
        (p m : GoString) (b : Bound)
        → lookup (p, m) without_http.http ≡ some b
        → lookup (b.owner, b.route.id) without_http.by_id ≡ some b
    http-listed p m b h =
        let (other, old) = erase-cases (p, m) (d.pattern, d.method) r.http h in
        let l = v.listed p m b old in
        lookup-erase_ne r.by_id (λ e. other (same_entry b (v.stored p m b old) (at_key b l e))) ∙ l
      where
        same_entry :
            {p m : GoString} (b : Bound)
            → IsStored p m b
            → current ≡ b
            → ◌≡◌ {A = GoString × GoString} (d.pattern, d.method) (p, m)
        same_entry b st e =
            let f : d ≡ st.declared =
              some-inj (sym holds ∙ ap (λ (c : Bound). c.route.http) e ∙ st.holds) in
            λ t. (
              ((ap (λ (x : HttpRoute). x.pattern) f) ∙ st.same_pattern) t,
              ((ap (λ (x : HttpRoute). x.method) f) ∙ st.same_method) t,
            )

    http-entered :
        (p q : GoString) (b : Bound) (f : HttpRoute)
        → lookup (p, q) without_http.by_id ≡ some b
        → b.route.http ≡ some f
        → lookup (f.pattern, f.method) without_http.http ≡ some b
    http-entered p q b f h g =
        let (other, old) = erase-cases (p, q) (o, i) r.by_id h in
        let l = v.entered p q b f old g in
        lookup-erase_ne r.http (λ e. other (same_key e l (v.keyed p q b old))) ∙ l
      where
        same_key :
            ◌≡◌ {A = GoString × GoString} (d.pattern, d.method) (f.pattern, f.method)
            → lookup (f.pattern, f.method) r.http ≡ some b
            → (b.owner ≡ p) × (b.route.id ≡ q)
            → ◌≡◌ {A = GoString × GoString} (o, i) (p, q)
        same_key e l (x, y) =
            let c : current ≡ b =
              some-inj (sym entry ∙ ap (λ (k : GoString × GoString). lookup k r.http) e ∙ l) in
            sym key_of_current
            ∙ ap {B = GoString × GoString} (λ (t : Bound). (t.owner, t.route.id)) c
            ∙ (λ t. (x t, y t))

    without_http-IsValid : IsValid without_http
    without_http-IsValid = record {
      distinct_ids = erase-NodupKeys (o, i) r.by_id v.distinct_ids;
      distinct_paths = erase-NodupKeys (d.pattern, d.method) r.http v.distinct_paths;
      keyed = λ p q b h. v.keyed p q b (erase-cases (p, q) (o, i) r.by_id h).1;
      listed = http-listed;
      stored = λ p m b h. v.stored p m b (old p m b h);
      entered = http-entered;
      one_owner = λ p m n b c h k. v.one_owner p m n b c (old p m b h) (old p n c k);
      no_overlap = λ p m n b c h k. v.no_overlap p m n b c (old p m b h) (old p n c k);
      unreserved = λ p m b h. v.unreserved p m b (old p m b h);
    }
      where
        old :
            (p m : GoString) (b : Bound)
            → lookup (p, m) without_http.http ≡ some b
            → lookup (p, m) r.http ≡ some b
        old p m b h = (erase-cases (p, m) (d.pattern, d.method) r.http h).1

-- Removing one entry that is in the table keeps the table valid.
module _ {S : Type 0} (socket : Option (SocketRegistry S)) where
  pub remove_locked-IsValid :
      (r : Registry S) (o i : GoString) (current : Bound)
      → IsValid r
      → lookup (o, i) r.by_id ≡ some current
      → IsValid (remove_locked socket (o, i) current r)
  unfolding remove_locked
  remove_locked-IsValid r o i current v there = elim (Option-cases current.route.http) [
    | inl no_http ↦
        rw (no_http, remove_locked) (without_socket-IsValid r v o i current there _ no_http)
    | inr (d, holds) ↦
        let n : normalize_method d.method ≡ d.method =
          (v.stored d.pattern d.method current (v.entered o i current d there holds)).normal in
        rw (holds, remove_locked, n) (without_http-IsValid r v o i current there r.socket d holds)
  ]

  pub remove_locked-by_id :
      (r : Registry S) (k : GoString × GoString) (current : Bound)
      → (remove_locked socket k current r).by_id ≡ erase k r.by_id
  unfolding remove_locked
  remove_locked-by_id r k current = elim (Option-cases current.route.http) [
    | inl no_http ↦ rw (no_http, remove_locked)
    | inr (d, holds) ↦ rw (holds, remove_locked)
  ]

  -- Unregistering a route, where it is found, keeps a valid table valid.
  pub unregister-IsValid :
      (owner id : GoString) (r out : Registry S)
      → IsValid r
      → unregister socket owner id r ≡ ok out
      → IsValid out
  unfolding unregister
  unregister-IsValid owner id r out v h =
      elim (Option-cases (lookup (owner, trim_space id) r.by_id)) [
        | inl missed ↦ absurd (clash (rw (missed, unregister) at h))
        | inr (current, there) ↦
            subst IsValid (ok-injective (rw (there, unregister) at h))
              (remove_locked-IsValid r owner (trim_space id) current v there)
      ]
    where
      clash : ◌≡◌ {A = Result RouteError (Registry S)} (err RouteError.not_registered) (ok out) → ⊥
      clash q = cc

  -- A removal adds no entry.
  pub unregister-old :
      (owner id : GoString) (r out : Registry S)
      → unregister socket owner id r ≡ ok out
      → (k : GoString × GoString) (b : Bound) → lookup k out.by_id ≡ some b
      → lookup k r.by_id ≡ some b
  unfolding unregister
  unregister-old owner id r out h k b l =
      elim (Option-cases (lookup (owner, trim_space id) r.by_id)) [
        | inl free ↦ absurd (ground arith)
        | inr (current, there) ↦
            let e : remove_locked socket (owner, trim_space id) current r ≡ out = ground arith in
            (erase-cases k (owner, trim_space id) r.by_id
              (ap (λ d. lookup k d) (sym (remove_locked-by_id r _ current))
                ∙ ap (λ (x : Registry S). lookup k x.by_id) e
                ∙ l)).1
      ]

  -- The entries that the loop of `RemoveOwner` has still to visit are in the table.
  abbrev pub Holds : Dict (GoString × GoString) Bound → Registry S → Type 0
  Holds entries r =
      (k : GoString × GoString) (c : Bound) → In (k, c) entries → lookup k r.by_id ≡ some c

  pub Holds-next :
      (k : GoString × GoString) (c : Bound) (entries : Dict (GoString × GoString) Bound)
      (r : Registry S)
      → NodupKeys ((k, c) ∷ entries)
      → Holds ((k, c) ∷ entries) r
      → Holds entries (remove_locked socket k c r)
  Holds-next k c entries r (fresh, distinct) h j b l =
      ap (λ d. lookup j d) (remove_locked-by_id r k c)
      ∙ lookup-erase_ne r.by_id (λ e. other e (In-lookup j b entries distinct l))
      ∙ h j b (inr l)
    where
      other : k ≡ j → lookup j entries ≡ some b → ⊥
      other e q = clash (sym fresh ∙ ap (λ t. lookup t entries) e ∙ q)
        where
          clash : ◌≡◌ {A = Option Bound} none (some b) → ⊥
          clash q = cc

  pub remove_owned-IsValid :
      (owner : GoString) (entries : Dict (GoString × GoString) Bound) (r : Registry S)
      → IsValid r
      → NodupKeys entries
      → Holds entries r
      → IsValid (remove_owned socket owner entries r)
  unfolding remove_owned
  remove_owned-IsValid owner [] r v n h = v
  remove_owned-IsValid owner ((k, c) ∷ entries) r v n h = elim (==-cases c.owner owner) [
    | inl (t, _) ↦ rw t (
        remove_owned-IsValid owner entries (remove_locked socket k c r)
          (remove_locked-IsValid r k.0 k.1 c v (h k c (inl refl))) n.1
          (Holds-next k c entries r n h))
    | inr (f, _) ↦ rw f (remove_owned-IsValid owner entries r v n.1 (λ j b l. h j b (inr l)))
  ]

  pub Holds-all : (r : Registry S) → IsValid r → Holds r.by_id r
  Holds-all r v k c l = In-lookup k c r.by_id v.distinct_ids l
