-- ===== src/Service/Route/Valid/Owner.antt =====
-- The table of routes behind RemoveOwner.
use arupa.Base.{◌≡◌, ◌≢◌, ◌↔◌, inl, inr, refl, sym, ap, ◌∙◌, Option, some}
use arupa.Base.{none, GoString, string_eq, key_eq, ==-cases, In, [], ◌∷◌}
use arupa.Base.Dict.{Dict, NodupKeys, lookup, erase-cases, lookup-erase_ne, lookup-In}
use arupa.Service.Route.Socket.{SocketRegistry}
use arupa.Service.Route.Register.{Bound, Registry}
use arupa.Service.Route.{remove_locked, remove_owned, remove_owner}
use arupa.Service.Route.Valid.{IsValid}
use arupa.Service.Route.Valid.Remove.{
  Holds, Holds-next, Holds-all, remove_owned-IsValid, remove_locked-by_id, some-inj,
}

module _ {S : Type 0} where
  -- The state of the Socket.IO bridge is no part of the table.
  pub with_socket-IsValid : (r : Registry S) (s : S) → IsValid r → IsValid (record r { socket = s })
  with_socket-IsValid r s v = record {
    distinct_ids = v.distinct_ids;
    distinct_paths = v.distinct_paths;
    keyed = v.keyed;
    listed = v.listed;
    stored = v.stored;
    entered = v.entered;
    one_owner = v.one_owner;
    no_overlap = v.no_overlap;
    unreserved = v.unreserved;
  }

module _ {S : Type 0} (socket : Option (SocketRegistry S)) where
  -- Removing all routes of an owner keeps a valid table valid.
  pub remove_owner-IsValid :
      (owner : GoString) (r : Registry S) → IsValid r → IsValid (remove_owner socket owner r)
  unfolding remove_owner
  remove_owner-IsValid owner r v =
      bridge socket
        (remove_owned-IsValid socket owner r.by_id r v v.distinct_ids (Holds-all socket r v))
    where
      bridge :
          (x : Option (SocketRegistry S))
          → IsValid (remove_owned socket owner r.by_id r)
          → IsValid (elim x [
            | none ↦ remove_owned socket owner r.by_id r
            | some ops ↦
                let removed = remove_owned socket owner r.by_id r in
                record removed { socket = ops.remove_owner owner removed.socket }
          ])
      bridge none w = w
      bridge (some ops) w = with_socket-IsValid _ _ w

  -- A loop over entries leaves exactly what is not an entry of the owner.
  remove_owned_sound :
      (owner : GoString) (entries : Dict (GoString × GoString) Bound) (r : Registry S)
      (k : GoString × GoString) (b : Bound)
      → lookup k (remove_owned socket owner entries r).by_id ≡ some b
      → (lookup k r.by_id ≡ some b) × (In (k, b) entries → b.owner ≢ owner)
  unfolding remove_owned
  remove_owned_sound owner [] r k b h = (h, λ l. absurd l)
  remove_owned_sound owner ((j, c) ∷ entries) r k b h = elim (==-cases c.owner owner) [
    | inl (t, _) ↦
        let (old, later) =
          remove_owned_sound owner entries (remove_locked socket j c r) k b
            (rw (t, remove_owned) at h) in
        let (other, there) =
          erase-cases k j r.by_id
            (ap (λ d. lookup k d) (sym (remove_locked-by_id socket r j c)) ∙ old) in
        (
          there,
          λ l. elim l [
            | inl e ↦ absurd (other (ap (λ (x : (GoString × GoString) × Bound). x.0) e))
            | inr m ↦ later m
          ],
        )
    | inr (f, n) ↦
        let (old, later) = remove_owned_sound owner entries r k b (rw (f, remove_owned) at h) in
        (
          old,
          λ l. elim l [
            | inl e ↦ λ q. n (ap (λ (x : (GoString × GoString) × Bound). x.1.owner) e ∙ q)
            | inr m ↦ later m
          ],
        )
  ]

  remove_owned_complete :
      (owner : GoString) (entries : Dict (GoString × GoString) Bound) (r : Registry S)
      (k : GoString × GoString) (b : Bound)
      → NodupKeys entries
      → Holds socket entries r
      → lookup k r.by_id ≡ some b
      → b.owner ≢ owner
      → lookup k (remove_owned socket owner entries r).by_id ≡ some b
  unfolding remove_owned
  remove_owned_complete owner [] r k b n h l o = l
  remove_owned_complete owner ((j, c) ∷ entries) r k b n h l o = elim (==-cases c.owner owner) [
    | inl (t, e) ↦
        let kept : lookup k (remove_locked socket j c r).by_id ≡ some b =
          ap (λ d. lookup k d) (remove_locked-by_id socket r j c)
          ∙ lookup-erase_ne r.by_id (other e (h j c (inl refl)))
          ∙ l in
        rw (t, remove_owned)
          (remove_owned_complete owner entries (remove_locked socket j c r) k b n.1
            (Holds-next socket j c entries r n h) kept o)
    | inr (f, _) ↦
        rw (f, remove_owned)
          (remove_owned_complete owner entries r k b n.1 (λ i d m. h i d (inr m)) l o)
  ]
    where
      other : c.owner ≡ owner → lookup j r.by_id ≡ some c → j ≢ k
      other e q p = o (
          ap (λ (x : Bound). x.owner) (some-inj (sym l ∙ ap (λ t. lookup t r.by_id) (sym p) ∙ q))
          ∙ e)

  remove_owner-by_id :
      (owner : GoString) (r : Registry S)
      → (remove_owner socket owner r).by_id ≡ (remove_owned socket owner r.by_id r).by_id
  unfolding remove_owner
  remove_owner-by_id owner r = by socket
    where
      by :
          (x : Option (SocketRegistry S))
          → ◌≡◌ {A = Dict (GoString × GoString) Bound}
              (let removed = remove_owned socket owner r.by_id r in
                let after : Registry S = elim x [
                  | none ↦ removed
                  | some ops ↦ record removed { socket = ops.remove_owner owner removed.socket }
                ] in
                after.by_id)
              (remove_owned socket owner r.by_id r).by_id
      by none = refl
      by (some ops) = refl

  -- After an owner is removed from a valid table, a route is registered exactly if it was before
  -- and is of another owner.
  pub remove_owner_iff :
      (owner : GoString) (r : Registry S) (k : GoString × GoString) (b : Bound)
      → IsValid r
      → (lookup k (remove_owner socket owner r).by_id ≡ some b)
        ↔ ((lookup k r.by_id ≡ some b) × (b.owner ≢ owner))
  remove_owner_iff owner r k b v =
      let e = remove_owner-by_id owner r in
      (
        λ h.
            let (old, free) =
              remove_owned_sound owner r.by_id r k b (ap (λ d. lookup k d) (sym e) ∙ h) in
            (old, free (lookup-In k b r.by_id old)),
        λ (l, n).
            ap (λ d. lookup k d) e
            ∙ remove_owned_complete owner r.by_id r k b v.distinct_ids (Holds-all socket r v) l n,
      )
