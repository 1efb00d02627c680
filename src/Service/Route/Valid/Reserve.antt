-- ===== src/Service/Route/Valid/Reserve.antt =====
-- The table of routes behind Reserve.
use arupa.Base.{ap, sym, ◌≡◌, inl, inr, refl, ◌∙◌, subst}
use arupa.Base.{List, GoString, string_eq, key_eq, In, [], ◌∷◌}
use arupa.Base.Dict.{Dict, lookup, insert, lookup-insert_ne}
use arupa.Base.Result.{ok, Unit-bind-ok, ok-injective}
use arupa.Service.Route.Register.{Registry, check_reserve, reserve_all, reserve}
use arupa.Service.Route.Register.Reserved.{check_reserve-free}
use arupa.Service.Route.Valid.{IsValid}

reserve_all-other :
    (owner : GoString) (patterns : List GoString) (reserved : Dict GoString GoString) (p : GoString)
    → (In p patterns → ⊥)
    → lookup p (reserve_all owner patterns reserved) ≡ lookup p reserved
unfolding reserve_all
reserve_all-other owner [] reserved p n = refl
reserve_all-other owner (q ∷ patterns) reserved p n =
    reserve_all-other owner patterns (insert q owner reserved) p (λ l. n (inr l))
    ∙ lookup-insert_ne owner reserved (λ e. n (inl e))

-- A reservation that is accepted keeps a valid table valid: no path of a route is among its paths.
pub reserve-IsValid :
    {S : Type 0} (owner : GoString) (patterns : List GoString) (r out : Registry S)
    → IsValid r
    → reserve owner patterns r ≡ ok out
    → IsValid out
unfolding reserve
reserve-IsValid owner patterns r out v h =
    let (free, h') = Unit-bind-ok (check_reserve owner patterns r) _ h in
    subst IsValid (ok-injective h') (record {
      distinct_ids = v.distinct_ids;
      distinct_paths = v.distinct_paths;
      keyed = v.keyed;
      listed = v.listed;
      stored = v.stored;
      entered = v.entered;
      one_owner = v.one_owner;
      no_overlap = v.no_overlap;
      unreserved = λ p m b l.
          reserve_all-other owner patterns r.reserved p
            (λ i. check_reserve-free owner patterns r free p i m b l)
          ∙ v.unreserved p m b l;
    })

pub reserve-by_id :
    {S : Type 0} (owner : GoString) (patterns : List GoString) (r out : Registry S)
    → reserve owner patterns r ≡ ok out
    → out.by_id ≡ r.by_id
unfolding reserve
reserve-by_id owner patterns r out h =
    let (_, h') = Unit-bind-ok (check_reserve owner patterns r) _ h in
    ap (λ (x : Registry _). x.by_id) (sym (ok-injective h'))
