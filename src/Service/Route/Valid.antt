-- ===== src/Service/Route/Valid.antt =====
-- What holds of the route table between two operations.
pub mod Register
pub mod Entry
pub mod Remove
pub mod Owner
pub mod Reserve
use arupa.Base.{◌≡◌, ◌≢◌, false, Option, some, none, GoString, string_eq, key_eq}
use arupa.Base.Dict.{NodupKeys, lookup}
use arupa.Base.Result.{ok}
use arupa.Netx.Path.{validate_path_pattern}
use arupa.Service.Spec.{HttpRoute}
use arupa.Service.Route.Register.{
  new_registry, Bound, Registry, normalize_method, methods_conflict, is_static,
}

-- A binding stands in the table by paths under the pattern and the method of its route.
pub record IsStored (pattern method : GoString) (b : Bound) : Type 0 where
  pub declared : HttpRoute
  pub holds : b.route.http ≡ some declared
  pub same_pattern : declared.pattern ≡ pattern
  pub same_method : declared.method ≡ method
  pub normal : normalize_method method ≡ method
  pub valid : validate_path_pattern pattern ≡ ok tt

module _ {S : Type 0} where
  -- The two tables hold the same HTTP routes, each under its own keys; a path belongs to one owner;
  -- where a path has several routes, they have different methods and are neither for all methods
  -- nor static; no path is both reserved and routed.
  pub record IsValid (r : Registry S) : Type 0 where
    pub distinct_ids : NodupKeys r.by_id
    pub distinct_paths : NodupKeys r.http
    pub keyed :
        (o i : GoString) (b : Bound)
        → lookup (o, i) r.by_id ≡ some b
        → (b.owner ≡ o) × (b.route.id ≡ i)
    pub listed :
        (p m : GoString) (b : Bound)
        → lookup (p, m) r.http ≡ some b
        → lookup (b.owner, b.route.id) r.by_id ≡ some b
    pub stored : (p m : GoString) (b : Bound) → lookup (p, m) r.http ≡ some b → IsStored p m b
    pub entered :
        (o i : GoString) (b : Bound) (d : HttpRoute)
        → lookup (o, i) r.by_id ≡ some b
        → b.route.http ≡ some d
        → lookup (d.pattern, d.method) r.http ≡ some b
    pub one_owner :
        (p m n : GoString) (b c : Bound)
        → lookup (p, m) r.http ≡ some b
        → lookup (p, n) r.http ≡ some c
        → b.owner ≡ c.owner
    pub no_overlap :
        (p m n : GoString) (b c : Bound)
        → lookup (p, m) r.http ≡ some b
        → lookup (p, n) r.http ≡ some c
        → m ≢ n
        → (methods_conflict m n ≡ false) × (is_static b.transport.declared.kind ≡ false)
    pub unreserved :
        (p m : GoString) (b : Bound) → lookup (p, m) r.http ≡ some b → lookup p r.reserved ≡ none

-- The empty table.
pub new_registry-IsValid : {S : Type 0} (s : S) → IsValid (new_registry s)
unfolding lookup
new_registry-IsValid s = record {
  distinct_ids = tt;
  distinct_paths = tt;
  keyed = λ o i b h. cc;
  listed = λ p m b h. cc;
  stored = λ p m b h. absurd (none_some h);
  entered = λ o i b d h g. cc;
  one_owner = λ p m n b c h k. cc;
  no_overlap = λ p m n b c h k d. absurd (none_some h);
  unreserved = λ p m b h. cc;
}
  where
    none_some : {b : Bound} → ◌≢◌ {A = Option Bound} none (some b)
    none_some e = cc
