-- ===== src/Service/Route/Register.antt =====
-- Reserving paths and registering routes: validation and the conflict policy.
pub mod Checks
pub mod Inverted
pub mod Reserved
use arupa.Base.{ℕ, Bool, true, false, not, ◌&&◌, ◌||◌, List, [], ◌∷◌, Option, none, some, GoString}
use arupa.Base.{string_eq, key_eq, bool_eq, ◌==◌, if◌then◌else◌, is_empty}
use arupa.Base.Dict.{Dict, lookup, insert}
use arupa.Base.Result.{Result, ok, err, ◌>>=◌, ◌>>◌, reject_if}
use arupa.Strings.{bytes, trim_space, to_upper, has_suffix}
use arupa.Netx.Path.{PathError, slash, validate_path_pattern, method_get}
use arupa.Service.Spec.{Route, HttpRoute, SocketIoRoute, RewriteRule, TransportType}
use arupa.Service.Transport.Prepare.{Binding}
use arupa.Service.Route.Socket.{SocketRegistry}

pub data RouteError : Type 0 where
  owner_required id_required transport_required one_kind_required : RouteError
  transport_unknown id_registered wrong_transport location_without_prefix : RouteError
  static_method directory_without_slash file_with_slash not_registered : RouteError
  socket_transport_required socket_unavailable : RouteError
  bad_pattern : PathError → RouteError
  path_reserved owner_conflict : GoString → RouteError
  static_conflict method_conflict : RouteError
  socket_refused : GoString → RouteError

-- `binding`: a registered route with the transport that serves it.
pub record Bound : Type 0 where
  pub owner : GoString
  pub route : Route
  pub transport : Binding

-- `byID` and `http` share their bindings, which are not written to once they are in the tables.
pub record Registry (S : Type 0) : Type 0 where
  pub by_id : Dict (GoString × GoString) Bound  -- owner and id
  pub http : Dict (GoString × GoString) Bound  -- pattern and method
  pub reserved : Dict GoString GoString
  pub socket : S

abbrev pub new_registry : {S : Type 0} → S → Registry S
new_registry s = record { by_id = []; http = []; reserved = []; socket = s }

unfoldable pub normalize_method : GoString → GoString
normalize_method method = to_upper (trim_space method)

unfoldable pub methods_conflict : GoString → GoString → Bool
methods_conflict a b = a == b || is_empty a || is_empty b

abbrev pub is_static : TransportType → Bool
is_static TransportType.static = true
is_static _ = false

abbrev pub serves_http : TransportType → Bool
serves_http TransportType.http = true
serves_http TransportType.static = true
serves_http TransportType.proxy = true
serves_http _ = false

abbrev pub is_socket_io : TransportType → Bool
is_socket_io TransportType.socket_io = true
is_socket_io _ = false

abbrev pub is_nil {ℓ} : {A : Type ℓ} → Option A → Bool
is_nil none = true
is_nil (some a) = false

-- Whether the path is reserved by another owner.
abbrev other_reserver : GoString → Option GoString → Bool
other_reserver owner none = false
other_reserver owner (some current) = not (current == owner)

unfoldable pub path_in_use : GoString → Dict (GoString × GoString) Bound → Bool
path_in_use pattern [] = false
path_in_use pattern (((p, _), _) ∷ http) = p == pattern || path_in_use pattern http

-- The first loop of `Reserve`: the patterns are checked one by one.
unfoldable pub check_reserve :
    {S : Type 0} → GoString → List GoString → Registry S → Result RouteError (Unit {0})
unfolding path_in_use
check_reserve owner [] r = ok tt
check_reserve owner (pattern ∷ patterns) r =
    let rest = check_reserve owner patterns r in
    elim (validate_path_pattern pattern) [
      | err e ↦ err (RouteError.bad_pattern e)
      | ok _ ↦
          if other_reserver owner (lookup pattern r.reserved)
          then err (RouteError.path_reserved pattern)
          else if path_in_use pattern r.http
          then err (RouteError.owner_conflict pattern)
          else rest
    ]

-- The second loop writes them all.
unfoldable pub reserve_all :
    GoString → List GoString → Dict GoString GoString → Dict GoString GoString
reserve_all owner [] reserved = reserved
reserve_all owner (pattern ∷ patterns) reserved =
    reserve_all owner patterns (insert pattern owner reserved)

unfoldable pub reserve :
    {S : Type 0} → GoString → List GoString → Registry S → Result RouteError (Registry S)
unfolding check_reserve reserve_all
reserve owner patterns r = do
  check_reserve owner patterns r
  ok (record r { reserved = reserve_all owner patterns r.reserved })

-- A rewrite of Location headers goes with a rewrite of prefixes.
abbrev bad_rewrite : Option RewriteRule → Bool
bad_rewrite none = false
bad_rewrite (some rewrite) = rewrite.location && not rewrite.prefix

-- What a static transport asks of its route.
check_static : Binding → HttpRoute → Result RouteError (Unit {0})
check_static transport declaration =
    let directory = has_suffix declaration.pattern slash in
    if not (is_static transport.declared.kind)
    then ok tt
    else if not (is_empty declaration.method) && not (declaration.method == method_get)
    then err RouteError.static_method
    else if transport.static_dir && not directory
    then err RouteError.directory_without_slash
    else if not transport.static_dir && directory
    then err RouteError.file_with_slash
    else ok tt

-- The conflict of a route with one that is in the table at the same path.
entry_conflict : Bound → HttpRoute → GoString → Bound → Option RouteError
entry_conflict prepared declaration method current =
    if not (current.owner == prepared.owner)
    then some (RouteError.owner_conflict current.owner)
    else if is_static current.transport.declared.kind || is_static prepared.transport.declared.kind
    then some RouteError.static_conflict
    else if methods_conflict method declaration.method
    then some RouteError.method_conflict
    else none

-- The loop over the table: the first conflict that is met.
unfoldable pub find_conflict :
    Bound → HttpRoute → Dict (GoString × GoString) Bound → Option RouteError
unfolding entry_conflict
find_conflict prepared declaration [] = none
find_conflict prepared declaration (((pattern, method), current) ∷ http) =
    let rest = find_conflict prepared declaration http in
    if not (pattern == declaration.pattern)
    then rest
    else elim (entry_conflict prepared declaration method current) [ some e ↦ some e | none ↦ rest ]

abbrev no_conflict : Option RouteError → Result RouteError (Unit {0})
no_conflict none = ok tt
no_conflict (some e) = err e

abbrev not_reserved : Option GoString → Result RouteError (Unit {0})
not_reserved none = ok tt
not_reserved (some owner) = err (RouteError.path_reserved owner)

abbrev pattern_ok : Result PathError (Unit {0}) → Result RouteError (Unit {0})
pattern_ok (ok _) = ok tt
pattern_ok (err e) = err (RouteError.bad_pattern e)

-- The checks of `registerHTTPLocked`, in its order; the result is the declaration as it is stored.
unfoldable pub check_http :
    {S : Type 0} → Bound → HttpRoute → Registry S → Result RouteError HttpRoute
unfolding check_static
check_http prepared declaration r = do
  pattern_ok (validate_path_pattern declaration.pattern)
  reject_if (not (serves_http prepared.transport.declared.kind)) RouteError.wrong_transport
  reject_if (bad_rewrite declaration.rewrite) RouteError.location_without_prefix
  let declaration' = record declaration { method = normalize_method declaration.method }
  not_reserved (lookup declaration.pattern r.reserved)
  check_static prepared.transport declaration'
  no_conflict (find_conflict prepared declaration' r.http)
  ok declaration'

-- The binding with the declaration that was checked.
abbrev pub with_http : Bound → HttpRoute → Bound
with_http prepared declaration =
    let route = prepared.route in
    record prepared { route = record route { http = some declaration } }

-- `registerHTTPLocked`, and the entry under the id that `Register` makes after it.
unfoldable pub register_http :
    {S : Type 0} → Bound → HttpRoute → Registry S → Result RouteError (Registry S)
register_http prepared declaration r = do
  stored ← check_http prepared declaration r
  let bound = with_http prepared stored
  ok (record r {
    http = insert (stored.pattern, stored.method) bound r.http;
    by_id = insert (prepared.owner, prepared.route.id) bound r.by_id;
  })

module _ {S : Type 0} (socket : Option (SocketRegistry S)) where
  -- The branch of `Register` for Socket.IO routes.
  unfoldable pub register_socket :
      Bound → SocketIoRoute → Registry S → Result RouteError (Registry S)
  register_socket prepared declaration r =
      if not (is_socket_io prepared.transport.declared.kind)
      then err RouteError.socket_transport_required
      else elim socket [
        | none ↦ err RouteError.socket_unavailable
        | some ops ↦
            elim (ops.register prepared.owner prepared.route.id declaration
              prepared.transport.endpoint r.socket) [
                | err e ↦ err (RouteError.socket_refused e)
                | ok s ↦ ok (record r {
                  by_id = insert (prepared.owner, prepared.route.id) prepared r.by_id;
                  socket = s;
                })
              ]
      ]

  -- The one kind of route that a declaration holds.
  register_kind :
      Bound → Option HttpRoute → Option SocketIoRoute → Registry S → Result RouteError (Registry S)
  register_kind prepared (some http) none r = register_http prepared http r
  register_kind prepared none (some socket_io) r = register_socket prepared socket_io r
  register_kind prepared _ _ r = err RouteError.one_kind_required

  register_resolved :
      GoString → Route → Registry S → Option Binding → Result RouteError (Registry S)
  register_resolved owner declaration r none = err RouteError.transport_unknown
  register_resolved owner declaration r (some resolved) = do
    reject_if (not (is_nil (lookup (owner, declaration.id) r.by_id))) RouteError.id_registered
    register_kind (record { owner = owner; route = declaration; transport = resolved })
        declaration.http declaration.socket_io r

  -- `Register`; the first argument resolves a transport of an owner by its id.
  unfoldable pub register :
      (GoString → GoString → Option Binding)
      → GoString
      → Route
      → Registry S
      → Result RouteError (Registry S)
  unfolding register_resolved register_kind
  register transports owner declaration r = do
    let owner' = trim_space owner
    let id = trim_space declaration.id
    let transport_id = trim_space declaration.transport_id
    let declaration' = record declaration { id = id; transport_id = transport_id }
    reject_if (is_empty owner') RouteError.owner_required
    reject_if (is_empty id) RouteError.id_required
    reject_if (is_empty transport_id) RouteError.transport_required
    reject_if (is_nil declaration.http == is_nil declaration.socket_io) RouteError.one_kind_required
    register_resolved owner' declaration' r (transports owner' transport_id)
