-- ===== src/Service/Instance.antt =====
-- internal/service/instance/instance.go: the state of one running service. The locks protect one
-- field each and are not modelled; a method on a nil `*Instance` is the caller's `none`.
pub mod Laws
use arupa.Base.{ℕ, ◌+◌, Bool, true, false, List, [], ◌∷◌, ◌++◌, Option, none, some, GoString}
use arupa.Base.{string_eq, ◌==◌, if◌then◌else◌}
use arupa.Auth.Policy.{AccessPolicy}
use arupa.Service.Spec.{Transport, Route, ServiceRecord}

-- Why a backend or a directory could not be closed: the text that the system gives.
abbrev pub CloseError : Type 0
CloseError = GoString

-- `close_backend` and `stop_host_broker` tell whether the callback is there; what it returns when
-- it is called is fixed with it. `backend_closes` counts how often the backend was closed.
pub record Instance : Type 0 where
  pub connected : Bool
  pub service_record : Option ServiceRecord
  pub access : Option AccessPolicy
  pub cancelled : Bool
  pub degraded : Bool
  pub broker_stopped : Bool
  pub close_backend : Option (Option CloseError)
  pub stop_host_broker : Bool
  pub cleanup_dirs : List GoString
  pub close_done : Bool
  pub close_err : Option CloseError
  pub backend_closes : ℕ

-- An access policy that is not configured is the empty one.
unfoldable pub access_policy : Instance → AccessPolicy
access_policy i = elim i.access [
  | none ↦ record { require_auth = false; groups = [] }
  | some access ↦ access
]

unfoldable pub cancel : Instance → Instance
cancel i = record i { cancelled = true }

unfoldable pub mark_degraded : Instance → Instance
mark_degraded i = record i { degraded = true }

-- A change of the record, where there is one.
abbrev on_record : (ServiceRecord → ServiceRecord) → Instance → Instance
on_record f i = elim i.service_record [
  | none ↦ i
  | some r ↦ record i { service_record = some (f r) }
]

unfoldable pub add_transport : Transport → Instance → Instance
add_transport declaration =
    on_record (λ r. record r { transports = r.transports ++ (declaration ∷ []) })

unfoldable pub add_route : Route → Instance → Instance
add_route declaration = on_record (λ r. record r { routes = r.routes ++ (declaration ∷ []) })

-- The loops cut the first declaration with the id out of the list.
unfoldable pub cut_transport : GoString → List Transport → List Transport
cut_transport id [] = []
cut_transport id (t ∷ ts) = if t.id == id then ts else t ∷ cut_transport id ts

unfoldable pub cut_route : GoString → List Route → List Route
cut_route id [] = []
cut_route id (t ∷ ts) = if t.id == id then ts else t ∷ cut_route id ts

unfoldable pub remove_transport : GoString → Instance → Instance
unfolding cut_transport
remove_transport id = on_record (λ r. record r { transports = cut_transport id r.transports })

unfoldable pub remove_route : GoString → Instance → Instance
unfolding cut_route
remove_route id = on_record (λ r. record r { routes = cut_route id r.routes })

unfoldable pub update_identity : GoString → GoString → Instance → Instance
update_identity name version = on_record (λ r. record r { name = name; version = version })

unfoldable pub instance_id : Instance → GoString
instance_id i = elim i.service_record [ none ↦ [] | some r ↦ r.instance_id ]

unfoldable pub revoke : Instance → Instance
revoke i = if i.stop_host_broker then record i { broker_stopped = true } else i

-- The first error is kept.
abbrev first_error : Option CloseError → Option CloseError → Option CloseError
first_error none e = e
first_error (some x) e = some x

abbrev remove_dirs :
    (GoString → Option CloseError) → List GoString → Option CloseError → Option CloseError
remove_dirs remove_all [] e = e
remove_dirs remove_all ([] ∷ dirs) e = remove_dirs remove_all dirs e
remove_dirs remove_all ((b ∷ dir) ∷ dirs) e =
    remove_dirs remove_all dirs (first_error e (remove_all (b ∷ dir)))

-- The body of `closeOnce.Do`; `remove_all` is `os.RemoveAll`.
abbrev pub close_body : (GoString → Option CloseError) → Instance → Instance
close_body remove_all i = elim i.close_backend [
  | none ↦ record i { close_done = true; close_err = remove_dirs remove_all i.cleanup_dirs none }
  | some e ↦ record i {
    close_done = true;
    close_err = remove_dirs remove_all i.cleanup_dirs e;
    backend_closes = i.backend_closes + 1;
  }
]

unfoldable pub close : (GoString → Option CloseError) → Instance → Instance × Option CloseError
close remove_all i =
    if i.close_done
    then (i, i.close_err)
    else (close_body remove_all i, (close_body remove_all i).close_err)
