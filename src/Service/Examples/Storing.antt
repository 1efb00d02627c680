-- ===== src/Service/Examples/Storing.antt =====
-- Runs of internal/service/host/store.go, and its theorems at concrete calls.
use arupa.Base.{◌≡◌, ◌≢◌, ◌↔◌, refl, List, [], ◌∷◌, none, some, GoString, string_eq, In}
use arupa.Base.Dict.{lookup, insert}
use arupa.Strings.{bytes}
use arupa.Service.Host.{
  new_store, sys_namespace, get, set, delete, list, is_read_only, values_of, write,
}
use arupa.Service.Host.Access.{
  Call, perform, perform_all, view_perform_all, is_sys, of_kernel, perform_all-refines,
  perform_all-of_kernel,
}
use arupa.Strings.Sort.Laws.{IsSorted}
use arupa.Service.Host.Listing.{list_iff}

-- The kernel publishes, a service tries to write there and writes elsewhere.
abbrev calls : List Call
calls =
    Call.call_system_set (bytes "sys") (bytes "k") (bytes "v")
    ∷ Call.call_set (bytes "sys") (bytes "k") (bytes "w")
    ∷ Call.call_set (bytes "shop") (bytes "b") (bytes "2")
    ∷ Call.call_set (bytes "shop") (bytes "a") (bytes "1")
    ∷ Call.call_delete (bytes "sys") (bytes "k")
    ∷ []

perform_all_test : get (bytes "sys") (bytes "k") (perform_all calls new_store) ≡ some (bytes "v")
unfolding perform_all perform set delete is_read_only new_store get values_of write lookup insert
    string_eq
perform_all_test = refl

perform_all-refines_example :
    get (bytes "shop") (bytes "a") (perform_all calls new_store)
    ≡ view_perform_all is_sys calls (λ _ _. none) (bytes "shop") (bytes "a")
perform_all-refines_example = perform_all-refines calls (bytes "shop") (bytes "a")

perform_all-of_kernel_example :
    get sys_namespace (bytes "k") (perform_all calls new_store)
    ≡ get sys_namespace (bytes "k") (perform_all (of_kernel calls) new_store)
perform_all-of_kernel_example = perform_all-of_kernel calls (bytes "k")

shop-named : bytes "shop" ≢ []
shop-named q = cc

list_iff_example :
    (let s = perform_all calls new_store in
      IsSorted (list (bytes "shop") s)
      × ((k : GoString)
          → In k (list (bytes "shop") s) ↔ ((v : GoString) × (get (bytes "shop") k s ≡ some v))))
list_iff_example = list_iff (bytes "shop") (perform_all calls new_store) shop-named
