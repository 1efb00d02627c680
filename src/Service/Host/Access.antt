-- ===== src/Service/Host/Access.antt =====
-- Sequences of calls on the store, by services and by the kernel.
use arupa.Base.{◌≡◌, inl, inr, refl, sym, ap, ◌∙◌, Bool, false, List, [], ◌∷◌, Option}
use arupa.Base.{
  none, some, GoString, string_eq, ◌==◌, if◌then◌else◌, ◌&&◌, Bool-cases, ==-cases, Option-cases,
  arith,
}
use arupa.Base.Dict.{lookup, insert, erase, lookup-insert, lookup-erase, lookup-nil}
use arupa.Base.Result.{Result, ok, err}
use arupa.Service.Host.{
  Store, StoreError, new_store, sys_namespace, is_read_only, values_of, get, write, remove, set,
  delete, system_set, system_delete,
}

-- A call that changes the store: of a service, or of the kernel.
pub data Call : Type 0 where
  call_set call_system_set : (namespace key value : GoString) → Call
  call_delete call_system_delete : (namespace key : GoString) → Call

-- The store after a call; one that is refused leaves it.
abbrev pub after : Store → Result StoreError Store → Store
after s (ok s') = s'
after s (err _) = s

unfoldable pub perform : Call → Store → Store
unfolding set delete system_set system_delete
perform (Call.call_set namespace key value) s = after s (set namespace key value s)
perform (Call.call_delete namespace key) s = after s (delete namespace key s)
perform (Call.call_system_set namespace key value) s = system_set namespace key value s
perform (Call.call_system_delete namespace key) s = system_delete namespace key s

unfoldable pub perform_all : List Call → Store → Store
unfolding perform
perform_all [] s = s
perform_all (c ∷ calls) s = perform_all calls (perform c s)

-- What a store promises: a value for each key of each namespace, and who may write.
abbrev pub View : Type 0
View = GoString → GoString → Option GoString

abbrev same_key : GoString → GoString → GoString → GoString → Bool
same_key namespace key ns k = namespace == ns && key == k

abbrev put : GoString → GoString → Option GoString → View → View
put namespace key value view = λ ns k. if same_key namespace key ns k then value else view ns k

unfoldable pub view_perform : (GoString → Bool) → Call → View → View
view_perform ro (Call.call_set namespace key value) view =
    if ro namespace then view else put namespace key (some value) view
view_perform ro (Call.call_delete namespace key) view =
    if ro namespace then view else put namespace key none view
view_perform ro (Call.call_system_set namespace key value) view =
    put namespace key (some value) view
view_perform ro (Call.call_system_delete namespace key) view = put namespace key none view

unfoldable pub view_perform_all : (GoString → Bool) → List Call → View → View
unfolding view_perform
view_perform_all ro [] view = view
view_perform_all ro (c ∷ calls) view = view_perform_all ro calls (view_perform ro c view)

pub get-values_of : (ns k : GoString) (s : Store) → get ns k s ≡ lookup k (values_of ns s)
unfolding get values_of
get-values_of ns k s = elim (Option-cases (lookup ns s.namespaces)) [
  | inl q ↦ rw (get, values_of, q) (sym (lookup-nil k))
  | inr (d, q) ↦ rw (get, values_of, q) (by (lookup k d))
]
  where
    by :
        (x : Option GoString)
        → elim x as (λ _. Option GoString) [ none ↦ none | some value ↦ some value ] ≡ x
    by none = refl
    by (some v) = refl

values_of-write :
    (namespace key value ns : GoString) (s : Store)
    → values_of ns (write namespace key value s)
      ≡ (if namespace == ns then insert key value (values_of namespace s) else values_of ns s)
unfolding write values_of
values_of-write namespace key value ns s =
    ground
      (arith, lookup-insert ns namespace (insert key value (values_of namespace s)) s.namespaces)

values_of-remove :
    (namespace key ns : GoString) (s : Store)
    → values_of ns (remove namespace key s)
      ≡ (if namespace == ns then erase key (values_of namespace s) else values_of ns s)
unfolding remove values_of erase
values_of-remove namespace key ns s = elim (Option-cases (lookup namespace s.namespaces)) [
  | inl q ↦ elim (==-cases namespace ns) [
    | inl (b, e) ↦ rw (remove, q, b) (ap (λ n. values_of n s) (sym e) ∙ rw (values_of, q) refl)
    | inr (f, _) ↦ rw (remove, q, f) refl
  ]
  | inr (d, q) ↦ elim (Bool-cases (namespace == ns)) [
    | inl b ↦
        rw (remove, values_of, q, lookup-insert ns namespace (erase key d) s.namespaces, b) refl
    | inr f ↦
        rw (remove, values_of, q, lookup-insert ns namespace (erase key d) s.namespaces, f) refl
  ]
]

get-write :
    (namespace key value ns k : GoString) (s : Store)
    → get ns k (write namespace key value s)
      ≡ (if namespace == ns && key == k then some value else get ns k s)
get-write namespace key value ns k s =
    rw
      (
        get-values_of ns k (write namespace key value s),
        get-values_of ns k s,
        values_of-write namespace key value ns s,
      )
      (elim (==-cases namespace ns) [
        | inl (b, e) ↦
            rw (b, lookup-insert k key value (values_of namespace s), ap (λ n. values_of n s) e)
              refl
        | inr (f, _) ↦ rw f refl
      ])

get-remove :
    (namespace key ns k : GoString) (s : Store)
    → get ns k (remove namespace key s) ≡ (if namespace == ns && key == k then none else get ns k s)
get-remove namespace key ns k s =
    rw
      (
        get-values_of ns k (remove namespace key s),
        get-values_of ns k s,
        values_of-remove namespace key ns s,
      )
      (elim (==-cases namespace ns) [
        | inl (b, e) ↦
            rw (b, lookup-erase k key (values_of namespace s), ap (λ n. values_of n s) e) refl
        | inr (f, _) ↦ rw f refl
      ])

remove-read_only :
    (namespace key : GoString) (s : Store) → (remove namespace key s).read_only ≡ s.read_only
unfolding remove
remove-read_only namespace key s = elim (Option-cases (lookup namespace s.namespaces)) [
  | inl q ↦ rw (remove, q) refl
  | inr (d, q) ↦ rw (remove, q) refl
]

-- No call changes which namespaces are read-only.
perform-read_only : (c : Call) (s : Store) → (perform c s).read_only ≡ s.read_only
unfolding perform set delete system_set system_delete write
perform-read_only (Call.call_set namespace key value) s =
    elim (Bool-cases (is_read_only namespace s)) [
      | inl t ↦ rw (set, t) refl
      | inr f ↦ rw (set, f) refl
    ]
perform-read_only (Call.call_delete namespace key) s =
    elim (Bool-cases (is_read_only namespace s)) [
      | inl t ↦ rw (delete, t) refl
      | inr f ↦ rw (delete, f) (remove-read_only namespace key s)
    ]
perform-read_only (Call.call_system_set namespace key value) s = refl
perform-read_only (Call.call_system_delete namespace key) s = remove-read_only namespace key s

module _ (ns k : GoString) (s : Store) (view : View)
    (same : (ns k : GoString) → get ns k s ≡ view ns k) where
  write-put :
      (namespace key value : GoString)
      → get ns k (write namespace key value s) ≡ put namespace key (some value) view ns k
  write-put namespace key value = rw (get-write namespace key value ns k s, same ns k) refl

  remove-put :
      (namespace key : GoString)
      → get ns k (remove namespace key s) ≡ put namespace key none view ns k
  remove-put namespace key = rw (get-remove namespace key ns k s, same ns k) refl

  -- A call changes the view of the store as it is to.
  get-perform :
      (c : Call) → get ns k (perform c s) ≡ view_perform (λ n. is_read_only n s) c view ns k
  unfolding perform set delete system_set system_delete view_perform
  get-perform (Call.call_set namespace key value) = elim (Bool-cases (is_read_only namespace s)) [
    | inl t ↦ rw (set, t) (same ns k)
    | inr f ↦ rw (set, f) (write-put namespace key value)
  ]
  get-perform (Call.call_delete namespace key) = elim (Bool-cases (is_read_only namespace s)) [
    | inl t ↦ rw (delete, t) (same ns k)
    | inr f ↦ rw (delete, f) (remove-put namespace key)
  ]
  get-perform (Call.call_system_set namespace key value) = write-put namespace key value
  get-perform (Call.call_system_delete namespace key) = remove-put namespace key

perform_all-View :
    (calls : List Call) (s : Store) (ro : GoString → Bool) (view : View)
    → ((n : GoString) → is_read_only n s ≡ ro n)
    → ((ns k : GoString) → get ns k s ≡ view ns k)
    → (ns k : GoString) → get ns k (perform_all calls s) ≡ view_perform_all ro calls view ns k
unfolding perform_all view_perform_all is_read_only
perform_all-View [] s ro view same_ro same ns k = same ns k
perform_all-View (c ∷ calls) s ro view same_ro same ns k =
    perform_all-View calls (perform c s) ro (view_perform ro c view)
      (λ n. ap (λ r. opened (lookup n r)) (perform-read_only c s) ∙ same_ro n)
      (λ ns k.
        get-perform ns k s view same c
        ∙ ap (λ (r : GoString → Bool). view_perform r c view ns k) (λ i n. same_ro n i))
      ns k
  where
    opened : Option Bool → Bool
    opened x = elim x as (λ _. Bool) [ none ↦ false | some b ↦ b ]

-- `sys` is the namespace that services do not write.
abbrev pub is_sys : GoString → Bool
is_sys n = sys_namespace == n

-- A new store, after any calls of services and the kernel, gives at every key what a plain
-- function from namespaces and keys to values gives after them, where a write by a service to
-- the namespace "sys" has no effect and every other write replaces or removes the value there.
pub perform_all-refines :
    (calls : List Call) (ns k : GoString)
    → get ns k (perform_all calls new_store) ≡ view_perform_all is_sys calls (λ _ _. none) ns k
unfolding new_store is_read_only lookup get
perform_all-refines calls ns k =
    perform_all-View calls new_store is_sys (λ _ _. none)
      (λ n. elim (Bool-cases (sys_namespace == n)) [
        | inl t ↦ rw (is_read_only, lookup, t) refl
        | inr f ↦ rw (is_read_only, lookup, f) refl
      ])
      (λ ns k. refl) ns k

-- The calls of the kernel among the calls.
unfoldable pub of_kernel : List Call → List Call
of_kernel [] = []
of_kernel (Call.call_set _ _ _ ∷ calls) = of_kernel calls
of_kernel (Call.call_delete _ _ ∷ calls) = of_kernel calls
of_kernel (Call.call_system_set n key value ∷ calls) =
    Call.call_system_set n key value ∷ of_kernel calls
of_kernel (Call.call_system_delete n key ∷ calls) = Call.call_system_delete n key ∷ of_kernel calls

module _ (ns : GoString) (e : ns ≡ sys_namespace) (view other : View)
    (same : (k : GoString) → view ns k ≡ other ns k) where
  -- What a service does is not seen under "sys".
  by_service :
      (n key : GoString) (value : Option GoString) (k : GoString)
      → (if is_sys n then view else put n key value view) ns k ≡ other ns k
  by_service n key value k = elim (==-cases sys_namespace n) [
    | inl (b, _) ↦ rw b (same k)
    | inr (f, d) ↦ elim (==-cases n ns) [
      | inl (_, q) ↦ absurd (d (sym (q ∙ e)))
      | inr (g, _) ↦ rw (f, g) (same k)
    ]
  ]

  by_kernel :
      (n key : GoString) (value : Option GoString) (k : GoString)
      → put n key value view ns k ≡ put n key value other ns k
  by_kernel n key value k = rw (same k) refl

view_perform_all-of_kernel :
    (ns : GoString) (calls : List Call) (view other : View)
    → ns ≡ sys_namespace
    → ((k : GoString) → view ns k ≡ other ns k)
    → (k : GoString)
    → view_perform_all is_sys calls view ns k ≡ view_perform_all is_sys (of_kernel calls) other ns k
unfolding view_perform_all view_perform of_kernel
view_perform_all-of_kernel ns [] view other e same k = same k
view_perform_all-of_kernel ns (Call.call_set n key value ∷ calls) view other e same k =
    view_perform_all-of_kernel ns calls _ other e
      (λ k. by_service ns e view other same n key (some value) k) k
view_perform_all-of_kernel ns (Call.call_delete n key ∷ calls) view other e same k =
    view_perform_all-of_kernel ns calls _ other e
      (λ k. by_service ns e view other same n key none k) k
view_perform_all-of_kernel ns (Call.call_system_set n key value ∷ calls) view other e same k =
    view_perform_all-of_kernel ns calls _ _ e
      (λ k. by_kernel ns e view other same n key (some value) k) k
view_perform_all-of_kernel ns (Call.call_system_delete n key ∷ calls) view other e same k =
    view_perform_all-of_kernel ns calls _ _ e (λ k. by_kernel ns e view other same n key none k) k

-- What a new store holds under "sys" after any calls is what it holds after those of the kernel
-- alone: services have no effect on it, however their calls and the kernel's are interleaved.
pub perform_all-of_kernel :
    (calls : List Call) (k : GoString)
    → get sys_namespace k (perform_all calls new_store)
      ≡ get sys_namespace k (perform_all (of_kernel calls) new_store)
perform_all-of_kernel calls k =
    perform_all-refines calls sys_namespace k
    ∙ view_perform_all-of_kernel sys_namespace calls (λ _ _. none) (λ _ _. none) refl (λ k. refl) k
    ∙ sym (perform_all-refines (of_kernel calls) sys_namespace k)
