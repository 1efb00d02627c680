-- ===== src/Conf/Store/Equal.antt =====
-- `reflect.DeepEqual` on configurations: nil differs from empty, and the order of a map's entries
-- does not count.
use arupa.Base.{
  Bool, true, false, ◌&&◌, List, [], ◌∷◌, Option, none, some, GoString, string_eq, bool_eq,
}
use arupa.Base.{◌==◌, nat_eqb, all, length}
use arupa.Base.Dict.{lookup}
use arupa.Conf.Types.{Config, ApiConfig, Service, Slice, GoMap}

same_list : List GoString → List GoString → Bool
same_list [] [] = true
same_list (x ∷ xs) (y ∷ ys) = x == y && same_list xs ys
same_list _ _ = false

same_slice : Slice → Slice → Bool
unfolding same_list
same_slice none none = true
same_slice (some xs) (some ys) = same_list xs ys
same_slice _ _ = false

abbrev holds : {V : Type 0} → (V → Bool) → Option V → Bool
holds p none = false
holds p (some v) = p v

same_map : {V : Type 0} → (V → V → Bool) → GoMap V → GoMap V → Bool
same_map same none none = true
same_map same (some d) (some d') =
    nat_eqb (length d) (length d') && all (λ (k, v). holds (same v) (lookup k d')) d
same_map same _ _ = false

abbrev same_string : GoString → GoString → Bool
same_string s t = s == t

same_service : Service → Service → Bool
unfolding same_slice same_map
same_service a b =
    same_string a.restart b.restart
    && same_string a.run_as_user b.run_as_user
    && same_string a.checksum b.checksum
    && same_slice a.allow b.allow
    && same_map same_string a.params b.params

abbrev same_api : ApiConfig → ApiConfig → Bool
same_api a b =
    a.user == b.user
    && a.group == b.group
    && a.pages == b.pages
    && a.access == b.access
    && a.service == b.service
    && a.log == b.log
    && a.network == b.network

unfoldable pub deep_equal : Config → Config → Bool
unfolding same_slice same_map same_service
deep_equal a b =
    same_string a.listen b.listen
    && a.tls == b.tls
    && same_string a.log.format b.log.format
    && same_string a.log.level b.log.level
    && same_api a.api b.api
    && same_map same_string a.users b.users
    && same_map same_slice a.groups b.groups
    && same_map same_slice a.route_allow b.route_allow
    && same_string a.service_dir b.service_dir
    && same_string a.service_temp_dir b.service_temp_dir
    && same_map same_service a.services b.services
    && same_map same_string a.pages b.pages
