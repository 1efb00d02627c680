-- ===== src/Conf/Groups.antt =====
-- The reverse index of the groups in internal/conf/conf.go.
pub mod Members
pub mod Access
use arupa.Base.{Bool, List, [], ◌∷◌, ◌++◌, Option, none, some, GoString, string_eq, if◌then◌else◌}
use arupa.Base.{contains}
use arupa.Base.Dict.{Dict, lookup, insert}
use arupa.Strings.Sort.{sort_strings}
use arupa.Conf.Types.{Slice, elements, GoMap, entries}

-- `index[username]`, nil where the key is missing.
unfoldable pub at : GoString → Dict GoString (List GoString) → List GoString
at username index = elim (lookup username index) [ none ↦ [] | some groups ↦ groups ]

-- The inner loop over the users of a group, with the set of those that were met.
unfoldable pub index_users :
    GoString
    → List GoString
    → List GoString
    → Dict GoString (List GoString)
    → Dict GoString (List GoString)
unfolding at
index_users group seen [] index = index
index_users group seen (username ∷ users) index =
    index_users group (if contains seen username then seen else username ∷ seen) users (
      if contains seen username
      then index
      else insert username (at username index ++ (group ∷ [])) index)

-- The outer loop over the groups.
unfoldable pub index_all :
    Dict GoString Slice → Dict GoString (List GoString) → Dict GoString (List GoString)
unfolding index_users
index_all [] index = index
index_all ((group, users) ∷ groups) index =
    index_all groups (index_users group [] (elements users) index)

-- The last loop sorts every value in place.
unfoldable pub sort_values : Dict GoString (List GoString) → Dict GoString (List GoString)
sort_values [] = []
sort_values ((username, groups) ∷ index) = (username, sort_strings groups) ∷ sort_values index

-- `indexGroupsByUser`; a nil map and an empty one read alike.
unfoldable pub index_groups_by_user : GoMap Slice → Dict GoString (List GoString)
unfolding index_all sort_values
index_groups_by_user groups = elim (entries groups) [
  | [] ↦ []
  | entry ∷ rest ↦ sort_values (index_all (entry ∷ rest) [])
]
