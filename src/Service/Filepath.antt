-- ===== src/Service/Filepath.antt =====
-- The functions of Go's path/filepath that the program calls, on Unix.
use arupa.Base.{Bool, true, false, ◌&&◌, List, [], ◌∷◌, ◌++◌, reverse, Option}
use arupa.Base.{none, some, GoString, string_eq, bool_eq, ◌==◌, if◌then◌else◌, nat_eqb, is_empty}
use arupa.Strings.{bytes, has_prefix}

-- The elements between the slashes.
unfoldable pub split_slash : GoString → List GoString
split_slash [] = [] ∷ []
split_slash (c ∷ s) =
    let rest = split_slash s in
    if nat_eqb c b'/'
    then [] ∷ rest
    else elim rest [ [] ↦ (c ∷ []) ∷ [] | part ∷ parts ↦ (c ∷ part) ∷ parts ]

unfoldable pub join_slash : List GoString → GoString
join_slash [] = []
join_slash (p ∷ []) = p
join_slash (p ∷ q ∷ ps) = p ++ (b'/' ∷ join_slash (q ∷ ps))

abbrev pub dot : GoString
dot = bytes "."

abbrev pub dot_dot : GoString
dot_dot = bytes ".."

unfoldable pub is_abs : GoString → Bool
unfolding has_prefix
is_abs path = has_prefix path (bytes "/")

-- ".." goes up where something is left to go up from, is dropped at the root, and is kept else.
unfoldable pub step_up : Bool → List GoString → List GoString
step_up rooted [] = if rooted then [] else dot_dot ∷ []
step_up rooted (top ∷ stack) = if top == dot_dot then dot_dot ∷ top ∷ stack else stack

-- The elements of a clean path, read with the last one on top.
unfoldable pub resolve_parts : Bool → List GoString → List GoString → List GoString
unfolding step_up
resolve_parts rooted stack [] = reverse stack
resolve_parts rooted stack (part ∷ parts) =
    resolve_parts rooted
      (if is_empty part
        then stack
        else if part == dot
        then stack
        else if part == dot_dot
        then step_up rooted stack
        else part ∷ stack)
      parts

unfoldable pub clean_parts : GoString → List GoString
unfolding resolve_parts split_slash is_abs
clean_parts path = resolve_parts (is_abs path) [] (split_slash path)

-- A clean path as a text.
abbrev render : Bool → List GoString → GoString
render true parts = b'/' ∷ join_slash parts
render false [] = dot
render false (p ∷ ps) = join_slash (p ∷ ps)

unfoldable pub clean : GoString → GoString
unfolding clean_parts join_slash
clean path = render (is_abs path) (clean_parts path)

-- `filepath.Join` of two elements.
unfoldable pub join : GoString → GoString → GoString
unfolding clean
join a b =
    if is_empty a && is_empty b
    then []
    else if is_empty a
    then clean b
    else if is_empty b
    then clean a
    else clean (a ++ (b'/' ∷ b))

-- What is left of two lists of elements behind their common front.
unfoldable pub strip_common : List GoString → List GoString → List GoString × List GoString
strip_common [] ts = ([], ts)
strip_common (b ∷ bs) [] = (b ∷ bs, [])
strip_common (b ∷ bs) (t ∷ ts) = if b == t then strip_common bs ts else (b ∷ bs, t ∷ ts)

abbrev pub ups : List GoString → List GoString → List GoString
ups [] ts = ts
ups (b ∷ bs) ts = dot_dot ∷ ups bs ts

abbrev pub climb : List GoString × List GoString → Option GoString
climb ([], ts) = some (join_slash ts)
climb (b ∷ bs, ts) = if b == dot_dot then none else some (join_slash (ups (b ∷ bs) ts))

-- `none` where the path cannot be made relative.
unfoldable pub rel : GoString → GoString → Option GoString
unfolding clean strip_common
rel base target =
    if clean base == clean target
    then some dot
    else if is_abs base == is_abs target
    then climb (strip_common (clean_parts base) (clean_parts target))
    else none
