-- ===== src/Base/FilePath.antt =====
-- Go's `path.Join` and `path.Clean`, which `filepath` has too on unix. `clean` goes by the elements
-- between the slashes: it drops the empty ones and `.`, and lets `..` take back the element before.
pub mod Clean
pub mod Kept
pub mod Laws
use mathlib.Core.List.{reverse, foldl}
use garden_docker.Base.Text.{Str, txt, ◌==◌, ◌=?◌, if◌then◌else◌}
use mathlib.Core.Bool.{Bool, true, false, ◌||◌}
use mathlib.Core.List.{List, [], ◌∷◌, ◌++◌}

abbrev pub slash : Str
slash = b'/' ∷ []

-- Puts a byte in front of the first element.
abbrev pub onto_first : Str → List Str → List Str
onto_first s [] = s ∷ []
onto_first s (e ∷ es) = (s ++ e) ∷ es

-- The elements between the slashes. There is always one.
unfoldable pub split : Str → List Str
split [] = [] ∷ []
split (c ∷ s) = elim (c =? b'/') [ true ↦ [] ∷ split s | false ↦ onto_first (c ∷ []) (split s) ]

unfoldable pub rooted : Str → Bool
rooted [] = false
rooted (c ∷ s) = c =? b'/'

-- The elements kept so far, the last first. A path that is not rooted keeps a leading `..`.
abbrev pub back : Bool → List Str → List Str
back true [] = []
back false [] = txt ".." ∷ []
back r (e ∷ es) = if e == txt ".." then txt ".." ∷ e ∷ es else es

unfoldable pub push : Bool → List Str → Str → List Str
push r kept e =
    if e == [] || e == txt "." then kept else if e == txt ".." then back r kept else e ∷ kept

unfoldable pub push_all : Bool → List Str → List Str → List Str
unfolding push
push_all r kept [] = kept
push_all r kept (e ∷ es) = push_all r (push r kept e) es

-- The elements in order, with a slash between two.
unfoldable pub join_with_slash : List Str → Str
join_with_slash [] = []
join_with_slash (e ∷ []) = e
join_with_slash (e ∷ f ∷ es) = e ++ (b'/' ∷ join_with_slash (f ∷ es))

-- `path.Clean(s)`
abbrev pub render : Bool → List Str → Str
render true es = b'/' ∷ join_with_slash es
render false [] = txt "."
render false (e ∷ es) = join_with_slash (e ∷ es)

unfoldable pub clean : Str → Str
unfolding rooted split push_all join_with_slash
clean s = render (rooted s) (reverse (push_all (rooted s) [] (split s)))

-- `path.Join(elem...)`: the empty elements in front do not count.
unfoldable pub join : List Str → Str
unfolding clean
join [] = []
join ([] ∷ es) = join es
join ((c ∷ s) ∷ es) = clean (join_with_slash ((c ∷ s) ∷ es))
