-- ===== src/Paths/Clean.antt =====
-- Go's `filepath.Clean`, `Join`, `Abs` and `Base`, with the separator `/`. A path that is being
-- cleaned is the list of its elements, the last one first.
pub mod Proper
use cull_snap.Base.{
  List, [], ◌∷◌, ◌++◌, Bool, true, false, ◌||◌, ◌==◌, Option, none, some, if◌then◌else◌,
}
use cull_snap.Paths.{Name, same, split}

abbrev pub dot : Name
dot = b'.' ∷ []

abbrev pub dot_dot : Name
dot_dot = b'.' ∷ b'.' ∷ []

abbrev pub up : Bool → List Name → List Name
up rooted [] = if rooted then [] else dot_dot ∷ []
up rooted (q ∷ qs) = if same q dot_dot then dot_dot ∷ q ∷ qs else qs

-- One element of the path.
unfoldable pub clean_part : Bool → Name → List Name → List Name
unfolding same
clean_part rooted p st =
    if same p [] || same p dot then st else if same p dot_dot then up rooted st else p ∷ st

unfoldable pub clean_parts : Bool → List Name → List Name → List Name
clean_parts rooted [] st = st
clean_parts rooted (p ∷ ps) st = clean_parts rooted ps (clean_part rooted p st)

-- A separator before each element.
unfoldable pub under : List Name → Name
under [] = []
under (q ∷ qs) = under qs ++ b'/' ∷ q

abbrev pub rooted_path : List Name → Name
rooted_path [] = b'/' ∷ []
rooted_path (q ∷ qs) = under (q ∷ qs)

abbrev pub without_first : Name → Name
without_first [] = []
without_first (c ∷ cs) = cs

abbrev pub relative_path : List Name → Name
relative_path [] = dot
relative_path (q ∷ qs) = without_first (under (q ∷ qs))

abbrev pub is_abs : Name → Bool
is_abs [] = false
is_abs (c ∷ cs) = c == b'/'

unfoldable pub clean : Name → Name
unfolding clean_parts under
clean path =
    if is_abs path
    then rooted_path (clean_parts true (split b'/' path) [])
    else relative_path (clean_parts false (split b'/' path) [])

-- `filepath.Join` of two elements.
unfoldable pub join : Name → Name → Name
unfolding clean
join [] [] = []
join [] (c ∷ cs) = clean (c ∷ cs)
join (b ∷ bs) [] = clean (b ∷ bs)
join (b ∷ bs) (c ∷ cs) = clean ((b ∷ bs) ++ b'/' ∷ c ∷ cs)

-- `filepath.Abs`; the working directory, which is read for a relative path, may be unknown.
unfoldable pub abs : Option Name → Name → Option Name
unfolding clean join
abs cwd path =
    if is_abs path
    then some (clean path)
    else elim cwd [ none ↦ none | some dir ↦ some (join dir path) ]

-- The last element that is not empty.
unfoldable pub last_part : List Name → Option Name
last_part [] = none
last_part (p ∷ ps) = elim (last_part ps) [
  | none ↦ if same p [] then none else some p
  | some q ↦ some q
]

abbrev pub part_or : Name → Option Name → Name
part_or d none = d
part_or d (some p) = p

-- `filepath.Base`
unfoldable pub base : Name → Name
unfolding last_part
base [] = dot
base (c ∷ cs) = part_or (b'/' ∷ []) (last_part (split b'/' (c ∷ cs)))
