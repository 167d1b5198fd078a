-- ===== src/Tags.antt =====
-- internal/restic/snapshot.go: the tags of a snapshot, and what a snapshot is selected by.
pub mod Counts
use Prim.Native.String.{String}
use text.Mathlib.Text.{◌==◌ as str_eq}
use vlbe.Base.{
  Bool, true, false, ◌&&◌, ◌||◌, List, [], ◌∷◌, ◌++◌, Option, none, some, if◌then◌else◌,
}
use vlbe.Policy.{has_tag, has_tags}

-- one round of `AddTags`
unfoldable pub add_tag : String → List String × Bool → List String × Bool
add_tag tag (tags, changed) = if has_tag tag tags then (tags, changed) else (tags ++ tag ∷ [], true)

unfoldable pub add_each : List String → List String × Bool → List String × Bool
add_each [] st = st
add_each (tag ∷ more) st = add_each more (add_tag tag st)

-- `AddTags`: the snapshot's tags afterwards, and whether they changed
unfoldable pub add_tags : List String → List String → List String × Bool
add_tags tags more = add_each more (tags, false)

-- `tags[len-1]` and `tags[:len-1]` of a list that is not empty
unfoldable pub last_tag : String → List String → String
last_tag t [] = t
last_tag t (u ∷ us) = last_tag u us

unfoldable pub but_last : String → List String → List String
but_last t [] = []
but_last t (u ∷ us) = t ∷ but_last u us

-- The last tag takes the place before `rest`, unless that place is the last.
unfoldable pub fill_gap : List String → List String
fill_gap [] = []
fill_gap (t ∷ ts) = last_tag t ts ∷ but_last t ts

-- the tags without the first that is `tag`, if there is one
unfoldable pub without : String → List String → Option (List String)
without tag [] = none
without tag (t ∷ ts) =
    let rest = without tag ts in
    if str_eq t tag then some (fill_gap ts) else elim rest [ none ↦ none | some us ↦ some (t ∷ us) ]

-- one round of `RemoveTags`
unfoldable pub remove_tag : String → List String × Bool → List String × Bool
remove_tag tag (tags, changed) = elim (without tag tags) [
  | none ↦ (tags, changed)
  | some rest ↦ (rest, true)
]

unfoldable pub remove_each : List String → List String × Bool → List String × Bool
remove_each [] st = st
remove_each (tag ∷ more) st = remove_each more (remove_tag tag st)

-- `RemoveTags`
unfoldable pub remove_tags : List String → List String → List String × Bool
remove_tags tags gone = remove_each gone (tags, false)

unfoldable pub any_tag_list : List String → List (List String) → Bool
any_tag_list tags [] = false
any_tag_list tags (l ∷ ls) = has_tags tags l || any_tag_list tags ls

-- `HasTagList`
unfoldable pub has_tag_list : List String → List (List String) → Bool
has_tag_list tags [] = true
has_tag_list tags (l ∷ ls) = any_tag_list tags (l ∷ ls)

-- `HasPaths`; the set of the snapshot's paths is their list
unfoldable pub has_paths : List String → List String → Bool
has_paths sn_paths [] = true
has_paths sn_paths (path ∷ paths) = has_tag path sn_paths && has_paths sn_paths paths

-- `HasHostname`
unfoldable pub has_hostname : String → List String → Bool
has_hostname hostname [] = true
has_hostname hostname (h ∷ hs) = has_tag hostname (h ∷ hs)
