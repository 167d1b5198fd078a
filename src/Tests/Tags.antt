-- ===== src/Tests/Tags.antt =====
-- Tags added and removed.
use Prim.Native.String.{String}
use vlbe.Base.{◌≡◌, refl, true, false, List, [], ◌∷◌}
use vlbe.Policy.{has_tag}
use vlbe.Tags.{
  add_tag, add_each, add_tags, last_tag, but_last, fill_gap, without, remove_tag, remove_each,
  remove_tags,
}
use vlbe.Tags.Counts.{count, count-remove_tags, count-add_tags}

abbrev three_tags : List String
three_tags = "a" ∷ "b" ∷ "c" ∷ []

-- the last tag takes the removed one's place
removed_first : remove_tags three_tags ("a" ∷ []) ≡ ("c" ∷ "b" ∷ [], true)
unfolding remove_tags remove_each remove_tag without fill_gap last_tag but_last
removed_first = refl

nothing_added : add_tags three_tags ("b" ∷ []) ≡ (three_tags, false)
unfolding add_tags add_each add_tag has_tag
nothing_added = refl

count-remove_tags_example : count "a" (remove_tags three_tags ("a" ∷ "d" ∷ [])).0 ≡ 0
count-remove_tags_example = count-remove_tags "a" three_tags ("a" ∷ "d" ∷ [])

count-add_tags_example :
    (count "d" (add_tags three_tags ("d" ∷ "b" ∷ "d" ∷ [])).0 ≡ 1)
    × ((add_tags three_tags ("d" ∷ "b" ∷ "d" ∷ [])).1 ≡ true)
unfolding has_tag
count-add_tags_example = count-add_tags "d" three_tags ("d" ∷ "b" ∷ "d" ∷ [])
