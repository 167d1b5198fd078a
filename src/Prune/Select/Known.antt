-- ===== src/Prune/Select/Known.antt =====
-- The packs that `packInfoFromIndex` returns: each pack of the index, once.
use vlbe.Base.{
  ℕ, ◌≡◌, ◌≢◌, refl, sym, subst, inl, inr, Bool, true, false, List, [], ◌∷◌, none, Bool-cases,
  arith, lookup, lookup-insert, Unique, insert-Unique, In, Map, ℕ_key,
}
use vlbe.Restic.Blob.{ContentId, PackedBlob, handle_key}
use vlbe.Pack.Size.{size, size_step}
use vlbe.Prune.Types.{PruneStats, Counts, IndexPack, or_zero, ok}
use vlbe.Prune.Select.{
  Selection, Picking, classified, classify_step, classify, or_none, pick_step, pick_copy, pick,
  takes_copy, header_infos, select_copies, pack_info_from_index, conclude, count_blobs, use_copy,
}
use vlbe.Prune.Select.Held.{pick_step-cases}

size-Unique :
    (b : Bool) (bs : List PackedBlob) (sizes : Map ContentId ℕ)
    → Unique sizes
    → Unique (size b bs sizes)
unfolding size size_step
size-Unique hdr [] sizes u = u
size-Unique hdr (b ∷ bs) sizes u =
    size-Unique hdr bs (size_step hdr b sizes) (insert-Unique b.pack_id _ sizes u)

lookup-header_infos :
    (j : ContentId) (sizes : Map ContentId ℕ)
    → lookup j sizes ≡ none
    → lookup j (header_infos sizes) ≡ none
unfolding header_infos lookup
lookup-header_infos j [] e = refl
lookup-header_infos j ((k, n) ∷ sizes) e = ground (arith, lookup-header_infos j sizes)

header_infos-Unique : (sizes : Map ContentId ℕ) → Unique sizes → Unique (header_infos sizes)
unfolding header_infos
header_infos-Unique [] u = tt
header_infos-Unique ((k, n) ∷ sizes) (fresh, u) =
    (lookup-header_infos k sizes fresh, header_infos-Unique sizes u)

classify-Unique :
    (counts : Counts) (bs : List PackedBlob) (st : Selection)
    → Unique st.index_pack
    → Unique (classify counts bs st).index_pack
unfolding classify classify_step
classify-Unique counts [] st u = u
classify-Unique counts (b ∷ bs) st u =
    classify-Unique counts bs (classify_step counts b st)
      (insert-Unique b.pack_id _ st.index_pack u)

pick_copy-Unique :
    (n : ℕ) (b : PackedBlob) (st : Picking)
    → Unique st.index_pack
    → Unique (pick_copy n b st).index_pack
unfolding pick_copy
pick_copy-Unique n b st u =
    let ip = or_zero (lookup b.pack_id st.index_pack) in
    elim (Bool-cases (takes_copy n ip)) [
      | inl taken ↦ rw taken (insert-Unique b.pack_id (use_copy b.length ip) st.index_pack u)
      | inr passed ↦ rw passed (insert-Unique b.pack_id ip st.index_pack u)
    ]

pick-Unique :
    (bs : List PackedBlob) (st : Picking) → Unique st.index_pack → Unique (pick bs st).index_pack
unfolding pick
pick-Unique [] st u = u
pick-Unique (b ∷ bs) st u = pick-Unique bs (pick_step b st) (elim (pick_step-cases b st) [
  | inl (same, _) ↦ subst (λ (x : Picking). Unique x.index_pack) (sym same) u
  | inr (n, _, _, picked) ↦
      subst (λ (x : Picking). Unique x.index_pack) (sym picked) (pick_copy-Unique n b st u)
])

-- a pack of the index is known, and stays so
classify_keeps :
    (counts : Counts) (bs : List PackedBlob) (st : Selection) (j : ContentId)
    → lookup j st.index_pack ≢ none
    → lookup j (classify counts bs st).index_pack ≢ none
unfolding classify classify_step
classify_keeps counts [] st j known = known
classify_keeps counts (b ∷ bs) st j known = classify_keeps counts bs (classify_step counts b st) j (
    ground (
      arith,
      lookup-insert b.pack_id j
          (classified (or_none (lookup b.handle counts)) b
            (or_zero (lookup b.pack_id st.index_pack)))
          st.index_pack,
    ))

classify_knows :
    (counts : Counts) (bs : List PackedBlob) (st : Selection) (c : PackedBlob)
    → In c bs
    → lookup c.pack_id (classify counts bs st).index_pack ≢ none
unfolding classify classify_step
classify_knows counts [] st c i = absurd i
classify_knows counts (b ∷ bs) st c (inl here) =
    classify_keeps counts bs (classify_step counts b st) c.pack_id (
      ground (
        arith,
        lookup-insert b.pack_id c.pack_id
            (classified (or_none (lookup b.handle counts)) b
              (or_zero (lookup b.pack_id st.index_pack)))
            st.index_pack,
      ))
classify_knows counts (b ∷ bs) st c (inr later) =
    classify_knows counts bs (classify_step counts b st) c later

pick_copy_keeps :
    (n : ℕ) (b : PackedBlob) (st : Picking) (j : ContentId)
    → lookup j st.index_pack ≢ none
    → lookup j (pick_copy n b st).index_pack ≢ none
unfolding pick_copy
pick_copy_keeps n b st j known =
    let ip = or_zero (lookup b.pack_id st.index_pack) in
    ground (
      arith,
      lookup-insert b.pack_id j (use_copy b.length ip) st.index_pack,
      lookup-insert b.pack_id j ip st.index_pack,
    )

pick_keeps :
    (bs : List PackedBlob) (st : Picking) (j : ContentId)
    → lookup j st.index_pack ≢ none
    → lookup j (pick bs st).index_pack ≢ none
unfolding pick
pick_keeps [] st j known = known
pick_keeps (b ∷ bs) st j known = pick_keeps bs (pick_step b st) j (elim (pick_step-cases b st) [
  | inl (same, _) ↦ subst (λ (x : Picking). lookup j x.index_pack ≢ none) (sym same) known
  | inr (n, _, _, picked) ↦
      subst (λ (x : Picking). lookup j x.index_pack ≢ none) (sym picked)
        (pick_copy_keeps n b st j known)
])

-- what every selection satisfies
abbrev Known : List PackedBlob → IndexPack → Type 0
Known index packs = Unique packs × ((c : PackedBlob) → In c index → lookup c.pack_id packs ≢ none)

select_copies-Known :
    (index : List PackedBlob) (counts : Counts) (stats : PruneStats)
    → Known index (select_copies index counts stats).index_pack
unfolding select_copies
select_copies-Known index counts stats =
    let first : Selection = record {
      index_pack = header_infos (size true index []);
      stats = stats;
      has_duplicates = false;
    } in
    let st = classify counts index first in
    let sorted : Picking = record {
      counts = counts;
      index_pack = st.index_pack;
      stats = st.stats;
    } in
    let u =
      classify-Unique counts index first (header_infos-Unique _ (size-Unique true index [] tt)) in
    let knows = classify_knows counts index first in
    elim (Bool-cases st.has_duplicates) [
      | inl dup ↦
          rw dup (pick-Unique index sorted u, λ c i. pick_keeps index sorted c.pack_id (knows c i))
      | inr none_dup ↦ rw none_dup (u, knows)
    ]

-- Where `packInfoFromIndex` returns, it knows each pack of the index, and each once.
pub packs_known :
    (index : List PackedBlob) (used : Counts) (stats : PruneStats) (st : Picking)
    → pack_info_from_index index used stats ≡ ok st
    → Unique st.index_pack × ((c : PackedBlob) → In c index → lookup c.pack_id st.index_pack ≢ none)
unfolding pack_info_from_index conclude
packs_known index used stats st e =
    let counts = count_blobs index used in
    let same : select_copies index counts stats ≡ st = ground arith in
    subst (λ (x : Picking). Known index x.index_pack) same (select_copies-Known index counts stats)
