-- ===== src/Prune/Decide/Sets.antt =====
-- The loop over the pack files in `decidePackAction`: which packs enter which set.
use vlbe.Base.{
  ℕ, ◌≡◌, refl, inl, inr, Bool, true, false, ◌&&◌, ◌||◌, List, [], ◌∷◌, Option, none, some, arith,
  if◌then◌else◌, ◌==◌, lookup, lookup-delete, has, has-add, add, delete, delete-Unique, ℕ_key,
  Unique, subst, ◌∙◌, ==_iff, Option-cases,
}
use vlbe.Restic.Blob.{ContentId}
use vlbe.Prune.Types.{PruneOptions, PackInfo, IndexPack, Repo, ok, >>=-eq-ok}
use vlbe.Prune.Decide.{
  Deciding, Missing, decide_pack, known_pack, unknown_pack, decide_step, decide_all, sort_missing,
  note_pack, note_removed,
}

-- the pack files that the backend lists
unfoldable pub listed : ContentId → List (ContentId × ℕ) → Bool
listed j [] = false
listed j ((id, pack_size) ∷ files) = (id == j) || listed j files

-- no file is listed twice
abbrev pub Distinct : List (ContentId × ℕ) → Type 0
Distinct [] = Unit
Distinct ((id, pack_size) ∷ files) = (listed id files ≡ false) × Distinct files

-- what the index says of a pack: all its blobs can go, or it does not know the pack
abbrev pub is_unused : Option PackInfo → Bool
is_unused none = false
is_unused (some p) = p.used_blobs == 0

abbrev pub is_unknown : Option PackInfo → Bool
is_unknown none = true
is_unknown (some p) = false

module _ (opts : PruneOptions) (repo : Repo) where
  remove_packs-decide_pack :
      (id : ContentId) (n : ℕ) (p : PackInfo) (st : Deciding) (j : ContentId)
      → has j (decide_pack opts repo id n p st).remove_packs
        ≡ (((id == j) && (p.used_blobs == 0)) || has j st.remove_packs)
  unfolding decide_pack
  remove_packs-decide_pack id n p st j = ground (arith, has-add id j st.remove_packs)

  frame-decide_pack :
      (id : ContentId) (n : ℕ) (p : PackInfo) (st : Deciding)
      → ((decide_pack opts repo id n p st).remove_packs_first ≡ st.remove_packs_first)
        × ((decide_pack opts repo id n p st).repack_packs ≡ st.repack_packs)
        × ((decide_pack opts repo id n p st).index_pack ≡ st.index_pack)
  unfolding decide_pack
  frame-decide_pack id n p st = (ground arith, ground arith, ground arith)

  -- what one pack file changes
  pub record StepSets (id : ContentId) (st st' : Deciding) (j : ContentId) : Type 0 where
    pub removed :
        has j st'.remove_packs
        ≡ (((id == j) && is_unused (lookup id st.index_pack)) || has j st.remove_packs)
    pub removed_first :
        has j st'.remove_packs_first
        ≡ (((id == j) && is_unknown (lookup id st.index_pack)) || has j st.remove_packs_first)
    pub left : lookup j st'.index_pack ≡ (if id == j then none else lookup j st.index_pack)
    pub repacked : st'.repack_packs ≡ st.repack_packs

  unknown_pack_sets :
      (id : ContentId) (n : ℕ) (st : Deciding) (j : ContentId)
      → lookup id st.index_pack ≡ none
      → StepSets id st (unknown_pack id n st) j
  unfolding unknown_pack
  unknown_pack_sets id n st j unknown = record {
    removed = ground arith;
    removed_first = ground (arith, has-add id j st.remove_packs_first);
    left = ground (arith, ==_iff id j);
    repacked = refl;
  }

  known_pack_sets :
      (id : ContentId) (n : ℕ) (p : PackInfo) (st st' : Deciding) (j : ContentId)
      → lookup id st.index_pack ≡ some p
      → known_pack opts repo id n p st ≡ ok st'
      → StepSets id st st' j
  unfolding known_pack
  known_pack_sets id n p st st' j known e =
      let noted : Deciding = record st { stats = note_pack p st.stats } in
      let decided = decide_pack opts repo id n p noted in
      let frame = frame-decide_pack id n p noted in
      record {
        removed = ground (arith, remove_packs-decide_pack id n p noted j);
        removed_first = ground (arith, frame.0);
        left = ground (arith, lookup-delete id j decided.index_pack, frame.2);
        repacked = ground (arith, frame.1);
      }

  decide_step_sets :
      (id : ContentId) (n : ℕ) (st st' : Deciding) (j : ContentId)
      → decide_step opts repo id n st ≡ ok st'
      → StepSets id st st' j
  unfolding decide_step
  decide_step_sets id n st st' j e = elim (Option-cases (lookup id st.index_pack)) [
    | inl unknown ↦
        subst (λ x. StepSets id st x j) (ground arith) (unknown_pack_sets id n st j unknown)
    | inr (p, known) ↦ known_pack_sets id n p st st' j known (ground arith)
  ]

  -- The sets after the loop, from those before it.
  pub record LoopSets (files : List (ContentId × ℕ)) (st st' : Deciding) (j : ContentId)
      : Type 0 where
    pub removed :
        has j st'.remove_packs
        ≡ ((listed j files && is_unused (lookup j st.index_pack)) || has j st.remove_packs)
    pub removed_first :
        has j st'.remove_packs_first
        ≡ ((listed j files && is_unknown (lookup j st.index_pack)) || has j st.remove_packs_first)
    pub left : lookup j st'.index_pack ≡ (if listed j files then none else lookup j st.index_pack)
    pub repacked : st'.repack_packs ≡ st.repack_packs

  pub decide_all_sets :
      (files : List (ContentId × ℕ)) (st st' : Deciding) (j : ContentId)
      → Distinct files
      → decide_all opts repo files st ≡ ok st'
      → LoopSets files st st' j
  unfolding decide_all listed
  decide_all_sets [] st st' j distinct e =
      let same : st ≡ st' = ground arith in
      subst (λ x. LoopSets [] st x j) same
        (record {
          removed = ground arith;
          removed_first = ground arith;
          left = ground arith;
          repacked = refl;
        })
  decide_all_sets ((id, n) ∷ files) st st' j distinct e =
      let (mid, stepped, went_on) = >>=-eq-ok (decide_step opts repo id n st) _ e in
      let one = decide_step_sets id n st mid j stepped in
      let rest = decide_all_sets files mid st' j distinct.1 went_on in
      record {
        removed = ground (arith, one, rest, distinct.0, ==_iff id j);
        removed_first = ground (arith, one, rest, distinct.0, ==_iff id j);
        left = ground (arith, one, rest);
        repacked = rest.repacked ∙ one.repacked;
      }

module _ (opts : PruneOptions) (repo : Repo) where
  decide_step-Unique :
      (id : ContentId) (n : ℕ) (st st' : Deciding)
      → Unique st.index_pack
      → decide_step opts repo id n st ≡ ok st'
      → Unique st'.index_pack
  unfolding decide_step known_pack unknown_pack
  decide_step-Unique id n st st' u e = elim (Option-cases (lookup id st.index_pack)) [
    | inl unknown ↦
        let same : st.index_pack ≡ st'.index_pack = ground arith in subst (λ m. Unique m) same u
    | inr (p, known) ↦
        let noted : Deciding = record st { stats = note_pack p st.stats } in
        let same : delete id st.index_pack ≡ st'.index_pack =
          ground (arith, (frame-decide_pack opts repo id n p noted).2) in
        subst (λ m. Unique m) same (delete-Unique id st.index_pack u)
  ]

  pub decide_all-Unique :
      (files : List (ContentId × ℕ)) (st st' : Deciding)
      → Unique st.index_pack
      → decide_all opts repo files st ≡ ok st'
      → Unique st'.index_pack
  unfolding decide_all
  decide_all-Unique [] st st' u e =
      let same : st.index_pack ≡ st'.index_pack = ground arith in subst (λ m. Unique m) same u
  decide_all-Unique ((id, n) ∷ files) st st' u e =
      let (mid, stepped, went_on) = >>=-eq-ok (decide_step opts repo id n st) _ e in
      decide_all-Unique files mid st' (decide_step-Unique id n st mid u stepped) went_on

-- The packs of the index that are left over: without blobs in use they are ignored.
pub ignore_packs-sort_missing :
    (packs : IndexPack) (m : Missing) (j : ContentId)
    → Unique packs
    → has j (sort_missing packs m).ignore_packs
      ≡ (is_unused (lookup j packs) || has j m.ignore_packs)
unfolding sort_missing lookup
ignore_packs-sort_missing [] m j u = refl
ignore_packs-sort_missing ((id, p) ∷ packs) m j (fresh, u) = ground (
  arith,
  ignore_packs-sort_missing packs
      (if p.used_blobs == 0
        then record m { ignore_packs = add id m.ignore_packs; stats = note_removed p m.stats }
        else record m { needed = id ∷ m.needed })
      j u,
  has-add id j m.ignore_packs,
  ==_iff id j,
)

-- Where no pack that is left over is needed, none of them has blobs in use.
pub needed-sort_missing :
    (packs : IndexPack) (m : Missing)
    → (sort_missing packs m).needed ≡ []
    → (m.needed ≡ [])
      × ((j : ContentId) (p : PackInfo) → lookup j packs ≡ some p → p.used_blobs ≡ 0)
unfolding sort_missing lookup
needed-sort_missing [] m e = (e, λ j p none_left. absurd (cc))
needed-sort_missing ((id, p) ∷ packs) m e =
    let (rest, unused) =
      needed-sort_missing packs
        (if p.used_blobs == 0
          then record m { ignore_packs = add id m.ignore_packs; stats = note_removed p m.stats }
          else record m { needed = id ∷ m.needed })
        e in
    (ground arith, λ j q known. ground (arith, unused j q))
