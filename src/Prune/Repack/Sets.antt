-- ===== src/Prune/Repack/Sets.antt =====
-- Repacking adds to the packs to repack, and changes no other set.
use vlbe.Base.{
  ℕ, ◌≡◌, refl, inl, inr, ◌∙◌, Bool, false, ◌&&◌, List, [], ◌∷◌, some, none, Option, Option-cases,
  ◌==◌, arith, has, ℕ_key, lookup, Unique, not,
}
use vlbe.Restic.Blob.{ContentId}
use vlbe.Prune.Types.{PruneOptions, PruneStats, IndexPack, PackInfo, Repo, ok, >>=-eq-ok}
use vlbe.Prune.Decide.{PackInfoWithId, Deciding, Missing, decide_all, sort_missing, add_small}
use vlbe.Prune.Decide.Sets.{
  listed, Distinct, is_unused, is_unknown, decide_all_sets, decide_all-Unique,
  ignore_packs-sort_missing, needed-sort_missing,
}
use vlbe.Prune.Repack.{
  Decision, Sorter, repack, repack_step, repack_all, choose_repacks, start, finish, finish_with,
  decide_pack_action,
}

-- the sets that repacking leaves alone
pub record SameSets (st st' : Deciding) : Type 0 where
  pub removed : st'.remove_packs ≡ st.remove_packs
  pub removed_first : st'.remove_packs_first ≡ st.remove_packs_first

repack_step_sets :
    (opts : PruneOptions) (target max_unused : ℕ) (c : PackInfoWithId) (st : Deciding)
    → SameSets st (repack_step opts target max_unused c st)
unfolding repack_step repack
repack_step_sets opts target max_unused c st = record {
  removed = ground arith;
  removed_first = ground arith;
}

repack_all_sets :
    (opts : PruneOptions) (target max_unused : ℕ) (cs : List PackInfoWithId) (st : Deciding)
    → SameSets st (repack_all opts target max_unused cs st)
unfolding repack_all
repack_all_sets opts target max_unused [] st = record { removed = refl; removed_first = refl }
repack_all_sets opts target max_unused (c ∷ cs) st =
    let st' = repack_step opts target max_unused c st in
    let one = repack_step_sets opts target max_unused c st in
    let rest = repack_all_sets opts target max_unused cs st' in
    record {
      removed = rest.removed ∙ one.removed;
      removed_first = rest.removed_first ∙ one.removed_first;
    }

add_small_sets : (st : Deciding) → SameSets st (add_small st)
unfolding add_small
add_small_sets st = record { removed = ground arith; removed_first = ground arith }

-- some blob of the pack is in use
abbrev pub is_needed : Option PackInfo → Bool
is_needed none = false
is_needed (some p) = not (p.used_blobs == 0)

-- The sets of a decision, by what the backend lists and what the index says of a pack.
pub record DecisionSets (repo : Repo) (packs : IndexPack) (d : Decision) (j : ContentId)
    : Type 0 where
  pub removed : has j d.remove_packs ≡ (listed j repo.packs && is_unused (lookup j packs))
  pub removed_first :
      has j d.remove_packs_first ≡ (listed j repo.packs && is_unknown (lookup j packs))
  pub ignored : has j d.ignore_packs ≡ (not (listed j repo.packs) && is_unused (lookup j packs))
  pub missing : (not (listed j repo.packs) && is_needed (lookup j packs)) ≡ false

choose_repacks_sets :
    (sort_slice : Sorter) (opts : PruneOptions) (repo : Repo) (st : Deciding)
    → SameSets st (choose_repacks sort_slice opts repo st)
unfolding choose_repacks
choose_repacks_sets sort_slice opts repo st = repack_all_sets _ _ _ _ _

module _ (sort_slice : Sorter) (opts : PruneOptions) (repo : Repo) where
  -- what `finish` returns, by the state after the loop
  pub record FinishSets (st : Deciding) (d : Decision) (j : ContentId) : Type 0 where
    pub removed : d.remove_packs ≡ st.remove_packs
    pub removed_first : d.remove_packs_first ≡ st.remove_packs_first
    pub ignored : has j d.ignore_packs ≡ is_unused (lookup j st.index_pack)
    pub missing : (p : PackInfo) → lookup j st.index_pack ≡ some p → p.used_blobs ≡ 0

  finish_sets :
      (st : Deciding) (d : Decision) (j : ContentId)
      → Unique st.index_pack
      → finish sort_slice opts repo st ≡ ok d
      → FinishSets st d j
  unfolding finish finish_with has
  finish_sets st d j u e =
      let none_yet : Missing = record { ignore_packs = []; needed = []; stats = st.stats } in
      let m = sort_missing st.index_pack none_yet in
      let st' = add_small (record st { stats = m.stats }) in
      let small = add_small_sets (record st { stats = m.stats }) in
      let chosen = choose_repacks_sets sort_slice opts repo st' in
      let all_sorted : m.needed ≡ [] = ground arith in
      record {
        removed = ground (arith, small, chosen);
        removed_first = ground (arith, small, chosen);
        ignored = ground (arith, ignore_packs-sort_missing st.index_pack none_yet j u);
        missing = λ p. (needed-sort_missing st.index_pack none_yet all_sorted).1 j p;
      }

  -- Where `decidePackAction` returns, and the backend lists no file twice, the packs to remove are
  -- the listed ones of the index with no used blob, those to remove first the listed ones that the
  -- index does not know, and those to ignore the packs of the index that are not listed; and no
  -- pack with a used blob is missing.
  pub decide_pack_action_sets :
      (packs : IndexPack) (stats : PruneStats) (d : Decision) (j : ContentId)
      → Distinct repo.packs
      → Unique packs
      → decide_pack_action sort_slice opts repo packs stats ≡ ok d
      → DecisionSets repo packs d j
  unfolding decide_pack_action has
  decide_pack_action_sets packs stats d j distinct u e =
      let (st, looped, finished) =
        >>=-eq-ok (decide_all opts repo repo.packs (start packs stats)) _ e in
      let loop = decide_all_sets opts repo repo.packs (start packs stats) st j distinct looped in
      let u' = decide_all-Unique opts repo repo.packs (start packs stats) st u looped in
      let fin = finish_sets st d j u' finished in
      record {
        removed = ground (arith, loop, fin);
        removed_first = ground (arith, loop, fin);
        ignored = ground (arith, loop, fin);
        missing = elim (Option-cases (lookup j packs)) [
          | inl unknown ↦ ground arith
          | inr (p, known) ↦ ground (arith, loop, fin.missing p)
        ];
      }
