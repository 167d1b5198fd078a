-- ===== src/Prune/Plan/Limits.antt =====
-- What a plan does not do under `UnsafeRecovery`: repack.
use vlbe.Base.{ℕ, ◌≡◌, refl, ◌∙◌, true, List, [], ◌∷◌, some, none, arith, ℕ_key}
use vlbe.Restic.Blob.{BlobHandle, handle_key}
use vlbe.Prune.Types.{PruneOptions, Repo, ok, >>=-eq-ok, zero_stats, IndexPack, PruneStats}
use vlbe.Prune.Select.{used_set, pack_info_from_index}
use vlbe.Prune.Decide.{PackInfoWithId, Deciding, add_small, decide_all, sort_missing}
use vlbe.Prune.Decide.Sets.{Distinct, decide_all_sets}
use vlbe.Prune.Repack.{
  Decision, Sorter, reached_repack_size, repack_step, repack_all, choose_repacks, start, finish,
  finish_with, decide_pack_action,
}
use vlbe.Prune.Plan.{PrunePlan, if_repacking, blobs_to_keep, adjust, plan_from, plan_prune}

-- `MaxRepackBytes` 0 lets no candidate through
repack_all_none :
    (opts : PruneOptions) (target max_unused : ℕ) (cs : List PackInfoWithId) (st : Deciding)
    → opts.max_repack_bytes ≡ 0
    → (repack_all opts target max_unused cs st).repack_packs ≡ st.repack_packs
unfolding repack_all
repack_all_none opts target max_unused [] st zero_max = refl
repack_all_none opts target max_unused (c ∷ cs) st zero_max =
    repack_all_none opts target max_unused cs (repack_step opts target max_unused c st) zero_max
    ∙ (unfold repack_step reached_repack_size in ground arith)

choose_repacks_none :
    (sort_slice : Sorter) (opts : PruneOptions) (repo : Repo) (st : Deciding)
    → opts.max_repack_bytes ≡ 0
    → (choose_repacks sort_slice opts repo st).repack_packs ≡ st.repack_packs
unfolding choose_repacks
choose_repacks_none sort_slice opts repo st zero_max = repack_all_none opts _ _ _ st zero_max

repack_packs-add_small : (st : Deciding) → (add_small st).repack_packs ≡ st.repack_packs
unfolding add_small
repack_packs-add_small st = ground arith

finish_none :
    (sort_slice : Sorter) (opts : PruneOptions) (repo : Repo) (st : Deciding) (d : Decision)
    → opts.max_repack_bytes ≡ 0
    → finish sort_slice opts repo st ≡ ok d
    → d.repack_packs ≡ st.repack_packs
unfolding finish finish_with
finish_none sort_slice opts repo st d zero_max e =
    let m =
      sort_missing st.index_pack (record { ignore_packs = []; needed = []; stats = st.stats }) in
    let st' : Deciding = record st { stats = m.stats } in
    ground (
      arith,
      choose_repacks_none sort_slice opts repo (add_small st') zero_max,
      repack_packs-add_small st',
    )

decide_none :
    (sort_slice : Sorter) (opts : PruneOptions) (repo : Repo) (packs : IndexPack)
    (stats : PruneStats) (d : Decision)
    → opts.max_repack_bytes ≡ 0
    → Distinct repo.packs
    → decide_pack_action sort_slice opts repo packs stats ≡ ok d
    → d.repack_packs ≡ []
unfolding decide_pack_action
decide_none sort_slice opts repo packs stats d zero_max distinct e =
    let (st, looped, finished) =
      >>=-eq-ok (decide_all opts repo repo.packs (start packs stats)) _ e in
    finish_none sort_slice opts repo st d zero_max finished
    ∙ (decide_all_sets opts repo repo.packs (start packs stats) st 0 distinct looped).repacked

-- Under `UnsafeRecovery` a plan repacks nothing and copies no blob. Condition: the backend lists no
-- file twice.
pub unsafe_recovery_repacks_nothing :
    (sort_slice : Sorter) (opts : PruneOptions) (repo : Repo) (used : List BlobHandle)
    (plan : PrunePlan)
    → opts.unsafe_recovery ≡ true
    → Distinct repo.packs
    → plan_prune sort_slice opts repo (some used) ≡ ok plan
    → (plan.repack_packs ≡ []) × (plan.keep_blobs ≡ none)
unfolding plan_prune plan_from blobs_to_keep if_repacking
unsafe_recovery_repacks_nothing sort_slice opts repo used plan unsafe distinct planned =
    let from : plan_from sort_slice (adjust opts) repo used ≡ ok plan = ground arith in
    let (st, selected, rest) =
      >>=-eq-ok (pack_info_from_index repo.index (used_set used []) zero_stats) _ from in
    let (d, decided, done) =
      >>=-eq-ok (decide_pack_action sort_slice (adjust opts) repo st.index_pack st.stats) _ rest in
    let nothing =
      decide_none sort_slice (adjust opts) repo st.index_pack st.stats d (ground arith) distinct
        decided in
    (ground arith, ground arith)
