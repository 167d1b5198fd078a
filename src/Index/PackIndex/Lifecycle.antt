-- ===== src/Index/PackIndex/Lifecycle.antt =====
-- A finalized index takes one id and no more packs.
use vlbe.Base.{ℕ, ◌≡◌, sym, ap, ◌∙◌, true, List, [], ◌∷◌, ◌++◌, length, ltb, if◌then◌else◌, arith}
use vlbe.Restic.Blob.{ContentId, Blob}
use vlbe.Index.PackIndex.{
  Index, ok, err, already_set, finalized_store, get_ids, set_id, store_all, store_pack,
}
use vlbe.Index.Hashed.Content.{length_zero}

-- When `SetID` succeeds, the index has this one id from then on: `IDs` returns it alone, another `SetID`
-- fails, and `StorePack` refuses any pack, so that the saved file and the index cannot come apart.
set_id_once :
    (sum64 : ℕ → ContentId → ℕ) (idx after : Index) (id other pack : ContentId) (bs : List Blob)
    → set_id id idx ≡ ok after
    → (get_ids after ≡ ok (id ∷ []))
      × (set_id other after ≡ err already_set)
      × (store_pack sum64 pack bs after ≡ err finalized_store)
unfolding set_id get_ids store_pack
set_id_once sum64 idx after id other pack bs done =
    let closed : idx.final ≡ true = ground arith in
    let none_yet : length idx.ids ≡ 0 = ground arith in
    let same : record idx { ids = idx.ids ++ (id ∷ []) } ≡ after = ground arith in
    let after_closed : after.final ≡ true = sym (ap (λ (i : Index). i.final) same) ∙ closed in
    let after_ids : after.ids ≡ id ∷ [] =
      sym (ap (λ (i : Index). i.ids) same)
      ∙ ap (λ l. l ++ (id ∷ [])) (length_zero idx.ids none_yet) in
    let filled : ltb 0 (length after.ids) ≡ true = ground (arith, ap length after_ids) in
    (
      ground (arith, after_closed, after_ids),
      ground (arith, after_closed, filled),
      ap
          (λ c.
            if c
            then err finalized_store
            else store_all sum64 (length after.packs) bs
                (record after { packs = after.packs ++ (pack ∷ []) }))
          after_closed,
    )
