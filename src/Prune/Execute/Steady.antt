-- ===== src/Prune/Execute/Steady.antt =====
-- What the effects of `Execute` keep, whatever the environment does.
use vlbe.Base.{
  ◌≡◌, inl, inr, Bool, true, false, List, [], ◌∷◌, lookup, has-merge, ℕ_key, has, arith, Bool-cases,
  Option-cases,
}
use vlbe.Restic.Blob.{ContentId, BlobHandle, PackedBlob, handle_key}
use vlbe.Prune.Types.{Counts, ok, repack_failed, index_failed}
use vlbe.Prune.Execute.Trace.{
  World, apply, Respects, Respects-nil, Respects-append, Respects-resume, Respects-one,
  Respects-attempt,
}
use vlbe.Prune.Execute.{
  Env, removed_pack, saved_blob, flushed, rewrote_index, removed_index, saved_fallback, ◌>>◌,
  attempt, remove_files, copy_blob, copy_blobs, wanted, repack_packs, repack_stage, check_repacked,
  index_stage, check_context, fallback_stage,
}

-- the file of the pack is there, or the blob stands in a new file
abbrev pub Present : ContentId → World → Type 0
Present p w = has p w.gone ≡ false

abbrev pub Saved : BlobHandle → World → Type 0
Saved h w = has h w.saved ≡ true

pub Present-remove_files :
    (env : Env) (p : ContentId) (packs : List ContentId)
    → has p packs ≡ false
    → Respects (Present p) (remove_files env packs)
unfolding remove_files has
Present-remove_files env p [] e = Respects-nil (Present p)
Present-remove_files env p (q ∷ packs) e =
    let rest = Present-remove_files env p packs (ground arith) in
    elim (Bool-cases (env.removable q)) [
      | inl removes ↦ rw removes (
          Respects-append (Present p) (removed_pack q ∷ []) (remove_files env packs)
            (Respects-one (Present p) (removed_pack q) (λ w h. unfold apply in ground arith)) rest)
      | inr stays ↦ rw stays rest
    ]

pub Saved-remove_files :
    (env : Env) (h : BlobHandle) (packs : List ContentId)
    → Respects (Saved h) (remove_files env packs)
unfolding remove_files
Saved-remove_files env h [] = Respects-nil (Saved h)
Saved-remove_files env h (q ∷ packs) =
    let rest = Saved-remove_files env h packs in
    elim (Bool-cases (env.removable q)) [
      | inl removes ↦ rw removes (
          Respects-append (Saved h) (removed_pack q ∷ []) (remove_files env packs)
            (Respects-one (Saved h) (removed_pack q) (λ w k. unfold apply in k)) rest)
      | inr stays ↦ rw stays rest
    ]

-- what every effect but the removal of a pack keeps
pub record IsSteady (P : World → Type 0) : Type 0 where
  on_saved_blob : (h : BlobHandle) (w : World) → P w → P (apply (saved_blob h) w)
  on_flushed : (w : World) → P w → P (apply flushed w)
  on_rewrote_index :
      (ignore : List ContentId) (w : World) → P w → P (apply (rewrote_index ignore) w)
  on_removed_index : (w : World) → P w → P (apply removed_index w)
  on_saved_fallback :
      (ignore : List ContentId) (w : World) → P w → P (apply (saved_fallback ignore) w)

pub Present-IsSteady : (p : ContentId) → IsSteady (Present p)
unfolding apply
Present-IsSteady p = record {
  on_saved_blob = λ h w k. k;
  on_flushed = λ w k. k;
  on_rewrote_index = λ ignore w k. k;
  on_removed_index = λ w k. k;
  on_saved_fallback = λ ignore w k. k;
}

pub Saved-IsSteady : (h : BlobHandle) → IsSteady (Saved h)
unfolding apply
Saved-IsSteady h = record {
  on_saved_blob = λ g w k. k;
  on_flushed = λ w k. ground (arith, has-merge w.saved w.pending h);
  on_rewrote_index = λ ignore w k. k;
  on_removed_index = λ w k. k;
  on_saved_fallback = λ ignore w k. k;
}

module _ (P : World → Type 0) (steady : IsSteady P) (env : Env) where
  copy_blob_steady :
      (p : ContentId) (h : BlobHandle) (keep : Counts) → Respects P (copy_blob env p h keep).0
  unfolding copy_blob
  copy_blob_steady p h keep = elim (Bool-cases (env.loads p h)) [
    | inr fails ↦ rw fails (Respects-nil P)
    | inl loads ↦ elim (Option-cases (lookup h keep)) [
      | inl copied ↦ rw (loads, copied) (Respects-nil P)
      | inr (n, wants) ↦ elim (Bool-cases (env.saves h)) [
        | inl saves ↦
            rw (loads, wants, saves) (Respects-one P (saved_blob h) (steady.on_saved_blob h))
        | inr fails ↦ rw (loads, wants, fails) (Respects-nil P)
      ]
    ]
  ]

  copy_blobs_steady :
      (p : ContentId) (hs : List BlobHandle) (keep : Counts)
      → Respects P (copy_blobs env p hs keep).0
  unfolding copy_blobs
  copy_blobs_steady p [] keep = Respects-nil P
  copy_blobs_steady p (h ∷ hs) keep =
      Respects-resume P (copy_blob env p h keep) (copy_blobs env p hs) (copy_blob_steady p h keep)
        (copy_blobs_steady p hs)

  repack_packs_steady :
      (index : List PackedBlob) (packs : List ContentId) (keep : Counts)
      → Respects P (repack_packs env index packs keep).0
  unfolding repack_packs
  repack_packs_steady index [] keep = Respects-nil P
  repack_packs_steady index (p ∷ packs) keep =
      Respects-resume P (copy_blobs env p (wanted p index keep) keep) (repack_packs env index packs)
        (copy_blobs_steady p (wanted p index keep) keep) (repack_packs_steady index packs)

  check_repacked_steady : (keep : Counts) → Respects P (check_repacked keep).0
  unfolding check_repacked
  check_repacked_steady [] = Respects-nil P
  check_repacked_steady (k ∷ keep) = Respects-nil P

  pub repack_stage_steady :
      (index : List PackedBlob) (packs : List ContentId) (keep : Counts)
      → Respects P (repack_stage env index packs keep).0
  unfolding repack_stage
  repack_stage_steady index [] keep = Respects-nil P
  repack_stage_steady index (p ∷ packs) keep =
      Respects-resume P (repack_packs env index (p ∷ packs) keep) _
        (repack_packs_steady index (p ∷ packs) keep)
        (λ keep'.
          Respects-resume P (attempt env.flushes repack_failed flushed) (λ _. check_repacked keep')
            (Respects-attempt P env.flushes repack_failed flushed steady.on_flushed)
            (λ _. check_repacked_steady keep'))

  index_stage_steady :
      (unsafe : Bool) (ignore : List ContentId) → Respects P (index_stage env unsafe ignore).0
  unfolding index_stage
  index_stage_steady true ignore =
      Respects-attempt P env.deletes_index index_failed removed_index steady.on_removed_index
  index_stage_steady false [] = Respects-nil P
  index_stage_steady false (p ∷ ignore) =
      Respects-attempt P env.rewrites_index index_failed (rewrote_index (p ∷ ignore))
        (steady.on_rewrote_index (p ∷ ignore))

  pub check_context_steady : (b : Bool) → Respects P (check_context b).0
  unfolding check_context
  check_context_steady true = Respects-nil P
  check_context_steady false = Respects-nil P

  fallback_stage_steady :
      (unsafe : Bool) (ignore : List ContentId) → Respects P (fallback_stage env unsafe ignore).0
  unfolding fallback_stage
  fallback_stage_steady true ignore =
      Respects-attempt P env.saves_fallback index_failed (saved_fallback ignore)
        (steady.on_saved_fallback ignore)
  fallback_stage_steady false ignore = Respects-nil P

  -- what follows the repacking, given what removing the packs keeps
  pub closing_steady :
      (unsafe : Bool) (remove ignore : List ContentId)
      → Respects P (remove_files env remove)
      → Respects P
          (index_stage env unsafe ignore
            >> ((remove_files env remove, ok tt)
                >> (check_context env.cancelled_late >> fallback_stage env unsafe ignore))).0
  closing_steady unsafe remove ignore removes =
      Respects-resume P (index_stage env unsafe ignore) _ (index_stage_steady unsafe ignore) (λ _.
        Respects-resume P (remove_files env remove, ok tt) _ removes
          (λ _.
            Respects-resume P (check_context env.cancelled_late) _
              (check_context_steady env.cancelled_late) (λ _. fallback_stage_steady unsafe ignore)))
