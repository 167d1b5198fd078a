-- ===== src/Prune/Execute/Copies.antt =====
-- Repacking copies every blob that the plan has to keep.
use vlbe.Base.{
  ◌≡◌, ◌≢◌, refl, sym, subst, ◌⊎◌, inl, inr, true, List, [], ◌∷◌, ◌++◌, none, lookup, delete,
  lookup-delete, has-merge, ℕ_key, has, arith, Bool-cases, Option-cases,
}
use vlbe.Restic.Blob.{ContentId, BlobHandle, PackedBlob, handle_key, same_handle}
use vlbe.Prune.Types.{Counts, ok, err, panic, repack_failed}
use vlbe.Prune.Execute.Trace.{World, apply, apply_all, apply_all-append}
use vlbe.Prune.Execute.{
  Env, saved_blob, flushed, Exec, resume, ◌>>◌, attempt, copy_blob, copy_blobs, wanted,
  repack_packs, repack_stage, check_repacked,
}
use vlbe.Prune.Execute.Steady.{Saved}

-- A blob is still to copy, or copied.
abbrev Copied : BlobHandle → Counts → World → Type 0
Copied h keep w = (lookup h keep ≢ none) ⊎ (has h w.pending ≡ true)

-- a copying that returns had nothing to do, or saved the blob
copy_blob-ok :
    (env : Env) (p : ContentId) (g : BlobHandle) (keep keep' : Counts)
    → (copy_blob env p g keep).1 ≡ ok keep'
    → (((copy_blob env p g keep).0 ≡ []) × (keep ≡ keep'))
      ⊎ (((copy_blob env p g keep).0 ≡ saved_blob g ∷ []) × (delete g keep ≡ keep'))
unfolding copy_blob
copy_blob-ok env p g keep keep' e = elim (Bool-cases (env.loads p g)) [
  | inr fails ↦ absurd (ground arith)
  | inl loads ↦ elim (Option-cases (lookup g keep)) [
    | inl copied ↦ inl (ground arith, ground arith)
    | inr (n, wants) ↦ elim (Bool-cases (env.saves g)) [
      | inl saves ↦ inr (ground arith, ground arith)
      | inr fails ↦ absurd (ground arith)
    ]
  ]
]

Copied-delete :
    (g h : BlobHandle) (keep : Counts) (w : World)
    → Copied h keep w
    → Copied h (delete g keep) (apply_all (saved_blob g ∷ []) w)
unfolding apply_all apply has
Copied-delete g h keep w c = elim (Bool-cases (same_handle g h)) [
  | inl same ↦ inr (ground arith)
  | inr other ↦ elim c [
    | inl wants ↦ inl (ground (arith, lookup-delete g h keep))
    | inr copied ↦ inr (ground arith)
  ]
]

copy_blob-Copied :
    (env : Env) (p : ContentId) (g h : BlobHandle) (keep keep' : Counts) (w : World)
    → (copy_blob env p g keep).1 ≡ ok keep'
    → Copied h keep w
    → Copied h keep' (apply_all (copy_blob env p g keep).0 w)
unfolding apply_all
copy_blob-Copied env p g h keep keep' w e c = elim (copy_blob-ok env p g keep keep' e) [
  | inl (nothing, same) ↦
      subst (λ t. Copied h keep' (apply_all t w)) (sym nothing) (subst (λ k. Copied h k w) same c)
  | inr (saves, same) ↦
      subst (λ t. Copied h keep' (apply_all t w)) (sym saves)
        (subst (λ k. Copied h k (apply_all (saved_blob g ∷ []) w)) same
          (Copied-delete g h keep w c))
]

-- a chain that returns ran both parts
resume-ok {ℓ κ} :
    {A : Type ℓ} {B : Type κ} (m : Exec A) (f : A → Exec B) {b : B}
    → (resume m.0 m.1 f).1 ≡ ok b
    → (a : A) × (m.1 ≡ ok a) × ((f a).1 ≡ ok b) × ((resume m.0 m.1 f).0 ≡ m.0 ++ (f a).0)
unfolding resume
resume-ok (t, ok a) f e = (a, refl, e, refl)
resume-ok (t, err x) f e = absurd (cc)
resume-ok (t, panic) f e = absurd (cc)

module _ {A B : Type 0} (m : Exec A) (f : A → Exec B) (P : A → World → Type 0)
    (Q : World → Type 0) where
  -- a claim on the state at the end goes through a chain
  after-resume :
      {b : B} (w : World)
      → (resume m.0 m.1 f).1 ≡ ok b
      → ((a : A) → m.1 ≡ ok a → P a (apply_all m.0 w))
      → ((a : A) (v : World) → (f a).1 ≡ ok b → P a v → Q (apply_all (f a).0 v))
      → Q (apply_all (resume m.0 m.1 f).0 w)
  after-resume w e first second =
      let (a, ok_m, ok_f, eq) = resume-ok m f e in
      subst (λ t. Q (apply_all t w)) (sym eq)
        (subst Q (sym (apply_all-append m.0 (f a).0 w))
          (second a (apply_all m.0 w) ok_f (first a ok_m)))

module _ (env : Env) (h : BlobHandle) where
  copy_blobs-Copied :
      (p : ContentId) (hs : List BlobHandle) (keep keep' : Counts) (w : World)
      → (copy_blobs env p hs keep).1 ≡ ok keep'
      → Copied h keep w
      → Copied h keep' (apply_all (copy_blobs env p hs keep).0 w)
  unfolding copy_blobs apply_all
  copy_blobs-Copied p [] keep keep' w e c =
      let same : keep ≡ keep' = ground arith in subst (λ k. Copied h k w) same c
  copy_blobs-Copied p (g ∷ hs) keep keep' w e c =
      after-resume (copy_blob env p g keep) (copy_blobs env p hs) (Copied h) (Copied h keep') w e
        (λ k ran. copy_blob-Copied env p g h keep k w ran c)
        (λ k v ran c'. copy_blobs-Copied p hs k keep' v ran c')

  repack_packs-Copied :
      (index : List PackedBlob) (packs : List ContentId) (keep keep' : Counts) (w : World)
      → (repack_packs env index packs keep).1 ≡ ok keep'
      → Copied h keep w
      → Copied h keep' (apply_all (repack_packs env index packs keep).0 w)
  unfolding repack_packs apply_all
  repack_packs-Copied index [] keep keep' w e c =
      let same : keep ≡ keep' = ground arith in subst (λ k. Copied h k w) same c
  repack_packs-Copied index (p ∷ packs) keep keep' w e c =
      after-resume (copy_blobs env p (wanted p index keep) keep) (repack_packs env index packs)
        (Copied h) (Copied h keep') w e
        (λ k ran. copy_blobs-Copied p (wanted p index keep) keep k w ran c)
        (λ k v ran c'. repack_packs-Copied index packs k keep' v ran c')

  -- after the flush nothing is pending
  flush_then_check :
      (keep : Counts) (w : World)
      → ((attempt env.flushes repack_failed flushed) >> check_repacked keep).1 ≡ ok tt
      → Copied h keep w
      → Saved h (apply_all ((attempt env.flushes repack_failed flushed) >> check_repacked keep).0 w)
  unfolding check_repacked resume apply_all apply lookup
  flush_then_check [] w e (inl wants) = absurd (wants refl)
  flush_then_check [] w e (inr copied) = elim (Bool-cases env.flushes) [
    | inl flushes ↦ rw flushes (ground (arith, has-merge w.saved w.pending h))
    | inr fails ↦ absurd (ground arith)
  ]
  flush_then_check (k ∷ keep) w e c = absurd (ground arith)

  pub repack_stage-Saved :
      (index : List PackedBlob) (packs : List ContentId) (keep : Counts) (w : World)
      → packs ≢ []
      → (repack_stage env index packs keep).1 ≡ ok tt
      → lookup h keep ≢ none
      → Saved h (apply_all (repack_stage env index packs keep).0 w)
  unfolding repack_stage
  repack_stage-Saved index [] keep w some_pack e wants = absurd (some_pack refl)
  repack_stage-Saved index (p ∷ packs) keep w some_pack e wants =
      after-resume (repack_packs env index (p ∷ packs) keep)
        (λ keep'. (attempt env.flushes repack_failed flushed) >> check_repacked keep') (Copied h)
        (Saved h) w e (λ k ran. repack_packs-Copied index (p ∷ packs) keep k w ran (inl wants))
        (λ k v ran c. flush_then_check k v ran c)
