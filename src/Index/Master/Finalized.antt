-- ===== src/Index/Master/Finalized.antt =====
-- Finalizing the indexes of the master index.
use vlbe.Base.{
  ℕ, ◌≡◌, inl, inr, refl, sym, ap, ◌∙◌, Bool, true, false, not, ◌||◌, Bool-cases, List, [], ◌∷◌,
  if◌then◌else◌, All, has, map,
}
use vlbe.Restic.Blob.{ContentId, BlobHandle, handle_key}
use vlbe.Index.PackIndex.{Index, IndexAnswer, ok, err, ◌>>=◌, merge_index, has_blob}
use vlbe.Index.PackIndex
use vlbe.Index.Master.{MasterIndex, any_has, is_known, finalize_all, finalize_not_final_indexes}

abbrev pub IsFinal : Index → Type 0
IsFinal i = i.final ≡ true

none_at_all : finalize_all [] ≡ ([], [])
unfolding finalize_all
none_at_all = refl

-- the step of the loop of `finalizeNotFinalIndexes`
module _ (i : Index) (is : List Index) where
  abbrev step : Bool → List Index × List Index
  step final =
      if not final
      then (PackIndex.finalize i ∷ (finalize_all is).0, PackIndex.finalize i ∷ (finalize_all is).1)
      else (i ∷ (finalize_all is).0, (finalize_all is).1)

  when_final : IsFinal i → finalize_all (i ∷ is) ≡ (i ∷ (finalize_all is).0, (finalize_all is).1)
  unfolding finalize_all
  when_final closed = ap step closed

  when_open :
      i.final ≡ false
      → finalize_all (i ∷ is)
        ≡ (PackIndex.finalize i ∷ (finalize_all is).0, PackIndex.finalize i ∷ (finalize_all is).1)
  unfolding finalize_all
  when_open writable = ap step writable

finalize_all-IsFinal : (is : List Index) → All IsFinal (finalize_all is).0
unfolding PackIndex.finalize
finalize_all-IsFinal [] = rw none_at_all tt
finalize_all-IsFinal (i ∷ is) = elim (Bool-cases i.final) [
  | inl closed ↦ rw (when_final i is closed) (closed, finalize_all-IsFinal is)
  | inr writable ↦ rw (when_open i is writable) (refl, finalize_all-IsFinal is)
]

-- a second run finds nothing
finalize_all_final : (is : List Index) → All IsFinal is → finalize_all is ≡ (is, [])
finalize_all_final [] h = none_at_all
finalize_all_final (i ∷ is) (here, rest) =
    when_final i is here ∙ rw (finalize_all_final is rest) refl

-- the indexes that are still open, in their order
abbrev pub open_ones : List Index → List Index
open_ones [] = []
open_ones (i ∷ is) = if i.final then open_ones is else i ∷ open_ones is

finalize_all-open_ones :
    (is : List Index) → (finalize_all is).1 ≡ map PackIndex.finalize (open_ones is)
unfolding PackIndex.finalize
finalize_all-open_ones [] = rw none_at_all refl
finalize_all-open_ones (i ∷ is) = elim (Bool-cases i.final) [
  | inl closed ↦ rw (when_final i is closed, closed) (finalize_all-open_ones is)
  | inr writable ↦
      rw (when_open i is writable, writable)
        (ap (λ l. PackIndex.finalize i ∷ l) (finalize_all-open_ones is))
]

-- an index that is closed, and every other as it is
abbrev pub close : Index → Index
close i = if i.final then i else PackIndex.finalize i

-- by the test
abbrev close_by : Index → Bool → Index
close_by i final = if final then i else PackIndex.finalize i

finalize_all-close : (is : List Index) → (finalize_all is).0 ≡ map close is
finalize_all-close [] = ap (λ r. r.0) none_at_all
finalize_all-close (i ∷ is) = elim (Bool-cases i.final) [
  | inl closed ↦
      ap (λ r. r.0) (when_final i is closed)
      ∙ ap (λ l. i ∷ l) (finalize_all-close is)
      ∙ ap (λ b. close_by i b ∷ map close is) (sym closed)
  | inr writable ↦
      ap (λ r. r.0) (when_open i is writable)
      ∙ ap (λ l. PackIndex.finalize i ∷ l) (finalize_all-close is)
      ∙ ap (λ b. close_by i b ∷ map close is) (sym writable)
]

module _ (sum64 : ℕ → ContentId → ℕ) where
  any_has-finalize_all :
      (bh : BlobHandle) (is : List Index)
      → any_has sum64 bh (finalize_all is).0 ≡ any_has sum64 bh is
  unfolding any_has PackIndex.finalize has_blob
  any_has-finalize_all bh [] = ap (λ r. any_has sum64 bh r.0) none_at_all
  any_has-finalize_all bh (i ∷ is) = elim (Bool-cases i.final) [
    | inl closed ↦
        rw (when_final i is closed)
          (ap (λ b. has_blob sum64 bh i || b) (any_has-finalize_all bh is))
    | inr writable ↦
        rw (when_open i is writable)
          (ap (λ b. has_blob sum64 bh i || b) (any_has-finalize_all bh is))
  ]

  -- `finalizeNotFinalIndexes` returns exactly the indexes that were open, finalized and in their order,
  -- and has closed them in the master index, where all others stay as they are. Afterwards every index
  -- is final, a second call returns no index, so that none is saved twice, and the same blobs are known
  -- as before.
  pub finalize_not_final_indexes-is_known :
      (mi : MasterIndex)
      → let (after, list) = finalize_not_final_indexes mi in
        (list ≡ map PackIndex.finalize (open_ones mi.idx))
        × (after ≡ record mi { idx = map close mi.idx })
        × All IsFinal after.idx
        × (finalize_not_final_indexes after ≡ (after, []))
        × ((bh : BlobHandle) → is_known sum64 bh after ≡ is_known sum64 bh mi)
  unfolding finalize_not_final_indexes is_known
  finalize_not_final_indexes-is_known mi =
      let closed = finalize_all-IsFinal mi.idx in
      (
        finalize_all-open_ones mi.idx,
        ap (λ l. record mi { idx = l }) (finalize_all-close mi.idx),
        closed,
        rw (finalize_all_final (finalize_all mi.idx).0 closed) refl,
        λ bh. ap (λ b. has bh mi.pending_blobs || b) (any_has-finalize_all bh mi.idx),
      )
