-- ===== src/Index/Master/Offsets.antt =====
-- The offsets by which an associated set keeps its values.
use vlbe.Base.{ℕ, ◌≤◌, ◌≡◌, subst, List, [], ◌∷◌, some, arith, All}
use vlbe.Restic.Blob.{ContentId, BlobHandle}
use vlbe.Index.Hashed.Positions.{first_index-IsInjective}
use vlbe.Index.PackIndex.{Index}
use vlbe.Index.PackIndex
use vlbe.Index.Hashed.{first_index}
use vlbe.Index.PackIndex.Lookup.{IsIndex}
use vlbe.Index.Master.{MasterIndex, blob_index, stable_len}

offsets_lem :
    (sum64 : ℕ → ContentId → ℕ) (is : List Index) (pending : List BlobHandle) (g h : BlobHandle)
    (i : ℕ)
    → All (IsIndex sum64) is
    → blob_index sum64 (record { idx = is; pending_blobs = pending }) g ≡ some i
    → blob_index sum64 (record { idx = is; pending_blobs = pending }) h ≡ some i
    → g.tpe ≡ h.tpe
    → (g ≡ h) × (1 ≤ i) × (i ≤ stable_len (record { idx = is; pending_blobs = pending }) h.tpe)
unfolding blob_index stable_len PackIndex.blob_index PackIndex.len
offsets_lem sum64 [] pending g h i valid at_g at_h same = absurd (ground arith)
offsets_lem sum64 (first ∷ is) pending g h i (valid, rest) at_g at_h same =
    let at_g_here = subst (λ t. first_index sum64 g.id (first.by_type t) ≡ some i) same at_g in
    let (ids, positive, bound) =
      first_index-IsInjective sum64 (first.by_type h.tpe) g.id h.id i (valid.tables h.tpe) at_g_here
        at_h in
    (ground (arith, ids, same), positive, bound)

-- In a master index of well-formed indexes, `blobIndex` gives two handles of one type never the same offset,
-- and gives only offsets from 1 to `stableLen` of the type, for which the arrays of an associated set have
-- cells.
pub blob_index-IsInjective :
    (sum64 : ℕ → ContentId → ℕ) (mi : MasterIndex) (g h : BlobHandle) (i : ℕ)
    → All (IsIndex sum64) mi.idx
    → blob_index sum64 mi g ≡ some i
    → blob_index sum64 mi h ≡ some i
    → g.tpe ≡ h.tpe
    → (g ≡ h) × (1 ≤ i) × (i ≤ stable_len mi h.tpe)
blob_index-IsInjective sum64 mi g h i valid at_g at_h same =
    offsets_lem sum64 mi.idx mi.pending_blobs g h i valid at_g at_h same
