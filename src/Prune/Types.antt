-- ===== src/Prune/Types.antt =====
-- internal/repository/prune.go: options, statistics and what is known of each pack.
use vlbe.Base.{◌≡◌, refl, ℕ, Bool, false, List, Option, none, some, Map}
use vlbe.Restic.Blob.{ContentId, BlobHandle, BlobType, invalid_blob, PackedBlob}

-- `PruneOptions`
pub record PruneOptions : Type 0 where
  pub dry_run : Bool
  pub unsafe_recovery : Bool
  pub max_unused_bytes : ℕ → ℕ
  pub max_repack_bytes : ℕ
  pub repack_cacheable_only : Bool
  pub repack_small : Bool
  pub repack_uncompressed : Bool

-- the structs of `PruneStats`
pub record BlobStats : Type 0 where
  pub used : ℕ
  pub duplicate : ℕ
  pub unused : ℕ
  pub remove : ℕ
  pub repack : ℕ
  pub repackrm : ℕ

pub record SizeStats : Type 0 where
  pub used : ℕ
  pub duplicate : ℕ
  pub unused : ℕ
  pub remove : ℕ
  pub repack : ℕ
  pub repackrm : ℕ
  pub unref : ℕ
  pub uncompressed : ℕ

pub record PackStats : Type 0 where
  pub used : ℕ
  pub unused : ℕ
  pub partly_used : ℕ
  pub unref : ℕ
  pub keep : ℕ
  pub repack : ℕ
  pub remove : ℕ

pub record PruneStats : Type 0 where
  pub blobs : BlobStats
  pub size : SizeStats
  pub packs : PackStats

-- `var stats PruneStats`
abbrev pub zero_stats : PruneStats
zero_stats = record {
  blobs = record { used = 0; duplicate = 0; unused = 0; remove = 0; repack = 0; repackrm = 0 };
  size = record {
    used = 0;
    duplicate = 0;
    unused = 0;
    remove = 0;
    repack = 0;
    repackrm = 0;
    unref = 0;
    uncompressed = 0;
  };
  packs = record {
    used = 0;
    unused = 0;
    partly_used = 0;
    unref = 0;
    keep = 0;
    repack = 0;
    remove = 0;
  };
}

-- `packInfo`
pub record PackInfo : Type 0 where
  pub used_blobs : ℕ
  pub unused_blobs : ℕ
  pub duplicate_blobs : ℕ
  pub used_size : ℕ
  pub unused_size : ℕ
  pub tpe : BlobType
  pub uncompressed : Bool

-- the zero value that a map gives for a missing key
abbrev pub zero_info : PackInfo
zero_info = record {
  used_blobs = 0;
  unused_blobs = 0;
  duplicate_blobs = 0;
  used_size = 0;
  unused_size = 0;
  tpe = invalid_blob;
  uncompressed = false;
}

-- `indexPack[id]`
abbrev pub or_zero : Option PackInfo → PackInfo
or_zero none = zero_info
or_zero (some ip) = ip

abbrev pub IndexPack : Type 0
IndexPack = Map ContentId PackInfo

-- `index.AssociatedSet[uint8]`: a counter for each handle
abbrev pub Counts : Type 0
Counts = Map BlobHandle ℕ

-- The part of `Repository` that prune reads: its configuration, the blobs that the index lists, and
-- the pack files that the backend lists, with their sizes.
pub record Repo : Type 0 where
  pub version : ℕ
  pub connections : ℕ
  pub pack_size : ℕ
  pub index : List PackedBlob
  pub packs : List (ContentId × ℕ)

-- what a call fails with
pub data PruneError : Type 0 where
  too_few_connections needs_version_2 : PruneError
  used_blobs_failed : PruneError
  index_incomplete packs_missing size_not_matching : PruneError
  blobs_not_repacked repack_failed index_failed cancelled : PruneError

-- a call returns, fails or panics
pub data Outcome {ℓ} (A : Type ℓ) : Type ℓ where
  ok : A → Outcome A
  err : PruneError → Outcome A
  panic : Outcome A

infixl 10 ◌>>=◌
abbrev pub ◌>>=◌ {ℓ κ} : {A : Type ℓ} {B : Type κ} → Outcome A → (A → Outcome B) → Outcome B
ok a >>= f = f a
err e >>= f = err e
panic >>= f = panic

-- a chain that returns went through its first step
pub >>=-eq-ok {ℓ κ} :
    {A : Type ℓ} {B : Type κ} (m : Outcome A) (f : A → Outcome B) {b : B}
    → (m >>= f) ≡ ok b
    → (a : A) × (m ≡ ok a) × (f a ≡ ok b)
>>=-eq-ok (ok a) f e = (a, refl, e)
>>=-eq-ok (err x) f e = cc
>>=-eq-ok panic f e = cc
