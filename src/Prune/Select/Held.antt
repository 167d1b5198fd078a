-- ===== src/Prune/Select/Held.antt =====
-- The second and third pass of `packInfoFromIndex`: a blob that counts as used stands in a pack
-- with used blobs.
use vlbe.Base.{
  ℕ, ◌+◌, ◌≤◌, ◌<◌, ◌≡◌, ◌≢◌, refl, ◌⊎◌, inl, inr, ◌&&◌, List, [], ◌∷◌, some, Option-cases,
  Bool-cases, arith, if◌then◌else◌, ◌==◌, lookup, lookup-insert, length, In, add64, add64-eq-add,
  word, ℕ_key,
}
use vlbe.Restic.Blob.{ContentId, BlobHandle, PackedBlob, same_handle, same_handle_iff, handle_key}
use vlbe.Prune.Types.{PackInfo, IndexPack, or_zero, Counts}
use vlbe.Prune.Select.{
  Selection, Picking, classify_step, classify, classified, or_none, pick_step, pick_copy, pick,
  takes_copy, use_copy, pass_over,
}
use vlbe.Prune.Select.Copies.{copies}

-- the number of used blobs of a pack
abbrev pub used_of : IndexPack → ContentId → ℕ
used_of m p = (or_zero (lookup p m)).used_blobs

used-classified :
    (n : ℕ) (b : PackedBlob) (ip : PackInfo)
    → (classified n b ip).used_blobs ≡ (if n == 1 then add64 ip.used_blobs 1 else ip.used_blobs)
unfolding classified
used-classified n b ip = ground arith

-- the second pass counts a blob with one copy as used
used_of-classify_step :
    (counts : Counts) (b : PackedBlob) (st : Selection) (p : ContentId)
    → used_of (classify_step counts b st).index_pack p ≡ (
        if (b.pack_id == p) && (or_none (lookup b.handle counts) == 1)
        then add64 (used_of st.index_pack b.pack_id) 1
        else used_of st.index_pack p)
unfolding classify_step
used_of-classify_step counts b st p =
    let n = or_none (lookup b.handle counts) in
    let ip = or_zero (lookup b.pack_id st.index_pack) in
    ground
      (arith, lookup-insert b.pack_id p (classified n b ip) st.index_pack, used-classified n b ip)

-- the third pass counts the copy that it picks as used
used_of-pick_copy :
    (count : ℕ) (b : PackedBlob) (st : Picking) (p : ContentId)
    → used_of (pick_copy count b st).index_pack p ≡ (
        if (b.pack_id == p) && takes_copy count (or_zero (lookup b.pack_id st.index_pack))
        then add64 (used_of st.index_pack b.pack_id) 1
        else used_of st.index_pack p)
unfolding pick_copy use_copy
used_of-pick_copy count b st p =
    let ip = or_zero (lookup b.pack_id st.index_pack) in
    ground (
      arith,
      lookup-insert b.pack_id p (use_copy b.length ip) st.index_pack,
      lookup-insert b.pack_id p ip st.index_pack,
    )

-- No pack has more than `k` used blobs.
abbrev pub Bounded : ℕ → IndexPack → Type 0
Bounded k m = (p : ContentId) → used_of m p ≤ k

-- Some copy of `h` stands in a pack with used blobs.
abbrev pub Held : IndexPack → List PackedBlob → BlobHandle → Type 0
Held m index h = (b : PackedBlob) × In b index × (b.handle ≡ h) × (0 < used_of m b.pack_id)

pub Held-mono :
    (m m' : IndexPack) (index : List PackedBlob) (h : BlobHandle)
    → ((p : ContentId) → used_of m p ≤ used_of m' p)
    → Held m index h
    → Held m' index h
Held-mono m m' index h grows (b, inside, e, used) = (b, inside, e, omega (arith, grows b.pack_id))

module _ (counts : Counts) where
  classify_step_grows :
      (b : PackedBlob) (st : Selection) (k : ℕ)
      → Bounded k st.index_pack
      → k + 1 < word
      → (p : ContentId)
      → (used_of st.index_pack p ≤ used_of (classify_step counts b st).index_pack p)
        × (used_of (classify_step counts b st).index_pack p ≤ k + 1)
  classify_step_grows b st k bound fits p = ground (
    arith,
    used_of-classify_step counts b st p,
    bound p,
    bound b.pack_id,
    add64-eq-add (used_of st.index_pack b.pack_id) 1,
  )

  pub classify_grows :
      (bs : List PackedBlob) (st : Selection) (k : ℕ)
      → Bounded k st.index_pack
      → k + length bs < word
      → (p : ContentId)
      → (used_of st.index_pack p ≤ used_of (classify counts bs st).index_pack p)
        × (used_of (classify counts bs st).index_pack p ≤ k + length bs)
  unfolding classify
  classify_grows [] st k bound fits p = (omega arith, omega (arith, bound p))
  classify_grows (b ∷ bs) st k bound fits p =
      let step = classify_step_grows b st k bound (omega arith) in
      let rest =
        classify_grows bs (classify_step counts b st) (k + 1) (λ q. (step q).1) (omega arith) p in
      (omega (arith, (step p).0, rest.0), omega (arith, rest.1))

  classify_step_here :
      (b : PackedBlob) (st : Selection) (k : ℕ)
      → Bounded k st.index_pack
      → k + 1 < word
      → lookup b.handle counts ≡ some 1
      → 0 < used_of (classify_step counts b st).index_pack b.pack_id
  classify_step_here b st k bound fits e = ground (
    arith,
    used_of-classify_step counts b st b.pack_id,
    bound b.pack_id,
    add64-eq-add (used_of st.index_pack b.pack_id) 1,
  )

  -- After the second pass every blob with one copy is held.
  pub classify-Held :
      (bs : List PackedBlob) (st : Selection) (k : ℕ) (h : BlobHandle)
      → Bounded k st.index_pack
      → k + length bs < word
      → lookup h counts ≡ some 1
      → 0 < copies h bs
      → Held (classify counts bs st).index_pack bs h
  unfolding classify copies
  classify-Held [] st k h bound fits e some_copy = absurd (omega arith)
  classify-Held (b ∷ bs) st k h bound fits e some_copy =
      let step = classify_step_grows b st k bound (omega arith) in
      let st' = classify_step counts b st in
      elim (Bool-cases (same_handle b.handle h)) [
        | inl same ↦
            let is_h : b.handle ≡ h = (same_handle_iff b.handle h).0 same in
            let here = classify_step_here b st k bound (omega arith) (rw is_h e) in
            (
              b,
              inl refl,
              is_h,
              omega (
                arith,
                here,
                (classify_grows bs st' (k + 1) (λ q. (step q).1) (omega arith) b.pack_id).0,
              ),
            )
        | inr other ↦
            let (c, inside, is_h, used) =
              classify-Held bs st' (k + 1) h (λ q. (step q).1) (omega arith) e (ground arith) in
            (c, inr inside, is_h, used)
      ]

pass_over-ne-one : (count : ℕ) → pass_over count ≢ 1
unfolding pass_over
pass_over-ne-one count = ground arith

pick_step_grows :
    (b : PackedBlob) (st : Picking) (k : ℕ)
    → Bounded k st.index_pack
    → k + 1 < word
    → (p : ContentId)
    → (used_of st.index_pack p ≤ used_of (pick_step b st).index_pack p)
      × (used_of (pick_step b st).index_pack p ≤ k + 1)
unfolding pick_step
pick_step_grows b st k bound fits p = ground (
  arith,
  used_of-pick_copy (or_none (lookup b.handle st.counts)) b st p,
  bound p,
  bound b.pack_id,
  add64-eq-add (used_of st.index_pack b.pack_id) 1,
)

pub pick_grows :
    (bs : List PackedBlob) (st : Picking) (k : ℕ)
    → Bounded k st.index_pack
    → k + length bs < word
    → (p : ContentId) → used_of st.index_pack p ≤ used_of (pick bs st).index_pack p
unfolding pick
pick_grows [] st k bound fits p = omega arith
pick_grows (b ∷ bs) st k bound fits p =
    let step = pick_step_grows b st k bound (omega arith) in
    omega
      (arith, (step p).0, pick_grows bs (pick_step b st) (k + 1) (λ q. (step q).1) (omega arith) p)

-- Every blob with the counter 1 is held.
abbrev pub OnesHeld : List PackedBlob → Picking → Type 0
OnesHeld index st = (h : BlobHandle) → lookup h st.counts ≡ some 1 → Held st.index_pack index h

pub counts-pick_copy :
    (count : ℕ) (b : PackedBlob) (st : Picking) (h : BlobHandle)
    → lookup h (pick_copy count b st).counts ≡ (
        if same_handle b.handle h
        then some (
            if takes_copy count (or_zero (lookup b.pack_id st.index_pack))
            then 1
            else pass_over count)
        else lookup h st.counts)
unfolding pick_copy
counts-pick_copy count b st h = ground (
  arith,
  lookup-insert b.handle h 1 st.counts,
  lookup-insert b.handle h (pass_over count) st.counts,
)

-- A step leaves all as it is, or picks or passes over a copy of a duplicate.
pub pick_step-cases :
    (b : PackedBlob) (st : Picking)
    → ((pick_step b st ≡ st) × ((n : ℕ) → lookup b.handle st.counts ≡ some n → n ≡ 1))
      ⊎ ((n : ℕ) × (lookup b.handle st.counts ≡ some n)
          × (n ≢ 1)
          × (pick_step b st ≡ pick_copy n b st))
unfolding pick_step
pick_step-cases b st = elim (Option-cases (lookup b.handle st.counts)) [
  | inl unused ↦ inl (rw (unused, pick_step), λ n e. ground arith)
  | inr (n, e) ↦ elim (Bool-cases (n == 1)) [
    | inl one ↦ inl (rw (e, pick_step) (rw one), λ m e'. ground arith)
    | inr more ↦ inr (n, e, ground arith, rw (e, pick_step) (rw more))
  ]
]

module _ (index : List PackedBlob) where
  pick_copy_held :
      (count : ℕ) (b : PackedBlob) (st : Picking) (k : ℕ)
      → Bounded k st.index_pack
      → k + 1 < word
      → In b index
      → OnesHeld index st
      → OnesHeld index (pick_copy count b st)
  pick_copy_held count b st k bound fits inside held h e =
      let ip = or_zero (lookup b.pack_id st.index_pack) in
      elim (Bool-cases (same_handle b.handle h)) [
        | inl same ↦ (
          b,
          inside,
          (same_handle_iff b.handle h).0 same,
          ground (
            arith,
            counts-pick_copy count b st h,
            pass_over-ne-one count,
            used_of-pick_copy count b st b.pack_id,
            bound b.pack_id,
            add64-eq-add (used_of st.index_pack b.pack_id) 1,
          ),
        )
        | inr other ↦
            Held-mono st.index_pack (pick_copy count b st).index_pack index h
              (λ p. ground (
                arith,
                used_of-pick_copy count b st p,
                bound p,
                bound b.pack_id,
                add64-eq-add (used_of st.index_pack b.pack_id) 1,
              ))
              (held h (ground (arith, counts-pick_copy count b st h)))
      ]

  pick_step_held :
      (b : PackedBlob) (st : Picking) (k : ℕ)
      → Bounded k st.index_pack
      → k + 1 < word
      → In b index
      → OnesHeld index st
      → OnesHeld index (pick_step b st)
  pick_step_held b st k bound fits inside held = elim (pick_step-cases b st) [
    | inl (same, _) ↦ rw same held
    | inr (n, _, _, picked) ↦ rw picked (pick_copy_held n b st k bound fits inside held)
  ]

  -- The third pass keeps every blob with the counter 1 held.
  pub pick_held :
      (bs : List PackedBlob) (st : Picking) (k : ℕ)
      → Bounded k st.index_pack
      → k + length bs < word
      → ((b : PackedBlob) → In b bs → In b index)
      → OnesHeld index st
      → OnesHeld index (pick bs st)
  unfolding pick
  pick_held [] st k bound fits inside held = held
  pick_held (b ∷ bs) st k bound fits inside held =
      pick_held bs (pick_step b st) (k + 1) (λ p. (pick_step_grows b st k bound (omega arith) p).1)
        (omega arith) (λ c i. inside c (inr i))
        (pick_step_held b st k bound (omega arith) (inside b (inl refl)) held)
