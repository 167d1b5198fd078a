-- ===== src/Index/Associated/Laws.antt =====
-- An associated set is a map.
use vlbe.Base.{
  ℕ, zero, suc, ◌<◌, ◌≡◌, refl, sym, ap, subst, ◌∙◌, ◌⊎◌, inl, inr, true, false, Bool-cases,
  Option-cases, List, [], ◌∷◌, Option, none, some, length, leb, ◌==◌, if◌then◌else◌, Map, lookup,
  insert, delete, lookup-insert, lookup-delete, arith,
}
use vlbe.Restic.Blob.{
  BlobHandle, BlobType, same_type, same_type_iff, same_handle, same_handle_iff, handle_key,
}
use vlbe.Index.Associated.{
  Cell, AssociatedSet, read_cell, write_cell, clear_cell, in_cells, get, with_cells, set_value,
  delete_handle,
}

read_cell-write_cell :
    {V : Type 0} (cells : List (Cell V)) (i j : ℕ) (v : V)
    → i < length cells
    → read_cell (write_cell cells i v) j ≡ (if i == j then some v else read_cell cells j)
unfolding read_cell write_cell
read_cell-write_cell [] i j v h = absurd (omega arith)
read_cell-write_cell (c ∷ cells) zero zero v h = refl
read_cell-write_cell (c ∷ cells) zero (suc j) v h = ground arith
read_cell-write_cell (c ∷ cells) (suc i) zero v h = ground arith
read_cell-write_cell (c ∷ cells) (suc i) (suc j) v h =
    ground (arith, read_cell-write_cell cells i j v (omega arith))

read_cell-clear_cell :
    {V : Type 0} (cells : List (Cell V)) (i j : ℕ)
    → read_cell (clear_cell cells i) j ≡ (if i == j then none else read_cell cells j)
unfolding read_cell clear_cell
read_cell-clear_cell [] i j = ground arith
read_cell-clear_cell (c ∷ cells) zero zero = refl
read_cell-clear_cell (c ∷ cells) zero (suc j) = ground arith
read_cell-clear_cell (c ∷ cells) (suc i) zero = ground arith
read_cell-clear_cell (c ∷ cells) (suc i) (suc j) = ground (arith, read_cell-clear_cell cells i j)

length-write_cell :
    {V : Type 0} (cells : List (Cell V)) (i : ℕ) (v : V)
    → length (write_cell cells i v) ≡ length cells
unfolding write_cell
length-write_cell [] i v = refl
length-write_cell (c ∷ cells) zero v = refl
length-write_cell (c ∷ cells) (suc i) v = ap suc (length-write_cell cells i v)

length-clear_cell :
    {V : Type 0} (cells : List (Cell V)) (i : ℕ) → length (clear_cell cells i) ≡ length cells
unfolding clear_cell
length-clear_cell [] i = refl
length-clear_cell (c ∷ cells) zero = refl
length-clear_cell (c ∷ cells) (suc i) = ap suc (length-clear_cell cells i)

-- two handles of one type at one offset are the same
abbrev pub IsInjective : (BlobHandle → Option ℕ) → Type 0
IsInjective blob_index =
    (g h : BlobHandle) (i : ℕ)
    → blob_index g ≡ some i
    → blob_index h ≡ some i
    → g.tpe ≡ h.tpe
    → g ≡ h

module _ {V : Type 0} (blob_index : BlobHandle → Option ℕ)
    (injective : IsInjective blob_index) where
  in_cells-none :
      (a : AssociatedSet V) (g : BlobHandle) → blob_index g ≡ none → in_cells blob_index a g ≡ none
  unfolding in_cells
  in_cells-none a g e = rw (in_cells, e) refl

  in_cells-some :
      (a : AssociatedSet V) (g : BlobHandle) (j : ℕ)
      → blob_index g ≡ some j
      → in_cells blob_index a g
        ≡ (if leb (length (a.by_type g.tpe)) j then none else read_cell (a.by_type g.tpe) j)
  unfolding in_cells
  in_cells-some a g j e = rw (in_cells, e) refl

  -- replacing the cell of `h` by `w` is seen by `h` alone
  in_cells-with_cells :
      (a : AssociatedSet V) (g h : BlobHandle) (i : ℕ) (cells : List (Cell V)) (w : Option V)
      → blob_index h ≡ some i
      → i < length (a.by_type h.tpe)
      → length cells ≡ length (a.by_type h.tpe)
      → ((j : ℕ) → read_cell cells j ≡ (if i == j then w else read_cell (a.by_type h.tpe) j))
      → in_cells blob_index (with_cells blob_index a h.tpe cells) g
        ≡ (if same_handle h g then w else in_cells blob_index a g)
  unfolding with_cells
  in_cells-with_cells a g h i cells w at room size reads = elim (Option-cases (blob_index g)) [
    | inl absent ↦
        let apart : same_handle h g ≡ false = ground (arith, same_handle_iff h g, ap blob_index) in
        rw apart (
          in_cells-none (with_cells blob_index a h.tpe cells) g absent
          ∙ sym (in_cells-none a g absent))
    | inr (j, there) ↦
        let new = in_cells-some (with_cells blob_index a h.tpe cells) g j there in
        let old = in_cells-some a g j there in
        elim (Bool-cases (same_type h.tpe g.tpe)) [
          | inr other ↦
              let apart : same_handle h g ≡ false =
                ground (arith, same_handle_iff h g, same_type_iff h.tpe g.tpe) in
              rw apart (new ∙ rw other (sym old))
          | inl same ↦
              let types : h.tpe ≡ g.tpe = (same_type_iff h.tpe g.tpe).0 same in
              let kept = a.by_type h.tpe in
              let new' : in_cells blob_index (with_cells blob_index a h.tpe cells) g
                  ≡ (if leb (length cells) j then none else read_cell cells j) =
                new ∙ rw same refl in
              let old' : in_cells blob_index a g
                  ≡ (if leb (length kept) j then none else read_cell kept j) =
                old
                ∙ ap (λ c. if leb (length c) j then none else read_cell c j)
                    (ap a.by_type (sym types)) in
              elim (Bool-cases (i == j)) [
                | inl here ↦
                    let one : i ≡ j = ground arith in
                    let handles : h ≡ g = injective h g j (at ∙ ap some one) there types in
                    let together : same_handle h g ≡ true = (same_handle_iff h g).1 handles in
                    let reached : leb (length cells) j ≡ false = ground (arith, size, one) in
                    rw together (new' ∙ rw reached (reads j ∙ rw here refl))
                | inr elsewhere ↦
                    let apart : same_handle h g ≡ false =
                      ground (arith, same_handle_iff h g, ap blob_index, at, there) in
                    rw apart (
                      new'
                      ∙ rw size (
                          ap (λ o. if leb (length kept) j then none else o)
                            (reads j ∙ rw elsewhere refl)
                          ∙ sym old'))
              ]
        ]
  ]

  overflowing : AssociatedSet V → Map BlobHandle V → AssociatedSet V
  overflowing a m = record { by_type = a.by_type; overflow = m }

  get-overflowing :
      (a : AssociatedSet V) (m : Map BlobHandle V) (g : BlobHandle)
      → get blob_index (overflowing a m) g ≡ (elim (lookup g m) as (λ _. Option V) [
        | some v ↦ some v
        | none ↦ in_cells blob_index a g
      ])
  unfolding get overflowing in_cells
  get-overflowing a m g = refl

  get-with_cells :
      (a : AssociatedSet V) (t : BlobType) (cells : List (Cell V)) (g : BlobHandle)
      → get blob_index (with_cells blob_index a t cells) g
        ≡ (elim (lookup g a.overflow) as (λ _. Option V) [
          | some v ↦ some v
          | none ↦ in_cells blob_index (with_cells blob_index a t cells) g
        ])
  unfolding get with_cells
  get-with_cells a t cells g = refl

  get-known :
      (a : AssociatedSet V) (g : BlobHandle)
      → get blob_index a g ≡ (elim (lookup g a.overflow) as (λ _. Option V) [
        | some v ↦ some v
        | none ↦ in_cells blob_index a g
      ])
  unfolding get
  get-known a g = refl

  -- the two ways of `Set`
  set_value-cases :
      (a : AssociatedSet V) (h : BlobHandle) (v : V)
      → ((set_value blob_index a h v ≡ overflowing a (insert h v a.overflow))
          × (((w : V) × (lookup h a.overflow ≡ some w)) ⊎ (in_cells blob_index a h ≡ none)))
        ⊎ ((i : ℕ) × (lookup h a.overflow ≡ none)
            × (blob_index h ≡ some i)
            × (i < length (a.by_type h.tpe))
            × (set_value blob_index a h v
                ≡ with_cells blob_index a h.tpe (write_cell (a.by_type h.tpe) i v)))
  unfolding overflowing set_value insert
  set_value-cases a h v = elim (Option-cases (lookup h a.overflow)) [
    | inr (w, found) ↦ inl (rw (set_value, found) refl, inl (w, found))
    | inl absent ↦ elim (Option-cases (blob_index h)) [
      | inl unknown ↦ inl (rw (set_value, absent, unknown) refl, inr (in_cells-none a h unknown))
      | inr (i, at) ↦ elim (Bool-cases (leb (length (a.by_type h.tpe)) i)) [
        | inl beyond ↦
            inl (
              rw (set_value, absent, at, beyond) refl,
              inr (in_cells-some a h i at ∙ rw beyond refl),
            )
        | inr within ↦ inr (i, absent, at, ground arith, rw (set_value, absent, at, within) refl)
      ]
    ]
  ]

  -- the three ways of `Delete`
  delete_handle-cases :
      (a : AssociatedSet V) (h : BlobHandle)
      → ((w : V) × (lookup h a.overflow ≡ some w)
          × (delete_handle blob_index a h ≡ overflowing a (delete h a.overflow)))
        ⊎ (((lookup h a.overflow ≡ none)
              × (in_cells blob_index a h ≡ none)
              × (delete_handle blob_index a h ≡ a))
            ⊎ ((i : ℕ) × (lookup h a.overflow ≡ none)
                × (blob_index h ≡ some i)
                × (i < length (a.by_type h.tpe))
                × (delete_handle blob_index a h
                    ≡ with_cells blob_index a h.tpe (clear_cell (a.by_type h.tpe) i))))
  unfolding overflowing delete_handle
  delete_handle-cases a h = elim (Option-cases (lookup h a.overflow)) [
    | inr (w, found) ↦ inl (w, found, rw (delete_handle, found) refl)
    | inl absent ↦ elim (Option-cases (blob_index h)) [
      | inl unknown ↦
          inr (inl (absent, in_cells-none a h unknown, rw (delete_handle, absent, unknown) refl))
      | inr (i, at) ↦ elim (Bool-cases (leb (length (a.by_type h.tpe)) i)) [
        | inl beyond ↦ inr (
            inl (
              absent,
              in_cells-some a h i at ∙ rw beyond refl,
              rw (delete_handle, absent, at, beyond) refl,
            ))
        | inr within ↦
            inr (inr (i, absent, at, ground arith, rw (delete_handle, absent, at, within) refl))
      ]
    ]
  ]

  in_cells-write :
      (a : AssociatedSet V) (g h : BlobHandle) (i : ℕ) (v : V)
      → blob_index h ≡ some i
      → i < length (a.by_type h.tpe)
      → in_cells blob_index (with_cells blob_index a h.tpe (write_cell (a.by_type h.tpe) i v)) g
        ≡ (if same_handle h g then some v else in_cells blob_index a g)
  in_cells-write a g h i v at room =
      in_cells-with_cells a g h i (write_cell (a.by_type h.tpe) i v) (some v) at room
        (length-write_cell (a.by_type h.tpe) i v)
        (λ j. read_cell-write_cell (a.by_type h.tpe) i j v room)

  in_cells-clear :
      (a : AssociatedSet V) (g h : BlobHandle) (i : ℕ)
      → blob_index h ≡ some i
      → i < length (a.by_type h.tpe)
      → in_cells blob_index (with_cells blob_index a h.tpe (clear_cell (a.by_type h.tpe) i)) g
        ≡ (if same_handle h g then none else in_cells blob_index a g)
  in_cells-clear a g h i at room =
      in_cells-with_cells a g h i (clear_cell (a.by_type h.tpe) i) none at room
        (length-clear_cell (a.by_type h.tpe) i) (λ j. read_cell-clear_cell (a.by_type h.tpe) i j)

  -- the handle is not both in the arrays and in the overflow
  abbrev pub IsSingle : AssociatedSet V → BlobHandle → Type 0
  IsSingle a g = (lookup g a.overflow ≡ none) ⊎ (in_cells blob_index a g ≡ none)

  in_cells-overflowing :
      (a : AssociatedSet V) (m : Map BlobHandle V) (g : BlobHandle)
      → in_cells blob_index (overflowing a m) g ≡ in_cells blob_index a g
  unfolding overflowing in_cells
  in_cells-overflowing a m g = refl

  set_value-IsSingle :
      (a : AssociatedSet V) (g h : BlobHandle) (v : V)
      → IsSingle a g
      → IsSingle (set_value blob_index a h v) g
  unfolding overflowing with_cells
  set_value-IsSingle a g h v single = elim (set_value-cases a h v) [
    | inl (put, how) ↦
        subst (λ b. IsSingle b g) (sym put)
          (elim (Bool-cases (same_handle h g)) [
            | inl here ↦
                let one : h ≡ g = (same_handle_iff h g).0 here in
                let empty : in_cells blob_index a g ≡ none = elim how [
                  | inl (w, found) ↦
                      let found' = subst (λ k. lookup k a.overflow ≡ some w) one found in
                      elim single [ inl out ↦ absurd (ground arith) | inr e ↦ e ]
                  | inr e ↦ subst (λ k. in_cells blob_index a k ≡ none) one e
                ] in
                inr (in_cells-overflowing a (insert h v a.overflow) g ∙ empty)
            | inr other ↦ elim single [
              | inl out ↦ inl (lookup-insert h g v a.overflow ∙ rw other out)
              | inr e ↦ inr (in_cells-overflowing a (insert h v a.overflow) g ∙ e)
            ]
          ])
    | inr (i, absent, at, room, written) ↦
        subst (λ b. IsSingle b g) (sym written)
          (elim (Bool-cases (same_handle h g)) [
            | inl here ↦
                inl (subst (λ k. lookup k a.overflow ≡ none) ((same_handle_iff h g).0 here) absent)
            | inr other ↦ elim single [
              | inl out ↦ inl out
              | inr e ↦ inr (in_cells-write a g h i v at room ∙ rw other e)
            ]
          ])
  ]

  delete_handle-IsSingle :
      (a : AssociatedSet V) (g h : BlobHandle)
      → IsSingle a g
      → IsSingle (delete_handle blob_index a h) g
  unfolding overflowing with_cells
  delete_handle-IsSingle a g h single = elim (delete_handle-cases a h) [
    | inl (w, found, removed) ↦
        subst (λ b. IsSingle b g) (sym removed)
          (elim single [
            | inl out ↦ inl (ground (arith, lookup-delete h g a.overflow))
            | inr e ↦ inr (in_cells-overflowing a (delete h a.overflow) g ∙ e)
          ])
    | inr (inl (absent, empty, same)) ↦ subst (λ b. IsSingle b g) (sym same) single
    | inr (inr (i, absent, at, room, cleared)) ↦
        subst (λ b. IsSingle b g) (sym cleared)
          (elim single [
            | inl out ↦ inl out
            | inr e ↦ inr (ground (arith, in_cells-clear a g h i at room))
          ])
  ]

  -- `Set` is the insertion into a map: where no two handles of a type have one offset, what `Get` returns
  -- afterwards is the new value for the handle, and what it returned before for every other handle.
  pub get-set_value :
      (a : AssociatedSet V) (g h : BlobHandle) (v : V)
      → get blob_index (set_value blob_index a h v) g
        ≡ (if same_handle h g then some v else get blob_index a g)
  get-set_value a g h v = elim (set_value-cases a h v) [
    | inl (put, how) ↦
        ap (λ b. get blob_index b g) put
        ∙ get-overflowing a (insert h v a.overflow) g
        ∙ ground (arith, lookup-insert h g v a.overflow, get-known a g)
    | inr (i, absent, at, room, written) ↦
        ap (λ b. get blob_index b g) written
        ∙ get-with_cells a h.tpe (write_cell (a.by_type h.tpe) i v) g
        ∙ ground (arith, in_cells-write a g h i v at room, get-known a g, same_handle_iff h g)
  ]

  -- Where no two handles of a type have one offset, and the set does not hold the handle both in its
  -- arrays and in its overflow: `Delete` is the deletion from a map. `Get` finds nothing for the handle
  -- afterwards, and returns what it returned before for every other handle.
  pub get-delete_handle :
      (a : AssociatedSet V) (g h : BlobHandle)
      → IsSingle a h
      → get blob_index (delete_handle blob_index a h) g
        ≡ (if same_handle h g then none else get blob_index a g)
  get-delete_handle a g h single = elim (delete_handle-cases a h) [
    | inl (w, found, removed) ↦
        let empty : in_cells blob_index a h ≡ none = elim single [
          | inl out ↦ absurd (ground arith)
          | inr e ↦ e
        ] in
        let other : (same_handle h g ≡ true) → in_cells blob_index a g ≡ none =
          λ s. subst (λ k. in_cells blob_index a k ≡ none) ((same_handle_iff h g).0 s) empty in
        ap (λ b. get blob_index b g) removed
        ∙ get-overflowing a (delete h a.overflow) g
        ∙ ground (arith, lookup-delete h g a.overflow, get-known a g, other)
    | inr (inl (absent, empty, same)) ↦
        ap (λ b. get blob_index b g) same
        ∙ ground (
          arith,
          get-known a g,
          same_handle_iff h g,
          ap (λ k. in_cells blob_index a k),
          ap (λ k. lookup k a.overflow),
        )
    | inr (inr (i, absent, at, room, cleared)) ↦
        ap (λ b. get blob_index b g) cleared
        ∙ get-with_cells a h.tpe (clear_cell (a.by_type h.tpe) i) g
        ∙ ground (arith, in_cells-clear a g h i at room, get-known a g, same_handle_iff h g)
  ]

  -- `Set` and `Delete` keep it that way: where no two handles of a type have one offset, and the set does
  -- not hold a handle both in its arrays and in its overflow, it does not after `Set` or `Delete` of any
  -- handle.
  pub updates-IsSingle :
      (a : AssociatedSet V) (g h : BlobHandle) (v : V)
      → IsSingle a g
      → IsSingle (set_value blob_index a h v) g × IsSingle (delete_handle blob_index a h) g
  updates-IsSingle a g h v single =
      (set_value-IsSingle a g h v single, delete_handle-IsSingle a g h single)
