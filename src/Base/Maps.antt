-- ===== src/Base/Maps.antt =====
-- Go's maps and sets, as association lists over keys with a decidable equality.
use Prim.Native.Nat.{ℕ}
use mathlib.Core.Path.{◌≡◌, refl, subst}
use mathlib.Core.Logic.{◌↔◌, inl, inr}
use mathlib.Core.Bool.{Bool, true, false, not, ◌||◌, ◌&&◌}
use mathlib.Core.List.{List, [], ◌∷◌}
use mathlib.Core.Option.{Option, none, some}
use native.Mathlib.Omega.{arith}
use vlbe.Base.Lists.{All}
use vlbe.Base.Tests.{Bool-cases, if◌then◌else◌, ◌==◌, ==_iff}

-- What Go asks of a key: `==`.
pub record Key {ℓ} (K : Type ℓ) : Type ℓ where
  pub same : K → K → Bool
  pub same_iff : (a b : K) → (same a b ≡ true) ↔ (a ≡ b)

instance abbrev pub ℕ_key : Key ℕ
ℕ_key = record { same = ◌==◌; same_iff = ==_iff }

abbrev pub Map {ℓ κ} : Type ℓ → Type κ → Type (ℓ ⊔ κ)
Map K V = List (K × V)

module _ {ℓ κ} {K : Type ℓ} {V : Type κ} ⦃key : Key K⦄ where
  -- `v, ok := m[k]`
  unfoldable pub lookup : K → Map K V → Option V
  lookup k [] = none
  lookup k ((j, v) ∷ m) = if key.same j k then some v else lookup k m

  -- `m[k] = v`: an old entry is overwritten
  unfoldable pub insert : K → V → Map K V → Map K V
  insert k v [] = (k, v) ∷ []
  insert k v ((j, w) ∷ m) = if key.same j k then (j, v) ∷ m else (j, w) ∷ insert k v m

  -- `delete(m, k)`
  unfoldable pub delete : K → Map K V → Map K V
  delete k [] = []
  delete k ((j, w) ∷ m) = let rest = delete k m in if key.same j k then rest else (j, w) ∷ rest

  pub lookup-insert :
      (k j : K) (v : V) (m : Map K V)
      → lookup j (insert k v m) ≡ (if key.same k j then some v else lookup j m)
  unfolding lookup insert
  lookup-insert k j v [] = refl
  lookup-insert k j v ((i, w) ∷ m) =
      ground (arith, key.same_iff k j, key.same_iff i k, key.same_iff i j, lookup-insert k j v m)

  pub lookup-delete :
      (k j : K) (m : Map K V) → lookup j (delete k m) ≡ (if key.same k j then none else lookup j m)
  unfolding lookup delete
  lookup-delete k j [] = ground arith
  lookup-delete k j ((i, w) ∷ m) =
      ground (arith, key.same_iff k j, key.same_iff i k, key.same_iff i j, lookup-delete k j m)

-- A set of keys, each in the list once.
module _ {ℓ} {K : Type ℓ} ⦃key : Key K⦄ where
  -- `s.Has(k)`
  unfoldable pub has : K → List K → Bool
  has k [] = false
  has k (j ∷ s) = key.same j k || has k s

  -- `s.Insert(k)`
  unfoldable pub add : K → List K → List K
  add k s = if has k s then s else k ∷ s

  -- `s.Delete(k)`
  unfoldable pub remove : K → List K → List K
  remove k [] = []
  remove k (j ∷ s) = let rest = remove k s in if key.same j k then rest else j ∷ rest

  -- `s.Sub(t)`
  unfoldable pub sub : List K → List K → List K
  sub [] t = []
  sub (k ∷ s) t = let rest = sub s t in if has k t then rest else k ∷ rest

  -- `s.Merge(t)`
  unfoldable pub merge : List K → List K → List K
  merge s [] = s
  merge s (k ∷ t) = merge (add k s) t

  pub has-add : (k j : K) (s : List K) → has j (add k s) ≡ (key.same k j || has j s)
  unfolding add has
  has-add k j s = ground (arith, key.same_iff k j)

  pub has-remove : (k j : K) (s : List K) → has j (remove k s) ≡ (not (key.same k j) && has j s)
  unfolding remove has
  has-remove k j [] = ground arith
  has-remove k j (i ∷ s) =
      ground (arith, key.same_iff i k, key.same_iff k j, key.same_iff i j, has-remove k j s)

  pub has-merge : (s t : List K) (j : K) → has j (merge s t) ≡ (has j s || has j t)
  unfolding merge has
  has-merge s [] j = ground arith
  has-merge s (k ∷ t) j = ground (arith, has-merge (add k s) t j, has-add k j s)

-- No key stands twice, as in every map that `insert` builds.
module _ {ℓ κ} {K : Type ℓ} {V : Type κ} ⦃key : Key K⦄ where
  abbrev pub Unique : Map K V → Type κ
  Unique [] = Unit
  Unique ((k, v) ∷ m) = (lookup k m ≡ none) × Unique m

  pub insert-Unique : (k : K) (v : V) (m : Map K V) → Unique m → Unique (insert k v m)
  unfolding insert lookup
  insert-Unique k v [] u = (refl, tt)
  insert-Unique k v ((j, w) ∷ m) (fresh, u) = elim (Bool-cases (key.same j k)) [
    | inl same ↦ rw same (fresh, u)
    | inr other ↦ rw other (
      ground (arith, lookup-insert k j v m, key.same_iff k j, key.same_iff j k),
      insert-Unique k v m u,
    )
  ]

  lookup-delete_fresh : (k j : K) (m : Map K V) → lookup j m ≡ none → lookup j (delete k m) ≡ none
  lookup-delete_fresh k j m e = ground (arith, lookup-delete k j m)

  pub delete-Unique : (k : K) (m : Map K V) → Unique m → Unique (delete k m)
  unfolding delete
  delete-Unique k [] u = tt
  delete-Unique k ((j, w) ∷ m) (fresh, u) = elim (Bool-cases (key.same j k)) [
    | inl same ↦ rw same (delete-Unique k m u)
    | inr other ↦ rw other (lookup-delete_fresh k j m fresh, delete-Unique k m u)
  ]

  -- A claim about every entry is a claim about every lookup.
  pub All-of_lookup {μ} :
      (P : V → Type μ) (m : Map K V)
      → Unique m
      → ((k : K) (v : V) → lookup k m ≡ some v → P v)
      → All (λ e. P e.1) m
  unfolding lookup
  All-of_lookup P [] u h = tt
  All-of_lookup P ((j, w) ∷ m) (fresh, u) h = (
    h j w (ground (arith, key.same_iff j j)),
    All-of_lookup P m u (λ k v e. h k v (ground (arith, key.same_iff j k))),
  )

  pub lookup_of_All {μ} :
      (P : V → Type μ) (m : Map K V) (k : K) (v : V)
      → All (λ e. P e.1) m
      → lookup k m ≡ some v
      → P v
  unfolding lookup
  lookup_of_All P [] k v a e = absurd (cc)
  lookup_of_All P ((j, w) ∷ m) k v a e = elim (Bool-cases (key.same j k)) [
    | inl same ↦ subst P (ground arith) a.0
    | inr other ↦ lookup_of_All P m k v a.1 (ground arith)
  ]
