-- ===== src/Policy/Partition.antt =====
-- `ApplyPolicy` keeps or removes every snapshot, once and in order.
use vlbe.Base.{◌≢◌, All, ◌≡◌, List, [], ◌∷◌, map}
use vlbe.Policy.{Snapshot, TimeLib, ExpirePolicy, Applied}
use vlbe.Policy.Reasoned.{IsTrue}

-- `Merges xs ys zs`: `zs` has the items of `xs` and of `ys`, each in their order
pub data Merges {A : Type 0} : List A → List A → List A → Type 0 where
  done : Merges [] [] []
  left : {x : A} {xs ys zs : List A} → Merges xs ys zs → Merges (x ∷ xs) ys (x ∷ zs)
  right : {y : A} {xs ys zs : List A} → Merges xs ys zs → Merges xs (y ∷ ys) (y ∷ zs)

-- every snapshot is kept or removed, and each kept one has its reasons, which are some and are true
abbrev pub IsComplete :
    {Time : Type 0}
    → TimeLib Time
    → ExpirePolicy
    → Time
    → List (Snapshot Time)
    → Applied Time
    → Type 0
IsComplete lib p latest list r =
    Merges r.keep r.remove list
    × (map (λ k. k.snapshot) r.reasons ≡ r.keep)
    × All (λ k. (k.matches ≢ []) × All (IsTrue lib p latest k.snapshot) k.matches) r.reasons
