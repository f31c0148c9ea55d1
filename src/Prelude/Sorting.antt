-- ===== src/Prelude/Sorting.antt =====
-- A stable insertion sort by a numeric key: ORDER BY one column, ascending. Rows with equal keys
-- keep the order in which the table holds them.
use Prim.Native.Nat.{ℕ, suc, ◌≤◌}
use mathlib.Core.Path.{◌≡◌, refl}
use mathlib.Core.Logic.{inl, inr}
use mathlib.Core.Option.{Option, none, some}
use mathlib.Core.List.{List, [], ◌∷◌}
use native.Mathlib.Omega.{arith}
use agent_eval_orchestrator.Prelude.Tests.{leb, leb→le, Bool-cases, if◌then◌else◌}
use agent_eval_orchestrator.Prelude.Lists.{length, All, All-imp}

module _ {ℓ} {A : Type ℓ} (key : A → ℕ) where
  abbrev pub insert_by : A → List A → List A
  insert_by a [] = a ∷ []
  insert_by a (x ∷ xs) =
      let rest = insert_by a xs in if leb (key a) (key x) then a ∷ x ∷ xs else x ∷ rest

  abbrev pub sort_by : List A → List A
  sort_by [] = []
  sort_by (x ∷ xs) = insert_by x (sort_by xs)

  -- Each element's key is at most the key of every later one.
  abbrev pub IsOrdered : List A → Type 0
  IsOrdered [] = Unit
  IsOrdered (x ∷ xs) = All (λ y. key x ≤ key y) xs × IsOrdered xs

module _ {ℓ κ} {A : Type ℓ} (key : A → ℕ) (P : A → Type κ) where
  pub All-insert_by : (a : A) (xs : List A) → P a → All P xs → All P (insert_by key a xs)
  All-insert_by a [] p h = (p, tt)
  All-insert_by a (x ∷ xs) p h = ground (arith, All-insert_by a xs p h.1)

  pub All-insert_by_inv : (a : A) (xs : List A) → All P (insert_by key a xs) → P a × All P xs
  All-insert_by_inv a [] h = h
  All-insert_by_inv a (x ∷ xs) h = elim (Bool-cases (leb (key a) (key x))) [
    | inl e ↦ (let k = rw e at h in (k.0, (k.1.0, k.1.1)))
    | inr e ↦ (let k = rw e at h in let r = All-insert_by_inv a xs k.1 in (r.0, (k.0, r.1)))
  ]

  pub All-sort_by : (xs : List A) → All P xs → All P (sort_by key xs)
  All-sort_by [] h = tt
  All-sort_by (x ∷ xs) h = All-insert_by x (sort_by key xs) h.0 (All-sort_by xs h.1)

  pub All-sort_by_inv : (xs : List A) → All P (sort_by key xs) → All P xs
  All-sort_by_inv [] h = tt
  All-sort_by_inv (x ∷ xs) h =
      let r = All-insert_by_inv x (sort_by key xs) h in (r.0, All-sort_by_inv xs r.1)

module _ {ℓ} {A : Type ℓ} (key : A → ℕ) where
  insert_by-IsOrdered :
      (a : A) (xs : List A) → IsOrdered key xs → IsOrdered key (insert_by key a xs)
  insert_by-IsOrdered a [] h = (tt, tt)
  insert_by-IsOrdered a (x ∷ xs) h = elim (Bool-cases (leb (key a) (key x))) [
    | inl e ↦ rw e (
        let le : key a ≤ key x = leb→le _ _ e in
        ((le, All-imp (λ y (q : key x ≤ key y). omega arith) xs h.0), h))
    | inr e ↦ rw e (
      All-insert_by key (λ y. key x ≤ key y) a xs (ground arith) h.0,
      insert_by-IsOrdered a xs h.1,
    )
  ]

  pub sort_by-IsOrdered : (xs : List A) → IsOrdered key (sort_by key xs)
  sort_by-IsOrdered [] = tt
  sort_by-IsOrdered (x ∷ xs) = insert_by-IsOrdered x (sort_by key xs) (sort_by-IsOrdered xs)

  pub length-insert_by : (a : A) (xs : List A) → length (insert_by key a xs) ≡ suc (length xs)
  length-insert_by a [] = refl
  length-insert_by a (x ∷ xs) = ground (arith, length-insert_by a xs)

  pub length-sort_by : (xs : List A) → length (sort_by key xs) ≡ length xs
  length-sort_by [] = refl
  length-sort_by (x ∷ xs) = omega (arith, length-insert_by x (sort_by key xs), length-sort_by xs)

module _ {ℓ} {A : Type ℓ} (key : A → ℕ) where
  -- ORDER BY one column DESC LIMIT 1: the first row with the greatest key.
  abbrev pub latest_by : List A → Option A
  latest_by [] = none
  latest_by (x ∷ xs) = elim (latest_by xs) [
    | none ↦ some x
    | some y ↦ if leb (key y) (key x) then some x else some y
  ]
