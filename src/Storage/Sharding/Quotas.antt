-- ===== src/Storage/Sharding/Quotas.antt =====
-- The quotas of _weighted_case_groups (storage/store.py) add up to the number of cases.
use agent_eval_orchestrator.Prelude.{
  ℕ, zero, suc, ◌≡◌, ◌≤◌, ◌<◌, ◌+◌, ◌-◌, refl, inl, inr, Bool-cases, List, [], ◌∷◌, arith, map,
  length, take, All, leb,
}
use agent_eval_orchestrator.Storage.Sharding.{
  Floats, sum_from, shares, sum_nat, fractions, insert_desc, sort_desc, bump_at, bump_all, slice_to,
  quotas_of,
}

sum-bump_at : (i : ℕ) (qs : List ℕ) → i < length qs → sum_nat (bump_at i qs) ≡ suc (sum_nat qs)
unfolding bump_at sum_nat
sum-bump_at i [] h = omega (arith, h)
sum-bump_at zero (q ∷ qs) h = omega arith
sum-bump_at (suc i) (q ∷ qs) h = omega (arith, sum-bump_at i qs (omega (arith, h)))

length-bump_at : (i : ℕ) (qs : List ℕ) → length (bump_at i qs) ≡ length qs
unfolding bump_at
length-bump_at i [] = refl
length-bump_at zero (q ∷ qs) = refl
length-bump_at (suc i) (q ∷ qs) = omega (arith, length-bump_at i qs)

pub length-map {ℓ κ} :
    {A : Type ℓ} {B : Type κ} (f : A → B) (xs : List A) → length (map f xs) ≡ length xs
length-map f [] = refl
length-map f (x ∷ xs) = omega (arith, length-map f xs)

length-take {ℓ} : {A : Type ℓ} (n : ℕ) (xs : List A) → n ≤ length xs → length (take n xs) ≡ n
length-take zero xs h = refl
length-take (suc n) [] h = omega (arith, h)
length-take (suc n) (x ∷ xs) h = omega (arith, length-take n xs (omega (arith, h)))

module _ {F : Type 0} (fl : Floats F) where
  -- Each index is one of a worker.
  abbrev IsIndex : ℕ → ℕ × F → Type 0
  IsIndex n entry = entry.0 < n

  bump_all-lem :
      (order : List (ℕ × F)) (qs : List ℕ)
      → All (IsIndex (length qs)) order
      → (sum_nat (bump_all fl order qs) ≡ length order + sum_nat qs)
        × (length (bump_all fl order qs) ≡ length qs)
  unfolding bump_all
  bump_all-lem [] qs h = (omega arith, refl)
  bump_all-lem (entry ∷ order) qs h =
      let same = length-bump_at entry.0 qs in
      let rest = bump_all-lem order (bump_at entry.0 qs) (rw same h.1) in
      (omega (arith, rest.0, sum-bump_at entry.0 qs h.0), omega (arith, rest.1, same))

  fractions-All :
      (i : ℕ) (xs : List F) (n : ℕ)
      → i + length xs ≤ n
      → All (IsIndex n) (fractions fl i xs) × (length (fractions fl i xs) ≡ length xs)
  unfolding fractions
  fractions-All i [] n h = (tt, refl)
  fractions-All i (x ∷ xs) n h =
      let rest = fractions-All (suc i) xs n (omega (arith, h)) in
      ((omega (arith, h), rest.0), omega (arith, rest.1))

  insert-All :
      (P : ℕ × F → Type 0) (x : ℕ × F) (xs : List (ℕ × F))
      → P x
      → All P xs
      → All P (insert_desc fl x xs) × (length (insert_desc fl x xs) ≡ suc (length xs))
  unfolding insert_desc
  insert-All P x [] p h = ((p, tt), refl)
  insert-All P x (y ∷ ys) p h =
      let rest = insert-All P x ys p h.1 in
      elim (Bool-cases (fl.lt x.1 y.1)) [
        | inl e ↦ rw e ((h.0, rest.0), omega (arith, rest.1))
        | inr e ↦ rw e ((p, (h.0, h.1)), refl)
      ]

  sort-All :
      (P : ℕ × F → Type 0) (xs : List (ℕ × F))
      → All P xs
      → All P (sort_desc fl xs) × (length (sort_desc fl xs) ≡ length xs)
  unfolding sort_desc
  sort-All P [] h = (tt, refl)
  sort-All P (x ∷ xs) h =
      let rest = sort-All P xs h.1 in
      let here = insert-All P x (sort_desc fl xs) h.0 rest.0 in
      (here.0, omega (arith, here.1, rest.1))

  take-All : (P : ℕ × F → Type 0) (n : ℕ) (xs : List (ℕ × F)) → All P xs → All P (take n xs)
  take-All P zero xs h = tt
  take-All P (suc n) [] h = tt
  take-All P (suc n) (x ∷ xs) h = (h.0, take-All P n xs h.1)

  slice_to-le :
      (n sum : ℕ) (order : List (ℕ × F)) → sum ≤ n → slice_to fl n sum order ≡ take (n - sum) order
  unfolding slice_to
  slice_to-le n sum order h = elim (Bool-cases (leb sum n)) [
    | inl e ↦ rw e refl
    | inr e ↦ absurd (ground (arith, e, h))
  ]

  -- `quotas` before the rest is given out.
  abbrev pub floors : ℕ → List F → List ℕ
  floors n weights = map fl.truncated (shares fl n (sum_from fl (fl.of_nat 0) weights) weights)

  pub quotas_of-lem :
      (n : ℕ) (weights : List F)
      → sum_nat (floors n weights) ≤ n
      → n ≤ sum_nat (floors n weights) + length weights
      → (sum_nat (quotas_of fl n weights) ≡ n) × (length (quotas_of fl n weights) ≡ length weights)
  unfolding quotas_of
  quotas_of-lem n weights h k =
      let exact = shares fl n (sum_from fl (fl.of_nat 0) weights) weights in
      let qs = map fl.truncated exact in
      let same : length exact ≡ length weights = length-map _ weights in
      let same_qs : length qs ≡ length exact = length-map fl.truncated exact in
      let all = fractions-All 0 exact (length qs) (omega (arith, same_qs)) in
      let sorted = sort-All (IsIndex (length qs)) (fractions fl 0 exact) all.0 in
      let order = sort_desc fl (fractions fl 0 exact) in
      let some_of = take (n - sum_nat qs) order in
      let many : length some_of ≡ n - sum_nat qs =
        length-take (n - sum_nat qs) order (omega (arith, sorted.1, all.1, same, k)) in
      let bumped =
        bump_all-lem some_of qs (take-All (IsIndex (length qs)) (n - sum_nat qs) order sorted.0) in
      let sliced = slice_to-le n (sum_nat qs) order h in
      rw sliced (omega (arith, bumped.0, many, h), omega (arith, bumped.1, same, same_qs))
