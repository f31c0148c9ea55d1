-- ===== src/Controller/HarborYaml/AssetNames.antt =====
-- The target names of the bind assets are distinct (controller/harbor_yaml.py).
use text.Mathlib.TextLemmas
use agent_eval_orchestrator.Prelude.{
  ℕ, zero, suc, String, ◌<>◌, ◌≡◌, ◌≤◌, ◌<◌, ◌+◌, refl, sym, ◌∙◌, subst, true, false, not, ◌⊎◌, inl,
  inr, Bool-cases, some, List, [], ◌∷◌, length, filter, arith, ◌==◌, eq_iff, eq_refl,
}
use agent_eval_orchestrator.Text.{or_else}
use agent_eval_orchestrator.Core.Ids.{sanitize_name}
use agent_eval_orchestrator.Core.WorkerPaths.{PurePath, name_of}
use agent_eval_orchestrator.Controller.HarborYaml.{
  System, is_used, candidate, free_name, stable_asset_name,
}

differ : (a b : String) → ((a ≡ b) → (true ≡ false)) → (a == b) ≡ false
differ a b h = elim (Bool-cases (a == b)) [ inl e ↦ absurd (cc (h ((eq_iff a b).0 e))) | inr e ↦ e ]

without : String → List String → List String
without x used = filter (λ u. not (u == x)) used

length-without :
    (x : String) (used : List String)
    → is_used used x ≡ true
    → length (without x used) < length used
unfolding without
length-without x [] h = absurd (cc h)
length-without x (u ∷ used) h = elim (Bool-cases (u == x)) [
  | inl e ↦ ground (arith, e, without-le used)
  | inr e ↦ ground (arith, e, length-without x used (ground (arith, e, h)))
]
  where
    without-le : (used : List String) → length (without x used) ≤ length used
    without-le [] = omega arith
    without-le (u ∷ used) = ground (arith, without-le used)

is_used-without :
    (x y : String) (used : List String)
    → (y == x) ≡ false
    → is_used (without x used) y ≡ false
    → is_used used y ≡ false
unfolding without
is_used-without x y [] ne h = refl
is_used-without x y (u ∷ used) ne h =
    ground
      (arith, is_used-without x y used ne, eq_iff u x, eq_iff u y, eq_iff y x, eq_refl y, h, ne)

-- Of more candidates than used names, one is free.
one_free :
    (f : ℕ → String)
    → ((i j : ℕ) → i < j → (f i == f j) ≡ false)
    → (m : ℕ) (used : List String) → length used < m
    → (k : ℕ) × (k < m) × (is_used used (f k) ≡ false)
one_free f distinct zero used h = absurd (omega (arith, h))
one_free f distinct (suc m) used h = elim (Bool-cases (is_used used (f m))) [
  | inr e ↦ (m, omega arith, e)
  | inl e ↦
      let (k, less, free) =
        one_free f distinct m (without (f m) used)
          (omega (arith, h, length-without (f m) used e)) in
      (k, omega (arith, less), is_used-without (f m) (f k) used (distinct k m less) free)
]

dash_there : (d : String) → "-" <> d ≡ "" → true ≡ false
dash_there d h = absurd (cc (TextLemmas.append-eq-nil_iff.0 h).0)

nat_cases : (n : ℕ) → (n ≡ 0) ⊎ ((m : ℕ) × (n ≡ suc m))
nat_cases zero = inl refl
nat_cases (suc m) = inr (m, refl)

module _ (sys : System)
    (distinct : (i j : ℕ) → i < j → (sys.decimal i == sys.decimal j) ≡ false) where
  candidate-distinct :
      (base : String) (i j : ℕ) → i < j → (candidate sys base i == candidate sys base j) ≡ false
  candidate-distinct base i zero h = absurd (omega (arith, h))
  candidate-distinct base zero (suc j) h =
      differ base (base <> "-" <> sys.decimal (suc (suc j))) (λ e.
        let no_rest =
          TextLemmas.append_cancel_left base "" ("-" <> sys.decimal (suc (suc j)))
            (TextLemmas.append-nil base ∙ e) in
        dash_there (sys.decimal (suc (suc j))) (sym no_rest))
  candidate-distinct base (suc i) (suc j) h =
      differ (base <> "-" <> sys.decimal (suc (suc i))) (base <> "-" <> sys.decimal (suc (suc j)))
        (λ e.
          let same =
            TextLemmas.append_cancel_left "-" _ _ (TextLemmas.append_cancel_left base _ _ e) in
          let other = distinct (suc (suc i)) (suc (suc j)) (omega (arith, h)) in
          sym ((eq_iff (sys.decimal (suc (suc i))) (sys.decimal (suc (suc j)))).1 same) ∙ other)

  -- The loop ends with a free name where one is left among the candidates to come.
  free_name-some :
      (fuel : ℕ) (used : List String) (base : String) (k n : ℕ)
      → n < fuel
      → is_used used (candidate sys base (k + n)) ≡ false
      → (name : String) × (free_name sys fuel used base k ≡ some name) × (is_used used name ≡ false)
  unfolding free_name
  free_name-some zero used base k n h free = absurd (omega (arith, h))
  free_name-some (suc fuel) used base k n h free =
      elim (Bool-cases (is_used used (candidate sys base k))) [
        | inr e ↦ (candidate sys base k, rw e refl, e)
        | inl e ↦ elim (nat_cases n) [
          | inl z ↦
              let here : is_used used (candidate sys base k) ≡ false =
                subst (λ m. is_used used (candidate sys base m) ≡ false) (omega (arith, z)) free in
              absurd (ground (arith, e, here))
          | inr (m, z) ↦
              let on : is_used used (candidate sys base (suc k + m)) ≡ false =
                subst (λ j. is_used used (candidate sys base j) ≡ false) (omega (arith, z)) free in
              let (name, found_later, free_later) =
                free_name-some fuel used base (suc k) m (omega (arith, h, z)) on in
              (name, rw (e, found_later) refl, free_later)
        ]
      ]

  pub stable_asset_name-some :
      (source : PurePath) (used : List String)
      → (name : String) × (stable_asset_name sys source used ≡ some name)
        × (is_used used name ≡ false)
  unfolding stable_asset_name
  stable_asset_name-some source used =
      let base = sanitize_name (or_else (name_of source) "asset") in
      let (n, less, free) =
        one_free (candidate sys base) (candidate-distinct base) (suc (length used)) used
          (omega arith) in
      free_name-some (suc (length used)) used base 0 n less
        (subst (λ m. is_used used (candidate sys base m) ≡ false) (omega arith) free)
