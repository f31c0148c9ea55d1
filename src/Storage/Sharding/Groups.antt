-- ===== src/Storage/Sharding/Groups.antt =====
-- Where the cases go in _weighted_case_groups (storage/store.py), whatever the floats are.
use agent_eval_orchestrator.Prelude.{
  ℕ, zero, suc, String, ◌≡◌, ◌⊎◌, ◌≤◌, ◌+◌, refl, sym, ap, ◌∙◌, subst, Bool, inl, inr, Bool-cases,
  Option-cases, none, some, List, [], ◌∷◌, ◌++◌, arith, map, length, count, count-append,
  length-append, not, ◌&&◌,
}
use agent_eval_orchestrator.Storage.Sharding.{
  Floats, Slot, sum_nat, credit, is_candidate, beats, chosen, give, place, groups,
}

abbrev pub flat : List (List String) → List String
flat [] = []
flat (g ∷ gs) = g ++ flat gs

module _ {F : Type 0} where
  abbrev pub quotas : List (Slot F) → List ℕ
  quotas slots = map (λ slot. slot.quota) slots

  abbrev pub quota_at : ℕ → List (Slot F) → ℕ
  quota_at i [] = 0
  quota_at zero (slot ∷ slots) = slot.quota
  quota_at (suc i) (slot ∷ slots) = quota_at i slots

  -- What a slot has and may still get.
  abbrev pub loads : List (Slot F) → List ℕ
  loads slots = map (λ slot. length slot.group + slot.quota) slots

module _ {F : Type 0} (fl : Floats F) where
  credit-quotas : (slots : List (Slot F)) → quotas (credit fl slots) ≡ quotas slots
  unfolding credit
  credit-quotas [] = refl
  credit-quotas (slot ∷ slots) = ground (arith, credit-quotas slots)

  credit-groups : (slots : List (Slot F)) → groups (credit fl slots) ≡ groups slots
  unfolding credit
  credit-groups [] = refl
  credit-groups (slot ∷ slots) = ground (arith, credit-groups slots)

  credit-loads : (slots : List (Slot F)) → loads (credit fl slots) ≡ loads slots
  unfolding credit
  credit-loads [] = refl
  credit-loads (slot ∷ slots) = ground (arith, credit-loads slots)

  chosen-none : (slots : List (Slot F)) → chosen fl slots ≡ none → sum_nat (quotas slots) ≡ 0
  unfolding chosen sum_nat
  chosen-none [] h = refl
  chosen-none (slot ∷ slots) h = elim (Option-cases (chosen fl slots)) [
    | inl e ↦ ground (arith, e, chosen-none slots e)
    | inr (best, e) ↦ ground (arith, e)
  ]

  chosen_inv :
      (slot : Slot F) (slots : List (Slot F)) (best : ℕ × Slot F)
      → chosen fl (slot ∷ slots) ≡ some best
      → ((best ≡ (0, slot)) × (1 ≤ slot.quota))
        ⊎ ((b : ℕ × Slot F) × (chosen fl slots ≡ some b) × (best ≡ (suc b.0, b.1)))
  unfolding chosen
  chosen_inv slot slots best h = elim (Option-cases (chosen fl slots)) [
    | inl e ↦ inl (ground (arith, e, h))
    | inr (b, e) ↦ elim (Bool-cases (is_candidate fl slot && not (beats fl b.1 slot))) [
      | inl first ↦ inl (ground (arith, e, h, first))
      | inr later ↦ inr (b, e, ground (arith, e, h, later))
    ]
  ]

  chosen-some :
      (slots : List (Slot F)) (best : ℕ × Slot F)
      → chosen fl slots ≡ some best
      → 1 ≤ quota_at best.0 slots
  unfolding chosen
  chosen-some [] best h = absurd (cc h)
  chosen-some (slot ∷ slots) best h = elim (chosen_inv slot slots best h) [
    | inl (e, q) ↦ subst (λ (b : ℕ × Slot F). 1 ≤ quota_at b.0 (slot ∷ slots)) (sym e) q
    | inr (b, e, next) ↦
        subst (λ (x : ℕ × Slot F). 1 ≤ quota_at x.0 (slot ∷ slots)) (sym next)
          (chosen-some slots b e)
  ]

  give-quotas :
      (total : F) (c : String) (i : ℕ) (slots : List (Slot F))
      → 1 ≤ quota_at i slots
      → sum_nat (quotas (give fl total c i slots)) + 1 ≡ sum_nat (quotas slots)
  unfolding give sum_nat
  give-quotas total c i [] h = omega (arith, h)
  give-quotas total c zero (slot ∷ slots) h = omega (arith, h)
  give-quotas total c (suc i) (slot ∷ slots) h = omega (arith, give-quotas total c i slots h)

  give-loads :
      (total : F) (c : String) (i : ℕ) (slots : List (Slot F))
      → 1 ≤ quota_at i slots
      → loads (give fl total c i slots) ≡ loads slots
  unfolding give
  give-loads total c i [] h = refl
  give-loads total c zero (slot ∷ slots) h = ground (arith, length-append slot.group (c ∷ []), h)
  give-loads total c (suc i) (slot ∷ slots) h = ground (arith, give-loads total c i slots h)

  give-count :
      (p : String → Bool) (total : F) (c : String) (i : ℕ) (slots : List (Slot F))
      → 1 ≤ quota_at i slots
      → count p (flat (groups (give fl total c i slots)))
        ≡ count p (c ∷ []) + count p (flat (groups slots))
  unfolding give
  give-count p total c i [] h = omega (arith, h)
  give-count p total c zero (slot ∷ slots) h = ground (
    arith,
    count-append p (slot.group ++ c ∷ []) (flat (groups slots)),
    count-append p slot.group (c ∷ []),
    count-append p slot.group (flat (groups slots)),
  )
  give-count p total c (suc i) (slot ∷ slots) h = ground (
    arith,
    count-append p slot.group (flat (groups (give fl total c i slots))),
    count-append p slot.group (flat (groups slots)),
    give-count p total c i slots h,
  )

  -- The loop gives every case away as long as there are quotas.
  pub place-count :
      (p : String → Bool) (total : F) (cases : List String) (slots : List (Slot F))
      → length cases ≤ sum_nat (quotas slots)
      → (count p (flat (groups (place fl total cases slots)))
          ≡ count p cases + count p (flat (groups slots)))
        × (sum_nat (quotas (place fl total cases slots)) + length cases ≡ sum_nat (quotas slots))
  unfolding place
  place-count p total [] slots h = (omega arith, omega arith)
  place-count p total (c ∷ cases) slots h = elim (Option-cases (chosen fl (credit fl slots))) [
    | inl e ↦
        let empty = chosen-none (credit fl slots) e in
        absurd (omega (arith, empty, ap sum_nat (credit-quotas slots), h))
    | inr (best, e) ↦
        let credited = credit fl slots in
        let some_left = chosen-some credited best e in
        let given = give fl total c best.0 credited in
        let less = give-quotas total c best.0 credited some_left in
        let same = ap sum_nat (credit-quotas slots) in
        let rest = place-count p total cases given (omega (arith, less, same, h)) in
        let here = give-count p total c best.0 credited some_left in
        let kept = ap (λ (gs : List (List String)). count p (flat gs)) (credit-groups slots) in
        rw (e, place) (ground (arith, rest.0, here, kept), omega (arith, rest.1, less, same))
  ]

  -- Whatever the quotas, no worker gets more than its own.
  pub place-loads :
      (total : F) (cases : List String) (slots : List (Slot F))
      → loads (place fl total cases slots) ≡ loads slots
  unfolding place
  place-loads total [] slots = refl
  place-loads total (c ∷ cases) slots = elim (Option-cases (chosen fl (credit fl slots))) [
    | inl e ↦ rw (e, place) refl
    | inr (best, e) ↦
        let credited = credit fl slots in
        rw (e, place)
          (place-loads total cases (give fl total c best.0 credited)
            ∙ give-loads total c best.0 credited (chosen-some credited best e)
            ∙ credit-loads slots)
  ]
