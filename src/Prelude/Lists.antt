-- ===== src/Prelude/Lists.antt =====
-- Lists measured by native numbers, with Boolean tests on their elements.
use Prim.Native.Nat.{ℕ, zero, suc, ◌+◌, ◌≤◌, ◌<◌}
use mathlib.Core.Path.{◌≡◌, refl, ap}
use mathlib.Core.Bool.{Bool, true, false, ◌&&◌, ◌||◌}
use mathlib.Core.List.{List, [], ◌∷◌, ◌++◌, map}
use mathlib.Core.Option.{Option, none, some}
use native.Mathlib.Omega.{arith}
use agent_eval_orchestrator.Prelude.Tests.{if◌then◌else◌}

module _ {ℓ} {A : Type ℓ} where
  abbrev pub length : List A → ℕ
  length [] = 0
  length (x ∷ xs) = suc (length xs)

  abbrev pub all : (A → Bool) → List A → Bool
  all p [] = true
  all p (x ∷ xs) = p x && all p xs

  abbrev pub any : (A → Bool) → List A → Bool
  any p [] = false
  any p (x ∷ xs) = p x || any p xs

  abbrev pub filter : (A → Bool) → List A → List A
  filter p [] = []
  filter p (x ∷ xs) = let rest = filter p xs in if p x then x ∷ rest else rest

  abbrev pub count : (A → Bool) → List A → ℕ
  count p [] = 0
  count p (x ∷ xs) = let rest = count p xs in if p x then suc rest else rest

  abbrev pub take : ℕ → List A → List A
  take zero xs = []
  take (suc n) [] = []
  take (suc n) (x ∷ xs) = x ∷ take n xs

  pub length-append : (xs ys : List A) → length (xs ++ ys) ≡ length xs + length ys
  length-append [] ys = omega arith
  length-append (x ∷ xs) ys = omega (arith, length-append xs ys)

  pub count-append : (p : A → Bool) (xs ys : List A) → count p (xs ++ ys) ≡ count p xs + count p ys
  count-append p [] ys = omega arith
  count-append p (x ∷ xs) ys = ground (arith, count-append p xs ys)

  pub count-le-length : (p : A → Bool) (xs : List A) → count p xs ≤ length xs
  count-le-length p [] = omega arith
  count-le-length p (x ∷ xs) = ground (arith, count-le-length p xs)

  pub length-filter : (p : A → Bool) (xs : List A) → length (filter p xs) ≡ count p xs
  length-filter p [] = refl
  length-filter p (x ∷ xs) = ground (arith, length-filter p xs)

  pub filter-append :
      (p : A → Bool) (xs ys : List A) → filter p (xs ++ ys) ≡ filter p xs ++ filter p ys
  filter-append p [] ys = refl
  filter-append p (x ∷ xs) ys = ground (arith, filter-append p xs ys)

  pub filter_idem : (p : A → Bool) (xs : List A) → filter p (filter p xs) ≡ filter p xs
  filter_idem p [] = refl
  filter_idem p (x ∷ xs) = ground (arith, filter_idem p xs)

module _ {ℓ κ} {A : Type ℓ} where
  abbrev pub All : (A → Type κ) → List A → Type κ
  All P [] = Unit
  All P (x ∷ xs) = P x × All P xs

  pub All-append : (P : A → Type κ) (xs ys : List A) → All P xs → All P ys → All P (xs ++ ys)
  All-append P [] ys h k = k
  All-append P (x ∷ xs) ys h k = (h.0, All-append P xs ys h.1 k)

  pub All-filter : (P : A → Type κ) (p : A → Bool) (xs : List A) → All P xs → All P (filter p xs)
  All-filter P p [] h = tt
  All-filter P p (x ∷ xs) h = ground (arith, All-filter P p xs h.1)

module _ {ℓ κ μ} {A : Type ℓ} {P : A → Type κ} {Q : A → Type μ} where
  pub All-imp : ((a : A) → P a → Q a) → (xs : List A) → All P xs → All Q xs
  All-imp f [] h = tt
  All-imp f (x ∷ xs) h = (f x h.0, All-imp f xs h.1)

module _ {ℓ κ} {A : Type ℓ} {B : Type κ} where
  abbrev pub filter_map : (A → Option B) → List A → List B
  filter_map f [] = []
  filter_map f (x ∷ xs) =
      let rest = filter_map f xs in elim (f x) [ none ↦ rest | some b ↦ b ∷ rest ]

  pub length-map : (f : A → B) (xs : List A) → length (map f xs) ≡ length xs
  length-map f [] = refl
  length-map f (x ∷ xs) = ap suc (length-map f xs)

  abbrev pub fold_left : (B → A → B) → B → List A → B
  fold_left f b [] = b
  fold_left f b (x ∷ xs) = fold_left f (f b x) xs

module _ {ℓ κ μ ν} {A : Type ℓ} {B : Type κ} (P : A → Type μ) (Q : B → Type ν)
    (f : A → Option B) where
  All-filter_map_step :
      (x : A) (ys : List B) (o : Option B)
      → ((b : B) → o ≡ some b → Q b)
      → All Q ys
      → All Q (elim o [ none ↦ ys | some b ↦ b ∷ ys ])
  All-filter_map_step x ys none h rest = rest
  All-filter_map_step x ys (some b) h rest = (h b refl, rest)

  pub All-filter_map :
      ((a : A) (b : B) → P a → f a ≡ some b → Q b)
      → (xs : List A) → All P xs
      → All Q (filter_map f xs)
  All-filter_map h [] all_p = tt
  All-filter_map h (x ∷ xs) all_p =
      All-filter_map_step x (filter_map f xs) (f x) (λ b e. h x b all_p.0 e)
        (All-filter_map h xs all_p.1)

module _ {ℓ} {A : Type ℓ} (p : A → Bool) where
  pub all_of_count : (xs : List A) → count p xs ≡ length xs → all p xs ≡ true
  all_of_count [] h = refl
  all_of_count (x ∷ xs) h = ground (arith, all_of_count xs, count-le-length p xs)

  pub count_of_all : (xs : List A) → all p xs ≡ true → count p xs ≡ length xs
  count_of_all [] h = refl
  count_of_all (x ∷ xs) h = ground (arith, count_of_all xs)

  pub any_of_count : (xs : List A) → 0 < count p xs → any p xs ≡ true
  any_of_count [] h = elim h [ ]
  any_of_count (x ∷ xs) h = ground (arith, any_of_count xs)

  pub count_of_any : (xs : List A) → any p xs ≡ true → 0 < count p xs
  count_of_any [] h = cc
  count_of_any (x ∷ xs) h = ground (arith, count_of_any xs)
