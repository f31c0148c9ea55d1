-- ===== src/Table/Where.antt =====
-- UPDATE ... WHERE and DELETE ... WHERE with any condition on the row.
use agent_eval_orchestrator.Prelude.{
  ◌≡◌, ◌≤◌, refl, Bool, true, false, not, List, [], ◌∷◌, arith, length, filter, count,
  if◌then◌else◌,
}

module _ {ℓ} {A : Type ℓ} where
  abbrev pub update_where : (A → Bool) → (A → A) → List A → List A
  update_where p f [] = []
  update_where p f (x ∷ xs) = (if p x then f x else x) ∷ update_where p f xs

  abbrev pub delete_where : (A → Bool) → List A → List A
  delete_where p = filter (λ x. not (p x))

  pub length-update_where :
      (p : A → Bool) (f : A → A) (xs : List A) → length (update_where p f xs) ≡ length xs
  length-update_where p f [] = refl
  length-update_where p f (x ∷ xs) = omega (arith, length-update_where p f xs)

  -- No row meets the condition any more, if a changed row does not.
  pub count-update_where_self :
      (p : A → Bool) (f : A → A) (xs : List A)
      → ((a : A) → p a ≡ true → p (f a) ≡ false)
      → count p (update_where p f xs) ≡ 0
  count-update_where_self p f [] h = refl
  count-update_where_self p f (x ∷ xs) h = ground (arith, h x, count-update_where_self p f xs h)

  -- No more rows meet a condition that a changed row does not meet.
  pub count-update_where-le :
      (p q : A → Bool) (f : A → A) (xs : List A)
      → ((a : A) → q (f a) ≡ false)
      → count q (update_where p f xs) ≤ count q xs
  count-update_where-le p q f [] h = omega arith
  count-update_where-le p q f (x ∷ xs) h = ground (arith, h x, count-update_where-le p q f xs h)

  -- Where no row meets the condition, nothing changes.
  pub update_where_none :
      (p : A → Bool) (f : A → A) (xs : List A) → count p xs ≡ 0 → update_where p f xs ≡ xs
  update_where_none p f [] h = refl
  update_where_none p f (x ∷ xs) h = ground (arith, update_where_none p f xs)

  -- What the change does not touch is selected as before.
  pub filter-update_where_ne :
      (p q : A → Bool) (f : A → A) (xs : List A)
      → ((a : A) → q a ≡ true → p a ≡ false)
      → ((a : A) → p a ≡ true → q (f a) ≡ false)
      → filter q (update_where p f xs) ≡ filter q xs
  filter-update_where_ne p q f [] h k = refl
  filter-update_where_ne p q f (x ∷ xs) h k =
      ground (arith, h x, k x, filter-update_where_ne p q f xs h k)

  pub filter-delete_where_ne :
      (p q : A → Bool) (xs : List A)
      → ((a : A) → q a ≡ true → p a ≡ false)
      → filter q (delete_where p xs) ≡ filter q xs
  filter-delete_where_ne p q [] h = refl
  filter-delete_where_ne p q (x ∷ xs) h = ground (arith, h x, filter-delete_where_ne p q xs h)

  pub filter-delete_where_self : (p : A → Bool) (xs : List A) → filter p (delete_where p xs) ≡ []
  filter-delete_where_self p [] = refl
  filter-delete_where_self p (x ∷ xs) = ground (arith, filter-delete_where_self p xs)

  -- Two changes of different rows, in either order.
  pub update_where_comm :
      (p q : A → Bool) (f g : A → A) (xs : List A)
      → ((a : A) → p a ≡ true → q a ≡ false)
      → ((a : A) → q (f a) ≡ q a)
      → ((a : A) → p (g a) ≡ p a)
      → update_where p f (update_where q g xs) ≡ update_where q g (update_where p f xs)
  update_where_comm p q f g [] apart keep_q keep_p = refl
  update_where_comm p q f g (x ∷ xs) apart keep_q keep_p = ground (
    arith,
    apart x,
    keep_q x,
    keep_p x,
    apart (g x),
    update_where_comm p q f g xs apart keep_q keep_p,
  )
