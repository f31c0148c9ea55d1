-- ===== src/Table/Keys.antt =====
-- Rows by primary key.
use mathlib.Core.Option
use agent_eval_orchestrator.Prelude.{
  String, ◌≡◌, ◌≢◌, refl, ap, ◌∙◌, subst, inl, inr, Option, none, some, List, [], ◌∷◌, ◌++◌, arith,
  append-nil, append_assoc, ◌==◌, eq_iff, eq_refl, Bool-cases, Option-cases, All, All-imp,
  if◌then◌else◌,
}
use agent_eval_orchestrator.Table.Where.{update_where, delete_where}

module _ {A : Type 0} (key : A → String) where
  -- SELECT * ... WHERE pk = ?, fetchone().
  unfoldable pub find : String → List A → Option A
  find k [] = none
  find k (x ∷ xs) = if key x == k then some x else find k xs

  -- UPDATE ... WHERE pk = ?.
  abbrev pub update : String → (A → A) → List A → List A
  update k f = update_where (λ x. key x == k) f

  -- DELETE ... WHERE pk = ?.
  abbrev pub delete : String → List A → List A
  delete k = delete_where (λ x. key x == k)

  -- INSERT: `none` is the IntegrityError of a primary key that the table has.
  unfoldable pub insert : A → List A → Option (List A)
  insert row xs = elim (find (key row) xs) [ none ↦ some (xs ++ row ∷ []) | some _ ↦ none ]

  -- INSERT in a loop, one row after the other.
  unfoldable pub insert_all : List A → List A → Option (List A)
  insert_all [] xs = some xs
  insert_all (row ∷ rows) xs = elim (insert row xs) [ none ↦ none | some ys ↦ insert_all rows ys ]

  -- No two rows have one key.
  abbrev pub IsUnique : List A → Type 0
  IsUnique [] = Unit
  IsUnique (x ∷ xs) = (find (key x) xs ≡ none) × IsUnique xs

  pub key_of_find : (k : String) (xs : List A) (a : A) → find k xs ≡ some a → key a ≡ k
  unfolding find
  key_of_find k [] a h = cc
  key_of_find k (x ∷ xs) a h = ground (arith, eq_iff (key x) k, key_of_find k xs a)

  pub find-append :
      (k : String) (xs : List A) (row : A)
      → find k (xs ++ row ∷ [])
        ≡ elim (find k xs) [ none ↦ (if key row == k then some row else none) | some a ↦ some a ]
  unfolding find
  find-append k [] row = ground arith
  find-append k (x ∷ xs) row = ground (arith, find-append k xs row)

  -- A read after an UPDATE that keeps the key.
  pub find-update :
      (j k : String) (f : A → A) (xs : List A)
      → ((a : A) → key (f a) ≡ key a)
      → find j (update k f xs) ≡ (if k == j then Option.map f (find j xs) else find j xs)
  unfolding find
  find-update j k f [] keeps = ground arith
  find-update j k f (x ∷ xs) keeps = ground (
    arith,
    keeps x,
    eq_iff (key x) k,
    eq_iff (key x) j,
    eq_iff k j,
    eq_refl k,
    find-update j k f xs keeps,
  )

  pub find-delete :
      (j k : String) (xs : List A) → find j (delete k xs) ≡ (if k == j then none else find j xs)
  unfolding find
  find-delete j k [] = ground arith
  find-delete j k (x ∷ xs) =
      ground (arith, eq_iff (key x) k, eq_iff (key x) j, eq_iff k j, find-delete j k xs)

  -- An INSERT succeeds exactly where the key is new, and appends its row.
  pub insert_new :
      (row : A) (xs : List A) → find (key row) xs ≡ none → insert row xs ≡ some (xs ++ row ∷ [])
  unfolding insert
  insert_new row xs h = rw (h, insert)

  pub insert_inv :
      (row : A) (xs ys : List A)
      → insert row xs ≡ some ys
      → (find (key row) xs ≡ none) × (ys ≡ xs ++ row ∷ [])
  unfolding insert
  insert_inv row xs ys h = ground arith

  pub find-insert :
      (j : String) (row : A) (xs ys : List A)
      → insert row xs ≡ some ys
      → find j ys ≡ (if key row == j then some row else find j xs)
  find-insert j row xs ys h =
      let (new, e) = insert_inv row xs ys h in
      ground (arith, new, e, find-append j xs row, eq_iff (key row) j)

  pub update-IsUnique :
      (k : String) (f : A → A) (xs : List A)
      → ((a : A) → key (f a) ≡ key a)
      → IsUnique xs
      → IsUnique (update k f xs)
  update-IsUnique k f [] keeps u = tt
  update-IsUnique k f (x ∷ xs) keeps u = ground (
    arith,
    keeps x,
    find-update (key x) k f xs keeps,
    find-update (key (f x)) k f xs keeps,
    update-IsUnique k f xs keeps u.1,
  )

  pub delete-IsUnique : (k : String) (xs : List A) → IsUnique xs → IsUnique (delete k xs)
  delete-IsUnique k [] u = tt
  delete-IsUnique k (x ∷ xs) u = ground (arith, find-delete (key x) k xs, delete-IsUnique k xs u.1)

  append-IsUnique :
      (row : A) (xs : List A) → find (key row) xs ≡ none → IsUnique xs → IsUnique (xs ++ row ∷ [])
  unfolding find
  append-IsUnique row [] new u = (refl, tt)
  append-IsUnique row (x ∷ xs) new u = ground (
    arith,
    find-append (key x) xs row,
    eq_iff (key x) (key row),
    eq_iff (key row) (key x),
    append-IsUnique row xs,
  )

  pub insert-IsUnique :
      (row : A) (xs ys : List A) → insert row xs ≡ some ys → IsUnique xs → IsUnique ys
  insert-IsUnique row xs ys h u =
      let (new, e) = insert_inv row xs ys h in rw e (append-IsUnique row xs new u)

  find_of_keys :
      (x : A) (xs : List A)
      → find (key x) xs ≡ none
      → All (λ a. find (key a) xs ≡ some a) xs
      → All (λ a. find (key a) (x ∷ xs) ≡ some a) xs
  unfolding find
  find_of_keys x xs new h =
      All-imp (λ a (e : find (key a) xs ≡ some a). ground (arith, e, new, eq_iff (key x) (key a)))
        xs h

  -- Each row is found by its key.
  pub find_self : (xs : List A) → IsUnique xs → All (λ a. find (key a) xs ≡ some a) xs
  find_self [] u = tt
  find_self (x ∷ xs) u =
      (unfold find in rw (eq_refl (key x)), find_of_keys x xs u.0 (find_self xs u.1))

  pub append_one : (rows xs : List A) (row : A) → (xs ++ row ∷ []) ++ rows ≡ xs ++ row ∷ rows
  append_one rows xs row = append_assoc xs (row ∷ []) rows

  -- A loop of INSERTs that does not fail has appended its rows.
  pub insert_all_inv : (rows xs ys : List A) → insert_all rows xs ≡ some ys → ys ≡ xs ++ rows
  unfolding insert_all
  insert_all_inv [] xs ys h = ground (arith, append-nil xs)
  insert_all_inv (row ∷ rows) xs ys h = elim (Option-cases (insert row xs)) [
    | inl e ↦ ground arith
    | inr (zs, e) ↦
        insert_all_inv rows zs ys (ground arith)
        ∙ ap (λ (l : List A). l ++ rows) (insert_inv row xs zs e).1
        ∙ append_one rows xs row
  ]

  find-append_none : (k : String) (xs ys : List A) → find k (xs ++ ys) ≡ none → find k xs ≡ none
  unfolding find
  find-append_none k [] ys h = refl
  find-append_none k (x ∷ xs) ys h = ground (arith, find-append_none k xs ys)

  find-self_append : (row : A) (xs rows : List A) → find (key row) (xs ++ row ∷ rows) ≢ none
  unfolding find
  find-self_append row [] rows h = ground (arith, eq_refl (key row))
  find-self_append row (x ∷ xs) rows h = ground (arith, find-self_append row xs rows)

  pub find-middle :
      (row : A) (xs rows : List A) → IsUnique (xs ++ row ∷ rows) → find (key row) xs ≡ none
  unfolding find
  find-middle row [] rows u = refl
  find-middle row (x ∷ xs) rows u = elim (Bool-cases (key x == key row)) [
    | inr e ↦ rw e (find-middle row xs rows u.1)
    | inl e ↦
        let same : key x ≡ key row = (eq_iff (key x) (key row)).0 e in
        absurd
          (find-self_append row xs rows (subst (λ k. find k (xs ++ row ∷ rows) ≡ none) same u.0))
  ]

  pub prefix-IsUnique : (xs ys : List A) → IsUnique (xs ++ ys) → IsUnique xs
  prefix-IsUnique [] ys u = tt
  prefix-IsUnique (x ∷ xs) ys u = (find-append_none (key x) xs ys u.0, prefix-IsUnique xs ys u.1)

  -- It does not fail if the keys of all the rows, old and new, are distinct.
  pub insert_all_unique :
      (rows xs : List A) → IsUnique (xs ++ rows) → insert_all rows xs ≡ some (xs ++ rows)
  unfolding insert_all
  insert_all_unique [] xs u = rw append-nil
  insert_all_unique (row ∷ rows) xs u =
      let now = insert_new row xs (find-middle row xs rows u) in
      let later = insert_all_unique rows (xs ++ row ∷ []) (rw (append_one rows xs row) u) in
      ground (arith, now, later, append_one rows xs row)
