-- ===== src/Storage/Claim/Exclusive.antt =====
-- What one claim hands out, and claims one after the other.
use agent_eval_orchestrator.Prelude.{
  ℕ, String, ◌≡◌, refl, sym, ap, ◌∙◌, subst, inl, inr, false, Option, none, some, List, [], ◌∷◌,
  arith, All, All-filter_map, All-sort_by, Bool-cases, Option-cases, coalesce, ◌==◌, eq_iff,
  eq_refl, if◌then◌else◌,
}
use agent_eval_orchestrator.Table
use agent_eval_orchestrator.Storage.Schema.{Batch, Store}
use agent_eval_orchestrator.Storage.Batches.{batch_key, get_batch}
use agent_eval_orchestrator.Storage.Claim.{
  Queued, Claim, join_row, age, queued_rows, may_take, choose, start_batch, assign, claim_of,
  chosen_row, claim_next_batch,
}

-- What the query says of a row.
pub record IsQueuedRow (s : Store) (q : Queued) : Type 0 where
  pub queued : q.batch.status ≡ "queued"
  pub stored : get_batch s q.batch.batch_id ≡ some q.batch

join_row-IsQueuedRow :
    (s : Store) (b : Batch) (q : Queued)
    → get_batch s b.batch_id ≡ some b
    → join_row s b ≡ some q
    → IsQueuedRow s q
unfolding join_row
join_row-IsQueuedRow s b q st h = ground (arith, eq_iff b.status "queued")

choose-All :
    (P : Queued → Type 0) (w : String) (rows : List Queued) (r : Queued)
    → choose w rows ≡ some r
    → All P rows
    → P r
unfolding choose
choose-All P w [] r h p = cc
choose-All P w (x ∷ xs) r h p = elim (Bool-cases (may_take w x)) [
  | inl e ↦ (let same : x ≡ r = ground arith in subst P same p.0)
  | inr e ↦ choose-All P w xs r (ground arith) p.1
]

pub chosen_row-IsQueuedRow :
    (s : Store) (w : String) (r : Queued)
    → Table.IsUnique batch_key s.batches
    → chosen_row s w ≡ some r
    → IsQueuedRow s r
unfolding chosen_row queued_rows get_batch
chosen_row-IsQueuedRow s w r u h = choose-All (IsQueuedRow s) w (queued_rows s) r (ground arith) (
    All-sort_by age (IsQueuedRow s) _ (
      All-filter_map (λ b. get_batch s b.batch_id ≡ some b) (IsQueuedRow s) (join_row s)
        (join_row-IsQueuedRow s) s.batches (Table.find_self batch_key s.batches u)))

-- The batch with this id is there and is not queued.
abbrev pub IsTaken : Store → String → Type 0
IsTaken s id = (b : Batch) × (get_batch s id ≡ some b) × ((b.status == "queued") ≡ false)

pub get_batch-assign :
    (s : Store) (w : String) (now : ℕ) (r : Queued) (j : String)
    → get_batch (assign s w now r) j ≡ (
        if r.batch.batch_id == j
        then elim (get_batch s j) [ none ↦ none | some b ↦ some (start_batch w now b) ]
        else get_batch s j)
unfolding assign get_batch start_batch
get_batch-assign s w now r j = ground (
  arith,
  Table.find-update batch_key j r.batch.batch_id (start_batch w now) s.batches (λ b. refl),
)

-- What a claim does that returns a batch.
pub record Assigns (s s' : Store) (w : String) (now : ℕ) (c : Claim) : Type 0 where
  pub before : Batch
  pub was_queued : before.status ≡ "queued"
  pub was_stored : get_batch s c.batch.batch_id ≡ some before
  pub started : c.batch ≡ record before {
    status = "running";
    current_step = some "executor-starting";
    assigned_worker_id = some w;
    started_at = coalesce before.started_at (some now);
  }
  pub stored : get_batch s' c.batch.batch_id ≡ some c.batch
  pub others : (j : String) → (c.batch.batch_id == j) ≡ false → get_batch s' j ≡ get_batch s j

claim_next_batch-eq :
    (s : Store) (w : String) (now : ℕ) (r : Queued)
    → chosen_row s w ≡ some r
    → claim_next_batch s w now ≡ (assign s w now r, claim_of (assign s w now r) r)
unfolding claim_next_batch
claim_next_batch-eq s w now r h = rw (h, claim_next_batch)

claim_of-batch :
    (s : Store) (r : Queued) (c : Claim)
    → claim_of s r ≡ some c
    → get_batch s r.batch.batch_id ≡ some c.batch
unfolding claim_of get_batch
claim_of-batch s r c h = elim (Option-cases (get_batch s r.batch.batch_id)) [
  | inl e ↦ ground arith
  | inr (b, e) ↦ ground arith
]

claimed :
    (s : Store) (w : String) (now : ℕ) (r : Queued) (c : Claim)
    → IsQueuedRow s r
    → claim_of (assign s w now r) r ≡ some c
    → Assigns s (assign s w now r) w now c
unfolding start_batch
claimed s w now r c row h =
    let read = claim_of-batch (assign s w now r) r c h in
    let look = get_batch-assign s w now r in
    let now_there : get_batch (assign s w now r) r.batch.batch_id
        ≡ some (start_batch w now r.batch) =
      ground (arith, look r.batch.batch_id, row.stored, eq_refl r.batch.batch_id) in
    let is_start : c.batch ≡ start_batch w now r.batch = cc in
    let same : c.batch.batch_id ≡ r.batch.batch_id = ap (λ (b : Batch). b.batch_id) is_start in
    record {
      before = r.batch;
      was_queued = row.queued;
      was_stored = rw same row.stored;
      started = is_start;
      stored = subst (λ id. get_batch (assign s w now r) id ≡ some c.batch) (sym same) read;
      others = λ j ne. ground (arith, look j, same);
    }

-- A claim that returns a batch returns one that was queued; it is running then, assigned to the
-- worker, with its old start time if it had one; it is stored so, and no other batch is changed.
pub claim_next_batch-Assigns :
    (s : Store) (w : String) (now : ℕ) (c : Claim)
    → Table.IsUnique batch_key s.batches
    → (claim_next_batch s w now).1 ≡ some c
    → Assigns s (claim_next_batch s w now).0 w now c
claim_next_batch-Assigns s w now c u h = elim (Option-cases (chosen_row s w)) [
  | inl e ↦ unfold claim_next_batch in ground arith
  | inr (r, e) ↦
      let step = claim_next_batch-eq s w now r e in
      rw step (claimed s w now r c (chosen_row-IsQueuedRow s w r u e) (rw step at h))
]

claim_next_batch-IsUnique :
    (s : Store) (w : String) (now : ℕ)
    → Table.IsUnique batch_key s.batches
    → Table.IsUnique batch_key (claim_next_batch s w now).0.batches
unfolding claim_next_batch assign start_batch
claim_next_batch-IsUnique s w now u = elim (Option-cases (chosen_row s w)) [
  | inl e ↦ rw (e, claim_next_batch) u
  | inr (r, e) ↦
      rw (e, claim_next_batch)
        (Table.update-IsUnique batch_key r.batch.batch_id (start_batch w now) s.batches (λ b. refl)
          u)
]

-- The ids that a sequence of claims hands out, each call made by some worker at some time.
unfoldable pub claims : Store → List (String × ℕ) → List String
claims s [] = []
claims s ((w, now) ∷ calls) =
    let rest = claims (claim_next_batch s w now).0 calls in
    elim (claim_next_batch s w now).1 [ none ↦ rest | some c ↦ c.batch.batch_id ∷ rest ]

abbrev pub Distinct : List String → Type 0
Distinct [] = Unit
Distinct (x ∷ xs) = All (λ j. (x == j) ≡ false) xs × Distinct xs

-- A batch that is taken stays so under a claim.
IsTaken-assign :
    (s : Store) (w : String) (now : ℕ) (r : Queued) (id : String)
    → IsTaken s id
    → IsTaken (assign s w now r) id
IsTaken-assign s w now r id (b, at, free) = elim (Bool-cases (r.batch.batch_id == id)) [
  | inl e ↦ (
    start_batch w now b,
    unfold start_batch in ground (arith, get_batch-assign s w now r id, at, e),
    unfold start_batch in refl,
  )
  | inr e ↦ (b, ground (arith, get_batch-assign s w now r id, at, e), free)
]

IsTaken-claim :
    (s : Store) (w : String) (now : ℕ) (id : String)
    → IsTaken s id
    → IsTaken (claim_next_batch s w now).0 id
IsTaken-claim s w now id taken = elim (Option-cases (chosen_row s w)) [
  | inl e ↦ unfold claim_next_batch in rw (e, claim_next_batch) taken
  | inr (r, e) ↦ rw (claim_next_batch-eq s w now r e) (IsTaken-assign s w now r id taken)
]

-- It is not handed out.
taken-ne :
    (s s' : Store) (w : String) (now : ℕ) (c : Claim) (id : String)
    → Assigns s s' w now c
    → IsTaken s id
    → (id == c.batch.batch_id) ≡ false
taken-ne s s' w now c id a (b, at, free) = elim (Bool-cases (id == c.batch.batch_id)) [
  | inr e ↦ e
  | inl e ↦
      let same : id ≡ c.batch.batch_id = (eq_iff id c.batch.batch_id).0 e in
      let stored : get_batch s id ≡ some a.before = rw same a.was_stored in
      let b_is : b ≡ a.before = cc (at, stored) in
      let status : b.status ≡ "queued" = ap (λ (x : Batch). x.status) b_is ∙ a.was_queued in
      absurd (ground (arith, eq_iff b.status "queued"))
]

Assigns-IsTaken :
    (s s' : Store) (w : String) (now : ℕ) (c : Claim)
    → Assigns s s' w now c
    → IsTaken s' c.batch.batch_id
Assigns-IsTaken s s' w now c a =
    (c.batch, a.stored, ap (λ (b : Batch). b.status == "queued") a.started)

claims-taken :
    (s : Store) (calls : List (String × ℕ)) (id : String)
    → Table.IsUnique batch_key s.batches
    → IsTaken s id
    → All (λ j. (id == j) ≡ false) (claims s calls)
unfolding claims
claims-taken s [] id u taken = tt
claims-taken s ((w, now) ∷ calls) id u taken = go (claim_next_batch s w now).1 refl (
    claims-taken (claim_next_batch s w now).0 calls id (claim_next_batch-IsUnique s w now u)
      (IsTaken-claim s w now id taken))
  where
    go :
        (o : Option Claim)
        → (claim_next_batch s w now).1 ≡ o
        → All (λ j. (id == j) ≡ false) (claims (claim_next_batch s w now).0 calls)
        → All
            (λ j. (id == j) ≡ false)
            (elim o [
              | none ↦ claims (claim_next_batch s w now).0 calls
              | some c ↦ c.batch.batch_id ∷ claims (claim_next_batch s w now).0 calls
            ])
    go none e rest = rest
    go (some c) e rest =
        (taken-ne s _ w now c id (claim_next_batch-Assigns s w now c u e) taken, rest)

-- Claims one after the other hand out no batch twice.
pub claims-Distinct :
    (s : Store) (calls : List (String × ℕ))
    → Table.IsUnique batch_key s.batches
    → Distinct (claims s calls)
unfolding claims
claims-Distinct s [] u = tt
claims-Distinct s ((w, now) ∷ calls) u =
    go (claim_next_batch s w now).1 refl
      (claims-Distinct (claim_next_batch s w now).0 calls (claim_next_batch-IsUnique s w now u))
  where
    later : Store
    later = (claim_next_batch s w now).0

    go :
        (o : Option Claim)
        → (claim_next_batch s w now).1 ≡ o
        → Distinct (claims later calls)
        → Distinct
            (elim o [ none ↦ claims later calls | some c ↦ c.batch.batch_id ∷ claims later calls ])
    go none e rest = rest
    go (some c) e rest = (
      claims-taken later calls c.batch.batch_id (claim_next_batch-IsUnique s w now u)
          (Assigns-IsTaken s later w now c (claim_next_batch-Assigns s w now c u e)),
      rest,
    )
