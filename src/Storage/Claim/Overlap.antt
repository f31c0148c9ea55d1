-- ===== src/Storage/Claim/Overlap.antt =====
-- Claims that overlap: claim_next_batch of storage/store.py reads the queue before its transaction.
use agent_eval_orchestrator.Prelude.{
  ℕ, String, ◌≡◌, refl, sym, ap, ◌∙◌, inl, inr, Bool, true, false, ◌&&◌, Option, none, some, List,
  [], ◌∷◌, arith, Bool-cases, ◌==◌, eq_iff, eq_refl, if◌then◌else◌,
}
use agent_eval_orchestrator.Table
use agent_eval_orchestrator.Storage.Schema.{Batch, Store}
use agent_eval_orchestrator.Storage.Templates.{get_task_template}
use agent_eval_orchestrator.Storage.Runs.{get_run}
use agent_eval_orchestrator.Storage.Batches.{batch_key, get_batch}
use agent_eval_orchestrator.Storage.Claim.{
  Queued, Claim, Event, reads, writes, pick, chosen_row, write_claim, claim_next_batch, hand_outs,
  assign, claim_of, start_batch,
}
use agent_eval_orchestrator.Storage.Claim.Exclusive.{
  claims, Distinct, claims-Distinct, chosen_row-IsQueuedRow, get_batch-assign,
}

-- Each claim that writes has read since the last write of any claim: `fresh` are the workers whose
-- claims have.
abbrev pub are_apart : (String → Bool) → List Event → Bool
are_apart fresh [] = true
are_apart fresh (reads w ∷ events) = are_apart (λ v. if v == w then true else fresh v) events
are_apart fresh (writes w now ∷ events) =
    let rest = are_apart (λ _. false) events in fresh w && rest

abbrev pub none_fresh : String → Bool
none_fresh _ = false

-- The claims that the writes belong to.
abbrev calls_of : List Event → List (String × ℕ)
calls_of [] = []
calls_of (reads w ∷ events) = calls_of events
calls_of (writes w now ∷ events) = (w, now) ∷ calls_of events

abbrev pub ids : List (String × String) → List String
ids [] = []
ids ((id, w) ∷ pairs) = id ∷ ids pairs

-- What is handed out from a write on, of which this is the outcome.
abbrev after_write :
    (String → Option Queued) → String → List Event → Store × Option Claim → List (String × String)
after_write picked w events out = elim out.1 [
  | none ↦ hand_outs out.0 picked events
  | some c ↦ (c.batch.batch_id, w) ∷ hand_outs out.0 picked events
]

-- Then they hand out what the claims hand out one after the other.
hand_outs-claims :
    (s : Store) (picked : String → Option Queued) (fresh : String → Bool) (events : List Event)
    → ((w : String) → fresh w ≡ true → picked w ≡ chosen_row s w)
    → are_apart fresh events ≡ true
    → ids (hand_outs s picked events) ≡ claims s (calls_of events)
unfolding hand_outs claims
hand_outs-claims s picked fresh [] same apart = refl
hand_outs-claims s picked fresh (reads w ∷ events) same apart =
    hand_outs-claims s (pick w (chosen_row s w) picked) (λ v. if v == w then true else fresh v)
      events
      (λ v h. elim (Bool-cases (v == w)) [
        | inl e ↦ rw e (ap (chosen_row s) (sym ((eq_iff v w).0 e)))
        | inr e ↦ rw e (same v (rw e at h))
      ])
      apart
hand_outs-claims s picked fresh (writes w now ∷ events) same apart =
    let (now_fresh, later) = and_parts (fresh w) (are_apart none_fresh events) apart in
    let here : write_claim s w now (picked w) ≡ claim_next_batch s w now =
      unfold claim_next_batch in ap (write_claim s w now) (same w now_fresh) in
    let rest =
      hand_outs-claims (claim_next_batch s w now).0 (pick w none picked) none_fresh events
        (λ v h. absurd (cc h)) later in
    ap (λ out. ids (after_write (pick w none picked) w events out)) here
    ∙ written_ids _ _ (claim_next_batch s w now).1 rest
  where
    and_parts : (a b : Bool) → (a && b) ≡ true → (a ≡ true) × (b ≡ true)
    and_parts a b h = ground arith

    written_ids :
        (pairs : List (String × String)) (rest : List String) (o : Option Claim)
        → ids pairs ≡ rest
        → ids (elim o [ none ↦ pairs | some c ↦ (c.batch.batch_id, w) ∷ pairs ])
          ≡ (elim o [ none ↦ rest | some c ↦ c.batch.batch_id ∷ rest ])
    written_ids pairs rest none h = h
    written_ids pairs rest (some c) h = ap (λ (l : List String). c.batch.batch_id ∷ l) h

-- Claims whose reads and writes come in any order hand out no batch twice, as long as each of them
-- that writes has read since the last write of any claim.
pub hand_outs-Distinct :
    (s : Store) (picked : String → Option Queued) (events : List Event)
    → Table.IsUnique batch_key s.batches
    → are_apart none_fresh events ≡ true
    → Distinct (ids (hand_outs s picked events))
hand_outs-Distinct s picked events u apart =
    rw (hand_outs-claims s picked none_fresh events (λ w h. absurd (cc h)) apart)
      (claims-Distinct s (calls_of events) u)

-- What a write hands out of a row that is stored.
record Wrote (s : Store) (w : String) (now : ℕ) (r : Queued) (b : Batch) : Type 0 where
  claim : Claim
  returned : claim_of (assign s w now r) r ≡ some claim
  id_is : claim.batch.batch_id ≡ r.batch.batch_id
  stored : get_batch (assign s w now r) r.batch.batch_id ≡ some (start_batch w now b)

write-Wrote :
    (s : Store) (w : String) (now : ℕ) (r : Queued) (b : Batch)
    → get_batch s r.batch.batch_id ≡ some b
    → Wrote s w now r b
unfolding claim_of get_batch start_batch
write-Wrote s w now r b h =
    let look : get_batch (assign s w now r) r.batch.batch_id ≡ some (start_batch w now b) =
      ground (arith, get_batch-assign s w now r r.batch.batch_id, h, eq_refl r.batch.batch_id) in
    let run = get_run (assign s w now r) b.run_id in
    record {
      claim = record {
        batch = start_batch w now b;
        run = run;
        template = elim run [
          | none ↦ none
          | some x ↦ get_task_template (assign s w now r) x.template_id
        ];
        dataset_ref = r.template.dataset_ref;
        executor_config = r.template.executor_config;
      };
      returned = rw (look, claim_of) refl;
      id_is = Table.key_of_find batch_key r.batch.batch_id s.batches b h;
      stored = look;
    }

hand_outs_write :
    (s : Store) (picked : String → Option Queued) (w : String) (now : ℕ) (r : Queued) (c : Claim)
    (events : List Event)
    → picked w ≡ some r
    → claim_of (assign s w now r) r ≡ some c
    → hand_outs s picked (writes w now ∷ events)
      ≡ (c.batch.batch_id, w) ∷ hand_outs (assign s w now r) (pick w none picked) events
unfolding hand_outs
hand_outs_write s picked w now r c events h e =
    ap (λ o. after_write (pick w none picked) w events (write_claim s w now o)) h
    ∙ ap (λ o. after_write (pick w none picked) w events (assign s w now r, o)) e

-- Two claims that both read before either writes, and choose the same row, hand out its batch to
-- both workers: the transaction does not look whether the batch is still queued.
pub hand_outs-overlap :
    (s : Store) (picked : String → Option Queued) (w v : String) (now later : ℕ) (r : Queued)
    → Table.IsUnique batch_key s.batches
    → (w == v) ≡ false
    → chosen_row s w ≡ some r
    → chosen_row s v ≡ some r
    → hand_outs s picked (reads w ∷ reads v ∷ writes w now ∷ writes v later ∷ [])
      ≡ (r.batch.batch_id, w) ∷ (r.batch.batch_id, v) ∷ []
unfolding hand_outs
hand_outs-overlap s picked w v now later r u ne hw hv =
    let row = chosen_row-IsQueuedRow s w r u hw in
    let one = write-Wrote s w now r r.batch row.stored in
    let two = write-Wrote (assign s w now r) v later r (start_batch w now r.batch) one.stored in
    let other : (v == w) ≡ false = ground (arith, eq_iff v w, eq_iff w v, ne) in
    let first = pick w (chosen_row s w) picked in
    let both = pick v (chosen_row s v) first in
    let of_w : both w ≡ some r = rw (ne, eq_refl w) hw in
    let of_v : pick w none both v ≡ some r = rw (other, eq_refl v) hv in
    hand_outs_write s both w now r one.claim (writes v later ∷ []) of_w one.returned
    ∙ ap (λ (l : List (String × String)). (one.claim.batch.batch_id, w) ∷ l)
        (hand_outs_write (assign s w now r) (pick w none both) v later r two.claim [] of_v
          two.returned)
    ∙ rw (one.id_is, two.id_is) refl
