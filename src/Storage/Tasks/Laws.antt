-- ===== src/Storage/Tasks/Laws.antt =====
-- The life of a task: it is claimed at most once, whatever else happens to the table.
use nexus_ai_gateway.Prelude.{
  ℕ, String, ◌≡◌, refl, sym, ap, ◌∙◌, ◌⊎◌, inl, inr, Bool, true, false, none, some, Option, [], ◌∷◌,
  ◌++◌, ◌==◌, arith, eq_iff, All, All-append, is_some, Bool-cases,
}
use mathlib.Core.Bool.{false≢true}
use nexus_ai_gateway.Domain.Errors.{nil, err_not_found, ok, err}
use nexus_ai_gateway.Domain.Tasks.{RemoteTask, task_completed, task_failed}
use nexus_ai_gateway.Storage.Tasks.{
  Table, find_task, scan_row, stored_task, create, is_claimable, set_claimed, set_completed,
  update_where, updated_row, claim, complete_task,
}

-- The steps of the table: what the handlers of /tasks do when their statement runs. A new row has a
-- new key.
pub data Step : Table → Table → Type 0 where
  enqueued :
      (t : RemoteTask) (rows : Table) → find_task t.id rows ≡ none → Step rows (create nil t rows).1
  claimed :
      (now : ℕ) (id worker_id : String) (rows : Table)
      → Step rows (claim nil now id worker_id rows).1
  closed :
      (now : ℕ) (id summary diff status : String) (rows : Table)
      → (status ≡ task_completed) ⊎ (status ≡ task_failed)
      → Step rows (complete_task nil now id summary diff status rows).1

pub data Steps : Table → Table → Type 0 where
  stay : {rows : Table} → Steps rows rows
  step : {rows mid last : Table} → Step rows mid → Steps mid last → Steps rows last

-- The task has left the state "pending".
abbrev IsTaken : String → Table → Type 0
IsTaken id rows = (is_some (find_task id rows) ≡ true) × All (λ t. is_claimable id t ≡ false) rows

running-unclaimable :
    (now : ℕ) (id worker_id : String) (t : RemoteTask)
    → is_claimable id (set_claimed now worker_id t) ≡ false
unfolding is_claimable set_claimed
running-unclaimable now id worker_id t = ground arith

closed-unclaimable :
    (now : ℕ) (id summary diff status : String) (t : RemoteTask)
    → (status ≡ task_completed) ⊎ (status ≡ task_failed)
    → is_claimable id (set_completed now summary diff status t) ≡ false
unfolding is_claimable set_completed
closed-unclaimable now id summary diff status t (inl e) = rw e (ground arith)
closed-unclaimable now id summary diff status t (inr e) = rw e (ground arith)

module _ (id : String) where
  update-unclaimable :
      (p : RemoteTask → Bool) (f : RemoteTask → RemoteTask) (rows : Table)
      → ((t : RemoteTask) → is_claimable id (f t) ≡ false)
      → All (λ t. is_claimable id t ≡ false) rows
      → All (λ t. is_claimable id t ≡ false) (update_where p f rows)
  unfolding update_where
  update-unclaimable p f [] h k = k
  update-unclaimable p f (t ∷ rows) h (k, ks) = elim (Bool-cases (p t)) [
    | inl e ↦ rw e (h t, update-unclaimable p f rows h ks)
    | inr e ↦ rw e (k, update-unclaimable p f rows h ks)
  ]

  claim-unclaimable :
      (f : RemoteTask → RemoteTask) (rows : Table)
      → ((t : RemoteTask) → is_claimable id (f t) ≡ false)
      → All (λ t. is_claimable id t ≡ false) (update_where (is_claimable id) f rows)
  unfolding update_where
  claim-unclaimable f [] h = tt
  claim-unclaimable f (t ∷ rows) h = elim (Bool-cases (is_claimable id t)) [
    | inl e ↦ rw e (h t, claim-unclaimable f rows h)
    | inr e ↦ rw e (e, claim-unclaimable f rows h)
  ]

  update-found :
      (p : RemoteTask → Bool) (f : RemoteTask → RemoteTask) (rows : Table)
      → ((t : RemoteTask) → (f t).id ≡ t.id)
      → is_some (find_task id (update_where p f rows)) ≡ is_some (find_task id rows)
  unfolding update_where find_task
  update-found p f [] h = refl
  update-found p f (t ∷ rows) h = elim (Bool-cases (p t)) [
    | inl e ↦ rw (e, h t) (ground (arith, update-found p f rows h))
    | inr e ↦ rw e (ground (arith, update-found p f rows h))
  ]

  append-found :
      (rows : Table) (t : RemoteTask)
      → is_some (find_task id rows) ≡ true
      → is_some (find_task id (rows ++ (t ∷ []))) ≡ true
  unfolding find_task
  append-found [] t h = absurd (false≢true h)
  append-found (u ∷ rows) t h = ground (arith, append-found rows t)

  updated-found :
      (f : RemoteTask → RemoteTask) (rows : Table) (t : RemoteTask)
      → updated_row (is_claimable id) f rows ≡ some t
      → is_some (find_task id rows) ≡ true
  unfolding updated_row find_task is_claimable
  updated-found f [] t e = cc
  updated-found f (u ∷ rows) t e = ground (arith, updated-found f rows t)

  unclaimable-none :
      (f : RemoteTask → RemoteTask) (rows : Table)
      → All (λ t. is_claimable id t ≡ false) rows
      → updated_row (is_claimable id) f rows ≡ none
  unfolding updated_row
  unclaimable-none f [] k = refl
  unclaimable-none f (t ∷ rows) (k, ks) = rw k (unclaimable-none f rows ks)

  new-unclaimable :
      (t : RemoteTask) (rows : Table)
      → find_task t.id rows ≡ none
      → is_some (find_task id rows) ≡ true
      → is_claimable id t ≡ false
  unfolding is_claimable
  new-unclaimable t rows fresh found = elim (Bool-cases (t.id == id)) [
    | inr e ↦ rw e
    | inl e ↦ absurd (
        false≢true (
          sym (ap is_some (ap (λ k. find_task k rows) (sym ((eq_iff t.id id).0 e)) ∙ fresh))
          ∙ found))
  ]

  Step-IsTaken : (rows next : Table) → Step rows next → IsTaken id rows → IsTaken id next
  unfolding create stored_task claim complete_task
  Step-IsTaken _ _ (enqueued t rows fresh) (found, k) = (
    append-found rows (stored_task t) found,
    All-append (λ u. is_claimable id u ≡ false) rows (stored_task t ∷ []) k
        (new-unclaimable (stored_task t) rows fresh found, tt),
  )
  Step-IsTaken _ _ (claimed now i worker_id rows) (found, k) = (
    update-found (is_claimable i) (set_claimed now worker_id) rows (λ t. unfold set_claimed in refl)
        ∙ found,
    update-unclaimable (is_claimable i) (set_claimed now worker_id) rows
        (running-unclaimable now id worker_id) k,
  )
  Step-IsTaken _ _ (closed now i summary diff status rows s) (found, k) = (
    update-found (λ t. t.id == i) (set_completed now summary diff status) rows
          (λ t. unfold set_completed in refl)
        ∙ found,
    update-unclaimable (λ t. t.id == i) (set_completed now summary diff status) rows
        (λ t. closed-unclaimable now id summary diff status t s) k,
  )

  Steps-IsTaken : (rows last : Table) → Steps rows last → IsTaken id rows → IsTaken id last
  Steps-IsTaken _ _ stay k = k
  Steps-IsTaken _ last (step {mid} s ss) k = Steps-IsTaken mid last ss (Step-IsTaken _ mid s k)

scan_row-ok : (o : Option RemoteTask) (t : RemoteTask) → scan_row o ≡ ok t → o ≡ some t
unfolding scan_row
scan_row-ok none t e = cc
scan_row-ok (some u) t e = cc

claim-IsTaken :
    (now : ℕ) (id worker_id : String) (t : RemoteTask) (rows : Table)
    → (claim nil now id worker_id rows).0 ≡ ok t
    → IsTaken id (claim nil now id worker_id rows).1
unfolding claim
claim-IsTaken now id worker_id t rows e =
    let f = set_claimed now worker_id in
    (
      update-found id (is_claimable id) f rows (λ u. unfold set_claimed in refl)
          ∙ updated-found id f rows t (scan_row-ok _ t e),
      claim-unclaimable id f rows (running-unclaimable now id worker_id),
    )

-- A task is claimed at most once: after a claim that succeeds, and any steps of the table, in any order
-- and by any workers, every further claim of the task gets "not found".
pub claim-once :
    (now later : ℕ) (id worker_id other : String) (t : RemoteTask) (rows last : Table)
    → (claim nil now id worker_id rows).0 ≡ ok t
    → Steps (claim nil now id worker_id rows).1 last
    → (claim nil later id other last).0 ≡ err err_not_found
unfolding claim scan_row
claim-once now later id worker_id other t rows last e steps =
    let (found, k) = Steps-IsTaken id _ last steps (claim-IsTaken now id worker_id t rows e) in
    rw (unclaimable-none id (set_claimed later other) last k)
