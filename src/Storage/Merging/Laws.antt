-- ===== src/Storage/Merging/Laws.antt =====
-- What is found in a table after an INSERT with ON CONFLICT, and pages.
use nexus_ai_gateway.Prelude.{
  ℕ, zero, suc, ◌≤◌, ◌≡◌, refl, ap, ◌∙◌, subst, Bool, true, false, Option, none, some, List, [],
  ◌∷◌, ◌++◌, any, is_some, length, All, if◌then◌else◌, Bool-cases, Option-cases, inl, inr, arith,
}
use nexus_ai_gateway.Domain.Errors.{nil}
use nexus_ai_gateway.Storage.Rows.{
  find_row, update_rows, insert_newest, newest_first, find_row-append, find_row-update_rows,
}
use nexus_ai_gateway.Storage.Merging.{upsert_row, skip_rows, first_rows, page}

module _ {A : Type 0} where
  pub any-found : (p : A → Bool) (rows : List A) → any p rows ≡ is_some (find_row p rows)
  unfolding find_row
  any-found p [] = refl
  any-found p (a ∷ rows) = elim (Bool-cases (p a)) [
    | inl e ↦ rw e refl
    | inr e ↦ rw e (any-found p rows)
  ]

  find_row-holds : (p : A → Bool) (rows : List A) (a : A) → find_row p rows ≡ some a → p a ≡ true
  unfolding find_row
  find_row-holds p [] a h = cc h
  find_row-holds p (b ∷ rows) a h = elim (Bool-cases (p b)) [
    | inl e ↦ let h' : some b ≡ some a = rw e at h in subst (λ x. p x ≡ true) (cc) e
    | inr e ↦ let h' : find_row p rows ≡ some a = rw e at h in find_row-holds p rows a h'
  ]

  find_row-append_other :
      (p : A → Bool) (rows : List A) (a : A)
      → p a ≡ false
      → find_row p (rows ++ (a ∷ [])) ≡ find_row p rows
  unfolding find_row
  find_row-append_other p [] a h = rw h refl
  find_row-append_other p (b ∷ rows) a h = elim (Bool-cases (p b)) [
    | inl e ↦ rw e refl
    | inr e ↦ rw e (find_row-append_other p rows a h)
  ]

  find_row-update_rows_other :
      (p q : A → Bool) (f : A → A) (rows : List A)
      → ((b : A) → p (f b) ≡ p b)
      → ((b : A) → q b ≡ true → p b ≡ false)
      → find_row p (update_rows q f rows) ≡ find_row p rows
  unfolding find_row update_rows
  find_row-update_rows_other p q f [] k d = refl
  find_row-update_rows_other p q f (b ∷ rows) k d = elim (Bool-cases (q b)) [
    | inl e ↦ rw (e, k b, d b e) (find_row-update_rows_other p q f rows k d)
    | inr e ↦ rw e (ap (λ r. if p b then some b else r) (find_row-update_rows_other p q f rows k d))
  ]

  -- The row under the new row's unique columns: the new row, or the old one merged with it.
  abbrev pub merged_with : (A → A) → A → Option A → A
  merged_with merge a none = a
  merged_with merge a (some old) = merge old

  pub find_row-upsert_row :
      (clash : A → Bool) (merge : A → A) (a : A) (rows : List A)
      → ((b : A) → clash (merge b) ≡ clash b)
      → clash a ≡ true
      → find_row clash (upsert_row nil clash merge a rows).1
        ≡ some (merged_with merge a (find_row clash rows))
  unfolding upsert_row
  find_row-upsert_row clash merge a rows k c = elim (Option-cases (find_row clash rows)) [
    | inl n ↦ rw (any-found clash rows, n) (find_row-append clash rows a n c)
    | inr (old, h) ↦
        rw (any-found clash rows, h)
          (find_row-update_rows clash clash merge rows old k h
            ∙ ap (λ b. some (if b then merge old else old)) (find_row-holds clash rows old h))
  ]

  pub find_row-upsert_row_other :
      (p clash : A → Bool) (merge : A → A) (a : A) (rows : List A)
      → ((b : A) → p (merge b) ≡ p b)
      → ((b : A) → clash b ≡ true → p b ≡ false)
      → clash a ≡ true
      → find_row p (upsert_row nil clash merge a rows).1 ≡ find_row p rows
  unfolding upsert_row
  find_row-upsert_row_other p clash merge a rows k d c = elim (Bool-cases (any clash rows)) [
    | inl e ↦ rw e (find_row-update_rows_other p clash merge rows k d)
    | inr e ↦ rw e (find_row-append_other p rows a (d a c))
  ]

  first_rows-length : (n : ℕ) (rows : List A) → length (first_rows n rows) ≤ n
  unfolding first_rows
  first_rows-length zero rows = omega arith
  first_rows-length (suc n) [] = omega arith
  first_rows-length (suc n) (a ∷ rows) = omega (arith, first_rows-length n rows)

  pub page-length : (limit offset : ℕ) (rows : List A) → length (page limit offset rows) ≤ limit
  unfolding page
  page-length limit offset rows = first_rows-length limit (skip_rows offset rows)

  module _ (P : A → Type 0) where
    All-first_rows : (n : ℕ) (rows : List A) → All P rows → All P (first_rows n rows)
    unfolding first_rows
    All-first_rows zero rows h = tt
    All-first_rows (suc n) [] h = tt
    All-first_rows (suc n) (a ∷ rows) (h, t) = (h, All-first_rows n rows t)

    All-skip_rows : (n : ℕ) (rows : List A) → All P rows → All P (skip_rows n rows)
    unfolding skip_rows
    All-skip_rows zero rows h = h
    All-skip_rows (suc n) [] h = tt
    All-skip_rows (suc n) (a ∷ rows) (h, t) = All-skip_rows n rows t

    pub All-page : (m n : ℕ) (rows : List A) → All P rows → All P (page m n rows)
    unfolding page
    All-page m n rows h = All-first_rows m (skip_rows n rows) (All-skip_rows n rows h)

    All-insert_newest :
        (time : A → ℕ) (a : A) (rows : List A)
        → P a
        → All P rows
        → All P (insert_newest time a rows)
    unfolding insert_newest
    All-insert_newest time a [] p h = (p, tt)
    All-insert_newest time a (b ∷ rows) p (q, h) = ground (arith, All-insert_newest time a rows p h)

  pub All-newest_first :
      (time : A → ℕ) (p : A → Bool) (rows : List A)
      → All (λ a. p a ≡ true) (newest_first time p rows)
  unfolding newest_first
  All-newest_first time p [] = tt
  All-newest_first time p (a ∷ rows) = elim (Bool-cases (p a)) [
    | inl e ↦ rw e (
        All-insert_newest (λ b. p b ≡ true) time a (newest_first time p rows) e
          (All-newest_first time p rows))
    | inr e ↦ rw e (All-newest_first time p rows)
  ]
