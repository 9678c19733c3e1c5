-- ===== src/Storage/Rows.antt =====
-- internal/storage/postgres: what SELECT, INSERT and UPDATE do to a table, which is a list of rows.
-- `fault` is the error of the connection or the statement, a violated key included, and nil where the
-- statement runs.
use nexus_ai_gateway.Prelude.{
  ℕ, ◌*◌, ◌/◌, ◌≡◌, refl, ap, Bool, true, Option, none, some, List, [], ◌∷◌, ◌++◌, any, leb,
  if◌then◌else◌, Bool-cases, inl, inr,
}
use nexus_ai_gateway.Domain.Errors.{Err, nil, err_not_found, Result, ok, err}

-- What a column of type TIMESTAMPTZ keeps of a time: whole microseconds.
unfoldable pub stored_time : ℕ → ℕ
stored_time t = t / 1000 * 1000

module _ {A : Type 0} where
  -- The first row that a condition selects: the conditions below are on unique columns.
  unfoldable pub find_row : (A → Bool) → List A → Option A
  find_row p [] = none
  find_row p (a ∷ rows) = if p a then some a else find_row p rows

  -- No row is `ErrNotFound`.
  unfoldable pub scanned : Option A → Result A
  scanned none = err err_not_found
  scanned (some a) = ok a

  unfoldable pub select_row : Err → (A → Bool) → List A → Result A
  select_row nil p rows = scanned (find_row p rows)
  select_row fault p rows = err fault

  unfoldable pub insert_row : Err → A → List A → Err × List A
  insert_row nil a rows = (nil, rows ++ (a ∷ []))
  insert_row fault a rows = (fault, rows)

  unfoldable pub update_rows : (A → Bool) → (A → A) → List A → List A
  update_rows p f [] = []
  update_rows p f (a ∷ rows) = (if p a then f a else a) ∷ update_rows p f rows

  -- An UPDATE that affects no row is `ErrNotFound`.
  unfoldable pub update_found : Err → (A → Bool) → (A → A) → List A → Err × List A
  update_found nil p f rows = (if any p rows then nil else err_not_found, update_rows p f rows)
  update_found fault p f rows = (fault, rows)

  -- WHERE, and ORDER BY a time DESC.
  unfoldable pub insert_newest : (A → ℕ) → A → List A → List A
  insert_newest time a [] = a ∷ []
  insert_newest time a (b ∷ rows) =
      if leb (time b) (time a) then a ∷ b ∷ rows else b ∷ insert_newest time a rows

  unfoldable pub newest_first : (A → ℕ) → (A → Bool) → List A → List A
  newest_first time p [] = []
  newest_first time p (a ∷ rows) =
      let rest = newest_first time p rows in if p a then insert_newest time a rest else rest

  unfoldable pub select_newest : Err → (A → ℕ) → (A → Bool) → List A → Result (List A)
  select_newest nil time p rows = ok (newest_first time p rows)
  select_newest fault time p rows = err fault

  -- A row is found after an insertion: an old one, or else the new one.
  pub find_row-append :
      (p : A → Bool) (rows : List A) (a : A)
      → find_row p rows ≡ none
      → p a ≡ true
      → find_row p (rows ++ (a ∷ [])) ≡ some a
  unfolding find_row
  find_row-append p [] a n h = rw h refl
  find_row-append p (b ∷ rows) a n h = elim (Bool-cases (p b)) [
    | inl e ↦ let n' : some b ≡ none = rw e at n in cc n'
    | inr e ↦ let n' : find_row p rows ≡ none = rw e at n in rw e (find_row-append p rows a n' h)
  ]

  pub find_row-kept :
      (p : A → Bool) (rows new : List A) (a : A)
      → find_row p rows ≡ some a
      → find_row p (rows ++ new) ≡ some a
  unfolding find_row
  find_row-kept p [] new a h = cc h
  find_row-kept p (b ∷ rows) new a h = elim (Bool-cases (p b)) [
    | inl e ↦ let h' : some b ≡ some a = rw e at h in rw e h'
    | inr e ↦ let h' : find_row p rows ≡ some a = rw e at h in rw e (find_row-kept p rows new a h')
  ]

  kept_test :
      (p q : A → Bool) (f : A → A) (b : A)
      → ((c : A) → p (f c) ≡ p c)
      → p (if q b then f b else b) ≡ p b
  kept_test p q f b k = elim (Bool-cases (q b)) [ inl e ↦ rw e (k b) | inr e ↦ rw e refl ]

  -- An update that does not touch what the condition reads changes the row that is found.
  pub find_row-update_rows :
      (p q : A → Bool) (f : A → A) (rows : List A) (a : A)
      → ((b : A) → p (f b) ≡ p b)
      → find_row p rows ≡ some a
      → find_row p (update_rows q f rows) ≡ some (if q a then f a else a)
  unfolding find_row update_rows
  find_row-update_rows p q f [] a k h = cc h
  find_row-update_rows p q f (b ∷ rows) a k h = rw (kept_test p q f b k) (elim (Bool-cases (p b)) [
    | inl e ↦ let h' : some b ≡ some a = rw e at h in rw e (ap (λ o. o) (found b a h'))
    | inr e ↦
        let h' : find_row p rows ≡ some a = rw e at h in
        rw e (find_row-update_rows p q f rows a k h')
  ])
    where
      found :
          (c d : A)
          → some c ≡ some d
          → some (if q c then f c else c) ≡ some (if q d then f d else d)
      found c d e = cc

  pub find_row-update_rows-none :
      (p q : A → Bool) (f : A → A) (rows : List A)
      → ((b : A) → p (f b) ≡ p b)
      → find_row p rows ≡ none
      → find_row p (update_rows q f rows) ≡ none
  unfolding find_row update_rows
  find_row-update_rows-none p q f [] k h = refl
  find_row-update_rows-none p q f (b ∷ rows) k h =
      rw (kept_test p q f b k) (elim (Bool-cases (p b)) [
        | inl e ↦ let h' : some b ≡ none = rw e at h in cc h'
        | inr e ↦
            let h' : find_row p rows ≡ none = rw e at h in
            rw e (find_row-update_rows-none p q f rows k h')
      ])
