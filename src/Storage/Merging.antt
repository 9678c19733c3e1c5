-- ===== src/Storage/Merging.antt =====
-- internal/storage/postgres: INSERT with ON CONFLICT, DELETE, and the orders and pages of SELECT, on a
-- table of Rows.
pub mod Laws
use nexus_ai_gateway.Prelude.{ℕ, zero, suc, Bool, List, [], ◌∷◌, ◌++◌, any, if◌then◌else◌}
use nexus_ai_gateway.Prelude.Int.{ℤ, pos, negsuc}
use nexus_ai_gateway.Domain.Errors.{Err, nil, err_not_found, Result, ok, err}
use nexus_ai_gateway.Storage.Rows.{update_rows, newest_first}

module _ {A : Type 0} where
  -- ON CONFLICT DO UPDATE: the rows that clash on the unique columns are merged with the new row, which
  -- is inserted where none clashes.
  unfoldable pub upsert_row : Err → (A → Bool) → (A → A) → A → List A → Err × List A
  upsert_row nil clash merge a rows =
      (nil, if any clash rows then update_rows clash merge rows else rows ++ (a ∷ []))
  upsert_row fault clash merge a rows = (fault, rows)

  unfoldable pub delete_rows : (A → Bool) → List A → List A
  delete_rows p [] = []
  delete_rows p (a ∷ rows) = let rest = delete_rows p rows in if p a then rest else a ∷ rest

  -- A DELETE that affects no row is `ErrNotFound`.
  unfoldable pub delete_found : Err → (A → Bool) → List A → Err × List A
  delete_found nil p rows = (if any p rows then nil else err_not_found, delete_rows p rows)
  delete_found fault p rows = (fault, rows)

  -- A row is put before those that come later in an order, and ORDER BY sorts by insertion.
  unfoldable pub insert_before : (A → A → Bool) → A → List A → List A
  insert_before before a [] = a ∷ []
  insert_before before a (b ∷ rows) =
      if before b a then b ∷ insert_before before a rows else a ∷ b ∷ rows

  unfoldable pub ordered : (A → A → Bool) → (A → Bool) → List A → List A
  ordered before p [] = []
  ordered before p (a ∷ rows) =
      let rest = ordered before p rows in if p a then insert_before before a rest else rest

  unfoldable pub select_ordered : Err → (A → A → Bool) → (A → Bool) → List A → Result (List A)
  select_ordered nil before p rows = ok (ordered before p rows)
  select_ordered fault before p rows = err fault

  unfoldable pub skip_rows : ℕ → List A → List A
  skip_rows zero rows = rows
  skip_rows (suc n) [] = []
  skip_rows (suc n) (a ∷ rows) = skip_rows n rows

  unfoldable pub first_rows : ℕ → List A → List A
  first_rows zero rows = []
  first_rows (suc n) [] = []
  first_rows (suc n) (a ∷ rows) = a ∷ first_rows n rows

  -- LIMIT and OFFSET.
  unfoldable pub page : ℕ → ℕ → List A → List A
  page limit offset rows = first_rows limit (skip_rows offset rows)

  -- The server refuses a negative offset with `negative`.
  unfoldable pub select_page : Err → Err → (A → ℕ) → (A → Bool) → ℕ → ℤ → List A → Result (List A)
  select_page nil negative time p limit (pos offset) rows =
      ok (page limit offset (newest_first time p rows))
  select_page nil negative time p limit (negsuc n) rows = err negative
  select_page fault negative time p limit offset rows = err fault
