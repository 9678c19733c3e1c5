-- ===== src/Storage/Catalog/Laws.antt =====
-- The seeding of the model aliases, and connections and policies that are read back.
use nexus_ai_gateway.Prelude.{
  ℕ, ◌+◌, String, ◌≡◌, refl, ap, ◌∙◌, subst, sym, Bool, true, Option, none, some, List, [], ◌∷◌,
  ◌++◌, any, All, Bool-cases, Option-cases, inl, inr, if◌then◌else◌, eq_refl, eq_iff,
}
use nexus_ai_gateway.Domain.Errors.{nil}
use nexus_ai_gateway.Domain.Models.{ModelAlias, default_alias, default_model_aliases}
use nexus_ai_gateway.Storage.Rows.{find_row, update_rows, find_row-kept, find_row-append}
use nexus_ai_gateway.Storage.Merging.{upsert_row}
use nexus_ai_gateway.Storage.Merging.Laws.{any-found}
use nexus_ai_gateway.Storage.Catalog.{is_alias, create_alias, go_on, seed_each, seed_defaults}

update_rows-nothing :
    {A : Type 0} (p : A → Bool) (rows : List A) → update_rows p (λ a. a) rows ≡ rows
unfolding update_rows
update_rows-nothing p [] = refl
update_rows-nothing p (a ∷ rows) = elim (Bool-cases (p a)) [
  | inl e ↦ rw e (ap (λ r. a ∷ r) (update_rows-nothing p rows))
  | inr e ↦ rw e (ap (λ r. a ∷ r) (update_rows-nothing p rows))
]

-- The table after an alias is created: as before, if the alias is taken.
abbrev with_alias : ModelAlias → List ModelAlias → List ModelAlias
with_alias m rows = if any (is_alias m.alias) rows then rows else rows ++ (m ∷ [])

create_alias-nil :
    (m : ModelAlias) (rows : List ModelAlias) → create_alias nil m rows ≡ (nil, with_alias m rows)
unfolding create_alias upsert_row
create_alias-nil m rows =
    ap (λ r. (nil, if any (is_alias m.alias) rows then r else rows ++ (m ∷ [])))
      (update_rows-nothing (is_alias m.alias) rows)

abbrev seeded : ℕ → List ModelAlias → List ModelAlias → List ModelAlias
seeded n ms rows = (seed_each (λ _. nil) n ms rows).1

seed_each-cons :
    (n : ℕ) (m : ModelAlias) (ms rows : List ModelAlias)
    → seed_each (λ _. nil) n (m ∷ ms) rows ≡ seed_each (λ _. nil) (n + 1) ms (with_alias m rows)
unfolding seed_each go_on
seed_each-cons n m ms rows = rw (create_alias-nil m rows) refl

with_alias-kept :
    (p : ModelAlias → Bool) (m a : ModelAlias) (rows : List ModelAlias)
    → find_row p rows ≡ some a
    → find_row p (with_alias m rows) ≡ some a
with_alias-kept p m a rows h = elim (Bool-cases (any (is_alias m.alias) rows)) [
  | inl e ↦ rw e h
  | inr e ↦ rw e (find_row-kept p rows (m ∷ []) a h)
]

-- An alias that is there keeps its row.
seed_each-kept :
    (n : ℕ) (p : ModelAlias → Bool) (a : ModelAlias) (ms rows : List ModelAlias)
    → find_row p rows ≡ some a
    → find_row p (seeded n ms rows) ≡ some a
unfolding seed_each
seed_each-kept n p a [] rows h = h
seed_each-kept n p a (m ∷ ms) rows h =
    rw (seeded, seed_each-cons n m ms rows)
      (seed_each-kept (n + 1) p a ms (with_alias m rows) (with_alias-kept p m a rows h))

abbrev IsListed : List ModelAlias → ModelAlias → Type 0
IsListed rows m = (a : ModelAlias) × (find_row (is_alias m.alias) rows ≡ some a)

with_alias-IsListed : (m : ModelAlias) (rows : List ModelAlias) → IsListed (with_alias m rows) m
unfolding is_alias
with_alias-IsListed m rows = elim (Option-cases (find_row (is_alias m.alias) rows)) [
  | inl n ↦ (
    m,
    rw (any-found (is_alias m.alias) rows, n)
        (find_row-append (is_alias m.alias) rows m n (eq_refl m.alias)),
  )
  | inr (a, h) ↦ (a, rw (any-found (is_alias m.alias) rows, h) h)
]

seed_each-IsListed : (n : ℕ) (ms rows : List ModelAlias) → All (IsListed (seeded n ms rows)) ms
unfolding seed_each
seed_each-IsListed n [] rows = tt
seed_each-IsListed n (m ∷ ms) rows =
    let (a, h) = with_alias-IsListed m rows in
    subst (λ r. All (IsListed r.1) (m ∷ ms)) (sym (seed_each-cons n m ms rows))
      (
        (a, seed_each-kept (n + 1) (is_alias m.alias) a ms (with_alias m rows) h),
        seed_each-IsListed (n + 1) ms (with_alias m rows),
      )

seed_each-settled :
    (n : ℕ) (ms rows : List ModelAlias)
    → All (IsListed rows) ms
    → seed_each (λ _. nil) n ms rows ≡ (nil, rows)
unfolding seed_each
seed_each-settled n [] rows _ = refl
seed_each-settled n (m ∷ ms) rows ((a, h), rest) =
    rw (seed_each-cons n m ms rows)
      (rw (any-found (is_alias m.alias) rows, h) (seed_each-settled (n + 1) ms rows rest))

abbrev pub or_else : Option ModelAlias → Option ModelAlias → Option ModelAlias
or_else none later = later
or_else (some m) later = some m

or_else-none : (o : Option ModelAlias) → or_else o none ≡ o
or_else-none none = refl
or_else-none (some m) = refl

or_else_assoc : (a b c : Option ModelAlias) → or_else (or_else a b) c ≡ or_else a (or_else b c)
or_else_assoc none b c = refl
or_else_assoc (some m) b c = refl

find_row-append_one :
    (p : ModelAlias → Bool) (rows : List ModelAlias) (m : ModelAlias)
    → find_row p (rows ++ (m ∷ [])) ≡ or_else (find_row p rows) (find_row p (m ∷ []))
unfolding find_row
find_row-append_one p [] m = refl
find_row-append_one p (a ∷ rows) m = elim (Bool-cases (p a)) [
  | inl e ↦ rw e refl
  | inr e ↦ rw e (find_row-append_one p rows m)
]

named : (name : String) (m : ModelAlias) → is_alias name m ≡ true → m.alias ≡ name
unfolding is_alias
named name m e = (eq_iff m.alias name).0 e

with_alias-found :
    (name : String) (m : ModelAlias) (rows : List ModelAlias)
    → find_row (is_alias name) (with_alias m rows)
      ≡ or_else (find_row (is_alias name) rows) (find_row (is_alias name) (m ∷ []))
unfolding find_row
with_alias-found name m rows = elim (Option-cases (find_row (is_alias m.alias) rows)) [
  | inl n ↦ rw (any-found (is_alias m.alias) rows, n) (find_row-append_one (is_alias name) rows m)
  | inr (a, h) ↦
      rw (any-found (is_alias m.alias) rows, h)
        (elim (Bool-cases (is_alias name m)) [
          | inr e ↦ rw (find_row, e) (sym (or_else-none (find_row (is_alias name) rows)))
          | inl e ↦
              let found : find_row (is_alias name) rows ≡ some a =
                subst (λ x. find_row (is_alias x) rows ≡ some a) (named name m e) h in
              rw found refl
        ])
]

find_row-cons :
    (p : ModelAlias → Bool) (m : ModelAlias) (ms : List ModelAlias)
    → or_else (find_row p (m ∷ [])) (find_row p ms) ≡ find_row p (m ∷ ms)
unfolding find_row
find_row-cons p m ms = elim (Bool-cases (p m)) [ inl e ↦ rw e refl | inr e ↦ rw e refl ]

seed_each-found :
    (name : String) (n : ℕ) (ms rows : List ModelAlias)
    → find_row (is_alias name) (seeded n ms rows)
      ≡ or_else (find_row (is_alias name) rows) (find_row (is_alias name) ms)
unfolding seed_each find_row
seed_each-found name n [] rows = sym (or_else-none (find_row (is_alias name) rows))
seed_each-found name n (m ∷ ms) rows =
    let before = find_row (is_alias name) rows in
    ap (λ r. find_row (is_alias name) r.1) (seed_each-cons n m ms rows)
    ∙ seed_each-found name (n + 1) ms (with_alias m rows)
    ∙ ap (λ o. or_else o (find_row (is_alias name) ms)) (with_alias-found name m rows)
    ∙ or_else_assoc before (find_row (is_alias name) (m ∷ [])) (find_row (is_alias name) ms)
    ∙ ap (or_else before) (find_row-cons (is_alias name) m ms)

-- Where no statement fails, what is found under a name afterwards is what was found before, or else the
-- default of that name; and seeding once more, with other identifiers and at another time, changes
-- nothing.
pub seed_defaults-settles :
    (uuid later_uuid : ℕ → String) (now later : ℕ) (rows : List ModelAlias) (name : String)
    → (find_row (is_alias name) (seed_defaults (λ _. nil) uuid now rows).1
        ≡ or_else
            (find_row (is_alias name) rows)
            (find_row (is_alias name) (default_model_aliases uuid now)))
      × (seed_defaults (λ _. nil) later_uuid later (seed_defaults (λ _. nil) uuid now rows).1
          ≡ (nil, (seed_defaults (λ _. nil) uuid now rows).1))
unfolding seed_defaults default_model_aliases default_alias
seed_defaults-settles uuid later_uuid now later rows name = (
  seed_each-found name 0 (default_model_aliases uuid now) rows,
  seed_each-settled 0 (default_model_aliases later_uuid later)
      (seeded 0 (default_model_aliases uuid now) rows)
      (seed_each-IsListed 0 (default_model_aliases uuid now) rows),
)
