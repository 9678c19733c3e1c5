-- ===== src/Prelude/Assoc.antt =====
-- Go's `map[string]T` as an association list: a read of a missing key is `none`.
use Prim.Native.String.{String}
use mathlib.Core.Path.{◌≡◌, refl}
use mathlib.Core.Logic.{inl, inr}
use mathlib.Core.Option.{Option, none, some}
use mathlib.Core.List.{List, [], ◌∷◌, map}
use native.Mathlib.Omega.{arith}
use text.Mathlib.Text.{◌==◌}
use text.Mathlib.TextEquality.{eq_iff}
use nexus_ai_gateway.Prelude.Tests.{if◌then◌else◌, Bool-cases}

module _ {ℓ} {T : Type ℓ} where
  unfoldable pub lookup : String → List (String × T) → Option T
  lookup name [] = none
  lookup name (entry ∷ entries) =
      let later = lookup name entries in if entry.0 == name then some entry.1 else later

  -- A write to a key that is there keeps its place.
  unfoldable pub insert : String → T → List (String × T) → List (String × T)
  insert name value [] = (name, value) ∷ []
  insert name value (entry ∷ entries) =
      let later = entry ∷ insert name value entries in
      if entry.0 == name then (entry.0, value) ∷ entries else later

  abbrev pub values : List (String × T) → List T
  values = map (λ e. e.1)

  -- A read after a write: the new value under its name, and the old ones elsewhere.
  pub lookup-insert :
      (name other : String) (value : T) (entries : List (String × T))
      → lookup other (insert name value entries)
        ≡ (if name == other then some value else lookup other entries)
  unfolding lookup insert
  lookup-insert name other value [] = refl
  lookup-insert name other value ((here, old) ∷ entries) = elim (Bool-cases (here == name)) [
    | inl same ↦ rw same (ground (arith, eq_iff here name, eq_iff name other, eq_iff here other))
    | inr apart ↦ rw apart (
        ground (
          arith,
          eq_iff here name,
          eq_iff name other,
          eq_iff here other,
          lookup-insert name other value entries,
        ))
  ]
