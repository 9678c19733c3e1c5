-- ===== src/Provider/Registry/Laws.antt =====
-- The registry as a map from provider identifiers to the adapters that were registered last.
use nexus_ai_gateway.Prelude.{
  String, ◌≡◌, refl, sym, subst, none, some, List, [], ◌∷◌, arith, ◌==◌, eq_iff, if◌then◌else◌,
  lookup, insert, values, lookup-insert, In, here, there, Bool-cases, inl, inr, false,
}
use nexus_ai_gateway.Provider.{Provider}
use nexus_ai_gateway.Provider.Registry.{Registry, register, get, all}

-- Each key is its adapter's identifier, and none stands twice.
abbrev pub IsKeyedList : List (String × Provider) → Type 0
IsKeyedList [] = Unit
IsKeyedList ((k, p) ∷ m) = (p.id ≡ k) × (lookup k m ≡ none) × IsKeyedList m

abbrev pub IsKeyed : Registry → Type 0
IsKeyed r = IsKeyedList r.providers

-- After a registration the identifier of the adapter maps to it, and any other maps as before.
get-register :
    (p : Provider) (r : Registry) (id : String)
    → get (register p r) id ≡ (if p.id == id then some p else get r id)
unfolding get register
get-register p r id = lookup-insert p.id id p r.providers

some-inj : {p q : Provider} → some p ≡ some q → p ≡ q
some-inj h = cc

insert-IsKeyedList :
    (p : Provider) (m : List (String × Provider)) → IsKeyedList m → IsKeyedList (insert p.id p m)
unfolding insert lookup
insert-IsKeyedList p [] h = (refl, refl, tt)
insert-IsKeyedList p ((k, q) ∷ m) (e, fresh, h) = elim (Bool-cases (k == p.id)) [
  | inl same ↦ rw same (sym ((eq_iff k p.id).0 same), fresh, h)
  | inr other ↦
      rw other (
        e,
        rw lookup-insert (ground (arith, eq_iff p.id k, eq_iff k p.id)),
        insert-IsKeyedList p m h,
      )
]

-- Registration keeps the registry keyed by identifiers.
pub register-IsKeyed : (p : Provider) (r : Registry) → IsKeyed r → IsKeyed (register p r)
unfolding register
register-IsKeyed p r h = insert-IsKeyedList p r.providers h

lookup-id :
    (m : List (String × Provider)) (k : String) (p : Provider)
    → IsKeyedList m
    → lookup k m ≡ some p
    → p.id ≡ k
unfolding lookup
lookup-id [] k p h e = cc
lookup-id ((j, q) ∷ m) k p (i, fresh, h) e = ground (arith, eq_iff j k, lookup-id m k p h)

-- The adapter found under an identifier has that identifier.
pub get-id : (r : Registry) (k : String) (p : Provider) → IsKeyed r → get r k ≡ some p → p.id ≡ k
unfolding get
get-id r k p h e = lookup-id r.providers k p h e

lookup-none-In :
    (m : List (String × Provider)) (k : String) (p : Provider)
    → IsKeyedList m
    → lookup k m ≡ none
    → In p (values m)
    → (p.id == k) ≡ false
unfolding lookup
lookup-none-In [] k p h e i = elim i [ ]
lookup-none-In ((j, q) ∷ m) k _ (d, fresh, h) e here = ground (arith, ap_id q.id j)
  where
    ap_id : (a b : String) → a ≡ b → (a == k) ≡ (b == k)
    ap_id a b p = λ i. p i == k
lookup-none-In ((j, q) ∷ m) k p (d, fresh, h) e (there i) = lookup-none-In m k p h (ground arith) i

values-lookup :
    (m : List (String × Provider)) (p : Provider)
    → IsKeyedList m
    → In p (values m)
    → lookup p.id m ≡ some p
unfolding lookup
values-lookup [] p h i = elim i [ ]
values-lookup ((k, q) ∷ m) _ (e, fresh, h) here = ground (arith, eq_iff k q.id)
values-lookup ((k, q) ∷ m) p (e, fresh, h) (there i) =
    ground
      (arith, eq_iff k p.id, eq_iff p.id k, values-lookup m p h i, lookup-none-In m k p h fresh i)

-- In a registry keyed by identifiers, every adapter that `All` lists is the one registered under its identifier.
pub get_of_all : (r : Registry) (p : Provider) → IsKeyed r → In p (all r) → get r p.id ≡ some p
unfolding get all
get_of_all r p h i = values-lookup r.providers p h i

-- What holds of a new adapter and of all that are registered holds of all after its registration.
pub register-keeps {κ} :
    (P : Provider → Type κ) (p : Provider) (r : Registry)
    → P p
    → ((id : String) (q : Provider) → get r id ≡ some q → P q)
    → (id : String) (q : Provider) → get (register p r) id ≡ some q
    → P q
register-keeps P p r new old id q h = elim (Bool-cases (p.id == id)) [
  | inl e ↦ let same : some p ≡ some q = rw (get-register, e) at h in subst P (some-inj same) new
  | inr e ↦ let earlier : get r id ≡ some q = rw (get-register, e) at h in old id q earlier
]
