-- ===== src/Switchyard/Paths.antt =====
-- What cmd/switchyard uses of Go's path/filepath, for the separator '/'.
use Prim.Native.Char.{code}
use Prim.Native.String.{[] as ε, ◌∷◌ as ◌⊳◌}
use nexus_ai_gateway.Prelude.{
  ℕ, String, ◌^◌, ◌≡◌, refl, Bool, true, false, ◌&&◌, ◌||◌, not, Option, none, some, List, [], ◌∷◌,
  ◌==◌, eqb, if◌then◌else◌, has_prefix,
}

-- The parts between separators, empty ones included.
unfoldable pub split_path : String → List String
split_path ε = ε ∷ []
split_path (c ⊳ s) = elim (eqb (code c) b'/') [
  | true ↦ ε ∷ split_path s
  | false ↦ elim (split_path s) [ [] ↦ (c ⊳ ε) ∷ [] | part ∷ parts ↦ (c ⊳ part) ∷ parts ]
]

-- The parts of a cleaned path, the last one first: ".." takes the part before it away, and stays
-- only at the start of a path that is not rooted.
unfoldable pub push_part : Bool → String → List String → List String
push_part rooted part stack =
    if part == "" || part == "."
    then stack
    else if part == ".."
    then elim stack [
      | [] ↦ if rooted then [] else ".." ∷ []
      | last ∷ rest ↦ if last == ".." then ".." ∷ (last ∷ rest) else rest
    ]
    else part ∷ stack

unfoldable pub push_parts : Bool → List String → List String → List String
push_parts rooted [] stack = stack
push_parts rooted (part ∷ parts) stack = push_parts rooted parts (push_part rooted part stack)

-- The parts of a stack, joined in the order of the path.
unfoldable pub join_stack : List String → String → String
join_stack [] path = path
join_stack (part ∷ stack) path = join_stack stack (if path == "" then part else part ^ ("/" ^ path))

-- filepath.Clean
unfoldable pub clean : String → String
clean path =
    let rooted = has_prefix path "/" in
    let rest = join_stack (push_parts rooted (split_path path) []) "" in
    if rooted then "/" ^ rest else if rest == "" then "." else rest

unfoldable pub last_part : List String → Option String
last_part [] = none
last_part (part ∷ parts) = elim (last_part parts) [
  | some last ↦ some last
  | none ↦ if part == "" then none else some part
]

-- filepath.Base
unfoldable pub base : String → String
base path =
    if path == "" then "." else elim (last_part (split_path path)) [ none ↦ "/" | some part ↦ part ]

-- Some rest of the text, behind characters that are no separators, passes the test.
unfoldable pub skips : (String → Bool) → String → Bool
skips test ε = test ε
skips test (c ⊳ s) = test (c ⊳ s) || (not (eqb (code c) b'/') && skips test s)

unfoldable pub starts : ℕ → (String → Bool) → String → Bool
starts d test ε = false
starts d test (c ⊳ s) = eqb (code c) d && test s

-- filepath.Match for a pattern whose only special character is '*': any text without a separator.
unfoldable pub matches : String → String → Bool
matches ε s = s == ""
matches (c ⊳ p) s = elim (eqb (code c) b'*') [
  | true ↦ skips (matches p) s
  | false ↦ starts (code c) (matches p) s
]

paths_test : Bool
unfolding clean base matches split_path push_part push_parts join_stack last_part skips starts
paths_test =
    clean "./a//b/../c/" == "a/c"
    && clean "../x" == "../x"
    && clean "/.." == "/"
    && clean "" == "."
    && base "a/c" == "c"
    && matches ".env*" ".env.local"
    && matches "*.pem" "ca.pem"
    && not (matches "*.pem" "ca.pem.txt")

paths_test-true : paths_test ≡ true
unfolding paths_test clean base matches split_path push_part push_parts join_stack last_part skips
    starts has_prefix
paths_test-true = refl
