-- ===== src/Switchyard/Context/Distinct.antt =====
-- What a prompt is expanded to: it starts with the prompt, and no path is brought in twice.
use nexus_ai_gateway.Prelude.{
  String, ◌^◌, ◌≡◌, ◌≢◌, refl, sym, ◌∙◌, All-map, false, List, [], ◌∷◌, arith, ◌==◌, eq_iff, any,
  All, Bool-cases, inl, inr, trim_space,
}
use text.Mathlib.TextLemmas.{append-nil, append_assoc}
use nexus_ai_gateway.Domain.Errors.{Result, ok, err}
use nexus_ai_gateway.Switchyard.Paths.{clean}
use nexus_ai_gateway.Switchyard.Context.{
  ContextItem, Found, missing, found_file, found_dir, mentions, read_file_context,
  read_directory_context, read_mention, Gathered, gathered_with, gather, with_blocks, expanded,
  expand_prompt_context,
}

abbrev IsDistinct : List ContextItem → Type 0
IsDistinct [] = Unit
IsDistinct (i ∷ items) = All (λ j. j.path ≢ i.path) items × IsDistinct items

-- An item of a mention has the mention's path.
abbrev HasPath : String → Result (ContextItem × String) → Type 0
HasPath path (ok (item, block)) = item.path ≡ path
HasPath path (err e) = Unit

read_mention-HasPath :
    (raw path : String) (found : Found) → HasPath path (read_mention raw path found)
unfolding read_mention read_file_context read_directory_context
read_mention-HasPath raw path (missing e) = tt
read_mention-HasPath raw path (found_dir nodes) = refl
read_mention-HasPath raw path (found_file size (ok ls)) = refl
read_mention-HasPath raw path (found_file size (err e)) = tt

abbrev Unseen : List String → ContextItem → Type 0
Unseen seen item = any (λ p. p == item.path) seen ≡ false

Unseen-tail :
    (path : String) (seen : List String) (i : ContextItem) → Unseen (path ∷ seen) i → Unseen seen i
Unseen-tail path seen i h = ground (arith)

Unseen-other :
    (path : String) (seen : List String) (i : ContextItem) → Unseen (path ∷ seen) i → i.path ≢ path
Unseen-other path seen i h e = ground (arith, eq_iff path i.path)

gathered_with-IsDistinct :
    (path : String) (seen : List String) (r : Result (ContextItem × String)) (g : Gathered)
    → HasPath path r
    → any (λ p. p == path) seen ≡ false
    → All (Unseen (path ∷ seen)) g.items
    → IsDistinct g.items
    → All (Unseen seen) (gathered_with r g).items × IsDistinct (gathered_with r g).items
unfolding gathered_with
gathered_with-IsDistinct path seen (err e) g at new fresh distinct =
    (All-map (Unseen-tail path seen) g.items fresh, distinct)
gathered_with-IsDistinct path seen (ok (item, block)) g at new fresh distinct = (
  (rw at new, All-map (Unseen-tail path seen) g.items fresh),
  (All-map (λ j h e. Unseen-other path seen j h (e ∙ at)) g.items fresh, distinct),
)

gather-IsDistinct :
    (stat : String → Found) (seen : List String) (ms : List String)
    → All (Unseen seen) (gather stat seen ms).items × IsDistinct (gather stat seen ms).items
unfolding gather
gather-IsDistinct stat seen [] = (tt, tt)
gather-IsDistinct stat seen (m ∷ ms) =
    let raw = trim_space m in
    let path = clean raw in
    elim (Bool-cases (any (λ p. p == path) seen)) [
      | inl old ↦ rw (gather, old) (gather-IsDistinct stat seen ms)
      | inr new ↦
          let (fresh, distinct) = gather-IsDistinct stat (path ∷ seen) ms in
          rw (gather, new)
            (gathered_with-IsDistinct path seen (read_mention raw path (stat path))
              (gather stat (path ∷ seen) ms) (read_mention-HasPath raw path (stat path)) new fresh
              distinct)
    ]

with_blocks-extends :
    (text : String) (bs : List String) → (rest : String) × (with_blocks text bs ≡ text ^ rest)
unfolding with_blocks
with_blocks-extends text [] = ("", sym (append-nil text))
with_blocks-extends text (b ∷ bs) =
    let (rest, e) = with_blocks-extends (text ^ (b ^ "\n")) bs in
    ((b ^ "\n") ^ rest, e ∙ append_assoc text (b ^ "\n") rest)

expanded-extends :
    (input : String) (bs : List String) → (rest : String) × (expanded input bs ≡ input ^ rest)
unfolding expanded
expanded-extends input [] = ("", sym (append-nil input))
expanded-extends input (b ∷ bs) =
    let head : String = "\n\n---\n[Referenced Local Code Context]\n" in
    let (rest, e) = with_blocks-extends (input ^ head) (b ∷ bs) in
    (head ^ rest, e ∙ append_assoc input head rest)

-- Whatever stands at the paths, the expanded prompt starts with the prompt as it was typed, and no path
-- is brought in twice, in however many ways the mentions spell it.
expand_prompt_context-IsDistinct :
    (stat : String → Found) (input : String)
    → ((rest : String) × ((expand_prompt_context stat input).0 ≡ input ^ rest))
      × IsDistinct (expand_prompt_context stat input).1.items
unfolding expand_prompt_context
expand_prompt_context-IsDistinct stat input = (
  expanded-extends input (gather stat [] (mentions input)).blocks,
  (gather-IsDistinct stat [] (mentions input)).1,
)
