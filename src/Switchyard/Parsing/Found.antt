-- ===== src/Switchyard/Parsing/Found.antt =====
-- What `ParseProposedEdits` returns.
use Prim.Native.String.{count}
use text.Mathlib.TextLemmas.{length-append, append_assoc}
use nexus_ai_gateway.Prelude.{
  ℕ, ◌+◌, ◌≤◌, ◌<◌, String, ◌^◌, ◌≡◌, ◌≢◌, refl, sym, ap, ◌∙◌, subst, none, some, bind-eq-some,
  List, ◌++◌, arith, strip_prefix, cut, trim_space,
}
use nexus_ai_gateway.Switchyard.Edits.{ProposedEdit}
use nexus_ai_gateway.Switchyard.Parsing.{path_line, match_edit, match_write, parse_proposed_edits}
use nexus_ai_gateway.Switchyard.Parsing.Texts.{
  some_pair-inj, strip_prefix-append, cut-append, path_line-append,
}
use nexus_ai_gateway.Switchyard.Parsing.Blocks.{Blocks, IsThorough, IsShrinking, find_all-Finds}
use nexus_ai_gateway.Switchyard.Parsing.Earliest.{IsFirst, cut-IsFirst}
use nexus_ai_gateway.Switchyard.Parsing.Finding.{
  IsLine, IsCut, strip_prefix-finds, path_line-finds, append-IsCut,
}

-- A text that starts with the block of an edit.
pub record IsEdit (s : String) (e : ProposedEdit) (rest : String) : Type 0 where
  pub path : String
  pub named : path ≢ ""
  pub line : IsLine path
  pub trimmed : e.file_path ≡ trim_space path
  pub action : e.action ≡ "edit"
  pub text :
      s
      ≡ "```edit:"
        ^ (path
            ^ ("\n"
                ^ ("<<<<<<< SEARCH\n"
                    ^ (e.old_text
                        ^ ("\n=======\n" ^ (e.new_text ^ ("\n>>>>>>> REPLACE\n```" ^ rest)))))))
  pub first_old : IsFirst "\n=======\n" e.old_text (e.new_text ^ ("\n>>>>>>> REPLACE\n```" ^ rest))
  pub first_new : IsFirst "\n>>>>>>> REPLACE\n```" e.new_text rest

-- A text that starts with the block of a write.
pub record IsWrite (s : String) (e : ProposedEdit) (rest : String) : Type 0 where
  pub path : String
  pub named : path ≢ ""
  pub line : IsLine path
  pub trimmed : e.file_path ≡ trim_space path
  pub action : e.action ≡ "write"
  pub old_text : e.old_text ≡ ""
  pub text : s ≡ "```write:" ^ (path ^ ("\n" ^ (e.new_text ^ ("```" ^ rest))))
  pub first_new : IsFirst "```" e.new_text rest

abbrev edit_of : String → String → String → ProposedEdit
edit_of path old new = record {
  file_path = trim_space path;
  old_text = old;
  new_text = new;
  action = "edit";
}

edit_of-IsEdit :
    (s path r body old after new end : String)
    → path_line "```edit:" s ≡ some (path, r)
    → strip_prefix r "<<<<<<< SEARCH\n" ≡ some body
    → cut body "\n=======\n" ≡ some (old, after)
    → cut after "\n>>>>>>> REPLACE\n```" ≡ some (new, end)
    → IsEdit s (edit_of path old new) end
edit_of-IsEdit s path r body old after new end e1 e2 e3 e4 = record {
  path = path;
  named = (path_line-append "```edit:" s path r e1).0;
  line = (path_line-append "```edit:" s path r e1).1;
  trimmed = refl;
  action = refl;
  text =
      (path_line-append "```edit:" s path r e1).2
      ∙ ap (λ t. "```edit:" ^ (path ^ ("\n" ^ t)))
          (strip_prefix-append r "<<<<<<< SEARCH\n" body e2
            ∙ ap (λ t. "<<<<<<< SEARCH\n" ^ t)
                (cut-append body "\n=======\n" old after e3
                  ∙ ap (λ t. old ^ ("\n=======\n" ^ t))
                      (cut-append after "\n>>>>>>> REPLACE\n```" new end e4)));
  first_old =
      subst (IsFirst "\n=======\n" old) (cut-append after "\n>>>>>>> REPLACE\n```" new end e4)
        (cut-IsFirst body "\n=======\n" old after e3);
  first_new = cut-IsFirst after "\n>>>>>>> REPLACE\n```" new end e4;
}

-- Where an edit is matched, the fences, the path, the old and the new text stand in this order, and the
-- text behind the block is left; the path of the edit is that of the block without the space around it.
pub match_edit-IsEdit :
    (s rest : String) (e : ProposedEdit) → match_edit s ≡ some (e, rest) → IsEdit s e rest
unfolding match_edit
match_edit-IsEdit s rest e h =
    let ((path, r), e1, h1) = bind-eq-some (path_line "```edit:" s) _ h in
    let (body, e2, h2) = bind-eq-some (strip_prefix r "<<<<<<< SEARCH\n") _ h1 in
    let ((old, after), e3, h3) = bind-eq-some (cut body "\n=======\n") _ h2 in
    let ((new, end), e4, h4) = bind-eq-some (cut after "\n>>>>>>> REPLACE\n```") _ h3 in
    let (p, q) = some_pair-inj h4 in
    subst (λ x. IsEdit s x rest) p
      (subst (IsEdit s (edit_of path old new)) q
        (edit_of-IsEdit s path r body old after new end e1 e2 e3 e4))

abbrev write_of : String → String → ProposedEdit
write_of path content = record {
  file_path = trim_space path;
  old_text = "";
  new_text = content;
  action = "write";
}

write_of-IsWrite :
    (s path r content end : String)
    → path_line "```write:" s ≡ some (path, r)
    → cut r "```" ≡ some (content, end)
    → IsWrite s (write_of path content) end
write_of-IsWrite s path r content end e1 e2 = record {
  path = path;
  named = (path_line-append "```write:" s path r e1).0;
  line = (path_line-append "```write:" s path r e1).1;
  trimmed = refl;
  action = refl;
  old_text = refl;
  text =
      (path_line-append "```write:" s path r e1).2
      ∙ ap (λ t. "```write:" ^ (path ^ ("\n" ^ t))) (cut-append r "```" content end e2);
  first_new = cut-IsFirst r "```" content end e2;
}

match_write-IsWrite :
    (s rest : String) (e : ProposedEdit) → match_write s ≡ some (e, rest) → IsWrite s e rest
unfolding match_write
match_write-IsWrite s rest e h =
    let ((path, r), e1, h1) = bind-eq-some (path_line "```write:" s) _ h in
    let ((content, end), e2, h2) = bind-eq-some (cut r "```") _ h1 in
    let (p, q) = some_pair-inj h2 in
    subst (λ x. IsWrite s x rest) p
      (subst (IsWrite s (write_of path content)) q (write_of-IsWrite s path r content end e1 e2))

behind : {n : ℕ} (a b : String) → n ≤ count b → n ≤ count (a ^ b)
behind a b h = omega (arith, length-append a b, h)

opened : {n : ℕ} (word t s : String) → 0 < count word → s ≡ word ^ t → n ≤ count t → n < count s
opened word t s h e le = omega (arith, h, le, ap count e ∙ length-append word t)

match_edit-IsShrinking : IsShrinking IsEdit match_edit
match_edit-IsShrinking s rest e found = opened "```edit:" _ s (omega arith) found.text (
    behind found.path _ (
      behind "\n" _ (
        behind "<<<<<<< SEARCH\n" _ (
          behind e.old_text _ (
            behind "\n=======\n" _
              (behind e.new_text _ (behind "\n>>>>>>> REPLACE\n```" rest (omega arith))))))))

match_write-IsShrinking : IsShrinking IsWrite match_write
match_write-IsShrinking s rest e found =
    opened "```write:" _ s (omega arith) found.text
      (behind found.path _ (behind "\n" _ (behind e.new_text _ (behind "```" rest (omega arith)))))

some≢none : {A : Type 0} {x : A} → some x ≡ none → ⊥
some≢none h = cc

edit-found :
    (path old new rest : String)
    → path ≢ ""
    → IsLine path
    → (x : ProposedEdit × String) × (match_edit (
          "```edit:"
          ^ (path
              ^ ("\n"
                  ^ ("<<<<<<< SEARCH\n"
                      ^ (old ^ ("\n=======\n" ^ (new ^ ("\n>>>>>>> REPLACE\n```" ^ rest))))))))
        ≡ some x)
unfolding match_edit
edit-found path old new rest named line =
    let behind_old = new ^ ("\n>>>>>>> REPLACE\n```" ^ rest) in
    let body = old ^ ("\n=======\n" ^ behind_old) in
    let (before, after, mid, e, k) = append-IsCut old "\n=======\n" behind_old in
    let whole : after ≡ (mid ^ new) ^ ("\n>>>>>>> REPLACE\n```" ^ rest) =
      k ∙ sym (append_assoc mid new ("\n>>>>>>> REPLACE\n```" ^ rest)) in
    let (content, end, mid2, f, _) =
      subst (λ s. IsCut s "\n>>>>>>> REPLACE\n```" rest) (sym whole)
        (append-IsCut (mid ^ new) "\n>>>>>>> REPLACE\n```" rest) in
    (
      (edit_of path before content, end),
      rw
          (
            match_edit,
            path_line-finds "```edit:" path ("<<<<<<< SEARCH\n" ^ body) named line,
            strip_prefix-finds "<<<<<<< SEARCH\n" body,
            e,
            f,
          )
          refl,
    )

match_edit-IsThorough : IsThorough IsEdit match_edit
match_edit-IsThorough s n e rest found =
    let (x, f) = edit-found found.path e.old_text e.new_text rest found.named found.line in
    some≢none (sym f ∙ sym (ap match_edit found.text) ∙ n)

write-found :
    (path content rest : String)
    → path ≢ ""
    → IsLine path
    → (x : ProposedEdit × String) × (match_write
          ("```write:" ^ (path ^ ("\n" ^ (content ^ ("```" ^ rest)))))
        ≡ some x)
unfolding match_write
write-found path content rest named line =
    let (before, after, mid, e, k) = append-IsCut content "```" rest in
    (
      (write_of path before, after),
      rw (match_write, path_line-finds "```write:" path (content ^ ("```" ^ rest)) named line, e)
          refl,
    )

match_write-IsThorough : IsThorough IsWrite match_write
match_write-IsThorough s n e rest found =
    let (x, f) = write-found found.path e.new_text rest found.named found.line in
    some≢none (sym f ∙ sym (ap match_write found.text) ∙ n)

-- For any response the parser ends, and returns first the edits and then the writes. Each of the two
-- lists is read off the response from left to right: the blocks stand in it one behind the other, and no
-- block of the kind starts between two of them or after the last. An edit's block is the fence with the
-- path on one line, the old text and the new text between their marks, in this order; a write's is the
-- fence with the path on one line and the new text. Each text ends at the first mark that can end it, and
-- the path is returned without the space around it.
pub parse_proposed_edits-Blocks :
    (response : String)
    → (edits : List ProposedEdit) × (writes : List ProposedEdit) × (parse_proposed_edits response
        ≡ some (edits ++ writes))
      × Blocks IsEdit edits response
      × Blocks IsWrite writes response
unfolding parse_proposed_edits
parse_proposed_edits-Blocks response =
    let n = count response + 1 in
    let (edits, e, b) =
      find_all-Finds IsEdit match_edit match_edit-IsEdit match_edit-IsThorough
        match_edit-IsShrinking n response (omega arith) in
    let (writes, w, c) =
      find_all-Finds IsWrite match_write match_write-IsWrite match_write-IsThorough
        match_write-IsShrinking n response (omega arith) in
    (edits, writes, rw (parse_proposed_edits, e, w) refl, b, c)
