-- ===== src/Provider/Stream/Laws.antt =====
-- internal/provider/{openai,anthropic,gemini}/adapter.go: the loop of `StreamChat`, line by line.
use nexus_ai_gateway.Prelude.{
  ℕ, suc, zero, ◌-◌, sym, ◌∙◌, String, ◌+◌, ◌≤◌, ◌≡◌, arith, refl, ap, Bool, true, false, none,
  some, List, [], ◌∷◌, ◌++◌, length, length-append, ◌⊎◌, inl, inr, Bool-cases, Option-cases,
}
use nexus_ai_gateway.Provider.{ChatChunk}
use nexus_ai_gateway.Provider.Stream.{
  Feed, eof, broken, line, payload, failed_chunk, Step, proceed, finish, send_all, pump,
}

-- A context that is never cancelled.
abbrev pub never : ℕ → Bool
never n = false

send_all-never : (n : ℕ) (cs : List ChatChunk) → send_all never n cs ≡ (cs, true)
unfolding send_all
send_all-never n [] = refl
send_all-never n (c ∷ cs) = rw (send_all-never (suc n) cs) refl

module _ {S : Type 0} (ended : Bool) (step : ℕ → S → String → Step S) (n : ℕ) (s : S)
    (text : String) (rest : Feed) where
  pub pump-skip :
      payload text ≡ none
      → pump never ended step n s (line text rest) ≡ pump never ended step n s rest
  unfolding pump
  pump-skip h = rw (h, pump) refl

  module _ (p : String) (h : payload text ≡ some p) where
    pub pump-proceed :
        (s' : S) (cs : List ChatChunk)
        → step n s p ≡ proceed s' cs
        → pump never ended step n s (line text rest)
          ≡ cs ++ pump never ended step (n + length cs) s' rest
    unfolding pump
    pump-proceed s' cs e =
        rw (pump, h, e, send_all-never n cs)
          (ap (λ x. x.0 ++ pump never ended step (n + length cs) s' rest) (send_all-never n cs))

    pub pump-finish :
        (cs : List ChatChunk)
        → step n s p ≡ finish cs
        → pump never ended step n s (line text rest) ≡ cs
    unfolding pump
    pump-finish cs e = rw (pump, h, e) (ap (λ x. x.0) (send_all-never n cs))

-- The chunks are the first ones of the others.
abbrev pub IsPrefix : List ChatChunk → List ChatChunk → Type 0
IsPrefix cs ds = (rest : List ChatChunk) × (cs ++ rest ≡ ds)

IsPrefix-append : (cs ds es : List ChatChunk) → IsPrefix ds es → IsPrefix (cs ++ ds) (cs ++ es)
IsPrefix-append [] ds es p = p
IsPrefix-append (c ∷ cs) ds es p =
    let (rest, e) = IsPrefix-append cs ds es p in (rest, ap (λ t. c ∷ t) e)

append_before : (cs ds es : List ChatChunk) → IsPrefix cs ds → IsPrefix cs (ds ++ es)
append_before [] ds es p = (ds ++ es, refl)
append_before (c ∷ cs) [] es (rest, e) = cc e
append_before (c ∷ cs) (d ∷ ds) es (rest, e) =
    let (more, q) = append_before cs ds es (rest, cc) in (more, cc)

-- What is sent is the start of what was to be sent, and all of it if none was stopped.
send_all-IsPrefix :
    (stops : ℕ → Bool) (n : ℕ) (cs : List ChatChunk)
    → IsPrefix (send_all stops n cs).0 cs
      × ((send_all stops n cs).1 ≡ true → (send_all stops n cs).0 ≡ cs)
unfolding send_all
send_all-IsPrefix stops n [] = (([], refl), λ h. refl)
send_all-IsPrefix stops n (c ∷ cs) = elim (Bool-cases (stops n)) [
  | inl h ↦ rw (send_all, h) ((c ∷ cs, refl), λ h. cc)
  | inr h ↦
      let ((rest, e), all) = send_all-IsPrefix stops (suc n) cs in
      rw (send_all, h) ((rest, ap (λ t. c ∷ t) e), λ k. ap (λ t. c ∷ t) (all k))
]

Step-cases :
    {S : Type 0} (x : Step S)
    → ((s : S) × (cs : List ChatChunk) × (x ≡ proceed s cs))
      ⊎ ((cs : List ChatChunk) × (x ≡ finish cs))
Step-cases (proceed s cs) = inl (s, cs, refl)
Step-cases (finish cs) = inr (cs, refl)

add_zero : (n : ℕ) → n + 0 ≡ n
add_zero n = omega arith

add_suc : (n k : ℕ) → suc n + k ≡ n + suc k
add_suc n k = omega arith

module _ {S : Type 0} (stops : ℕ → Bool) (step : ℕ → S → String → Step S) where
  pump-prefix :
      (n : ℕ) (s : S) (feed : Feed)
      → IsPrefix (pump stops true step n s feed) (pump never false step n s feed)
  unfolding pump
  pump-prefix n s eof = ([], refl)
  pump-prefix n s (broken e) = (failed_chunk e ∷ [], refl)
  pump-prefix n s (line text rest) = elim (Option-cases (payload text)) [
    | inl h ↦ rw (pump-skip false step n s text rest h, pump, h) (pump-prefix n s rest)
    | inr (p, h) ↦ elim (Step-cases (step n s p)) [
      | inr (cs, e) ↦
          rw (pump-finish false step n s text rest p h cs e, pump, h, e)
            (send_all-IsPrefix stops n cs).0
      | inl (s', cs, e) ↦ elim (Bool-cases (send_all stops n cs).1) [
        | inl a ↦
            rw
              (
                pump-proceed false step n s text rest p h s' cs e,
                pump,
                h,
                e,
                a,
                (send_all-IsPrefix stops n cs).1 a,
              )
              (IsPrefix-append cs _ _ (pump-prefix (n + length cs) s' rest))
        | inr a ↦
            rw (pump-proceed false step n s text rest p h s' cs e, pump, h, e, a)
              (append_before _ cs _ (send_all-IsPrefix stops n cs).0)
      ]
    ]
  ]

  -- At most `k` chunks, if the `select` behind `k` of them is stopped.
  send_all-bound :
      (n k : ℕ) (cs : List ChatChunk)
      → stops (n + k) ≡ true
      → (length (send_all stops n cs).0 ≤ k) × ((send_all stops n cs).1 ≡ true → length cs ≤ k)
  unfolding send_all
  send_all-bound n k [] h = (omega arith, λ _. omega arith)
  send_all-bound n zero (c ∷ cs) h =
      let e : stops n ≡ true = ap stops (sym (add_zero n)) ∙ h in
      rw (send_all, e) (omega arith, λ z. cc)
  send_all-bound n (suc k) (c ∷ cs) h = elim (Bool-cases (stops n)) [
    | inl e ↦ rw (send_all, e) (omega arith, λ z. cc)
    | inr e ↦
        let (sent, all) = send_all-bound (suc n) k cs (ap stops (add_suc n k) ∙ h) in
        rw (send_all, e) (omega (arith, sent), λ z. omega (arith, all z))
  ]

  pump-bound :
      (n k : ℕ) (s : S) (feed : Feed)
      → stops (n + k) ≡ true
      → length (pump stops true step n s feed) ≤ k
  unfolding pump
  pump-bound n k s eof h = omega arith
  pump-bound n k s (broken e) h = omega arith
  pump-bound n k s (line text rest) h = elim (Option-cases (payload text)) [
    | inl a ↦ rw (pump, a) (pump-bound n k s rest h)
    | inr (p, a) ↦ elim (Step-cases (step n s p)) [
      | inr (cs, e) ↦ rw (pump, a, e) (send_all-bound n k cs h).0
      | inl (s', cs, e) ↦ elim (Bool-cases (send_all stops n cs).1) [
        | inr b ↦ rw (pump, a, e, b) (send_all-bound n k cs h).0
        | inl b ↦
            let fits = (send_all-bound n k cs h).1 b in
            let sum : n + k ≡ (n + length cs) + (k - length cs) = omega (arith, fits) in
            let later =
              pump-bound (n + length cs) (k - length cs) s' rest (ap stops (sym sum) ∙ h) in
            let all = (send_all-IsPrefix stops n cs).1 b in
            rw (pump, a, e, b, all)
              (omega (
                arith,
                fits,
                later,
                length-append cs (pump stops true step (n + length cs) s' rest),
              ))
      ]
    ]
  ]

  -- A context that is cancelled cuts the stream. Whatever the adapter and the lines: where the context is
  -- done by the time a reading fails, and the `select` on the chunk behind the next `k` takes its end, at
  -- most `k` more chunks are sent, and they are the first ones of those of the stream that is not
  -- cancelled.
  pub pump-IsPrefix :
      (n k : ℕ) (s : S) (feed : Feed)
      → stops (n + k) ≡ true
      → (length (pump stops true step n s feed) ≤ k)
        × IsPrefix (pump stops true step n s feed) (pump never false step n s feed)
  pump-IsPrefix n k s feed h = (pump-bound n k s feed h, pump-prefix n s feed)
