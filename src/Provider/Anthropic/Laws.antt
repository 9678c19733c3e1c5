-- ===== src/Provider/Anthropic/Laws.antt =====
-- internal/provider/anthropic/adapter.go: what the stream delivers, seen from the events it reads.
use nexus_ai_gateway.Prelude.{
  ℕ, String, ◌^◌, ◌≡◌, refl, sym, ◌∙◌, subst, true, false, Option, none, some, List, [], ◌∷◌, ◌++◌,
  ◌==◌, eq_iff, if◌then◌else◌, Bool-cases, inl, inr,
}
use text.Mathlib.TextLemmas.{nil-append, append_assoc, append-nil}
use nexus_ai_gateway.Prelude.Int.{ℤ}
use nexus_ai_gateway.Provider.{ChatChunk, StreamChoice}
use nexus_ai_gateway.Provider.Stream.{Feed, eof, broken, line, payload, proceed, finish}
use nexus_ai_gateway.Provider.Anthropic.{
  WireEvent, Progress, text_chunk, final_chunk, with_output, on_event,
}

-- The events of a feed: the payloads that are decoded, in order.
unfoldable pub events : (String → Option WireEvent) → Feed → List WireEvent
events decode eof = []
events decode (broken e) = []
events decode (line text rest) = elim (payload text) [
  | none ↦ events decode rest
  | some p ↦ elim (decode p) [ none ↦ events decode rest | some e ↦ e ∷ events decode rest ]
]

module _ (decode : String → Option WireEvent) (text : String) (rest : Feed) where
  pub events-skip : payload text ≡ none → events decode (line text rest) ≡ events decode rest
  unfolding events
  events-skip h = rw (h, events) refl

  module _ (p : String) (h : payload text ≡ some p) where
    pub events-undecoded : decode p ≡ none → events decode (line text rest) ≡ events decode rest
    unfolding events
    events-undecoded d = rw (events, h, d) refl

    pub events-decoded :
        (e : WireEvent)
        → decode p ≡ some e
        → events decode (line text rest) ≡ e ∷ events decode rest
    unfolding events
    events-decoded e d = rw (events, h, d) refl

-- The text of the reply: the deltas up to the end of the message.
unfoldable pub reply_text : List WireEvent → String
reply_text [] = ""
reply_text (e ∷ es) =
    let rest = reply_text es in
    if e.kind == "message_stop"
    then ""
    else if e.kind == "content_block_delta"
    then e.delta_text ^ rest
    else rest

unfoldable pub choices_text : List StreamChoice → String
choices_text [] = ""
choices_text (c ∷ cs) = c.delta.content ^ choices_text cs

-- The text that a client puts together from the chunks.
unfoldable pub received_text : List ChatChunk → String
unfolding choices_text
received_text [] = ""
received_text (c ∷ cs) = choices_text c.choices ^ received_text cs

apart : (k a b : String) → (k == a) ≡ true → (a == b) ≡ false → (k == b) ≡ false
apart k a b h d = subst (λ x. (x == b) ≡ false) (sym ((eq_iff k a).0 h)) d

-- The counts that the events up to the end of the message report, after those given: the last input
-- of a start, and the last output of a delta that has one.
unfoldable pub reported_input : ℤ → List WireEvent → ℤ
reported_input n [] = n
reported_input n (e ∷ es) = elim (e.kind == "message_stop") [
  | true ↦ n
  | false ↦ reported_input (if e.kind == "message_start" then e.input_tokens else n) es
]

unfoldable pub count_or : ℤ → Option ℤ → ℤ
count_or n none = n
count_or n (some m) = m

unfoldable pub reported_output : ℤ → List WireEvent → ℤ
unfolding count_or
reported_output n [] = n
reported_output n (e ∷ es) = elim (e.kind == "message_stop") [
  | true ↦ n
  | false ↦ reported_output (if e.kind == "message_delta" then count_or n e.output_tokens else n) es
]

-- What an event other than the end of the message does.
pub record Goes (now : ℕ) (s : Progress) (e : WireEvent) : Type 0 where
  pub next : Progress
  pub sent : List ChatChunk
  pub proceeds : on_event now s e ≡ proceed next sent
  pub says : received_text sent ≡ (if e.kind == "content_block_delta" then e.delta_text else "")
  pub hears :
      next.input_tokens ≡ (if e.kind == "message_start" then e.input_tokens else s.input_tokens)
  pub counts : next.output_tokens ≡ (
      if e.kind == "message_delta"
      then count_or s.output_tokens e.output_tokens
      else s.output_tokens)

with_output-input : (s : Progress) (n : Option ℤ) → (with_output s n).input_tokens ≡ s.input_tokens
unfolding with_output
with_output-input s none = refl
with_output-input s (some n) = refl

with_output-output :
    (s : Progress) (n : Option ℤ) → (with_output s n).output_tokens ≡ count_or s.output_tokens n
unfolding with_output count_or
with_output-output s none = refl
with_output-output s (some n) = refl

delta-text :
    (now : ℕ) (s : Progress) (text : String)
    → received_text (if text == "" then [] else text_chunk now s text ∷ []) ≡ text
unfolding received_text choices_text text_chunk
delta-text now s text = elim (Bool-cases (text == "")) [
  | inl h ↦ rw h (sym ((eq_iff text "").0 h))
  | inr h ↦ rw h (append-nil (text ^ "") ∙ append-nil text)
]

pub on_event-Goes :
    (now : ℕ) (s : Progress) (e : WireEvent) → (e.kind == "message_stop") ≡ false → Goes now s e
unfolding on_event received_text
on_event-Goes now s e h = elim (Bool-cases (e.kind == "message_start")) [
  | inl a ↦ record {
    next = record s {
      message_id = e.message_id;
      model = e.message_model;
      input_tokens = e.input_tokens;
    };
    sent = [];
    proceeds = rw a refl;
    says = rw (apart e.kind "message_start" "content_block_delta" a refl) refl;
    hears = rw a refl;
    counts = rw (apart e.kind "message_start" "message_delta" a refl) refl;
  }
  | inr a ↦ elim (Bool-cases (e.kind == "content_block_delta")) [
    | inl b ↦ record {
      next = s;
      sent = if e.delta_text == "" then [] else text_chunk now s e.delta_text ∷ [];
      proceeds = rw (a, b) refl;
      says = rw b (delta-text now s e.delta_text);
      hears = rw a refl;
      counts = rw (apart e.kind "content_block_delta" "message_delta" b refl) refl;
    }
    | inr b ↦ elim (Bool-cases (e.kind == "message_delta")) [
      | inl c ↦ record {
        next = with_output s e.output_tokens;
        sent = [];
        proceeds = rw (a, b, c) refl;
        says = rw b refl;
        hears = rw a (with_output-input s e.output_tokens);
        counts = rw c (with_output-output s e.output_tokens);
      }
      | inr c ↦ record {
        next = s;
        sent = [];
        proceeds = rw (a, b, c, h) refl;
        says = rw b refl;
        hears = rw a refl;
        counts = rw c refl;
      }
    ]
  ]
]

pub on_event-stop :
    (now : ℕ) (s : Progress) (e : WireEvent)
    → (e.kind == "message_stop") ≡ true
    → on_event now s e ≡ finish (final_chunk now s ∷ [])
unfolding on_event
on_event-stop now s e h =
    rw
      (
        apart e.kind "message_stop" "message_start" h refl,
        apart e.kind "message_stop" "content_block_delta" h refl,
        apart e.kind "message_stop" "message_delta" h refl,
        h,
      )
      refl

pub received_text-append :
    (cs ds : List ChatChunk) → received_text (cs ++ ds) ≡ received_text cs ^ received_text ds
unfolding received_text
received_text-append [] ds = sym (nil-append _)
received_text-append (c ∷ cs) ds = rw (received_text-append cs ds) (sym (append_assoc _ _ _))
