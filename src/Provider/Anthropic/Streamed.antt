-- ===== src/Provider/Anthropic/Streamed.antt =====
-- internal/provider/anthropic/adapter.go: the goroutine of `StreamChat` over a whole feed.
use nexus_ai_gateway.Prelude.{
  ℕ, String, ◌^◌, ◌+◌, ◌≡◌, refl, ap, Bool, true, false, Option, some, List, [], ◌∷◌, ◌++◌, ◌==◌,
  any, if◌then◌else◌, Bool-cases, Option-cases, inl, inr, length,
}
use text.Mathlib.TextLemmas.{nil-append}
use nexus_ai_gateway.Prelude.Int.{ℤ, pos, ◌+ℤ◌}
use nexus_ai_gateway.Domain.Errors.{Err, nil, ok}
use nexus_ai_gateway.Provider.{ChatChunk, ChatRequest}
use nexus_ai_gateway.Provider.Adapter.{Adapter, HttpRequest, HttpResponse, answered, Transport}
use nexus_ai_gateway.Provider.Adapter.Laws.{start_stream-opened}
use nexus_ai_gateway.Provider.Stream.{Feed, eof, broken, line, payload, pump, failed_chunk}
use nexus_ai_gateway.Provider.Stream.Laws.{never, pump-skip, pump-proceed, pump-finish}
use nexus_ai_gateway.Provider.Anthropic.{
  WireEvent, Progress, fresh, final_chunk, stream_step, WireRequest, WireResponse, build_request,
  http_request, stream_chat, id, texts,
}
use nexus_ai_gateway.Provider.Anthropic.Laws.{
  events, reply_text, received_text, choices_text, received_text-append, reported_input,
  reported_output, events-skip, events-undecoded, events-decoded, Goes, on_event-Goes,
  on_event-stop,
}

-- The last chunk reports these counts and their sum.
abbrev pub EndsWith : List ChatChunk → ℤ → ℤ → Type 0
EndsWith cs input output =
    (before : List ChatChunk) × (last : ChatChunk) × (cs ≡ before ++ (last ∷ []))
    × (last.usage
        ≡ some
            record { input_tokens = input; output_tokens = output; total_tokens = input +ℤ output })

EndsWith-append : (cs ds : List ChatChunk) (i o : ℤ) → EndsWith ds i o → EndsWith (cs ++ ds) i o
EndsWith-append [] ds i o h = h
EndsWith-append (c ∷ cs) ds i o h =
    let (before, last, e, u) = EndsWith-append cs ds i o h in
    (c ∷ before, last, ap (λ t. c ∷ t) e, u)

abbrev pub stream_request : Adapter → ChatRequest → String → HttpRequest
stream_request a req = http_request a req (("Accept", "text/event-stream") ∷ [])

branch-nil :
    (b : Bool) (text rest : String)
    → (if b then text else "") ^ rest ≡ (if b then text ^ rest else rest)
branch-nil true text rest = refl
branch-nil false text rest = nil-append rest

abbrev pub is_stopped : List WireEvent → Bool
is_stopped = any (λ e. e.kind == "message_stop")

module _ (decode : String → Option WireEvent) (clock : ℕ → ℕ) (ended : Bool) where
  abbrev pub chunks : ℕ → Progress → Feed → List ChatChunk
  chunks = pump never ended (stream_step decode clock)

  -- What is claimed of the rest of a stream.
  record IsFaithful (s : Progress) (cs : List ChatChunk) (es : List WireEvent) : Type 0 where
    text : received_text cs ≡ reply_text es
    usage :
        is_stopped es ≡ true
        → EndsWith cs (reported_input s.input_tokens es) (reported_output s.output_tokens es)

  stop-IsFaithful :
      (now : ℕ) (s : Progress) (e : WireEvent) (es : List WireEvent)
      → (e.kind == "message_stop") ≡ true
      → IsFaithful s (final_chunk now s ∷ []) (e ∷ es)
  unfolding received_text choices_text final_chunk reply_text reported_input reported_output
  stop-IsFaithful now s e es h = record {
    text = rw h refl;
    usage = λ _. rw (h, reported_input, reported_output) ([], final_chunk now s, refl, refl);
  }

  go-IsFaithful :
      (now : ℕ) (s : Progress) (e : WireEvent) (es : List WireEvent) (cs : List ChatChunk)
      (h : (e.kind == "message_stop") ≡ false) (g : Goes now s e)
      → IsFaithful g.next cs es
      → IsFaithful s (g.sent ++ cs) (e ∷ es)
  unfolding reply_text reported_input reported_output
  go-IsFaithful now s e es cs h g f = record {
    text =
        rw (h, received_text-append, g.says, f.text)
          (branch-nil (e.kind == "content_block_delta") e.delta_text (reply_text es));
    usage = λ p.
        let q : is_stopped es ≡ true = rw h at p in
        rw (h, reported_input, reported_output, ← g.hears, ← g.counts)
          (EndsWith-append g.sent cs _ _ (f.usage q));
  }

  broken-IsFaithful : (s : Progress) (e : Err) (n : ℕ) → IsFaithful s (chunks n s (broken e)) []
  unfolding pump received_text choices_text reply_text failed_chunk
  broken-IsFaithful s e n = record {
    text = elim (Bool-cases ended) [ inl h ↦ rw h refl | inr h ↦ rw h refl ];
    usage = λ p. cc;
  }

  module _ (n : ℕ) (s : Progress) (text : String) (rest : Feed)
      (later : (m : ℕ) (t : Progress) → IsFaithful t (chunks m t rest) (events decode rest)) where
    event-IsFaithful :
        (p : String) (e : WireEvent)
        → payload text ≡ some p
        → decode p ≡ some e
        → IsFaithful s (chunks n s (line text rest)) (events decode (line text rest))
    unfolding stream_step
    event-IsFaithful p e h d = elim (Bool-cases (e.kind == "message_stop")) [
      | inl k ↦
          rw
            (
              events-decoded decode text rest p h e d,
              pump-finish ended (stream_step decode clock) n s text rest p h
                  (final_chunk (clock n) s ∷ [])
                  (rw (stream_step, d) (on_event-stop (clock n) s e k)),
            )
            (stop-IsFaithful (clock n) s e (events decode rest) k)
      | inr k ↦
          let g = on_event-Goes (clock n) s e k in
          rw
            (
              events-decoded decode text rest p h e d,
              pump-proceed ended (stream_step decode clock) n s text rest p h g.next g.sent
                  (rw (stream_step, d) g.proceeds),
            )
            (go-IsFaithful (clock n) s e (events decode rest) _ k g
              (later (n + length g.sent) g.next))
    ]

    line-IsFaithful : IsFaithful s (chunks n s (line text rest)) (events decode (line text rest))
    unfolding stream_step
    line-IsFaithful = elim (Option-cases (payload text)) [
      | inl h ↦
          rw
            (
              events-skip decode text rest h,
              pump-skip ended (stream_step decode clock) n s text rest h,
            )
            (later n s)
      | inr (p, h) ↦ elim (Option-cases (decode p)) [
        | inl d ↦
            rw
              (
                events-undecoded decode text rest p h d,
                pump-proceed ended (stream_step decode clock) n s text rest p h s []
                    (rw (stream_step, d) refl),
              )
              (later (n + 0) s)
        | inr (e, d) ↦ event-IsFaithful p e h d
      ]
    ]

  pump-IsFaithful :
      (n : ℕ) (s : Progress) (feed : Feed) → IsFaithful s (chunks n s feed) (events decode feed)
  unfolding pump events received_text reply_text
  pump-IsFaithful n s eof = record { text = refl; usage = λ p. cc }
  pump-IsFaithful n s (broken e) = broken-IsFaithful s e n
  pump-IsFaithful n s (line text rest) =
      line-IsFaithful n s text rest (λ m t. pump-IsFaithful m t rest)

-- A stream that is opened with status 200 and not cancelled delivers the reply: the texts of its chunks
-- make up the text of the message's events, and, if the message ends, the last chunk reports the
-- input, the output and their sum.
pub stream_chat-IsFaithful :
    (transport : Transport WireRequest WireResponse) (decode : String → Option WireEvent)
    (clock : ℕ → ℕ) (ended : Bool) (a : Adapter) (n : ℕ) (req : ChatRequest) (body : String)
    (r : HttpResponse)
    → transport.marshal (build_request req true) ≡ ok body
    → transport.build_error (stream_request a req body) ≡ nil
    → transport.send n (stream_request a req body) ≡ answered r
    → r.status ≡ 200
    → (cs : List ChatChunk) × (stream_chat transport decode clock never ended a n req ≡ ok cs)
      × (received_text cs ≡ reply_text (events decode r.feed))
      × (is_stopped (events decode r.feed) ≡ true
          → EndsWith cs
              (reported_input (pos 0) (events decode r.feed))
              (reported_output (pos 0) (events decode r.feed)))
unfolding stream_chat
stream_chat-IsFaithful transport decode clock ended a n req body r m b x o =
    let f = pump-IsFaithful decode clock ended 0 fresh r.feed in
    (
      chunks decode clock ended 0 fresh r.feed,
      start_stream-opened id texts transport (chunks decode clock ended 0 fresh) n
          (build_request req true) (stream_request a req) body r m b x o,
      f.text,
      f.usage,
    )
