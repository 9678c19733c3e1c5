-- ===== src/Provider/Stream.antt =====
-- internal/provider/{openai,anthropic,gemini}/adapter.go: how the goroutine of `StreamChat` reads lines
-- and sends chunks.
pub mod Laws
use nexus_ai_gateway.Prelude.{
  ℕ, suc, ◌+◌, String, Bool, true, false, Option, none, some, List, [], ◌∷◌, ◌++◌, length,
  if◌then◌else◌, trim_space, strip_prefix,
}
use nexus_ai_gateway.Domain.Errors.{Err}
use nexus_ai_gateway.Provider.{ChatChunk}

-- What `ReadString('\n')` gives, call by call: a line, or an error at last, `io.EOF` or another. Text
-- behind the last line break comes with the error, and the code drops it.
pub data Feed : Type 0 where
  eof : Feed
  broken : Err → Feed
  line : String → Feed → Feed

-- The payload of a line that has one.
unfoldable pub payload : String → Option String
payload text = elim (strip_prefix (trim_space text) "data:") [
  | none ↦ none
  | some rest ↦ some (trim_space rest)
]

unfoldable pub failed_chunk : Err → ChatChunk
failed_chunk e = record {
  id = "";
  object = "";
  created = 0;
  model = "";
  provider_id = "";
  choices = [];
  usage = none;
  failed = e;
}

-- What one line leads to: the goroutine goes on with a new state, after it sent the chunks, or it
-- sends them and returns.
pub data Step {ℓ} (S : Type ℓ) : Type ℓ where
  proceed : S → List ChatChunk → Step S
  finish : List ChatChunk → Step S

-- What is sent up to the first `select` that takes `ctx.Done()`. `stops n` tells that the `select` on
-- the chunk after the first `n` does so. The second part tells whether all were sent.
unfoldable pub send_all : (ℕ → Bool) → ℕ → List ChatChunk → List ChatChunk × Bool
send_all stops n [] = ([], true)
send_all stops n (c ∷ cs) = elim (stops n) [
  | true ↦ ([], false)
  | false ↦ let (sent, all) = send_all stops (suc n) cs in (c ∷ sent, all)
]

-- The loop. `ended` tells whether the context was done when the reading failed, and `step` is what the
-- adapter does with a payload, given the count of the chunks sent before.
module _ {S : Type 0} (stops : ℕ → Bool) (ended : Bool) (step : ℕ → S → String → Step S) where
  unfoldable pub pump : ℕ → S → Feed → List ChatChunk
  pump n s eof = []
  pump n s (broken e) = if ended then [] else failed_chunk e ∷ []
  pump n s (line text rest) = elim (payload text) [
    | none ↦ pump n s rest
    | some p ↦ elim (step n s p) [
      | finish cs ↦ (send_all stops n cs).0
      | proceed s' cs ↦ elim (send_all stops n cs).1 [
        | true ↦ (send_all stops n cs).0 ++ pump (n + length cs) s' rest
        | false ↦ (send_all stops n cs).0
      ]
    ]
  ]
