-- ===== src/Http/Prompt/Laws.antt =====
-- What the gateway does to the messages of a conversation.
use nexus_ai_gateway.Prelude.{
  String, ◌^◌, ◌≡◌, refl, ap, sym, ◌∙◌, to_lower, true, List, [], ◌∷◌, if◌then◌else◌, All, any,
  Bool-cases, inl, inr,
}
use mathlib.Core.Bool.{false≢true}
use text.Mathlib.TextLemmas.{append_assoc, nil-append}
use nexus_ai_gateway.Provider.{Message}
use nexus_ai_gateway.Http.Prompt.{is_system, direct, direct_messages}

-- A system message ends with the directive.
abbrev pub EndsWith : String → Message → Type 0
EndsWith directive m = is_system m ≡ true → (before : String) × (m.content ≡ before ^ directive)

-- The messages that are no system messages.
abbrev pub turns : List Message → List Message
turns [] = []
turns (m ∷ messages) = let rest = turns messages in if is_system m then rest else m ∷ rest

pub record IsDirected (directive : String) (messages directed : List Message) : Type 0 where
  pub instructed : any is_system directed ≡ true
  pub each : All (EndsWith directive) directed
  pub kept : turns directed ≡ turns messages

direct-kept :
    (directive : String) (messages : List Message)
    → turns (direct directive messages).0 ≡ turns messages
unfolding direct
direct-kept directive [] = refl
direct-kept directive (m ∷ messages) = elim (Bool-cases (is_system m)) [
  | inl system ↦ rw system (rw system (direct-kept directive messages))
  | inr other ↦ rw other (rw other (ap (λ l. m ∷ l) (direct-kept directive messages)))
]

direct-each :
    (directive : String) (messages : List Message)
    → All (EndsWith directive) (direct directive messages).0
unfolding direct
direct-each directive [] = tt
direct-each directive (m ∷ messages) = elim (Bool-cases (is_system m)) [
  | inl system ↦ rw system (
    λ h. (m.content ^ "\n", sym (append_assoc m.content "\n" directive)),
    direct-each directive messages,
  )
  | inr other ↦ rw other (λ h. absurd (false≢true (sym other ∙ h)), direct-each directive messages)
]

direct-found :
    (directive : String) (messages : List Message)
    → any is_system (direct directive messages).0 ≡ (direct directive messages).1
unfolding direct
direct-found directive [] = refl
direct-found directive (m ∷ messages) = elim (Bool-cases (is_system m)) [
  | inl system ↦ rw system (rw system)
  | inr other ↦ rw other (rw other (direct-found directive messages))
]

-- Whatever the roles, spelled in any case: the provider is sent at least one system message, each
-- one ends with the directive, and all other messages are unchanged and in order.
pub direct_messages-IsDirected :
    (directive : String) (messages : List Message)
    → IsDirected directive messages (direct_messages directive messages)
unfolding direct_messages
direct_messages-IsDirected directive messages = elim (Bool-cases (direct directive messages).1) [
  | inl found ↦ rw found (record {
    instructed = direct-found directive messages ∙ found;
    each = direct-each directive messages;
    kept = direct-kept directive messages;
  })
  | inr missing ↦ rw missing (record {
    instructed = unfold is_system to_lower in refl;
    each = (λ _. ("", sym (nil-append directive)), direct-each directive messages);
    kept = unfold is_system to_lower in direct-kept directive messages;
  })
]
