-- ===== src/Http/Models.antt =====
-- internal/http/handlers/models.go: GET /v1/models. The store's answer and the clock are arguments.
use nexus_ai_gateway.Prelude.{
  ℕ, String, true, false, Option, none, some, List, [], ◌∷◌, ◌++◌, map, any, ◌==◌, ◌/◌,
  if◌then◌else◌,
}
use nexus_ai_gateway.Domain.Errors.{Result, ok, err}
use nexus_ai_gateway.Domain.Models.{ModelAlias, ModelCapabilities}
use nexus_ai_gateway.Http.Response.{ErrorResponse, write_error}

pub record ModelItem : Type 0 where
  pub id : String
  pub object : String
  pub created : ℕ
  pub owned_by : String
  pub capabilities : ModelCapabilities

-- Times are nanoseconds, and `Unix` is in seconds.
unfoldable pub item_of : ModelAlias → ModelItem
item_of a = record {
  id = a.alias;
  object = "model";
  created = a.created_at / 1000000000;
  owned_by = a.provider;
  capabilities = a.capabilities;
}

unfoldable pub well_known_item : ℕ → String → ModelItem
well_known_item now name = record {
  id = name;
  object = "model";
  created = now / 1000000000;
  owned_by = "nexus";
  capabilities = record {
    chat = true;
    streaming = true;
    function_call = false;
    vision = false;
    max_context_tokens = 0;
    input_price = 0;
    output_price = 0;
  };
}

-- The loop over the well-known aliases: those that are missing are appended.
unfoldable pub with_well_known : ℕ → List String → List ModelItem → List ModelItem
with_well_known now [] items = items
with_well_known now (name ∷ names) items =
    with_well_known now names
      (if any (λ d. d.id == name) items then items else items ++ (well_known_item now name ∷ []))

abbrev pub well_known : List String
well_known = "smart" ∷ "cheap" ∷ "fast" ∷ "quality" ∷ []

pub data ModelsReply : Type 0 where
  models_listed : List ModelItem → ModelsReply
  models_refused : ErrorResponse → ModelsReply

-- `none` is the panic of `writeError` on nil.
unfoldable pub list_models : String → ℕ → Result (List ModelAlias) → Option ModelsReply
list_models request_id now (err e) = elim (write_error request_id e) [
  | none ↦ none
  | some r ↦ some (models_refused r)
]
list_models request_id now (ok aliases) =
    some (models_listed (with_well_known now well_known (map item_of aliases)))
