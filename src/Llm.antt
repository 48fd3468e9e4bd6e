-- ===== src/Llm.antt =====
-- internal/llm/client.go: the client of an OpenAI-compatible API. The HTTP call is a parameter, and so
-- is the decoding of its answer; the fields of an answer are taken to be no less than 0.
use acgc_project.Common.{
  ℕ, Str, List, [], ◌∷◌, ◌++◌, Bool, true, false, ◌&&◌, not, Option, none, some, if◌then◌else◌,
  is_empty, any, codes, has_prefix, to_lower, str_eq, ltb, ◌==◌,
}
use acgc_project.Domain.{Floats}
pub mod Compressor
pub mod Branches

pub record ChatMessage : Type 0 where
  pub role : Str
  pub content : Str

-- `Config` of this package
pub record ClientConfig : Type 0 where
  pub provider : Str
  pub base_url : Str
  pub api_key : Str
  pub model : Str

-- `Client`, with the HTTP client left out
pub record Client : Type 0 where
  pub base_url : Str
  pub api_key : Str
  pub model : Str

unfoldable pub new_client : ClientConfig → Client
new_client cfg = record {
  base_url =
      if is_empty cfg.base_url
      then (if str_eq cfg.provider (codes "anthropic")
          then codes "https://api.anthropic.com/v1"
          else codes "https://api.openai.com/v1")
      else cfg.base_url;
  api_key = cfg.api_key;
  model = cfg.model;
}

unfoldable pub is_reasoning_model : Client → Bool
is_reasoning_model c =
    any (λ prefix. has_prefix (to_lower c.model) prefix)
      (codes "o1" ∷ codes "o3" ∷ codes "gpt-5" ∷ [])

-- the request: `none` for a key of the body or a header that is not set
pub record Request (fl : Floats) : Type 0 where
  pub url : Str
  pub model : Str
  pub messages : List ChatMessage
  pub temperature : Option fl.F
  pub max_completion_tokens : Option ℕ
  pub authorization : Option Str

pub record Choice : Type 0 where
  pub message : ChatMessage
  pub finish_reason : Str

-- `chatResponse`, less its total
pub record ChatResponse : Type 0 where
  pub choices : List Choice
  pub prompt_tokens : ℕ
  pub completion_tokens : ℕ
  pub cached_tokens : ℕ

-- an HTTP answer that was read: its status, and its body if that can be decoded
pub record HttpResponse : Type 0 where
  pub status_code : ℕ
  pub body : Option ChatResponse

pub record GenerateResult : Type 0 where
  pub content : Str
  pub prompt_tokens : ℕ
  pub completion_tokens : ℕ
  pub cached_prompt_tokens : ℕ
  pub finish_reason : Str

module _ (fl : Floats) where
  unfoldable pub build_request : Client → List ChatMessage → fl.F → ℕ → Request fl
  unfolding is_reasoning_model
  build_request c messages temperature max_tokens = record {
    url = c.base_url ++ codes "/chat/completions";
    model = c.model;
    messages = messages;
    temperature =
        if not (is_reasoning_model c) && fl.lt (fl.literal 0 0) temperature
        then some temperature
        else none;
    max_completion_tokens = if ltb 0 max_tokens then some max_tokens else none;
    authorization = if is_empty c.api_key then none else some (codes "Bearer " ++ c.api_key);
  }

  -- what follows the read of the body
  unfoldable pub read_response : HttpResponse → Option GenerateResult
  read_response r = if not (r.status_code == 200) then none else elim r.body [
    | none ↦ none
    | some b ↦ elim b.choices [
      | [] ↦ none
      | choice ∷ more ↦ some (record {
        content = choice.message.content;
        prompt_tokens = b.prompt_tokens;
        completion_tokens = b.completion_tokens;
        cached_prompt_tokens = b.cached_tokens;
        finish_reason = choice.finish_reason;
      })
    ]
  ]

  -- `Generate`; `post` makes the HTTP call, and `none` is an error
  unfoldable pub generate :
      (Request fl → Option HttpResponse)
      → Client
      → List ChatMessage
      → fl.F
      → ℕ
      → Option GenerateResult
  unfolding build_request read_response
  generate post c messages temperature max_tokens =
      elim (post (build_request c messages temperature max_tokens)) [
        | none ↦ none
        | some r ↦ read_response r
      ]
