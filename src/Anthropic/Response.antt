-- ===== src/Anthropic/Response.antt =====
-- translate_openai_response, extract_usage and error_response of proxy/src/api/anthropic.rs. The
-- parser of JSON and the ids that are drawn are parameters.
use sovereign_engine.Prelude.{
  ℕ, suc, ℤ, pos, String, Option, none, some, List, [], ◌∷◌, ◌++◌, ◌==◌, if◌then◌else◌, unwrap_or,
}
use sovereign_engine.Anthropic.{
  Value, string, object, field, end, OpenaiUsage, translate_stop_reason,
}

pub record OpenaiToolCallFunction : Type 0 where
  pub name : Option String
  pub arguments : Option String

pub record OpenaiToolCall : Type 0 where
  pub id : Option String
  pub function : Option OpenaiToolCallFunction

pub record OpenaiMessage : Type 0 where
  pub content : Option String
  pub tool_calls : Option (List OpenaiToolCall)

pub record OpenaiChoice : Type 0 where
  pub message : Option OpenaiMessage
  pub finish_reason : Option String

pub record OpenaiResponse : Type 0 where
  pub choices : Option (List OpenaiChoice)
  pub usage : Option OpenaiUsage

pub record AnthropicUsage : Type 0 where
  pub input_tokens : ℤ
  pub output_tokens : ℤ

pub record AnthropicResponse : Type 0 where
  pub id : String
  pub response_type : String
  pub role : String
  pub content : List Value
  pub model : String
  pub stop_reason : Option String
  pub stop_sequence : Option Value
  pub usage : AnthropicUsage

pub record AnthropicErrorDetail : Type 0 where
  pub error_type : String
  pub message : String

pub record AnthropicError : Type 0 where
  pub response_type : String
  pub error : AnthropicErrorDetail

-- The status of a response and its body.
unfoldable pub error_response : ℕ → String → String → ℕ × AnthropicError
error_response status error_type message = (
  status,
  record { response_type = "error"; error = record { error_type = error_type; message = message } },
)

-- The tokens of prompt and completion, 0 where they are missing.
unfoldable pub tokens_of : Option OpenaiUsage → ℤ × ℤ
tokens_of none = (pos 0, pos 0)
tokens_of (some u) = (unwrap_or u.prompt_tokens (pos 0), unwrap_or u.completion_tokens (pos 0))

-- extract_usage, of what the parser makes of the body.
unfoldable pub extract_usage : Option OpenaiResponse → ℤ × ℤ
unfolding tokens_of
extract_usage none = (pos 0, pos 0)
extract_usage (some r) = tokens_of r.usage

abbrev pub first_choice : Option (List OpenaiChoice) → Option OpenaiChoice
first_choice none = none
first_choice (some []) = none
first_choice (some (c ∷ cs)) = some c

abbrev pub text_content : String → Value
text_content t = object (field "type" (string "text") (field "text" (string t) end))

abbrev pub tool_use_block : String → String → Value → Value
tool_use_block id name input = object (
    field "type" (string "tool_use")
      (field "id" (string id) (field "name" (string name) (field "input" input end))))

abbrev pub text_contents : Option String → List Value
text_contents none = []
text_contents (some t) = if t == "" then [] else text_content t ∷ []

abbrev pub call_name : Option OpenaiToolCallFunction → String
call_name none = ""
call_name (some f) = unwrap_or f.name ""

abbrev pub call_arguments : Option OpenaiToolCallFunction → String
call_arguments none = "{}"
call_arguments (some f) = unwrap_or f.arguments "{}"

-- An empty content becomes one empty text block.
abbrev pub or_empty_block : List Value → List Value
or_empty_block [] = text_content "" ∷ []
or_empty_block (b ∷ bs) = b ∷ bs

module _ (parse_value : String → Option Value) (generate_tool_use_id : ℕ → String) where
  -- The blocks of the tool calls; the number counts the ids drawn before.
  unfoldable pub tool_blocks : ℕ → List OpenaiToolCall → List Value
  tool_blocks n [] = []
  tool_blocks n (tc ∷ tcs) =
      let id = unwrap_or tc.id "" in
      let missing = id == "" in
      tool_use_block (if missing then generate_tool_use_id n else id) (call_name tc.function)
        (unwrap_or (parse_value (call_arguments tc.function)) (object end))
      ∷ tool_blocks (if missing then suc n else n) tcs

  unfoldable pub content_blocks : Option OpenaiMessage → List Value
  unfolding tool_blocks
  content_blocks none = []
  content_blocks (some m) = text_contents m.content ++ tool_blocks 0 (unwrap_or m.tool_calls [])

  abbrev pub message_of : Option OpenaiChoice → Option OpenaiMessage
  message_of none = none
  message_of (some c) = c.message

  abbrev pub reason_of : Option OpenaiChoice → Option String
  reason_of none = none
  reason_of (some c) = c.finish_reason

  unfoldable pub translate_openai_response : String → OpenaiResponse → String → AnthropicResponse
  unfolding content_blocks tokens_of translate_stop_reason
  translate_openai_response msg_id r requested_model =
      let choice = first_choice r.choices in
      let tokens = tokens_of r.usage in
      record {
        id = msg_id;
        response_type = "message";
        role = "assistant";
        content = or_empty_block (content_blocks (message_of choice));
        model = requested_model;
        stop_reason = some (translate_stop_reason (reason_of choice));
        stop_sequence = none;
        usage = record { input_tokens = tokens.0; output_tokens = tokens.1 };
      }
