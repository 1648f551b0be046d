-- ===== src/Anthropic/Request.antt =====
-- translate_request of proxy/src/api/anthropic.rs and its helpers: a request of Anthropic's API as a
-- request of OpenAI's.
use sovereign_engine.Prelude.{
  ℕ, String, Bool, true, false, ◌&&◌, Option, none, some, List, [], ◌∷◌, ◌==◌, cat, if◌then◌else◌,
  unwrap_or,
}
use sovereign_engine.Anthropic.{
  Value, null, bool, number, whole, float, string, array, object, Items, nil, cons, Fields, end,
  field, get, as_str, type_is,
}

pub record AnthropicMetadata : Type 0 where
  pub user_id : Option String

pub record AnthropicTool : Type 0 where
  pub name : String
  pub description : Option String
  pub input_schema : Option Value

pub record AnthropicMessage : Type 0 where
  pub role : String
  pub content : Value

-- An f64 is known by its text.
pub record AnthropicRequest : Type 0 where
  pub model : String
  pub max_tokens : ℕ
  pub messages : List AnthropicMessage
  pub system : Option Value
  pub stream : Bool
  pub temperature : Option String
  pub top_p : Option String
  pub stop_sequences : Option (List String)
  pub metadata : Option AnthropicMetadata
  pub tools : Option (List AnthropicTool)

-- The text of a block of type text, if it is one that has a text.
unfoldable pub block_text : Value → Option String
unfolding type_is get
block_text block =
    if type_is "text" block
    then elim (get "text" block) [ none ↦ none | some t ↦ as_str t ]
    else none

-- The text of the system field: a newline stands between two texts unless the first is empty.
unfoldable pub join_lines : String → Items → String
unfolding block_text
join_lines acc nil = acc
join_lines acc (cons b bs) = elim (block_text b) [
  | none ↦ join_lines acc bs
  | some t ↦ join_lines (cat (if acc == "" then acc else cat acc "\n") t) bs
]

unfoldable pub system_to_string : Value → String
unfolding join_lines
system_to_string (string s) = s
system_to_string (array bs) = join_lines "" bs
system_to_string null = ""
system_to_string (bool b) = ""
system_to_string (number n) = ""
system_to_string (object fs) = ""

unfoldable pub join_texts : Items → String
unfolding block_text
join_texts nil = ""
join_texts (cons b bs) = cat (unwrap_or (block_text b) "") (join_texts bs)

unfoldable pub content_to_string : Value → String
unfolding join_texts
content_to_string (string s) = s
content_to_string (array bs) = join_texts bs
content_to_string null = ""
content_to_string (bool b) = ""
content_to_string (number n) = ""
content_to_string (object fs) = ""

-- blocks.iter().any(…)
unfoldable pub any_of_type : String → Items → Bool
unfolding type_is
any_of_type t nil = false
any_of_type t (cons b bs) = if type_is t b then true else any_of_type t bs

abbrev pub has_block : String → Value → Bool
has_block t (array bs) = any_of_type t bs
has_block t null = false
has_block t (bool b) = false
has_block t (number n) = false
has_block t (string s) = false
has_block t (object fs) = false

abbrev pub content_has_tool_use : Value → Bool
content_has_tool_use v = has_block "tool_use" v

abbrev pub content_has_tool_result : Value → Bool
content_has_tool_result v = has_block "tool_result" v

-- block.get(key).and_then(as_str).unwrap_or("")
abbrev pub str_field : String → Value → String
str_field key block = elim (get key block) [ none ↦ "" | some v ↦ unwrap_or (as_str v) "" ]

abbrev pub items_append : Items → Items → Items
items_append nil ys = ys
items_append (cons x xs) ys = cons x (items_append xs ys)

abbrev pub text_message : String → String → Value
text_message role t = object (field "role" (string role) (field "content" (string t) end))

-- The content of a tool result: nothing where the block has none.
abbrev pub result_content : Value → String
result_content block = elim (get "content" block) [ none ↦ "" | some v ↦ content_to_string v ]

abbrev pub tool_message : Value → Value
tool_message block = object (
    field "role" (string "tool") (
      field "tool_call_id" (string (str_field "tool_use_id" block))
        (field "content" (string (result_content block)) end)))

-- A user message with the text gathered so far, if there is one.
abbrev pub flush : String → Items → Items
flush acc rest = if acc == "" then rest else cons (text_message "user" acc) rest

-- The loop of translate_user_tool_result, with the text gathered so far.
unfoldable pub tool_results : String → Items → Items
unfolding content_to_string type_is block_text
tool_results acc nil = flush acc nil
tool_results acc (cons b bs) =
    let after = flush acc (cons (tool_message b) (tool_results "" bs)) in
    let on = tool_results (cat acc (unwrap_or (block_text b) "")) bs in
    if type_is "tool_result" b then after else on

unfoldable pub translate_user_tool_result : Value → Items
unfolding tool_results content_to_string
translate_user_tool_result (array bs) = tool_results "" bs
translate_user_tool_result null = cons (text_message "user" (content_to_string null)) nil
translate_user_tool_result (bool b) = cons (text_message "user" (content_to_string (bool b))) nil
translate_user_tool_result (number n) =
    cons (text_message "user" (content_to_string (number n))) nil
translate_user_tool_result (string s) =
    cons (text_message "user" (content_to_string (string s))) nil
translate_user_tool_result (object fs) =
    cons (text_message "user" (content_to_string (object fs))) nil

-- serde_json::to_string is the parameter print.
module _ (print : Value → String) where
  abbrev pub tool_call : Value → Value
  tool_call block = object (
      field "id" (string (str_field "id" block)) (
        field "type" (string "function") (
          field "function"
            (object (
              field "name" (string (str_field "name" block)) (
                field "arguments" (string (print (unwrap_or (get "input" block) (object end))))
                  end)))
            end)))

  unfoldable pub tool_calls_of : Items → Items
  unfolding type_is get
  tool_calls_of nil = nil
  tool_calls_of (cons b bs) =
      let rest = tool_calls_of bs in if type_is "tool_use" b then cons (tool_call b) rest else rest

  abbrev pub with_tool_calls : Items → Fields
  with_tool_calls nil = end
  with_tool_calls (cons c cs) = field "tool_calls" (array (cons c cs)) end

  unfoldable pub assistant_blocks : Items → Value
  unfolding tool_calls_of join_texts
  assistant_blocks bs =
      let t = join_texts bs in
      object (
        field "role" (string "assistant") (
          field "content" (if t == "" then null else string t)
            (with_tool_calls (tool_calls_of bs))))

  unfoldable pub translate_assistant_tool_use : Value → Value
  unfolding assistant_blocks content_to_string
  translate_assistant_tool_use (array bs) = assistant_blocks bs
  translate_assistant_tool_use null = text_message "assistant" (content_to_string null)
  translate_assistant_tool_use (bool b) = text_message "assistant" (content_to_string (bool b))
  translate_assistant_tool_use (number n) = text_message "assistant" (content_to_string (number n))
  translate_assistant_tool_use (string s) = text_message "assistant" (content_to_string (string s))
  translate_assistant_tool_use (object fs) =
      text_message "assistant" (content_to_string (object fs))

  -- The messages that one message becomes.
  unfoldable pub translate_message : AnthropicMessage → Items
  unfolding translate_assistant_tool_use translate_user_tool_result content_to_string
  translate_message m =
      if m.role == "assistant" && content_has_tool_use m.content
      then cons (translate_assistant_tool_use m.content) nil
      else if m.role == "user" && content_has_tool_result m.content
      then translate_user_tool_result m.content
      else cons (text_message m.role (content_to_string m.content)) nil

  unfoldable pub translate_messages : List AnthropicMessage → Items
  unfolding translate_message
  translate_messages [] = nil
  translate_messages (m ∷ ms) = items_append (translate_message m) (translate_messages ms)

  unfoldable pub system_message : Option Value → Items → Items
  unfolding system_to_string
  system_message none rest = rest
  system_message (some v) rest =
      if system_to_string v == ""
      then rest
      else cons (text_message "system" (system_to_string v)) rest

  abbrev pub optional : String → (String → Value) → Option String → Fields → Fields
  optional key f none rest = rest
  optional key f (some v) rest = field key (f v) rest

  abbrev pub texts : List String → Items
  texts [] = nil
  texts (s ∷ ss) = cons (string s) (texts ss)

  abbrev pub optional_value : String → Option Value → Fields → Fields
  optional_value key none rest = rest
  optional_value key (some v) rest = field key v rest

  abbrev pub tool_function : AnthropicTool → Value
  tool_function t = object (
      field "type" (string "function") (
        field "function"
          (object (
            field "name" (string t.name) (
              optional "description" string t.description
                (optional_value "parameters" t.input_schema end))))
          end))

  abbrev pub tool_functions : List AnthropicTool → Items
  tool_functions [] = nil
  tool_functions (t ∷ ts) = cons (tool_function t) (tool_functions ts)

  abbrev pub float_value : String → Value
  float_value t = number (float t)

  unfoldable pub optional_fields : AnthropicRequest → Fields
  optional_fields req = optional "temperature" float_value req.temperature (
      optional "top_p" float_value req.top_p (
        optional_value "stop"
          (elim req.stop_sequences [ none ↦ none | some s ↦ some (array (texts s)) ])
          (optional_value "tools"
            (elim req.tools [ none ↦ none | some ts ↦ some (array (tool_functions ts)) ])
            (if req.stream
              then field "stream_options" (object (field "include_usage" (bool true) end)) end
              else end))))

  unfoldable pub translate_request : AnthropicRequest → Value
  unfolding system_message translate_messages optional_fields
  translate_request req = object (
      field "model" (string req.model) (
        field "max_tokens" (number (whole req.max_tokens)) (
          field "messages" (array (system_message req.system (translate_messages req.messages)))
            (field "stream" (bool req.stream) (optional_fields req)))))
