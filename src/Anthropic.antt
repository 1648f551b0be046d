-- ===== src/Anthropic.antt =====
-- Types of proxy/src/api/anthropic.rs: JSON values as serde_json has them, the requests and
-- responses of Anthropic's Messages API, and those of OpenAI's API that the backend speaks.
pub mod Stream
pub mod Request
pub mod Response
pub mod Spoken
pub mod Turns
pub mod Messages
pub mod Tests
use sovereign_engine.Prelude.{
  ℕ, ℤ, String, Bool, false, Option, none, some, List, ◌==◌, if◌then◌else◌,
}

-- serde_json::Number. A number that is not whole is known by its text.
pub data Number : Type 0 where
  whole negative : ℕ → Number
  float : String → Number

-- serde_json::Value. The order of the fields of an object is never read.
mutual
  pub data Value : Type 0 where
    null : Value
    bool : Bool → Value
    number : Number → Value
    string : String → Value
    array : Items → Value
    object : Fields → Value

  pub data Items : Type 0 where
    nil : Items
    cons : Value → Items → Items

  pub data Fields : Type 0 where
    end : Fields
    field : String → Value → Fields → Fields

pub record OpenaiUsage : Type 0 where
  pub prompt_tokens : Option ℤ
  pub completion_tokens : Option ℤ

pub record OpenaiStreamToolCallFunction : Type 0 where
  pub name : Option String
  pub arguments : Option String

pub record OpenaiStreamToolCallDelta : Type 0 where
  pub index : Option ℕ
  pub id : Option String
  pub function : Option OpenaiStreamToolCallFunction

pub record OpenaiStreamDelta : Type 0 where
  pub content : Option String
  pub tool_calls : Option (List OpenaiStreamToolCallDelta)

pub record OpenaiStreamChoice : Type 0 where
  pub delta : Option OpenaiStreamDelta
  pub finish_reason : Option String

pub record OpenaiStreamChunk : Type 0 where
  pub choices : Option (List OpenaiStreamChoice)
  pub usage : Option OpenaiUsage

-- translate_stop_reason
unfoldable pub translate_stop_reason : Option String → String
translate_stop_reason none = "end_turn"
translate_stop_reason (some r) =
    if r == "stop"
    then "end_turn"
    else if r == "length"
    then "max_tokens"
    else if r == "tool_calls"
    then "tool_use"
    else r

-- Value::get with a key, which an object has alone: of two fields with one key the later is meant,
-- and a parser keeps no two.
unfoldable pub get_field : String → Fields → Option Value
get_field k end = none
get_field k (field j v fs) = if j == k then some v else get_field k fs

unfoldable pub get : String → Value → Option Value
unfolding get_field
get k (object fs) = get_field k fs
get k null = none
get k (bool b) = none
get k (number n) = none
get k (string s) = none
get k (array xs) = none

abbrev pub as_str : Value → Option String
as_str (string s) = some s
as_str null = none
as_str (bool b) = none
as_str (number n) = none
as_str (array xs) = none
as_str (object fs) = none

abbrev pub text_is : String → Option String → Bool
text_is t none = false
text_is t (some s) = s == t

-- block.get("type").and_then(as_str) == Some(t)
unfoldable pub type_is : String → Value → Bool
unfolding get
type_is t block = text_is t (elim (get "type" block) [ none ↦ none | some v ↦ as_str v ])
