-- ===== src/Anthropic/Stream.antt =====
-- The state machine of transform_stream in proxy/src/api/anthropic.rs: what one event of the
-- backend's stream adds to the events sent to the client. The client stays connected: one that
-- leaves has seen a beginning of what is sent here. The events stand newest first.
pub mod Protocol
pub mod Contents
pub mod Lines
pub mod Buffer
pub mod Reads
pub mod Blocks
pub mod Calls
pub mod Kept
pub mod Chunks
pub mod Closes
use sovereign_engine.Prelude.{
  ℕ, suc, ◌+◌, ℤ, pos, String, Bool, true, false, not, ◌&&◌, Option, none, some, List, [], ◌∷◌,
  ◌++◌, eqb, ◌==◌, cat, if◌then◌else◌, unwrap_or,
}
use sovereign_engine.Anthropic.{
  OpenaiUsage, OpenaiStreamToolCallFunction, OpenaiStreamToolCallDelta, OpenaiStreamDelta,
  OpenaiStreamChoice, OpenaiStreamChunk, translate_stop_reason,
}

pub data Block : Type 0 where
  text_block : Block
  tool_use : String → String → Block

pub data Delta : Type 0 where
  text_delta input_json_delta : String → Delta

-- An event as its JSON has it; message_delta has the stop reason and the output tokens.
pub data Event : Type 0 where
  message_start : String → String → Event
  ping : Event
  content_block_start : ℕ → Block → Event
  content_block_delta : ℕ → Delta → Event
  content_block_stop : ℕ → Event
  message_delta : String → ℤ → Event
  message_stop : Event

pub record StreamingToolCall : Type 0 where
  pub index : ℕ
  pub id : String
  pub name : String
  pub arguments : String
  pub block_index : ℕ
  pub started : Bool

-- The local variables of the task, with the events that were sent and the ids that were drawn.
pub record StreamState : Type 0 where
  pub text_block_started : Bool
  pub final_stop_reason : Option String
  pub final_usage : ℤ × ℤ
  pub next_block_index : ℕ
  pub text_block_index : Option ℕ
  pub tool_calls : List StreamingToolCall
  pub drawn : ℕ
  pub sent : List Event

abbrev pub send : Event → StreamState → StreamState
send e s = record s { sent = e ∷ s.sent }

-- Opens a text block unless one is open.
unfoldable pub start_text : Bool → StreamState → StreamState
start_text true s = s
start_text false s = send (content_block_start s.next_block_index text_block) (record s {
  text_block_started = true;
  text_block_index = some s.next_block_index;
  next_block_index = suc s.next_block_index;
})

abbrev pub text_index : StreamState → ℕ
text_index s = unwrap_or s.text_block_index 0

abbrev pub send_text : String → StreamState → StreamState
send_text t s = send (content_block_delta (text_index s) (text_delta t)) s

unfoldable pub on_text : String → StreamState → StreamState
unfolding start_text
on_text t s = if t == "" then s else send_text t (start_text s.text_block_started s)

-- tool_calls.iter_mut().find(|t| t.index == tc_index)
unfoldable pub find_call : ℕ → List StreamingToolCall → Option StreamingToolCall
find_call i [] = none
find_call i (c ∷ cs) = if eqb c.index i then some c else find_call i cs

-- The write through that reference.
unfoldable pub put_call : StreamingToolCall → List StreamingToolCall → List StreamingToolCall
put_call new [] = []
put_call new (c ∷ cs) =
    let rest = put_call new cs in if eqb c.index new.index then new ∷ cs else c ∷ rest

abbrev pub is_empty : List StreamingToolCall → Bool
is_empty [] = true
is_empty (c ∷ cs) = false

-- Closes the text block; the flag says whether it is open and no tool call came before.
unfoldable pub close_text : Bool → StreamState → StreamState
close_text false s = s
close_text true s =
    send (content_block_stop (text_index s)) (record s { text_block_started = false })

abbrev pub new_call : ℕ → ℕ → StreamingToolCall
new_call i block = record {
  index = i;
  id = "";
  name = "";
  arguments = "";
  block_index = block;
  started = false;
}

unfoldable pub create_call : ℕ → StreamState → StreamState
create_call i s = record s {
  next_block_index = suc s.next_block_index;
  tool_calls = s.tool_calls ++ new_call i s.next_block_index ∷ [];
}

abbrev pub function_name : Option OpenaiStreamToolCallFunction → String
function_name none = ""
function_name (some f) = unwrap_or f.name ""

abbrev pub function_arguments : Option OpenaiStreamToolCallFunction → String
function_arguments none = ""
function_arguments (some f) = unwrap_or f.arguments ""

unfoldable pub accumulate : OpenaiStreamToolCallDelta → StreamingToolCall → StreamingToolCall
accumulate d tc = record tc {
  id = unwrap_or d.id tc.id;
  name = cat tc.name (function_name d.function);
  arguments = cat tc.arguments (function_arguments d.function);
}

-- The argument piece of a call whose block is open, if it has one.
unfoldable pub send_arguments : Bool → ℕ → String → StreamState → StreamState
send_arguments started block args s =
    if started && not (args == "")
    then send (content_block_delta block (input_json_delta args)) s
    else s

unfoldable pub take_reason : Option String → StreamState → StreamState
unfolding translate_stop_reason
take_reason none s = s
take_reason (some r) s = record s { final_stop_reason = some (translate_stop_reason (some r)) }

unfoldable pub take_usage : Option OpenaiUsage → StreamState → StreamState
take_usage none s = s
take_usage (some u) s = record s {
  final_usage =
      (unwrap_or u.prompt_tokens s.final_usage.0, unwrap_or u.completion_tokens s.final_usage.1);
}

module _ (generate_tool_use_id : ℕ → String) where
  -- The start of the block of a call: the flag says that it has a name and was not started.
  unfoldable pub start_call : Bool → StreamingToolCall → StreamState → StreamState
  unfolding put_call
  start_call false tc s = record s { tool_calls = put_call tc s.tool_calls }
  start_call true tc s =
      let missing = tc.id == "" in
      let new_id = if missing then generate_tool_use_id s.drawn else tc.id in
      send (content_block_start tc.block_index (tool_use new_id tc.name)) (record s {
        drawn = if missing then suc s.drawn else s.drawn;
        tool_calls = put_call (record tc { id = new_id; started = true }) s.tool_calls;
      })

  -- What a delta does with the call it is for, which stands in the list.
  unfoldable pub advance_call :
      OpenaiStreamToolCallDelta → StreamingToolCall → StreamState → StreamState
  unfolding accumulate start_call send_arguments
  advance_call d old s =
      let tc = accumulate d old in
      let starts = not tc.started && not (tc.name == "") in
      send_arguments (if starts then true else tc.started) tc.block_index
        (function_arguments d.function) (start_call starts tc s)

  unfoldable pub on_tool_call : OpenaiStreamToolCallDelta → StreamState → StreamState
  unfolding find_call close_text create_call advance_call
  on_tool_call d s =
      let i = unwrap_or d.index 0 in
      elim (find_call i s.tool_calls) [
        | some tc ↦ advance_call d tc s
        | none ↦
            let closed = close_text (s.text_block_started && is_empty s.tool_calls) s in
            advance_call d (new_call i closed.next_block_index) (create_call i closed)
      ]

  unfoldable pub on_tool_calls : List OpenaiStreamToolCallDelta → StreamState → StreamState
  unfolding on_tool_call
  on_tool_calls [] s = s
  on_tool_calls (d ∷ ds) s = on_tool_calls ds (on_tool_call d s)

  unfoldable pub on_delta : Option OpenaiStreamDelta → StreamState → StreamState
  unfolding on_text on_tool_calls
  on_delta none s = s
  on_delta (some d) s =
      on_tool_calls (unwrap_or d.tool_calls []) (on_text (unwrap_or d.content "") s)

  unfoldable pub on_choices : List OpenaiStreamChoice → StreamState → StreamState
  unfolding on_delta take_reason
  on_choices [] s = s
  on_choices (c ∷ cs) s = on_choices cs (on_delta c.delta (take_reason c.finish_reason s))

  unfoldable pub on_chunk : OpenaiStreamChunk → StreamState → StreamState
  unfolding on_choices take_usage
  on_chunk c s = on_choices (unwrap_or c.choices []) (take_usage c.usage s)

  unfoldable pub on_chunks : List OpenaiStreamChunk → StreamState → StreamState
  unfolding on_chunk
  on_chunks [] s = s
  on_chunks (c ∷ cs) s = on_chunks cs (on_chunk c s)

-- The state behind the first two events.
unfoldable pub opening : String → String → StreamState
opening msg_id model = record {
  text_block_started = false;
  final_stop_reason = none;
  final_usage = (pos 0, pos 0);
  next_block_index = 0;
  text_block_index = none;
  tool_calls = [];
  drawn = 0;
  sent = ping ∷ message_start msg_id model ∷ [];
}

-- Closes the blocks of the calls.
unfoldable pub close_calls : List StreamingToolCall → List Event → List Event
close_calls [] h = h
close_calls (c ∷ cs) h =
    close_calls cs (if c.started then content_block_stop c.block_index ∷ h else h)

abbrev pub close_open_text : Bool → ℕ → List Event → List Event
close_open_text true i h = content_block_stop i ∷ h
close_open_text false i h = h

-- The empty pair of a message without content.
abbrev pub empty_block : Bool → List Event → List Event
empty_block true h = content_block_stop 0 ∷ content_block_start 0 text_block ∷ h
empty_block false h = h

-- What is sent behind the end of the backend's stream.
unfoldable pub closing : StreamState → List Event
unfolding close_calls
closing s =
    message_stop
    ∷ message_delta (unwrap_or s.final_stop_reason "end_turn") s.final_usage.1
    ∷ empty_block (not s.text_block_started && is_empty s.tool_calls)
        (close_calls s.tool_calls (close_open_text s.text_block_started (text_index s) s.sent))
