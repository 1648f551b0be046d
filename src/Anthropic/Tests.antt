-- ===== src/Anthropic/Tests.antt =====
-- Runs of the translations of proxy/src/api/anthropic.rs at concrete inputs.
use sovereign_engine.Prelude.{
  ℕ, pos, String, Option, none, some, List, [], ◌∷◌, ◌==◌, if◌then◌else◌, unwrap_or, ◌≡◌, refl,
  arith, count_chars, split_line,
}
use sovereign_engine.Anthropic.{
  Value, string, array, object, nil, cons, end, field, OpenaiStreamDelta, OpenaiStreamChunk,
}
use sovereign_engine.Anthropic.Request.{AnthropicMessage, content_to_string, translate_message}
use sovereign_engine.Anthropic.Response.{OpenaiMessage, content_blocks, or_empty_block}
use sovereign_engine.Anthropic.Spoken.{spoken, translate_message-spoken}
use sovereign_engine.Anthropic.Turns.{items, returned_calls, SaysTurn, content_blocks-return}
use sovereign_engine.Anthropic.Stream.{
  Event, message_delta, message_stop, message_start, ping, content_block_start, content_block_delta,
  content_block_stop, text_block, tool_use, text_delta, input_json_delta, on_chunks, opening,
  closing,
}
use sovereign_engine.Anthropic.Stream.Protocol.{IsProtocol}
use sovereign_engine.Anthropic.Stream.Contents.{
  text_sent, chunks_text, chunks_reason, chunks_completion,
}
use Prim.Native.Char.{Char}
use sovereign_engine.Secrets.Tests.{to_list, of_list}
use sovereign_engine.Anthropic.Stream.Lines.{Read, chunk, failed, drain, transform_stream}
use sovereign_engine.Anthropic.Stream.Buffer.{lines}
use sovereign_engine.Anthropic.Stream.Reads.{
  received, bytes_of, IsCut, chunks_of, drain-terminates, transform_stream-lines,
  transform_stream-IsProtocol, transform_stream-reports,
}

abbrev ids : ℕ → String
ids n = "toolu_1"

abbrev of_delta : OpenaiStreamDelta → Option String → OpenaiStreamChunk
of_delta d r = record {
  choices = some (record { delta = some d; finish_reason = r } ∷ []);
  usage = some (record { prompt_tokens = some (pos 3); completion_tokens = some (pos 5) });
}

abbrev hello : OpenaiStreamChunk
hello = of_delta (record { content = some "Hello"; tool_calls = none }) none

abbrev call : OpenaiStreamChunk
call =
    of_delta
      (record {
        content = none;
        tool_calls = some (
            record {
              index = some 0;
              id = none;
              function = some (record { name = some "search"; arguments = some "{}" });
            }
            ∷ []);
      })
      (some "tool_calls")

-- A parser that knows two chunks.
abbrev parse_two : String → Option OpenaiStreamChunk
parse_two s = if s == "A" then some hello else if s == "B" then some call else none

-- Two lines in three reads, of which the last fails.
abbrev reads : List (Read Char)
reads = chunk (to_list "data: A\ndat") ∷ chunk (to_list "a: B\nrest") ∷ failed ∷ []

stream_test :
    transform_stream of_list parse_two ids "m" "msg_1" reads
    ≡ message_stop
      ∷ message_delta "tool_use" (pos 5)
      ∷ content_block_stop 1
      ∷ content_block_delta 1 (input_json_delta "{}")
      ∷ content_block_start 1 (tool_use "toolu_1" "search")
      ∷ content_block_stop 0
      ∷ content_block_delta 0 (text_delta "Hello")
      ∷ content_block_start 0 text_block
      ∷ ping
      ∷ message_start "msg_1" "m"
      ∷ []
unfolding transform_stream to_list of_list
stream_test = refl

-- A call that never gets a name takes an index and leaves the message without a block.
abbrev nameless : OpenaiStreamChunk
nameless =
    of_delta
      (record {
        content = none;
        tool_calls = some (
            record {
              index = some 0;
              id = some "call_1";
              function = some (record { name = none; arguments = some "{}" });
            }
            ∷ []);
      })
      none

nameless_test :
    closing (on_chunks ids (nameless ∷ []) (opening "msg_1" "m"))
    ≡ message_stop ∷ message_delta "end_turn" (pos 5) ∷ ping ∷ message_start "msg_1" "m" ∷ []
unfolding closing on_chunks opening
nameless_test = refl

transform_stream-IsProtocol_example :
    IsProtocol (transform_stream of_list parse_two ids "m" "msg_1" reads)
transform_stream-IsProtocol_example =
    transform_stream-IsProtocol of_list parse_two ids "m" "msg_1" reads

transform_stream-lines_example :
    transform_stream of_list parse_two ids "m" "msg_1" reads
    ≡ closing (
        on_chunks ids
          (chunks_of parse_two ids (lines (of_list (bytes_of of_list reads))).0)
          (opening "msg_1" "m"))
unfolding IsCut bytes_of to_list of_list
transform_stream-lines_example =
    transform_stream-lines of_list parse_two ids "m" "msg_1" reads refl (refl, (refl, tt))

transform_stream-reports_example :
    (text_sent (transform_stream of_list parse_two ids "m" "msg_1" reads)
      ≡ chunks_text (chunks_of parse_two ids (lines (received of_list reads)).0))
    × ((rest : List Event) × (transform_stream of_list parse_two ids "m" "msg_1" reads
          ≡ message_stop
            ∷ message_delta
                (unwrap_or
                  (chunks_reason none (chunks_of parse_two ids (lines (received of_list reads)).0))
                  "end_turn")
                (chunks_completion
                  (pos 0)
                  (chunks_of parse_two ids (lines (received of_list reads)).0))
            ∷ rest))
transform_stream-reports_example = transform_stream-reports of_list parse_two ids "m" "msg_1" reads

drain-terminates_example :
    (split_line (drain parse_two ids 9 "data: A\n" (opening "msg_1" "m")).0 ≡ none)
    × (drain parse_two ids 9 "data: A\n" (opening "msg_1" "m")
        ≡ drain parse_two ids (count_chars "data: A\n") "data: A\n" (opening "msg_1" "m"))
unfolding count_chars
drain-terminates_example =
    drain-terminates parse_two ids 9 "data: A\n" (opening "msg_1" "m") (omega arith)

abbrev print_any : Value → String
print_any v = "{}"

abbrev parse_any : String → Option Value
parse_any s = some (object end)

abbrev block : String → String → String → Value
block t key s = object (field "type" (string t) (field key (string s) end))

abbrev answer : AnthropicMessage
answer = record {
  role = "user";
  content = array (
      cons (block "text" "text" "Look: ")
        (cons (block "tool_result" "content" "42") (cons (block "text" "text" "so?") nil)));
}

translate_message-spoken_example :
    spoken "user" (translate_message print_any answer) ≡ content_to_string answer.content
translate_message-spoken_example = translate_message-spoken print_any answer

answer_test : content_to_string answer.content ≡ "Look: so?"
unfolding content_to_string
answer_test = refl

abbrev turn : OpenaiMessage
turn = record {
  content = some "I search.";
  tool_calls = some (
      record { id = none; function = some (record { name = some "search"; arguments = some "{}" }) }
      ∷ []);
}

content_blocks-return_example :
    (v : Value) × (translate_message print_any (record {
      role = "assistant";
      content = array (items (or_empty_block (content_blocks parse_any ids (some turn))));
    })
      ≡ cons v nil)
    × SaysTurn print_any parse_any ids v
        (unwrap_or turn.content "")
        (returned_calls print_any parse_any ids 0 (unwrap_or turn.tool_calls []))
content_blocks-return_example = content_blocks-return print_any parse_any ids turn
