-- ===== src/Anthropic/Stream/Lines.antt =====
-- The buffer of transform_stream in proxy/src/api/anthropic.rs: lines are cut from what was read so
-- far, and each is a chunk of JSON or is skipped. Each read is decoded on its own, by from_utf8_lossy,
-- which is a parameter.
use sovereign_engine.Prelude.{
  ℕ, zero, suc, ℤ, String, Option, none, some, List, [], ◌∷◌, ◌==◌, if◌then◌else◌, count_chars,
  split_line, trim, strip_prefix, cat,
}
use sovereign_engine.Anthropic.{OpenaiStreamChunk}
use sovereign_engine.Anthropic.Stream.{StreamState, on_chunk, opening, closing, Event}

-- One read from the backend's stream.
pub data Read (Byte : Type 0) : Type 0 where
  chunk : List Byte → Read Byte
  failed : Read Byte

module _ (parse_chunk : String → Option OpenaiStreamChunk) (generate_tool_use_id : ℕ → String) where
  -- The chunk that a line holds, if it holds one.
  unfoldable pub chunk_of_line : String → Option OpenaiStreamChunk
  unfolding trim strip_prefix
  chunk_of_line raw =
      let line = trim raw in
      if line == ""
      then none
      else if line == "data: [DONE]"
      then none
      else elim (strip_prefix "data: " line) [ none ↦ none | some data_str ↦ parse_chunk data_str ]

  unfoldable pub on_line : String → StreamState → StreamState
  unfolding chunk_of_line on_chunk
  on_line line s = elim (chunk_of_line line) [
    | none ↦ s
    | some c ↦ on_chunk generate_tool_use_id c s
  ]

  -- The loop over the complete lines of the buffer, on fuel.
  unfoldable pub drain : ℕ → String → StreamState → String × StreamState
  unfolding split_line on_line
  drain zero buffer s = (buffer, s)
  drain (suc n) buffer s = elim (split_line buffer) [
    | none ↦ (buffer, s)
    | some (line, rest) ↦ drain n rest (on_line line s)
  ]

module _ {Byte : Type 0} (from_utf8_lossy : List Byte → String)
    (parse_chunk : String → Option OpenaiStreamChunk) (generate_tool_use_id : ℕ → String) where
  -- The loop over the reads: a failed one ends it. Each round has a fuel of the length of the buffer.
  unfoldable pub read_stream : List (Read Byte) → String → StreamState → StreamState
  unfolding drain count_chars
  read_stream [] buffer s = s
  read_stream (failed ∷ rs) buffer s = s
  read_stream (chunk bytes ∷ rs) buffer s =
      let all = cat buffer (from_utf8_lossy bytes) in
      let (rest, t) = drain parse_chunk generate_tool_use_id (count_chars all) all s in
      read_stream rs rest t

  -- transform_stream: all events, newest first.
  unfoldable pub transform_stream : String → String → List (Read Byte) → List Event
  unfolding read_stream opening closing
  transform_stream model msg_id rs = closing (read_stream rs "" (opening msg_id model))

  -- The usage that the accumulator holds at the end.
  unfoldable pub stream_usage : String → String → List (Read Byte) → ℤ × ℤ
  unfolding read_stream opening
  stream_usage model msg_id rs = (read_stream rs "" (opening msg_id model)).final_usage
