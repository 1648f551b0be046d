-- ===== src/Anthropic/Stream/Chunks.antt =====
-- Each chunk of transform_stream in proxy/src/api/anthropic.rs keeps the invariant of Protocol.
use sovereign_engine.Prelude.{
  ℕ, suc, ◌+◌, String, Bool, true, false, not, ◌&&◌, Option, none, some, List, [], ◌∷◌, ◌==◌, cat,
  if◌then◌else◌, unwrap_or, ◌≡◌, refl, ap, ◌∙◌, inl, inr, arith, Option-cases,
}
use sovereign_engine.Anthropic.{
  OpenaiUsage, OpenaiStreamToolCallDelta, OpenaiStreamDelta, OpenaiStreamChoice, OpenaiStreamChunk,
}
use sovereign_engine.Anthropic.Stream.{
  tool_use, StreamingToolCall, StreamState, text_index, on_text, find_call, is_empty, close_text,
  new_call, create_call, function_name, function_arguments, accumulate, start_call, advance_call,
  on_tool_call, on_tool_calls, on_delta, take_reason, on_choices, take_usage, on_chunk, on_chunks,
}
use sovereign_engine.Anthropic.Stream.Protocol.{
  block_status, open_calls, waiting_calls, open_text, IsStream, live,
}
use sovereign_engine.Anthropic.Stream.Blocks.{live_of_open}
use sovereign_engine.Anthropic.Stream.Calls.{
  open_calls-put_call, waiting_calls-put_call, open_calls-found, put_call-empty, find_call-append,
  find_call_self,
}
use sovereign_engine.Anthropic.Stream.Kept.{
  on_text-IsStream, send_arguments-IsStream, Follows, open_waiting, close_text-IsCore,
  close_text-tool_calls, create_call-IsStream,
}

module _ (generate_tool_use_id : ℕ → String) where
  start_call-IsStream :
      (b : Bool) (tc old : StreamingToolCall) (s : StreamState)
      → Follows tc old s
      → (b ≡ true → old.started ≡ false)
      → IsStream s
      → IsStream (start_call generate_tool_use_id b tc s)
  unfolding start_call block_status
  start_call-IsStream false tc old s (f, k, r) m ((p, a, u), z) = (
    (
      p,
      (λ i. ground (
        arith,
        a i,
        open_calls-put_call i tc old s.tool_calls f,
        waiting_calls-put_call i tc old s.tool_calls f,
      )),
      λ i h. ground (arith, u i h, waiting_calls-put_call i tc old s.tool_calls f),
    ),
    λ e q. z e (put_call-empty tc s.tool_calls q),
  )
  start_call-IsStream true tc old s (f, k, r) m h =
      open_waiting
        (record tc {
          id = if tc.id == "" then generate_tool_use_id s.drawn else tc.id;
          started = true;
        })
        old (tool_use (if tc.id == "" then generate_tool_use_id s.drawn else tc.id) tc.name)
        (if tc.id == "" then suc s.drawn else s.drawn) s f k refl (m refl) h

  -- A call with an open block, or one that is started now, can be written.
  start_call-live :
      (b : Bool) (tc old : StreamingToolCall) (s : StreamState)
      → Follows tc old s
      → IsStream s
      → (if b then true else tc.started) ≡ true
      → block_status tc.block_index (start_call generate_tool_use_id b tc s).sent ≡ live
  unfolding start_call block_status
  start_call-live true tc old s (f, k, r) h e = ground arith
  start_call-live false tc old s (f, k, r) ((p, a, u), z) e =
      live_of_open (block_status tc.block_index s.sent)
        (open_calls tc.block_index s.tool_calls
          + open_text tc.block_index s.text_block_started (text_index s))
        (waiting_calls tc.block_index s.tool_calls) (a tc.block_index)
        (ground (arith, open_calls-found tc.block_index tc.index old s.tool_calls f))

  advance_call-IsStream :
      (d : OpenaiStreamToolCallDelta) (old : StreamingToolCall) (s : StreamState)
      → find_call old.index s.tool_calls ≡ some old
      → IsStream s
      → IsStream (advance_call generate_tool_use_id d old s)
  unfolding advance_call accumulate
  advance_call-IsStream d old s f h =
      send_arguments-IsStream (if starts then true else tc.started) tc.block_index
        (function_arguments d.function) (start_call generate_tool_use_id starts tc s)
        (start_call-live starts tc old s (f, refl, refl) h)
        (start_call-IsStream starts tc old s (f, refl, refl) (λ e. ground arith) h)
    where
      tc : StreamingToolCall
      tc = record old {
        id = unwrap_or d.id old.id;
        name = cat old.name (function_name d.function);
        arguments = cat old.arguments (function_arguments d.function);
      }

      starts : Bool
      starts = not tc.started && not (tc.name == "")

  on_tool_call-IsStream :
      (d : OpenaiStreamToolCallDelta) (s : StreamState)
      → IsStream s
      → IsStream (on_tool_call generate_tool_use_id d s)
  unfolding on_tool_call
  on_tool_call-IsStream d s h = elim (Option-cases (find_call i s.tool_calls)) [
    | inl e ↦
        rw (e, on_tool_call)
          (advance_call-IsStream d (new_call i closed.next_block_index) (create_call i closed)
            (find_call-append i closed.next_block_index closed.tool_calls
              (ap (find_call i) (close_text-tool_calls first s) ∙ e))
            (create_call-IsStream i closed (close_text-IsCore first s (λ f. ground arith) h)))
    | inr (tc, e) ↦
        rw (e, on_tool_call) (advance_call-IsStream d tc s (find_call_self i tc s.tool_calls e) h)
  ]
    where
      i : ℕ
      i = unwrap_or d.index 0

      first : Bool
      first = s.text_block_started && is_empty s.tool_calls

      closed : StreamState
      closed = close_text first s

  on_tool_calls-IsStream :
      (ds : List OpenaiStreamToolCallDelta) (s : StreamState)
      → IsStream s
      → IsStream (on_tool_calls generate_tool_use_id ds s)
  unfolding on_tool_calls
  on_tool_calls-IsStream [] s h = h
  on_tool_calls-IsStream (d ∷ ds) s h =
      on_tool_calls-IsStream ds (on_tool_call generate_tool_use_id d s)
        (on_tool_call-IsStream d s h)

  on_delta-IsStream :
      (d : Option OpenaiStreamDelta) (s : StreamState)
      → IsStream s
      → IsStream (on_delta generate_tool_use_id d s)
  unfolding on_delta
  on_delta-IsStream none s h = h
  on_delta-IsStream (some d) s h =
      on_tool_calls-IsStream (unwrap_or d.tool_calls []) (on_text (unwrap_or d.content "") s)
        (on_text-IsStream (unwrap_or d.content "") s h)

  take_reason-IsStream :
      (r : Option String) (s : StreamState) → IsStream s → IsStream (take_reason r s)
  unfolding take_reason
  take_reason-IsStream none s h = h
  take_reason-IsStream (some r) s h = h

  on_choices-IsStream :
      (cs : List OpenaiStreamChoice) (s : StreamState)
      → IsStream s
      → IsStream (on_choices generate_tool_use_id cs s)
  unfolding on_choices
  on_choices-IsStream [] s h = h
  on_choices-IsStream (c ∷ cs) s h =
      on_choices-IsStream cs (on_delta generate_tool_use_id c.delta (take_reason c.finish_reason s))
        (on_delta-IsStream c.delta (take_reason c.finish_reason s)
          (take_reason-IsStream c.finish_reason s h))

  take_usage-IsStream :
      (u : Option OpenaiUsage) (s : StreamState) → IsStream s → IsStream (take_usage u s)
  unfolding take_usage
  take_usage-IsStream none s h = h
  take_usage-IsStream (some u) s h = h

  pub on_chunks-IsStream :
      (cs : List OpenaiStreamChunk) (s : StreamState)
      → IsStream s
      → IsStream (on_chunks generate_tool_use_id cs s)
  unfolding on_chunks on_chunk
  on_chunks-IsStream [] s h = h
  on_chunks-IsStream (c ∷ cs) s h = on_chunks-IsStream cs (on_chunk generate_tool_use_id c s) (
      on_choices-IsStream (unwrap_or c.choices []) (take_usage c.usage s)
        (take_usage-IsStream c.usage s h))
