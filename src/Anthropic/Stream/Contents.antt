-- ===== src/Anthropic/Stream/Contents.antt =====
-- What the events of transform_stream in proxy/src/api/anthropic.rs carry of the backend's chunks.
use text.Mathlib.TextLemmas.{nil-append, append-nil, append_assoc}
use sovereign_engine.Prelude.{
  ℕ, ℤ, pos, String, Bool, true, false, not, ◌&&◌, Option, none, some, List, [], ◌∷◌, ◌==◌, cat,
  unwrap_or, ◌≡◌, refl, subst, sym, ◌∙◌, ap, inl, inr, Bool-cases, Option-cases, eq_iff,
  if◌then◌else◌,
}
use sovereign_engine.Anthropic.{
  OpenaiUsage, OpenaiStreamToolCallDelta, OpenaiStreamDelta, OpenaiStreamChoice, OpenaiStreamChunk,
  translate_stop_reason,
}
use sovereign_engine.Anthropic.Stream.{
  content_block_stop, text_delta, Event, content_block_delta, message_delta, message_stop,
  StreamingToolCall, StreamState, start_text, on_text, find_call, is_empty, close_text, create_call,
  new_call, send_arguments, start_call, advance_call, on_tool_call, on_tool_calls, on_delta,
  take_reason, on_choices, take_usage, on_chunk, on_chunks, opening, close_calls, close_open_text,
  empty_block, closing, text_index, accumulate, function_arguments,
}

-- The text of the events, newest first.
unfoldable pub text_sent : List Event → String
text_sent [] = ""
text_sent (content_block_delta i (text_delta t) ∷ h) = cat (text_sent h) t
text_sent (_ ∷ h) = text_sent h

abbrev choice_text : OpenaiStreamChoice → String
choice_text c = elim c.delta [ none ↦ "" | some d ↦ unwrap_or d.content "" ]

-- The text of the backend's chunks.
unfoldable pub choices_text : List OpenaiStreamChoice → String
choices_text [] = ""
choices_text (c ∷ cs) = cat (choice_text c) (choices_text cs)

unfoldable pub chunks_text : List OpenaiStreamChunk → String
unfolding choices_text
chunks_text [] = ""
chunks_text (c ∷ cs) = cat (choices_text (unwrap_or c.choices [])) (chunks_text cs)

abbrev reason_after : Option String → Option String → Option String
reason_after r none = r
reason_after r (some q) = some (translate_stop_reason (some q))

-- The last finish reason, translated, after one of before.
unfoldable pub choices_reason : Option String → List OpenaiStreamChoice → Option String
choices_reason r [] = r
choices_reason r (c ∷ cs) = choices_reason (reason_after r c.finish_reason) cs

unfoldable pub chunks_reason : Option String → List OpenaiStreamChunk → Option String
unfolding choices_reason
chunks_reason r [] = r
chunks_reason r (c ∷ cs) = chunks_reason (choices_reason r (unwrap_or c.choices [])) cs

abbrev completion_after : ℤ → Option OpenaiUsage → ℤ
completion_after n none = n
completion_after n (some u) = unwrap_or u.completion_tokens n

-- The last count of completion tokens, after one of before.
unfoldable pub chunks_completion : ℤ → List OpenaiStreamChunk → ℤ
chunks_completion n [] = n
chunks_completion n (c ∷ cs) = chunks_completion (completion_after n c.usage) cs

-- From `s` to `t` the text was sent, and nothing else of what the end of the message reports.
abbrev Carries : String → StreamState → StreamState → Type 0
Carries x s t =
    (text_sent t.sent ≡ cat (text_sent s.sent) x)
    × (t.final_stop_reason ≡ s.final_stop_reason)
    × (t.final_usage ≡ s.final_usage)

Carries-nothing : (s : StreamState) → Carries "" s s
Carries-nothing s = (sym (append-nil (text_sent s.sent)), refl, refl)

Carries-trans :
    (x y : String) (s t u : StreamState) → Carries x s t → Carries y t u → Carries (cat x y) s u
Carries-trans x y s t u (a, b, c) (d, e, f) =
    (d ∙ ap (λ z. cat z y) a ∙ append_assoc (text_sent s.sent) x y, e ∙ b, f ∙ c)

start_text-Carries : (b : Bool) (s : StreamState) → Carries "" s (start_text b s)
unfolding start_text text_sent
start_text-Carries true s = Carries-nothing s
start_text-Carries false s = Carries-nothing s

on_text-Carries : (t : String) (s : StreamState) → Carries t s (on_text t s)
unfolding on_text text_sent
on_text-Carries t s = elim (Bool-cases (t == "")) [
  | inl e ↦ rw (e, (eq_iff t "").0 e) (Carries-nothing s)
  | inr e ↦
      let (a, b, c) = start_text-Carries s.text_block_started s in
      rw e (ap (λ z. cat z t) (a ∙ append-nil (text_sent s.sent)), b, c)
]

module _ (generate_tool_use_id : ℕ → String) where
  start_call-Carries :
      (b : Bool) (tc : StreamingToolCall) (s : StreamState)
      → Carries "" s (start_call generate_tool_use_id b tc s)
  unfolding start_call text_sent
  start_call-Carries true tc s = Carries-nothing s
  start_call-Carries false tc s = Carries-nothing s

  send_arguments-Carries :
      (b : Bool) (i : ℕ) (x : String) (s : StreamState) → Carries "" s (send_arguments b i x s)
  unfolding send_arguments text_sent
  send_arguments-Carries b i x s = elim (Bool-cases (b && not (x == ""))) [
    | inl e ↦ rw (e, send_arguments) (Carries-nothing s)
    | inr e ↦ rw (e, send_arguments) (Carries-nothing s)
  ]

  close_text-Carries : (b : Bool) (s : StreamState) → Carries "" s (close_text b s)
  unfolding close_text text_sent
  close_text-Carries true s = Carries-nothing s
  close_text-Carries false s = Carries-nothing s

  advance_call-Carries :
      (d : OpenaiStreamToolCallDelta) (tc : StreamingToolCall) (s : StreamState)
      → Carries "" s (advance_call generate_tool_use_id d tc s)
  unfolding advance_call accumulate
  advance_call-Carries d old s =
      Carries-trans "" "" s started (send_arguments live tc.block_index args started)
        (start_call-Carries starts tc s) (send_arguments-Carries live tc.block_index args started)
    where
      tc : StreamingToolCall
      tc = accumulate d old

      starts : Bool
      starts = not tc.started && not (tc.name == "")

      live : Bool
      live = if starts then true else tc.started

      args : String
      args = function_arguments d.function

      started : StreamState
      started = start_call generate_tool_use_id starts tc s

  on_tool_call-Carries :
      (d : OpenaiStreamToolCallDelta) (s : StreamState)
      → Carries "" s (on_tool_call generate_tool_use_id d s)
  unfolding on_tool_call create_call
  on_tool_call-Carries d s = elim (Option-cases (find_call i s.tool_calls)) [
    | inl e ↦
        rw (e, on_tool_call)
          (Carries-trans "" "" s closed
            (advance_call generate_tool_use_id d (new_call i closed.next_block_index)
              (create_call i closed))
            (close_text-Carries (s.text_block_started && is_empty s.tool_calls) s)
            (advance_call-Carries d (new_call i closed.next_block_index) (create_call i closed)))
    | inr (tc, e) ↦ rw (e, on_tool_call) (advance_call-Carries d tc s)
  ]
    where
      i : ℕ
      i = unwrap_or d.index 0

      closed : StreamState
      closed = close_text (s.text_block_started && is_empty s.tool_calls) s

  on_tool_calls-Carries :
      (ds : List OpenaiStreamToolCallDelta) (s : StreamState)
      → Carries "" s (on_tool_calls generate_tool_use_id ds s)
  unfolding on_tool_calls
  on_tool_calls-Carries [] s = Carries-nothing s
  on_tool_calls-Carries (d ∷ ds) s =
      Carries-trans "" "" s (on_tool_call generate_tool_use_id d s)
        (on_tool_calls generate_tool_use_id ds (on_tool_call generate_tool_use_id d s))
        (on_tool_call-Carries d s)
        (on_tool_calls-Carries ds (on_tool_call generate_tool_use_id d s))

  on_delta-Carries :
      (d : OpenaiStreamDelta) (s : StreamState)
      → Carries (unwrap_or d.content "") s (on_delta generate_tool_use_id (some d) s)
  unfolding on_delta
  on_delta-Carries d s =
      subst (λ z. Carries z s (on_tool_calls generate_tool_use_id (unwrap_or d.tool_calls []) said))
        (append-nil x)
        (Carries-trans x "" s said
          (on_tool_calls generate_tool_use_id (unwrap_or d.tool_calls []) said)
          (on_text-Carries x s) (on_tool_calls-Carries (unwrap_or d.tool_calls []) said))
    where
      x : String
      x = unwrap_or d.content ""

      said : StreamState
      said = on_text x s

  on_choice-Carries :
      (c : OpenaiStreamChoice) (s : StreamState)
      → Carries (choice_text c) s (on_delta generate_tool_use_id c.delta s)
  unfolding on_delta
  on_choice-Carries c s = elim (Option-cases c.delta) [
    | inl e ↦ rw e (Carries-nothing s)
    | inr (d, e) ↦ rw e (on_delta-Carries d s)
  ]

  take_reason-reason :
      (r : Option String) (s : StreamState)
      → ((take_reason r s).sent ≡ s.sent)
        × ((take_reason r s).final_stop_reason ≡ reason_after s.final_stop_reason r)
        × ((take_reason r s).final_usage ≡ s.final_usage)
  unfolding take_reason
  take_reason-reason none s = (refl, refl, refl)
  take_reason-reason (some r) s = (refl, refl, refl)

  on_choices-reports :
      (cs : List OpenaiStreamChoice) (s : StreamState)
      → (text_sent (on_choices generate_tool_use_id cs s).sent
          ≡ cat (text_sent s.sent) (choices_text cs))
        × ((on_choices generate_tool_use_id cs s).final_stop_reason
            ≡ choices_reason s.final_stop_reason cs)
        × ((on_choices generate_tool_use_id cs s).final_usage ≡ s.final_usage)
  unfolding on_choices choices_text choices_reason
  on_choices-reports [] s = (sym (append-nil (text_sent s.sent)), refl, refl)
  on_choices-reports (c ∷ cs) s =
      let (a, b, u) = take_reason-reason c.finish_reason s in
      let (d, e, f) = on_choice-Carries c (take_reason c.finish_reason s) in
      let (g, h, k) =
        on_choices-reports cs
          (on_delta generate_tool_use_id c.delta (take_reason c.finish_reason s)) in
      (
        g
            ∙ ap (λ z. cat z (choices_text cs)) (d ∙ ap (λ z. cat (text_sent z) (choice_text c)) a)
            ∙ append_assoc (text_sent s.sent) (choice_text c) (choices_text cs),
        h ∙ ap (λ z. choices_reason z cs) (e ∙ b),
        k ∙ f ∙ u,
      )

  take_usage-completion :
      (u : Option OpenaiUsage) (s : StreamState)
      → ((take_usage u s).sent ≡ s.sent)
        × ((take_usage u s).final_stop_reason ≡ s.final_stop_reason)
        × ((take_usage u s).final_usage.1 ≡ completion_after s.final_usage.1 u)
  unfolding take_usage
  take_usage-completion none s = (refl, refl, refl)
  take_usage-completion (some u) s = (refl, refl, refl)

  on_chunks-reports :
      (cs : List OpenaiStreamChunk) (s : StreamState)
      → (text_sent (on_chunks generate_tool_use_id cs s).sent
          ≡ cat (text_sent s.sent) (chunks_text cs))
        × ((on_chunks generate_tool_use_id cs s).final_stop_reason
            ≡ chunks_reason s.final_stop_reason cs)
        × ((on_chunks generate_tool_use_id cs s).final_usage.1
            ≡ chunks_completion s.final_usage.1 cs)
  unfolding on_chunks on_chunk chunks_text chunks_reason chunks_completion
  on_chunks-reports [] s = (sym (append-nil (text_sent s.sent)), refl, refl)
  on_chunks-reports (c ∷ cs) s =
      let (a, b, u) = take_usage-completion c.usage s in
      let (d, e, f) = on_choices-reports (unwrap_or c.choices []) (take_usage c.usage s) in
      let (g, h, k) = on_chunks-reports cs (on_chunk generate_tool_use_id c s) in
      (
        g
            ∙ ap (λ z. cat z (chunks_text cs))
                (d ∙ ap (λ z. cat (text_sent z) (choices_text (unwrap_or c.choices []))) a)
            ∙ append_assoc (text_sent s.sent) (choices_text (unwrap_or c.choices []))
                (chunks_text cs),
        h
            ∙ ap (λ z. chunks_reason z cs)
                (e ∙ ap (λ z. choices_reason z (unwrap_or c.choices [])) b),
        k ∙ ap (λ z. chunks_completion z cs) (ap (λ (z : ℤ × ℤ). z.1) f ∙ u),
      )

text_sent-close_calls :
    (cs : List StreamingToolCall) (h : List Event) → text_sent (close_calls cs h) ≡ text_sent h
unfolding close_calls text_sent
text_sent-close_calls [] h = refl
text_sent-close_calls (c ∷ cs) h = elim (Bool-cases c.started) [
  | inl e ↦ rw e (text_sent-close_calls cs (content_block_stop c.block_index ∷ h))
  | inr e ↦ rw e (text_sent-close_calls cs h)
]

text_sent-empty_block : (b : Bool) (h : List Event) → text_sent (empty_block b h) ≡ text_sent h
unfolding text_sent
text_sent-empty_block true h = refl
text_sent-empty_block false h = refl

text_sent-close_open_text :
    (b : Bool) (i : ℕ) (h : List Event) → text_sent (close_open_text b i h) ≡ text_sent h
unfolding text_sent
text_sent-close_open_text true i h = refl
text_sent-close_open_text false i h = refl

-- The text of all text deltas, in order, is the text of the backend's chunks, in order; and the last
-- two events are message_stop behind a message_delta with the last finish reason of the chunks,
-- translated, or end_turn if there is none, and the last count of completion tokens, or 0.
pub transform-reports :
    (generate_tool_use_id : ℕ → String) (id model : String) (cs : List OpenaiStreamChunk)
    → (text_sent (closing (on_chunks generate_tool_use_id cs (opening id model))) ≡ chunks_text cs)
      × ((rest : List Event) × (closing (on_chunks generate_tool_use_id cs (opening id model))
            ≡ message_stop
              ∷ message_delta
                  (unwrap_or (chunks_reason none cs) "end_turn")
                  (chunks_completion (pos 0) cs)
              ∷ rest))
unfolding closing opening text_sent
transform-reports gen id model cs =
    let (a, b, c) = on_chunks-reports gen cs (opening id model) in
    (
      text_sent-empty_block (not s.text_block_started && is_empty s.tool_calls) calls
          ∙ text_sent-close_calls s.tool_calls texts
          ∙ text_sent-close_open_text s.text_block_started (text_index s) s.sent
          ∙ a
          ∙ nil-append (chunks_text cs),
      (empty_block (not s.text_block_started && is_empty s.tool_calls) calls, rw (b, c) refl),
    )
  where
    s : StreamState
    s = on_chunks gen cs (opening id model)

    texts : List Event
    texts = close_open_text s.text_block_started (text_index s) s.sent

    calls : List Event
    calls = close_calls s.tool_calls texts
