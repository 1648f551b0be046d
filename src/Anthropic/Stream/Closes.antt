-- ===== src/Anthropic/Stream/Closes.antt =====
-- The end of transform_stream in proxy/src/api/anthropic.rs closes what is open.
use sovereign_engine.Prelude.{
  ℕ, String, Bool, true, false, not, ◌&&◌, List, [], ◌∷◌, eqb, unwrap_or, ◌≡◌, refl, ◌≢◌, inl, inr,
  arith, Bool-cases,
}
use sovereign_engine.Anthropic.{OpenaiStreamChunk}
use sovereign_engine.Anthropic.Stream.{
  Event, content_block_stop, StreamingToolCall, StreamState, text_index, is_empty, close_text,
  on_chunks, opening, close_calls, close_open_text, empty_block, closing,
}
use sovereign_engine.Anthropic.Stream.Protocol.{
  block_status, IsProtocol, open_calls, waiting_calls, open_text, Agrees, IsStream, fresh, live,
}
use sovereign_engine.Anthropic.Stream.Blocks.{closes_block, live_of_open, not_live, fewer_waits}
use sovereign_engine.Anthropic.Stream.Kept.{close_text-IsCore, opening-IsStream}
use sovereign_engine.Anthropic.Stream.Chunks.{on_chunks-IsStream}

-- Once the text block is closed, closing the calls that have a block open leaves none open.
pub close_calls-closes :
    (cs : List StreamingToolCall) (h : List Event)
    → IsProtocol h
    → ((i : ℕ) → Agrees (block_status i h) (open_calls i cs) (waiting_calls i cs))
    → IsProtocol (close_calls cs h) × ((i : ℕ) → block_status i (close_calls cs h) ≢ live)
unfolding close_calls open_calls waiting_calls block_status
close_calls-closes [] h p a = (p, λ i. not_live (block_status i h) 0 (a i))
close_calls-closes (c ∷ cs) h p a = elim (Bool-cases c.started) [
  | inl e ↦ rw e (
      close_calls-closes cs (content_block_stop c.block_index ∷ h) (is_live e, p)
        (λ i.
          closes_block (eqb c.block_index i) (block_status i h) (open_calls i (c ∷ cs))
            (open_calls i cs) (waiting_calls i cs)
            (fewer_waits (block_status i h) (open_calls i (c ∷ cs)) (waiting_calls i (c ∷ cs))
              (waiting_calls i cs) (a i) (omega arith))
            (λ hit. ground (arith, is_live e)) (ground arith)))
  | inr e ↦ rw e (
      close_calls-closes cs h p (λ i.
        fewer_waits (block_status i h) (open_calls i cs) (waiting_calls i (c ∷ cs))
          (waiting_calls i cs) (ground (arith, a i)) (omega arith)))
]
  where
    is_live : c.started ≡ true → block_status c.block_index h ≡ live
    is_live e =
        live_of_open (block_status c.block_index h) (open_calls c.block_index (c ∷ cs))
          (waiting_calls c.block_index (c ∷ cs)) (a c.block_index) (ground arith)

pub close_open_text-closes :
    (b : Bool) (s : StreamState)
    → s.text_block_started ≡ b
    → IsStream s
    → IsProtocol (close_open_text b (text_index s) s.sent)
      × ((i : ℕ)
          → Agrees
              (block_status i (close_open_text b (text_index s) s.sent))
              (open_calls i s.tool_calls)
              (waiting_calls i s.tool_calls))
unfolding block_status open_text close_text
close_open_text-closes false s e ((p, a, u), z) = (p, λ i. ground (arith, a i))
close_open_text-closes true s e h =
    let (p, a, u) = close_text-IsCore true s (λ q. e) h in (p, λ i. ground (arith, a i))

-- The empty pair is sent only where no block was handed out.
pub empty_block-closes :
    (b : Bool) (h : List Event)
    → (b ≡ true → block_status 0 h ≡ fresh)
    → IsProtocol h × ((i : ℕ) → block_status i h ≢ live)
    → IsProtocol (empty_block b h) × ((i : ℕ) → block_status i (empty_block b h) ≢ live)
unfolding block_status
empty_block-closes false h f c = c
empty_block-closes true h f (p, c) = ((refl, (f refl, p)), λ i. ground (arith, c i))

pub empty_message :
    (b : Bool) (cs : List StreamingToolCall) (i : ℕ) (h : List Event)
    → (b ≡ false → cs ≡ [] → block_status 0 h ≡ fresh)
    → (not b && is_empty cs) ≡ true
    → block_status 0 (close_calls cs (close_open_text b i h)) ≡ fresh
unfolding close_calls
empty_message true cs i h f e = ground arith
empty_message false [] i h f e = f refl refl
empty_message false (c ∷ cs) i h f e = ground arith

pub closing-IsProtocol : (s : StreamState) → IsStream s → IsProtocol (closing s)
unfolding closing
closing-IsProtocol s ((p, a, u), z) =
    let (q, b) = close_open_text-closes s.text_block_started s refl ((p, a, u), z) in
    let (r, c) =
      empty_block-closes (not s.text_block_started && is_empty s.tool_calls)
        (close_calls s.tool_calls (close_open_text s.text_block_started (text_index s) s.sent))
        (empty_message s.text_block_started s.tool_calls (text_index s) s.sent
          (λ e f. (u 0 (ground (arith, z e f))).0))
        (close_calls-closes s.tool_calls
          (close_open_text s.text_block_started (text_index s) s.sent) q b) in
    (
      (
        unwrap_or s.final_stop_reason "end_turn",
        s.final_usage.1,
        empty_block (not s.text_block_started && is_empty s.tool_calls)
            (close_calls s.tool_calls (close_open_text s.text_block_started (text_index s) s.sent)),
        refl,
      ),
      (c, r),
    )

-- For every sequence of chunks from the backend, the events sent form a message of the protocol: a
-- block is started at most once, is written only while it is open, is stopped while it is open, and
-- is stopped before message_delta, which message_stop follows.
pub transform-IsProtocol :
    (generate_tool_use_id : ℕ → String) (id model : String) (cs : List OpenaiStreamChunk)
    → IsProtocol (closing (on_chunks generate_tool_use_id cs (opening id model)))
transform-IsProtocol gen id model cs =
    closing-IsProtocol (on_chunks gen cs (opening id model))
      (on_chunks-IsStream gen cs (opening id model) (opening-IsStream id model))
