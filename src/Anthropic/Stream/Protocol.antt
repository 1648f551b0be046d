-- ===== src/Anthropic/Stream/Protocol.antt =====
-- What Anthropic's protocol asks of the events that transform_stream of
-- proxy/src/api/anthropic.rs sends, and the invariant of its state.
use sovereign_engine.Prelude.{
  ℕ, ◌+◌, ◌≤◌, ℤ, String, Bool, false, ◌&&◌, List, [], ◌∷◌, eqb, if◌then◌else◌, ◌≡◌, ◌≢◌,
}
use sovereign_engine.Anthropic.Stream.{
  Event, message_start, ping, content_block_start, content_block_delta, content_block_stop,
  message_delta, message_stop, StreamingToolCall, StreamState, text_index,
}

pub data BlockStatus : Type 0 where
  fresh live finished : BlockStatus

-- Where block `i` stands after the events, newest first.
unfoldable pub block_status : ℕ → List Event → BlockStatus
block_status i [] = fresh
block_status i (content_block_start j b ∷ h) = if eqb j i then live else block_status i h
block_status i (content_block_stop j ∷ h) = if eqb j i then finished else block_status i h
block_status i (_ ∷ h) = block_status i h

-- What Anthropic's protocol asks of an event after those before it.
abbrev pub Allowed : Event → List Event → Type 0
Allowed (message_start id model) h = h ≡ []
Allowed ping h = Unit
Allowed (content_block_start i b) h = block_status i h ≡ fresh
Allowed (content_block_delta i d) h = block_status i h ≡ live
Allowed (content_block_stop i) h = block_status i h ≡ live
Allowed (message_delta r u) h = (i : ℕ) → block_status i h ≢ live
Allowed message_stop h =
    (r : String) × (u : ℤ) × (rest : List Event) × (h ≡ message_delta r u ∷ rest)

-- Each event was allowed when it was sent.
abbrev pub IsProtocol : List Event → Type 0
IsProtocol [] = Unit
IsProtocol (e ∷ h) = Allowed e h × IsProtocol h

abbrev pub open_one : ℕ → StreamingToolCall → ℕ
open_one i c = if c.started && eqb c.block_index i then 1 else 0

abbrev pub waiting_one : ℕ → StreamingToolCall → ℕ
waiting_one i c = if c.started then 0 else if eqb c.block_index i then 1 else 0

-- The calls with block `i` whose block is open, and those whose block is not open yet.
unfoldable pub open_calls : ℕ → List StreamingToolCall → ℕ
open_calls i [] = 0
open_calls i (c ∷ cs) = open_one i c + open_calls i cs

unfoldable pub waiting_calls : ℕ → List StreamingToolCall → ℕ
waiting_calls i [] = 0
waiting_calls i (c ∷ cs) = waiting_one i c + waiting_calls i cs

-- Whether the text block is open as block `i`.
unfoldable pub open_text : ℕ → Bool → ℕ → ℕ
open_text i started at = if started && eqb at i then 1 else 0

-- The block_status of a block against the numbers of those that have it open or wait for it.
abbrev pub Agrees : BlockStatus → ℕ → ℕ → Type 0
Agrees fresh opens waits = (opens ≡ 0) × (waits ≤ 1)
Agrees live opens waits = (opens ≡ 1) × (waits ≡ 0)
Agrees finished opens waits = (opens ≡ 0) × (waits ≡ 0)

abbrev pub At : ℕ → StreamState → Type 0
At i s =
    Agrees (block_status i s.sent)
      (open_calls i s.tool_calls + open_text i s.text_block_started (text_index s))
      (waiting_calls i s.tool_calls)

-- A block that was not handed out.
abbrev pub Unused : ℕ → StreamState → Type 0
Unused i s = (block_status i s.sent ≡ fresh) × (waiting_calls i s.tool_calls ≡ 0)

abbrev pub IsCore : StreamState → Type 0
IsCore s = IsProtocol s.sent × ((i : ℕ) → At i s) × ((i : ℕ) → s.next_block_index ≤ i → Unused i s)

abbrev pub IsStream : StreamState → Type 0
IsStream s = IsCore s × (s.text_block_started ≡ false → s.tool_calls ≡ [] → s.next_block_index ≡ 0)
