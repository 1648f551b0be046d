-- ===== src/Anthropic/Stream/Kept.antt =====
-- The pieces of a chunk of transform_stream in proxy/src/api/anthropic.rs keep the invariant of Protocol.
use sovereign_engine.Prelude.{
  ℕ, ◌+◌, String, Bool, true, false, some, [], ◌∷◌, ◌++◌, eqb, ◌==◌, ◌≡◌, refl, inl, inr, arith,
  Bool-cases,
}
use sovereign_engine.Anthropic.Stream.{
  Block, content_block_start, StreamingToolCall, StreamState, send, start_text, text_index,
  send_text, on_text, find_call, put_call, close_text, new_call, create_call, send_arguments,
  opening,
}
use sovereign_engine.Anthropic.Stream.Protocol.{
  block_status, open_calls, waiting_calls, open_text, IsCore, IsStream, fresh, live,
}
use sovereign_engine.Anthropic.Stream.Blocks.{
  opens_block, closes_block, hands_out_block, live_of_open, fresh_of_waiting,
}
use sovereign_engine.Anthropic.Stream.Calls.{
  open_calls-put_call, waiting_calls-put_call, waiting_calls-found, put_call-empty,
  open_calls-append, waiting_calls-append, append_ne_empty,
}

pub opening-IsStream : (id model : String) → IsStream (opening id model)
unfolding opening block_status open_calls waiting_calls open_text
opening-IsStream id model =
    (((tt, (refl, tt)), (λ i. (refl, ground arith)), (λ i h. (refl, refl))), λ e f. refl)

pub start_text-IsStream :
    (b : Bool) (s : StreamState) → s.text_block_started ≡ b → IsStream s → IsStream (start_text b s)
unfolding start_text block_status open_text
start_text-IsStream true s e ((p, a, u), z) = ((p, a, u), z)
start_text-IsStream false s e ((p, a, u), z) = (
  (
    ((u s.next_block_index (omega arith)).0, p),
    (λ i.
        opens_block (eqb s.next_block_index i) (block_status i s.sent)
          (open_calls i s.tool_calls + open_text i s.text_block_started (text_index s))
          (open_calls i s.tool_calls + open_text i true s.next_block_index)
          (waiting_calls i s.tool_calls) (waiting_calls i s.tool_calls) (a i)
          (λ q. u i (ground arith)) (ground arith) (ground arith)),
    (λ i h. ground (arith, u i)),
  ),
  λ f. ground arith,
)

pub start_text-started :
    (b : Bool) (s : StreamState)
    → s.text_block_started ≡ b
    → (start_text b s).text_block_started ≡ true
unfolding start_text
start_text-started true s e = e
start_text-started false s e = refl

pub send_text-IsStream :
    (t : String) (s : StreamState)
    → s.text_block_started ≡ true
    → IsStream s
    → IsStream (send_text t s)
unfolding block_status open_text
send_text-IsStream t s e ((p, a, u), z) = (
  (
    (
      live_of_open (block_status (text_index s) s.sent)
          (open_calls (text_index s) s.tool_calls
            + open_text (text_index s) s.text_block_started (text_index s))
          (waiting_calls (text_index s) s.tool_calls) (a (text_index s)) (ground arith),
      p,
    ),
    a,
    u,
  ),
  z,
)

pub on_text-IsStream : (t : String) (s : StreamState) → IsStream s → IsStream (on_text t s)
unfolding on_text
on_text-IsStream t s h = elim (Bool-cases (t == "")) [
  | inl e ↦ rw e h
  | inr e ↦ rw e (
      send_text-IsStream t (start_text s.text_block_started s)
        (start_text-started s.text_block_started s refl)
        (start_text-IsStream s.text_block_started s refl h))
]

pub send_arguments-IsStream :
    (started : Bool) (block : ℕ) (args : String) (s : StreamState)
    → (started ≡ true → block_status block s.sent ≡ live)
    → IsStream s
    → IsStream (send_arguments started block args s)
unfolding send_arguments block_status
send_arguments-IsStream started block args s l ((p, a, u), z) = ground arith

-- The written call, started or not, against the one it stands for.
abbrev pub Follows : StreamingToolCall → StreamingToolCall → StreamState → Type 0
Follows tc old s =
    (find_call tc.index s.tool_calls ≡ some old)
    × (tc.block_index ≡ old.block_index)
    × (tc.started ≡ old.started)

-- Opening the block of a call that waits for it.
pub open_waiting :
    (new old : StreamingToolCall) (block : Block) (n : ℕ) (s : StreamState)
    → find_call new.index s.tool_calls ≡ some old
    → new.block_index ≡ old.block_index
    → new.started ≡ true
    → old.started ≡ false
    → IsStream s
    → IsStream (
        send
          (content_block_start new.block_index block)
          (record s { drawn = n; tool_calls = put_call new s.tool_calls }))
unfolding block_status
open_waiting new old block n s f k on off ((p, a, u), z) = (
  (
    ((alone new.block_index (ground arith)).0, p),
    (λ i.
        opens_block (eqb new.block_index i) (block_status i s.sent) (opens i)
          (open_calls i (put_call new s.tool_calls)
            + open_text i s.text_block_started (text_index s))
          (waits i) (waiting_calls i (put_call new s.tool_calls)) (a i)
          (λ hit. (
            (alone i hit).0,
            ground (arith, alone i hit, waiting_calls-put_call i new old s.tool_calls f),
          ))
          (ground (arith, open_calls-put_call i new old s.tool_calls f))
          (ground (arith, waiting_calls-put_call i new old s.tool_calls f, alone i))),
    λ i h. ground (arith, u i h, waiting_calls-put_call i new old s.tool_calls f),
  ),
  λ e q. z e (put_call-empty new s.tool_calls q),
)
  where
    opens : ℕ → ℕ
    opens i = open_calls i s.tool_calls + open_text i s.text_block_started (text_index s)

    waits : ℕ → ℕ
    waits i = waiting_calls i s.tool_calls

    alone : (i : ℕ) → eqb new.block_index i ≡ true → (block_status i s.sent ≡ fresh) × (waits i ≡ 1)
    alone i hit =
        fresh_of_waiting (block_status i s.sent) (opens i) (waits i) (a i)
          (ground (arith, waiting_calls-found i new.index old s.tool_calls f))

pub close_text-IsCore :
    (b : Bool) (s : StreamState)
    → (b ≡ true → s.text_block_started ≡ true)
    → IsStream s
    → IsCore (close_text b s)
unfolding close_text block_status open_text
close_text-IsCore false s e h = h.0
close_text-IsCore true s e ((p, a, u), z) = (
  (is_live, p),
  (λ i.
      closes_block (eqb (text_index s) i) (block_status i s.sent)
        (open_calls i s.tool_calls + open_text i s.text_block_started (text_index s))
        (open_calls i s.tool_calls + open_text i false (text_index s))
        (waiting_calls i s.tool_calls) (a i) (λ hit. ground (arith, is_live))
        (ground (arith, e refl))),
  λ i h. ground (arith, u i h, is_live),
)
  where
    is_live : block_status (text_index s) s.sent ≡ live
    is_live =
        live_of_open (block_status (text_index s) s.sent)
          (open_calls (text_index s) s.tool_calls
            + open_text (text_index s) s.text_block_started (text_index s))
          (waiting_calls (text_index s) s.tool_calls) (a (text_index s)) (ground (arith, e refl))

pub close_text-tool_calls :
    (b : Bool) (s : StreamState) → (close_text b s).tool_calls ≡ s.tool_calls
unfolding close_text
close_text-tool_calls true s = refl
close_text-tool_calls false s = refl

pub create_call-IsStream : (i : ℕ) (s : StreamState) → IsCore s → IsStream (create_call i s)
unfolding create_call
create_call-IsStream i s (p, a, u) = (
  (
    p,
    (λ j. rw (open_calls-append j i s.next_block_index s.tool_calls) (
        hands_out_block (eqb s.next_block_index j) (block_status j s.sent)
          (open_calls j s.tool_calls + open_text j s.text_block_started (text_index s))
          (waiting_calls j s.tool_calls)
          (waiting_calls j (s.tool_calls ++ new_call i s.next_block_index ∷ [])) (a j)
          (λ hit. u j (ground arith)) (waiting_calls-append j i s.next_block_index s.tool_calls))),
    λ j h. ground (arith, u j, waiting_calls-append j i s.next_block_index s.tool_calls),
  ),
  λ e q. absurd (append_ne_empty (new_call i s.next_block_index) s.tool_calls q),
)
