-- ===== src/Anthropic/Stream/Reads.antt =====
-- The loops of transform_stream in proxy/src/api/anthropic.rs over the reads and the lines against
-- the lines of all that was read.
use text.Mathlib.TextLemmas.{nil-append, append-nil, append_assoc}
use sovereign_engine.Prelude.{
  ℕ, zero, suc, ◌≤◌, pos, String, Option, none, some, List, [], ◌∷◌, ◌++◌, unwrap_or, ◌≡◌, refl, ap,
  sym, ◌∙◌, inl, inr, arith, count_chars, split_line, cat, Option-cases,
}
use sovereign_engine.Anthropic.{OpenaiStreamChunk}
use sovereign_engine.Anthropic.Stream.{
  StreamState, on_chunks, opening, closing, Event, message_delta, message_stop,
}
use sovereign_engine.Anthropic.Stream.Lines.{
  Read, chunk, failed, chunk_of_line, on_line, drain, read_stream, transform_stream,
}
use sovereign_engine.Anthropic.Stream.Protocol.{IsProtocol}
use sovereign_engine.Anthropic.Stream.Closes.{transform-IsProtocol}
use sovereign_engine.Anthropic.Stream.Contents.{
  text_sent, chunks_text, chunks_reason, chunks_completion, transform-reports,
}
use sovereign_engine.Anthropic.Stream.Buffer.{
  lines, lines-none, lines-some, shorter, lines-append, lines-rest,
}

module _ {Byte : Type 0} (from_utf8_lossy : List Byte → String) where
  -- What was read before a read failed, each read decoded on its own.
  unfoldable pub received : List (Read Byte) → String
  received [] = ""
  received (failed ∷ rs) = ""
  received (chunk b ∷ rs) = cat (from_utf8_lossy b) (received rs)

  -- The bytes that came before a read failed.
  unfoldable pub bytes_of : List (Read Byte) → List Byte
  bytes_of [] = []
  bytes_of (failed ∷ rs) = []
  bytes_of (chunk b ∷ rs) = b ++ bytes_of rs

  -- No read ends inside a character: what follows decodes on its own.
  unfoldable pub IsCut : List (Read Byte) → Type 0
  unfolding bytes_of
  IsCut [] = Unit
  IsCut (failed ∷ rs) = Unit
  IsCut (chunk b ∷ rs) =
      (from_utf8_lossy (b ++ bytes_of rs) ≡ cat (from_utf8_lossy b) (from_utf8_lossy (bytes_of rs)))
      × IsCut rs

  received-bytes_of :
      (rs : List (Read Byte))
      → from_utf8_lossy [] ≡ ""
      → IsCut rs
      → received rs ≡ from_utf8_lossy (bytes_of rs)
  unfolding received bytes_of IsCut
  received-bytes_of [] e c = sym e
  received-bytes_of (failed ∷ rs) e c = sym e
  received-bytes_of (chunk b ∷ rs) e c =
      ap (cat (from_utf8_lossy b)) (received-bytes_of rs e c.1) ∙ sym c.0

cons_not_nil : (l : String) (ls : List String) → l ∷ ls ≡ [] → ⊥
cons_not_nil l ls h = ground arith

-- A text without complete lines has no newline.
no_line : (s : String) → lines s ≡ ([], s) → split_line s ≡ none
no_line s h = elim (Option-cases (split_line s)) [
  | inl e ↦ e
  | inr (p, e) ↦ absurd (
      cons_not_nil p.0 (lines p.1).0
        (ap (λ (q : List String × String). q.0) (sym (lines-some s p e) ∙ h)))
]

module _ (parse_chunk : String → Option OpenaiStreamChunk) (generate_tool_use_id : ℕ → String) where
  -- The chunks that the lines hold.
  unfoldable pub chunks_of : List String → List OpenaiStreamChunk
  chunks_of [] = []
  chunks_of (l ∷ ls) = elim (chunk_of_line parse_chunk generate_tool_use_id l) [
    | none ↦ chunks_of ls
    | some c ↦ c ∷ chunks_of ls
  ]

  abbrev runs : List String → StreamState → StreamState
  runs ls s = on_chunks generate_tool_use_id (chunks_of ls) s

  runs-line :
      (l : String) (ls : List String) (s : StreamState)
      → runs (l ∷ ls) s ≡ runs ls (on_line parse_chunk generate_tool_use_id l s)
  unfolding chunks_of on_line on_chunks
  runs-line l ls s = elim (Option-cases (chunk_of_line parse_chunk generate_tool_use_id l)) [
    | inl e ↦ rw (e, on_line, chunks_of) refl
    | inr (c, e) ↦ rw (e, on_line, chunks_of) refl
  ]

  runs-append : (xs ys : List String) (s : StreamState) → runs (xs ++ ys) s ≡ runs ys (runs xs s)
  unfolding chunks_of on_chunks
  runs-append [] ys s = refl
  runs-append (x ∷ xs) ys s =
      runs-line x (xs ++ ys) s
      ∙ runs-append xs ys (on_line parse_chunk generate_tool_use_id x s)
      ∙ sym (ap (runs ys) (runs-line x xs s))

  -- What the loop over the buffer leaves, with the fuel it is given or more.
  drain-lines :
      (n : ℕ) (b : String) (s : StreamState)
      → count_chars b ≤ n
      → drain parse_chunk generate_tool_use_id n b s ≡ ((lines b).1, runs (lines b).0 s)
  unfolding drain chunks_of on_chunks
  drain-lines zero b s h = elim (Option-cases (split_line b)) [
    | inl e ↦ rw (lines-none b e) refl
    | inr (p, e) ↦ absurd (omega (arith, shorter b p e))
  ]
  drain-lines (suc n) b s h = elim (Option-cases (split_line b)) [
    | inl e ↦ rw (e, drain, lines-none b e) refl
    | inr (p, e) ↦
        rw (e, drain, lines-some b p e)
          (drain-lines n p.1 (on_line parse_chunk generate_tool_use_id p.0 s)
              (omega (arith, shorter b p e))
            ∙ ap (λ t. ((lines p.1).1, t)) (sym (runs-line p.0 (lines p.1).0 s)))
  ]

  -- The loop over the complete lines of the buffer has a fuel that is enough: it ends by its own
  -- condition, that no newline is left, and more fuel changes nothing.
  pub drain-terminates :
      (n : ℕ) (b : String) (s : StreamState)
      → count_chars b ≤ n
      → (split_line (drain parse_chunk generate_tool_use_id n b s).0 ≡ none)
        × (drain parse_chunk generate_tool_use_id n b s
            ≡ drain parse_chunk generate_tool_use_id (count_chars b) b s)
  drain-terminates n b s h = (
    rw (drain-lines n b s h) (no_line (lines b).1 (lines-rest b)),
    drain-lines n b s h ∙ sym (drain-lines (count_chars b) b s (omega arith)),
  )

module _ {Byte : Type 0} (from_utf8_lossy : List Byte → String)
    (parse_chunk : String → Option OpenaiStreamChunk) (generate_tool_use_id : ℕ → String) where
  read_stream-lines :
      (rs : List (Read Byte)) (b : String) (s : StreamState)
      → lines b ≡ ([], b)
      → read_stream from_utf8_lossy parse_chunk generate_tool_use_id rs b s
        ≡ runs parse_chunk generate_tool_use_id (lines (cat b (received from_utf8_lossy rs))).0 s
  unfolding read_stream received chunks_of on_chunks
  read_stream-lines [] b s h = rw (append-nil b, h) refl
  read_stream-lines (failed ∷ rs) b s h = rw (append-nil b, h) refl
  read_stream-lines (chunk c ∷ rs) b s h =
      rw
        (drain-lines parse_chunk generate_tool_use_id (count_chars (cat b (from_utf8_lossy c)))
          (cat b (from_utf8_lossy c)) s (omega arith))
        (read_stream-lines rs rest (runs parse_chunk generate_tool_use_id ls s)
            (lines-rest (cat b (from_utf8_lossy c)))
          ∙ sym (
              runs-append parse_chunk generate_tool_use_id ls
                (lines (cat rest (received from_utf8_lossy rs))).0 s)
          ∙ ap (λ (p : List String × String). runs parse_chunk generate_tool_use_id p.0 s)
              (sym (lines-append (cat b (from_utf8_lossy c)) (received from_utf8_lossy rs))
                ∙ ap lines (append_assoc b (from_utf8_lossy c) (received from_utf8_lossy rs))))
    where
      rest : String
      rest = (lines (cat b (from_utf8_lossy c))).1

      ls : List String
      ls = (lines (cat b (from_utf8_lossy c))).0

  -- The events sent are those of the chunks in the complete lines of all that was read before a read
  -- failed, each read decoded on its own.
  received-lines :
      (model msg_id : String) (rs : List (Read Byte))
      → transform_stream from_utf8_lossy parse_chunk generate_tool_use_id model msg_id rs
        ≡ closing (
            on_chunks generate_tool_use_id
              (chunks_of parse_chunk generate_tool_use_id (lines (received from_utf8_lossy rs)).0)
              (opening msg_id model))
  unfolding transform_stream lines
  received-lines model msg_id rs = ap closing (
      read_stream-lines rs "" (opening msg_id model) refl
      ∙ ap (λ t. runs parse_chunk generate_tool_use_id (lines t).0 (opening msg_id model))
          (nil-append (received from_utf8_lossy rs)))

  -- Where the backend's stream is cut into reads does not matter as long as no read ends inside a
  -- character: the events sent are those of the chunks in the complete lines of all bytes that came
  -- before a read failed, decoded at once.
  pub transform_stream-lines :
      (model msg_id : String) (rs : List (Read Byte))
      → from_utf8_lossy [] ≡ ""
      → IsCut from_utf8_lossy rs
      → transform_stream from_utf8_lossy parse_chunk generate_tool_use_id model msg_id rs
        ≡ closing (
            on_chunks generate_tool_use_id
              (chunks_of parse_chunk generate_tool_use_id
                (lines (from_utf8_lossy (bytes_of from_utf8_lossy rs))).0)
              (opening msg_id model))
  transform_stream-lines model msg_id rs e c =
      received-lines model msg_id rs
      ∙ ap
          (λ t. closing (
            on_chunks generate_tool_use_id (chunks_of parse_chunk generate_tool_use_id (lines t).0)
              (opening msg_id model)))
          (received-bytes_of from_utf8_lossy rs e c)

  -- The events that are sent form a message of Anthropic's protocol, however the backend's stream is
  -- cut and whatever it holds: a block is started at most once, is written only while it is open, is
  -- stopped while it is open, and is stopped before message_delta, which message_stop follows.
  pub transform_stream-IsProtocol :
      (model msg_id : String) (rs : List (Read Byte))
      → IsProtocol
          (transform_stream from_utf8_lossy parse_chunk generate_tool_use_id model msg_id rs)
  transform_stream-IsProtocol model msg_id rs = rw (received-lines model msg_id rs) (
      transform-IsProtocol generate_tool_use_id msg_id model
        (chunks_of parse_chunk generate_tool_use_id (lines (received from_utf8_lossy rs)).0))

  -- The text of all text deltas, in order, is the text of the chunks in the complete lines that were
  -- read, in order; and the last two events are message_stop behind a message_delta with the last
  -- finish reason of these chunks, translated, or end_turn if there is none, and the last count of
  -- completion tokens, or 0.
  pub transform_stream-reports :
      (model msg_id : String) (rs : List (Read Byte))
      → (text_sent
            (transform_stream from_utf8_lossy parse_chunk generate_tool_use_id model msg_id rs)
          ≡ chunks_text
              (chunks_of parse_chunk generate_tool_use_id (lines (received from_utf8_lossy rs)).0))
        × ((rest : List Event) × (transform_stream from_utf8_lossy parse_chunk generate_tool_use_id
                model msg_id rs
              ≡ message_stop
                ∷ message_delta
                    (unwrap_or
                      (chunks_reason none (
                        chunks_of parse_chunk generate_tool_use_id
                          (lines (received from_utf8_lossy rs)).0))
                      "end_turn")
                    (chunks_completion (pos 0) (
                      chunks_of parse_chunk generate_tool_use_id
                        (lines (received from_utf8_lossy rs)).0))
                ∷ rest))
  transform_stream-reports model msg_id rs = rw (received-lines model msg_id rs) (
      transform-reports generate_tool_use_id msg_id model
        (chunks_of parse_chunk generate_tool_use_id (lines (received from_utf8_lossy rs)).0))
