-- ===== src/Anthropic/Messages.antt =====
-- The handler messages of proxy/src/api/anthropic.rs: the checks of Inference, the translation there
-- and back, and the usage that is logged. What the parsers make of a body, and the reads of a body
-- that is streamed, are parameters.
use Prim.Native.Nat.{Ordering}
use sovereign_engine.Prelude.{
  ℕ, ℤ, pos, String, Bool, false, ◌&&◌, Option, none, some, List, [], ltb, leb, ◌==◌, if◌then◌else◌,
}
use sovereign_engine.Auth.{AuthUser}
use sovereign_engine.Scheduler.Gate.{release_and_wake}
use sovereign_engine.Scheduler.Resolver.{ResolvedModel}
use sovereign_engine.Inference.{
  Proxy, Meets, Refusal, model_not_found, model_not_loaded, system_reserved, queue_timeout,
  Admission, denied, granted, Answer, unreachable, responds, UsageEntry, admit, attribute,
  log_usage, give_back, proxy_to_backend,
}
use sovereign_engine.Anthropic.{Value, OpenaiStreamChunk}
use sovereign_engine.Anthropic.Request.{AnthropicRequest, AnthropicMetadata}
use sovereign_engine.Anthropic.Response.{
  OpenaiResponse, AnthropicResponse, AnthropicError, error_response, extract_usage,
  translate_openai_response,
}
use sovereign_engine.Anthropic.Stream.{Event}
use sovereign_engine.Anthropic.Stream.Lines.{Read, transform_stream, stream_usage}

-- What the client gets: an error, a message with status 200, or the events of a stream; or the task
-- has panicked.
pub data AnthropicReply : Type 0 where
  fails_with : ℕ × AnthropicError → AnthropicReply
  message : AnthropicResponse → AnthropicReply
  streams : List Event → AnthropicReply
  panics : AnthropicReply

-- The kind of the error and its text, without the names that the text of a missing model has.
abbrev pub refusal_error : Refusal → ℕ × AnthropicError
refusal_error model_not_found = error_response 404 "not_found_error" "Model not found"
refusal_error model_not_loaded =
    error_response 503 "overloaded_error" "Model is not currently loaded"
refusal_error system_reserved =
    error_response 503 "overloaded_error" "System is currently reserved for exclusive use"
refusal_error queue_timeout =
    error_response 429 "rate_limit_error" "Server is busy. Please retry later."

abbrev pub email_in : Option AnthropicMetadata → Option String
email_in none = none
email_in (some m) = m.user_id

abbrev pub is_success : ℕ → Bool
is_success status = leb 200 status && ltb status 300

-- The parameters: the parsers, the writer of JSON, the ids that are drawn, the decoder of a read, and
-- the reads that a streamed body comes in, as bytes.
pub record Codec (Body : Type 0) : Type 0 where
  pub parse_response : Body → Option OpenaiResponse
  pub parse_chunk : String → Option OpenaiStreamChunk
  pub parse_value : String → Option Value
  pub print : Value → String
  pub message_id : String
  pub tool_use_id : ℕ → String
  pub from_utf8_lossy : List ℕ → String
  pub reads_of : Body → List (Read ℕ)

module _ {Priority Body : Type 0} (partial_cmp : Priority → Priority → Option Ordering)
    (hash : String → String) (codec : Codec Body) where
  abbrev pub usage_of : Body → ℤ × ℤ
  usage_of b = extract_usage (codec.parse_response b)

  abbrev pub response_of : String → Option OpenaiResponse → AnthropicReply
  response_of name none =
      fails_with (error_response 502 "api_error" "Backend returned an unparseable response")
  response_of name (some r) =
      message
        (translate_openai_response codec.parse_value codec.tool_use_id codec.message_id r name)

  -- The reply to a request that is not streamed.
  abbrev pub whole_reply : String → Option Body → AnthropicReply
  whole_reply name none = fails_with (error_response 502 "api_error" "Backend unavailable")
  whole_reply name (some b) = response_of name (codec.parse_response b)

  abbrev pub reads : Option Body → List (Read ℕ)
  reads none = []
  reads (some b) = codec.reads_of b

  abbrev pub entry_of : Meets Priority Body → ResolvedModel → String × String → ℤ × ℤ → UsageEntry
  entry_of e m who tokens = record {
    token_id = who.1;
    user_id = who.0;
    model_id = m.id;
    category_id = m.category_id;
    input_tokens = tokens.0;
    output_tokens = tokens.1;
    latency_ms = e.latency_ms;
    queued_ms = e.queued_ms;
  }

  abbrev pub log_for :
      Meets Priority Body
      → ResolvedModel
      → String × String
      → ℤ × ℤ
      → Proxy Priority
      → Proxy Priority
  log_for e m who tokens p =
      log_usage partial_cmp hash usage_of e.log_fails (entry_of e m who tokens) p

  -- A body that was not collected has no usage.
  abbrev pub whole_usage : Option Body → ℤ × ℤ
  whole_usage none = (pos 0, pos 0)
  whole_usage (some b) = usage_of b

  -- The direct call of the backend for a stream: a status that is no success ends in an error, and
  -- nothing is logged.
  abbrev pub streamed :
      Meets Priority Body
      → ResolvedModel
      → String
      → String × String
      → Answer Body
      → Proxy Priority
      → Proxy Priority × AnthropicReply
  streamed e m name who unreachable p =
      (p, fails_with (error_response 502 "api_error" "Backend unavailable"))
  streamed e m name who (responds status body) p =
      if is_success status
      then (
        log_for e m who
            (stream_usage codec.from_utf8_lossy codec.parse_chunk codec.tool_use_id name
              codec.message_id (reads body))
            p,
        streams (
            transform_stream codec.from_utf8_lossy codec.parse_chunk codec.tool_use_id name
              codec.message_id (reads body)),
      )
      else (p, fails_with (error_response 502 "api_error" "Backend error"))

  abbrev pub answer_granted :
      Meets Priority Body
      → AuthUser
      → AnthropicRequest
      → Proxy Priority
      → ResolvedModel
      → Proxy Priority × AnthropicReply
  answer_granted e u req p m =
      let (q, who) = attribute partial_cmp hash usage_of e u (email_in req.metadata) p in
      let body = (proxy_to_backend false e.answer).body_bytes in
      if req.stream
      then streamed e m req.model who e.answer q
      else (log_for e m who (whole_usage body) q, whole_reply req.model body)

  abbrev pub answer_admission :
      Meets Priority Body
      → AuthUser
      → AnthropicRequest
      → Proxy Priority
      → Admission
      → Proxy Priority × AnthropicReply
  answer_admission e u req p (denied r) = (p, fails_with (refusal_error r))
  answer_admission e u req p (granted m) =
      let (q, reply) = answer_granted e u req p m in
      if m.backend_type == "llamacpp"
      then (give_back partial_cmp hash usage_of m.id q, reply)
      else (give_back partial_cmp hash usage_of m.id p, panics)

  unfoldable pub messages :
      Meets Priority Body
      → AuthUser
      → Option AnthropicRequest
      → Proxy Priority
      → Proxy Priority × AnthropicReply
  unfolding admit attribute log_usage release_and_wake proxy_to_backend error_response extract_usage
      translate_openai_response
  messages e u none p =
      (p, fails_with (error_response 400 "invalid_request_error" "Invalid request body"))
  messages e u (some req) p =
      let (q, a) = admit partial_cmp hash usage_of e u req.model p in answer_admission e u req q a
