-- ===== src/Inference/Tests.antt =====
-- Runs of proxy/src/api/openai.rs at concrete requests.
use Prim.Native.Nat.{Ordering, compare}
use sovereign_engine.Prelude.{
  ℕ, ℤ, pos, String, true, false, Option, none, some, [], ◌∷◌, cat, ok, ◌≡◌, refl,
}
use sovereign_engine.Prelude.Dict
use sovereign_engine.Auth.{AuthUser, validate_token}
use sovereign_engine.Scheduler.Gate.{woken}
use sovereign_engine.Scheduler.Queue.{dequeue, take_best}
use sovereign_engine.Scheduler.Resolver.{ResolvedModel}
use sovereign_engine.Session.Cookies.{or_key, bearer_of}
use sovereign_engine.Inference.{
  Proxy, Meets, forwarded, refused, queue_timeout, ProxyResult, responds, unreachable, Answer,
  ChatCompletionRequest, replied, completions, list_models,
}
use sovereign_engine.Anthropic.Request.{AnthropicRequest}
use sovereign_engine.Anthropic.Response.{OpenaiResponse}
use sovereign_engine.Anthropic.Messages.{Codec}
use sovereign_engine.Inference.Access.{IsAdmitted, completions-IsAdmitted}

abbrev hash : String → String
hash t = cat "#" t

abbrev parse_time : String → Option ℕ
parse_time s = none

abbrev cmp : ℕ → ℕ → Option Ordering
cmp a b = some (compare a b)

-- A body is its number of tokens.
abbrev usage_of : ℕ → ℤ × ℤ
usage_of n = (pos 1, pos n)

abbrev small : ResolvedModel
small = record {
  id = "m1";
  hf_repo = "org/small";
  backend_port = none;
  loaded = true;
  category_id = none;
  backend_type = "llamacpp";
  last_used_at = none;
}

abbrev proxy : ℕ → Proxy ℕ
proxy slots = record {
  catalog = record { models = small ∷ []; categories = [] };
  auth = record {
    tokens =
        record {
          id = "t1";
          user_id = "u1";
          name = "cli";
          token_hash = "#abc";
          category_id = none;
          specific_model_id = none;
          expires_at = none;
          revoked = false;
          internal = false;
          meta = false;
        }
        ∷ [];
    users = record { id = "u1"; is_admin = false } ∷ [];
  };
  people = [];
  cache = none;
  gate = ("m1", record { max_slots = slots; in_flight = 0 }) ∷ [];
  queue = [];
  secrets = ("m1", "key") ∷ [];
  usage_log = [];
}

abbrev meets : Answer ℕ → Meets ℕ ℕ
meets a = record {
  model_fails = λ q. false;
  request = record {
    request_id = "r1";
    user_id = "u1";
    queue_key = "m1";
    priority = 0;
    enqueued_at = 0;
  };
  while_waiting = λ p. p;
  wait_end = woken;
  secret_fails = false;
  answer = a;
  people_fails = false;
  meta_unread = false;
  meta_fails = false;
  meta_id = "";
  meta_token = "";
  log_fails = false;
  latency_ms = 20;
  queued_ms = 1;
}

abbrev ask : ChatCompletionRequest
ask = record { model = "org/small"; stream = false; user = none }

abbrev user : AuthUser
user = record {
  user_id = "u1";
  token_id = "t1";
  category_id = none;
  specific_model_id = none;
  is_admin = false;
  is_internal = false;
}

abbrev result : ProxyResult ℕ
result = record { status = 200; body_bytes = some 7; kicks = false; worked = some 200 }

-- The usage is logged and the slot is given back.
served_test :
    completions cmp hash usage_of parse_time
      (meets (responds 200 (some 7)))
      false
      0
      (some "Bearer abc")
      none
      none
      (some ask)
      (proxy 1)
    ≡ (
      record (proxy 1) {
        usage_log =
            record {
              token_id = "t1";
              user_id = "u1";
              model_id = "m1";
              category_id = none;
              input_tokens = pos 1;
              output_tokens = pos 7;
              latency_ms = 20;
              queued_ms = 1;
            }
            ∷ [];
      },
      replied (forwarded small (some "key") result),
    )
unfolding completions Dict.insert Dict.get dequeue take_best
served_test = refl

-- Without a slot the request is refused.
busy_test :
    (completions cmp hash usage_of parse_time
      (meets unreachable)
      false
      0
      none
      (some "abc")
      none
      (some ask)
      (proxy 0)).1
    ≡ replied (refused queue_timeout)
unfolding completions Dict.insert Dict.get
busy_test = refl

models_test : list_models false (proxy 1).catalog ≡ some ("org/small" ∷ [])
unfolding list_models
models_test = refl

completions-IsAdmitted_example :
    (token : String) × (u : AuthUser) × (or_key (bearer_of (some "Bearer abc")) none ≡ some token)
    × (validate_token hash parse_time false 0 token (proxy 1).auth ≡ ok u)
    × IsAdmitted (meets (responds 200 (some 7))) u "org/small" (proxy 1) small
unfolding completions Dict.insert Dict.get
completions-IsAdmitted_example =
    completions-IsAdmitted cmp hash usage_of parse_time (meets (responds 200 (some 7))) false 0
      (some "Bearer abc") none none ask (proxy 1) small (some "key") result refl

-- The error of a backend parses as a response without choices.
abbrev no_choices : OpenaiResponse
no_choices = record { choices = none; usage = none }

abbrev codec : Codec ℕ
codec = record {
  parse_response = λ n. some no_choices;
  parse_chunk = λ s. none;
  parse_value = λ s. none;
  print = λ v. "{}";
  message_id = "msg_1";
  tool_use_id = λ n. "toolu_1";
  from_utf8_lossy = λ bs. "";
  reads_of = λ n. [];
}

abbrev question : AnthropicRequest
question = record {
  model = "org/small";
  max_tokens = 10;
  messages = [];
  system = none;
  stream = false;
  temperature = none;
  top_p = none;
  stop_sequences = none;
  metadata = none;
  tools = none;
}

-- A status 500 of the backend becomes a message with status 200.
