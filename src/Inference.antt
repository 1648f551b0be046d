-- ===== src/Inference.antt =====
-- The requests of /v1 from the token to the backend: proxy/src/api/openai.rs, the wait for a slot of
-- proxy/src/scheduler/gate.rs, proxy_to_backend of proxy/src/proxy/streaming.rs and log_usage of
-- proxy/src/scheduler/usage.rs. A body is known by what the parser makes of it.
pub mod Access
pub mod Tests
use Prim.Native.Nat.{Ordering}
use sovereign_engine.Prelude.{
  ℕ, ℤ, pos, String, Bool, true, false, not, ◌&&◌, Option, none, some, List, [], ◌∷◌, map, leb,
  ◌==◌, is_some, if◌then◌else◌, unwrap_or, Result, ok, err,
}
use sovereign_engine.Prelude.Dict
use sovereign_engine.Prelude.Dict.{Dict}
use sovereign_engine.Prelude.Table.{find_first, select}
use sovereign_engine.Auth.{AuthUser, Db, ensure_meta_token, validate_token}
use sovereign_engine.Reservation.{ActiveReservation}
use sovereign_engine.Scheduler.Queue.{QueuedRequest, RequestQueue, enqueue}
use sovereign_engine.Scheduler.Gate.{Gate, try_acquire, release_and_wake, WaitEnd, finish_wait}
use sovereign_engine.Scheduler.Resolver.{ResolvedModel, Catalog, Query, resolve_model}
use sovereign_engine.Session.Cookies.{
  Verdict, goes_on, answered, redirected, bearer_auth_middleware,
}

-- The columns of `users` that attribution reads.
pub record Person : Type 0 where
  pub id : String
  pub email : Option String

pub record UsageEntry : Type 0 where
  pub token_id : String
  pub user_id : String
  pub model_id : String
  pub category_id : Option String
  pub input_tokens : ℤ
  pub output_tokens : ℤ
  pub latency_ms : ℕ
  pub queued_ms : ℕ

-- What the handlers share.
pub record Proxy (Priority : Type 0) : Type 0 where
  pub catalog : Catalog
  pub auth : Db
  pub people : List Person
  pub cache : Option ActiveReservation
  pub gate : Gate
  pub queue : RequestQueue Priority
  pub secrets : Dict String
  pub usage_log : List UsageEntry

-- How the backend answers: not at all, or with a status and a body, which may break off.
pub data Answer (Body : Type 0) : Type 0 where
  unreachable : Answer Body
  responds : ℕ → Option Body → Answer Body

-- What a request meets: the failures of statements, what other tasks do to all that is shared while it
-- waits and how that ends, and what the backend answers.
pub record Meets (Priority Body : Type 0) : Type 0 where
  pub model_fails : Query → Bool
  pub request : QueuedRequest Priority
  pub while_waiting : Proxy Priority → Proxy Priority
  pub wait_end : WaitEnd
  pub secret_fails : Bool
  pub answer : Answer Body
  pub people_fails : Bool
  pub meta_unread : Bool
  pub meta_fails : Bool
  pub meta_id : String
  pub meta_token : String
  pub log_fails : Bool
  pub latency_ms : ℕ
  pub queued_ms : ℕ

abbrev pub with_gate :
    {Priority : Type 0} → Gate → RequestQueue Priority → Proxy Priority → Proxy Priority
with_gate g q p = record p { gate = g; queue = q }

abbrev pub waited :
    {Priority : Type 0}
    → Gate × RequestQueue Priority × Bool
    → Proxy Priority
    → Proxy Priority × Bool
waited (g, q, got) p = (with_gate g q p, got)

-- acquire_with_timeout; the flag says whether a slot was acquired.
unfoldable pub acquire_with_timeout :
    {Priority Body : Type 0} → Meets Priority Body → String → Proxy Priority → Proxy Priority × Bool
unfolding try_acquire finish_wait enqueue
acquire_with_timeout e m p =
    let (g, free) = try_acquire m p.gate in
    let later = e.while_waiting (with_gate g (enqueue e.request p.queue) p) in
    if free
    then (with_gate g p.queue p, true)
    else waited (finish_wait e.wait_end m e.request.request_id later.gate later.queue) later

-- The reply of the backend as it is passed on: the status, and the body that was collected. A kick
-- tells the supervisor to probe the model; `answered` is the status that record_worked sees.
pub record ProxyResult (Body : Type 0) : Type 0 where
  pub status : ℕ
  pub body_bytes : Option Body
  pub kicks : Bool
  pub worked : Option ℕ

-- A body that breaks off becomes a status 502; one that is streamed is not collected.
abbrev pub collected : {Body : Type 0} → Bool → ℕ → Option Body → ProxyResult Body
collected true status body = record {
  status = status;
  body_bytes = none;
  kicks = leb 500 status;
  worked = some status;
}
collected false status none = record {
  status = 502;
  body_bytes = none;
  kicks = leb 500 status;
  worked = some status;
}
collected false status (some b) = record {
  status = status;
  body_bytes = some b;
  kicks = leb 500 status;
  worked = some status;
}

unfoldable pub proxy_to_backend : {Body : Type 0} → Bool → Answer Body → ProxyResult Body
proxy_to_backend streaming unreachable = record {
  status = 502;
  body_bytes = none;
  kicks = true;
  worked = none;
}
proxy_to_backend streaming (responds status body) = collected streaming status body

-- Why a request is refused.
pub data Refusal : Type 0 where
  model_not_found model_not_loaded system_reserved queue_timeout : Refusal

abbrev pub status_of : Refusal → ℕ
status_of model_not_found = 404
status_of model_not_loaded = 503
status_of system_reserved = 503
status_of queue_timeout = 429

-- A backend type other than llamacpp ends the task by a panic behind the slot, which is given back.
pub data Reply (Body : Type 0) : Type 0 where
  refused : Refusal → Reply Body
  panicked : Reply Body
  forwarded : ResolvedModel → Option String → ProxyResult Body → Reply Body

pub data Admission : Type 0 where
  denied : Refusal → Admission
  granted : ResolvedModel → Admission

-- The system is reserved for another user; internal tokens are exempt.
abbrev pub reserved_for_other : AuthUser → Option ActiveReservation → Bool
reserved_for_other u none = false
reserved_for_other u (some a) = not u.is_internal && not (a.user_id == u.user_id)

abbrev pub is_email : String → Person → Bool
is_email e p = elim p.email [ none ↦ false | some f ↦ f == e ]

module _ {Priority Body : Type 0} (partial_cmp : Priority → Priority → Option Ordering)
    (hash : String → String) (usage_of : Body → ℤ × ℤ) where
  -- resolve_meta_user: the user and the meta token that usage is attributed to.
  unfoldable pub resolve_meta_user :
      Meets Priority Body → String → Proxy Priority → Proxy Priority × Option (String × String)
  unfolding ensure_meta_token
  resolve_meta_user e email p =
      if e.people_fails then (p, none) else elim (find_first (is_email email) p.people) [
        | none ↦ (p, none)
        | some person ↦
            let (auth, made) =
              ensure_meta_token hash e.meta_unread e.meta_fails e.meta_id e.meta_token person.id
                p.auth in
            (
              record p { auth = auth },
              elim made [ ok token ↦ some (person.id, token) | err x ↦ none ],
            )
      ]

  -- Who the usage is logged for: the user of the token, or for an internal token the user with the
  -- e-mail, if that can be found.
  unfoldable pub attribute :
      Meets Priority Body
      → AuthUser
      → Option String
      → Proxy Priority
      → Proxy Priority × (String × String)
  unfolding resolve_meta_user
  attribute e u none p = (p, (u.user_id, u.token_id))
  attribute e u (some email) p =
      let (q, found) = resolve_meta_user e email p in
      if u.is_internal
      then (q, unwrap_or found (u.user_id, u.token_id))
      else (p, (u.user_id, u.token_id))

  -- (0, 0) for a body that was not collected.
  abbrev pub usage_in : ProxyResult Body → ℤ × ℤ
  usage_in r = elim r.body_bytes [ none ↦ (pos 0, pos 0) | some b ↦ usage_of b ]

  unfoldable pub log_usage : Bool → UsageEntry → Proxy Priority → Proxy Priority
  log_usage failed entry p = if failed then p else record p { usage_log = entry ∷ p.usage_log }

  -- AcquiredSlot dropped.
  abbrev pub give_back : String → Proxy Priority → Proxy Priority
  give_back m p = record p {
    gate = (release_and_wake partial_cmp m p.gate p.queue).0;
    queue = (release_and_wake partial_cmp m p.gate p.queue).1;
  }

  abbrev pub api_key : Meets Priority Body → String → Proxy Priority → Option String
  api_key e m p = if e.secret_fails then none else Dict.get m p.secrets

  -- From the slot on.
  unfoldable pub serve :
      Meets Priority Body
      → AuthUser
      → ResolvedModel
      → Bool
      → Option String
      → Proxy Priority
      → Proxy Priority × Reply Body
  unfolding proxy_to_backend attribute log_usage release_and_wake
  serve e u m streaming email p =
      if not (m.backend_type == "llamacpp")
      then (give_back m.id p, panicked)
      else let result = proxy_to_backend streaming e.answer in
        let (q, (user, token)) = attribute e u email p in
        let (input, output) = usage_in result in
        let entry : UsageEntry = record {
          token_id = token;
          user_id = user;
          model_id = m.id;
          category_id = m.category_id;
          input_tokens = input;
          output_tokens = output;
          latency_ms = e.latency_ms;
          queued_ms = e.queued_ms;
        } in
        (give_back m.id (log_usage e.log_fails entry q), forwarded m (api_key e m.id p) result)

  -- The checks up to the slot, which proxy_completion and the handler of Anthropic's API share.
  unfoldable pub admit :
      Meets Priority Body → AuthUser → String → Proxy Priority → Proxy Priority × Admission
  unfolding resolve_model acquire_with_timeout
  admit e u name p =
      elim (resolve_model e.model_fails p.catalog name u.category_id u.specific_model_id) [
        | err x ↦ (p, denied model_not_found)
        | ok m ↦
            if not m.loaded
            then (p, denied model_not_loaded)
            else if reserved_for_other u p.cache
            then (p, denied system_reserved)
            else let slot = acquire_with_timeout e m.id p in
              (slot.0, if slot.1 then granted m else denied queue_timeout)
      ]

  abbrev pub serve_granted :
      Meets Priority Body
      → AuthUser
      → Bool
      → Option String
      → Proxy Priority
      → Admission
      → Proxy Priority × Reply Body
  serve_granted e u streaming email p (denied r) = (p, refused r)
  serve_granted e u streaming email p (granted m) = serve e u m streaming email p

  unfoldable pub proxy_completion :
      Meets Priority Body
      → AuthUser
      → String
      → Bool
      → Option String
      → Proxy Priority
      → Proxy Priority × Reply Body
  unfolding admit serve
  proxy_completion e u name streaming email p =
      let (q, a) = admit e u name p in serve_granted e u streaming email q a

-- What chat_completions and completions read of a body.
pub record ChatCompletionRequest : Type 0 where
  pub model : String
  pub stream : Bool
  pub user : Option String

-- How a request to /v1 ends: 401, an error in a body with status 200, or what proxy_completion does.
pub data Ending (Body : Type 0) : Type 0 where
  unauthorized invalid_body : Ending Body
  replied : Reply Body → Ending Body

abbrev pub or_email : Option String → Option String → Option String
or_email none d = d
or_email (some s) d = some s

module _ {Priority Body : Type 0} (partial_cmp : Priority → Priority → Option Ordering)
    (hash : String → String) (usage_of : Body → ℤ × ℤ) (parse_time : String → Option ℕ) where
  -- chat_completions and completions behind bearer_auth_middleware: the headers Authorization,
  -- X-Api-Key and X-OpenWebUI-User-Email, and what the parser makes of the body.
  unfoldable pub completions :
      Meets Priority Body
      → Bool
      → ℕ
      → Option String
      → Option String
      → Option String
      → Option ChatCompletionRequest
      → Proxy Priority
      → Proxy Priority × Ending Body
  unfolding bearer_auth_middleware proxy_completion
  completions e failed now authorization key header_email body p =
      elim (bearer_auth_middleware hash parse_time failed now authorization key p.auth) [
        | answered n ↦ (p, unauthorized)
        | redirected url ↦ (p, unauthorized)
        | goes_on u ↦ elim body [
          | none ↦ (p, invalid_body)
          | some req ↦
              let r =
                proxy_completion partial_cmp hash usage_of e u req.model req.stream
                  (or_email header_email req.user) p in
              (r.0, replied r.1)
        ]
      ]

-- list_models: the repositories of the loaded models, or a status 500.
unfoldable pub list_models : Bool → Catalog → Option (List String)
list_models failed db =
    if failed
    then none
    else some (
        map (λ (m : ResolvedModel). m.hf_repo) (select (λ (m : ResolvedModel). m.loaded) db.models))
