-- ===== src/Anthropic/Spoken.antt =====
-- What the translations of proxy/src/api/anthropic.rs keep of a conversation.
use text.Mathlib.TextLemmas.{nil-append, append-nil, append_assoc}
use sovereign_engine.Prelude.{
  String, true, false, ◌&&◌, Option, none, some, ◌==◌, cat, if◌then◌else◌, unwrap_or, ◌≡◌, refl,
  sym, subst, ap, ◌∙◌, arith, inl, inr, Bool-cases, eq_iff, eq_refl,
}
use sovereign_engine.Anthropic.{
  Value, null, bool, number, string, array, object, Items, nil, cons, get, get_field, as_str,
  type_is, text_is,
}
use sovereign_engine.Anthropic.Request.{
  AnthropicMessage, block_text, join_texts, content_to_string, str_field, text_message,
  tool_message, flush, tool_results, translate_user_tool_result, assistant_blocks,
  translate_assistant_tool_use, translate_message, content_has_tool_use, content_has_tool_result,
}

-- The texts of the messages of a role, one behind the other.
unfoldable pub spoken : String → Items → String
unfolding get
spoken role nil = ""
spoken role (cons m ms) =
    let rest = spoken role ms in
    if str_field "role" m == role then cat (str_field "content" m) rest else rest

-- The messages of a role.
unfoldable pub of_role : String → Items → Items
unfolding get
of_role role nil = nil
of_role role (cons m ms) =
    let rest = of_role role ms in if str_field "role" m == role then cons m rest else rest

-- The tool message of each tool result.
unfoldable pub result_messages : Items → Items
result_messages nil = nil
result_messages (cons b bs) =
    let rest = result_messages bs in
    if type_is "tool_result" b then cons (tool_message b) rest else rest

text_is-other :
    (t u : String) (o : Option String) → (t == u) ≡ false → text_is t o ≡ true → text_is u o ≡ false
text_is-other t u none d h = ground arith
text_is-other t u (some s) d h = subst (λ z. (z == u) ≡ false) (sym ((eq_iff s t).0 h)) d

-- A block of another type has no text of its own.
block_text-other :
    (t : String) (b : Value) → (t == "text") ≡ false → type_is t b ≡ true → block_text b ≡ none
unfolding block_text type_is
block_text-other t b d h =
    rw (text_is-other t "text" (elim (get "type" b) [ none ↦ none | some v ↦ as_str v ]) d h) refl

spoken-flush :
    (acc : String) (rest : Items) → spoken "user" (flush acc rest) ≡ cat acc (spoken "user" rest)
unfolding spoken get get_field
spoken-flush acc rest = elim (Bool-cases (acc == "")) [
  | inl e ↦ rw e (
      sym (
        ap (λ z. cat z (spoken "user" rest)) ((eq_iff acc "").0 e)
        ∙ nil-append (spoken "user" rest)))
  | inr e ↦ rw e refl
]

of_role-flush :
    (acc : String) (rest : Items) → of_role "tool" (flush acc rest) ≡ of_role "tool" rest
unfolding of_role get get_field
of_role-flush acc rest = elim (Bool-cases (acc == "")) [ inl e ↦ rw e refl | inr e ↦ rw e refl ]

spoken-tool_results :
    (acc : String) (bs : Items) → spoken "user" (tool_results acc bs) ≡ cat acc (join_texts bs)
unfolding tool_results spoken get get_field join_texts
spoken-tool_results acc nil = spoken-flush acc nil
spoken-tool_results acc (cons b bs) = elim (Bool-cases (type_is "tool_result" b)) [
  | inl e ↦ rw e (
      spoken-flush acc (cons (tool_message b) (tool_results "" bs))
      ∙ ap (cat acc) (
          spoken-tool_results "" bs
          ∙ ap (λ z. cat (unwrap_or z "") (join_texts bs))
              (sym (block_text-other "tool_result" b refl e))))
  | inr e ↦ rw e (
      spoken-tool_results (cat acc (unwrap_or (block_text b) "")) bs
      ∙ append_assoc acc (unwrap_or (block_text b) "") (join_texts bs))
]

tool_results-messages :
    (acc : String) (bs : Items) → of_role "tool" (tool_results acc bs) ≡ result_messages bs
unfolding tool_results of_role get get_field result_messages
tool_results-messages acc nil = of_role-flush acc nil
tool_results-messages acc (cons b bs) = elim (Bool-cases (type_is "tool_result" b)) [
  | inl e ↦ rw e (
      of_role-flush acc (cons (tool_message b) (tool_results "" bs))
      ∙ ap (cons (tool_message b)) (tool_results-messages "" bs))
  | inr e ↦ rw e (tool_results-messages (cat acc (unwrap_or (block_text b) "")) bs)
]

spoken-assistant :
    (print : Value → String) (bs : Items)
    → spoken "assistant" (cons (assistant_blocks print bs) nil) ≡ join_texts bs
unfolding assistant_blocks spoken get get_field
spoken-assistant print bs = elim (Bool-cases (join_texts bs == "")) [
  | inl e ↦ rw (e, (eq_iff (join_texts bs) "").0 e) refl
  | inr e ↦ rw e (append-nil (join_texts bs))
]

assistant_spoken :
    (print : Value → String) (role : String) (v : Value)
    → role ≡ "assistant"
    → content_has_tool_use v ≡ true
    → spoken role (cons (translate_assistant_tool_use print v) nil) ≡ content_to_string v
unfolding translate_assistant_tool_use content_to_string
assistant_spoken print role (array bs) e h = rw e (spoken-assistant print bs)
assistant_spoken print role null e h = ground arith
assistant_spoken print role (bool b) e h = ground arith
assistant_spoken print role (number n) e h = ground arith
assistant_spoken print role (string s) e h = ground arith
assistant_spoken print role (object fs) e h = ground arith

user_spoken :
    (role : String) (v : Value)
    → role ≡ "user"
    → content_has_tool_result v ≡ true
    → spoken role (translate_user_tool_result v) ≡ content_to_string v
unfolding translate_user_tool_result content_to_string
user_spoken role (array bs) e h = rw e (spoken-tool_results "" bs ∙ nil-append (join_texts bs))
user_spoken role null e h = ground arith
user_spoken role (bool b) e h = ground arith
user_spoken role (number n) e h = ground arith
user_spoken role (string s) e h = ground arith
user_spoken role (object fs) e h = ground arith

plain_spoken : (role t : String) → spoken role (cons (text_message role t) nil) ≡ t
unfolding spoken get get_field
plain_spoken role t = rw (eq_refl role) (append-nil t)

-- The translation of a message keeps what its role says: the texts of the messages of this role
-- that it becomes are, one behind the other, the text of its content. That holds of a plain message,
-- of an assistant's with tool calls and of a user's with tool results, whatever the role.
pub translate_message-spoken :
    (print : Value → String) (m : AnthropicMessage)
    → spoken m.role (translate_message print m) ≡ content_to_string m.content
unfolding translate_message
translate_message-spoken print m =
    elim (Bool-cases (m.role == "assistant" && content_has_tool_use m.content)) [
      | inl e ↦
          rw (e, translate_message)
            (assistant_spoken print m.role m.content ((eq_iff m.role "assistant").0 (ground arith))
              (ground arith))
      | inr e ↦ elim (Bool-cases (m.role == "user" && content_has_tool_result m.content)) [
        | inl f ↦
            rw (e, f, translate_message)
              (user_spoken m.role m.content ((eq_iff m.role "user").0 (ground arith))
                (ground arith))
        | inr f ↦ rw (e, f, translate_message) (plain_spoken m.role (content_to_string m.content))
      ]
    ]

-- Each tool result of a user's message becomes one tool message, with the id that it answers and its
-- text, in their order, and no other tool message is made.
pub translate_user_tool_result-results :
    (bs : Items) → of_role "tool" (translate_user_tool_result (array bs)) ≡ result_messages bs
unfolding translate_user_tool_result
translate_user_tool_result-results bs = tool_results-messages "" bs
