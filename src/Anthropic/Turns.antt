-- ===== src/Anthropic/Turns.antt =====
-- A turn of the assistant in proxy/src/api/anthropic.rs: the content of a response, sent back as the
-- content of a message of the next request.
use package.text.Mathlib.TextLemmas.{nil-append, append-nil}
use sovereign_engine.Prelude.{
  ℕ, suc, String, Option, none, some, List, [], ◌∷◌, ◌++◌, ◌==◌, cat, if◌then◌else◌, unwrap_or, ◌≡◌,
  refl, ap, ◌∙◌, inl, inr, Bool-cases, eq_iff, ◌⊎◌, sym, subst, false, arith,
}
use sovereign_engine.Anthropic.{
  Value, null, array, string, object, Items, nil, cons, end, field, get, get_field, type_is,
}
use sovereign_engine.Anthropic.Request.{
  block_text, join_texts, tool_calls_of, assistant_blocks, any_of_type, text_message,
  translate_message, translate_assistant_tool_use, content_to_string, with_tool_calls, tool_call,
}
use sovereign_engine.Anthropic.Response.{
  OpenaiToolCall, OpenaiToolCallFunction, OpenaiMessage, text_contents, call_name, call_arguments,
  or_empty_block, tool_use_block, tool_blocks, content_blocks,
}

-- The blocks as the elements of a JSON array.
abbrev pub items : List Value → Items
items [] = nil
items (v ∷ vs) = cons v (items vs)

-- The name of a call, empty where it has none, and its arguments, an empty object where it has none.
unfoldable pub name_said : Option OpenaiToolCallFunction → String
name_said none = ""
name_said (some f) = elim f.name [ none ↦ "" | some n ↦ n ]

unfoldable pub arguments_said : Option OpenaiToolCallFunction → String
arguments_said none = "{}"
arguments_said (some f) = elim f.arguments [ none ↦ "{}" | some a ↦ a ]

said :
    (f : Option OpenaiToolCallFunction)
    → (name_said f ≡ call_name f) × (arguments_said f ≡ call_arguments f)
unfolding name_said arguments_said
said none = (refl, refl)
said (some f) = (name_some f.name, arguments_some f.arguments)
  where
    name_some : (o : Option String) → elim o [ none ↦ "" | some n ↦ n ] ≡ unwrap_or o ""
    name_some none = refl
    name_some (some n) = refl

    arguments_some : (o : Option String) → elim o [ none ↦ "{}" | some n ↦ n ] ≡ unwrap_or o "{}"
    arguments_some none = refl
    arguments_some (some n) = refl

module _ (print : Value → String) (parse_value : String → Option Value)
    (generate_tool_use_id : ℕ → String) where
  -- A call as it comes back: with the id that was drawn where one was missing, and the arguments
  -- parsed and printed.
  abbrev pub returned_call : ℕ → OpenaiToolCall → Value
  returned_call n tc = object (
      field "id"
        (string (if unwrap_or tc.id "" == "" then generate_tool_use_id n else unwrap_or tc.id ""))
        (field "type" (string "function") (
          field "function"
            (object (
              field "name" (string (name_said tc.function)) (
                field "arguments"
                  (string
                    (print (unwrap_or (parse_value (arguments_said tc.function)) (object end))))
                  end)))
            end)))

  unfoldable pub returned_calls : ℕ → List OpenaiToolCall → Items
  returned_calls n [] = nil
  returned_calls n (tc ∷ tcs) =
      let id = unwrap_or tc.id "" in
      let missing = id == "" in
      cons (returned_call n tc) (returned_calls (if missing then suc n else n) tcs)

  calls_return :
      (n : ℕ) (tcs : List OpenaiToolCall)
      → tool_calls_of print (items (tool_blocks parse_value generate_tool_use_id n tcs))
        ≡ returned_calls n tcs
  unfolding tool_blocks tool_calls_of returned_calls type_is get get_field
  calls_return n [] = refl
  calls_return n (tc ∷ tcs) =
      let (name, args) = said tc.function in
      rw (name, args)
        (ap
          (cons (
            tool_call print (
              tool_use_block
                (if unwrap_or tc.id "" == "" then generate_tool_use_id n else unwrap_or tc.id "")
                (call_name tc.function)
                (unwrap_or (parse_value (call_arguments tc.function)) (object end)))))
          (calls_return (if unwrap_or tc.id "" == "" then suc n else n) tcs))

  calls_silent :
      (n : ℕ) (tcs : List OpenaiToolCall)
      → join_texts (items (tool_blocks parse_value generate_tool_use_id n tcs)) ≡ ""
  unfolding tool_blocks join_texts block_text type_is get get_field
  calls_silent n [] = refl
  calls_silent n (tc ∷ tcs) =
      nil-append (join_texts (items (tool_blocks parse_value generate_tool_use_id after tcs)))
      ∙ calls_silent after tcs
    where
      after : ℕ
      after = if unwrap_or tc.id "" == "" then suc n else n

  -- Behind an optional text block.
  texts_return :
      (o : Option String) (bs : List Value)
      → join_texts (items bs) ≡ ""
      → (join_texts (items (text_contents o ++ bs)) ≡ unwrap_or o "")
        × (tool_calls_of print (items (text_contents o ++ bs)) ≡ tool_calls_of print (items bs))
  unfolding join_texts tool_calls_of block_text type_is get get_field
  texts_return none bs h = (h, refl)
  texts_return (some t) bs h = elim (Bool-cases (t == "")) [
    | inl e ↦ rw (e, (eq_iff t "").0 e) (h, refl)
    | inr e ↦ rw e (ap (cat t) h ∙ append-nil t, refl)
  ]

  empty_returns :
      (bs : List Value)
      → (join_texts (items (or_empty_block bs)) ≡ join_texts (items bs))
        × (tool_calls_of print (items (or_empty_block bs)) ≡ tool_calls_of print (items bs))
  unfolding join_texts tool_calls_of block_text type_is get get_field
  empty_returns [] = (refl, refl)
  empty_returns (b ∷ bs) = (refl, refl)

  blocks_return :
      (m : OpenaiMessage)
      → (join_texts
            (items (or_empty_block (content_blocks parse_value generate_tool_use_id (some m))))
          ≡ unwrap_or m.content "")
        × (tool_calls_of print
              (items (or_empty_block (content_blocks parse_value generate_tool_use_id (some m))))
            ≡ returned_calls 0 (unwrap_or m.tool_calls []))
  unfolding content_blocks
  blocks_return m =
      let calls : List OpenaiToolCall = unwrap_or m.tool_calls [] in
      let blocks : List Value = tool_blocks parse_value generate_tool_use_id 0 calls in
      let (a, b) = empty_returns (text_contents m.content ++ blocks) in
      let (c, d) = texts_return m.content blocks (calls_silent 0 calls) in
      (a ∙ c, b ∙ d ∙ calls_return 0 calls)

  -- The array of calls, which is missing where there is none.
  abbrev pub calls_field : Items → Option Value
  calls_field nil = none
  calls_field (cons c cs) = some (array (cons c cs))

  -- What a message to the backend says: its role, its text, which is null or empty where there is none,
  -- and its calls.
  abbrev pub SaysTurn : Value → String → Items → Type 0
  SaysTurn v t calls =
      (get "role" v ≡ some (string "assistant"))
      × ((get "content" v ≡ some (string t)) ⊎ ((t ≡ "") × (get "content" v ≡ some null)))
      × (get "tool_calls" v ≡ calls_field calls)

  with_calls : (cs : Items) → get_field "tool_calls" (with_tool_calls print cs) ≡ calls_field cs
  unfolding get_field
  with_calls nil = refl
  with_calls (cons c cs) = refl

  blocks-SaysTurn :
      (bs : Items) → SaysTurn (assistant_blocks print bs) (join_texts bs) (tool_calls_of print bs)
  unfolding assistant_blocks get get_field
  blocks-SaysTurn bs = (
    refl,
    elim (Bool-cases (join_texts bs == "")) [
      | inl e ↦ inr ((eq_iff (join_texts bs) "").0 e, rw e refl)
      | inr e ↦ inl (rw e refl)
    ],
    with_calls (tool_calls_of print bs),
  )

  silent-no_calls : (bs : Items) → any_of_type "tool_use" bs ≡ false → tool_calls_of print bs ≡ nil
  unfolding any_of_type tool_calls_of
  silent-no_calls nil h = refl
  silent-no_calls (cons b bs) h = ground (arith, silent-no_calls bs)

  SaysTurn-same :
      (v : Value) (t u : String) (cs ds : Items)
      → t ≡ u
      → cs ≡ ds
      → SaysTurn v t cs
      → SaysTurn v u ds
  SaysTurn-same v t u cs ds e f h = subst (λ x. SaysTurn v x ds) e (subst (λ x. SaysTurn v t x) f h)

  -- A response of the backend, sent back as the content of a message of the assistant, becomes one
  -- message to the backend that says what the response said: its text is the text of the response, and
  -- its tool calls are those of the response in their order with their names, their arguments parsed
  -- and printed, and their ids, or drawn ones where they had none.
  pub content_blocks-return :
      (m : OpenaiMessage)
      → (v : Value) × (translate_message print (record {
        role = "assistant";
        content =
            array
              (items (or_empty_block (content_blocks parse_value generate_tool_use_id (some m))));
      })
          ≡ cons v nil)
        × SaysTurn v (unwrap_or m.content "") (returned_calls 0 (unwrap_or m.tool_calls []))
  unfolding translate_message translate_assistant_tool_use content_to_string get get_field
  content_blocks-return m = elim (Bool-cases (any_of_type "tool_use" bs)) [
    | inl e ↦ (
      assistant_blocks print bs,
      rw e refl,
      said_back (assistant_blocks print bs) (blocks-SaysTurn bs),
    )
    | inr e ↦ (
      text_message "assistant" (join_texts bs),
      rw e refl,
      said_back (text_message "assistant" (join_texts bs))
          (refl, inl refl, ap calls_field (sym (silent-no_calls bs e))),
    )
  ]
    where
      bs : Items
      bs = items (or_empty_block (content_blocks parse_value generate_tool_use_id (some m)))

      said_back :
          (v : Value)
          → SaysTurn v (join_texts bs) (tool_calls_of print bs)
          → SaysTurn v (unwrap_or m.content "") (returned_calls 0 (unwrap_or m.tool_calls []))
      said_back v h =
          SaysTurn-same v (join_texts bs) (unwrap_or m.content "") (tool_calls_of print bs)
            (returned_calls 0 (unwrap_or m.tool_calls [])) (blocks_return m).0 (blocks_return m).1 h
