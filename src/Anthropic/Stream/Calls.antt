-- ===== src/Anthropic/Stream/Calls.antt =====
-- The list tool_calls of transform_stream in proxy/src/api/anthropic.rs: what a write and a push change.
use sovereign_engine.Prelude.{
  ℕ, ◌+◌, ◌≤◌, true, none, some, List, [], ◌∷◌, ◌++◌, eqb, if◌then◌else◌, ◌≡◌, refl, ap, inl, inr,
  arith, Bool-cases,
}
use sovereign_engine.Anthropic.Stream.{StreamingToolCall, find_call, put_call, new_call}
use sovereign_engine.Anthropic.Stream.Protocol.{open_one, waiting_one, open_calls, waiting_calls}

pub find_call-hit :
    (c old : StreamingToolCall) (i : ℕ) (cs : List StreamingToolCall)
    → eqb c.index i ≡ true
    → find_call i (c ∷ cs) ≡ some old
    → c ≡ old
unfolding find_call
find_call-hit c old i cs e h = ground arith

-- What a write of one call changes in the counts.
pub open_calls-put_call :
    (i : ℕ) (new old : StreamingToolCall) (cs : List StreamingToolCall)
    → find_call new.index cs ≡ some old
    → open_calls i (put_call new cs) + open_one i old ≡ open_calls i cs + open_one i new
unfolding open_calls put_call find_call
open_calls-put_call i new old [] h = ground arith
open_calls-put_call i new old (c ∷ cs) h = elim (Bool-cases (eqb c.index new.index)) [
  | inl e ↦ ground (arith, ap (open_one i) (find_call-hit c old new.index cs e h))
  | inr e ↦ ground (arith, open_calls-put_call i new old cs)
]

pub waiting_calls-put_call :
    (i : ℕ) (new old : StreamingToolCall) (cs : List StreamingToolCall)
    → find_call new.index cs ≡ some old
    → waiting_calls i (put_call new cs) + waiting_one i old ≡ waiting_calls i cs + waiting_one i new
unfolding waiting_calls put_call find_call
waiting_calls-put_call i new old [] h = ground arith
waiting_calls-put_call i new old (c ∷ cs) h = elim (Bool-cases (eqb c.index new.index)) [
  | inl e ↦ ground (arith, ap (waiting_one i) (find_call-hit c old new.index cs e h))
  | inr e ↦ ground (arith, waiting_calls-put_call i new old cs)
]

pub open_calls-found :
    (b i : ℕ) (old : StreamingToolCall) (cs : List StreamingToolCall)
    → find_call i cs ≡ some old
    → open_one b old ≤ open_calls b cs
unfolding open_calls find_call
open_calls-found b i old [] h = ground arith
open_calls-found b i old (c ∷ cs) h = elim (Bool-cases (eqb c.index i)) [
  | inl e ↦ ground (arith, ap (open_one b) (find_call-hit c old i cs e h))
  | inr e ↦ ground (arith, open_calls-found b i old cs)
]

pub waiting_calls-found :
    (b i : ℕ) (old : StreamingToolCall) (cs : List StreamingToolCall)
    → find_call i cs ≡ some old
    → waiting_one b old ≤ waiting_calls b cs
unfolding waiting_calls find_call
waiting_calls-found b i old [] h = ground arith
waiting_calls-found b i old (c ∷ cs) h = elim (Bool-cases (eqb c.index i)) [
  | inl e ↦ ground (arith, ap (waiting_one b) (find_call-hit c old i cs e h))
  | inr e ↦ ground (arith, waiting_calls-found b i old cs)
]

pub put_call-empty :
    (new : StreamingToolCall) (cs : List StreamingToolCall) → put_call new cs ≡ [] → cs ≡ []
unfolding put_call
put_call-empty new [] h = refl
put_call-empty new (c ∷ cs) h = ground arith

pub find_call-append :
    (i n : ℕ) (cs : List StreamingToolCall)
    → find_call i cs ≡ none
    → find_call i (cs ++ new_call i n ∷ []) ≡ some (new_call i n)
unfolding find_call
find_call-append i n [] h = ground arith
find_call-append i n (c ∷ cs) h = ground (arith, find_call-append i n cs)

pub find_call-index :
    (i : ℕ) (tc : StreamingToolCall) (cs : List StreamingToolCall)
    → find_call i cs ≡ some tc
    → tc.index ≡ i
unfolding find_call
find_call-index i tc [] h = ground arith
find_call-index i tc (c ∷ cs) h = elim (Bool-cases (eqb c.index i)) [
  | inl e ↦ ground (arith, ap (λ (x : StreamingToolCall). x.index) (find_call-hit c tc i cs e h))
  | inr e ↦ ground (arith, find_call-index i tc cs)
]

pub find_call_self :
    (i : ℕ) (tc : StreamingToolCall) (cs : List StreamingToolCall)
    → find_call i cs ≡ some tc
    → find_call tc.index cs ≡ some tc
unfolding find_call
find_call_self i tc [] h = ground arith
find_call_self i tc (c ∷ cs) h = elim (Bool-cases (eqb c.index i)) [
  | inl e ↦ ground (arith, ap (λ (x : StreamingToolCall). x.index) (find_call-hit c tc i cs e h))
  | inr e ↦ ground (arith, find_call_self i tc cs, find_call-index i tc cs)
]

pub open_calls-append :
    (i j n : ℕ) (cs : List StreamingToolCall)
    → open_calls i (cs ++ new_call j n ∷ []) ≡ open_calls i cs
unfolding open_calls
open_calls-append i j n [] = refl
open_calls-append i j n (c ∷ cs) = ground (arith, open_calls-append i j n cs)

pub waiting_calls-append :
    (i j n : ℕ) (cs : List StreamingToolCall)
    → waiting_calls i (cs ++ new_call j n ∷ []) ≡ waiting_calls i cs + (if eqb n i then 1 else 0)
unfolding waiting_calls
waiting_calls-append i j n [] = ground arith
waiting_calls-append i j n (c ∷ cs) = ground (arith, waiting_calls-append i j n cs)

pub append_ne_empty : (x : StreamingToolCall) (cs : List StreamingToolCall) → cs ++ x ∷ [] ≡ [] → ⊥
append_ne_empty x [] h = ground arith
append_ne_empty x (c ∷ cs) h = ground arith
