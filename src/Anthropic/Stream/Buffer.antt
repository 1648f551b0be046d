-- ===== src/Anthropic/Stream/Buffer.antt =====
-- The buffer of transform_stream in proxy/src/api/anthropic.rs against the lines of all that was read.
use Prim.Native.Char.{Char}
use text.Mathlib.TextLemmas.{cons-append}
use sovereign_engine.Prelude.{
  suc, ◌≤◌, String, Bool, true, false, Option, none, some, List, [], ◌∷◌, ◌++◌, if◌then◌else◌, ◌≡◌,
  refl, ap, sym, subst, ◌∙◌, arith, count_chars, split_line, is_newline, behind, line_behind,
  unwrap_or, cat,
}

-- The complete lines of a text, and what stands behind the last newline.
abbrev push : Char → List String × String → List String × String
push c ([], r) = ([], behind c r)
push c (l ∷ ls, r) = (behind c l ∷ ls, r)

abbrev end_line : List String × String → List String × String
end_line (ls, r) = ("" ∷ ls, r)

unfoldable pub lines : String → List String × String
lines String.[] = ([], "")
lines (String.◌∷◌ c s) = let rest = lines s in if is_newline c then end_line rest else push c rest

-- What a character before a text does to its lines; the flag says that it is a newline.
abbrev extend : Bool → Char → List String × String → List String × String
extend b c p = if b then end_line p else push c p

abbrev next_line : Bool → Char → String → Option (String × String) → Option (String × String)
next_line b c s o = if b then some ("", s) else line_behind c o

abbrev pub before : String × String → List String × String
before (l, r) = (l ∷ (lines r).0, (lines r).1)

lines-none_step :
    (b : Bool) (c : Char) (s : String) (o : Option (String × String)) (p : List String × String)
    → (o ≡ none → p ≡ ([], s))
    → next_line b c s o ≡ none
    → extend b c p ≡ ([], behind c s)
lines-none_step true c s o p f h = ground arith
lines-none_step false c s none p f h = ap (push c) (f refl)
lines-none_step false c s (some (l, r)) p f h = ground arith

pub lines-none : (s : String) → split_line s ≡ none → lines s ≡ ([], s)
unfolding lines split_line
lines-none String.[] h = refl
lines-none (String.◌∷◌ c s) h =
    lines-none_step (is_newline c) c s (split_line s) (lines s) (lines-none s) h

some-inj : (p q : String × String) → Path (Option (String × String)) (some p) (some q) → p ≡ q
some-inj p q h = ap (λ (o : Option (String × String)). unwrap_or o p) h

lines-some_step :
    (b : Bool) (c : Char) (s : String) (o : Option (String × String)) (p : String × String)
    → ((q : String × String) → o ≡ some q → lines s ≡ before q)
    → next_line b c s o ≡ some p
    → extend b c (lines s) ≡ before p
lines-some_step true c s o p f h =
    subst (λ (q : String × String). end_line (lines s) ≡ before q) (some-inj ("", s) p h) refl
lines-some_step false c s none p f h = ground arith
lines-some_step false c s (some (l, r)) p f h =
    subst (λ (q : String × String). push c (lines s) ≡ before q) (some-inj (behind c l, r) p h)
      (ap (push c) (f (l, r) refl))

pub lines-some : (s : String) (p : String × String) → split_line s ≡ some p → lines s ≡ before p
unfolding lines split_line
lines-some String.[] p h = ground arith
lines-some (String.◌∷◌ c s) p h =
    lines-some_step (is_newline c) c s (split_line s) p (lines-some s) h

shorter_step :
    (b : Bool) (c : Char) (s : String) (o : Option (String × String)) (p : String × String)
    → ((q : String × String) → o ≡ some q → suc (count_chars q.1) ≤ count_chars s)
    → next_line b c s o ≡ some p
    → count_chars p.1 ≤ count_chars s
shorter_step true c s o p f h =
    subst (λ (q : String × String). count_chars q.1 ≤ count_chars s) (some-inj ("", s) p h)
      (omega arith)
shorter_step false c s none p f h = ground arith
shorter_step false c s (some (l, r)) p f h =
    subst (λ (q : String × String). count_chars q.1 ≤ count_chars s) (some-inj (behind c l, r) p h)
      (omega (arith, f (l, r) refl))

pub shorter :
    (s : String) (p : String × String)
    → split_line s ≡ some p
    → suc (count_chars p.1) ≤ count_chars s
unfolding count_chars split_line
shorter String.[] p h = ground arith
shorter (String.◌∷◌ c s) p h =
    omega (arith, shorter_step (is_newline c) c s (split_line s) p (shorter s) h)

abbrev pub join : List String → List String × String → List String × String
join ls (ms, r) = (ls ++ ms, r)

lines-cons :
    (b : Bool) (c : Char) (s : String)
    → is_newline c ≡ b
    → lines (behind c s) ≡ extend b c (lines s)
unfolding lines
lines-cons b c s e = rw e refl

lines-append_step :
    (b : Bool) (c : Char) (t : String) (p q : List String × String)
    → is_newline c ≡ b
    → q ≡ join p.0 (lines (cat p.1 t))
    → extend b c q ≡ join (extend b c p).0 (lines (cat (extend b c p).1 t))
lines-append_step true c t p q e h = ap end_line h
lines-append_step false c t ([], r) q e h =
    rw (cons-append c r t) (ap (push c) h ∙ sym (lines-cons false c (cat r t) e))
lines-append_step false c t (l ∷ ls, r) q e h = ap (push c) h

pub lines-append : (a b : String) → lines (cat a b) ≡ join (lines a).0 (lines (cat (lines a).1 b))
unfolding lines
lines-append String.[] b = refl
lines-append (String.◌∷◌ c a) b =
    rw (cons-append c a b)
      (lines-append_step (is_newline c) c b (lines a) (lines (cat a b)) refl (lines-append a b))

lines-rest_step :
    (b : Bool) (c : Char) (p : List String × String)
    → is_newline c ≡ b
    → lines p.1 ≡ ([], p.1)
    → lines (extend b c p).1 ≡ ([], (extend b c p).1)
lines-rest_step true c p e h = h
lines-rest_step false c ([], r) e h = lines-cons false c r e ∙ ap (push c) h
lines-rest_step false c (l ∷ ls, r) e h = h

pub lines-rest : (s : String) → lines (lines s).1 ≡ ([], (lines s).1)
unfolding lines
lines-rest String.[] = refl
lines-rest (String.◌∷◌ c s) = lines-rest_step (is_newline c) c (lines s) refl (lines-rest s)
