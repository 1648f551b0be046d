-- ===== src/Gguf/Arrays.antt =====
-- The reader of proxy/src/api/hf.rs on integers, and on arrays of integers and of Booleans.
use sovereign_engine.Prelude.{
  ℕ, ◌%◌, ◌^◌, Bool, true, ◌||◌, none, some, List, [], ◌∷◌, ◌++◌, eqb, length, Result, ok, ◌≡◌,
  refl, subst, arith, Bool-cases, Option-cases, inl, inr, ◌∙◌,
}
use mathlib.Core.List.{append_assoc, append-nil}
use sovereign_engine.Gguf.{
  Bytes, read_exact, from_le_bytes, read_uint, read_int_value, int_in, Ints, push, read_ints,
  read_int_array, read_bools,
}
use sovereign_engine.Gguf.Format.{
  size_of, Fits, Value, number, characters, array, Values, no_more, more, count, put_le, put_value,
  put_values, IsValue, AreValues, int_of, ints_of, bools_of, AreInts, max_from,
}
use sovereign_engine.Gguf.Values.{read_exact-append, read_header-put}

int_in-append :
    (bs rest : Bytes)
    → int_in (length bs) (bs ++ rest) ≡ ok (some (from_le_bytes bs % 2 ^ 32), rest)
unfolding int_in read_uint
int_in-append bs rest = rw (read_exact-append bs rest) refl

int_size :
    (t w : ℕ)
    → size_of t ≡ some w
    → ((eqb t 4 || eqb t 5) ≡ true → w ≡ 4) × ((eqb t 10 || eqb t 11) ≡ true → w ≡ 8)
unfolding size_of
int_size t w h = (λ e. ground arith, λ e. ground arith)

-- An integer is read, and any other value is left alone.
pub read_int_value-number :
    (u : Bytes → Bool) (t n : ℕ) (v : Value) (rest : Bytes)
    → IsValue u t v
    → int_of t v ≡ some n
    → read_int_value t (put_value v rest) ≡ ok (some n, rest)
unfolding read_int_value IsValue put_value
read_int_value-number u t n (number bs) rest h e =
    let w = int_size t (length bs) h in
    let a = int_in-append bs rest in
    elim (Bool-cases (eqb t 4 || eqb t 5)) [
      | inl f ↦
          let l : length bs ≡ 4 = w.0 f in
          ground (
            arith,
            subst (λ k. int_in k (bs ++ rest) ≡ ok (some (from_le_bytes bs % 2 ^ 32), rest)) l a,
          )
      | inr f ↦ elim (Bool-cases (eqb t 10 || eqb t 11)) [
        | inl g ↦
            let l : length bs ≡ 8 = w.1 g in
            ground (
              arith,
              subst (λ k. int_in k (bs ++ rest) ≡ ok (some (from_le_bytes bs % 2 ^ 32), rest)) l a,
            )
        | inr g ↦ absurd (ground arith)
      ]
    ]
read_int_value-number u t n (characters bs) rest h e = absurd (ground arith)
read_int_value-number u t n (array k vs) rest h e = absurd (ground arith)

pub read_int_value-other :
    (u : Bytes → Bool) (t : ℕ) (v : Value) (bs : Bytes)
    → IsValue u t v
    → int_of t v ≡ none
    → read_int_value t bs ≡ ok (none, bs)
unfolding read_int_value IsValue
read_int_value-other u t (number xs) bs h e = ground arith
read_int_value-other u t (characters xs) bs h e = ground (arith, h.0)
read_int_value-other u t (array k vs) bs h e = ground (arith, h.0)

abbrev push_all : List ℕ → Ints → Ints
push_all [] a = a
push_all (n ∷ ns) a = push_all ns (push n a)

read_ints-put :
    (u : Bytes → Bool) (skip : ℕ → Bytes → Result Bytes) (t : ℕ) (vs : Values) (a : Ints)
    (rest : Bytes)
    → AreValues u t vs
    → AreInts t vs
    → read_ints skip (count vs) t a (put_values vs rest) ≡ ok (push_all (ints_of t vs) a, rest)
unfolding read_ints AreValues put_values
read_ints-put u skip t no_more a rest h k = refl
read_ints-put u skip t (more v vs) a rest h k = elim (Option-cases (int_of t v)) [
  | inl e ↦ absurd (ground arith)
  | inr (n, e) ↦
      let i = read_int_value-number u t n v (put_values vs rest) h.0 e in
      ground (arith, i, read_ints-put u skip t vs (push n a) rest h.1 k.1)
]

push_all-fields :
    (ns : List ℕ) (a : Ints)
    → push_all ns a ≡ record {
      max_val = max_from a.max_val ns;
      values = a.values ++ ns;
      all_integer = a.all_integer;
    }
push_all-fields [] a = rw (append-nil a.values) refl
push_all-fields (n ∷ ns) a =
    push_all-fields ns (push n a) ∙ (rw (append_assoc a.values (n ∷ []) ns) refl)

pub read_int_array-put :
    (u : Bytes → Bool) (skip : ℕ → Bytes → Result Bytes) (t : ℕ) (vs : Values) (rest : Bytes)
    → Fits 4 t
    → Fits 8 (count vs)
    → AreValues u t vs
    → AreInts t vs
    → read_int_array skip (put_le 4 t (put_le 8 (count vs) (put_values vs rest)))
      ≡ ok ((max_from none (ints_of t vs), some (ints_of t vs)), rest)
unfolding read_int_array
read_int_array-put u skip t vs rest f g h k =
    let start : Ints = record { max_val = none; values = []; all_integer = true } in
    rw
      (
        read_header-put t (count vs) (put_values vs rest) f g,
        read_ints-put u skip t vs start rest h k,
        push_all-fields (ints_of t vs) start,
      )
      refl

pub read_bools-put :
    (u : Bytes → Bool) (vs : Values) (rest : Bytes)
    → AreValues u 7 vs
    → read_bools (count vs) (put_values vs rest) ≡ ok (bools_of vs, rest)
unfolding read_bools AreValues IsValue put_values put_value size_of
read_bools-put u no_more rest h = refl
read_bools-put u (more (number bs) vs) rest h =
    let l : length bs ≡ 1 = ground arith in
    let e : read_exact 1 (bs ++ put_values vs rest) ≡ ok (bs, put_values vs rest) =
      subst (λ k. read_exact k (bs ++ put_values vs rest) ≡ ok (bs, put_values vs rest)) l
        (read_exact-append bs (put_values vs rest)) in
    rw (e, read_bools-put u vs rest h.1) refl
read_bools-put u (more (characters bs) vs) rest h = absurd (omega (arith, h.0.0))
read_bools-put u (more (array e ws) vs) rest h = absurd (omega (arith, h.0.0))
