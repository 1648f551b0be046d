-- ===== src/Gguf/Values.antt =====
-- The reader of proxy/src/api/hf.rs on the bytes of a value.
use sovereign_engine.Prelude.{
  ℕ, zero, suc, ◌%◌, ◌/◌, ◌≤◌, Bool, true, false, some, [], ◌∷◌, ◌++◌, eqb, length, ok, ◌≡◌, refl,
  sym, arith,
}
use sovereign_engine.Gguf.{
  Bytes, read_exact, from_le_bytes, read_uint, read_string, width, skip_exact, repeat_skip,
  read_header, skip_array, skip_text, skip_flat, skip_value,
}
use sovereign_engine.Gguf.Format.{
  size_of, put_le, Fits, Value, number, characters, array, Values, no_more, more, count, put_value,
  put_values, depth, depths, IsValue, AreValues,
}

pub read_exact-append : (bs rest : Bytes) → read_exact (length bs) (bs ++ rest) ≡ ok (bs, rest)
unfolding read_exact
read_exact-append [] rest = refl
read_exact-append (b ∷ bs) rest = rw (read_exact-append bs rest) refl

bytes_of : ℕ → ℕ → Bytes
bytes_of zero n = []
bytes_of (suc w) n = n % 256 ∷ bytes_of w (n / 256)

read_exact-put_le :
    (w n : ℕ) (rest : Bytes) → read_exact w (put_le w n rest) ≡ ok (bytes_of w n, rest)
unfolding read_exact bytes_of put_le
read_exact-put_le zero n rest = refl
read_exact-put_le (suc w) n rest = rw (read_exact-put_le w (n / 256) rest) refl

from_le_bytes-bytes_of : (w n : ℕ) → Fits w n → from_le_bytes (bytes_of w n) ≡ n
unfolding from_le_bytes bytes_of
from_le_bytes-bytes_of zero n f = sym f
from_le_bytes-bytes_of (suc w) n f =
    let e = from_le_bytes-bytes_of w (n / 256) f in omega (arith, e)

pub read_uint-put_le :
    (w n : ℕ) (rest : Bytes) → Fits w n → read_uint w (put_le w n rest) ≡ ok (n, rest)
unfolding read_uint
read_uint-put_le w n rest f = rw (read_exact-put_le w n rest, from_le_bytes-bytes_of w n f) refl

pub short_Fits : (n : ℕ) → n ≤ 1000000 → Fits 8 n
short_Fits n h = omega arith

pub read_string-put :
    (u : Bytes → Bool) (bs rest : Bytes)
    → length bs ≤ 1000000
    → u bs ≡ true
    → read_string u (put_le 8 (length bs) (bs ++ rest)) ≡ ok (bs, rest)
unfolding read_string
read_string-put u bs rest s h =
    let e = read_uint-put_le 8 (length bs) (bs ++ rest) (short_Fits (length bs) s) in
    let r = read_exact-append bs rest in ground (arith, e, r, h)

pub read_header-put :
    (t n : ℕ) (rest : Bytes)
    → Fits 4 t
    → Fits 8 n
    → read_header (put_le 4 t (put_le 8 n rest)) ≡ ok ((t, n), rest)
unfolding read_header
read_header-put t n rest f g =
    rw (read_uint-put_le 4 t (put_le 8 n rest) f, read_uint-put_le 8 n rest g) refl

pub width-size_of : (t n : ℕ) → size_of t ≡ some n → width t ≡ some n
unfolding width size_of
width-size_of t n h = ground arith

pub size_not_array : (t n : ℕ) → size_of t ≡ some n → (eqb t 8 ≡ false) × (eqb t 9 ≡ false)
unfolding size_of
size_not_array t n h = (ground arith, ground arith)

skip_exact-append : (bs rest : Bytes) → skip_exact (length bs) (bs ++ rest) ≡ ok rest
unfolding skip_exact
skip_exact-append bs rest = rw (read_exact-append bs rest) refl

skip_text-put :
    (u : Bytes → Bool) (bs rest : Bytes)
    → length bs ≤ 1000000
    → u bs ≡ true
    → skip_text u (put_le 8 (length bs) (bs ++ rest)) ≡ ok rest
unfolding skip_text
skip_text-put u bs rest s h = rw (read_string-put u bs rest s h) refl

-- With no more fuel than the depth of a value.
mutual
  unfolding skip_value skip_flat IsValue AreValues put_value depth put_values depths repeat_skip
      skip_array

  pub skip_value-put :
      (u : Bytes → Bool) (fuel t : ℕ) (v : Value) (rest : Bytes)
      → IsValue u t v
      → depth v ≤ fuel
      → skip_value u fuel t (put_value v rest) ≡ ok rest
  skip_value-put u zero t (number bs) rest h d =
      let w = size_not_array t (length bs) h in
      ground (arith, w, width-size_of t (length bs) h, skip_exact-append bs rest)
  skip_value-put u (suc fuel) t (number bs) rest h d =
      let w = size_not_array t (length bs) h in
      ground (arith, w, width-size_of t (length bs) h, skip_exact-append bs rest)
  skip_value-put u zero t (characters bs) rest h d =
      ground (arith, h.0, skip_text-put u bs rest h.1 h.2)
  skip_value-put u (suc fuel) t (characters bs) rest h d =
      ground (arith, h.0, skip_text-put u bs rest h.1 h.2)
  skip_value-put u zero t (array e vs) rest h d = absurd (omega (arith, d))
  skip_value-put u (suc fuel) t (array e vs) rest h d =
      let r = read_header-put e (count vs) (put_values vs rest) h.1 h.2 in
      ground (arith, r, repeat_skip-put u fuel e vs rest h.3 (omega (arith, d)))

  pub repeat_skip-put :
      (u : Bytes → Bool) (fuel t : ℕ) (vs : Values) (rest : Bytes)
      → AreValues u t vs
      → depths vs ≤ fuel
      → repeat_skip (count vs) (skip_value u fuel t) (put_values vs rest) ≡ ok rest
  repeat_skip-put u fuel t no_more rest h d = refl
  repeat_skip-put u fuel t (more v vs) rest h d =
      rw (skip_value-put u fuel t v (put_values vs rest) h.0 (omega (arith, d)))
        (repeat_skip-put u fuel t vs rest h.1 (omega (arith, d)))
