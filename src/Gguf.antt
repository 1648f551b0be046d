-- ===== src/Gguf.antt =====
-- The reader of a model file's header: read_gguf_metadata of proxy/src/api/hf.rs. A byte is a number
-- below 256. The test of a text's bytes for UTF-8 is a parameter.
pub mod Metadata
pub mod Format
pub mod Values
pub mod Arrays
pub mod Names
pub mod Reads
pub mod File
pub mod Others
pub mod Estimate
pub mod Legacy
pub mod Tests
use Prim.Native.Char.{Char, code}
use sovereign_engine.Prelude.{
  ℕ, zero, suc, ◌+◌, ◌*◌, ◌%◌, ◌^◌, String, Bool, true, false, not, ◌&&◌, ◌||◌, Option, none, some,
  List, [], ◌∷◌, ◌++◌, ltb, eqb, leb, length, if◌then◌else◌, Result, ok, err, ◌>>=◌, is_some,
}

abbrev pub Bytes : Type 0
Bytes = List ℕ

-- The bytes that are read, and those that are left.
unfoldable pub read_exact : ℕ → Bytes → Result (Bytes × Bytes)
read_exact zero bs = ok ([], bs)
read_exact (suc n) [] = err "failed to fill whole buffer"
read_exact (suc n) (b ∷ bs) = read_exact n bs >>= λ (r : Bytes × Bytes). ok (b ∷ r.0, r.1)

unfoldable pub from_le_bytes : Bytes → ℕ
from_le_bytes [] = 0
from_le_bytes (b ∷ bs) = b + 256 * from_le_bytes bs

unfoldable pub read_uint : ℕ → Bytes → Result (ℕ × Bytes)
unfolding read_exact from_le_bytes
read_uint n bs = read_exact n bs >>= λ (r : Bytes × Bytes). ok (from_le_bytes r.0, r.1)

unfoldable pub read_string : (Bytes → Bool) → Bytes → Result (Bytes × Bytes)
unfolding read_uint read_exact
read_string is_utf8 bs = read_uint 8 bs >>= λ (l : ℕ × Bytes).
    if ltb 1000000 l.0
    then err "string too long"
    else read_exact l.0 l.1 >>= λ (r : Bytes × Bytes).
        if is_utf8 r.0 then ok r else err "invalid utf8"

-- The u32 in a number of a width.
abbrev pub int_in : ℕ → Bytes → Result (Option ℕ × Bytes)
unfolding read_uint
int_in w bs = read_uint w bs >>= λ (r : ℕ × Bytes). ok (some (r.0 % 2 ^ 32), r.1)

-- A number below 2 ^ 32 and the bits of an i32 are as they are.
unfoldable pub read_int_value : ℕ → Bytes → Result (Option ℕ × Bytes)
read_int_value vtype bs =
    if eqb vtype 4 || eqb vtype 5
    then int_in 4 bs
    else if eqb vtype 10 || eqb vtype 11
    then int_in 8 bs
    else ok (none, bs)

-- The number of bytes of a value that is neither a text nor an array.
unfoldable pub width : ℕ → Option ℕ
width vtype =
    if eqb vtype 0 || eqb vtype 1 || eqb vtype 7
    then some 1
    else if eqb vtype 2 || eqb vtype 3
    then some 2
    else if leb 4 vtype && leb vtype 6
    then some 4
    else if leb 10 vtype && leb vtype 12
    then some 8
    else none

abbrev pub skip_exact : ℕ → Bytes → Result Bytes
unfolding read_exact
skip_exact n bs = read_exact n bs >>= λ (r : Bytes × Bytes). ok r.1

unfoldable pub repeat_skip : ℕ → (Bytes → Result Bytes) → Bytes → Result Bytes
repeat_skip zero skip bs = ok bs
repeat_skip (suc n) skip bs = skip bs >>= λ (r : Bytes). repeat_skip n skip r

-- The type and the number of an array's elements.
unfoldable pub read_header : Bytes → Result ((ℕ × ℕ) × Bytes)
unfolding read_uint
read_header bs = read_uint 4 bs >>= λ (t : ℕ × Bytes).
    read_uint 8 t.1 >>= λ (n : ℕ × Bytes). ok ((t.0, n.0), n.1)

abbrev pub skip_array : (ℕ → Bytes → Result Bytes) → Bytes → Result Bytes
unfolding read_header repeat_skip
skip_array skip bs = read_header bs >>= λ (h : (ℕ × ℕ) × Bytes). repeat_skip h.0.1 (skip h.0.0) h.1

abbrev pub skip_text : (Bytes → Bool) → Bytes → Result Bytes
unfolding read_string
skip_text is_utf8 bs = read_string is_utf8 bs >>= λ (r : Bytes × Bytes). ok r.1

unfoldable pub skip_flat : (Bytes → Bool) → ℕ → Bytes → Result Bytes
unfolding width
skip_flat is_utf8 vtype bs =
    if eqb vtype 8
    then skip_text is_utf8 bs
    else elim (width vtype) [ some n ↦ skip_exact n bs | none ↦ err "unknown GGUF type" ]

-- The fuel bounds how deep arrays stand in arrays.
unfoldable pub skip_value : (Bytes → Bool) → ℕ → ℕ → Bytes → Result Bytes
unfolding skip_flat
skip_value is_utf8 zero vtype bs =
    if eqb vtype 9 then err "out of fuel" else skip_flat is_utf8 vtype bs
skip_value is_utf8 (suc fuel) vtype bs =
    let inner = skip_array (skip_value is_utf8 fuel) bs in
    if eqb vtype 9 then inner else skip_flat is_utf8 vtype bs

pub record Ints : Type 0 where
  pub max_val : Option ℕ
  pub values : List ℕ
  pub all_integer : Bool

abbrev pub max_of : Option ℕ → ℕ → ℕ
max_of none v = v
max_of (some c) v = if ltb c v then v else c

abbrev pub push : ℕ → Ints → Ints
push v a = record a { max_val = some (max_of a.max_val v); values = a.values ++ v ∷ [] }

unfoldable pub read_ints : (ℕ → Bytes → Result Bytes) → ℕ → ℕ → Ints → Bytes → Result (Ints × Bytes)
unfolding read_int_value
read_ints skip zero atype a bs = ok (a, bs)
read_ints skip (suc n) atype a bs = elim (read_int_value atype bs) [
  | err e ↦ err e
  | ok (some v, r) ↦ read_ints skip n atype (push v a) r
  | ok (none, r) ↦
      skip atype r >>= λ (s : Bytes). read_ints skip n atype (record a { all_integer = false }) s
]

abbrev pub ints_found : Ints → Option ℕ × Option (List ℕ)
ints_found a = (a.max_val, if a.all_integer then some a.values else none)

unfoldable pub read_int_array :
    (ℕ → Bytes → Result Bytes) → Bytes → Result ((Option ℕ × Option (List ℕ)) × Bytes)
unfolding read_header read_ints
read_int_array skip bs = read_header bs >>= λ (h : (ℕ × ℕ) × Bytes).
    read_ints skip h.0.1 h.0.0 (record { max_val = none; values = []; all_integer = true }) h.1
    >>= λ (a : Ints × Bytes). ok (ints_found a.0, a.1)

abbrev pub without_array : Option ℕ × Bytes → (Option ℕ × Option (List ℕ)) × Bytes
without_array (v, bs) = ((v, none), bs)

unfoldable pub read_int_scalar_or_array :
    (ℕ → Bytes → Result Bytes) → ℕ → Bytes → Result ((Option ℕ × Option (List ℕ)) × Bytes)
unfolding read_int_array read_int_value
read_int_scalar_or_array skip vtype bs =
    if eqb vtype 9
    then read_int_array skip bs
    else read_int_value vtype bs >>= λ (r : Option ℕ × Bytes). ok (without_array r)

unfoldable pub read_bools : ℕ → Bytes → Result (List Bool × Bytes)
unfolding read_exact from_le_bytes
read_bools zero bs = ok ([], bs)
read_bools (suc n) bs = read_exact 1 bs >>= λ (b : Bytes × Bytes).
    read_bools n b.1 >>= λ (r : List Bool × Bytes). ok (not (eqb (from_le_bytes b.0) 0) ∷ r.0, r.1)

abbrev pub read_elements :
    (ℕ → Bytes → Result Bytes) → ℕ → ℕ → Bytes → Result (Option (List Bool) × Bytes)
unfolding repeat_skip read_bools
read_elements skip atype n bs =
    if eqb atype 7
    then (read_bools n bs >>= λ (r : List Bool × Bytes). ok (some r.0, r.1))
    else repeat_skip n (skip atype) bs >>= λ (r : Bytes). ok (none, r)

unfoldable pub read_bool_array :
    (ℕ → Bytes → Result Bytes) → ℕ → Bytes → Result (Option (List Bool) × Bytes)
unfolding read_header
read_bool_array skip vtype bs =
    if not (eqb vtype 9)
    then ok (none, bs)
    else read_header bs >>= λ (h : (ℕ × ℕ) × Bytes). read_elements skip h.0.0 h.0.1 h.1
