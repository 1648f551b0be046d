-- ===== src/Gguf/Others.antt =====
-- An array of texts or floats where read_gguf_metadata of proxy/src/api/hf.rs wants integers.
use sovereign_engine.Prelude.{
  ℕ, suc, ◌≤◌, Bool, true, false, none, some, [], ok, ◌>>=◌, ◌≡◌, refl, arith,
}
use sovereign_engine.Gguf.{
  Bytes, Ints, read_ints, read_int_array, read_int_scalar_or_array, skip_value,
}
use sovereign_engine.Gguf.Metadata
use sovereign_engine.Gguf.Metadata.{GgufMetadata, read_target}
use sovereign_engine.Gguf.Format.{
  Value, array, Values, no_more, more, count, put_value, put_values, depths, depth, IsValue,
  AreValues, int_of,
}
use sovereign_engine.Gguf.Values.{read_header-put, skip_value-put}
use sovereign_engine.Gguf.Arrays.{read_int_value-other}

abbrev pub AreOthers : ℕ → Values → Type 0
AreOthers t no_more = Unit
AreOthers t (more v vs) = (int_of t v ≡ none) × AreOthers t vs

read_ints-others :
    (u : Bytes → Bool) (fuel t : ℕ) (vs : Values) (a : Ints) (rest : Bytes)
    → AreValues u t vs
    → AreOthers t vs
    → depths vs ≤ fuel
    → read_ints
        (skip_value u fuel)
        (count vs)
        t
        (record a { all_integer = false })
        (put_values vs rest)
      ≡ ok (record a { all_integer = false }, rest)
unfolding read_ints AreValues put_values depths
read_ints-others u fuel t no_more a rest h k d = refl
read_ints-others u fuel t (more v vs) a rest h k d =
    let i = read_int_value-other u t v (put_value v (put_values vs rest)) h.0 k.0 in
    let s = skip_value-put u fuel t v (put_values vs rest) h.0 (omega (arith, d)) in
    ground (arith, i, s, read_ints-others u fuel t vs a rest h.1 k.1 (omega (arith, d)))

-- Where the heads per layer stand in an array with elements that are no integers, at least one: the
-- array is read to its end, and then what follows it is skipped as if it were an array too.
pub read_target-skips_twice :
    (u : Bytes → Bool) (fuel e : ℕ) (v : Value) (vs : Values) (m : GgufMetadata) (rest : Bytes)
    → IsValue u 9 (array e (more v vs))
    → AreOthers e (more v vs)
    → depth (array e (more v vs)) ≤ fuel
    → read_target
        (skip_value u fuel)
        9
        (some Metadata.head_count_kv)
        m
        (put_value (array e (more v vs)) rest)
      ≡ (skip_value u fuel 9 rest >>= λ (r : Bytes). ok (m, r))
unfolding read_target read_int_scalar_or_array read_int_array read_ints IsValue AreValues put_value
    put_values depth depths
read_target-skips_twice u fuel e v vs m rest h k d =
    let start : Ints = record { max_val = none; values = []; all_integer = true } in
    let a = read_header-put e (suc (count vs)) (put_value v (put_values vs rest)) h.1 h.2 in
    let i = read_int_value-other u e v (put_value v (put_values vs rest)) h.3.0 k.0 in
    let s = skip_value-put u fuel e v (put_values vs rest) h.3.0 (omega (arith, d)) in
    let l = read_ints-others u fuel e vs start rest h.3.1 k.1 (omega (arith, d)) in
    rw (a) (ground (arith, i, s, l))
