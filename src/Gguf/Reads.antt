-- ===== src/Gguf/Reads.antt =====
-- What read_gguf_metadata of proxy/src/api/hf.rs reads from a file of the format.
use sovereign_engine.Prelude.{
  ℕ, ◌≤◌, Bool, true, false, Option, none, some, List, [], ◌∷◌, eqb, length, ok, ◌>>=◌, ◌≡◌, refl,
  subst, arith, Bool-cases, Option-cases, inl, inr, All,
}
use sovereign_engine.Gguf.{
  Bytes, read_int_value, skip_value, read_int_scalar_or_array, read_elements, read_bool_array,
}
use sovereign_engine.Gguf.Metadata
use sovereign_engine.Gguf.Metadata.{
  GgufMetadata, no_metadata, Target, codes, equal_bytes, target_of, read_target, read_entry,
  read_entries, read_gguf_metadata,
}
use sovereign_engine.Gguf.Format.{
  put_le, Value, number, characters, array, count, put_value, put_values, depth, IsValue, AreValues,
  int_of, ints_of, IsRegular, max_from, Entry, IsEntry, put_entry, put_entries, kept_int, kept,
  kept_of,
}
use sovereign_engine.Gguf.Values.{
  read_uint-put_le, read_string-put, read_header-put, skip_value-put, size_not_array,
  repeat_skip-put,
}
use sovereign_engine.Gguf.Arrays.{
  read_int_value-number, read_int_value-other, read_int_array-put, read_bools-put,
}
use sovereign_engine.Gguf.Names.{target_of-IsNamed}

module _ (u : Bytes → Bool) (fuel : ℕ) where
  -- An entry whose key asks for a number.
  read_int-put :
      (f : Target) (t : ℕ) (v : Value) (m : GgufMetadata) (rest : Bytes)
      → IsValue u t v
      → depth v ≤ fuel
      → (read_int_value t (put_value v rest) >>= λ (r : Option ℕ × Bytes).
          Metadata.with_int (skip_value u fuel) t f m r.0 r.1)
        ≡ ok (kept_int f (int_of t v) m, rest)
  read_int-put f t v m rest h d = elim (Option-cases (int_of t v)) [
    | inl e ↦
        rw
          (read_int_value-other u t v (put_value v rest) h e, skip_value-put u fuel t v rest h d, e)
          refl
    | inr (n, e) ↦ rw (read_int_value-number u t n v rest h e, e) refl
  ]

  read_one_head-put :
      (t : ℕ) (v : Value) (m : GgufMetadata) (rest : Bytes)
      → IsValue u t v
      → eqb t 9 ≡ false
      → depth v ≤ fuel
      → read_target (skip_value u fuel) t (some Metadata.head_count_kv) m (put_value v rest)
        ≡ ok (kept_int Metadata.head_count_kv (int_of t v) m, rest)
  unfolding read_target read_int_scalar_or_array
  read_one_head-put t v m rest h n d = elim (Option-cases (int_of t v)) [
    | inl e ↦
        rw
          (
            n,
            read_int_value-other u t v (put_value v rest) h e,
            skip_value-put u fuel t v rest h d,
            e,
          )
          refl
    | inr (k, e) ↦ rw (n, read_int_value-number u t k v rest h e, e) refl
  ]

  read_heads-put :
      (t : ℕ) (v : Value) (m : GgufMetadata) (rest : Bytes)
      → IsValue u t v
      → IsRegular (some Metadata.head_count_kv) v
      → depth v ≤ fuel
      → read_target (skip_value u fuel) t (some Metadata.head_count_kv) m (put_value v rest)
        ≡ ok (kept (some Metadata.head_count_kv) t v m, rest)
  unfolding read_target read_int_scalar_or_array IsValue put_value
  read_heads-put t (number bs) m rest h r d =
      read_one_head-put t (number bs) m rest h (size_not_array t (length bs) h).1 d
  read_heads-put t (characters bs) m rest h r d =
      read_one_head-put t (characters bs) m rest h (ground (arith, h.0)) d
  read_heads-put t (array e vs) m rest h r d =
      let a = read_int_array-put u (skip_value u fuel) e vs rest h.1 h.2 h.3 r in
      let nine : eqb t 9 ≡ true = ground (arith, h.0) in
      elim (Option-cases (max_from none (ints_of e vs))) [
        | inl f ↦ rw (nine, a, f) refl
        | inr (k, f) ↦ rw (nine, a, f) refl
      ]

  read_no_pattern-put :
      (t : ℕ) (v : Value) (m : GgufMetadata) (rest : Bytes)
      → IsValue u t v
      → eqb t 9 ≡ false
      → depth v ≤ fuel
      → read_target
          (skip_value u fuel)
          t
          (some Metadata.sliding_window_pattern)
          m
          (put_value v rest)
        ≡ ok (m, rest)
  unfolding read_target read_bool_array
  read_no_pattern-put t v m rest h n d = rw (n, n, skip_value-put u fuel t v rest h d) refl

  read_pattern-put :
      (t : ℕ) (v : Value) (m : GgufMetadata) (rest : Bytes)
      → IsValue u t v
      → depth v ≤ fuel
      → read_target
          (skip_value u fuel)
          t
          (some Metadata.sliding_window_pattern)
          m
          (put_value v rest)
        ≡ ok (kept (some Metadata.sliding_window_pattern) t v m, rest)
  unfolding read_target read_bool_array read_elements IsValue put_value depth
  read_pattern-put t (number bs) m rest h d =
      read_no_pattern-put t (number bs) m rest h (size_not_array t (length bs) h).1 d
  read_pattern-put t (characters bs) m rest h d =
      read_no_pattern-put t (characters bs) m rest h (ground (arith, h.0)) d
  read_pattern-put t (array e vs) m rest h d =
      let a = read_header-put e (count vs) (put_values vs rest) h.1 h.2 in
      let nine : eqb t 9 ≡ true = ground (arith, h.0) in
      elim (Bool-cases (eqb e 7)) [
        | inl f ↦
            let seven : AreValues u 7 vs = subst (λ k. AreValues u k vs) (ground arith) h.3 in
            rw (nine, a, f, read_bools-put u vs rest seven) refl
        | inr f ↦
            rw (nine, a, f, repeat_skip-put u fuel e vs rest h.3 (omega (arith, d)), nine) refl
      ]

  read_target-put :
      (o : Option Target) (t : ℕ) (v : Value) (m : GgufMetadata) (rest : Bytes)
      → IsValue u t v
      → IsRegular o v
      → depth v ≤ fuel
      → read_target (skip_value u fuel) t o m (put_value v rest) ≡ ok (kept o t v m, rest)
  unfolding read_target
  read_target-put none t v m rest h r d = rw (skip_value-put u fuel t v rest h d) refl
  read_target-put (some Target.head_count_kv) t v m rest h r d = read_heads-put t v m rest h r d
  read_target-put (some Target.sliding_window_pattern) t v m rest h r d =
      read_pattern-put t v m rest h d
  read_target-put (some f) t v m rest h r d = read_int-put f t v m rest h d

  read_entry-put :
      (e : Entry) (m : GgufMetadata) (rest : Bytes)
      → IsEntry u e
      → depth e.value ≤ fuel
      → read_entry u fuel m (put_entry e rest) ≡ ok (kept e.target e.vtype e.value m, rest)
  unfolding read_entry put_entry
  read_entry-put e m rest h d =
      let k = read_string-put u e.key (put_le 4 e.vtype (put_value e.value rest)) h.short h.utf8 in
      rw
        (
          k,
          read_uint-put_le 4 e.vtype (put_value e.value rest) h.fits,
          target_of-IsNamed e.key e.target h.named,
        )
        (read_target-put e.target e.vtype e.value m rest h.valued h.regular d)

  pub read_entries-put :
      (es : List Entry) (m : GgufMetadata) (rest : Bytes)
      → All (IsEntry u) es
      → All (λ (e : Entry). depth e.value ≤ fuel) es
      → read_entries u fuel (length es) m (put_entries es rest) ≡ ok (kept_of es m)
  unfolding read_entries put_entries
  read_entries-put [] m rest h d = refl
  read_entries-put (e ∷ es) m rest h d =
      rw (read_entry-put e m (put_entries es rest) h.0 d.0)
        (read_entries-put es (kept e.target e.vtype e.value m) rest h.1 d.1)
