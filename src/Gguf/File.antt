-- ===== src/Gguf/File.antt =====
-- The whole header: read_gguf_metadata of proxy/src/api/hf.rs.
use sovereign_engine.Prelude.{
  ℕ, zero, suc, ◌+◌, ◌≤◌, ◌/◌, Bool, false, some, List, [], ◌∷◌, ◌++◌, ltb, length, ok, ◌≡◌, arith,
  All,
}
use sovereign_engine.Gguf.{Bytes, read_exact}
use sovereign_engine.Gguf.Metadata.{no_metadata, codes, read_gguf_metadata}
use sovereign_engine.Gguf.Format.{
  put_le, Fits, Value, number, characters, array, Values, no_more, more, count, put_value,
  put_values, depth, depths, Entry, IsEntry, put_entry, put_entries, kept_of, put_file,
}
use sovereign_engine.Gguf.Values.{read_uint-put_le, short_Fits}
use sovereign_engine.Gguf.Reads.{read_entries-put}

length-put_le : (w n : ℕ) (rest : Bytes) → length (put_le w n rest) ≡ w + length rest
unfolding put_le
length-put_le zero n rest = omega arith
length-put_le (suc w) n rest = omega (arith, length-put_le w (n / 256) rest)

length-append_ge : (bs rest : Bytes) → length rest ≤ length (bs ++ rest)
length-append_ge [] rest = omega arith
length-append_ge (b ∷ bs) rest = omega (arith, length-append_ge bs rest)

-- The bytes of a value are at least as many as arrays stand in one another.
mutual
  unfolding put_value depth put_values depths

  depth-length : (v : Value) (rest : Bytes) → depth v + length rest ≤ length (put_value v rest)
  depth-length (number bs) rest = omega (arith, length-append_ge bs rest)
  depth-length (characters bs) rest =
      omega (arith, length-put_le 8 (length bs) (bs ++ rest), length-append_ge bs rest)
  depth-length (array t vs) rest = omega (
    arith,
    length-put_le 4 t (put_le 8 (count vs) (put_values vs rest)),
    length-put_le 8 (count vs) (put_values vs rest),
    depths-length vs rest,
  )

  depths-length :
      (vs : Values) (rest : Bytes) → depths vs + length rest ≤ length (put_values vs rest)
  depths-length no_more rest = omega arith
  depths-length (more v vs) rest =
      omega (arith, depth-length v (put_values vs rest), depths-length vs rest)

length-put_entry :
    (e : Entry) (rest : Bytes) → depth e.value + length rest ≤ length (put_entry e rest)
unfolding put_entry
length-put_entry e rest = omega (
  arith,
  length-put_le 8 (length e.key) (e.key ++ put_le 4 e.vtype (put_value e.value rest)),
  length-append_ge e.key (put_le 4 e.vtype (put_value e.value rest)),
  length-put_le 4 e.vtype (put_value e.value rest),
  depth-length e.value rest,
)

length-put_entries : (es : List Entry) (rest : Bytes) → length rest ≤ length (put_entries es rest)
unfolding put_entries
length-put_entries [] rest = omega arith
length-put_entries (e ∷ es) rest =
    omega (arith, length-put_entry e (put_entries es rest), length-put_entries es rest)

shallow :
    (es : List Entry) (rest : Bytes) (n : ℕ)
    → length (put_entries es rest) ≤ n
    → All (λ (e : Entry). depth e.value ≤ n) es
unfolding put_entries
shallow [] rest n h = tt
shallow (e ∷ es) rest n h =
    let a = length-put_entry e (put_entries es rest) in
    (omega (arith, a, h), shallow es rest n (omega (arith, a, h)))

-- Of a file whose header follows the format, with at most 10000 entries and, where the heads per
-- layer stand in an array, integers in it, what its entries tell is read, whatever follows the header:
-- for each key of an architecture the last number, modulo 2 ^ 32, the heads per layer, each modulo
-- 2 ^ 32, with the greatest of them, and the pattern; entries with other keys, and values of other
-- types, are passed over. The stack of the thread is not bounded here.
pub read_gguf_metadata-put_file :
    (u : Bytes → Bool) (version tensors : ℕ) (es : List Entry) (rest : Bytes)
    → Fits 4 version
    → Fits 8 tensors
    → length es ≤ 10000
    → All (IsEntry u) es
    → read_gguf_metadata u (some (put_file version tensors es rest)) ≡ ok (kept_of es no_metadata)
unfolding read_gguf_metadata put_file read_exact codes
read_gguf_metadata-put_file u version tensors es rest f g n h =
    let tail = put_le 8 (length es) (put_entries es rest) in
    let size : length (put_entries es rest) ≤ length (put_file version tensors es rest) = omega (
      arith,
      length-put_le 4 version (put_le 8 tensors tail),
      length-put_le 8 tensors tail,
      length-put_le 8 (length es) (put_entries es rest),
    ) in
    let read =
      read_entries-put u (length (put_file version tensors es rest)) es no_metadata rest h
        (shallow es rest (length (put_file version tensors es rest)) size) in
    let a = read_uint-put_le 4 version (put_le 8 tensors tail) f in
    let b = read_uint-put_le 8 tensors tail g in
    let c =
      read_uint-put_le 8 (length es) (put_entries es rest)
        (short_Fits (length es) (omega (arith, n))) in
    let few : ltb 10000 (length es) ≡ false = ground (arith, n) in rw (a, b, c, few) read
