-- ===== src/Gguf/Metadata.antt =====
-- The entries of a model file's header, and what is kept of them: read_gguf_metadata of
-- proxy/src/api/hf.rs.
use Prim.Native.Char.{code}
use sovereign_engine.Prelude.{
  ℕ, zero, suc, String, Bool, true, false, not, ◌&&◌, Option, none, some, List, [], ◌∷◌, ltb, eqb,
  if◌then◌else◌, Result, ok, err, ◌>>=◌, length,
}
use sovereign_engine.Gguf.{
  Bytes, read_exact, read_uint, read_string, read_int_value, skip_value, read_int_scalar_or_array,
  read_bool_array,
}

pub record GgufMetadata : Type 0 where
  pub context_length : Option ℕ
  pub block_count : Option ℕ
  pub embedding_length : Option ℕ
  pub head_count : Option ℕ
  pub head_count_kv : Option ℕ
  pub key_length : Option ℕ
  pub value_length : Option ℕ
  pub key_length_swa : Option ℕ
  pub value_length_swa : Option ℕ
  pub sliding_window : Option ℕ
  pub expert_count : Option ℕ
  pub head_count_kv_per_layer : Option (List ℕ)
  pub sliding_window_pattern : Option (List Bool)

abbrev pub no_metadata : GgufMetadata
no_metadata = record {
  context_length = none;
  block_count = none;
  embedding_length = none;
  head_count = none;
  head_count_kv = none;
  key_length = none;
  value_length = none;
  key_length_swa = none;
  value_length_swa = none;
  sliding_window = none;
  expert_count = none;
  head_count_kv_per_layer = none;
  sliding_window_pattern = none;
}

-- What a key asks for: one of the numbers, the heads per layer, or the pattern.
pub data Target : Type 0 where
  context_length block_count embedding_length head_count key_length value_length key_length_swa :
      Target
  value_length_swa sliding_window expert_count head_count_kv sliding_window_pattern : Target

-- The bytes of a text of ASCII.
unfoldable pub codes : String → Bytes
codes String.[] = []
codes (String.◌∷◌ c s) = code c ∷ codes s

unfoldable pub append_reversed : Bytes → Bytes → Bytes
append_reversed [] ys = ys
append_reversed (x ∷ xs) ys = append_reversed xs (x ∷ ys)

unfoldable pub starts_with : Bytes → Bytes → Bool
starts_with [] bs = true
starts_with (p ∷ ps) [] = false
starts_with (p ∷ ps) (b ∷ bs) = eqb p b && starts_with ps bs

-- The suffix stands second.
unfoldable pub ends_with : Bytes → String → Bool
unfolding codes append_reversed starts_with
ends_with key s = starts_with (append_reversed (codes s) []) (append_reversed key [])

unfoldable pub target_of : Bytes → Option Target
unfolding ends_with
target_of key =
    if ends_with key ".attention.head_count_kv"
    then some head_count_kv
    else if ends_with key ".attention.sliding_window_pattern"
    then some sliding_window_pattern
    else if ends_with key ".context_length"
    then some context_length
    else if ends_with key ".block_count"
    then some block_count
    else if ends_with key ".embedding_length"
    then some embedding_length
    else if ends_with key ".attention.head_count"
    then some head_count
    else if ends_with key ".attention.key_length_swa"
    then some key_length_swa
    else if ends_with key ".attention.value_length_swa"
    then some value_length_swa
    else if ends_with key ".attention.key_length"
    then some key_length
    else if ends_with key ".attention.value_length"
    then some value_length
    else if ends_with key ".attention.sliding_window"
    then some sliding_window
    else if ends_with key ".expert_count"
    then some expert_count
    else none

-- The two last targets have no field of one number.
abbrev pub set_field : Target → ℕ → GgufMetadata → GgufMetadata
set_field Target.context_length v m = record m { context_length = some v }
set_field Target.block_count v m = record m { block_count = some v }
set_field Target.embedding_length v m = record m { embedding_length = some v }
set_field Target.head_count v m = record m { head_count = some v }
set_field Target.key_length v m = record m { key_length = some v }
set_field Target.value_length v m = record m { value_length = some v }
set_field Target.key_length_swa v m = record m { key_length_swa = some v }
set_field Target.value_length_swa v m = record m { value_length_swa = some v }
set_field Target.sliding_window v m = record m { sliding_window = some v }
set_field Target.expert_count v m = record m { expert_count = some v }
set_field Target.head_count_kv v m = record m { head_count_kv = some v }
set_field Target.sliding_window_pattern v m = m

abbrev pub with_layers : Option (List ℕ) → GgufMetadata → GgufMetadata
with_layers none m = m
with_layers (some a) m = record m { head_count_kv_per_layer = some a }

abbrev pub with_heads :
    (ℕ → Bytes → Result Bytes)
    → ℕ
    → GgufMetadata
    → Option ℕ × Option (List ℕ)
    → Bytes
    → Result (GgufMetadata × Bytes)
with_heads skip vtype m (some v, arr) bs =
    ok (with_layers arr (record m { head_count_kv = some v }), bs)
with_heads skip vtype m (none, some a) bs = ok (with_layers (some a) m, bs)
with_heads skip vtype m (none, none) bs = skip vtype bs >>= λ (r : Bytes). ok (m, r)

abbrev pub with_pattern :
    (ℕ → Bytes → Result Bytes)
    → ℕ
    → GgufMetadata
    → Option (List Bool)
    → Bytes
    → Result (GgufMetadata × Bytes)
with_pattern skip vtype m (some p) bs = ok (record m { sliding_window_pattern = some p }, bs)
with_pattern skip vtype m none bs =
    if not (eqb vtype 9) then (skip vtype bs >>= λ (r : Bytes). ok (m, r)) else ok (m, bs)

abbrev pub with_int :
    (ℕ → Bytes → Result Bytes)
    → ℕ
    → Target
    → GgufMetadata
    → Option ℕ
    → Bytes
    → Result (GgufMetadata × Bytes)
with_int skip vtype t m (some v) bs = ok (set_field t v m, bs)
with_int skip vtype t m none bs = skip vtype bs >>= λ (r : Bytes). ok (m, r)

-- The value of an entry whose key asks for this.
unfoldable pub read_target :
    (ℕ → Bytes → Result Bytes)
    → ℕ
    → Option Target
    → GgufMetadata
    → Bytes
    → Result (GgufMetadata × Bytes)
unfolding read_int_scalar_or_array read_bool_array read_int_value
read_target skip vtype (some Target.head_count_kv) m bs =
    read_int_scalar_or_array skip vtype bs >>= λ (r : (Option ℕ × Option (List ℕ)) × Bytes).
    with_heads skip vtype m r.0 r.1
read_target skip vtype (some Target.sliding_window_pattern) m bs =
    read_bool_array skip vtype bs >>= λ (r : Option (List Bool) × Bytes).
    with_pattern skip vtype m r.0 r.1
read_target skip vtype none m bs = skip vtype bs >>= λ (r : Bytes). ok (m, r)
read_target skip vtype (some t) m bs =
    read_int_value vtype bs >>= λ (r : Option ℕ × Bytes). with_int skip vtype t m r.0 r.1

unfoldable pub read_entry :
    (Bytes → Bool) → ℕ → GgufMetadata → Bytes → Result (GgufMetadata × Bytes)
unfolding read_string read_uint target_of read_target skip_value
read_entry is_utf8 fuel m bs = read_string is_utf8 bs >>= λ (k : Bytes × Bytes).
    read_uint 4 k.1 >>= λ (t : ℕ × Bytes).
    read_target (skip_value is_utf8 fuel) t.0 (target_of k.0) m t.1

unfoldable pub read_entries : (Bytes → Bool) → ℕ → ℕ → GgufMetadata → Bytes → Result GgufMetadata
unfolding read_entry
read_entries is_utf8 fuel zero m bs = ok m
read_entries is_utf8 fuel (suc n) m bs =
    read_entry is_utf8 fuel m bs >>= λ (r : GgufMetadata × Bytes).
    read_entries is_utf8 fuel n r.0 r.1

abbrev pub equal_bytes : Bytes → Bytes → Bool
equal_bytes [] [] = true
equal_bytes (a ∷ xs) (b ∷ ys) = eqb a b && equal_bytes xs ys
equal_bytes [] (b ∷ ys) = false
equal_bytes (a ∷ xs) [] = false

-- The content of the file; none is a file that cannot be opened.
unfoldable pub read_gguf_metadata : (Bytes → Bool) → Option Bytes → Result GgufMetadata
unfolding read_exact read_uint read_entries codes
read_gguf_metadata is_utf8 none = err "open"
read_gguf_metadata is_utf8 (some file) = read_exact 4 file >>= λ (magic : Bytes × Bytes).
    if not (equal_bytes magic.0 (codes "GGUF"))
    then err "not a GGUF file"
    else read_uint 4 magic.1 >>= λ (version : ℕ × Bytes).
        read_uint 8 version.1 >>= λ (tensors : ℕ × Bytes).
        read_uint 8 tensors.1 >>= λ (kv : ℕ × Bytes).
        if ltb 10000 kv.0
        then err "GGUF n_kv too large"
        else read_entries is_utf8 (length file) kv.0 no_metadata kv.1
