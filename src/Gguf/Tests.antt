-- ===== src/Gguf/Tests.antt =====
-- Runs of the reader of proxy/src/api/hf.rs and of the estimates at concrete files.
use sovereign_engine.Prelude.{
  ℕ, Bool, true, false, none, some, List, [], ◌∷◌, ◌++◌, ok, ◌>>=◌, ◌≡◌, refl, arith, All,
}
use sovereign_engine.Gguf.{Bytes, from_le_bytes, skip_value, read_elements}
use sovereign_engine.Gguf.Metadata
use sovereign_engine.Gguf.Metadata.{
  GgufMetadata, no_metadata, codes, read_target, read_gguf_metadata,
}
use sovereign_engine.Gguf.Format.{
  size_of, Value, number, array, no_more, more, put_le, put_value, Entry, IsEntry, put_file, depth,
  IsValue,
}
use sovereign_engine.Gguf.File.{read_gguf_metadata-put_file}
use sovereign_engine.Gguf.Others.{read_target-skips_twice}
use sovereign_engine.Gguf.Estimate.{compute_kv_aggregates, estimate_kv_cache_mb}
use sovereign_engine.Gguf.Legacy.{columns, estimate_kv_cache_mb-legacy}

abbrev any_text : Bytes → Bool
any_text bs = true

abbrev u32 : ℕ → Value
u32 n = number (n ∷ 0 ∷ 0 ∷ 0 ∷ [])

abbrev entries : List Entry
unfolding codes
entries =
    record {
      key = codes "gemma" ++ codes ".context_length";
      target = some Metadata.context_length;
      vtype = 4;
      value = number (0 ∷ 32 ∷ 0 ∷ 0 ∷ []);
    }
    ∷ record {
      key = codes "gemma" ++ codes ".attention.head_count_kv";
      target = some Metadata.head_count_kv;
      vtype = 9;
      value = array 4 (more (u32 2) (more (u32 8) no_more));
    }
    ∷ record {
      key = codes "gemma" ++ codes ".attention.sliding_window_pattern";
      target = some Metadata.sliding_window_pattern;
      vtype = 9;
      value = array 7 (more (number (0 ∷ [])) (more (number (1 ∷ [])) no_more));
    }
    ∷ []

abbrev gemma : GgufMetadata
gemma = record no_metadata {
  context_length = some 8192;
  head_count_kv = some 8;
  head_count_kv_per_layer = some (2 ∷ 8 ∷ []);
  sliding_window_pattern = some (false ∷ true ∷ []);
}

file_test : read_gguf_metadata any_text (some (put_file 3 0 entries [])) ≡ ok gemma
unfolding read_gguf_metadata put_file put_le read_elements
file_test = refl

entries-AreEntries : All (IsEntry any_text) entries
unfolding IsValue size_of codes
entries-AreEntries = (
  record {
    named = (codes "gemma", refl);
    short = omega arith;
    utf8 = refl;
    fits = refl;
    valued = refl;
    regular = tt;
  },
  (
    record {
      named = (codes "gemma", refl);
      short = omega arith;
      utf8 = refl;
      fits = refl;
      valued = (refl, refl, refl, (refl, (refl, tt)));
      regular = (refl, (refl, tt));
    },
    (
      record {
        named = (codes "gemma", refl);
        short = omega arith;
        utf8 = refl;
        fits = refl;
        valued = (refl, refl, refl, (refl, (refl, tt)));
        regular = tt;
      },
      tt,
    ),
  ),
)

read_gguf_metadata-put_file_example :
    read_gguf_metadata any_text (some (put_file 3 0 entries (7 ∷ []))) ≡ ok gemma
unfolding entries from_le_bytes
read_gguf_metadata-put_file_example =
    read_gguf_metadata-put_file any_text 3 0 entries (7 ∷ []) refl refl (omega arith)
      entries-AreEntries

read_target-skips_twice_example :
    read_target
      (skip_value any_text 1)
      9
      (some Metadata.head_count_kv)
      no_metadata
      (put_value (array 7 (more (number (1 ∷ [])) no_more)) (4 ∷ 0 ∷ []))
    ≡ (skip_value any_text 1 9 (4 ∷ 0 ∷ []) >>= λ (r : Bytes). ok (no_metadata, r))
unfolding IsValue size_of depth
read_target-skips_twice_example =
    read_target-skips_twice any_text 1 7 (number (1 ∷ [])) no_more no_metadata (4 ∷ 0 ∷ [])
      (refl, refl, refl, (refl, tt)) (refl, tt) (omega arith)

abbrev llama : GgufMetadata
llama = record no_metadata {
  block_count = some 32;
  embedding_length = some 4096;
  head_count = some 32;
  head_count_kv = some 8;
  key_length = some 128;
  value_length = some 128;
}

estimate_test : estimate_kv_cache_mb (columns llama none none 8192 2) ≡ 2048
unfolding estimate_kv_cache_mb
estimate_test = refl

estimate_kv_cache_mb-legacy_example :
    estimate_kv_cache_mb
      (columns llama (compute_kv_aggregates llama).0 (compute_kv_aggregates llama).1 8192 2)
    ≡ estimate_kv_cache_mb (columns llama none none 8192 2)
estimate_kv_cache_mb-legacy_example =
    estimate_kv_cache_mb-legacy llama 128 128 32 32 8 4096 8192 2 refl refl refl refl refl refl refl
      (omega arith) (omega arith) (omega arith) (omega arith) (omega arith) (omega arith)
