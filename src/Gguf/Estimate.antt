-- ===== src/Gguf/Estimate.antt =====
-- The memory that the key-value cache of a model takes: compute_kv_aggregates and
-- auto_runtime_overrides of proxy/src/api/hf.rs, estimate_kv_cache_mb and estimate_vram of
-- proxy/src/api/admin.rs. An i64 stands as its 64 bits, so that `as u64` keeps it; sums of a u32 and
-- products wrap, as in a release build.
use sovereign_engine.Prelude.{
  ℕ, ◌+◌, ◌-◌, ◌*◌, ◌/◌, ◌%◌, ◌^◌, String, Bool, ◌&&◌, Option, none, some, List, [], ◌∷◌, ltb, leb,
  eqb, is_some, unwrap_or, if◌then◌else◌, length,
}
use sovereign_engine.Gguf.Metadata.{GgufMetadata}

abbrev pub sum_u32 : ℕ → ℕ → ℕ
sum_u32 a b = (a + b) % 2 ^ 32

-- The bytes per token of the layers with a full context, and of those with a sliding window. The two
-- lists are as long as each other.
unfoldable pub per_layer : ℕ → ℕ → List ℕ → List Bool → ℕ × ℕ → ℕ × ℕ
per_layer dims dims_swa [] ps (g, s) = (g, s)
per_layer dims dims_swa (h ∷ hs) [] (g, s) = (g, s)
per_layer dims dims_swa (h ∷ hs) (p ∷ ps) (g, s) =
    per_layer dims dims_swa hs ps
      (if p then (g, (s + h * dims_swa * 2) % 2 ^ 64) else ((g + h * dims * 2) % 2 ^ 64, s))

abbrev pub homogeneous : ℕ → Option ℕ → Option ℕ → Option ℕ × Option ℕ
homogeneous dims (some layers) (some heads) = (some (layers * heads * dims * 2 % 2 ^ 64), none)
homogeneous dims (some layers) none = (none, none)
homogeneous dims none heads = (none, none)

unfoldable pub layered :
    ℕ → ℕ → Option (List ℕ) → Option (List Bool) → Option ℕ × Option ℕ → Option ℕ × Option ℕ
unfolding per_layer
layered dims dims_swa (some heads) (some pat) otherwise =
    if eqb (length heads) (length pat) && ltb 0 (length heads)
    then (
      some (per_layer dims dims_swa heads pat (0, 0)).0,
      some (per_layer dims dims_swa heads pat (0, 0)).1,
    )
    else otherwise
layered dims dims_swa (some heads) none otherwise = otherwise
layered dims dims_swa none pat otherwise = otherwise

unfoldable pub aggregates : GgufMetadata → Option ℕ → Option ℕ → Option ℕ × Option ℕ
unfolding layered
aggregates meta none v = (none, none)
aggregates meta (some k) none = (none, none)
aggregates meta (some k) (some v) =
    layered (sum_u32 k v)
      (sum_u32 (unwrap_or meta.key_length_swa k) (unwrap_or meta.value_length_swa v))
      meta.head_count_kv_per_layer meta.sliding_window_pattern
      (homogeneous (sum_u32 k v) meta.block_count meta.head_count_kv)

unfoldable pub compute_kv_aggregates : GgufMetadata → Option ℕ × Option ℕ
unfolding aggregates
compute_kv_aggregates meta = aggregates meta meta.key_length meta.value_length

unfoldable pub auto_runtime_overrides : GgufMetadata → String
auto_runtime_overrides meta =
    if is_some meta.sliding_window && eqb (unwrap_or meta.expert_count 0) 0
    then "{\"cache_ram_mib\":0}"
    else "{}"

pub record KvCacheParams : Type 0 where
  pub n_layers : Option ℕ
  pub n_heads : Option ℕ
  pub n_kv_heads : Option ℕ
  pub embedding_length : Option ℕ
  pub key_length : Option ℕ
  pub value_length : Option ℕ
  pub kv_bytes_per_token_global : Option ℕ
  pub kv_bytes_per_token_swa : Option ℕ
  pub sliding_window : Option ℕ
  pub context_size : ℕ
  pub parallel : ℕ

abbrev pub saturate : ℕ → ℕ
saturate n = if ltb n (2 ^ 64) then n else 2 ^ 64 - 1

abbrev pub swa_tokens : Option ℕ → ℕ → ℕ
swa_tokens none context = context
swa_tokens (some w) context = if ltb w context then w else context

abbrev pub swa_bytes : Option ℕ → Option ℕ → ℕ → ℕ
swa_bytes none window context = 0
swa_bytes (some b) window context = saturate (b * swa_tokens window context)

-- As an i64, a number is positive.
abbrev pub is_positive : ℕ → Bool
is_positive n = ltb 0 n && ltb n (2 ^ 63)

abbrev pub derived_mb : KvCacheParams → Option ℕ → Option ℕ → Option ℕ → Option ℕ → ℕ
derived_mb p (some layers) (some heads) (some kv_heads) (some emb) =
    if is_positive heads
    then layers
      * kv_heads
      * (unwrap_or p.key_length (emb / heads) + unwrap_or p.value_length (emb / heads))
      * p.context_size
      * p.parallel
      * 2
      % 2 ^ 64
      / 1048576
    else 0
derived_mb p layers heads kv_heads emb = 0

unfoldable pub estimate_kv_cache_mb : KvCacheParams → ℕ
estimate_kv_cache_mb p = elim p.kv_bytes_per_token_global [
  | some b ↦
      saturate (
        saturate (
          saturate (b * p.context_size)
          + swa_bytes p.kv_bytes_per_token_swa p.sliding_window p.context_size)
        * p.parallel)
      / 1048576
  | none ↦ derived_mb p p.n_layers p.n_heads p.n_kv_heads p.embedding_length
]

pub record ModelMetadataRow : Type 0 where
  pub size_bytes : ℕ
  pub context_length : Option ℕ
  pub n_layers : Option ℕ
  pub n_heads : Option ℕ
  pub n_kv_heads : Option ℕ
  pub embedding_length : Option ℕ
  pub key_length : Option ℕ
  pub value_length : Option ℕ
  pub sliding_window : Option ℕ
  pub kv_bytes_per_token_global : Option ℕ
  pub kv_bytes_per_token_swa : Option ℕ

pub record Gpu : Type 0 where
  pub total_mb : ℕ
  pub used_mb : ℕ
  pub free_mb : ℕ

pub record VramEstimate : Type 0 where
  pub model_weights_mb : ℕ
  pub kv_cache_mb : ℕ
  pub total_mb : ℕ
  pub gpu_total_mb : ℕ
  pub gpu_used_mb : ℕ
  pub gpu_free_mb : ℕ
  pub fits : Bool

-- Sums of numbers of megabytes, which stay far below 2 ^ 64.
unfoldable pub sum_of : (Gpu → ℕ) → List Gpu → ℕ
sum_of f [] = 0
sum_of f (g ∷ gs) = f g + sum_of f gs

abbrev pub at_least_one : ℕ → ℕ
at_least_one n = if ltb n 1 then 1 else n

abbrev pub estimated : ModelMetadataRow → ℕ → ℕ → List Gpu → VramEstimate
unfolding estimate_kv_cache_mb sum_of
estimated r context parallel gpus =
    let kv = estimate_kv_cache_mb (record {
      n_layers = r.n_layers;
      n_heads = r.n_heads;
      n_kv_heads = r.n_kv_heads;
      embedding_length = r.embedding_length;
      key_length = r.key_length;
      value_length = r.value_length;
      kv_bytes_per_token_global = r.kv_bytes_per_token_global;
      kv_bytes_per_token_swa = r.kv_bytes_per_token_swa;
      sliding_window = r.sliding_window;
      context_size = context;
      parallel = parallel;
    }) in
    let all = r.size_bytes / 1048576 + kv + 200 in
    record {
      model_weights_mb = r.size_bytes / 1048576;
      kv_cache_mb = kv;
      total_mb = all;
      gpu_total_mb = sum_of (λ g. g.total_mb) gpus;
      gpu_used_mb = sum_of (λ g. g.used_mb) gpus;
      gpu_free_mb = sum_of (λ g. g.free_mb) gpus;
      fits = ltb 0 (sum_of (λ g. g.total_mb) gpus) && leb all (sum_of (λ g. g.free_mb) gpus);
    }

-- The answer's status, with the estimate for 200. The query fails, or finds the row of the model.
unfoldable pub estimate_vram :
    Bool → Option ModelMetadataRow → Option ℕ → List Gpu → ℕ × Option VramEstimate
unfolding estimated
estimate_vram failed row parallel gpus = if failed then (500, none) else elim row [
  | none ↦ (404, none)
  | some r ↦ elim r.context_length [
    | none ↦ (400, none)
    | some c ↦ (200, some (estimated r c (at_least_one (unwrap_or parallel 1)) gpus))
  ]
]
