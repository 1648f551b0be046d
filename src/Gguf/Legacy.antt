-- ===== src/Gguf/Legacy.antt =====
-- The two ways of estimating the cache: compute_kv_aggregates of proxy/src/api/hf.rs and
-- estimate_kv_cache_mb of proxy/src/api/admin.rs.
use sovereign_engine.Prelude.{
  ℕ, ◌+◌, ◌*◌, ◌/◌, ◌%◌, ◌^◌, ◌≤◌, ◌<◌, true, Option, none, some, List, unwrap_or, ◌≡◌, refl, arith,
  ap, sym,
}
use sovereign_engine.Gguf.Metadata.{GgufMetadata}
use sovereign_engine.Gguf.Estimate.{
  KvCacheParams, compute_kv_aggregates, homogeneous, saturate, aggregates, layered, sum_u32,
  is_positive, estimate_kv_cache_mb,
}

-- The columns of a model whose row has the aggregates that were computed at its download, or not.
abbrev pub columns : GgufMetadata → Option ℕ → Option ℕ → ℕ → ℕ → KvCacheParams
columns m global swa context parallel = record {
  n_layers = m.block_count;
  n_heads = m.head_count;
  n_kv_heads = m.head_count_kv;
  embedding_length = m.embedding_length;
  key_length = m.key_length;
  value_length = m.value_length;
  kv_bytes_per_token_global = global;
  kv_bytes_per_token_swa = swa;
  sliding_window = m.sliding_window;
  context_size = context;
  parallel = parallel;
}

below : (n : ℕ) → n < 2 ^ 64 → (n % 2 ^ 64 ≡ n) × (saturate n ≡ n)
below n h = (omega (arith, h), ground (arith, h))

ge_times : (x p : ℕ) → 1 ≤ p → x ≤ x * p
ge_times x p h = grind arith

-- The two orders of the factors; nothing wraps and nothing is cut off.
orders :
    (l g d c p : ℕ)
    → l * g * d * 2 < 2 ^ 64
    → l * g * d * 2 * c * p < 2 ^ 64
    → 1 ≤ p
    → saturate (saturate (saturate (l * g * d * 2 % 2 ^ 64 * c) + 0) * p)
      ≡ l * g * d * c * p * 2 % 2 ^ 64
orders l g d c p h k q =
    let e : l * g * d * 2 * c * p ≡ l * g * d * c * p * 2 = grind arith in
    let b = l * g * d * 2 in
    let le = ge_times (b * c) p q in
    let short = (below (b * c) (omega (arith, le, k))).1 in
    let inner : saturate (b % 2 ^ 64 * c) ≡ b * c = rw ((below b h).0) short in
    let zero : b * c + 0 ≡ b * c = omega arith in
    let wrapped : l * g * d * c * p * 2 % 2 ^ 64 ≡ b * c * p =
      rw (sym e) ((below (b * c * p) k).0) in
    rw (inner, zero, short, (below (b * c * p) k).1) (sym wrapped)

layered_without :
    (d w : ℕ) (heads : Option (List ℕ)) (x : Option ℕ × Option ℕ) → layered d w heads none x ≡ x
unfolding layered
layered_without d w none x = refl
layered_without d w (some hs) x = refl

aggregates_without :
    (m : GgufMetadata) (k v l g : ℕ)
    → m.key_length ≡ some k
    → m.value_length ≡ some v
    → m.block_count ≡ some l
    → m.head_count_kv ≡ some g
    → m.sliding_window_pattern ≡ none
    → k + v < 2 ^ 32
    → compute_kv_aggregates m ≡ (some (l * g * (k + v) * 2 % 2 ^ 64), none)
unfolding compute_kv_aggregates aggregates
aggregates_without m k v l g mk mv ml mg mp s =
    let sum : sum_u32 k v ≡ k + v = omega (arith, s) in
    ground (
      arith,
      sum,
      layered_without (sum_u32 k v)
          (sum_u32 (unwrap_or m.key_length_swa k) (unwrap_or m.value_length_swa v))
          m.head_count_kv_per_layer (homogeneous (sum_u32 k v) m.block_count m.head_count_kv),
    )

-- For a model without a pattern of windows whose numbers are all known, with at least one head and
-- for at least one sequence, where nothing exceeds its width: the estimate with the aggregates that its
-- download computed is the estimate without them.
pub estimate_kv_cache_mb-legacy :
    (m : GgufMetadata) (k v l h g e context parallel : ℕ)
    → m.key_length ≡ some k
    → m.value_length ≡ some v
    → m.block_count ≡ some l
    → m.head_count ≡ some h
    → m.head_count_kv ≡ some g
    → m.embedding_length ≡ some e
    → m.sliding_window_pattern ≡ none
    → 0 < h
    → h < 2 ^ 63
    → k + v < 2 ^ 32
    → l * g * (k + v) * 2 < 2 ^ 64
    → l * g * (k + v) * 2 * context * parallel < 2 ^ 64
    → 1 ≤ parallel
    → estimate_kv_cache_mb
        (columns m (compute_kv_aggregates m).0 (compute_kv_aggregates m).1 context parallel)
      ≡ estimate_kv_cache_mb (columns m none none context parallel)
unfolding estimate_kv_cache_mb compute_kv_aggregates
estimate_kv_cache_mb-legacy m k v l h g e context parallel mk mv ml mh mg me mp h0 h1 s b t q =
    let a = aggregates_without m k v l g mk mv ml mg mp s in
    let p : is_positive h ≡ true = ground (arith, h0, h1) in
    rw (a, ml, mh, mg, me, p, mk, mv)
      (ap (λ n. n / 1048576) (orders l g (k + v) context parallel b t q))
