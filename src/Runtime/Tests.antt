-- ===== src/Runtime/Tests.antt =====
-- Examples for the runtime overrides.
use sovereign_engine.Prelude.{
  true, some, [], ◌∷◌, ◌≡◌, refl, ◌↔◌, ok, err, All, decimal_text, lower_is,
}
use sovereign_engine.Runtime.{
  ModelRuntimeOverrides, validate, to_cli_args, max_cache_ram_mib, max_ctx_checkpoints,
  max_cache_reuse, gpu_type_from_str, vulkan, is_forbidden,
}
use sovereign_engine.Runtime.Laws.{validate_iff, AtMost, IsFree}

abbrev cautious : ModelRuntimeOverrides
cautious = record {
  cache_ram_mib = some 0;
  swa_full = some true;
  ctx_checkpoints = some 128;
  cache_reuse = some 256;
  extra = "--no-mmap" ∷ [];
}

to_cli_args-cautious :
    to_cli_args cautious
    ≡ "--cache-ram" ∷ "0" ∷ "--swa-full" ∷ "-ctxcp" ∷ "128" ∷ "--cache-reuse" ∷ "256" ∷ "--no-mmap"
      ∷ []
unfolding to_cli_args decimal_text
to_cli_args-cautious = refl

validate-port :
    validate (record cautious { extra = "--port=80" ∷ [] })
    ≡ err "extra argument '--port=80' is reserved by the proxy"
unfolding validate is_forbidden
validate-port = refl

gpu_type_from_str-capitals : gpu_type_from_str "VulKan" ≡ vulkan
unfolding gpu_type_from_str lower_is
gpu_type_from_str-capitals = refl

validate_iff_example : (validate cautious ≡ ok tt) ↔ (
    AtMost max_cache_ram_mib (some 0)
    × AtMost max_ctx_checkpoints (some 128)
    × AtMost max_cache_reuse (some 256)
    × All IsFree ("--no-mmap" ∷ []))
validate_iff_example = validate_iff cautious
