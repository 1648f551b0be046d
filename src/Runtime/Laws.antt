-- ===== src/Runtime/Laws.antt =====
-- What validated overrides put on the command line: proxy/src/docker/runtime_overrides.rs.
use text.Mathlib.TextEquality.{starts_with_iff}
use text.Mathlib.TextBridge.{IsPrefix}
use sovereign_engine.Prelude.{
  ℕ, ◌≤◌, ◌≡◌, String, false, Option, none, some, List, [], ◌∷◌, arith, All, Result, ok, err,
  Bool-cases, inl, inr, refl, ◌↔◌, ◌>>=◌, ◌⊎◌, true, cat, ◌==◌, eq_iff, All-map, sym, ◌∙◌,
}
use sovereign_engine.Runtime.{
  ModelRuntimeOverrides, validate, check_extra, check_max, is_reserved, is_forbidden, is_flag,
  forbidden_extra_prefixes, max_cache_ram_mib, max_ctx_checkpoints, max_cache_reuse,
}

abbrev pub AtMost : ℕ → Option ℕ → Type 0
AtMost max none = Unit
AtMost max (some n) = n ≤ max

-- The entry is the flag, or the flag with a value behind an equals sign.
abbrev pub Sets : String → String → Type 0
Sets entry flag = (entry ≡ flag) ⊎ ((value : String) × (entry ≡ cat (cat flag "=") value))

-- The extra argument sets none of the seven flags that the proxy keeps for itself.
abbrev pub IsFree : String → Type 0
IsFree entry =
    All (λ flag. ¬ Sets entry flag)
      ("--model" ∷ "--host" ∷ "--port" ∷ "--api-key" ∷ "-ngl" ∷ "-c" ∷ "-np" ∷ [])

is_reserved_lem :
    (entry : String) (flags : List String)
    → is_reserved flags entry ≡ false ↔ All (λ flag. is_flag entry flag ≡ false) flags
unfolding is_reserved
is_reserved_lem entry [] = (λ h. tt, λ h. refl)
is_reserved_lem entry (flag ∷ flags) =
    let (f, g) = is_reserved_lem entry flags in
    elim (Bool-cases (is_flag entry flag)) [
      | inl e ↦ (λ h. ground arith, λ h. ground (arith, h.0))
      | inr e ↦ (λ h. (e, f (ground arith)), λ h. rw e (g h.1))
    ]

ne_false : true ≡ false → ⊥
ne_false h = ground arith

is_flag_lem : (entry flag : String) → is_flag entry flag ≡ true ↔ Sets entry flag
is_flag_lem entry flag = (
  λ h. elim (Bool-cases (entry == flag)) [
    | inl e ↦ inl ((eq_iff entry flag).0 e)
    | inr e ↦ inr (rest ((starts_with_iff entry (cat flag "=")).0 (ground arith)))
  ],
  λ h. elim h [
    | inl e ↦ ground (arith, (eq_iff entry flag).1 e)
    | inr (value, e) ↦ ground (arith, (starts_with_iff entry (cat flag "=")).1 (value, sym e))
  ],
)
  where
    rest : IsPrefix (cat flag "=") entry → (value : String) × (entry ≡ cat (cat flag "=") value)
    rest p = (p.0, sym p.1)

All-Sets :
    (entry : String) (flags : List String)
    → All (λ flag. is_flag entry flag ≡ false) flags ↔ All (λ flag. ¬ Sets entry flag) flags
All-Sets entry flags = (
  All-map (λ flag. is_flag entry flag ≡ false) (λ flag. ¬ Sets entry flag)
      (λ flag h k. absurd (ne_false (sym ((is_flag_lem entry flag).1 k) ∙ h))) flags,
  All-map (λ flag. ¬ Sets entry flag) (λ flag. is_flag entry flag ≡ false)
      (λ flag h. elim (Bool-cases (is_flag entry flag)) [
        | inl e ↦ absurd (h ((is_flag_lem entry flag).0 e))
        | inr e ↦ e
      ])
      flags,
)

is_forbidden_lem : (entry : String) → is_forbidden entry ≡ false ↔ IsFree entry
unfolding is_forbidden
is_forbidden_lem entry =
    let (f, g) = is_reserved_lem entry forbidden_extra_prefixes in
    let (h, k) = All-Sets entry forbidden_extra_prefixes in (λ x. h (f x), λ x. g (k x))

check_extra_ok : (es : List String) → check_extra es ≡ ok tt ↔ All IsFree es
unfolding check_extra
check_extra_ok [] = (λ h. tt, λ h. refl)
check_extra_ok (e ∷ es) = elim (Bool-cases (is_forbidden e)) [
  | inl f ↦ (λ h. ground arith, λ h. ground (arith, (is_forbidden_lem e).1 h.0))
  | inr f ↦
      let (g, k) = check_extra_ok es in
      (λ h. ((is_forbidden_lem e).0 f, g (ground arith)), λ h. rw f (k h.1))
]

check_max_ok :
    (field : String) (max : ℕ) (o : Option ℕ) → check_max field max o ≡ ok tt ↔ AtMost max o
check_max_ok field max none = (λ h. tt, λ h. refl)
check_max_ok field max (some n) = (λ h. ground arith, λ h. ground arith)

bind_ok : (r s : Result Unit) → (r >>= λ _. s) ≡ ok tt ↔ ((r ≡ ok tt) × (s ≡ ok tt))
bind_ok (ok tt) s = (λ h. (refl, h), λ h. h.1)
bind_ok (err e) s = (λ h. ground arith, λ h. ground arith)

-- Overrides are valid exactly if each number is at most its maximum and no extra argument is --model,
-- --host, --port, --api-key, -ngl, -c or -np, alone or with a value behind an equals sign.
pub validate_iff :
    (o : ModelRuntimeOverrides)
    → (validate o ≡ ok tt) ↔ (
        AtMost max_cache_ram_mib o.cache_ram_mib
        × AtMost max_ctx_checkpoints o.ctx_checkpoints
        × AtMost max_cache_reuse o.cache_reuse
        × All IsFree o.extra)
unfolding validate
validate_iff o =
    let c = check_max_ok "cache_ram_mib" max_cache_ram_mib o.cache_ram_mib in
    let t = check_max_ok "ctx_checkpoints" max_ctx_checkpoints o.ctx_checkpoints in
    let r = check_max_ok "cache_reuse" max_cache_reuse o.cache_reuse in
    let e = check_extra_ok o.extra in
    (
      λ h.
          let (h1, k1) = (bind_ok _ _).0 h in
          let (h2, k2) = (bind_ok _ _).0 k1 in
          let (h3, k3) = (bind_ok _ _).0 k2 in (c.0 h1, t.0 h2, r.0 h3, e.0 k3),
      λ (a1, a2, a3, a4).
          (bind_ok _ _).1 (c.1 a1, (bind_ok _ _).1 (t.1 a2, (bind_ok _ _).1 (r.1 a3, e.1 a4))),
    )
