-- ===== src/Gguf/Names.antt =====
-- Which target a key has, by the chain of suffixes in read_gguf_metadata of proxy/src/api/hf.rs.
use sovereign_engine.Prelude.{
  String, true, false, Option, none, some, [], ◌∷◌, ◌++◌, ◌≡◌, refl, ap, sym, arith, Bool-cases,
  inl, inr, ◌∙◌,
}
use mathlib.Core.List.{append_assoc, append-nil}
use sovereign_engine.Gguf.{Bytes}
use sovereign_engine.Gguf.Metadata.{
  Target, codes, append_reversed, starts_with, ends_with, target_of,
}
use sovereign_engine.Gguf.Format.{suffix, IsNamed}

append_reversed-append :
    (xs ys zs : Bytes) → append_reversed (xs ++ ys) zs ≡ append_reversed ys (append_reversed xs zs)
unfolding append_reversed
append_reversed-append [] ys zs = refl
append_reversed-append (x ∷ xs) ys zs = append_reversed-append xs ys (x ∷ zs)

append_reversed-twice :
    (xs ys zs : Bytes) → append_reversed (append_reversed xs ys) zs ≡ append_reversed ys (xs ++ zs)
unfolding append_reversed
append_reversed-twice [] ys zs = refl
append_reversed-twice (x ∷ xs) ys zs = append_reversed-twice xs (x ∷ ys) zs

append_reversed-end : (xs ys : Bytes) → append_reversed xs ys ≡ append_reversed xs [] ++ ys
unfolding append_reversed
append_reversed-end [] ys = refl
append_reversed-end (x ∷ xs) ys =
    append_reversed-end xs (x ∷ ys)
    ∙ sym (append_assoc (append_reversed xs []) (x ∷ []) ys)
    ∙ ap (λ (zs : Bytes). zs ++ ys) (sym (append_reversed-end xs (x ∷ [])))

starts_with-rest : (ps bs : Bytes) → starts_with ps bs ≡ true → (r : Bytes) × (bs ≡ ps ++ r)
unfolding starts_with
starts_with-rest [] bs h = (bs, refl)
starts_with-rest (p ∷ ps) [] h = absurd (ground arith)
starts_with-rest (p ∷ ps) (b ∷ bs) h =
    let deeper = starts_with-rest ps bs (ground arith) in
    let e : p ≡ b = ground arith in (deeper.0, ground (arith, e, deeper.1))

ends_with-arch :
    (key : Bytes) (s : String) → ends_with key s ≡ true → (arch : Bytes) × (key ≡ arch ++ codes s)
unfolding ends_with
ends_with-arch key s h =
    let f = starts_with-rest (append_reversed (codes s) []) (append_reversed key []) h in
    (
      append_reversed f.0 [],
      sym (append-nil key)
          ∙ sym (append_reversed-twice key [] [])
          ∙ ap (λ (xs : Bytes). append_reversed xs []) f.1
          ∙ append_reversed-append (append_reversed (codes s) []) f.0 []
          ∙ ap (append_reversed f.0) (append_reversed-twice (codes s) [] [] ∙ append-nil (codes s))
          ∙ append_reversed-end f.0 (codes s),
    )

named : (arch : Bytes) (t : Target) → target_of (arch ++ codes (suffix t)) ≡ some t
unfolding target_of ends_with append_reversed codes starts_with
named arch Target.context_length =
    rw (append_reversed-append arch (codes ".context_length") []) refl
named arch t = rw (append_reversed-append arch (codes (suffix t)) []) refl

ends_with-other : (key : Bytes) (t : Target) → IsNamed key none → ends_with key (suffix t) ≡ false
ends_with-other key t h = elim (Bool-cases (ends_with key (suffix t))) [
  | inr e ↦ e
  | inl e ↦ let a = ends_with-arch key (suffix t) e in absurd (h t a.0 a.1)
]

unnamed : (key : Bytes) → ((t : Target) → ends_with key (suffix t) ≡ false) → target_of key ≡ none
unfolding target_of
unnamed key h =
    rw
      (
        h Target.context_length,
        h Target.block_count,
        h Target.embedding_length,
        h Target.head_count,
        h Target.key_length,
        h Target.value_length,
        h Target.key_length_swa,
        h Target.value_length_swa,
        h Target.sliding_window,
        h Target.expert_count,
        h Target.head_count_kv,
        h Target.sliding_window_pattern,
      )
      refl

pub target_of-IsNamed : (key : Bytes) (o : Option Target) → IsNamed key o → target_of key ≡ o
target_of-IsNamed key (some t) (arch, e) = rw e (named arch t)
target_of-IsNamed key none h = unnamed key (λ t. ends_with-other key t h)
