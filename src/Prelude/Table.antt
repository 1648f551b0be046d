-- ===== src/Prelude/Table.antt =====
-- A database table as the list of its rows, and the statements that the program sends to it.
-- Without an ORDER BY the database may return any row that matches; the model takes the first.
use Prim.Native.Nat.{ℕ, ◌+◌, ◌≤◌}
use mathlib.Core.Path.{◌≡◌, refl, subst}
use mathlib.Core.Logic.{◌⊎◌, inl, inr}
use mathlib.Core.Bool.{Bool, true, false}
use mathlib.Core.Option.{Option, none, some}
use mathlib.Core.List.{List, [], ◌∷◌}
use native.Mathlib.Omega.{arith}
use sovereign_engine.Prelude.Tests.{if◌then◌else◌, Bool-cases}
use sovereign_engine.Prelude.Lists.{length, empty_of_length, All, Pairwise, In}

module _ {ℓ} {A : Type ℓ} where
  -- SELECT … WHERE p LIMIT 1
  abbrev pub find_first : (A → Bool) → List A → Option A
  find_first p [] = none
  find_first p (x ∷ xs) = if p x then some x else find_first p xs

  -- SELECT … WHERE p
  abbrev pub select : (A → Bool) → List A → List A
  select p [] = []
  select p (x ∷ xs) = let rest = select p xs in if p x then x ∷ rest else rest

  -- UPDATE … SET f WHERE p
  abbrev pub update : (A → Bool) → (A → A) → List A → List A
  update p f [] = []
  update p f (x ∷ xs) = (if p x then f x else x) ∷ update p f xs

  -- DELETE … WHERE p
  abbrev pub delete : (A → Bool) → List A → List A
  delete p [] = []
  delete p (x ∷ xs) = let rest = delete p xs in if p x then rest else x ∷ rest

  -- rows_affected() of an UPDATE or DELETE with the condition `p`
  abbrev pub count : (A → Bool) → List A → ℕ
  count p [] = 0
  count p (x ∷ xs) = (if p x then 1 else 0) + count p xs

  pub find_first-none-All :
      (p : A → Bool) (xs : List A) → find_first p xs ≡ none → All (λ x. p x ≡ false) xs
  find_first-none-All p [] h = tt
  find_first-none-All p (x ∷ xs) h = (ground arith, find_first-none-All p xs (ground arith))

  pub find_first-some : (p : A → Bool) (xs : List A) (x : A) → find_first p xs ≡ some x → p x ≡ true
  find_first-some p [] x h = ground arith
  find_first-some p (y ∷ ys) x h = ground (arith, find_first-some p ys x)

  -- A condition that no row meets: the statement changes nothing.
  pub update-count_zero :
      (p : A → Bool) (f : A → A) (xs : List A) → count p xs ≡ 0 → update p f xs ≡ xs
  update-count_zero p f [] h = refl
  update-count_zero p f (x ∷ xs) h = ground (arith, update-count_zero p f xs)

  -- A pointwise rule for a statement that rewrites rows one by one.
  pub All-update {κ μ} :
      (P : A → Type κ) (Q : A → Type μ) (p : A → Bool) (f : A → A)
      → ((x : A) → P x → Q (if p x then f x else x))
      → (xs : List A) → All P xs
      → All Q (update p f xs)
  All-update P Q p f step [] h = tt
  All-update P Q p f step (x ∷ xs) h = (step x h.0, All-update P Q p f step xs h.1)

  pub Pairwise-update {κ μ ν} :
      (P : A → Type κ) (R : A → A → Type μ) (S : A → A → Type ν) (p : A → Bool) (f : A → A)
      → ((x y : A) → P x → P y → R x y → S (if p x then f x else x) (if p y then f y else y))
      → (xs : List A) → All P xs
      → Pairwise R xs
      → Pairwise S (update p f xs)
  Pairwise-update P R S p f step [] h r = tt
  Pairwise-update P R S p f step (x ∷ xs) h r =
      (heads xs h.1 r.0, Pairwise-update P R S p f step xs h.1 r.1)
    where
      heads :
          (ys : List A) → All P ys → All (R x) ys → All (S (if p x then f x else x)) (update p f ys)
      heads [] k q = tt
      heads (y ∷ ys) k q = (step x y h.0 k.0 q.0, heads ys k.1 q.1)

  pub All-delete {κ} :
      (P : A → Type κ) (p : A → Bool) (xs : List A) → All P xs → All P (delete p xs)
  All-delete P p [] h = tt
  All-delete P p (x ∷ xs) h = ground (arith, All-delete P p xs h.1)

  pub Pairwise-delete {κ} :
      (R : A → A → Type κ) (p : A → Bool) (xs : List A) → Pairwise R xs → Pairwise R (delete p xs)
  Pairwise-delete R p [] h = tt
  Pairwise-delete R p (x ∷ xs) h =
      ground (arith, All-delete (R x) p xs h.0, Pairwise-delete R p xs h.1)

pub find_first-In :
    {A : Type 0} (p : A → Bool) (xs : List A) (x : A) → find_first p xs ≡ some x → In x xs
find_first-In p [] x h = ground arith
find_first-In p (y ∷ ys) x h = elim (Bool-cases (p y)) [
  | inl hit ↦ inl (ground arith)
  | inr miss ↦ inr (find_first-In p ys x (ground arith))
]

module _ {ℓ} {A : Type ℓ} where
  -- A query that returns all matches against one that returns the first.
  pub select-none : (p : A → Bool) (xs : List A) → find_first p xs ≡ none → select p xs ≡ []
  select-none p [] h = refl
  select-none p (x ∷ xs) h = ground (arith, select-none p xs)

  pub select-some :
      (p : A → Bool) (xs : List A) (a : A)
      → find_first p xs ≡ some a
      → length (select p xs) ≤ 1
      → select p xs ≡ a ∷ []
  select-some p [] a h k = ground arith
  select-some p (x ∷ xs) a h k = elim (Bool-cases (p x)) [
    | inl hit ↦ ground (arith, empty_of_length (select p xs))
    | inr miss ↦ ground (arith, select-some p xs a)
  ]

In-select_cons :
    {A : Type 0} (p : A → Bool) (a x : A) (xs rest : List A) (b : Bool)
    → p x ≡ b
    → (In a rest → In a xs × (p a ≡ true))
    → In a (if b then x ∷ rest else rest)
    → In a (x ∷ xs) × (p a ≡ true)
In-select_cons p a x xs rest true hit deeper (inl e) = (inl e, rw e hit)
In-select_cons p a x xs rest true hit deeper (inr m) = let (n, e) = deeper m in (inr n, e)
In-select_cons p a x xs rest false miss deeper m = let (n, e) = deeper m in (inr n, e)

-- What a query returns stands in the table and meets the condition.
pub In-select :
    {A : Type 0} (p : A → Bool) (a : A) (xs : List A) → In a (select p xs) → In a xs × (p a ≡ true)
In-select p a [] m = absurd m
In-select p a (x ∷ xs) m = In-select_cons p a x xs (select p xs) (p x) refl (In-select p a xs) m

select-In_cons :
    {A : Type 0} (a x : A) (rest : List A) (b : Bool)
    → (a ≡ x) × (b ≡ true) ⊎ In a rest
    → In a (if b then x ∷ rest else rest)
select-In_cons a x rest true (inl e) = inl e.0
select-In_cons a x rest true (inr m) = inr m
select-In_cons a x rest false (inl e) = cc
select-In_cons a x rest false (inr m) = m

-- And the query returns each such row.
pub select-In :
    {A : Type 0} (p : A → Bool) (a : A) (xs : List A) → In a xs → p a ≡ true → In a (select p xs)
select-In p a [] m h = absurd m
select-In p a (x ∷ xs) (inl e) h =
    select-In_cons a x (select p xs) (p x) (inl (e, subst (λ y. p y ≡ true) e h))
select-In p a (x ∷ xs) (inr m) h =
    select-In_cons a x (select p xs) (p x) (inr (select-In p a xs m h))

module _ {ℓ} {A : Type ℓ} where
  pub count_zero-All : (p : A → Bool) (xs : List A) → count p xs ≡ 0 → All (λ x. p x ≡ false) xs
  count_zero-All p [] h = tt
  count_zero-All p (x ∷ xs) h = (ground arith, count_zero-All p xs (ground arith))

  -- A statement whose new rows do not meet its condition leaves no row that does.
  pub update-clears :
      (p : A → Bool) (f : A → A)
      → ((x : A) → p (f x) ≡ false)
      → (xs : List A) → All (λ x. p x ≡ false) (update p f xs)
  update-clears p f off [] = tt
  update-clears p f off (x ∷ xs) = (ground (arith, off x), update-clears p f off xs)
