-- ===== src/Scheduler/Queue/Order.antt =====
-- Which request `dequeue` serves.
use Prim.Native.Nat.{Ordering}
use mathlib.Core.List.{append_assoc, append-nil}
use sovereign_engine.Prelude.{
  ℕ, ◌+◌, ◌≡◌, ◌≢◌, refl, sym, ◌∙◌, ap, subst, inl, inr, ◌⊎◌, String, true, false, Option, none,
  some, List, [], ◌∷◌, ◌++◌, arith, length, All, All-map, Bool-cases,
}
use sovereign_engine.Prelude.Dict
use sovereign_engine.Prelude.Dict.{get-insert}
use sovereign_engine.Scheduler.Queue.{
  QueuedRequest, RequestQueue, requests_of, dequeue, remove_at, max_by_from, take_best, is_greater,
}

module _ {Priority : Type 0} where
  remove_at-append :
      (pre post : List (QueuedRequest Priority)) (x : QueuedRequest Priority)
      → remove_at (length pre) (pre ++ x ∷ post) ≡ some (x, pre ++ post)
  unfolding remove_at
  remove_at-append [] post x = refl
  remove_at-append (y ∷ pre) post x = rw (remove_at-append pre post x, remove_at)

  All-append :
      (P : QueuedRequest Priority → Type 0) (xs ys : List (QueuedRequest Priority))
      → All P xs
      → All P ys
      → All P (xs ++ ys)
  All-append P [] ys h k = k
  All-append P (x ∷ xs) ys h k = (h.0, All-append P xs ys h.1 k)

  length-append :
      (xs ys : List (QueuedRequest Priority)) → length (xs ++ ys) ≡ length xs + length ys
  length-append [] ys = omega arith
  length-append (x ∷ xs) ys = omega (arith, length-append xs ys)

  regroup_after :
      (pre post rs : List (QueuedRequest Priority)) (best r : QueuedRequest Priority)
      → (pre ++ best ∷ (post ++ r ∷ [])) ++ rs ≡ (pre ++ best ∷ post) ++ r ∷ rs
  regroup_after pre post rs best r = simp append_assoc

-- What holds of `partial_cmp` on numbers that are not NaN.
pub record IsTotalOrder {Priority : Type 0} (partial_cmp : Priority → Priority → Option Ordering)
    : Type 0 where
  pub asymmetric :
      (a b : Priority) → partial_cmp a b ≡ some Ordering.gt → partial_cmp b a ≢ some Ordering.gt
  pub transitive :
      (a b c : Priority)
      → partial_cmp a b ≢ some Ordering.gt
      → partial_cmp b c ≢ some Ordering.gt
      → partial_cmp a c ≢ some Ordering.gt

module _ {Priority : Type 0} (cmp : Priority → Priority → Option Ordering) where
  abbrev pub NotAbove : QueuedRequest Priority → QueuedRequest Priority → Type 0
  NotAbove r x = cmp x.priority r.priority ≢ some Ordering.gt

  abbrev pub Below : QueuedRequest Priority → QueuedRequest Priority → Type 0
  Below r x = cmp r.priority x.priority ≡ some Ordering.gt

  is_greater-true : (a b : QueuedRequest Priority) → is_greater cmp a b ≡ true → Below a b
  is_greater-true a b h = ground arith

  is_greater-false : (a b : QueuedRequest Priority) → is_greater cmp a b ≡ false → NotAbove b a
  is_greater-false a b h = λ e. ground arith

  -- The request `x` stands at the index in the list, none before it has a greater priority, and it
  -- has a greater priority than each behind it.
  pub record Chosen (rs : List (QueuedRequest Priority)) (i : ℕ) : Type 0 where
    pub before : List (QueuedRequest Priority)
    pub choice : QueuedRequest Priority
    pub after : List (QueuedRequest Priority)
    pub whole : rs ≡ before ++ choice ∷ after
    pub position : i ≡ length before
    pub none_above : All (NotAbove choice) before
    pub all_below : All (Below choice) after

  max_by_from-Chosen :
      (laws : IsTotalOrder cmp) (best_idx : ℕ) (best : QueuedRequest Priority) (i : ℕ)
      (rs pre post : List (QueuedRequest Priority))
      → best_idx ≡ length pre
      → i ≡ length (pre ++ best ∷ post)
      → All (NotAbove best) pre
      → All (Below best) post
      → Chosen ((pre ++ best ∷ post) ++ rs) (max_by_from cmp best_idx best i rs)
  unfolding max_by_from
  max_by_from-Chosen laws best_idx best i [] pre post hb hi above below = record {
    before = pre;
    choice = best;
    after = post;
    whole = append-nil (pre ++ best ∷ post);
    position = hb;
    none_above = above;
    all_below = below;
  }
  max_by_from-Chosen laws best_idx best i (r ∷ rs) pre post hb hi above below =
      elim (Bool-cases (is_greater cmp best r)) [
        | inl keep ↦ rw keep (
            subst (λ l. Chosen l (max_by_from cmp best_idx best (i + 1) rs))
              (regroup_after pre post rs best r)
              (max_by_from-Chosen laws best_idx best (i + 1) rs pre (post ++ r ∷ []) hb
                (omega (
                  arith,
                  length-append pre (best ∷ post),
                  length-append pre (best ∷ (post ++ r ∷ [])),
                  length-append post (r ∷ []),
                ))
                above
                (All-append (Below best) post (r ∷ []) below (is_greater-true best r keep, tt))))
        | inr replace ↦ rw replace (
            subst (λ l. Chosen l (max_by_from cmp i r (i + 1) rs))
              (append_assoc (pre ++ best ∷ post) (r ∷ []) rs)
              (max_by_from-Chosen laws i r (i + 1) rs (pre ++ best ∷ post) [] hi
                (omega (arith, length-append (pre ++ best ∷ post) (r ∷ [])))
                (All-append (NotAbove r) pre (best ∷ post)
                  (All-map (NotAbove best) (NotAbove r)
                    (λ x h.
                      laws.transitive x.priority best.priority r.priority h
                        (is_greater-false best r replace))
                    pre above)
                  (
                    is_greater-false best r replace,
                    All-map (Below best) (NotAbove r)
                        (λ x h.
                          laws.transitive x.priority best.priority r.priority
                            (laws.asymmetric best.priority x.priority h)
                            (is_greater-false best r replace))
                        post below,
                  ))
                tt))
      ]

  -- The request that `dequeue` hands out, and the queue that it leaves.
  pub record Served (rs left : List (QueuedRequest Priority)) (r : QueuedRequest Priority)
      : Type 0 where
    pub before : List (QueuedRequest Priority)
    pub after : List (QueuedRequest Priority)
    pub whole : rs ≡ before ++ r ∷ after
    pub rest : left ≡ before ++ after
    pub none_above : All (NotAbove r) before
    pub all_below : All (Below r) after

  remove_at-Chosen :
      (rs : List (QueuedRequest Priority)) (i : ℕ)
      → Chosen rs i
      → (x : QueuedRequest Priority) × (left : List (QueuedRequest Priority)) × (remove_at i rs
          ≡ some (x, left))
        × Served rs left x
  remove_at-Chosen rs i c = (
    c.choice,
    c.before ++ c.after,
    ap (remove_at i) c.whole
        ∙ ap (λ n. remove_at n (c.before ++ c.choice ∷ c.after)) c.position
        ∙ remove_at-append c.before c.after c.choice,
    record {
      before = c.before;
      after = c.after;
      whole = c.whole;
      rest = refl;
      none_above = c.none_above;
      all_below = c.all_below;
    },
  )

  take_best-Served :
      (laws : IsTotalOrder cmp) (r : QueuedRequest Priority) (rs : List (QueuedRequest Priority))
      → (x : QueuedRequest Priority) × (left : List (QueuedRequest Priority)) × (take_best cmp
            (r ∷ rs)
          ≡ some (x, left))
        × Served (r ∷ rs) left x
  unfolding take_best
  take_best-Served laws r rs =
      remove_at-Chosen (r ∷ rs) (max_by_from cmp 0 r 1 rs)
        (max_by_from-Chosen laws 0 r 1 rs [] [] refl refl tt tt)

  take_best-empty : take_best cmp [] ≡ none
  unfolding take_best
  take_best-empty = refl

  -- The answer of `dequeue`: nothing for a queue without requests, and else a request of greatest
  -- priority, the last of those that have it, with the others left in their order.
  abbrev pub Serves : String → RequestQueue Priority → Type 0
  Serves key q =
      (requests_of key q ≡ []) × (dequeue cmp key q ≡ (none, q))
      ⊎ ((x : QueuedRequest Priority) × (left : List (QueuedRequest Priority)) × (dequeue cmp key q
            ≡ (some x, Dict.insert key left q))
          × Served (requests_of key q) left x)

  serves :
      (laws : IsTotalOrder cmp) (key : String) (q : RequestQueue Priority)
      (rs : List (QueuedRequest Priority))
      → requests_of key q ≡ rs
      → Serves key q
  unfolding dequeue
  serves laws key q [] h = inl (h, rw (h, dequeue, take_best-empty))
  serves laws key q (r ∷ rs) h =
      let (x, left, e, served) = take_best-Served laws r rs in
      inr (x, left, rw (h, dequeue, e), subst (λ l. Served l left x) (sym h) served)

  -- If priorities are totally ordered, `dequeue` finds nothing exactly in a queue without requests;
  -- from any other it takes a request such that none has a greater priority, and each behind it a
  -- smaller one; the rest stays in order, and the queues of other keys as they are.
  pub dequeue-Serves :
      (laws : IsTotalOrder cmp) (key : String) (q : RequestQueue Priority) → Serves key q
  dequeue-Serves laws key q = serves laws key q (requests_of key q) refl
