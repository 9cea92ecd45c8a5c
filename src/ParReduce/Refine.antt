-- ===== src/ParReduce/Refine.antt =====
-- par_reduce.c: what the threads compute is what one pass over the list computes.
use machine_project.Prelude.{
  ℕ, ◌^◌, ◌≤◌, ◌<◌, ◌≡◌, refl, sym, List, [], ◌∷◌, ◌++◌, length, arith, ok, Bool-cases, inl, inr,
  false, ltb, ◌==◌, ◌||◌,
}
use machine_project.ParReduce.{par_reduce_helper, slices, slice_sizes, join_threads, par_reduce}
use machine_project.ParReduce.Slices.{
  All, concat, concat-slices_all, slices-bounds, ceil_div, slice_sizes-EvenCut,
}

module _ {A : Type 0} where
  -- For a list of at least one element and at least one thread, both at most 2^62, the code's sizes
  -- exist, start no more threads than asked for, and give each thread a nonempty slice of at most
  -- `one` elements; the slices in thread order make up the list.
  slices_partition :
      (list : List A) (num_threads : ℕ)
      → 0 < length list
      → length list ≤ 2 ^ 62
      → 0 < num_threads
      → num_threads ≤ 2 ^ 62
      → (one : ℕ) × (two : ℕ) × (slice_sizes (length list) num_threads ≡ ok (one, two))
        × (two ≤ num_threads)
        × (concat (slices one list two 0) ≡ list)
        × All (λ s. (0 < length s) × (length s ≤ one)) (slices one list two 0)
  slices_partition list nt hl hl' hn hn' =
      let s = slice_sizes-EvenCut (length list) nt hl hl' hn hn' in
      let one = ceil_div (length list) nt in
      let two = ceil_div (length list) one in
      (
        one,
        two,
        s.sizes,
        s.threads,
        concat-slices_all one list two hl' (omega (arith, s.within)) (omega (arith, s.tight))
            (omega (arith, s.covers)),
        slices-bounds one list two 0 hl' (omega (arith, s.within)) s.positive
            (omega (arith, s.tight)),
      )

module _ {A : Type 0} (f : A → A → A) (e : A) (f_assoc : (x y z : A) → f (f x y) z ≡ f x (f y z))
    (f_left_id : (x : A) → f e x ≡ x) where
  fold-append :
      (a : A) (xs ys : List A)
      → par_reduce_helper f a (xs ++ ys) ≡ par_reduce_helper f (par_reduce_helper f a xs) ys
  unfolding par_reduce_helper
  fold-append a [] ys = refl
  fold-append a (x ∷ xs) ys = fold-append (f a x) xs ys

  -- A fold from `f a x` is `f a` of the fold from `x`.
  fold_assoc :
      (a x : A) (xs : List A) → par_reduce_helper f (f a x) xs ≡ f a (par_reduce_helper f x xs)
  unfolding par_reduce_helper
  fold_assoc a x [] = refl
  fold_assoc a x (y ∷ ys) = rw (f_assoc a x y) (fold_assoc a (f x y) ys)

  fold_from_id :
      (a : A) (xs : List A)
      → 0 < length xs
      → f a (par_reduce_helper f e xs) ≡ par_reduce_helper f a xs
  unfolding par_reduce_helper
  fold_from_id a [] h = absurd (omega arith)
  fold_from_id a (x ∷ xs) h = rw (f_left_id x) (sym (fold_assoc a x xs))

  join_threads_lem :
      (one : ℕ) (a : A) (ss : List (List A))
      → All (λ s. (0 < length s) × (length s ≤ one)) ss
      → join_threads f e a ss ≡ par_reduce_helper f a (concat ss)
  unfolding join_threads concat
  join_threads_lem one a [] h = unfold par_reduce_helper in refl
  join_threads_lem one a (s ∷ ss) h =
      rw (fold_from_id a s h.0.0, fold-append a s (concat ss))
        (join_threads_lem one (par_reduce_helper f a s) ss h.1)

  module _ (reduce : List A → (A → A → A) → A → A)
      (reduce_lem : (xs : List A) → reduce xs f e ≡ par_reduce_helper f e xs) where
    threaded :
        (list : List A) (num_threads : ℕ)
        → length list ≤ 2 ^ 62
        → num_threads ≤ 2 ^ 62
        → (ltb num_threads 2 || (length list == 0)) ≡ false
        → par_reduce reduce list f e num_threads ≡ ok (reduce list f e)
    unfolding par_reduce
    threaded list nt hl hn many =
        let (one, two, sizes, _, whole, parts) =
          slices_partition list nt (ground arith) hl (ground arith) hn in
        rw (many, sizes, join_threads_lem one e (slices one list two 0) parts, whole, reduce_lem)

    -- If the reducer is associative with `base_case` as a left identity, and `reduce` folds from the
    -- left, then on every list of at most 2^62 elements and every number of threads up to 2^62 the
    -- parallel reduction returns, and returns what `reduce` returns.
    pub par_reduce-eq-reduce :
        (list : List A) (num_threads : ℕ)
        → length list ≤ 2 ^ 62
        → num_threads ≤ 2 ^ 62
        → par_reduce reduce list f e num_threads ≡ ok (reduce list f e)
    unfolding par_reduce
    par_reduce-eq-reduce list nt hl hn = elim (Bool-cases (ltb nt 2 || (length list == 0))) [
      | inl few ↦ rw few
      | inr many ↦ threaded list nt hl hn many
    ]
