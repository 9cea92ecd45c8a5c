-- ===== src/ParReduce/Slices.antt =====
-- par_reduce.c: the slices that the threads get.
use machine_project.Prelude.{
  ℕ, zero, suc, ◌+◌, ◌-◌, ◌*◌, ◌/◌, ◌%◌, ◌^◌, ◌≤◌, ◌<◌, ◌≡◌, refl, ap, sym, ◌∙◌, List, [], ◌∷◌,
  ◌++◌, length, take, drop, take-append-drop, length-take, length-drop, drop-drop, drop_all, min,
  arith, ok,
}
use machine_project.ParReduce.{slice, slices, slice_sizes, add_pred, div_size}

-- Every list of the outer list satisfies `P`.
abbrev pub All : {A : Type 0} → (A → Type 0) → List A → Type 0
All P [] = Unit
All P (x ∷ xs) = P x × All P xs

unfoldable pub concat : {A : Type 0} → List (List A) → List A
concat [] = []
concat (x ∷ xs) = x ++ concat xs

module _ {A : Type 0} where
  take-eq_of_min :
      (n m : ℕ) (xs : List A) → min n (length xs) ≡ min m (length xs) → take n xs ≡ take m xs
  take-eq_of_min zero zero xs h = refl
  take-eq_of_min zero (suc m) [] h = refl
  take-eq_of_min zero (suc m) (x ∷ xs) h = absurd (omega arith)
  take-eq_of_min (suc n) zero [] h = refl
  take-eq_of_min (suc n) zero (x ∷ xs) h = absurd (omega arith)
  take-eq_of_min (suc n) (suc m) [] h = refl
  take-eq_of_min (suc n) (suc m) (x ∷ xs) h = ap (◌∷◌ x) (take-eq_of_min n m xs (omega arith))

  -- Where nothing wraps, slice `i` is the `one` elements after the first `i * one`.
  slice-eq-take :
      (one : ℕ) (list : List A) (i : ℕ)
      → length list ≤ 2 ^ 62
      → one ≤ 2 ^ 62
      → i * one < length list
      → slice one list i ≡ take one (drop (i * one) list)
  unfolding slice
  slice-eq-take one list i hl ho hi =
      let e : i * one % 2 ^ 64 ≡ i * one = omega arith in
      rw e (take-eq_of_min _ one (drop (i * one) list) (ground (arith, length-drop (i * one) list)))

  -- The slices from `i` on are together what is left of the list.
  concat-slices :
      (one : ℕ) (list : List A) (n i : ℕ)
      → length list ≤ 2 ^ 62
      → one ≤ 2 ^ 62
      → (n + i) * one < length list + one
      → length list ≤ (n + i) * one
      → concat (slices one list n i) ≡ drop (i * one) list
  unfolding concat slices
  concat-slices one list zero i hl ho h k = sym (drop_all (i * one) list (omega arith))
  concat-slices one list (suc n) i hl ho h k =
      let e : (i + 1) * one ≡ i * one + one = omega arith in
      rw
        (
          slice-eq-take one list i hl ho (grind arith),
          concat-slices one list n (i + 1) hl ho (grind arith) (grind arith),
          e,
          ← drop-drop (i * one) one list,
        )
        (take-append-drop one (drop (i * one) list))

  pub concat-slices_all :
      (one : ℕ) (list : List A) (n : ℕ)
      → length list ≤ 2 ^ 62
      → one ≤ 2 ^ 62
      → n * one < length list + one
      → length list ≤ n * one
      → concat (slices one list n 0) ≡ list
  concat-slices_all one list n hl ho h k =
      concat-slices one list n 0 hl ho (omega arith) (omega arith)
      ∙ ap (λ m. drop m list) {x = 0 * one} {y = 0} (omega arith)

  -- Every slice has an element, and at most `one`.
  pub slices-bounds :
      (one : ℕ) (list : List A) (n i : ℕ)
      → length list ≤ 2 ^ 62
      → one ≤ 2 ^ 62
      → 0 < one
      → (n + i) * one < length list + one
      → All (λ s. (0 < length s) × (length s ≤ one)) (slices one list n i)
  unfolding slices
  slices-bounds one list zero i hl ho p h = tt
  slices-bounds one list (suc n) i hl ho p h =
      let here : i * one < length list = grind arith in
      (
        rw (slice-eq-take one list i hl ho here)
            (omega (arith, length-take one (drop (i * one) list), length-drop (i * one) list)),
        slices-bounds one list n (i + 1) hl ho p (grind arith),
      )

abbrev pub ceil_div : ℕ → ℕ → ℕ
ceil_div a d = (a + d - 1) / d

ceil_div_bounds : (a d : ℕ) → 0 < d → (a ≤ ceil_div a d * d) × (ceil_div a d * d < a + d)
ceil_div_bounds a d h = (grind arith, grind arith)

mul_cancel : (a b d : ℕ) → a * d < b * d + d → a ≤ b
mul_cancel a b d h = grind arith

add_pred_lem : (a b : ℕ) → 0 < a + b → a + b ≤ 2 ^ 63 → add_pred a b ≡ a + b - 1
add_pred_lem a b h k = omega arith

div_size_lem : (a b : ℕ) → 0 < b → div_size a b ≡ ok (a / b)
div_size_lem a b h = ground arith

-- What the two divisions come to: enough threads and no more than asked for.
pub record EvenCut (len nt one two : ℕ) : Type 0 where
  pub sizes : slice_sizes len nt ≡ ok (one, two)
  pub positive : 0 < one
  pub within : one ≤ len
  pub threads : two ≤ nt
  pub covers : len ≤ two * one
  pub tight : two * one < len + one

module _ (len nt : ℕ) (hl : 0 < len) (hl' : len ≤ 2 ^ 62) (hn : 0 < nt) (hn' : nt ≤ 2 ^ 62) where
  one_bounds : (0 < ceil_div len nt) × (ceil_div len nt ≤ len)
  one_bounds =
      let b = ceil_div_bounds len nt hn in
      (grind arith, mul_cancel (ceil_div len nt) len nt (grind arith))

  pub slice_sizes-EvenCut : EvenCut len nt (ceil_div len nt) (ceil_div len (ceil_div len nt))
  unfolding slice_sizes
  slice_sizes-EvenCut =
      let p = one_bounds in
      let b = ceil_div_bounds len nt hn in
      let c = ceil_div_bounds len (ceil_div len nt) p.0 in
      record {
        sizes = rw (
          add_pred_lem len nt (omega arith) (omega arith),
          div_size_lem (len + nt - 1) nt hn,
          add_pred_lem len (ceil_div len nt) (omega arith) (omega arith),
          div_size_lem (len + ceil_div len nt - 1) (ceil_div len nt) p.0,
        );
        positive = p.0;
        within = p.1;
        threads = mul_cancel (ceil_div len (ceil_div len nt)) nt (ceil_div len nt) (omega arith);
        covers = c.0;
        tight = c.1;
      }
