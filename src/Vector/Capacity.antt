-- ===== src/Vector/Capacity.antt =====
-- vector.c: `get_new_capacity`, the growth of the array.
use mathlib.Core.Path.{subst}
use native.Mathlib.Nat.{pow-suc, pow-le-pow_right}
use native.Mathlib.Numerals.{add-one}
use native.Mathlib.Decide.{dec_lt}
use machine_project.Prelude.{
  ℕ, zero, suc, ◌+◌, ◌*◌, ◌%◌, ◌^◌, ◌≤◌, ◌<◌, ◌≡◌, refl, ltb, if◌then◌else◌, Outcome, ok, hang,
  arith, ltb→lt, lt→ltb, ltb→le, Bool-cases, inl, inr,
}

abbrev pub initial_capacity : ℕ
initial_capacity = 8

abbrev pub growth_factor : ℕ
growth_factor = 2

-- The loop, for `fuel` rounds; the multiplication wraps as on `size_t`.
unfoldable pub grow : ℕ → ℕ → ℕ → Outcome ℕ
grow zero new_capacity target = hang
grow (suc fuel) new_capacity target =
    let rest = grow fuel (new_capacity * growth_factor % 2 ^ 64) target in
    if ltb new_capacity target then rest else ok new_capacity

-- 64 rounds reach 2 ^ 63, the largest power that `size_t` holds.
unfoldable pub get_new_capacity : ℕ → Outcome ℕ
unfolding grow
get_new_capacity target = grow 64 1 target

double_power : (k : ℕ) → k < 63 → 2 ^ k * growth_factor % 2 ^ 64 ≡ 2 ^ (k + 1)
double_power k h =
    let e : 2 ^ (k + 1) ≡ 2 ^ k * 2 = simp add-one (pow-suc 2 k) in
    let small : 2 ^ (k + 1) ≤ 2 ^ 63 =
      pow-le-pow_right {n = 2} (omega arith) {i = k + 1} {j = 63} (omega arith) in
    rw e (omega arith)

-- The test at the last power can only succeed.
room_to_double : (k target : ℕ) → k ≤ 63 → target ≤ 2 ^ 63 → 2 ^ k < target → k < 63
room_to_double k target hk ht h = elim (dec_lt k 63) [
  | yes p ↦ p
  | no p ↦ let e : k ≡ 63 = omega arith in absurd (omega (arith, subst (λ j. 2 ^ j < target) e h))
]

record Least (k target j : ℕ) : Type 0 where
  above : k ≤ j
  in_word : j ≤ 63
  reaches : target ≤ 2 ^ j
  least : (i : ℕ) → k ≤ i → target ≤ 2 ^ i → j ≤ i

grow-Least :
    (fuel k target : ℕ)
    → fuel + k ≡ 64
    → k ≤ 63
    → target ≤ 2 ^ 63
    → (j : ℕ) × (grow fuel (2 ^ k) target ≡ ok (2 ^ j)) × Least k target j
unfolding grow
grow-Least zero k target e hk h = absurd (omega arith)
grow-Least (suc fuel) k target e hk h = elim (Bool-cases (ltb (2 ^ k) target)) [
  | inl below ↦
      let small = room_to_double k target hk h (ltb→lt _ _ below) in
      let (j, runs, l) = grow-Least fuel (k + 1) target (omega arith) (omega arith) h in
      (
        j,
        rw (below, double_power k small, runs),
        record {
          above = omega (arith, l.above);
          in_word = l.in_word;
          reaches = l.reaches;
          least = λ i hi t.
              l.least i
                (elim (dec_lt k i) [
                  | yes p ↦ omega arith
                  | no p ↦
                      let ki : i ≡ k = omega arith in
                      absurd (omega (arith, ltb→lt _ _ below, subst (λ n. target ≤ 2 ^ n) ki t))
                ])
                t;
        },
      )
  | inr reached ↦ (
    k,
    rw reached,
    record {
      above = omega arith;
      in_word = hk;
      reaches = ltb→le _ _ reached;
      least = λ i hi t. hi;
    },
  )
]

-- For every target up to 2 ^ 63 the loop ends within its rounds, and returns the least power of two
-- that is at least the target.
pub get_new_capacity_least :
    (target : ℕ)
    → target ≤ 2 ^ 63
    → (j : ℕ) × (get_new_capacity target ≡ ok (2 ^ j))
      × (target ≤ 2 ^ j)
      × ((i : ℕ) → target ≤ 2 ^ i → j ≤ i)
unfolding get_new_capacity
get_new_capacity_least target h =
    let (j, runs, l) = grow-Least 64 0 target (omega arith) (omega arith) h in
    (j, runs, l.reaches, λ i t. l.least i (omega arith) t)

grow_zero_hangs : (fuel target : ℕ) → 0 < target → grow fuel 0 target ≡ hang
unfolding grow
grow_zero_hangs zero target h = refl
grow_zero_hangs (suc fuel) target h = rw (lt→ltb 0 target h) (grow_zero_hangs fuel target h)

grow_power_hangs : (fuel k target : ℕ) → k ≤ 63 → 2 ^ 63 < target → grow fuel (2 ^ k) target ≡ hang
unfolding grow
grow_power_hangs zero k target hk h = refl
grow_power_hangs (suc fuel) k target hk h =
    let small : 2 ^ k ≤ 2 ^ 63 = pow-le-pow_right {n = 2} (omega arith) {i = k} {j = 63} hk in
    rw (lt→ltb (2 ^ k) target (omega arith)) (elim (dec_lt k 63) [
      | yes p ↦ rw (double_power k p) (grow_power_hangs fuel (k + 1) target (omega arith) h)
      | no p ↦
          let e : k ≡ 63 = omega arith in
          let wraps : 2 ^ k * growth_factor % 2 ^ 64 ≡ 0 = rw e in
          rw wraps (grow_zero_hangs fuel target (omega arith))
    ])

-- For every target past 2 ^ 63 the loop goes on for ever: no number of rounds ends it.
grow_hangs : (fuel target : ℕ) → 2 ^ 63 < target → grow fuel 1 target ≡ hang
grow_hangs fuel target h = grow_power_hangs fuel 0 target (omega arith) h
