-- ===== src/Parmake/Order.antt =====
-- parallel_make/parmake.c: the order of the rules.
use machine_project.Prelude.{
  ℕ, zero, suc, ◌<◌, ◌==◌, ◌≡◌, refl, true, false, List, [], ◌∷◌, ◌++◌, Outcome, ok, Bool-cases,
  inl, inr, arith,
}
use machine_project.Parmake.{is_member, add_rule, help_get_rules}

-- All that is in the first list is in the second.
abbrev pub Within : List ℕ → List ℕ → Type 0
Within xs ys = (g : ℕ) → is_member g xs ≡ true → is_member g ys ≡ true

is_member-push : (g x : ℕ) (xs : List ℕ) → is_member g xs ≡ true → is_member g (xs ++ x ∷ []) ≡ true
unfolding is_member
is_member-push g x [] h = absurd (ground arith)
is_member-push g x (y ∷ xs) h = ground (arith, is_member-push g x xs, h)

is_member-last : (g : ℕ) (xs : List ℕ) → is_member g (xs ++ g ∷ []) ≡ true
unfolding is_member
is_member-last g [] = ground arith
is_member-last g (y ∷ xs) = ground (arith, is_member-last g xs)

module _ (neighbors : ℕ → List ℕ) where
  -- Each rule stands once in the list, and what it depends on stands in front of it.
  pub data Ordered : List ℕ → Type 0 where
    nothing : Ordered []
    next :
        (rules : List ℕ) (goal : ℕ)
        → Ordered rules
        → is_member goal rules ≡ false
        → Within (neighbors goal) rules
        → Ordered (rules ++ goal ∷ [])

  pub Visited : List ℕ → List ℕ → Outcome (List ℕ) → Type 0
  Visited goals rules run =
      (later : List ℕ) × (run ≡ ok later) × Ordered later × Within goals later × Within rules later

  add_rule-Ordered :
      (goal : ℕ) (rules : List ℕ)
      → Ordered rules
      → Within (neighbors goal) rules
      → Ordered (add_rule goal rules)
        × (is_member goal (add_rule goal rules) ≡ true)
        × Within rules (add_rule goal rules)
  unfolding add_rule
  add_rule-Ordered goal rules o w = elim (Bool-cases (is_member goal rules)) [
    | inl e ↦ rw e (o, e, λ g h. h)
    | inr e ↦
        rw e
          (next rules goal o e w, is_member-last goal rules, λ g h. is_member-push g goal rules h)
  ]

  Within-cons :
      (goal : ℕ) (goals rules : List ℕ)
      → is_member goal rules ≡ true
      → Within goals rules
      → Within (goal ∷ goals) rules
  unfolding is_member
  Within-cons goal goals rules here w = λ g h. elim (Bool-cases (goal == g)) [
    | inl e ↦ ground (arith, e, here)
    | inr e ↦ w g (ground (arith, e, h))
  ]

  help_get_rules_lem :
      (rank : ℕ → ℕ)
      → ((g d : ℕ) → is_member d (neighbors g) ≡ true → rank d < rank g)
      → (depth : ℕ) (goals rules : List ℕ) → ((g : ℕ) → is_member g goals ≡ true → rank g < depth)
      → Ordered rules
      → Visited goals rules (help_get_rules neighbors depth goals rules)
  unfolding help_get_rules is_member Visited
  help_get_rules_lem rank falls depth [] rules deep o =
      (rules, refl, o, (λ g h. absurd (ground arith)), λ g h. h)
  help_get_rules_lem rank falls zero (goal ∷ goals) rules deep o =
      let low : rank goal < 0 = deep goal (ground arith) in absurd (omega arith)
  help_get_rules_lem rank falls (suc depth) (goal ∷ goals) rules deep o =
      let low : rank goal < suc depth = deep goal (ground arith) in
      let (inner, runs, o1, w1, k1) =
        help_get_rules_lem rank falls depth (neighbors goal) rules
          (λ d h. (let less = falls goal d h in omega arith)) o in
      let (o2, here, k2) = add_rule-Ordered goal inner o1 w1 in
      let (later, rest, o3, w3, k3) =
        help_get_rules_lem rank falls (suc depth) goals (add_rule goal inner)
          (λ g h. deep g (ground (arith, h))) o2 in
      (
        later,
        rw runs rest,
        o3,
        Within-cons goal goals later (k3 goal here) w3,
        λ g h. k3 g (k2 g (k1 g h)),
      )

  -- Where the goals have no cycle, as a rank shows that is lower for what a goal depends on, and `depth`
  -- is above the ranks of the goals that are asked for: help_get_rules ends, and its list of the rules has
  -- all these goals, each rule once, and in front of each rule all that it depends on.
  pub help_get_rules_orders :
      (rank : ℕ → ℕ) (depth : ℕ) (goals : List ℕ)
      → ((g d : ℕ) → is_member d (neighbors g) ≡ true → rank d < rank g)
      → ((g : ℕ) → is_member g goals ≡ true → rank g < depth)
      → (rules : List ℕ) × (help_get_rules neighbors depth goals [] ≡ ok rules)
        × Ordered rules
        × Within goals rules
  unfolding Visited
  help_get_rules_orders rank depth goals falls deep =
      let (rules, runs, o, w, k) = help_get_rules_lem rank falls depth goals [] deep nothing in
      (rules, runs, o, w)
