-- ===== src/Parmake/Examples.antt =====
-- parallel_make/parmake.c: runs, and the theorem at a concrete graph.
use machine_project.Prelude.{
  ℕ, ◌<◌, ◌==◌, ◌≡◌, refl, if◌then◌else◌, true, false, List, [], ◌∷◌, ok, hang, arith,
}
use machine_project.Parmake.{
  target_cycle, target_ready, is_member, add_rule, help_get_rules, first_open, get_status,
}
use machine_project.Parmake.Order.{Ordered, Within, help_get_rules_orders}

-- 3 depends on 1 and 2, and 2 on 1.
abbrev graph : ℕ → List ℕ
graph g = if g == 3 then 1 ∷ 2 ∷ [] else if g == 2 then 1 ∷ [] else []

rules_of_three : help_get_rules graph 4 (3 ∷ []) [] ≡ ok (1 ∷ 2 ∷ 3 ∷ [])
unfolding help_get_rules add_rule is_member
rules_of_three = refl

graph_falls : (g d : ℕ) → is_member d (graph g) ≡ true → d < g
unfolding is_member
graph_falls g d h = ground arith

three_below : (g : ℕ) → is_member g (3 ∷ []) ≡ true → g < 4
unfolding is_member
three_below g h = ground arith

help_get_rules_orders_example :
    (rules : List ℕ) × (help_get_rules graph 4 (3 ∷ []) [] ≡ ok rules)
    × Ordered graph rules
    × Within (3 ∷ []) rules
help_get_rules_orders_example =
    help_get_rules_orders graph (λ g. g) 4 (3 ∷ []) graph_falls three_below

cycle : help_get_rules (λ g. g ∷ []) 5 (1 ∷ []) [] ≡ hang
unfolding help_get_rules
cycle = refl

-- Of two neighbours the first was skipped, which leaves it ready, and the second was not yet made: the
-- goal is taken to be ready.
ready_too_early : get_status false true (target_ready ∷ target_cycle ∷ []) ≡ target_ready
unfolding get_status first_open
ready_too_early = refl
