-- ===== src/Libdrm/Examples.antt =====
-- A graph of a mutex that thread 2 owns and for which thread 0 asks, and the theorems about it.
use machine_project.Prelude.{
  ℕ, ◌-◌, ◌<◌, ◌≡◌, refl, ◌==◌, ◌||◌, Bool, true, false, if◌then◌else◌, Bool-cases, inl, inr, List,
  [], ◌∷◌, Option, none, some, Outcome, ok, ◌>>=◌, arith,
}
use machine_project.Libdrm.{
  GraphLibrary, IsSetLibrary, Drm, the_set, search, is_cycle, lock_m, the_graph, with_thread,
  enter_drm, graph_or_new, drm_init, drm_post, drm_wait_ask, drm_destroy,
}
use machine_project.Libdrm.Cycles.{from_option, IsFound, is_cycle_finds}
use machine_project.Libdrm.Waits.{IsDecided, drm_wait_refuses}

abbrev without : ℕ → List ℕ → List ℕ
without a [] = []
without a (b ∷ bs) = let rest = without a bs in if a == b then rest else b ∷ rest

abbrev has : ℕ → List ℕ → Bool
has a [] = false
has a (b ∷ bs) = b == a || has a bs

abbrev edges_of : List ℕ × (ℕ → List ℕ) → ℕ → List ℕ
edges_of (vertices, edges) v = edges v

-- The vertices and the neighbours of each.
abbrev lists : GraphLibrary
lists = record {
  Graph = List ℕ × (ℕ → List ℕ);
  shallow_graph_create = ([], λ v. []);
  graph_contains_vertex = λ g v. has v g.0;
  graph_add_vertex = λ g v. (v ∷ g.0, g.1);
  graph_remove_vertex = λ g v. (without v g.0, g.1);
  graph_adjacent = λ g a b. has b (g.1 a);
  graph_add_edge = λ g a b. (g.0, λ v. if v == a then b ∷ g.1 v else g.1 v);
  graph_remove_edge = λ g a b. (g.0, λ v. if v == a then without b (g.1 v) else g.1 v);
  graph_neighbors = edges_of;
  Vertices = List ℕ;
  shallow_set_create = [];
  set_contains = λ s a. has a s;
  set_add = λ s a. a ∷ s;
  set_destroy_null = ok tt;
}

lists-IsSetLibrary : IsSetLibrary lists
lists-IsSetLibrary = record { contains-create = λ a. refl; contains-add = λ s a b. refl }

abbrev owner_edges : ℕ → List ℕ
owner_edges v = if v == 1 then 2 ∷ [] else []

abbrev owned_by_two : List ℕ × (ℕ → List ℕ)
owned_by_two = (0 ∷ 1 ∷ 2 ∷ [], owner_edges)

abbrev asked_by_zero : List ℕ × (ℕ → List ℕ)
asked_by_zero = (0 ∷ 1 ∷ 2 ∷ [], λ v. if v == 0 then 1 ∷ owner_edges v else owner_edges v)

abbrev next_of : ℕ → Option ℕ
next_of v = if v == 0 then some 1 else if v == 1 then some 2 else none

abbrev two_owns : Drm lists
two_owns = record { g = some owned_by_two; set_ = none; m_locked = false; locked = λ a. a == 1 }

next_of-edges : (v : ℕ) → edges_of asked_by_zero v ≡ from_option (next_of v)
unfolding from_option
next_of-edges v = elim (Bool-cases (v == 0)) [
  | inl e ↦ let other : (v == 1) ≡ false = ground arith in rw (e, other) refl
  | inr e ↦ elim (Bool-cases (v == 1)) [ inl e' ↦ rw (e, e') refl | inr e' ↦ rw (e, e') refl ]
]

next_of-below : (v w : ℕ) → next_of v ≡ some w → w < 3
next_of-below v w h = ground arith

is_cycle_finds_example : IsFound lists next_of 0 (is_cycle lists 4 asked_by_zero none 0)
is_cycle_finds_example =
    is_cycle_finds lists-IsSetLibrary asked_by_zero next_of 3 next_of-edges next_of-below 4 0
      (omega arith) (omega arith)

drm_wait_refuses_example :
    IsDecided lists next_of 1 0
      (lists.graph_add_edge (with_thread lists 0 owned_by_two) 0 1)
      two_owns
      (drm_wait_ask lists 4 1 0 two_owns)
unfolding with_thread
drm_wait_refuses_example =
    drm_wait_refuses lists-IsSetLibrary next_of 3 4 1 0 two_owns owned_by_two next_of-edges
      next_of-below refl refl refl refl (omega arith) (omega arith)

-- Thread 0 owns mutex 1 and asks for mutex 3, which thread 2 owns, which waits for mutex 1.
abbrev ring : List ℕ × (ℕ → List ℕ)
ring = (0 ∷ 1 ∷ 2 ∷ 3 ∷ [], λ v. if v == 0 then 3 ∷ [] else if v == 3 then 2 ∷ [] else (v - 1) ∷ [])

ring_cycle : is_cycle lists 5 ring none 0 ≡ ok (true, none)
unfolding is_cycle search the_set
ring_cycle = refl

-- The first neighbour of 0 leads nowhere, and the set is lost with it: the edge back to 0 is followed
-- again and again.
abbrev lost : List ℕ × (ℕ → List ℕ)
lost = (0 ∷ 1 ∷ 2 ∷ [], λ v. if v == 0 then 1 ∷ 2 ∷ [] else if v == 2 then 0 ∷ [] else [])

lost_search : is_cycle lists 20 lost none 0 ≡ Outcome.hang
unfolding is_cycle search the_set
lost_search = refl

-- When malloc fails, `m` stays locked.
init_fails : drm_init lists none two_owns >>= (λ r. drm_post lists 1 2 r.1) ≡ Outcome.hang
unfolding drm_init drm_post lock_m enter_drm graph_or_new
init_fails = refl

destroyed : (after : Drm lists) × (drm_destroy lists (some 1) two_owns ≡ ok after)
unfolding drm_destroy the_graph
destroyed = (_, refl)
