-- ===== src/Libdrm.antt =====
-- deadlock_demolition/libdrm.c: mutexes that refuse a lock that would close a cycle in the graph of
-- threads that wait for mutexes and mutexes that threads own. The graphs and sets of the library are
-- parameters, with vertices as numbers (the addresses of the mutexes and of the thread ids). A call
-- holds the mutex `m` in each of its stretches; drm_wait has two, with the lock of its own mutex
-- between them.
pub mod Cycles
pub mod Waits
mod Examples
use machine_project.Prelude.{
  ℕ, zero, suc, ◌≡◌, ◌==◌, Bool, true, false, not, ◌||◌, if◌then◌else◌, List, [], ◌∷◌, Option, none,
  some, Outcome, ok, fault, hang, ◌>>=◌,
}

-- graph.h and set.h. A set is changed in place by set_add and freed by set_destroy; `set_destroy_null`
-- is what set_destroy comes to where it is handed NULL.
pub record GraphLibrary : Type 1 where
  pub Graph : Type 0
  pub shallow_graph_create : Graph
  pub graph_contains_vertex : Graph → ℕ → Bool
  pub graph_add_vertex : Graph → ℕ → Graph
  pub graph_remove_vertex : Graph → ℕ → Graph
  pub graph_adjacent : Graph → ℕ → ℕ → Bool
  pub graph_add_edge : Graph → ℕ → ℕ → Graph
  pub graph_remove_edge : Graph → ℕ → ℕ → Graph
  pub graph_neighbors : Graph → ℕ → List ℕ
  pub Vertices : Type 0
  pub shallow_set_create : Vertices
  pub set_contains : Vertices → ℕ → Bool
  pub set_add : Vertices → ℕ → Vertices
  pub set_destroy_null : Outcome (Unit {0})

-- A new set is empty, and adding an element adds that element only.
pub record IsSetLibrary (l : GraphLibrary) : Type 0 where
  pub contains-create : (a : ℕ) → l.set_contains l.shallow_set_create a ≡ false
  pub contains-add :
      (s : l.Vertices) (a b : ℕ) → l.set_contains (l.set_add s a) b ≡ (a == b || l.set_contains s b)

-- The static variables, whether `m` is locked, and which of the mutexes are.
pub record Drm (l : GraphLibrary) : Type 0 where
  pub g : Option l.Graph
  pub set_ : Option l.Vertices
  pub m_locked : Bool
  pub locked : ℕ → Bool

module _ (l : GraphLibrary) where
  abbrev pub Search : Type 0
  Search = Option l.Vertices → ℕ → Outcome (Bool × Option l.Vertices)

  unfoldable pub the_set : Option l.Vertices → l.Vertices
  the_set none = l.shallow_set_create
  the_set (some s) = s

  -- The loop over the neighbours and the set_destroy behind it, which is handed NULL where a call below
  -- has freed the set.
  unfoldable pub search : Search → List ℕ → Option l.Vertices → Outcome (Bool × Option l.Vertices)
  search next [] none = l.set_destroy_null >>= λ _. ok (false, none)
  search next [] (some s) = ok (false, none)
  search next (w ∷ ws) s = do
    r ← next s w
    (let rest = search next ws r.1 in if r.0 then ok (true, r.1) else rest)

  -- The calls of the recursion are bounded by the first argument.
  unfoldable pub is_cycle : ℕ → l.Graph → Search
  unfolding the_set search
  is_cycle zero g s thread_id = hang
  is_cycle (suc calls) g s thread_id =
      if l.set_contains (the_set s) thread_id
      then ok (true, none)
      else search (is_cycle calls g) (l.graph_neighbors g thread_id)
          (some (l.set_add (the_set s) thread_id))

  -- pthread_mutex_lock(&m)
  unfoldable pub lock_m : Drm l → Outcome (Drm l)
  lock_m d = if d.m_locked then hang else ok (record d { m_locked = true })

  -- The graph that a call hands to the library, which takes no NULL.
  unfoldable pub the_graph : Option l.Graph → Outcome l.Graph
  the_graph none = fault
  the_graph (some g) = ok g

  unfoldable pub set_locked : ℕ → Bool → (ℕ → Bool) → ℕ → Bool
  set_locked drm state locked a = if a == drm then state else locked a

  unfoldable pub graph_or_new : Option l.Graph → l.Graph
  graph_or_new none = l.shallow_graph_create
  graph_or_new (some g) = g

  -- What malloc returns, and what drm_init does with it.
  unfoldable pub enter_drm : Option ℕ → Drm l → Option ℕ × Drm l
  enter_drm none d = (none, record d { g = some (graph_or_new d.g) })
  enter_drm (some drm) d = (
    some drm,
    record d {
      g = some (l.graph_add_vertex (graph_or_new d.g) drm);
      locked = set_locked drm false d.locked;
      m_locked = false;
    },
  )

  unfoldable pub drm_init : Option ℕ → Drm l → Outcome (Option ℕ × Drm l)
  drm_init malloc d = do d ← lock_m d; ok (enter_drm malloc d)

  unfoldable pub drm_post : ℕ → ℕ → Drm l → Outcome (ℕ × Drm l)
  drm_post drm thread_id d = do
    d ← lock_m d
    g ← the_graph d.g
    (if not (l.graph_contains_vertex g drm)
        then ok (0, record d { m_locked = false })
        else if not (l.graph_contains_vertex g thread_id)
        then ok (0, record d { m_locked = false })
        else if not (l.graph_adjacent g drm thread_id)
        then ok (0, record d { m_locked = false })
        else ok (
          1,
          record d {
            g = some (l.graph_remove_edge g drm thread_id);
            locked = set_locked drm false d.locked;
            m_locked = false;
          },
        ))

  -- The graph with the vertex of the thread.
  unfoldable pub with_thread : ℕ → l.Graph → l.Graph
  with_thread thread_id g =
      if l.graph_contains_vertex g thread_id then g else l.graph_add_vertex g thread_id

  -- drm_wait behind the cycle search.
  unfoldable pub decide : ℕ → ℕ → l.Graph → Drm l → Bool × Option l.Vertices → Bool × Drm l
  decide drm thread_id g d (true, s) = (
    false,
    record d { g = some (l.graph_remove_edge g thread_id drm); set_ = s; m_locked = false },
  )
  decide drm thread_id g d (false, s) = (true, record d { g = some g; set_ = s; m_locked = false })

  -- drm_wait up to the lock of its mutex: whether it goes on, or returns 0.
  unfoldable pub drm_wait_ask : ℕ → ℕ → ℕ → Drm l → Outcome (Bool × Drm l)
  drm_wait_ask calls drm thread_id d = do
    d ← lock_m d
    g ← the_graph d.g
    (let known = with_thread thread_id g in
        let asked = l.graph_add_edge known thread_id drm in
        if l.graph_adjacent known drm thread_id
        then ok (false, record d { g = some known; m_locked = false })
        else is_cycle calls asked d.set_ thread_id >>= λ r. ok (decide drm thread_id asked d r))

  -- drm_wait from the lock of its mutex on, which blocks while the mutex is locked. It returns 1.
  unfoldable pub drm_wait_take : ℕ → ℕ → Drm l → Outcome (Drm l)
  drm_wait_take drm thread_id d =
      let locked = set_locked drm true d.locked in
      if d.locked drm
      then hang
      else lock_m (record d { locked = locked }) >>= λ d. the_graph d.g >>= λ g. ok (record d {
        g = some (l.graph_add_edge (l.graph_remove_edge g thread_id drm) drm thread_id);
        m_locked = false;
      })

  -- `none` is NULL. `m` is not locked.
  unfoldable pub drm_destroy : Option ℕ → Drm l → Outcome (Drm l)
  drm_destroy none d = ok d
  drm_destroy (some drm) d = do
    g ← the_graph d.g
    (if l.graph_contains_vertex g drm
        then ok (record d { g = some (l.graph_remove_vertex g drm) })
        else ok d)
