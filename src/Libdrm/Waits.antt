-- ===== src/Libdrm/Waits.antt =====
-- libdrm.c: which calls of drm_wait are refused, and what the others come to.
use machine_project.Prelude.{
  ℕ, suc, ◌<◌, ◌≡◌, refl, Bool, true, false, Option, none, some, ◌⊎◌, inl, inr, Outcome, ok, fault,
  hang, abort, ◌>>=◌,
}
use machine_project.Libdrm.{
  GraphLibrary, IsSetLibrary, Drm, is_cycle, lock_m, the_graph, with_thread, decide, drm_wait_ask,
}
use machine_project.Libdrm.Cycles.{from_option, EndsAfter, IsFound, is_cycle_finds}

-- What drm_wait makes of the graph with the new edge, in which `next` has the edges: it returns 0 and
-- takes the edge away, or goes on with it, where the walk has an edge only if set_destroy returns
-- with NULL; `m` is not locked and there is no set.
unfoldable pub IsDecided :
    (l : GraphLibrary) → (ℕ → Option ℕ) → ℕ → ℕ → l.Graph → Drm l → Outcome (Bool × Drm l) → Type 0
IsDecided l next drm thread_id asked d run =
    (run
        ≡ ok (
          false,
          record d {
            g = some (l.graph_remove_edge asked thread_id drm);
            set_ = none;
            m_locked = false;
          },
        ))
      × ((k : ℕ) → ¬ EndsAfter next k thread_id)
    ⊎ (run ≡ ok (true, record d { g = some asked; set_ = none; m_locked = false }))
      × EndsAfter next 0 thread_id
    ⊎ (run ≡ (
        l.set_destroy_null >>= λ _.
        ok (true, record d { g = some asked; set_ = none; m_locked = false })))
      × ((k : ℕ) × EndsAfter next (suc k) thread_id)

after_destroy :
    {A B : Type 0} (m : Outcome (Unit {0})) (a : A) (f : A → B)
    → ((m >>= λ _. ok a) >>= λ r. ok (f r)) ≡ (m >>= λ _. ok (f a))
after_destroy (ok u) a f = refl
after_destroy fault a f = refl
after_destroy hang a f = refl
after_destroy abort a f = refl

module _ {l : GraphLibrary} where
  decide-IsFound :
      (next : ℕ → Option ℕ) (drm thread_id : ℕ) (asked : l.Graph) (d : Drm l)
      (run : Outcome (Bool × Option l.Vertices))
      → IsFound l next thread_id run
      → IsDecided l next drm thread_id asked d
          (run >>= λ r. ok (decide l drm thread_id asked (record d { m_locked = true }) r))
  unfolding IsFound IsDecided decide
  decide-IsFound next drm thread_id asked d run (inl (e, endless)) = rw e (inl (refl, endless))
  decide-IsFound next drm thread_id asked d run (inr (inl (e, ends))) =
      rw e (inr (inl (refl, ends)))
  decide-IsFound next drm thread_id asked d run (inr (inr (e, ends))) =
      rw e (inr (inr (after_destroy l.set_destroy_null (false, none) _, ends)))

  -- With `m` not locked and no set, let the thread not own the mutex, and let the graph with the edge
  -- from the thread to the mutex have at most one edge out of each vertex, to vertices below `n`.
  -- With more than `n` calls for the search, drm_wait returns 0 without the edge if the walk from the
  -- thread has no end, which is a cycle. If the walk ends, drm_wait goes on with the edge; but if the
  -- walk has an edge, it does so only where set_destroy returns with NULL, and comes to what that comes
  -- to otherwise.
  pub drm_wait_refuses :
      (laws : IsSetLibrary l) (next : ℕ → Option ℕ) (n calls drm thread_id : ℕ) (d : Drm l)
      (g : l.Graph)
      (edges : (v : ℕ)
        → l.graph_neighbors (l.graph_add_edge (with_thread l thread_id g) thread_id drm) v
          ≡ from_option (next v))
      → ((v w : ℕ) → next v ≡ some w → w < n)
      → d.m_locked ≡ false
      → d.g ≡ some g
      → d.set_ ≡ none
      → l.graph_adjacent (with_thread l thread_id g) drm thread_id ≡ false
      → n < calls
      → thread_id < n
      → IsDecided l next drm thread_id
          (l.graph_add_edge (with_thread l thread_id g) thread_id drm)
          d
          (drm_wait_ask l calls drm thread_id d)
  unfolding drm_wait_ask lock_m the_graph decide IsDecided
  drm_wait_refuses laws next n calls drm thread_id d g edges below unlocked at clear free enough
        low =
      let asked = l.graph_add_edge (with_thread l thread_id g) thread_id drm in
      let found = is_cycle_finds laws asked next n edges below calls thread_id enough low in
      rw (unlocked, at, free, clear)
        (decide-IsFound next drm thread_id asked d (is_cycle l calls asked none thread_id) found)
