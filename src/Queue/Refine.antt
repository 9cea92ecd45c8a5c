-- ===== src/Queue/Refine.antt =====
-- queue.c: each operation on a queue that holds a list does to the list what a queue promises.
use machine_project.Prelude.{
  ℕ, suc, ◌≡◌, refl, sym, ◌==◌, Bool-cases, Bool, true, false, List, [], ◌∷◌, ◌++◌, length-append,
  Option, none, some, inl, inr, Outcome, ok, arith,
}
use mathlib.Core.Path.{subst}
use machine_project.Queue.{
  Queue, store, load, is_full, set_tail, link_node, queue_push, tail_after, pull_node, queue_pull,
}
use machine_project.Queue.Chain.{
  Links, IsChain, IsQueue, store-same, store-other, Links-low, Links-raise, Links-frame, Links-last,
  Links-push,
}

-- What pushing `x` on a queue that is `full` or not, and that holds `xs`, comes to.
unfoldable pub IsPushed : Queue → List ℕ → ℕ → Bool → Outcome (Option Queue) → Type 0
IsPushed q xs x true run = run ≡ ok none
IsPushed q xs x false run =
    (q' : Queue) × (run ≡ ok (some q')) × IsQueue q' (xs ++ x ∷ []) × (q'.max_size ≡ q.max_size)

-- What pulling from a queue that holds a list comes to.
unfoldable pub IsPulled : Queue → List ℕ → Outcome (Option (ℕ × Queue)) → Type 0
IsPulled q [] run = run ≡ ok none
IsPulled q (x ∷ xs) run =
    (q' : Queue) × (run ≡ ok (some (x, q'))) × IsQueue q' xs × (q'.max_size ≡ q.max_size)

queue_push-empty :
    (x : ℕ) (q : Queue) → IsQueue q [] → is_full q ≡ false → IsPushed q [] x false (queue_push x q)
unfolding IsPushed IsQueue IsChain queue_push link_node Links
queue_push-empty x q ((h, t), sized) room =
    rw (room, h, sized)
      (
        _,
        refl,
        (
          (q.unused, q.unused, refl, refl, omega arith, (omega arith, refl, store-same _ _ _)),
          refl,
        ),
        refl,
      )

queue_push-linked :
    (x : ℕ) (q : Queue) (y : ℕ) (ys : List ℕ)
    → IsQueue q (y ∷ ys)
    → is_full q ≡ false
    → IsPushed q (y ∷ ys) x false (queue_push x q)
unfolding IsPushed IsQueue IsChain queue_push link_node set_tail load
queue_push-linked x q y ys ((p, last, h, t, below, links), sized) room =
    let (old, at) = Links-last q.nodes 0 p last y ys links in
    let skips =
      store-other q.nodes q.unused (some (record { element = x; next = none })) last
        (omega arith) in
    rw (room, h, t, skips, at)
      (
        _,
        refl,
        (
          (
            p,
            q.unused,
            refl,
            refl,
            omega arith,
            Links-push q.nodes p last y ys q.unused x old links below at,
          ),
          omega (arith, length-append ys (x ∷ [])),
        ),
        refl,
      )

queue_push-room :
    (x : ℕ) (q : Queue) (xs : List ℕ)
    → IsQueue q xs
    → is_full q ≡ false
    → IsPushed q xs x false (queue_push x q)
queue_push-room x q [] = queue_push-empty x q
queue_push-room x q (y ∷ ys) = queue_push-linked x q y ys

-- On a queue that holds a list, queue_push waits if the queue is full, and otherwise puts the
-- element behind the list; the bound stays as it is.
pub queue_push_refines :
    (x : ℕ) (q : Queue) (xs : List ℕ) → IsQueue q xs → IsPushed q xs x (is_full q) (queue_push x q)
unfolding IsPushed queue_push
queue_push_refines x q xs holds = elim (Bool-cases (is_full q)) [
  | inl e ↦ rw e refl
  | inr e ↦ subst (λ b. IsPushed q xs x b (queue_push x q)) (sym e) (queue_push-room x q xs holds e)
]

-- On a queue that holds a list, queue_pull waits if the list is empty, and otherwise takes its first
-- element; the bound stays as it is.
pub queue_pull_refines : (q : Queue) (xs : List ℕ) → IsQueue q xs → IsPulled q xs (queue_pull q)
unfolding IsPulled IsQueue IsChain Links queue_pull pull_node load tail_after
queue_pull_refines q [] (_, sized) = rw sized refl
queue_pull_refines q (x ∷ []) ((p, last, h, t, below, (_, e, at)), sized) =
    rw (sized, h, at) (_, refl, ((refl, refl), refl), refl)
queue_pull_refines q (x ∷ y ∷ ys) ((p, last, h, t, below, (_, n, at, links)), sized) =
    let up = Links-low q.nodes (suc p) n last y ys links in
    let some_left : (q.size == 0) ≡ false = ground arith in
    let frame =
      Links-frame q.nodes (store q.nodes p none) (suc p) n last y ys
        (λ a more. store-other q.nodes p none a (omega arith)) links in
    rw (some_left, h, at, t)
      (
        _,
        refl,
        (
          (n, last, refl, refl, below, Links-raise _ (suc p) 0 n last y ys (omega arith) frame),
          omega arith,
        ),
        refl,
      )
