-- ===== src/Queue/Chain.antt =====
-- queue.c: the linked list of a queue that holds a list, and what its operations make of it.
use machine_project.Prelude.{
  ℕ, zero, suc, ◌≤◌, ◌<◌, ◌≡◌, refl, sym, ap, ◌∙◌, List, [], ◌∷◌, ◌++◌, length, Option, none, some,
  ok, arith,
}
use machine_project.Queue.{QueueNode, Queue, store, load, queue_destroy}

-- The nodes from address `p` to `last` hold `x ∷ xs`, at addresses that go up from `low`.
unfoldable pub Links : (ℕ → Option QueueNode) → ℕ → ℕ → ℕ → ℕ → List ℕ → Type 0
Links nodes low p last x [] =
    (low ≤ p) × (p ≡ last) × (nodes p ≡ some (record { element = x; next = none }))
Links nodes low p last x (y ∷ ys) =
    (low ≤ p)
    × (n : ℕ) × (nodes p ≡ some (record { element = x; next = some n }))
    × Links nodes (suc p) n last y ys

unfoldable pub IsChain : Queue → List ℕ → Type 0
IsChain q [] = (q.head ≡ none) × (q.tail ≡ none)
IsChain q (x ∷ xs) =
    (p : ℕ) × (last : ℕ) × (q.head ≡ some p)
    × (q.tail ≡ some last)
    × (last < q.unused)
    × Links q.nodes 0 p last x xs

-- The queue holds the list.
unfoldable pub IsQueue : Queue → List ℕ → Type 0
IsQueue q xs = IsChain q xs × (q.size ≡ length xs)

pub store-same :
    (nodes : ℕ → Option QueueNode) (p : ℕ) (cell : Option QueueNode) → store nodes p cell p ≡ cell
unfolding store
store-same nodes p cell = ground arith

pub store-other :
    (nodes : ℕ → Option QueueNode) (p : ℕ) (cell : Option QueueNode) (a : ℕ)
    → ¬ (a ≡ p)
    → store nodes p cell a ≡ nodes a
unfolding store
store-other nodes p cell a h = ground arith

pub Links-low :
    (nodes : ℕ → Option QueueNode) (low p last x : ℕ) (xs : List ℕ)
    → Links nodes low p last x xs
    → (low ≤ p) × (p ≤ last)
unfolding Links
Links-low nodes low p last x [] (h, e, k) = (h, omega arith)
Links-low nodes low p last x (y ∷ ys) (h, n, k, more) =
    let (h', fits) = Links-low nodes (suc p) n last y ys more in (h, omega arith)

pub Links-raise :
    (nodes : ℕ → Option QueueNode) (low low' p last x : ℕ) (xs : List ℕ)
    → low' ≤ p
    → Links nodes low p last x xs
    → Links nodes low' p last x xs
unfolding Links
Links-raise nodes low low' p last x [] h (_, e, k) = (h, e, k)
Links-raise nodes low low' p last x (y ∷ ys) h (_, n, k, more) = (h, n, k, more)

pub Links-frame :
    (nodes nodes' : ℕ → Option QueueNode) (low p last x : ℕ) (xs : List ℕ)
    → ((a : ℕ) → low ≤ a → nodes' a ≡ nodes a)
    → Links nodes low p last x xs
    → Links nodes' low p last x xs
unfolding Links
Links-frame nodes nodes' low p last x [] same (h, e, k) = (h, e, same p h ∙ k)
Links-frame nodes nodes' low p last x (y ∷ ys) same (h, n, k, more) = (
  h,
  n,
  same p h ∙ k,
  Links-frame nodes nodes' (suc p) n last y ys (λ a less. same a (omega arith)) more,
)

-- The last node, with another one behind it.
unfoldable pub relink : ℕ → Option QueueNode → Option QueueNode
relink node none = none
relink node (some old) = some (record old { next = some node })

pub Links-append :
    (nodes nodes' : ℕ → Option QueueNode) (low p last x : ℕ) (xs : List ℕ) (node v : ℕ)
    → Links nodes low p last x xs
    → last < node
    → ((a : ℕ) → a < last → nodes' a ≡ nodes a)
    → nodes' last ≡ relink node (nodes last)
    → nodes' node ≡ some (record { element = v; next = none })
    → Links nodes' low p node x (xs ++ v ∷ [])
unfolding Links relink
Links-append nodes nodes' low p last x [] node v (h, e, k) less same relinked new =
    let at =
      ap nodes' e ∙ relinked ∙ ap (λ a. relink node (nodes a)) (sym e) ∙ ap (relink node) k in
    (h, node, at, (omega arith, refl, new))
Links-append nodes nodes' low p last x (y ∷ ys) node v (h, n, k, more) less same relinked new =
    let (up, fits) = Links-low nodes (suc p) n last y ys more in
    (
      h,
      n,
      same p (omega arith) ∙ k,
      Links-append nodes nodes' (suc p) n last y ys node v more less same relinked new,
    )

pub Links-last :
    (nodes : ℕ → Option QueueNode) (low p last x : ℕ) (xs : List ℕ)
    → Links nodes low p last x xs
    → (old : QueueNode) × (nodes last ≡ some old)
unfolding Links
Links-last nodes low p last x [] (h, e, k) = (_, ap nodes (sym e) ∙ k)
Links-last nodes low p last x (y ∷ ys) (h, n, k, more) = Links-last nodes (suc p) n last y ys more

-- The nodes after a node at `node` is put behind the last one.
pub Links-push :
    (nodes : ℕ → Option QueueNode) (p last y : ℕ) (ys : List ℕ) (node x : ℕ) (old : QueueNode)
    → Links nodes 0 p last y ys
    → last < node
    → nodes last ≡ some old
    → Links
        (store
          (store nodes node (some (record { element = x; next = none })))
          last
          (some (record old { next = some node })))
        0
        p
        node
        y
        (ys ++ x ∷ [])
unfolding relink
Links-push nodes p last y ys node x old links below at =
    let first = store nodes node (some (record { element = x; next = none })) in
    let second = store first last (some (record old { next = some node })) in
    Links-append nodes second 0 p last y ys node x links below
      (λ a less.
        store-other first last _ a (omega arith) ∙ store-other nodes node _ a (omega arith))
      (store-same first last _ ∙ ap (relink node) (sym at))
      (store-other first last _ node (omega arith) ∙ store-same nodes node _)

Links-destroy :
    (rounds : ℕ) (nodes : ℕ → Option QueueNode) (low p last x : ℕ) (xs : List ℕ)
    → Links nodes low p last x xs
    → length xs < rounds
    → (after : ℕ → Option QueueNode) × (queue_destroy rounds (some p) nodes ≡ ok after)
unfolding Links queue_destroy load
Links-destroy zero nodes low p last x xs links enough = absurd (omega arith)
Links-destroy (suc rounds) nodes low p last x [] (h, e, at) enough = rw at (_, refl)
Links-destroy (suc rounds) nodes low p last x (y ∷ ys) (h, n, at, more) enough =
    let rest =
      Links-frame nodes (store nodes p none) (suc p) n last y ys
        (λ a above. store-other nodes p none a (omega arith)) more in
    let freed = Links-destroy rounds (store nodes p none) (suc p) n last y ys rest (omega arith) in
    rw at freed

-- A round for each node is enough for queue_destroy.
queue_destroy-ends :
    (q : Queue) (xs : List ℕ)
    → IsQueue q xs
    → (after : ℕ → Option QueueNode) × (queue_destroy (length xs) q.head q.nodes ≡ ok after)
unfolding IsQueue IsChain queue_destroy
queue_destroy-ends q [] ((h, t), sized) = rw h (_, refl)
queue_destroy-ends q (x ∷ xs) ((p, last, h, t, below, links), sized) =
    rw h (Links-destroy (suc (length xs)) q.nodes 0 p last x xs links (omega arith))
