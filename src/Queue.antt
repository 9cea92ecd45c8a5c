-- ===== src/Queue.antt =====
-- critical_concurrency/queue.c: a queue that several threads use, a linked list behind a mutex and one
-- condition. A thread holds the mutex from its test to the signal or to the wait on the condition, so
-- each such stretch is one step; a signal wakes one sleeper, if there is any, and a sleeper may also
-- wake without one. malloc in queue_push succeeds, with an address that no node has had.
pub mod Chain
pub mod Refine
pub mod Fifo
mod Examples
use machine_project.Prelude.{
  ℕ, zero, suc, ◌+◌, ◌-◌, ◌≡◌, ◌==◌, Bool, true, false, not, ◌&&◌, if◌then◌else◌, List, [], ◌∷◌,
  ◌++◌, Option, none, some, Outcome, ok, fault, hang, ◌>>=◌,
}
use machine_project.Prelude.Int.{ℤ, pos, ltb_ℤ}

pub record QueueNode : Type 0 where
  pub element : ℕ
  pub next : Option ℕ

-- The struct, with the nodes in memory and the first address that malloc has not given out.
pub record Queue : Type 0 where
  pub head : Option ℕ
  pub tail : Option ℕ
  pub size : ℕ
  pub max_size : ℤ
  pub nodes : ℕ → Option QueueNode
  pub unused : ℕ

-- Whether malloc, pthread_cond_init and pthread_mutex_init succeed; `none` is NULL.
unfoldable pub queue_create : Bool → Bool → Bool → ℤ → Option Queue
queue_create malloc cond_init mutex_init max_size =
    if not malloc
    then none
    else if not cond_init
    then none
    else if not mutex_init
    then none
    else some (record {
      head = none;
      tail = none;
      size = 0;
      max_size = max_size;
      nodes = λ p. none;
      unused = 0;
    })

-- A write to the node at an address; `none` is free.
unfoldable pub store : (ℕ → Option QueueNode) → ℕ → Option QueueNode → ℕ → Option QueueNode
store nodes p cell a = if a == p then cell else nodes a

unfoldable pub load : Option QueueNode → Outcome QueueNode
load none = fault
load (some node) = ok node

-- The rounds are bounded by the first argument.
unfoldable pub queue_destroy :
    ℕ → Option ℕ → (ℕ → Option QueueNode) → Outcome (ℕ → Option QueueNode)
queue_destroy rounds none nodes = ok nodes
queue_destroy zero (some p) nodes = hang
queue_destroy (suc rounds) (some p) nodes = do
  tmp ← load (nodes p)
  queue_destroy rounds tmp.next (store nodes p none)

unfoldable pub is_full : Queue → Bool
is_full q = ltb_ℤ (pos 0) q.max_size && not (ltb_ℤ (pos q.size) q.max_size)

-- this->tail->next = node; this->tail = node
unfoldable pub set_tail : Option ℕ → ℕ → Queue → Outcome Queue
set_tail none node q = fault
set_tail (some last) node q = do
  old ← load (q.nodes last)
  ok (record q {
    nodes = store q.nodes last (some (record old { next = some node }));
    tail = some node;
  })

unfoldable pub link_node : Option ℕ → ℕ → Queue → Outcome Queue
unfolding set_tail
link_node none node q = ok (record q { head = some node; tail = some node })
link_node (some first) node q = set_tail q.tail node q

-- A round of the loop and what follows it: `none` is the wait on the condition.
unfoldable pub queue_push : ℕ → Queue → Outcome (Option Queue)
queue_push data_ptr q =
    let node = q.unused in
    let allocated = record q {
      nodes = store q.nodes node (some (record { element = data_ptr; next = none }));
      unused = suc node;
    } in
    if is_full q
    then ok none
    else link_node q.head node allocated >>= λ linked.
        ok (some (record linked { size = linked.size + 1 }))

unfoldable pub tail_after : Option ℕ → Option ℕ → Option ℕ
tail_after none tail = none
tail_after (some p) tail = tail

unfoldable pub pull_node : Option ℕ → Queue → Outcome (Option (ℕ × Queue))
pull_node none q = fault
pull_node (some p) q = do
  node ← load (q.nodes p)
  ok (
      some (
        node.element,
        record q {
          head = node.next;
          tail = tail_after node.next q.tail;
          size = q.size - 1;
          nodes = store q.nodes p none;
        },
      ))

unfoldable pub queue_pull : Queue → Outcome (Option (ℕ × Queue))
queue_pull q = if q.size == 0 then ok none else pull_node q.head q

pub data QueueCall : Type 0 where
  push : ℕ → QueueCall
  pull : QueueCall

-- A thread that may run, with the calls before it, and one that waits on the condition in a call.
pub data Worker : Type 0 where
  running : List QueueCall → Worker
  waiting : QueueCall → List QueueCall → Worker

unfoldable pub sleepers : List Worker → ℕ
sleepers [] = 0
sleepers (running calls ∷ ws) = sleepers ws
sleepers (waiting call calls ∷ ws) = suc (sleepers ws)

-- pthread_cond_signal
pub data Signal : List Worker → List Worker → Type 0 where
  nobody : {ws : List Worker} → sleepers ws ≡ 0 → Signal ws ws
  somebody :
      (call : QueueCall) (calls : List QueueCall) (us vs : List Worker)
      → Signal (us ++ waiting call calls ∷ vs) (us ++ running (call ∷ calls) ∷ vs)

-- A step, with the elements that it pushed and pulled.
pub data Turn : Queue → List Worker → Queue → List Worker → List ℕ → List ℕ → Type 0 where
  pushes :
      {q q' : Queue} {ws : List Worker} (x : ℕ) (calls : List QueueCall) (us vs : List Worker)
      → queue_push x q ≡ ok (some q')
      → Signal (us ++ running calls ∷ vs) ws
      → Turn q (us ++ running (push x ∷ calls) ∷ vs) q' ws (x ∷ []) []
  pulls :
      {q q' : Queue} {ws : List Worker} (x : ℕ) (calls : List QueueCall) (us vs : List Worker)
      → queue_pull q ≡ ok (some (x, q'))
      → Signal (us ++ running calls ∷ vs) ws
      → Turn q (us ++ running (pull ∷ calls) ∷ vs) q' ws [] (x ∷ [])
  push_waits :
      {q : Queue} (x : ℕ) (calls : List QueueCall) (us vs : List Worker)
      → queue_push x q ≡ ok none
      → Turn q (us ++ running (push x ∷ calls) ∷ vs) q (us ++ waiting (push x) calls ∷ vs) [] []
  pull_waits :
      {q : Queue} (calls : List QueueCall) (us vs : List Worker)
      → queue_pull q ≡ ok none
      → Turn q (us ++ running (pull ∷ calls) ∷ vs) q (us ++ waiting pull calls ∷ vs) [] []
  spurious :
      {q : Queue} (call : QueueCall) (calls : List QueueCall) (us vs : List Worker)
      → Turn q (us ++ waiting call calls ∷ vs) q (us ++ running (call ∷ calls) ∷ vs) [] []

pub data Turns : Queue → List Worker → Queue → List Worker → List ℕ → List ℕ → Type 0 where
  rests : {q : Queue} {ws : List Worker} → Turns q ws q ws [] []
  takes :
      {q q' q'' : Queue} {ws ws' ws'' : List Worker} {ins ins' outs outs' : List ℕ}
      → Turn q ws q' ws' ins outs
      → Turns q' ws' q'' ws'' ins' outs'
      → Turns q ws q'' ws'' (ins ++ ins') (outs ++ outs')
