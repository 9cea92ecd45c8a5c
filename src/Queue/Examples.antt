-- ===== src/Queue/Examples.antt =====
-- Four threads on a queue for one element, and the theorems about it.
use machine_project.Prelude.{ℕ, ◌≡◌, refl, true, false, List, [], ◌∷◌, ◌++◌, none, some, ok, arith}
use machine_project.Prelude.Int.{pos}
use machine_project.Queue.{
  Queue, queue_create, store, load, queue_destroy, is_full, link_node, queue_push, tail_after,
  pull_node, queue_pull, push, pull, Worker, running, waiting, somebody, pushes, pulls, push_waits,
  pull_waits, Turns, rests, takes,
}
use machine_project.Queue.Chain.{Links, IsChain, IsQueue}
use machine_project.Queue.Refine.{IsPulled, queue_pull_refines}
use machine_project.Queue.Fifo.{IsBounded, queue_fifo}

abbrev empty_queue : Queue
empty_queue = record {
  head = none;
  tail = none;
  size = 0;
  max_size = pos 1;
  nodes = λ p. none;
  unused = 0;
}

abbrev five : Queue
five = record {
  head = some 0;
  tail = some 0;
  size = 1;
  max_size = pos 1;
  nodes = store (λ p. none) 0 (some (record { element = 5; next = none }));
  unused = 1;
}

abbrev pulled_queue : Queue
pulled_queue = record {
  head = none;
  tail = none;
  size = 0;
  max_size = pos 1;
  nodes = store (store (λ p. none) 0 (some (record { element = 5; next = none }))) 0 none;
  unused = 1;
}

created : queue_create true true true (pos 1) ≡ some empty_queue
unfolding queue_create
created = refl

destroyed : queue_destroy 1 five.head five.nodes ≡ ok pulled_queue.nodes
unfolding queue_destroy load store
destroyed = refl

push_five : queue_push 5 empty_queue ≡ ok (some five)
unfolding queue_push is_full link_node
push_five = refl

five_is_full : queue_push 6 five ≡ ok none
unfolding queue_push is_full
five_is_full = refl

pull_five : queue_pull five ≡ ok (some (5, pulled_queue))
unfolding queue_pull pull_node load store tail_after
pull_five = refl

pull_empty : (q : Queue) → q.size ≡ 0 → queue_pull q ≡ ok none
unfolding queue_pull
pull_empty q e = rw e refl

-- Two threads that pull and two that push.
abbrev four_workers : List Worker
four_workers =
    running (pull ∷ []) ∷ running (pull ∷ []) ∷ running (push 5 ∷ []) ∷ running (push 6 ∷ []) ∷ []

-- One pulls, one pushes, and the other two are asleep.
abbrev stuck_workers : List Worker
stuck_workers = running [] ∷ waiting pull [] ∷ running [] ∷ waiting (push 6) [] ∷ []

-- Both that pull wait; the push of 5 wakes the first; the push of 6 waits; the first pulls 5 and wakes
-- the second, which waits again. Nobody is left to wake the thread that waits to push.
lost_wakeup : Turns empty_queue four_workers pulled_queue stuck_workers (5 ∷ []) (5 ∷ [])
lost_wakeup =
    takes
      (pull_waits [] [] (running (pull ∷ []) ∷ running (push 5 ∷ []) ∷ running (push 6 ∷ []) ∷ [])
        (pull_empty empty_queue refl))
      (takes
        (pull_waits [] (waiting pull [] ∷ []) (running (push 5 ∷ []) ∷ running (push 6 ∷ []) ∷ [])
          (pull_empty empty_queue refl))
        (takes
          (pushes 5 [] (waiting pull [] ∷ waiting pull [] ∷ []) (running (push 6 ∷ []) ∷ [])
            push_five
            (somebody pull [] [] (waiting pull [] ∷ running [] ∷ running (push 6 ∷ []) ∷ [])))
          (takes
            (push_waits 6 [] (running (pull ∷ []) ∷ waiting pull [] ∷ running [] ∷ []) []
              five_is_full)
            (takes
              (pulls 5 [] [] (waiting pull [] ∷ running [] ∷ waiting (push 6) [] ∷ []) pull_five
                (somebody pull [] (running [] ∷ []) (running [] ∷ waiting (push 6) [] ∷ [])))
              (takes
                (pull_waits [] (running [] ∷ []) (running [] ∷ waiting (push 6) [] ∷ [])
                  (pull_empty pulled_queue refl))
                rests)))))

stuck_with_room : is_full pulled_queue ≡ false
unfolding is_full
stuck_with_room = refl

empty_queue-IsBounded : IsBounded empty_queue (pos 1) []
unfolding IsBounded IsQueue IsChain
empty_queue-IsBounded = (((refl, refl), refl), refl, refl)

five-IsQueue : IsQueue five (5 ∷ [])
unfolding IsQueue IsChain Links store
five-IsQueue = ((0, 0, refl, refl, omega arith, (omega arith, refl, refl)), refl)

queue_fifo_example :
    (ys : List ℕ) × IsBounded pulled_queue (pos 1) ys × ([] ++ 5 ∷ [] ≡ (5 ∷ []) ++ ys)
queue_fifo_example = queue_fifo (pos 1) [] lost_wakeup empty_queue-IsBounded

queue_pull_refines_example : IsPulled five (5 ∷ []) (queue_pull five)
queue_pull_refines_example = queue_pull_refines five (5 ∷ []) five-IsQueue
