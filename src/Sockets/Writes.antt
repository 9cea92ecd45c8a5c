-- ===== src/Sockets/Writes.antt =====
-- common.c: what write_all_to_socket sends, whatever the schedule of the kernel.
use machine_project.Prelude.{
  ℕ, true, false, suc, ◌+◌, ◌-◌, ◌≤◌, ◌<◌, ◌≡◌, refl, ap, sym, ◌∙◌, min, ltb, List, [], ◌∷◌, ◌++◌,
  length, take, drop, take-append-drop, drop_append, length-drop, length-append, append_assoc,
  append-nil, some, arith,
}
use machine_project.Sockets.{Answer, give, interrupted, finish, write_all_to_socket}
use machine_project.Sockets.Schedules.{Steady, enough, moves, again, Steady-less}

write_all-full :
    (message buffer : List ℕ) (answers : List Answer)
    → ltb (length buffer) (length message) ≡ false
    → write_all_to_socket message buffer answers ≡ finish (some (length buffer)) buffer [] answers
unfolding write_all_to_socket
write_all-full message buffer [] h = rw h
write_all-full message buffer (a ∷ rest) h = rw h

write_all-give :
    (message buffer : List ℕ) (k : ℕ) (rest : List Answer)
    → ltb (length buffer) (length message) ≡ true
    → write_all_to_socket message buffer (give k ∷ rest)
      ≡ write_all_to_socket message
          (buffer
            ++ take (min (suc k) (length message - length buffer)) (drop (length buffer) message))
          rest
unfolding write_all_to_socket
write_all-give message buffer k rest e = rw e

write_all-again :
    (message buffer : List ℕ) (rest : List Answer)
    → ltb (length buffer) (length message) ≡ true
    → write_all_to_socket message buffer (interrupted ∷ rest)
      ≡ write_all_to_socket message buffer rest
unfolding write_all_to_socket
write_all-again message buffer rest e = rw e

-- What a complete transfer of `message` comes to, with answers to spare.
unfoldable pub Sends : ℕ → List ℕ → List ℕ → List Answer → Type 0
Sends n message buffer answers =
    (left : List Answer) × Steady n left
    × (write_all_to_socket message buffer answers ≡ finish (some (length message)) message [] left)

Sends-all :
    (n : ℕ) (message buffer : List ℕ) (answers : List Answer)
    → message ≡ buffer
    → Steady n answers
    → Sends n message buffer answers
unfolding Sends
Sends-all n message buffer answers e s =
    let size : length message ≡ length buffer = rw e in
    (answers, s, write_all-full message buffer answers (ground arith) ∙ rw e)

Sends-give :
    (n : ℕ) (message buffer todo : List ℕ) (k : ℕ) (rest : List Answer)
    → message ≡ buffer ++ todo
    → 0 < length todo
    → Sends n message (buffer ++ take (min (suc k) (length todo)) todo) rest
    → Sends n message buffer (give k ∷ rest)
unfolding Sends
Sends-give n message buffer todo k rest e some_left (left, s, runs) =
    let size : length message ≡ length buffer + length todo = rw e (length-append buffer todo) in
    let room : length message - length buffer ≡ length todo = omega arith in
    let rest_of : drop (length buffer) message ≡ todo = rw e (drop_append buffer todo) in
    (left, s, write_all-give message buffer k rest (ground arith) ∙ rw (room, rest_of) runs)

Sends-again :
    (n : ℕ) (message buffer : List ℕ) (rest : List Answer)
    → length buffer < length message
    → Sends n message buffer rest
    → Sends n message buffer (interrupted ∷ rest)
unfolding Sends
Sends-again n message buffer rest h (left, s, runs) =
    (left, s, write_all-again message buffer rest (ground arith) ∙ runs)

write_all_lem :
    (n m : ℕ) (message buffer todo : List ℕ) (answers : List Answer)
    → Steady n answers
    → m + length todo ≤ n
    → message ≡ buffer ++ todo
    → Sends m message buffer answers
write_all_lem n m message buffer [] answers s h e =
    Sends-all m message buffer answers (e ∙ append-nil buffer)
      (Steady-less m n answers (omega arith) s)
write_all_lem n m message buffer (t ∷ ts) answers enough h e = absurd (omega arith)
write_all_lem n m message buffer (t ∷ ts) (interrupted ∷ rest) (again s) h e =
    let size : length message ≡ length buffer + suc (length ts) =
      rw e (length-append buffer (t ∷ ts)) in
    Sends-again m message buffer rest (omega arith)
      (write_all_lem n m message buffer (t ∷ ts) rest s h e)
write_all_lem (suc n) m message buffer (t ∷ ts) (give k ∷ rest) (moves s) h e =
    let room = min (suc k) (suc (length ts)) in
    let rest_size : length (drop room (t ∷ ts)) ≡ suc (length ts) - room =
      length-drop room (t ∷ ts) in
    Sends-give m message buffer (t ∷ ts) k rest e (omega arith) (
      write_all_lem n m message (buffer ++ take room (t ∷ ts)) (drop room (t ∷ ts)) rest s
        (omega arith)
        (e
          ∙ ap (◌++◌ buffer) (sym (take-append-drop room (t ∷ ts)))
          ∙ sym (append_assoc buffer (take room (t ∷ ts)) (drop room (t ∷ ts)))))

pub writes_all :
    (n m : ℕ) (message : List ℕ) (answers : List Answer)
    → Steady n answers
    → m + length message ≤ n
    → (left : List Answer) × Steady m left
      × (write_all_to_socket message [] answers ≡ finish (some (length message)) message [] left)
unfolding Sends
writes_all n m message answers s h = write_all_lem n m message [] message answers s h refl

-- For a schedule of which the first answers, as many as the message has bytes and interruptions
-- apart, all move bytes, `write_all_to_socket` returns, and it has sent the message, in order,
-- however the kernel cuts it.
pub write_all_to_socket_sends :
    (message : List ℕ) (answers : List Answer)
    → Steady (length message) answers
    → (left : List Answer) × (write_all_to_socket message [] answers
        ≡ finish (some (length message)) message [] left)
write_all_to_socket_sends message answers s =
    let (left, steady, runs) = writes_all (length message) 0 message answers s (omega arith) in
    (left, runs)
