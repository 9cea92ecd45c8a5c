-- ===== src/Sockets/Reads.antt =====
-- common.c: what read_all_from_socket receives, whatever the schedule of the kernel.
use machine_project.Prelude.{
  ℕ, true, false, zero, suc, ◌+◌, ◌-◌, ◌≤◌, ◌<◌, ◌≡◌, refl, ap, ◌∙◌, min, ltb, ◌==◌, if◌then◌else◌,
  List, [], ◌∷◌, ◌++◌, length, take, drop, take_all, drop_all, take_append, drop_append,
  length-take, length-drop, length-append, append_assoc, append-nil, take-take_more, drop-drop_more,
  some, Outcome, Bool-cases, inl, inr, arith,
}
use machine_project.Sockets.{Answer, Transfer, give, interrupted, finish, read_all_from_socket}
use machine_project.Sockets.Schedules.{Steady, enough, moves, again, Steady-less}

read_all-full :
    (count : ℕ) (buffer incoming : List ℕ) (answers : List Answer)
    → ltb (length buffer) count ≡ false
    → read_all_from_socket count buffer incoming answers
      ≡ finish (some (length buffer)) buffer incoming answers
unfolding read_all_from_socket
read_all-full count buffer incoming [] h = rw h
read_all-full count buffer incoming (a ∷ rest) h = rw h

-- What the loop comes to with `r` bytes to go.
abbrev arrived : ℕ → List ℕ → List ℕ → List Answer → Outcome Transfer
arrived r buffer incoming left =
    let all = buffer ++ take r incoming in finish (some (length all)) all (drop r incoming) left

read_all-full-arrived :
    (count : ℕ) (buffer incoming : List ℕ) (answers : List Answer)
    → ltb (length buffer) count ≡ false
    → read_all_from_socket count buffer incoming answers
      ≡ arrived (count - length buffer) buffer incoming answers
read_all-full-arrived count buffer incoming answers h =
    let n : count - length buffer ≡ 0 = ground arith in
    read_all-full count buffer incoming answers h ∙ rw n (rw (append-nil buffer))

-- The end of the stream.
arrived-end :
    (r : ℕ) (buffer incoming : List ℕ) (left : List Answer)
    → incoming ≡ []
    → finish (some (length buffer)) buffer incoming left ≡ arrived r buffer incoming left
arrived-end r buffer incoming left e = rw e (
    rw
      (take_all {A = ℕ} r [] (omega arith), drop_all {A = ℕ} r [] (omega arith), append-nil buffer))

arrived-more :
    (r m : ℕ) (buffer incoming : List ℕ) (left : List Answer)
    → m ≤ r
    → (let got = length (take m incoming) in
        arrived (r - got) (buffer ++ take m incoming) (drop got incoming) left)
      ≡ arrived r buffer incoming left
arrived-more r m buffer incoming left h = rw (
  append_assoc buffer (take m incoming)
      (take (r - length (take m incoming)) (drop (length (take m incoming)) incoming)),
  take-take_more m r incoming h,
  drop-drop_more m r incoming h,
)

pub no_bytes : (m : ℕ) (xs : List ℕ) → 0 < m → (length (take m xs) == 0) ≡ true → xs ≡ []
no_bytes m [] h e = refl
no_bytes zero (x ∷ xs) h e = absurd (omega arith)
no_bytes (suc m) (x ∷ xs) h e = absurd (ground arith)

read_all-give :
    (count k : ℕ) (buffer incoming : List ℕ) (rest : List Answer)
    → ltb (length buffer) count ≡ true
    → (let bytes = take (min (suc k) (count - length buffer)) incoming in
        read_all_from_socket count buffer incoming (give k ∷ rest) ≡ (
          if length bytes == 0
          then finish (some (length buffer)) buffer incoming rest
          else read_all_from_socket count (buffer ++ bytes) (drop (length bytes) incoming) rest))
unfolding read_all_from_socket
read_all-give count k buffer incoming rest e = rw e

read_all-again :
    (count : ℕ) (buffer incoming : List ℕ) (rest : List Answer)
    → ltb (length buffer) count ≡ true
    → read_all_from_socket count buffer incoming (interrupted ∷ rest)
      ≡ read_all_from_socket count buffer incoming rest
unfolding read_all_from_socket
read_all-again count buffer incoming rest e = rw e

-- The loop ends with `m` answers to spare.
unfoldable Arrives : ℕ → ℕ → List ℕ → List ℕ → List Answer → Type 0
Arrives m count buffer incoming answers =
    (left : List Answer) × Steady m left
    × (read_all_from_socket count buffer incoming answers
        ≡ arrived (count - length buffer) buffer incoming left)

Arrives-end :
    (m count k : ℕ) (buffer incoming : List ℕ) (rest : List Answer)
    → ltb (length buffer) count ≡ true
    → (length (take (min (suc k) (count - length buffer)) incoming) == 0) ≡ true
    → Steady m rest
    → Arrives m count buffer incoming (give k ∷ rest)
unfolding Arrives
Arrives-end m count k buffer incoming rest e z s =
    let r = count - length buffer in
    let no_more = no_bytes (min (suc k) r) incoming (ground arith) z in
    (
      rest,
      s,
      read_all-give count k buffer incoming rest e
          ∙ rw z (arrived-end r buffer incoming rest no_more),
    )

Arrives-more :
    (m count k : ℕ) (buffer incoming : List ℕ) (rest : List Answer)
    → ltb (length buffer) count ≡ true
    → (length (take (min (suc k) (count - length buffer)) incoming) == 0) ≡ false
    → (let bytes = take (min (suc k) (count - length buffer)) incoming in
        Arrives m count (buffer ++ bytes) (drop (length bytes) incoming) rest)
    → Arrives m count buffer incoming (give k ∷ rest)
unfolding Arrives
Arrives-more m count k buffer incoming rest e z (left, steady, runs) =
    let r = count - length buffer in
    let bytes = take (min (suc k) r) incoming in
    let grows = length-append buffer bytes in
    let to_go : count - length (buffer ++ bytes) ≡ r - length bytes = omega arith in
    let more = arrived-more r (min (suc k) r) buffer incoming left (omega arith) in
    (left, steady, read_all-give count k buffer incoming rest e ∙ rw z (rw to_go at runs ∙ more))

Arrives-again :
    (m count : ℕ) (buffer incoming : List ℕ) (rest : List Answer)
    → ltb (length buffer) count ≡ true
    → Arrives m count buffer incoming rest
    → Arrives m count buffer incoming (interrupted ∷ rest)
unfolding Arrives
Arrives-again m count buffer incoming rest e (left, steady, runs) =
    (left, steady, read_all-again count buffer incoming rest e ∙ runs)

Arrives-full :
    (m n count : ℕ) (buffer incoming : List ℕ) (answers : List Answer)
    → ltb (length buffer) count ≡ false
    → m ≤ n
    → Steady n answers
    → Arrives m count buffer incoming answers
unfolding Arrives
Arrives-full m n count buffer incoming answers e h s =
    (answers, Steady-less m n answers h s, read_all-full-arrived count buffer incoming answers e)

read_all_lem :
    (n m count : ℕ) (buffer incoming : List ℕ) (answers : List Answer)
    → Steady n answers
    → length buffer ≤ count
    → m + suc (min (count - length buffer) (length incoming)) ≤ n
    → Arrives m count buffer incoming answers
read_all_lem n m count buffer incoming answers enough fits more = absurd (omega arith)
read_all_lem (suc n) m count buffer incoming (give k ∷ rest) (moves s) fits more =
    let bytes = take (min (suc k) (count - length buffer)) incoming in
    let grows = length-append buffer bytes in
    let size = length-take (min (suc k) (count - length buffer)) incoming in
    let size' = length-drop (length bytes) incoming in
    elim (Bool-cases (ltb (length buffer) count)) [
      | inr e ↦
          Arrives-full m (suc n) count buffer incoming (give k ∷ rest) e (omega arith) (moves s)
      | inl e ↦ elim (Bool-cases (length bytes == 0)) [
        | inl z ↦
            Arrives-end m count k buffer incoming rest e z (Steady-less m n rest (omega arith) s)
        | inr z ↦
            let nonzero : 0 < length bytes = ground arith in
            Arrives-more m count k buffer incoming rest e z (
              read_all_lem n m count (buffer ++ bytes) (drop (length bytes) incoming) rest s
                (omega arith) (omega arith))
      ]
    ]
read_all_lem n m count buffer incoming (interrupted ∷ rest) (again s) fits more =
    elim (Bool-cases (ltb (length buffer) count)) [
      | inl e ↦
          Arrives-again m count buffer incoming rest e
            (read_all_lem n m count buffer incoming rest s fits more)
      | inr e ↦
          Arrives-full m n count buffer incoming (interrupted ∷ rest) e (omega arith) (again s)
    ]

pub reads_all :
    (n m count : ℕ) (incoming : List ℕ) (answers : List Answer)
    → Steady n answers
    → m + suc (min count (length incoming)) ≤ n
    → (left : List Answer) × Steady m left
      × (read_all_from_socket count [] incoming answers
          ≡ finish
              (some (length (take count incoming)))
              (take count incoming)
              (drop count incoming)
              left)
unfolding Arrives
reads_all n m count incoming answers s h =
    let all : count - 0 ≡ count = omega arith in
    let (left, steady, runs) =
      read_all_lem n m count [] incoming answers s (omega arith) (omega arith) in
    (left, steady, runs ∙ ap (λ j. arrived j [] incoming left) all)

-- For a schedule of which the first answers, one more than the bytes to receive and interruptions
-- apart, all move bytes, `read_all_from_socket` returns, and it has received the first `count` bytes
-- of the stream, or all of a shorter one, in order, however the kernel cuts them.
pub read_all_from_socket_receives :
    (count : ℕ) (incoming : List ℕ) (answers : List Answer)
    → Steady (suc (min count (length incoming))) answers
    → (left : List Answer) × (read_all_from_socket count [] incoming answers
        ≡ finish
            (some (length (take count incoming)))
            (take count incoming)
            (drop count incoming)
            left)
read_all_from_socket_receives count incoming answers s =
    let (left, steady, runs) =
      reads_all (suc (min count (length incoming))) 0 count incoming answers s (omega arith) in
    (left, runs)

pub receives_message :
    (message more : List ℕ) (answers : List Answer)
    → Steady (suc (length message)) answers
    → (left : List Answer) × (read_all_from_socket (length message) [] (message ++ more) answers
        ≡ finish (some (length message)) message more left)
receives_message message more answers s =
    let size = length-append message more in
    let (left, runs) = read_all_from_socket_receives (length message) (message ++ more) answers (
      Steady-less (suc (min (length message) (length (message ++ more)))) (suc (length message))
        answers (omega arith) s) in
    (left, rw (take_append message more, drop_append message more) at runs)
