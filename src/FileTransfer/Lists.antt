-- ===== src/FileTransfer/Lists.antt =====
-- server.c: the answer to the request LIST.
use machine_project.Prelude.{
  ℕ, suc, ◌+◌, ◌-◌, ◌≤◌, ◌≡◌, ap, sym, ◌∙◌, ◌==◌, if◌then◌else◌, false, List, [], ◌∷◌, ◌++◌, length,
  length-append, append_assoc, append-nil, Outcome, ok, ◌>>=◌, arith,
}
use machine_project.Prelude.Strings.{codes}
use machine_project.Sockets.{Answer}
use machine_project.FileTransfer.{size_bytes}
use machine_project.FileTransfer.Stored.{length-size_bytes}
use machine_project.FileTransfer.Server.{Dictionary, ok_text, Session}
use machine_project.FileTransfer.Calls.{Ready}
use machine_project.FileTransfer.Answers.{said, say-Ready}
use machine_project.FileTransfer.Handlers.{say, add_lengths, say_names, help_list}

-- The names with a newline between each two.
unfoldable pub joined : List (List ℕ) → List ℕ
joined [] = []
joined (x ∷ []) = x
joined (x ∷ y ∷ names) = x ++ (10 ∷ joined (y ∷ names))

-- The calls of write_all_to_socket that the names take.
unfoldable pub calls : List (List ℕ) → ℕ
calls [] = 0
calls (x ∷ []) = 1
calls (x ∷ y ∷ names) = suc (suc (calls (y ∷ names)))

add_lengths-joined :
    (D : Dictionary) (size : ℕ) (x : List ℕ) (names : List (List ℕ))
    → add_lengths D (size + length names) (x ∷ names) ≡ size + length (joined (x ∷ names))
unfolding add_lengths joined
add_lengths-joined D size x [] = omega arith
add_lengths-joined D size x (y ∷ names) =
    let n : size + suc (length names) + length x ≡ (size + suc (length x)) + length names =
      omega arith in
    ap (λ k. add_lengths D k (y ∷ names)) n
    ∙ add_lengths-joined D (size + suc (length x)) y names
    ∙ omega (arith, length-append x (10 ∷ joined (y ∷ names)))

module _ (D : Dictionary) where
  say_names_lem :
      (n : ℕ) (names : List (List ℕ)) (s : Session D)
      → Ready (calls names) n s.connection.schedules
      → length (joined names) ≤ n
      → 1 ≤ n
      → (rest : List (List Answer)) × (say_names D names s ≡ ok (said D (joined names) rest s))
  unfolding say_names joined calls
  say_names_lem n [] s r h one = (
    s.connection.schedules,
    ap (λ t. ok (record s { connection = record s.connection { sent = t } }))
        (sym (append-nil s.connection.sent)),
  )
  say_names_lem n (x ∷ []) s r h one =
      let (rest, later, runs) = say-Ready D 0 n x s r h in (rest, runs)
  say_names_lem n (x ∷ y ∷ names) s r h one =
      let size = length-append x (10 ∷ joined (y ∷ names)) in
      let (left, ready, first) = say-Ready D (suc (calls (y ∷ names))) n x s r (omega arith) in
      let s' = said D x left s in
      let (left', ready', second) = say-Ready D (calls (y ∷ names)) n (codes "\n") s' ready one in
      let (rest, runs) =
        say_names_lem n (y ∷ names) (said D (codes "\n") left' s') ready' (omega arith) one in
      (
        rest,
        rw first (
            rw second (
              runs
              ∙ rw (
                append_assoc (s.connection.sent ++ x) (codes "\n") (joined (y ∷ names)),
                append_assoc s.connection.sent x (10 ∷ joined (y ∷ names)),
              ))),
      )

  -- What help_list does behind OK.
  list_rest : List (List ℕ) → Session D → Outcome (Session D)
  list_rest names s =
      if length names == 0
      then say D (size_bytes 0) s
      else (say D (size_bytes (add_lengths D (length names - 1) names)) s >>= say_names D names)

  list_rest_lem :
      (n : ℕ) (names : List (List ℕ)) (s : Session D)
      → Ready (suc (calls names)) n s.connection.schedules
      → length (joined names) ≤ n
      → 8 ≤ n
      → (rest : List (List Answer)) × (list_rest names s
          ≡ ok (said D (size_bytes (length (joined names)) ++ joined names) rest s))
  unfolding list_rest joined calls
  list_rest_lem n [] s r h few =
      let (rest, later, runs) =
        say-Ready D 0 n (size_bytes 0) s r (omega (arith, length-size_bytes 0)) in
      (rest, runs ∙ rw (append-nil (size_bytes 0)))
  list_rest_lem n (x ∷ names) s r h few =
      let text = joined (x ∷ names) in
      let size = length text in
      let nonzero : (suc (length names) == 0) ≡ false = ground arith in
      let (left, ready, first) =
        say-Ready D (calls (x ∷ names)) n (size_bytes size) s r
          (omega (arith, length-size_bytes size)) in
      let (rest, runs) =
        say_names_lem n (x ∷ names) (said D (size_bytes size) left s) ready h (omega arith) in
      let sum : add_lengths D (suc (length names) - 1) (x ∷ names) ≡ size =
        ap (λ k. add_lengths D k (x ∷ names)) (omega arith)
        ∙ add_lengths-joined D 0 x names
        ∙ omega arith in
      (
        rest,
        rw (nonzero, sum, first)
            (runs
              ∙ ap
                  (λ t.
                    ok (record s {
                      connection = record s.connection { sent = t; schedules = rest };
                    }))
                  (append_assoc s.connection.sent (size_bytes size) text)),
      )

  -- Where on each call of write_all_to_socket the kernel moves bytes in each answer, interruptions apart,
  -- help_list sends OK, a size and the names with a newline between each two, and the size is the number
  -- of the bytes that follow it.
  pub list_announces :
      (n : ℕ) (s : Session D)
      → Ready (suc (suc (calls s.server.names))) n s.connection.schedules
      → length (joined s.server.names) ≤ n
      → 8 ≤ n
      → (rest : List (List Answer)) × (let text = joined s.server.names in
          help_list D s ≡ ok (said D (ok_text ++ (size_bytes (length text) ++ text)) rest s))
  unfolding help_list list_rest
  list_announces n s r h few =
      let names = s.server.names in
      let (left, ready, first) = say-Ready D (suc (calls names)) n ok_text s r (omega arith) in
      let s' = said D ok_text left s in
      let (rest, runs) = list_rest_lem n names s' ready h few in
      (
        rest,
        rw first (
            runs
            ∙ rw (
                append_assoc s.connection.sent ok_text
                  (size_bytes (length (joined names)) ++ joined names))),
      )
