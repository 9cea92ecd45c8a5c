-- ===== src/Sockets/Lines.antt =====
-- common.c: read_until_newline, which asks the kernel for one byte at a time.
use machine_project.Prelude.{
  ℕ, zero, suc, ◌+◌, ◌≤◌, ◌≡◌, ◌∙◌, ltb, ◌==◌, if◌then◌else◌, true, false, List, [], ◌∷◌, ◌++◌,
  length, take, drop, take_all, length-append, append_assoc, append-nil, some, none, Outcome, hang,
  Bool-cases, inl, inr, arith,
}
use machine_project.Sockets.{Answer, give, closed, interrupted, refused, Transfer, finish}
use machine_project.Sockets.Schedules.{Steady, enough, moves, again}

unfoldable pub read_until_newline : ℕ → List ℕ → List ℕ → List Answer → Outcome Transfer
read_until_newline count buffer incoming [] =
    if ltb (length buffer) count then hang else finish (some (length buffer)) buffer incoming []
read_until_newline count buffer incoming (a ∷ rest) =
    if ltb (length buffer) count
    then (elim a [
      | give k ↦ elim incoming [
        | [] ↦ finish (some (length buffer)) buffer [] rest
        | c ∷ cs ↦
            let buffer' = buffer ++ c ∷ [] in
            let on = read_until_newline count buffer' cs rest in
            if c == 10 then finish (some (length buffer')) buffer' cs rest else on
      ]
      | closed ↦ finish (some (length buffer)) buffer incoming rest
      | interrupted ↦ read_until_newline count buffer incoming rest
      | refused ↦ finish none buffer incoming rest
    ])
    else finish (some (length buffer)) buffer incoming (a ∷ rest)

-- The bytes up to the first newline, with it, or all of them.
unfoldable pub first_line : List ℕ → List ℕ
first_line [] = []
first_line (c ∷ cs) = c ∷ (if c == 10 then [] else first_line cs)

abbrev line_read : ℕ → List ℕ → List ℕ → List Answer → Outcome Transfer
line_read r buffer incoming left =
    let got = take r (first_line incoming) in
    finish (some (length (buffer ++ got))) (buffer ++ got) (drop (length got) incoming) left

read_until-full :
    (count : ℕ) (buffer incoming : List ℕ) (answers : List Answer)
    → length buffer + 0 ≡ count
    → read_until_newline count buffer incoming answers ≡ line_read 0 buffer incoming answers
unfolding read_until_newline
read_until-full count buffer incoming [] h =
    let e : ltb (length buffer) count ≡ false = ground arith in rw (e, append-nil buffer)
read_until-full count buffer incoming (a ∷ rest) h =
    let e : ltb (length buffer) count ≡ false = ground arith in rw (e, append-nil buffer)

read_until-end :
    (r count k : ℕ) (buffer : List ℕ) (rest : List Answer)
    → length buffer + suc r ≡ count
    → read_until_newline count buffer [] (give k ∷ rest) ≡ line_read (suc r) buffer [] rest
unfolding read_until_newline first_line
read_until-end r count k buffer rest h =
    let e : ltb (length buffer) count ≡ true = ground arith in rw (e, append-nil buffer)

read_until-newline :
    (r count k c : ℕ) (buffer cs : List ℕ) (rest : List Answer)
    → length buffer + suc r ≡ count
    → (c == 10) ≡ true
    → read_until_newline count buffer (c ∷ cs) (give k ∷ rest)
      ≡ line_read (suc r) buffer (c ∷ cs) rest
unfolding read_until_newline first_line
read_until-newline r count k c buffer cs rest h z =
    let e : ltb (length buffer) count ≡ true = ground arith in
    rw (e, z, take_all {A = ℕ} r [] (omega arith))

read_until-more :
    (r count k c : ℕ) (buffer cs : List ℕ) (rest left : List Answer)
    → length buffer + suc r ≡ count
    → (c == 10) ≡ false
    → read_until_newline count (buffer ++ c ∷ []) cs rest ≡ line_read r (buffer ++ c ∷ []) cs left
    → read_until_newline count buffer (c ∷ cs) (give k ∷ rest)
      ≡ line_read (suc r) buffer (c ∷ cs) left
unfolding read_until_newline first_line
read_until-more r count k c buffer cs rest left h z runs =
    let e : ltb (length buffer) count ≡ true = ground arith in
    rw (e, z) (runs ∙ rw (append_assoc buffer (c ∷ []) (take r (first_line cs))))

read_until-again :
    (r count : ℕ) (buffer incoming : List ℕ) (rest : List Answer)
    → length buffer + suc r ≡ count
    → read_until_newline count buffer incoming (interrupted ∷ rest)
      ≡ read_until_newline count buffer incoming rest
unfolding read_until_newline
read_until-again r count buffer incoming rest h =
    let e : ltb (length buffer) count ≡ true = ground arith in rw e

read_until_lem :
    (n r count : ℕ) (buffer incoming : List ℕ) (answers : List Answer)
    → Steady n answers
    → r ≤ n
    → length buffer + r ≡ count
    → (left : List Answer) × (read_until_newline count buffer incoming answers
        ≡ line_read r buffer incoming left)
read_until_lem n zero count buffer incoming answers s h e =
    (answers, read_until-full count buffer incoming answers e)
read_until_lem n (suc r) count buffer incoming answers enough h e = absurd (omega arith)
read_until_lem n (suc r) count buffer incoming (interrupted ∷ rest) (again s) h e =
    let (left, runs) = read_until_lem n (suc r) count buffer incoming rest s h e in
    (left, read_until-again r count buffer incoming rest e ∙ runs)
read_until_lem (suc n) (suc r) count buffer [] (give k ∷ rest) (moves s) h e =
    (rest, read_until-end r count k buffer rest e)
read_until_lem (suc n) (suc r) count buffer (c ∷ cs) (give k ∷ rest) (moves s) h e =
    let size = length-append buffer (c ∷ []) in
    let (left, runs) =
      read_until_lem n r count (buffer ++ c ∷ []) cs rest s (omega arith) (omega arith) in
    elim (Bool-cases (c == 10)) [
      | inl z ↦ (rest, read_until-newline r count k c buffer cs rest e z)
      | inr z ↦ (left, read_until-more r count k c buffer cs rest left e z runs)
    ]

-- For a schedule of which the first `count` answers, interruptions apart, all move bytes,
-- `read_until_newline` returns, and it has received the bytes of the stream up to its first newline
-- and with it, or the first `count` of them, and leaves what comes behind them to be read.
pub read_until_newline_receives :
    (count : ℕ) (incoming : List ℕ) (answers : List Answer)
    → Steady count answers
    → (left : List Answer) × (let got = take count (first_line incoming) in
        read_until_newline count [] incoming answers
        ≡ finish (some (length got)) got (drop (length got) incoming) left)
read_until_newline_receives count incoming answers s =
    read_until_lem count count count [] incoming answers s (omega arith) (omega arith)
