-- ===== src/Sockets/Receiving.antt =====
-- common.c: what help_write_read_file receives.
use machine_project.Prelude.{
  ℕ, zero, suc, ◌+◌, ◌-◌, ◌*◌, ◌≤◌, ◌<◌, ◌≡◌, refl, ◌∙◌, min, ltb, ◌==◌, true, false, List, [], ◌∷◌,
  ◌++◌, length, take, drop, take_all, drop_all, take-take_more, drop-drop_more, length-take,
  length-append, append_assoc, append-nil, some, Outcome, ok, ◌>>=◌, Bool-cases, inl, inr, arith,
}
use machine_project.Sockets.{Answer, finish, read_all_from_socket}
use machine_project.Sockets.Schedules.{Steady}
use machine_project.Sockets.Reads.{reads_all, no_bytes}
use machine_project.Sockets.Files.{block_size, read_len, read_file, help_read_file}

drop-length-take : (n : ℕ) (xs : List ℕ) → drop (length (take n xs)) xs ≡ drop n xs
drop-length-take zero xs = refl
drop-length-take (suc n) [] = refl
drop-length-take (suc n) (x ∷ xs) = drop-length-take n xs

read_file-done :
    (fuel size count : ℕ) (written incoming : List ℕ) (answers : List Answer)
    → ltb count (size + block_size) ≡ false
    → read_file fuel size count written incoming answers ≡ ok (count, written, incoming)
unfolding read_file
read_file-done zero size count written incoming answers e = rw e
read_file-done (suc fuel) size count written incoming answers e = rw e

read_file-step :
    (fuel size count : ℕ) (written incoming : List ℕ) (answers left : List Answer)
    (got more : List ℕ)
    → ltb count (size + block_size) ≡ true
    → read_all_from_socket (read_len size count) [] incoming answers
      ≡ finish (some (length got)) got more left
    → (length got == 0) ≡ false
    → read_file (suc fuel) size count written incoming answers
      ≡ read_file fuel size (count + length got) (written ++ got) more left
unfolding read_file
read_file-step fuel size count written incoming answers left got more e reads z =
    rw (e, reads, ◌>>=◌, z)

read_file-end :
    (fuel size count : ℕ) (written incoming : List ℕ) (answers left : List Answer)
    (got more : List ℕ)
    → ltb count (size + block_size) ≡ true
    → read_all_from_socket (read_len size count) [] incoming answers
      ≡ finish (some (length got)) got more left
    → (length got == 0) ≡ true
    → read_file (suc fuel) size count written incoming answers ≡ ok (count, written, more)
unfolding read_file
read_file-end fuel size count written incoming answers left got more e reads z =
    rw (e, reads, ◌>>=◌, z)

-- What the loop comes to with `r` bytes to go.
abbrev received : ℕ → ℕ → List ℕ → List ℕ → Outcome (ℕ × List ℕ × List ℕ)
received r count written incoming =
    ok (count + length (take r incoming), written ++ take r incoming, drop r incoming)

received-more :
    (len r count : ℕ) (written incoming : List ℕ)
    → len ≤ r
    → (let got = take len incoming in
        received (r - length got) (count + length got) (written ++ got) (drop len incoming))
      ≡ received r count written incoming
received-more len r count written incoming h =
    let got = take len incoming in
    let rest = take (r - length got) (drop (length got) incoming) in
    let n : count + length got + length rest ≡ count + length (got ++ rest) =
      omega (arith, length-append got rest) in
    rw⁻¹ (drop-length-take len incoming) (
      rw (
        n,
        append_assoc written got rest,
        take-take_more len r incoming h,
        drop-drop_more len r incoming h,
      ))

received-none :
    (r count : ℕ) (written incoming : List ℕ)
    → incoming ≡ []
    → ok (count, written, incoming) ≡ received r count written incoming
received-none r count written incoming e =
    let n : count + 0 ≡ count = omega arith in
    rw e (
      rw (
        take_all {A = ℕ} r [] (omega arith),
        drop_all {A = ℕ} r [] (omega arith),
        append-nil written,
        n,
      ))

read_len-small :
    (size count : ℕ)
    → count < size + block_size
    → (0 < read_len size count) × (read_len size count ≤ size + block_size - count)
read_len-small size count h = (ground arith, ground arith)

read_file-full :
    (fuel size count : ℕ) (written incoming : List ℕ) (answers : List Answer)
    → ltb count (size + block_size) ≡ false
    → read_file fuel size count written incoming answers
      ≡ received (size + block_size - count) count written incoming
read_file-full fuel size count written incoming answers e =
    let r : size + block_size - count ≡ 0 = ground arith in
    let n : count + 0 ≡ count = omega arith in
    read_file-done fuel size count written incoming answers e ∙ rw (r, n, append-nil written)

read_file-none :
    (fuel size count : ℕ) (written incoming : List ℕ) (answers left : List Answer)
    → ltb count (size + block_size) ≡ true
    → 0 < read_len size count
    → (let got = take (read_len size count) incoming in
        (read_all_from_socket (read_len size count) [] incoming answers
          ≡ finish (some (length got)) got (drop (read_len size count) incoming) left)
        × ((length got == 0) ≡ true))
    → read_file (suc fuel) size count written incoming answers
      ≡ received (size + block_size - count) count written incoming
read_file-none fuel size count written incoming answers left e nonzero (reads, z) =
    let len = read_len size count in
    let none_left = no_bytes len incoming nonzero z in
    let same : drop len incoming ≡ incoming = rw none_left (drop_all len [] (omega arith)) in
    read_file-end fuel size count written incoming answers left (take len incoming)
      (drop len incoming) e reads z
    ∙ rw same (received-none (size + block_size - count) count written incoming none_left)

read_file-more :
    (fuel size count : ℕ) (written incoming : List ℕ) (answers left : List Answer)
    → count < size + block_size
    → (let got = take (read_len size count) incoming in
        (read_all_from_socket (read_len size count) [] incoming answers
          ≡ finish (some (length got)) got (drop (read_len size count) incoming) left)
        × ((length got == 0) ≡ false)
        × (read_file fuel size
              (count + length got)
              (written ++ got)
              (drop (read_len size count) incoming)
              left
            ≡ received
                (size + block_size - (count + length got))
                (count + length got)
                (written ++ got)
                (drop (read_len size count) incoming)))
    → read_file (suc fuel) size count written incoming answers
      ≡ received (size + block_size - count) count written incoming
read_file-more fuel size count written incoming answers left h (reads, z, runs) =
    let len = read_len size count in
    let got = take len incoming in
    let (nonzero, small) = read_len-small size count h in
    let to_go : size + block_size - (count + length got) ≡ size + block_size - count - length got =
      omega arith in
    read_file-step fuel size count written incoming answers left got (drop len incoming)
      (ground arith) reads z
    ∙ runs
    ∙ rw to_go (received-more len (size + block_size - count) count written incoming small)

read_file_lem :
    (fuel n size count : ℕ) (written incoming : List ℕ) (answers : List Answer)
    → Steady n answers
    → 2 * (size + block_size - count) ≤ n
    → size + block_size - count ≤ fuel
    → count ≤ size + block_size
    → read_file fuel size count written incoming answers
      ≡ received (size + block_size - count) count written incoming
read_file_lem zero n size count written incoming answers s steps rounds fits =
    read_file-full zero size count written incoming answers (ground arith)
read_file_lem (suc fuel) n size count written incoming answers s steps rounds fits =
    elim (Bool-cases (ltb count (size + block_size))) [
      | inr e ↦ read_file-full (suc fuel) size count written incoming answers e
      | inl e ↦
          let len = read_len size count in
          let got = take len incoming in
          let (nonzero, small) = read_len-small size count (ground arith) in
          let size_of = length-take len incoming in
          let (left, steady, reads) =
            reads_all n (n - suc (min len (length incoming))) len incoming answers s
              (omega arith) in
          elim (Bool-cases (length got == 0)) [
            | inl z ↦
                read_file-none fuel size count written incoming answers left e nonzero (reads, z)
            | inr z ↦
                let some_got : 0 < length got = ground arith in
                read_file-more fuel size count written incoming answers left (ground arith) (
                  reads,
                  z,
                  read_file_lem fuel (n - suc (min len (length incoming))) size (count + length got)
                      (written ++ got) (drop len incoming) left steady (omega arith) (omega arith)
                      (omega arith),
                )
          ]
    ]

-- For a schedule of which the first answers, twice as many as `size + 1024` and interruptions apart,
-- all move bytes, the receiving half of `help_write_read_file` ends; it has written the first
-- `size + 1024` bytes of the stream to the file, or all of a shorter one, in order, has returned how
-- many these are, and leaves the rest to be read.
pub help_read_file_receives :
    (size : ℕ) (incoming : List ℕ) (answers : List Answer)
    → Steady (2 * (size + block_size)) answers
    → (let got = take (size + block_size) incoming in
        help_read_file size incoming answers
        ≡ ok (length got, got, drop (size + block_size) incoming))
unfolding help_read_file
help_read_file_receives size incoming answers s =
    let all : size + block_size - 0 ≡ size + block_size = omega arith in
    let got = take (size + block_size) incoming in
    let n : 0 + length got ≡ length got = omega arith in
    read_file_lem (size + block_size) (2 * (size + block_size)) size 0 [] incoming answers s
      (omega arith) (omega arith) (omega arith)
    ∙ rw (all, n)
