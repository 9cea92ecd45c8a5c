-- ===== src/Sockets/Sending.antt =====
-- common.c: what help_write_read_file sends.
use machine_project.Prelude.{
  ℕ, zero, suc, ◌+◌, ◌-◌, ◌≤◌, ◌<◌, ◌≡◌, ap, ◌∙◌, ltb, true, false, List, [], ◌++◌, length, take,
  drop, take-take_more, length-take, length-drop, append_assoc, append-nil, some, ok, ◌>>=◌,
  Bool-cases, inl, inr, arith,
}
use machine_project.Sockets.{Answer, finish, write_all_to_socket}
use machine_project.Sockets.Schedules.{Steady}
use machine_project.Sockets.Writes.{writes_all}
use machine_project.Sockets.Files.{read_block, is_sent, write_len, write_file, help_write_file}

read_block_lem :
    (len : ℕ) (file : List ℕ) → len ≤ length file → read_block len file ≡ ok (take len file)
unfolding read_block
read_block_lem len file h = let e : ltb (length file) len ≡ false = ground arith in rw e

is_sent_lem : (n len : ℕ) → n ≡ len → 0 < len → is_sent (some n) len ≡ true
unfolding is_sent
is_sent_lem n len e h = ground arith

write_file-step :
    (fuel size count : ℕ) (file sent : List ℕ) (answers left : List Answer)
    → ltb count size ≡ true
    → write_len size count ≤ length file
    → 0 < write_len size count
    → (let buffer = take (write_len size count) file in
        write_all_to_socket buffer [] answers ≡ finish (some (length buffer)) buffer [] left)
    → write_file (suc fuel) size count file sent answers
      ≡ write_file fuel size
          (count + write_len size count)
          (drop (write_len size count) file)
          (sent ++ take (write_len size count) file)
          left
unfolding write_file
write_file-step fuel size count file sent answers left e fits nonzero runs =
    let n : length (take (write_len size count) file) ≡ write_len size count =
      omega (arith, length-take (write_len size count) file) in
    rw (
      e,
      read_block_lem (write_len size count) file fits,
      runs,
      ◌>>=◌,
      is_sent_lem (length (take (write_len size count) file)) (write_len size count) n nonzero,
    )

write_file-done :
    (fuel size count : ℕ) (file sent : List ℕ) (answers : List Answer)
    → ltb count size ≡ false
    → write_file fuel size count file sent answers
      ≡ ok (0, sent ++ take (size - count) file, answers)
unfolding write_file
write_file-done zero size count file sent answers e =
    let n : size - count ≡ 0 = ground arith in rw (n, e, append-nil sent)
write_file-done (suc fuel) size count file sent answers e =
    let n : size - count ≡ 0 = ground arith in rw (n, e, append-nil sent)

take-take :
    (n r : ℕ) (xs : List ℕ)
    → n ≤ r
    → n ≤ length xs
    → take n xs ++ take (r - n) (drop n xs) ≡ take r xs
take-take n r xs h fits =
    let e : length (take n xs) ≡ n = omega (arith, length-take n xs) in
    rw e at (take-take_more n r xs h)

write_len-small :
    (size count : ℕ)
    → count < size
    → (0 < write_len size count) × (write_len size count ≤ size - count)
write_len-small size count h = (ground arith, ground arith)

write_file-more :
    (fuel size count : ℕ) (file sent : List ℕ) (answers left left' : List Answer)
    → count < size
    → size - count ≤ length file
    → (let buffer = take (write_len size count) file in
        write_all_to_socket buffer [] answers ≡ finish (some (length buffer)) buffer [] left)
    → (let len = write_len size count in
        write_file fuel size (count + len) (drop len file) (sent ++ take len file) left
        ≡ ok (0, sent ++ take len file ++ take (size - (count + len)) (drop len file), left'))
    → write_file (suc fuel) size count file sent answers
      ≡ ok (0, sent ++ take (size - count) file, left')
write_file-more fuel size count file sent answers left left' h fits sends runs =
    let len = write_len size count in
    let (nonzero, small) = write_len-small size count h in
    let to_go : size - (count + len) ≡ size - count - len = omega arith in
    write_file-step fuel size count file sent answers left (ground arith) (omega arith) nonzero
      sends
    ∙ runs
    ∙ rw (
      to_go,
      append_assoc sent (take len file) (take (size - count - len) (drop len file)),
      take-take len (size - count) file small (omega arith),
    )

write_file_lem :
    (fuel n size count : ℕ) (file sent : List ℕ) (answers : List Answer)
    → Steady n answers
    → size - count ≤ n
    → size - count ≤ fuel
    → size - count ≤ length file
    → (left : List Answer) × (write_file fuel size count file sent answers
        ≡ ok (0, sent ++ take (size - count) file, left))
write_file_lem zero n size count file sent answers s steps rounds fits =
    (answers, write_file-done zero size count file sent answers (ground arith))
write_file_lem (suc fuel) n size count file sent answers s steps rounds fits =
    elim (Bool-cases (ltb count size)) [
      | inr e ↦ (answers, write_file-done (suc fuel) size count file sent answers e)
      | inl e ↦
          let len = write_len size count in
          let (nonzero, small) = write_len-small size count (ground arith) in
          let size_of = length-take len file in
          let size_left = length-drop len file in
          let (left, steady, sends) =
            writes_all n (size - count - len) (take len file) answers s (omega arith) in
          let (left', runs) =
            write_file_lem fuel (size - count - len) size (count + len) (drop len file)
              (sent ++ take len file) left steady (omega arith) (omega arith) (omega arith) in
          (
            left',
            write_file-more fuel size count file sent answers left left' (ground arith) fits sends
                runs,
          )
    ]

-- For a file with `size` bytes or more and a schedule of which the first `size` answers,
-- interruptions apart, all move bytes, the sending half of `help_write_read_file` ends, returns 0 and
-- has sent the first `size` bytes of the file, in order.
pub help_write_file_sends :
    (size : ℕ) (file : List ℕ) (answers : List Answer)
    → size ≤ length file
    → Steady size answers
    → (left : List Answer) × (help_write_file size file answers ≡ ok (0, take size file, left))
unfolding help_write_file
help_write_file_sends size file answers fits s =
    let all : size - 0 ≡ size = omega arith in
    let (left, runs) =
      write_file_lem size size size 0 file [] answers s (omega arith) (omega arith) (omega arith) in
    (left, runs ∙ ap (λ j. ok (0, take j file, left)) all)
