-- ===== src/Sockets/Files.antt =====
-- common.c: help_write_read_file, which sends a file in blocks, or receives one and at most a block
-- more. A file is the list of its bytes from the position of the file pointer on.
use machine_project.Prelude.{
  ℕ, zero, suc, ◌+◌, ◌-◌, ltb, leb, ◌==◌, ◌||◌, not, if◌then◌else◌, true, false, Bool, List, [],
  ◌++◌, length, take, drop, some, none, Option, Outcome, ok, fault, hang, ◌>>=◌,
}
use machine_project.Sockets.{Answer, read_all_from_socket, write_all_to_socket}

abbrev pub block_size : ℕ
block_size = 1024

-- fread(buffer, 1, len, fp) into an array that nothing was written to: where the file has fewer bytes,
-- the rest of the array is sent as it is.
unfoldable pub read_block : ℕ → List ℕ → Outcome (List ℕ)
read_block len file = if ltb (length file) len then fault else ok (take len file)

-- Whether a block was sent as a whole.
unfoldable pub is_sent : Option ℕ → ℕ → Bool
is_sent none len = false
is_sent (some n) len = not (n == 0 || ltb n len)

abbrev pub write_len : ℕ → ℕ → ℕ
write_len size count = if leb size (block_size + count) then size - count else block_size

abbrev pub read_len : ℕ → ℕ → ℕ
read_len size count = if leb size count then size + block_size - count else block_size

-- The first loop: the return value, the bytes sent, and the answers left.
unfoldable pub write_file :
    ℕ → ℕ → ℕ → List ℕ → List ℕ → List Answer → Outcome (ℕ × List ℕ × List Answer)
write_file zero size count file sent answers =
    if ltb count size then hang else ok (0, sent, answers)
write_file (suc fuel) size count file sent answers =
    if ltb count size
    then (do
      let len = write_len size count
      buffer ← read_block len file
      t ← write_all_to_socket buffer [] answers
      elim (is_sent t.result len) [
        | true ↦ write_file fuel size (count + len) (drop len file) (sent ++ t.buffer) t.answers
        | false ↦ ok (1, sent ++ t.buffer, t.answers)
      ])
    else ok (0, sent, answers)

-- The second loop: the return value, the bytes written to the file, and what is left of the stream.
unfoldable pub read_file : ℕ → ℕ → ℕ → List ℕ → List ℕ → List Answer → Outcome (ℕ × List ℕ × List ℕ)
read_file zero size count written incoming answers =
    if ltb count (size + block_size) then hang else ok (count, written, incoming)
read_file (suc fuel) size count written incoming answers =
    if ltb count (size + block_size)
    then (do
      t ← read_all_from_socket (read_len size count) [] incoming answers
      elim t.result [
        | none ↦ ok (count, written, t.incoming)
        | some read_size ↦ elim (read_size == 0) [
          | true ↦ ok (count, written, t.incoming)
          | false ↦
              read_file fuel size (count + read_size) (written ++ t.buffer) t.incoming t.answers
        ]
      ])
    else ok (count, written, incoming)

-- As many rounds as there are bytes, since each round that is not the last moves one at least.
unfoldable pub help_write_file : ℕ → List ℕ → List Answer → Outcome (ℕ × List ℕ × List Answer)
help_write_file size file answers = write_file size size 0 file [] answers

unfoldable pub help_read_file : ℕ → List ℕ → List Answer → Outcome (ℕ × List ℕ × List ℕ)
help_read_file size incoming answers = read_file (size + block_size) size 0 [] incoming answers
