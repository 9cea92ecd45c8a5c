-- ===== src/Sockets/Messages.antt =====
-- common.c: the message size in front of a message, four bytes in network order. The host is
-- little-endian, so that the first four bytes of the variable that is sent hold what htonl returns.
use machine_project.Prelude.{
  ℕ, min, zero, suc, ◌+◌, ◌*◌, ◌/◌, ◌%◌, ◌^◌, ◌<◌, ◌≡◌, refl, ap, List, [], ◌∷◌, ◌++◌, length,
  take_all, Option, none, some, Outcome, ok, fault, ◌>>=◌, arith,
}
use machine_project.Sockets.{Answer, Transfer, read_all_from_socket, write_all_to_socket}
use machine_project.Sockets.Schedules.{Steady, Steady-less}
use machine_project.Sockets.Reads.{read_all_from_socket_receives, receives_message}
use machine_project.Sockets.Writes.{write_all_to_socket_sends}

-- The bytes of htonl(size), which keeps the low 32 bits, and the number that ntohl reads.
unfoldable pub htonl : ℕ → List ℕ
htonl size = size / 2 ^ 24 % 256 ∷ size / 2 ^ 16 % 256 ∷ size / 2 ^ 8 % 256 ∷ size % 256 ∷ []

unfoldable pub ntohl : List ℕ → Outcome ℕ
ntohl (a ∷ b ∷ c ∷ d ∷ []) = ok (a * 2 ^ 24 + b * 2 ^ 16 + c * 2 ^ 8 + d)
ntohl _ = fault

unfoldable pub write_message_size : ℕ → List Answer → Outcome Transfer
write_message_size size answers = write_all_to_socket (htonl size) [] answers

-- The return value for what `read_all_from_socket` returned. `size` is an uninitialised variable: if
-- fewer than four bytes came, a byte is read that was never written.
unfoldable pub message_size : Option ℕ → List ℕ → Outcome (Option ℕ)
unfolding ntohl
message_size none size = ok none
message_size (some zero) size = ok (some 0)
message_size (some (suc n)) size = ntohl size >>= λ s. ok (some s)

-- The return value, and what is left of the stream.
unfoldable pub get_message_size : List ℕ → List Answer → Outcome (Option ℕ × List ℕ)
get_message_size incoming answers = do
  t ← read_all_from_socket 4 [] incoming answers
  size ← message_size t.result t.buffer
  ok (size, t.incoming)

bytes_of_size :
    (size : ℕ)
    → size < 2 ^ 32
    → size / 2 ^ 24 % 256 * 2 ^ 24
        + size / 2 ^ 16 % 256 * 2 ^ 16
        + size / 2 ^ 8 % 256 * 2 ^ 8
        + size % 256
      ≡ size
bytes_of_size size h = omega arith

message_size-htonl :
    (size : ℕ)
    → size < 2 ^ 32
    → message_size (some (length (htonl size))) (htonl size) ≡ ok (some size)
unfolding message_size htonl ntohl
message_size-htonl size h = ap (λ n. ok (some n)) (bytes_of_size size h)

message_size-short :
    (bytes : List ℕ)
    → 0 < length bytes
    → length bytes < 4
    → message_size (some (length bytes)) bytes ≡ fault
unfolding message_size
message_size-short [] h few = absurd (omega arith)
message_size-short (a ∷ []) h few = refl
message_size-short (a ∷ b ∷ []) h few = refl
message_size-short (a ∷ b ∷ c ∷ []) h few = refl
message_size-short (a ∷ b ∷ c ∷ d ∷ rest) h few = absurd (omega arith)

-- For a size below 2 ^ 32, a schedule for the writer with four answers that move bytes and one for
-- the reader with five, `write_message_size` sends four bytes, and `get_message_size` at the other
-- end, with any bytes behind them, returns the size and leaves these bytes to be read.
pub get_message_size-write_message_size :
    (size : ℕ) (more : List ℕ) (writer reader : List Answer)
    → size < 2 ^ 32
    → Steady 4 writer
    → Steady 5 reader
    → (sent : Transfer) × (write_message_size size writer ≡ ok sent)
      × (length sent.buffer ≡ 4)
      × (get_message_size (sent.buffer ++ more) reader ≡ ok (some size, more))
unfolding write_message_size get_message_size htonl
get_message_size-write_message_size size more writer reader h w r =
    let (left, sends) = write_all_to_socket_sends (htonl size) writer w in
    let (left', reads) = receives_message (htonl size) more reader r in
    (
      record { result = some 4; buffer = htonl size; incoming = []; answers = left },
      sends,
      refl,
      rw (reads, message_size-htonl size h),
    )

-- If the stream ends behind one, two or three bytes, `get_message_size` takes its value from a
-- variable that was not initialised.
get_message_size_faults :
    (incoming : List ℕ) (answers : List Answer)
    → 0 < length incoming
    → length incoming < 4
    → Steady 5 answers
    → get_message_size incoming answers ≡ fault
unfolding get_message_size
get_message_size_faults incoming answers some_came few s =
    let (left, reads) =
      read_all_from_socket_receives 4 incoming answers
        (Steady-less (suc (min 4 (length incoming))) 5 answers (omega arith) s) in
    let whole = take_all 4 incoming (omega arith) in
    rw (reads, whole, message_size-short incoming some_came few)
