-- ===== src/FileTransfer/Stored.antt =====
-- server.c: what help_put leaves where all that is announced comes.
use machine_project.Prelude.{
  ℕ, suc, ◌+◌, ◌-◌, ◌*◌, ◌^◌, ◌≤◌, ◌<◌, ◌≡◌, refl, ap, sym, ◌∙◌, ltb, ◌==◌, true, false, List, [],
  ◌++◌, length, some, ok, arith,
}
use machine_project.Sockets.{Answer}
use machine_project.Sockets.Files.{block_size}
use machine_project.FileTransfer.{Connection, receive, receive_file, size_bytes, size_of_bytes}
use machine_project.FileTransfer.Server.{Dictionary, write_disk, path_of, Session}
use machine_project.FileTransfer.Calls.{Ready, receive-Ready, receive_file-Ready}
use machine_project.FileTransfer.Handlers.{
  is_long, path, open_new, close_file, put_bytes, put_size, help_put,
}

pub size_of_bytes-size_bytes : (n : ℕ) → n < 2 ^ 64 → size_of_bytes (size_bytes n) ≡ ok n
unfolding size_of_bytes size_bytes
size_of_bytes-size_bytes n h = ap ok (omega arith)

pub length-size_bytes : (n : ℕ) → length (size_bytes n) ≡ 8
unfolding size_bytes
length-size_bytes n = refl

module _ (D : Dictionary) where
  unfoldable pub stored : List ℕ → List (List Answer) → Session D → Session D
  unfolding write_disk path_of open_new
  stored file rest s = record s {
    server = record s.server {
      disk = write_disk (path D s) file (open_new D s).disk;
      names = (open_new D s).names;
      sizes = D.dictionary_set s.info.file_name (length file) s.server.sizes;
    };
    connection = record s.connection { incoming = []; schedules = rest };
  }

  put_size-size_bytes :
      (n : ℕ) (s : Session D)
      → n < 2 ^ 64
      → put_size D (some (length (size_bytes n))) (size_bytes n) s ≡ put_bytes D n s
  unfolding put_size
  put_size-size_bytes n s h = rw (length-size_bytes n, size_of_bytes-size_bytes n h)

  put_bytes-receives :
      (s : Session D) (file : List ℕ) (c : Connection)
      → length file < 2 ^ 63 - block_size
      → receive_file (length file) s.connection ≡ ok (length file, file, c)
      → put_bytes D (length file) s
        ≡ close_file D (length file) (length file) file (record s { connection = c })
  unfolding put_bytes
  put_bytes-receives s file c small runs =
      let fits : ltb (length file) (2 ^ 63 - block_size) ≡ true = ground arith in rw (fits, runs)

  close_file-whole :
      (s : Session D) (file : List ℕ)
      → close_file D (length file) (length file) file s
        ≡ ok (
          0,
          record s {
            server = record s.server {
              disk = write_disk (path D s) file s.server.disk;
              sizes = D.dictionary_set s.info.file_name (length file) s.server.sizes;
            };
          },
        )
  unfolding close_file
  close_file-whole s file = let same : (length file == length file) ≡ true = ground arith in rw same

  pub help_put-stores :
      (s : Session D) (k n : ℕ) (file : List ℕ)
      → is_long D s ≡ false
      → s.server.disk.writable (path D s) ≡ true
      → length file < 2 ^ 63 - block_size
      → s.connection.incoming ≡ size_bytes (length file) ++ file
      → Ready (suc (suc k)) n s.connection.schedules
      → 2 * (length file + block_size) ≤ n
      → (rest : List (List Answer)) × Ready k n rest × (help_put D s ≡ ok (0, stored file rest s))
  unfolding help_put stored open_new
  help_put-stores s k n file short creates small e r h =
      let size = length file in
      let (left, ready, comes) =
        receive-Ready (suc k) n (size_bytes size) file s.connection r
          (omega (arith, length-size_bytes size)) e in
      let c = record s.connection { incoming = file; schedules = left } in
      let s' : Session D = record s { server = open_new D s; connection = c } in
      let (rest, later, runs) = receive_file-Ready k n file c ready h refl in
      let c' = record c { incoming = []; schedules = rest } in
      (
        rest,
        later,
        rw (short, creates, ap (λ m. receive m s.connection) (sym (length-size_bytes size)), comes)
            (put_size-size_bytes size s' (omega arith)
              ∙ put_bytes-receives s' file c' small runs
              ∙ close_file-whole (record s' { connection = c' }) file),
      )
