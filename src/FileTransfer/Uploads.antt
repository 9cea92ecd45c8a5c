-- ===== src/FileTransfer/Uploads.antt =====
-- client.c and server.c: a client that puts a file, and the server that it speaks to.
use machine_project.Prelude.{
  ℕ, ◌+◌, ◌-◌, ◌*◌, ◌^◌, ◌≤◌, ◌<◌, ◌≡◌, refl, true, List, [], ◌∷◌, ◌++◌, length, some, ok, arith,
}
use machine_project.Sockets.{Answer}
use machine_project.Sockets.Files.{block_size}
use machine_project.FileTransfer.{size_bytes}
use machine_project.FileTransfer.Parse.{is_word}
use machine_project.FileTransfer.Server.{Dictionary, Texts, ok_text, Disk, look, path_of, Session}
use machine_project.FileTransfer.Calls.{Ready}
use machine_project.FileTransfer.Requests.{serve_client}
use machine_project.FileTransfer.Puts.{put_stores}
use machine_project.FileTransfer.Arguments.{Args}
use machine_project.FileTransfer.Client.{text, success, Client, run_client}
use machine_project.FileTransfer.Sends.{put_line, Puts, run_client-put}

-- The session of a server to which what the client sent arrives, on a new connection.
abbrev pub arriving : {D : Dictionary} → List ℕ → List (List Answer) → Session D → Session D
arriving request schedules s = record s {
  connection = record { incoming = request; sent = []; schedules = schedules };
}

-- A client puts a local file under a name that is a word; in the server the path is not too long and can be
-- opened for writing, the size of the file plus 1,024 is below 2 ^ 63, and on the first four calls of
-- each side the kernel moves bytes in each answer, interruptions apart. Then the server, which is given
-- the bytes that the client sends, answers with the bytes that the client is given, the client ends with
-- the print of OK and of success, and the server has the bytes of the client's file under the path.
pub put_arrives :
    (D : Dictionary) (x : Texts) (fresh : List ℕ) (n : ℕ) (a : Args) (disk : Disk) (s : Session D)
    (name path file : List ℕ) (calls calls' : List (List Answer))
    → (let c : Client = record {
      disk = disk;
      connection = record { incoming = ok_text; sent = []; schedules = calls };
      printed = [];
    } in
        Puts a c name path file)
    → is_word name ≡ true
    → 0 < length name
    → length s.server.directory + length name + 2 ≤ 255
    → s.server.disk.writable (path_of s.server.directory name) ≡ true
    → length file < 2 ^ 63 - block_size
    → Ready 4 n calls
    → Ready 4 n calls'
    → 2 * (length file + block_size) ≤ n
    → (c' : Client) × (t : Session D) × (run_client fresh a (record {
      disk = disk;
      connection = record { incoming = ok_text; sent = []; schedules = calls };
      printed = [];
    })
        ≡ ok c')
      × (serve_client D x (arriving c'.connection.sent calls' s) ≡ ok t)
      × (t.connection.sent ≡ ok_text)
      × (c'.printed ≡ text ok_text ∷ success ∷ [])
      × (look (path_of s.server.directory name) t.server.disk.files ≡ some file)
put_arrives D x fresh n a disk s name path file calls calls' p word some_name short creates small r
      r' h =
    let c : Client = record {
      disk = disk;
      connection = record { incoming = ok_text; sent = []; schedules = calls };
      printed = [];
    } in
    let request = put_line name ++ (size_bytes (length file) ++ file) in
    let (rest, runs) =
      run_client-put fresh n a c name path file [] p refl r (omega arith) (omega arith) in
    let (t, serves, stores, size, answers, reads) =
      put_stores D x (arriving request calls' s) n name file word some_name short creates small refl
        r' h in
    (
      record c {
        connection = record { incoming = []; sent = request; schedules = rest };
        printed = text ok_text ∷ success ∷ [];
      },
      t,
      runs,
      serves,
      answers,
      refl,
      stores,
    )
