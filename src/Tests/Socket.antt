-- ===== src/Tests/Socket.antt =====
-- A socket in memory that gives and takes one byte at a time, and the byte loops over it.
use russian_ai_cup.Base.{ℕ, ◌<◌, ◌≡◌, refl, ℤ, pos, true, List, [], ◌∷◌, ◌++◌, length, none, arith}
use russian_ai_cup.Client.Monad.{Platform, Client, ok, exit}
use russian_ai_cup.Client.Stream.{
  IsStream, Receives, piece, ended, Sends, taken, read_bytes-full, read_bytes-short,
}
use russian_ai_cup.Client.Output.{IsOpen, Writes, write_bytes-Writes}
use russian_ai_cup.Client.Bytes.{read_bytes, write_bytes}
use russian_ai_cup.Client.Scalars.{load, reorder, value_of}
use russian_ai_cup.Client.Endian.{load-reorder_four}

-- What is still to come, and what has been sent.
pub data Pipe : Type 0 where
  pipe : List ℕ → List ℕ → Pipe

abbrev pub to_come : Pipe → List ℕ
to_come (pipe bytes _) = bytes

abbrev pub gone : Pipe → List ℕ
gone (pipe _ bytes) = bytes

abbrev pub receive : ℕ → Pipe → ℤ × List ℕ × Pipe
receive n (pipe [] sent) = (pos 0, [], pipe [] sent)
receive n (pipe (b ∷ bs) sent) = (pos 1, b ∷ [], pipe bs sent)

abbrev pub send : List ℕ → Pipe → ℤ × Pipe
send [] s = (pos 0, s)
send (b ∷ bs) (pipe bytes sent) = (pos 1, pipe bytes (sent ++ (b ∷ [])))

abbrev pub drip : Platform Pipe
drip = record {
  open_socket = λ host port s. (true, s);
  close_socket = λ s. s;
  receive = receive;
  send = send;
  little_endian = true;
}

pub receive-Receives :
    (n : ℕ) (s : Pipe)
    → 0 < n
    → Receives n (to_come s) (to_come (receive n s).2) (receive n s).0 (receive n s).1
receive-Receives n (pipe [] sent) h = ended refl refl refl
receive-Receives n (pipe (b ∷ bs) sent) h = piece 0 refl (omega arith) refl refl

pub receive-keeps : (n : ℕ) (s : Pipe) → gone (receive n s).2 ≡ gone s
receive-keeps n (pipe [] sent) = refl
receive-keeps n (pipe (b ∷ bs) sent) = refl

pub send-Sends :
    (bytes : List ℕ) (s : Pipe)
    → 0 < length bytes
    → Sends bytes (gone s) (gone (send bytes s).1) (send bytes s).0
send-Sends [] s h = absurd (omega arith)
send-Sends (b ∷ bs) (pipe bytes sent) h = taken 0 refl (omega arith) refl

pub send-keeps : (bytes : List ℕ) (s : Pipe) → to_come (send bytes s).1 ≡ to_come s
send-keeps [] s = refl
send-keeps (b ∷ bs) (pipe bytes sent) = refl

abbrev pub drip-IsStream : IsStream drip
drip-IsStream = record {
  incoming = to_come;
  outgoing = gone;
  receives = receive-Receives;
  receive_keeps = receive-keeps;
  sends = send-Sends;
  send_keeps = send-keeps;
}

pub drip-IsOpen : IsOpen drip-IsStream
drip-IsOpen [] s h = absurd (omega arith)
drip-IsOpen (b ∷ bs) (pipe bytes sent) h = omega arith

abbrev pub full : List ℕ → Pipe
full bytes = pipe bytes []

abbrev client : List ℕ → Client Pipe
client bytes = record {
  socket = full bytes;
  caches = record { cells = none; cell_visibilities = none };
}

read_bytes-full_example :
    (s' : Pipe) × (read_bytes drip 2 (client (7 ∷ 8 ∷ 9 ∷ []))
      ≡ (ok (7 ∷ 8 ∷ []), record (client []) { socket = s' }))
    × (to_come s' ≡ 9 ∷ [])
    × (gone s' ≡ [])
read_bytes-full_example =
    read_bytes-full drip drip-IsStream (7 ∷ 8 ∷ []) (9 ∷ []) (client (7 ∷ 8 ∷ 9 ∷ [])) refl

read_bytes-short_example :
    (s' : Pipe) × (read_bytes drip 2 (client (7 ∷ []))
      ≡ (exit 10012, record (client []) { socket = s' }))
    × (gone s' ≡ [])
read_bytes-short_example = read_bytes-short drip drip-IsStream 2 (client (7 ∷ [])) (omega arith)

write_bytes-Writes_example : Writes drip-IsStream (write_bytes drip (1 ∷ 2 ∷ [])) (1 ∷ 2 ∷ [])
write_bytes-Writes_example = write_bytes-Writes drip-IsStream (1 ∷ 2 ∷ [])

load-reorder_four_example :
    load drip (reorder drip (1 ∷ 2 ∷ 3 ∷ 4 ∷ [])) ≡ value_of (1 ∷ 2 ∷ 3 ∷ 4 ∷ [])
load-reorder_four_example = load-reorder_four drip 1 2 3 4
