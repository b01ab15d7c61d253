-- ===== src/Client/Stream.antt =====
-- readBytes and writeBytes over a socket that carries a stream of bytes, in whatever pieces.
use russian_ai_cup.Base.{
  ℕ, zero, suc, ◌+◌, ◌-◌, ◌≤◌, ◌<◌, ℤ, pos, pos_part, ◌≡◌, ◌≢◌, refl, sym, ap, ◌∙◌, List, [], ◌∷◌,
  ◌++◌, append-nil, append_assoc, length, length-append, take, arith,
}
use russian_ai_cup.Client.Monad.{Platform, Client, ok, exit}
use russian_ai_cup.Client.Bytes.{read_loop, read_bytes}

-- What is documented of a TCP socket. `incoming` is all that the peer has sent and not yet been
-- received; `outgoing` is all that has been handed over. Receive waits for a byte at least while the
-- peer has more to come, and answers no more than was asked; Send takes some of what it is given, or
-- fails.
pub data Receives (n : ℕ) (before after : List ℕ) (count : ℤ) (got : List ℕ) : Type 0 where
  piece :
      (k : ℕ)
      → count ≡ pos (suc k)
      → suc k ≤ n
      → length got ≡ suc k
      → before ≡ got ++ after
      → Receives n before after count got
  ended : pos_part count ≡ 0 → before ≡ [] → after ≡ [] → Receives n before after count got

pub data Sends (bytes before after : List ℕ) (count : ℤ) : Type 0 where
  taken :
      (k : ℕ)
      → count ≡ pos (suc k)
      → suc k ≤ length bytes
      → after ≡ before ++ take (suc k) bytes
      → Sends bytes before after count
  failed : pos_part count ≡ 0 → after ≡ before → Sends bytes before after count

pub record IsStream {S : Type 0} (p : Platform S) : Type 0 where
  pub incoming : S → List ℕ
  pub outgoing : S → List ℕ
  pub receives :
      (n : ℕ) (s : S)
      → 0 < n
      → Receives n (incoming s) (incoming (p.receive n s).2) (p.receive n s).0 (p.receive n s).1
  pub receive_keeps : (n : ℕ) (s : S) → outgoing (p.receive n s).2 ≡ outgoing s
  pub sends :
      (bytes : List ℕ) (s : S)
      → 0 < length bytes
      → Sends bytes (outgoing s) (outgoing (p.send bytes s).1) (p.send bytes s).0
  pub send_keeps : (bytes : List ℕ) (s : S) → incoming (p.send bytes s).1 ≡ incoming s

-- Where two splits of one list meet.
pub append-split :
    (a b c d : List ℕ)
    → length a ≤ length c
    → a ++ b ≡ c ++ d
    → (e : List ℕ) × (c ≡ a ++ e) × (b ≡ e ++ d)
append-split [] b c d h e = (c, refl, e)
append-split (x ∷ a) b [] d h e = absurd (omega arith)
append-split (x ∷ a) b (y ∷ c) d h e =
    let (r, p, q) = append-split a b c d (omega arith) (ground arith) in (r, ground arith, q)

nil_not_cons : (x : ℕ) (xs : List ℕ) → [] ≢ x ∷ xs
nil_not_cons x xs e = cc

take_all : (n : ℕ) (xs : List ℕ) → length xs ≡ n → take n xs ≡ xs
take_all zero [] h = refl
take_all zero (x ∷ xs) h = absurd (omega arith)
take_all (suc n) [] h = refl
take_all (suc n) (x ∷ xs) h = rw (take_all n xs (omega arith))

module _ {S : Type 0} (p : Platform S) (net : IsStream p) where
  open net use {incoming, outgoing, receives, receive_keeps}

  read_loop-done :
      (fuel n offset : ℕ) (bytes : List ℕ) (s : S)
      → n ≤ offset
      → read_loop p fuel n offset bytes s ≡ (offset, bytes, s)
  unfolding read_loop
  read_loop-done zero n offset bytes s h = refl
  read_loop-done (suc fuel) n offset bytes s h = ground arith

  -- One round that receives `suc k` bytes, and one that receives none.
  read_loop_piece :
      (fuel n offset k : ℕ) (bytes : List ℕ) (s : S)
      → offset < n
      → (p.receive (n - offset) s).0 ≡ pos (suc k)
      → length (p.receive (n - offset) s).1 ≡ suc k
      → read_loop p (suc fuel) n offset bytes s
        ≡ read_loop p fuel n
            (offset + suc k)
            (bytes ++ (p.receive (n - offset) s).1)
            (p.receive (n - offset) s).2
  unfolding read_loop
  read_loop_piece fuel n offset k bytes s h c size =
      ground (arith, take_all (suc k) (p.receive (n - offset) s).1 size)

  read_loop_ended :
      (fuel n offset : ℕ) (bytes : List ℕ) (s : S)
      → offset < n
      → pos_part (p.receive (n - offset) s).0 ≡ 0
      → read_loop p (suc fuel) n offset bytes s ≡ (offset, bytes, (p.receive (n - offset) s).2)
  unfolding read_loop
  read_loop_ended fuel n offset bytes s h c = ground arith

  read_loop-full :
      (fuel n offset : ℕ) (bytes xs rest : List ℕ) (s : S)
      → incoming s ≡ xs ++ rest
      → offset + length xs ≡ n
      → length xs ≤ fuel
      → (s' : S) × (read_loop p fuel n offset bytes s ≡ (n, bytes ++ xs, s'))
        × (incoming s' ≡ rest)
        × (outgoing s' ≡ outgoing s)
  read_loop-full fuel n offset bytes [] rest s e l h =
      let o : offset ≡ n = omega arith in
      (s, rw (append-nil, ← o) (read_loop-done fuel offset offset bytes s (omega arith)), e, refl)
  read_loop-full zero n offset bytes (x ∷ xs) rest s e l h = absurd (omega arith)
  read_loop-full (suc fuel) n offset bytes (x ∷ xs) rest s e l h =
      let (count, got, s1) = p.receive (n - offset) s in
      elim (receives (n - offset) s (omega arith)) [
        | piece k c fit size cut ↦
            let (ys, front, back) =
              append-split got (incoming s1) (x ∷ xs) rest (omega arith) (sym cut ∙ e) in
            let sizes : suc (length xs) ≡ length got + length ys =
              ap length front ∙ length-append got ys in
            let (s', run, left, same) =
              read_loop-full fuel n (offset + suc k) (bytes ++ got) ys rest s1 back (omega arith)
                (omega arith) in
            (
              s',
              read_loop_piece fuel n offset k bytes s (omega arith) c size
                  ∙ run
                  ∙ ap (λ (l : List ℕ). (n, l, s'))
                      (append_assoc bytes got ys ∙ ap (λ (l : List ℕ). bytes ++ l) (sym front)),
              left,
              same ∙ receive_keeps (n - offset) s,
            )
        | ended c none _ ↦ absurd (nil_not_cons x (xs ++ rest) (sym none ∙ e))
      ]

  read_loop-short :
      (fuel n offset : ℕ) (bytes : List ℕ) (s : S)
      → offset + length (incoming s) < n
      → length (incoming s) < fuel
      → (bytes' : List ℕ) × (s' : S) × (read_loop p fuel n offset bytes s
          ≡ (offset + length (incoming s), bytes', s'))
        × (outgoing s' ≡ outgoing s)
  read_loop-short zero n offset bytes s l h = absurd (omega arith)
  read_loop-short (suc fuel) n offset bytes s l h =
      let (count, got, s1) = p.receive (n - offset) s in
      elim (receives (n - offset) s (omega arith)) [
        | piece k c fit size cut ↦
            let sizes : length (incoming s) ≡ length got + length (incoming s1) =
              ap length cut ∙ length-append got (incoming s1) in
            let (bytes', s', run, same) =
              read_loop-short fuel n (offset + suc k) (bytes ++ got) s1 (omega arith)
                (omega arith) in
            let o : offset + suc k + length (incoming s1) ≡ offset + length (incoming s) =
              omega arith in
            (
              bytes',
              s',
              read_loop_piece fuel n offset k bytes s (omega arith) c size ∙ rw (← o) run,
              same ∙ receive_keeps (n - offset) s,
            )
        | ended c none _ ↦
            let o : offset + length (incoming s) ≡ offset = omega (arith, ap length none) in
            (
              bytes,
              s1,
              rw o (read_loop_ended fuel n offset bytes s (omega arith) c),
              receive_keeps (n - offset) s,
            )
      ]

  -- However the socket cuts the stream into pieces, readBytes(n) returns the next n bytes of the
  -- stream, leaves what follows them, sends nothing, and changes nothing else of the client.
  pub read_bytes-full :
      (xs rest : List ℕ) (c : Client S)
      → incoming c.socket ≡ xs ++ rest
      → (s' : S) × (read_bytes p (length xs) c ≡ (ok xs, record c { socket = s' }))
        × (incoming s' ≡ rest)
        × (outgoing s' ≡ outgoing c.socket)
  unfolding read_bytes
  read_bytes-full xs rest c e =
      let (s', run, left, same) =
        read_loop-full (length xs) (length xs) 0 [] xs rest c.socket e (omega arith)
          (omega arith) in
      (s', rw run (ground arith), left, same)

  -- If the stream ends before n bytes, the process ends by exit(10012), and has sent nothing.
  pub read_bytes-short :
      (n : ℕ) (c : Client S)
      → length (incoming c.socket) < n
      → (s' : S) × (read_bytes p n c ≡ (exit 10012, record c { socket = s' }))
        × (outgoing s' ≡ outgoing c.socket)
  unfolding read_bytes
  read_bytes-short n c h =
      let (bytes', s', run, same) = read_loop-short n n 0 [] c.socket (omega arith) (omega arith) in
      (s', rw run (ground arith), same)
