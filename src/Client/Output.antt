-- ===== src/Client/Output.antt =====
-- writeBytes over a socket that takes the bytes in pieces, and the methods built on it.
use russian_ai_cup.Base.{
  ℕ, zero, suc, ◌+◌, ◌≤◌, ◌<◌, pos, pos_part, ◌≡◌, ◌≢◌, refl, sym, ap, ◌∙◌, List, [], ◌∷◌, ◌++◌,
  append-nil, append_assoc, length, length-append, take, drop, take-append-drop, drop-append,
  length-take, length-drop, arith,
}
use russian_ai_cup.Client.Monad.{Platform, Client, Action, Result, ok, exit, ◌>>=◌}
use russian_ai_cup.Client.Bytes.{write_loop, write_bytes}
use russian_ai_cup.Client.Stream.{IsStream, taken, failed}

module _ {S : Type 0} {p : Platform S} (net : IsStream p) where
  open net use {incoming, outgoing, sends, send_keeps}

  -- A connection that does not break: Send takes a byte at least.
  abbrev pub IsOpen : Type 0
  IsOpen = (bytes : List ℕ) (s : S) → 0 < length bytes → 0 < pos_part (p.send bytes s).0

  -- What a run with `fuel` rounds, with `todo` left to send behind `offset` bytes, has done: it sent
  -- `front`, and stopped at `back`.
  record Sent (fuel offset : ℕ) (todo : List ℕ) (s : S) (r : ℕ × S) : Type 0 where
    front : List ℕ
    back : List ℕ
    split : todo ≡ front ++ back
    place : r.0 ≡ offset + length front
    sent : outgoing r.1 ≡ outgoing s ++ front
    kept : incoming r.1 ≡ incoming s
    complete : IsOpen → length todo ≤ fuel → back ≡ []

  stopped :
      (fuel offset : ℕ) (todo : List ℕ) (s s' : S)
      → outgoing s' ≡ outgoing s
      → incoming s' ≡ incoming s
      → (IsOpen → length todo ≤ fuel → todo ≡ [])
      → Sent fuel offset todo s (offset, s')
  stopped fuel offset todo s s' o i c = record {
    front = [];
    back = todo;
    split = refl;
    place = omega arith;
    sent = o ∙ sym (append-nil (outgoing s));
    kept = i;
    complete = c;
  }

  cons_not_nil : (x : ℕ) (xs : List ℕ) → x ∷ xs ≢ []
  cons_not_nil x xs e = cc

  none_left : (todo : List ℕ) → length todo ≤ 0 → todo ≡ []
  none_left [] h = refl
  none_left (x ∷ todo) h = absurd (omega arith)

  module _ (fuel offset : ℕ) (bytes : List ℕ) (s : S) (more : offset < length bytes) where
    round_taken :
        (k : ℕ)
        → (p.send (drop offset bytes) s).0 ≡ pos (suc k)
        → write_loop p (suc fuel) bytes offset s
          ≡ write_loop p fuel bytes (offset + suc k) (p.send (drop offset bytes) s).1
    unfolding write_loop
    round_taken k e = ground arith

    round_failed :
        pos_part (p.send (drop offset bytes) s).0 ≡ 0
        → write_loop p (suc fuel) bytes offset s ≡ (offset, (p.send (drop offset bytes) s).1)
    unfolding write_loop
    round_failed e = ground arith

  loop_done :
      (fuel : ℕ) (bytes : List ℕ) (s : S)
      → write_loop p (suc fuel) bytes (length bytes) s ≡ (length bytes, s)
  unfolding write_loop
  loop_done fuel bytes s = ground arith

  -- A run after a round that took `suc k` bytes.
  continued :
      (fuel offset k : ℕ) (todo : List ℕ) (s s1 : S) (r : ℕ × S)
      → suc k ≤ length todo
      → outgoing s1 ≡ outgoing s ++ take (suc k) todo
      → incoming s1 ≡ incoming s
      → Sent fuel (offset + suc k) (drop (suc k) todo) s1 r
      → Sent (suc fuel) offset todo s r
  continued fuel offset k todo s s1 r h o i next = record {
    front = take (suc k) todo ++ next.front;
    back = next.back;
    split =
        sym (take-append-drop (suc k) todo)
        ∙ ap (λ (l : List ℕ). take (suc k) todo ++ l) next.split
        ∙ sym (append_assoc (take (suc k) todo) next.front next.back);
    place =
        omega (
          arith,
          next.place,
          length-append (take (suc k) todo) next.front,
          length-take (suc k) todo,
        );
    sent =
        next.sent
        ∙ ap (λ (l : List ℕ). l ++ next.front) o
        ∙ append_assoc (outgoing s) (take (suc k) todo) next.front;
    kept = next.kept ∙ i;
    complete = λ open_ l. next.complete open_ (omega (arith, length-drop (suc k) todo));
  }

  write_loop-Sent :
      (fuel : ℕ) (bytes done todo : List ℕ) (s : S)
      → bytes ≡ done ++ todo
      → Sent fuel (length done) todo s (write_loop p fuel bytes (length done) s)
  write_loop-Sent zero bytes done todo s e =
      unfold write_loop in stopped zero (length done) todo s s refl refl (λ _. none_left todo)
  write_loop-Sent (suc fuel) bytes done [] s e =
      let all : bytes ≡ done = e ∙ append-nil done in
      rw all (
        rw (loop_done fuel done s)
          (stopped (suc fuel) (length done) [] s s refl refl (λ _ _. refl)))
  write_loop-Sent (suc fuel) bytes done (t ∷ ts) s e =
      let rest : drop (length done) bytes ≡ t ∷ ts =
        ap (λ (l : List ℕ). drop (length done) l) e ∙ drop-append done (t ∷ ts) in
      let more : length done < length bytes =
        omega (arith, ap length e, length-append done (t ∷ ts)) in
      let s1 : S = (p.send (drop (length done) bytes) s).1 in
      elim (sends (drop (length done) bytes) s (omega (arith, ap length rest))) [
        | taken k c size o ↦
            let front : List ℕ = take (suc k) (t ∷ ts) in
            let back : List ℕ = drop (suc k) (t ∷ ts) in
            let split : front ++ back ≡ t ∷ ts = take-append-drop (suc k) (t ∷ ts) in
            let fits : suc k ≤ length (t ∷ ts) = rw rest at size in
            let place : length (done ++ front) ≡ length done + suc k =
              omega (arith, length-append done front, length-take (suc k) (t ∷ ts)) in
            let next : Sent fuel (length (done ++ front)) back s1
                (write_loop p fuel bytes (length (done ++ front)) s1) =
              write_loop-Sent fuel bytes (done ++ front) back s1 (
                e
                ∙ ap (λ (l : List ℕ). done ++ l) (sym split)
                ∙ sym (append_assoc done front back)) in
            rw (round_taken fuel (length done) bytes s more k c) (
              continued fuel (length done) k (t ∷ ts) s s1
                (write_loop p fuel bytes (length done + suc k) s1) fits
                (o ∙ ap (λ (l : List ℕ). outgoing s ++ take (suc k) l) rest)
                (send_keeps (drop (length done) bytes) s) (rw place at next))
        | failed c o ↦ rw (round_failed fuel (length done) bytes s more c) (
            stopped (suc fuel) (length done) (t ∷ ts) s s1 o
              (send_keeps (drop (length done) bytes) s)
              (λ open_ _. absurd (
                omega (arith, open_ (drop (length done) bytes) s (omega (arith, ap length rest))))))
      ]

  -- How a method that writes `xs` ends: all of `xs` has gone out and it returns, or Send has failed,
  -- a proper prefix of `xs` has gone out, and the process ends by exit(10013). The caches and the
  -- incoming stream stay as they are.
  pub data Wrote (xs : List ℕ) (c : Client S) (r : Result (Unit {0}) × Client S) : Type 0 where
    all_sent :
        (s' : S)
        → r ≡ (ok tt, record c { socket = s' })
        → outgoing s' ≡ outgoing c.socket ++ xs
        → incoming s' ≡ incoming c.socket
        → Wrote xs c r
    broke_off :
        (s' : S) (front : List ℕ) (x : ℕ) (back : List ℕ)
        → r ≡ (exit 10013, record c { socket = s' })
        → xs ≡ front ++ (x ∷ back)
        → outgoing s' ≡ outgoing c.socket ++ front
        → incoming s' ≡ incoming c.socket
        → ¬ IsOpen
        → Wrote xs c r

  pub record Writes (m : Action S (Unit {0})) (xs : List ℕ) : Type 0 where
    pub runs : (c : Client S) → Wrote xs c (m c)

  write_bytes-Wrote :
      (xs : List ℕ) (c : Client S) (b : List ℕ)
      (r : Sent (length xs) 0 xs c.socket (write_loop p (length xs) xs 0 c.socket))
      → r.back ≡ b
      → Wrote xs c (write_bytes p xs c)
  unfolding write_bytes
  write_bytes-Wrote xs c [] r e =
      let whole : xs ≡ r.front =
        r.split ∙ ap (λ (l : List ℕ). r.front ++ l) e ∙ append-nil r.front in
      let place : (write_loop p (length xs) xs 0 c.socket).0 ≡ length xs =
        omega (arith, r.place, ap length whole) in
      all_sent (write_loop p (length xs) xs 0 c.socket).1 (ground arith)
        (r.sent ∙ ap (λ (l : List ℕ). outgoing c.socket ++ l) (sym whole)) r.kept
  write_bytes-Wrote xs c (x ∷ b) r e =
      let split : xs ≡ r.front ++ (x ∷ b) = r.split ∙ ap (λ (l : List ℕ). r.front ++ l) e in
      let place : (write_loop p (length xs) xs 0 c.socket).0 < length xs =
        omega (arith, r.place, ap length split, length-append r.front (x ∷ b)) in
      broke_off (write_loop p (length xs) xs 0 c.socket).1 r.front x b (ground arith) split r.sent
        r.kept (λ open_. cons_not_nil x b (sym e ∙ r.complete open_ (omega arith)))

  -- However the socket takes the bytes in pieces, writeBytes either returns with all of them sent,
  -- or ends the process by exit(10013) with a proper prefix of them sent, which happens only if the
  -- connection can break. It takes nothing from the incoming stream and leaves the caches.
  pub write_bytes-Writes : (xs : List ℕ) → Writes (write_bytes p xs) xs
  write_bytes-Writes xs = record {
    runs = λ c. write_bytes-Wrote xs c _ (write_loop-Sent (length xs) xs [] xs c.socket refl) refl;
  }

  >>-Wrote :
      (m n : Action S (Unit {0})) (xs ys : List ℕ) (c : Client S)
      → Wrote xs c (m c)
      → ((c' : Client S) → Wrote ys c' (n c'))
      → Wrote (xs ++ ys) c ((m >>= λ _. n) c)
  unfolding ◌>>=◌
  >>-Wrote m n xs ys c (all_sent s' r o i) second = elim (second (record c { socket = s' })) [
    | all_sent s2 r2 o2 i2 ↦
        all_sent s2 (ground arith)
          (o2 ∙ ap (λ (l : List ℕ). l ++ ys) o ∙ append_assoc (outgoing c.socket) xs ys) (i2 ∙ i)
    | broke_off s2 front x back r2 split o2 i2 closed ↦
        broke_off s2 (xs ++ front) x back (ground arith)
          (ap (λ (l : List ℕ). xs ++ l) split ∙ sym (append_assoc xs front (x ∷ back)))
          (o2 ∙ ap (λ (l : List ℕ). l ++ front) o ∙ append_assoc (outgoing c.socket) xs front)
          (i2 ∙ i) closed
  ]
  >>-Wrote m n xs ys c (broke_off s' front x back r split o i closed) second =
      broke_off s' front x (back ++ ys) (ground arith)
        (ap (λ (l : List ℕ). l ++ ys) split ∙ append_assoc front (x ∷ back) ys) o i closed

module _ {S : Type 0} {p : Platform S} {net : IsStream p} where
  infixr 6 ◌andthen◌
  pub ◌andthen◌ :
      {m n : Action S (Unit {0})} {xs ys : List ℕ}
      → Writes net m xs
      → Writes net n ys
      → Writes net (m >>= λ _. n) (xs ++ ys)
  ◌andthen◌ {m = m} {n = n} {xs = xs} {ys = ys} first second = record {
    runs = λ c. >>-Wrote net m n xs ys c (first.runs c) (second.runs);
  }
