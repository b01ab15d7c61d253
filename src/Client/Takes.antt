-- ===== src/Client/Takes.antt =====
-- How a reader of the client meets a message: what it takes from the stream, and what it does when
-- the stream ends inside the message.
use russian_ai_cup.Base.{
  ℕ, ◌≡◌, refl, sym, ap, subst, ◌∙◌, ◌⊎◌, inl, inr, List, [], ◌∷◌, ◌++◌, append-nil, append_assoc,
  length, length-append, arith,
}
use russian_ai_cup.Client.Monad.{Platform, Client, Caches, ok, exit, Action, pure, ◌>>=◌}
use russian_ai_cup.Client.Bytes.{read_bytes}
use russian_ai_cup.Client.Stream.{IsStream, read_bytes-full, read_bytes-short}

-- Where a proper prefix of `xs ++ ys` ends: inside `xs`, or behind it.
pub prefix_cases :
    (xs ys front : List ℕ) (x : ℕ) (back : List ℕ)
    → xs ++ ys ≡ front ++ (x ∷ back)
    → ((tail : List ℕ) × (y : ℕ) × (xs ≡ front ++ (y ∷ tail)))
      ⊎ ((middle : List ℕ) × (front ≡ xs ++ middle) × (ys ≡ middle ++ (x ∷ back)))
prefix_cases [] ys front x back e = inr (front, refl, e)
prefix_cases (y ∷ xs) ys [] x back e = inl (xs, y, refl)
prefix_cases (y ∷ xs) ys (z ∷ front) x back e =
    elim (prefix_cases xs ys front x back (ground arith)) [
      | inl (tail, w, h) ↦ inl (tail, w, ground arith)
      | inr (middle, h, k) ↦ inr (middle, ground arith, k)
    ]

module _ {S : Type 0} where
  pub >>=-ok :
      {A B : Type 0} (m : Action S A) (f : A → Action S B) {c c' : Client S} {a : A}
      → m c ≡ (ok a, c')
      → (m >>= f) c ≡ f a c'
  unfolding ◌>>=◌
  >>=-ok m f e = ground arith

  pub >>=-exit :
      {A B : Type 0} (m : Action S A) (f : A → Action S B) {c c' : Client S} {code : ℕ}
      → m c ≡ (exit code, c')
      → (m >>= f) c ≡ (exit code, c')
  unfolding ◌>>=◌
  >>=-exit m f e = ground arith

module _ {S : Type 0} {p : Platform S} (net : IsStream p) where
  open net use {incoming, outgoing}

  -- From the caches `k` the reader takes exactly `xs`, returns `a` and leaves the caches `k'`,
  -- whatever follows in the stream; on a stream that ends inside `xs` it ends the process by
  -- exit(10012). It sends nothing.
  pub record Takes {A : Type 0} (m : Action S A) (k : Caches) (xs : List ℕ) (a : A) (k' : Caches)
      : Type 0 where
    pub whole :
        (s : S) (rest : List ℕ)
        → incoming s ≡ xs ++ rest
        → (s' : S) × (m (record { socket = s; caches = k })
            ≡ (ok a, record { socket = s'; caches = k' }))
          × (incoming s' ≡ rest)
          × (outgoing s' ≡ outgoing s)
    pub cut :
        (s : S) (x : ℕ) (back : List ℕ)
        → xs ≡ incoming s ++ (x ∷ back)
        → (c : Client S) × (m (record { socket = s; caches = k }) ≡ (exit 10012, c))
          × (outgoing c.socket ≡ outgoing s)

  -- A step that leaves the socket alone.
  pub silent-Takes :
      {A : Type 0} {m : Action S A} {k k' : Caches} {a : A}
      → ((s : S)
          → m (record { socket = s; caches = k }) ≡ (ok a, record { socket = s; caches = k' }))
      → Takes m k [] a k'
  silent-Takes runs = record {
    whole = λ s rest e. (s, runs s, e, refl);
    cut = λ s x back e. absurd (omega (arith, ap length e, length-append (incoming s) (x ∷ back)));
  }

  pub pure-Takes : {A : Type 0} (a : A) (k : Caches) → Takes (pure a) k [] a k
  unfolding pure
  pure-Takes a k = silent-Takes (λ s. refl)

  pub read_bytes-Takes :
      (n : ℕ) (xs : List ℕ) (k : Caches) → length xs ≡ n → Takes (read_bytes p n) k xs xs k
  read_bytes-Takes n xs k size = record {
    whole = λ s rest e.
        rw size at (read_bytes-full p net xs rest (record { socket = s; caches = k }) e);
    cut = λ s x back e.
        let (s', r, o) =
          read_bytes-short p net n (record { socket = s; caches = k })
            (omega (arith, ap length e, length-append (incoming s) (x ∷ back))) in
        (record { socket = s'; caches = k }, r, o);
  }

module _ {S : Type 0} {p : Platform S} {net : IsStream p} where
  open net use {incoming, outgoing}

  -- The rest of a method, `f`, after its first step; a use writes `_` for `f`.
  infixr 6 ◌into◌then◌
  pub ◌into◌then◌ :
      {A B : Type 0} {m : Action S A} {k k' k'' : Caches} {xs ys : List ℕ} {a : A} {b : B}
      → Takes net m k xs a k'
      → (f : A → Action S B) → Takes net (f a) k' ys b k''
      → Takes net (m >>= f) k (xs ++ ys) b k''
  ◌into◌then◌ {m = m} {xs = xs} {ys = ys} first f second = record {
    whole = λ s rest e.
        let (s1, r1, i1, o1) = first.whole s (ys ++ rest) (e ∙ append_assoc xs ys rest) in
        let (s2, r2, i2, o2) = second.whole s1 rest i1 in (s2, >>=-ok m f r1 ∙ r2, i2, o2 ∙ o1);
    cut = λ s x back e. elim (prefix_cases xs ys (incoming s) x back e) [
      | inl (tail, y, h) ↦ let (c, r, o) = first.cut s y tail h in (c, >>=-exit m f r, o)
      | inr (middle, h, h') ↦
          let (s1, r1, i1, o1) = first.whole s middle h in
          let (c, r, o) =
            second.cut s1 x back (h' ∙ ap (λ (l : List ℕ). l ++ (x ∷ back)) (sym i1)) in
          (c, >>=-ok m f r1 ∙ r, o ∙ o1)
    ];
  }

  -- A reader that ends in `pure (g a)`; a use writes `_` for `g`.
  pub Takes-map :
      {A B : Type 0} {m : Action S A} {k k' : Caches} {xs : List ℕ} {a : A} {b : B}
      → Takes net m k xs a k'
      → (g : A → B) → g a ≡ b
      → Takes net (m >>= λ x. pure (g x)) k xs b k'
  Takes-map {k' = k'} {xs = xs} {a = a} first g e =
      rw (append-nil xs, e) at (first into (λ b. pure (g b)) then pure-Takes net (g a) k')

  pub Takes-eq :
      {A : Type 0} {m : Action S A} {k k' : Caches} {xs : List ℕ} {a b : A}
      → a ≡ b
      → Takes net m k xs a k'
      → Takes net m k xs b k'
  Takes-eq {m = m} {k = k} {k' = k'} {xs = xs} e t = subst (λ a. Takes net m k xs a k') e t

  pub Takes-nil :
      {A : Type 0} {m : Action S A} {k k' : Caches} (xs : List ℕ) {a : A}
      → Takes net m k (xs ++ []) a k'
      → Takes net m k xs a k'
  Takes-nil xs t = rw (append-nil xs) at t
