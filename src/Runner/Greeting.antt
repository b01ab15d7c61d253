-- ===== src/Runner/Greeting.antt =====
-- The handshake over a connection whose stream ends inside the server's greeting.
use russian_ai_cup.Base.{
  ℕ, ◌+◌, ◌^◌, ◌≤◌, ◌<◌, ◌≡◌, refl, sym, ap, ◌∙◌, ◌⊎◌, inl, inr, ℤ, true, List, [], ◌∷◌, ◌++◌,
  length, length-append, to_signed, of_signed, arith,
}
use russian_ai_cup.Model.Double.{Fpu}
use russian_ai_cup.Model.Game.{Game}
use russian_ai_cup.Client.Monad.{Platform, Client, Caches, Action}
use russian_ai_cup.Client.Messages.{authentication_token, team_size}
use russian_ai_cup.Client.Stream.{IsStream}
use russian_ai_cup.Client.Takes.{Takes, prefix_cases}
use russian_ai_cup.Client.Output.{IsOpen}
use russian_ai_cup.Client.Wire.Scalars.{IsInt, length-bytes_of, print_int, print_string}
use russian_ai_cup.Client.Wire.World.{no_caches}
use russian_ai_cup.Client.Wire.Messages.{read_team_size-Takes, read_game_context-Takes}
use russian_ai_cup.Client.Wire.GameContext.{print_type, GameFits, print_game_context}
use russian_ai_cup.Client.Wire.Output.{write_token-Writes, write_protocol_version-Writes}
use russian_ai_cup.Strategy.Turns.{Library, Globals}
use russian_ai_cup.Runner.{Run, ended, after, run, start_run}
use russian_ai_cup.Runner.Sent.{
  after-ok, after-exit, Sent, Sent-open, Sent-nothing, Sent-then, Sent-last, Sent-from, write-Sent,
  read-Sent,
}
use russian_ai_cup.Runner.Session.{greeting, introduction}
use russian_ai_cup.Runner.Loop.{connect-opened}

-- What the client sends before it reads.
abbrev pub token_message : List ℕ → List ℕ
token_message token = print_type authentication_token ++ print_string token

module _ {S R : Type 0} {p : Platform S} (net : IsStream p) where
  open net use {incoming, outgoing}

  abbrev pub IsCut : Run S R → S → Type 0
  IsCut r s = (c : Client S) × (r ≡ ended 10012 c) × (c.socket ≡ s)

  -- A method that reads where the stream ends.
  short_read-Sent :
      {A : Type 0} {m : Action S A} {k k' : Caches} {xs : List ℕ} {a : A}
      → Takes net m k xs a k'
      → (s : S) (x : ℕ) (back : List ℕ) (next : A → Client S → Run S R)
      → xs ≡ incoming s ++ (x ∷ back)
      → Sent net IsCut [] s (after (m (record { socket = s; caches = k })) next)
  short_read-Sent takes s x back next e =
      let (c, r, o) = takes.cut s x back e in
      Sent-nothing net c.socket (c, after-exit next r, refl) o

module _ {S R : Type 0} {p : Platform S} (net : IsStream p) (little : p.little_endian ≡ true)
    (lib : Library R) (fpu : Fpu) (picks fuel : ℕ) (token : List ℕ) (n : ℤ) (game : Game)
    (g : Globals R) (s : S) (short : length token + length token < 2 ^ 32) (int_n : IsInt n)
    (fits : GameFits game) where
  open net use {incoming, outgoing}

  team_size-IsCut :
      (x : ℕ) (back : List ℕ)
      → print_type team_size ++ print_int n ≡ incoming s ++ (x ∷ back)
      → Sent net
          (IsCut net)
          (token_message token)
          s
          (run p lib fpu picks fuel token g (record { socket = s; caches = no_caches }))
  unfolding run
  team_size-IsCut x back e =
      Sent-last net (write-Sent net (write_token-Writes net little token short) s no_caches _)
        (λ s1 (r1, i1). Sent-from net r1 refl (
          short_read-Sent net (read_team_size-Takes net little n no_caches int_n) s1 x back _
            (e ∙ ap (λ (l : List ℕ). l ++ (x ∷ back)) (sym i1))))

  game-IsCut :
      (middle : List ℕ) (x : ℕ) (back : List ℕ)
      → incoming s ≡ (print_type team_size ++ print_int n) ++ middle
      → print_game_context game ≡ middle ++ (x ∷ back)
      → Sent net
          (IsCut net)
          (introduction token)
          s
          (run p lib fpu picks fuel token g (record { socket = s; caches = no_caches }))
  unfolding run
  game-IsCut middle x back e e' =
      Sent-then net (write-Sent net (write_token-Writes net little token short) s no_caches _)
        (λ s1 (r1, i1). Sent-from net r1 refl (
          read-Sent net (read_team_size-Takes net little n no_caches int_n) s1 middle _ (i1 ∙ e)
            (λ s2 i2.
              Sent-last net
                (write-Sent net (write_protocol_version-Writes net little) s2 no_caches _)
                (λ s3 (r3, i3). Sent-from net r3 refl (
                  short_read-Sent net (read_game_context-Takes net little game no_caches fits) s3 x
                    back _ (e' ∙ ap (λ (l : List ℕ). l ++ (x ∷ back)) (sym (i3 ∙ i2))))))))

module _ {S R : Type 0} {p : Platform S} (net : IsStream p) (little : p.little_endian ≡ true)
    (lib : Library R) (fpu : Fpu) (picks fuel : ℕ) (host token : List ℕ) (port n : ℤ) (game : Game)
    (g : Globals R) (s s1 : S) where
  open net use {incoming, outgoing}

  ends_early :
      (xs : List ℕ)
      → IsOpen net
      → p.open_socket host (to_signed (2 ^ 16) (of_signed (2 ^ 16) port)) s ≡ (true, s1)
      → Sent net
          (IsCut net)
          xs
          s1
          (run p lib fpu picks fuel token g (record { socket = s1; caches = no_caches }))
      → (c : Client S) × (start_run p lib fpu picks fuel host port token g s ≡ ended 10012 c)
        × (outgoing c.socket ≡ outgoing s1 ++ xs)
  unfolding start_run
  ends_early xs open_ opened sent =
      let (s', (c, r, same), o) = Sent-open net open_ sent in
      (
        c,
        after-ok _ (connect-opened net little lib fpu picks n game host port s s1 opened) ∙ r,
        ap outgoing same ∙ o,
      )

  -- The program, on a little-endian machine over a connection that opens and takes what is sent, if
  -- the stream ends inside the server's greeting: it ends by exit(10012). It has sent its token and
  -- nothing else if the five bytes of the team's size have not come whole, and the token and the
  -- protocol version if they have. The numbers must fit their fields, and the token be below 2^31
  -- bytes.
  pub start_run-greeting :
      (x : ℕ) (back : List ℕ)
      → IsOpen net
      → p.open_socket host (to_signed (2 ^ 16) (of_signed (2 ^ 16) port)) s ≡ (true, s1)
      → length token + length token < 2 ^ 32
      → IsInt n
      → GameFits game
      → greeting n game ≡ incoming s1 ++ (x ∷ back)
      → (c : Client S) × (start_run p lib fpu picks fuel host port token g s ≡ ended 10012 c)
        × (((length (incoming s1) < 5) × (outgoing c.socket ≡ outgoing s1 ++ token_message token))
            ⊎ ((5 ≤ length (incoming s1))
                × (outgoing c.socket ≡ outgoing s1 ++ introduction token)))
  start_run-greeting x back open_ opened short int_n fits e =
      let size = length-bytes_of 4 (of_signed (2 ^ 32) n) in
      elim (prefix_cases (print_type team_size ++ print_int n) (print_game_context game)
        (incoming s1) x back e) [
          | inl (tail, y, h) ↦
              let (c, r, o) = ends_early (token_message token) open_ opened (
                team_size-IsCut net little lib fpu picks fuel token n game g s1 short int_n fits y
                  tail h) in
              (
                c,
                r,
                inl (omega (arith, ap length h, length-append (incoming s1) (y ∷ tail), size), o),
              )
          | inr (middle, h, h') ↦
              let (c, r, o) = ends_early (introduction token) open_ opened (
                game-IsCut net little lib fpu picks fuel token n game g s1 short int_n fits middle x
                  back h h') in
              (
                c,
                r,
                inr (
                  omega (
                    arith,
                    ap length h,
                    length-append (print_type team_size ++ print_int n) middle,
                    size,
                  ),
                  o,
                ),
              )
        ]
