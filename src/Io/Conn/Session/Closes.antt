-- ===== src/Io/Conn/Session/Closes.antt =====
-- The session of stratum/server/conn.go against the loop of Worker/Loop.
use stratumserver.Prelude.{
  ℕ, ◌≡◌, refl, sym, ap, ◌∙◌, Bool, true, false, ◌&&◌, List, [], ◌∷◌, Option, none, some,
  if◌then◌else◌, arith, ◌⊎◌, inl, inr, ◌≢◌,
}
use stratumserver.Prelude.Int.{ℤ}
use stratumserver.Server.{Server, set_state}
use stratumserver.Worker.{Library}
use stratumserver.Worker.Loop.{
  Outside, Serving, Round, Reading, Turn, go_on, return_, recovered, crashed, turn, on_reading,
  Exit, waiting, finished, broken, close_conn, serve_loop, other_error,
}
use stratumserver.Worker.Loop.Exits.{turn_total}
use stratumserver.Io.Conn.{
  Conn, Unmarshal, Line, line, line_eof, line_net_error, line_error, read_message, read_line,
  unmarshalled, close, JsonRpcRequest, after_read, prepare,
}
use stratumserver.Io.Conn.Session.{
  RawRound, Ended, still_open, over, crash, read_round, round_of, leave, session, hang_up,
}

abbrev pub HasBuffers : Conn → Type 0
HasBuffers c = (c.has_bufr ≡ true) × (c.has_bufw ≡ true)

-- The exit of the loop that an end of the session is.
unfoldable pub exit_of : Ended → Exit
exit_of (still_open c s) = waiting s
exit_of (over c t) = finished t
exit_of (crash c s) = broken s

-- An open connection has its buffers; one that is over is closed and has none.
unfoldable pub IsShut : Ended → Type 0
IsShut (still_open c s) = HasBuffers c
IsShut (over c t) = (c.closed ≡ true) × (c.has_bufr ≡ false) × (c.has_bufw ≡ false)
IsShut (crash c s) = Unit

chosen {ℓ} :
    {A : Type ℓ} {b c : Bool} {x v : A} (y : A)
    → b ≡ true
    → c ≡ true
    → x ≡ v
    → (if b && c then x else y) ≡ v
chosen y p q e = rw (p, q) e

returned : {s s' : Serving} → return_ s ≢ go_on s'
returned e = cc

module _ (lib : Library) (out : Outside) (flows : ℕ → Bool) (c : ℕ) (unmarshal : Unmarshal)
    (is_tcp : Bool) where
  -- The rounds that the loop sees of the raw ones: each is what readMessage made of its line, for the
  -- connection and the server that the rounds before it left.
  pub data Seen : Conn → Serving → List RawRound → List Round → Type 0 where
    none_seen : {conn : Conn} {s : Serving} → Seen conn s [] []
    last_seen :
        {conn : Conn} {s : Serving} {r : RawRound} {rs : List RawRound}
        → Seen conn s (r ∷ rs) (round_of lib out flows c unmarshal is_tcp conn s r ∷ [])
    more_seen :
        {conn : Conn} {s s' : Serving} {r : RawRound} {rs : List RawRound} {rounds : List Round}
        → turn lib out flows c s (round_of lib out flows c unmarshal is_tcp conn s r)
          ≡ some (go_on s')
        → Seen (read_round lib out flows c unmarshal is_tcp conn s r).0 s' rs rounds
        → Seen conn s (r ∷ rs) (round_of lib out flows c unmarshal is_tcp conn s r ∷ rounds)

  -- A line leaves the buffers, or is an error after which the loop returns.
  Keeps : Conn × Reading → Type 0
  Keeps r = HasBuffers r.0 ⊎ (r.1 ≡ other_error)

  unmarshalled-Keeps :
      (conn : Conn) (o : Option (Option JsonRpcRequest))
      → HasBuffers conn
      → Keeps (unmarshalled is_tcp conn o)
  unfolding Keeps
  unmarshalled-Keeps conn none h = inr refl
  unmarshalled-Keeps conn (some none) h = inl h
  unmarshalled-Keeps conn (some (some m)) h = inl h

  line-Keeps :
      (conn : Conn) (l : Line) → HasBuffers conn → Keeps (read_line unmarshal is_tcp conn l)
  unfolding Keeps
  line-Keeps conn (line raw) h = unmarshalled-Keeps conn (unmarshal raw) h
  line-Keeps conn line_eof h = inl h
  line-Keeps conn (line_net_error timeout temporary) h = inl h
  line-Keeps conn line_error h = inr refl

  written : (s : Server) (t : ℤ) (conn : Conn) → HasBuffers conn → HasBuffers (after_read s t conn)
  unfolding after_read
  written s t conn h = ground arith

  round-Keeps :
      (conn : Conn) (s : Serving) (r : RawRound)
      → HasBuffers conn
      → Keeps (read_round lib out flows c unmarshal is_tcp conn s r)
  unfolding Keeps read_message prepare
  round-Keeps conn s r h = elim (line-Keeps _ r.raw h) [
    | inl k ↦ inl (written (r.meanwhile s.server) r.ends _ k)
    | inr e ↦ inr e
  ]

  Exits : (end : ℤ) (conn : Conn) (s : Serving) (rs : List RawRound) → Type 0
  Exits end conn s rs =
      (e : Ended) × (session lib out flows c unmarshal is_tcp end conn s rs ≡ some e)
      × (rounds : List Round) × Seen conn s rs rounds
      × (serve_loop lib out flows c end s rounds ≡ some (exit_of e))
      × IsShut e

  pub left :
      (end : ℤ) (conn : Conn) (s : Serving)
      → (t : Server) × (leave lib out flows c unmarshal is_tcp end conn s
          ≡ some (over (close conn) t))
        × (close_conn lib out flows c end s ≡ some (finished t))
  unfolding close_conn set_state hang_up
  left end conn s = (_, refl, refl)

  -- A round that ends the session.
  last_of :
      (end : ℤ) (conn : Conn) (s s' : Serving) (r : RawRound) (rs : List RawRound) (t : Turn)
      → HasBuffers conn
      → turn lib out flows c s (round_of lib out flows c unmarshal is_tcp conn s r) ≡ some t
      → (t ≡ return_ s') ⊎ (t ≡ recovered s')
      → Exits end conn s (r ∷ rs)
  unfolding Exits session serve_loop IsShut close exit_of
  last_of end conn s s' r rs t h e way =
      let (server, q, k) = left end (read_round lib out flows c unmarshal is_tcp conn s r).0 s' in
      (
        over (close (read_round lib out flows c unmarshal is_tcp conn s r).0) server,
        chosen _ h.0 h.1 (elim way [ inl w ↦ rw (e, w) q | inr w ↦ rw (e, w) q ]),
        round_of lib out flows c unmarshal is_tcp conn s r ∷ [],
        last_seen,
        elim way [ inl w ↦ rw (e, w) k | inr w ↦ rw (e, w) k ],
        (refl, refl, refl),
      )

  step_of :
      (end : ℤ) (conn : Conn) (s : Serving) (r : RawRound) (rs : List RawRound) (t : Turn)
      → HasBuffers conn
      → turn lib out flows c s (round_of lib out flows c unmarshal is_tcp conn s r) ≡ some t
      → ((s' : Serving)
          → t ≡ go_on s'
          → Exits end (read_round lib out flows c unmarshal is_tcp conn s r).0 s' rs)
      → Exits end conn s (r ∷ rs)
  unfolding Exits session serve_loop IsShut exit_of
  step_of end conn s r rs (go_on s') h e later =
      let (x, q, rounds, seen, k, shut) = later s' refl in
      (
        x,
        chosen _ h.0 h.1 (rw e q),
        round_of lib out flows c unmarshal is_tcp conn s r ∷ rounds,
        more_seen e seen,
        rw e k,
        shut,
      )
  step_of end conn s r rs (return_ s') h e later = last_of end conn s s' r rs _ h e (inl refl)
  step_of end conn s r rs (recovered s') h e later = last_of end conn s s' r rs _ h e (inr refl)
  step_of end conn s r rs (crashed s') h e later = (
    crash (read_round lib out flows c unmarshal is_tcp conn s r).0 s',
    chosen _ h.0 h.1 (rw e refl),
    round_of lib out flows c unmarshal is_tcp conn s r ∷ [],
    last_seen,
    rw e refl,
    tt,
  )

  no_go :
      (s s' : Serving) (now : ℤ) (r : Reading)
      → r ≡ other_error
      → on_reading lib out flows c s now r ≢ go_on s'
  unfolding on_reading
  no_go s s' now r e g = returned (sym (ap (on_reading lib out flows c s now) e) ∙ g)

  -- The session implements the loop of Worker/Loop: for whatever is read it ends as the loop does for
  -- the rounds that readMessage made of it, without a nil pointer read; while it is open the connection has its buffers, and when
  -- it is over, by a return or a panic that is recovered, it is closed and its buffers are given up.
  pub session_total :
      (end : ℤ) (conn : Conn) (s : Serving) (rs : List RawRound)
      → HasBuffers conn
      → (e : Ended) × (session lib out flows c unmarshal is_tcp end conn s rs ≡ some e)
        × (rounds : List Round) × Seen conn s rs rounds
        × (serve_loop lib out flows c end s rounds ≡ some (exit_of e))
        × IsShut e
  unfolding Exits Keeps
  session_total end conn s [] h =
      unfold session serve_loop exit_of IsShut in (still_open conn s, refl, [], none_seen, refl, h)
  session_total end conn s (r ∷ rs) h =
      let round = round_of lib out flows c unmarshal is_tcp conn s r in
      let (server, e) = turn_total lib out flows c s round in
      step_of end conn s r rs _ h e (λ s' g.
        session_total end (read_round lib out flows c unmarshal is_tcp conn s r).0 s' rs
          (elim (round-Keeps conn s r h) [
            | inl k ↦ k
            | inr bad ↦ absurd (no_go _ s' r.now round.reading bad g)
          ]))
