-- ===== src/Apps/Conns/Counted.antt =====
-- What `connCount` counts, and when a connection is turned away.
use oscdn.Base.{
  if◌then◌else◌, ℕ, ◌+◌, ◌%◌, ◌^◌, ◌<◌, ◌≡◌, refl, ◌&&◌, List, ◌∷◌, ◌++◌, ltb, arith, length,
  length-append, leb,
}
use oscdn.Apps.Conns.{
  Served, started, opened, worked, rested, hijacked, closed, exceeds, conn_state, state_new,
  ConnKind, closes, admit_conn,
}

-- In every state that the server can reach, the count is the number of open connections and of those
-- that have ever been hijacked, modulo 2 ^ 32: a connection that is hijacked is counted for ever.
pub conn_state-count :
    (max_conns : ℕ) (conns : List ℕ) (hijacks count : ℕ)
    → Served max_conns conns hijacks count
    → count ≡ (length conns + hijacks) % 2 ^ 32
unfolding conn_state
conn_state-count max_conns _ _ _ started = refl
conn_state-count max_conns _ _ _
      (opened conn kind {conns = conns} {hijacks = hijacks} {count = count} s) =
    omega (arith, conn_state-count max_conns conns hijacks count s)
conn_state-count max_conns _ _ _
      (worked kind {conns = conns} {hijacks = hijacks} {count = count} s) =
    conn_state-count max_conns conns hijacks count s
conn_state-count max_conns _ _ _
      (rested kind {conns = conns} {hijacks = hijacks} {count = count} s) =
    conn_state-count max_conns conns hijacks count s
conn_state-count max_conns _ _ _
      (hijacked before conn after kind {hijacks = hijacks} {count = count} s) =
    omega (
      arith,
      conn_state-count max_conns (before ++ conn ∷ after) hijacks count s,
      length-append before (conn ∷ after),
      length-append before after,
    )
conn_state-count max_conns _ _ _
      (closed before conn after kind {hijacks = hijacks} {count = count} s) =
    omega (
      arith,
      conn_state-count max_conns (before ++ conn ∷ after) hijacks count s,
      length-append before (conn ∷ after),
      length-append before after,
    )

exceeds_lem :
    (max_conns count : ℕ)
    → max_conns < 2 ^ 31
    → count < 2 ^ 31
    → exceeds max_conns count ≡ ltb 0 max_conns && ltb max_conns count
unfolding exceeds
exceeds_lem max_conns count hm hc = ground arith

-- In every state that the server can reach, with a limit and numbers of connections below 2 ^ 31, a
-- new connection is closed at once exactly if there is a limit and as many connections as it allows
-- are open or have been hijacked; another is admitted.
pub conn_state-closes :
    (max_conns : ℕ) (kind : ConnKind) (conns : List ℕ) (hijacks count : ℕ)
    → Served max_conns conns hijacks count
    → max_conns < 2 ^ 31
    → length conns + hijacks + 1 < 2 ^ 31
    → (conn_state max_conns count kind state_new).0 ≡ (
        if ltb 0 max_conns && leb max_conns (length conns + hijacks)
        then closes
        else admit_conn kind)
unfolding conn_state
conn_state-closes max_conns kind conns hijacks count s hm hc =
    let e = conn_state-count max_conns conns hijacks count s in
    ground (arith, e, exceeds_lem max_conns (length conns + hijacks + 1) hm hc)
