-- ===== src/Apps/Conns.antt =====
-- apps/httpapp.go, `ConnState` of the server: the count of the connections and its limit.
pub mod Counted
use oscdn.Base.{
  suc, ℕ, ◌+◌, ◌-◌, ◌%◌, ◌^◌, Bool, ◌&&◌, List, [], ◌∷◌, ◌++◌, ltb, if◌then◌else◌, ℤ, pos, negsuc,
  ltb_ℤ,
}

-- `http.ConnState`
pub data ConnState : Type 0 where
  state_new state_active state_idle state_hijacked state_closed : ConnState

-- What the connection is, as the type switch tells.
pub data ConnKind : Type 0 where
  tcp tls unknown : ConnKind

-- An `int32` by its 32 bits.
abbrev int32 : ℕ → ℤ
int32 n = if ltb n (2 ^ 31) then pos n else negsuc (2 ^ 32 - 1 - n)

-- What the function does with the connection: nothing, closes it at once, sets its options, or
-- panics.
pub data Action : Type 0 where
  none_taken closes sets_options panics : Action

unfoldable pub admit_conn : ConnKind → Action
admit_conn tcp = sets_options
admit_conn tls = sets_options
admit_conn unknown = panics

-- `a.MaxConns > 0 && a.MaxConns < a.connCount`
unfoldable pub exceeds : ℕ → ℕ → Bool
exceeds max_conns count = ltb_ℤ (pos 0) (int32 max_conns) && ltb_ℤ (int32 max_conns) (int32 count)

-- The action, and `connCount` behind it.
unfoldable pub conn_state : ℕ → ℕ → ConnKind → ConnState → Action × ℕ
conn_state max_conns count kind state_new =
    let count' = (count + 1) % 2 ^ 32 in
    (if exceeds max_conns count' then closes else admit_conn kind, count')
conn_state max_conns count kind state_closed = (none_taken, (count + (2 ^ 32 - 1)) % 2 ^ 32)
conn_state max_conns count kind state = (none_taken, count)

-- What the server tells of its connections: one is new, then active and idle in turn, and at last
-- closed or hijacked, after which it is heard of no more. The indices are the connections that are
-- open, how many have been hijacked, and the count.
pub data Served (max_conns : ℕ) : List ℕ → ℕ → ℕ → Type 0 where
  started : Served max_conns [] 0 0
  opened :
      (conn : ℕ) (kind : ConnKind) {conns : List ℕ} {hijacks count : ℕ}
      → Served max_conns conns hijacks count
      → Served max_conns (conn ∷ conns) hijacks (conn_state max_conns count kind state_new).1
  worked :
      (kind : ConnKind) {conns : List ℕ} {hijacks count : ℕ}
      → Served max_conns conns hijacks count
      → Served max_conns conns hijacks (conn_state max_conns count kind state_active).1
  rested :
      (kind : ConnKind) {conns : List ℕ} {hijacks count : ℕ}
      → Served max_conns conns hijacks count
      → Served max_conns conns hijacks (conn_state max_conns count kind state_idle).1
  hijacked :
      (before : List ℕ) (conn : ℕ) (after : List ℕ) (kind : ConnKind) {hijacks count : ℕ}
      → Served max_conns (before ++ conn ∷ after) hijacks count
      → Served max_conns
          (before ++ after)
          (suc hijacks)
          (conn_state max_conns count kind state_hijacked).1
  closed :
      (before : List ℕ) (conn : ℕ) (after : List ℕ) (kind : ConnKind) {hijacks count : ℕ}
      → Served max_conns (before ++ conn ∷ after) hijacks count
      → Served max_conns (before ++ after) hijacks (conn_state max_conns count kind state_closed).1
