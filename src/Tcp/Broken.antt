-- ===== src/Tcp/Broken.antt =====
-- tcp_send over a socket that may fail, or never be ready again.
use app_network_rdesktop.Base.{
  ℕ, suc, ◌+◌, ◌≡◌, Bool, true, false, ltb, List, [], ◌∷◌, ◌++◌, Option, none, some, take, length,
  if◌then◌else◌,
}
use app_network_rdesktop.Stream.{Stream}
use app_network_rdesktop.Tcp.State.{
  Write, taken, blocked, failed, stalled, Tcp, Reply, done, waiting,
}

-- How many bytes the socket takes at most: all, or a number of them before it fails or is never ready again.
pub data Limit : Type 0 where
  no_limit : Limit
  fails stalls : ℕ → Limit

abbrev pub later : ℕ → Limit → Limit
later n no_limit = no_limit
later n (fails c) = fails (n + c)
later n (stalls c) = stalls (n + c)

abbrev pub limit_of : List Write → Limit
limit_of [] = no_limit
limit_of (taken k ∷ ws) = later (suc k) (limit_of ws)
limit_of (blocked ∷ ws) = limit_of ws
limit_of (failed ∷ ws) = fails 0
limit_of (stalled ∷ ws) = stalls 0

-- What such a socket takes of a packet, and whether the connection counts as broken then; `none` when the
-- client waits for ever. A limit that the packet does not reach does not matter.
abbrev pub expected : Limit → List ℕ → Option (List ℕ × Bool)
expected no_limit bs = some (bs, false)
expected (fails c) bs = some (take c bs, ltb c (length bs))
expected (stalls c) bs = if ltb c (length bs) then none else some (bs, false)

-- What a call leaves: the bytes behind what was on the wire, the flag, and nothing else but the socket.
abbrev pub Partly : Option (List ℕ × Bool) → Tcp → Reply Tcp → Type 0
Partly none t r = r ≡ waiting
Partly (some (put, broken)) t r =
    (ws : List Write) × (r
      ≡ done (record t { writes = ws; wire = t.wire ++ put; g_network_error = broken }))

-- Bytes in front of the others.
abbrev pub behind : List ℕ → Option (List ℕ × Bool) → Option (List ℕ × Bool)
behind xs none = none
behind xs (some (put, broken)) = some (xs ++ put, broken)

-- What is expected of a call: nothing more when the connection counted as broken before.
abbrev pub expected_send : Tcp → List ℕ → Option (List ℕ × Bool)
expected_send t bs = if t.g_network_error then some ([], true) else expected (limit_of t.writes) bs
