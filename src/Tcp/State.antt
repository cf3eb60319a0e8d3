-- ===== src/Tcp/State.antt =====
-- tcp.c's state, and how its functions and those above it end.
-- The socket is a script: what recv() or SSL_read() gives each time, and what send() or SSL_write()
-- takes. When the script of writes is used up the socket takes all it is given; when nothing is left to
-- read, the client waits.
use app_network_rdesktop.Base.{ℕ, Bool, List, Option, none, some}
use app_network_rdesktop.Stream.{Stream}

-- A round of tcp_recv's loop: ui_select reports that the user quits, or the socket has some bytes (one
-- at least), or none yet, or is closed by the peer, or fails.
pub data Arrival : Type 0 where
  chunk : ℕ → List ℕ → Arrival
  nothing_yet : Arrival
  quit : Arrival
  closed : Arrival
  broken : Arrival

-- A round of tcp_send's loop: the socket takes some bytes, one more than the number, or blocks, or fails,
-- or is never ready again.
pub data Write : Type 0 where
  taken : ℕ → Write
  blocked : Write
  failed : Write
  stalled : Write

-- g_in, g_out (STREAM_COUNT is 1), the two flags, the socket, and the bytes sent so far.
pub record Tcp : Type 0 where
  pub g_in : Stream
  pub g_out : Stream
  pub g_network_error : Bool
  pub g_user_quit : Bool
  pub arrivals : List Arrival
  pub writes : List Write
  pub wire : List ℕ

-- A value; NULL or False, with the state it is returned in; a wait for bytes that do not come, or for
-- a socket that is never ready; an access outside an allocation.
pub data Reply {ℓ} (A : Type ℓ) : Type ℓ where
  done : A → Reply A
  refused : Tcp → Reply A
  waiting : Reply A
  fault : Reply A

infixl 5 ◌>>=◌
abbrev pub ◌>>=◌ {ℓ κ} : {A : Type ℓ} {B : Type κ} → Reply A → (A → Reply B) → Reply B
done a >>= f = f a
refused t >>= f = refused t
waiting >>= f = waiting
fault >>= f = fault

-- Reading and writing memory, inside such a chain.
abbrev pub lift {ℓ} : {A : Type ℓ} → Option A → Reply A
lift none = fault
lift (some a) = done a
