-- ===== src/Http/Server/Accounts.antt =====
-- What becomes of the connections that the server accepts.
use systems_craft.Prelude.{
  ℕ, suc, ◌+◌, ◌≡◌, List, [], ◌∷◌, ◌++◌, Option, Bytes, All, ◌==◌, if◌then◌else◌,
}
use systems_craft.ThreadPool.{ThreadPool, waits, exits, runs, Turn}
use systems_craft.Http.{HttpRequest, HttpResponse, Handlers, overload_response}
use systems_craft.Http.Server.{HttpServer, Event, accepts, works, serve, run}

abbrev pub count : ℕ → List ℕ → ℕ
count k [] = 0
count k (x ∷ xs) = let rest = count k xs in if x == k then suc rest else rest

abbrev pub sockets {ℓ} : {A : Type ℓ} → List (ℕ × A) → List ℕ
sockets [] = []
sockets ((s, a) ∷ rest) = s ∷ sockets rest

abbrev pub accepted : List Event → List ℕ
accepted [] = []
accepted (accepts s ∷ events) = s ∷ accepted events
accepted (works received ∷ events) = accepted events

-- What the workers read, or would have read.
abbrev pub received : List Event → List Bytes
received [] = []
received (accepts s ∷ events) = received events
received (works text ∷ events) = text ∷ received events

abbrev pub bytes_of : List (ℕ × Bytes) → List Bytes
bytes_of [] = []
bytes_of ((s, text) ∷ reads) = text ∷ bytes_of reads

-- A list with some entries left out.
pub data Among : List Bytes → List Bytes → Type 0 where
  nil : Among [] []
  take : {x : Bytes} {xs ys : List Bytes} → Among xs ys → Among (x ∷ xs) (x ∷ ys)
  skip : {y : Bytes} {xs ys : List Bytes} → Among xs ys → Among xs (y ∷ ys)

-- The task that a worker takes.
abbrev taken : ℕ → Turn ℕ → ℕ
taken k waits = 0
taken k exits = 0
taken k (runs s) = count k (s ∷ [])

module _ {ℓ} {H S : Type ℓ} (handle : H → HttpRequest → S → S × Option HttpResponse) where
  -- The connections of the descriptor `k` that are refused, served or waiting.
  abbrev total : ℕ → HttpServer H S → ℕ
  total k server =
      count k (sockets server.refused) + count k (sockets server.served) + count k server.pool.tasks

  -- What was written on refusal is the overload response.
  record Refuses (handlers : Handlers H) (server : HttpServer H S) : Type ℓ where
    same : server.handlers ≡ handlers
    overload : All (λ r. r.1 ≡ overload_response) server.refused

  -- The responses to these reads, each on the state that the one before it left.
  pub replay : Handlers H → S → List (ℕ × Bytes) → List (ℕ × Option Bytes)
  replay handlers state [] = []
  replay handlers state ((s, received) ∷ reads) =
      (s, (serve handle handlers received state).1)
      ∷ replay handlers (serve handle handlers received state).0 reads

  -- What a run adds to what was served.
  record Replays (handlers : Handlers H) (events : List Event) (server : HttpServer H S)
      : Type ℓ where
    reads : List (ℕ × Bytes)
    among : Among (bytes_of reads) (received events)
    refuses : Refuses handlers (run handle server events)
    written :
        (run handle server events).served ≡ server.served ++ replay handlers server.state reads
