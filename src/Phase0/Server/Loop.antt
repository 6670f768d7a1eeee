-- ===== src/Phase0/Server/Loop.antt =====
-- IngestionServer::start and IngestionServer::stop of phase0/phase0_poc.cpp: one thread opens the
-- socket, accepts connections and answers each before the next. Nothing of the program calls `stop`
-- while the loop runs.
use systems_craft.Prelude.{
  ◌≤◌, ◌≡◌, refl, ap, ◌∙◌, sym, Bool, true, false, List, [], ◌∷◌, ◌++◌, map, append_assoc,
  append-nil, Option, none, some, Bytes, codes, All, if◌then◌else◌, length,
}
use systems_craft.Phase0.{NumberOps, Metric, StorageConsumer, push}
use systems_craft.Phase0.Server.{response, handle_client}
use systems_craft.Phase0.Server.Ingest.{IsPosted, IsLine, print_post, handle_client-posted}

-- `has_socket` is a descriptor that is not negative.
pub record IngestionServer : Type 0 where
  pub has_socket : Bool
  pub running : Bool

abbrev pub ingestion_server : IngestionServer
ingestion_server = record { has_socket = false; running = false }

-- The calls in front of the loop, with whether `socket`, `bind` and `listen` succeed, and whether
-- `start` goes on. A failed one leaves the socket open.
pub open_socket : Bool → Bool → Bool → IngestionServer → IngestionServer × Bool
open_socket opens binds listens server =
    if opens
    then if binds
      then if listens
        then (record server { has_socket = true; running = true }, true)
        else (record server { has_socket = true }, false)
      else (record server { has_socket = true }, false)
    else (record server { has_socket = false }, false)

-- `stop` closes the socket and keeps its number.
unfoldable pub stop : IngestionServer → IngestionServer
stop server = record server { running = false }

module _ {D I : Type 0} (ops : NumberOps D I) where
  -- A round: the clock, the bounds that a query takes for missing ones, and the bytes received;
  -- `none` is an accept that failed.
  pub record Round : Type 0 where
    pub now : I
    pub earliest : I
    pub latest : I
    pub received : Option Bytes

  -- The loop, with the responses it has sent; `none` is an exception, which ends the program.
  pub accept_loop :
      List Round → StorageConsumer ops × List Bytes → Option (StorageConsumer ops × List Bytes)
  accept_loop [] (s, sent) = some (s, sent)
  accept_loop (r ∷ rounds) (s, sent) = elim r.received [
    | none ↦ accept_loop rounds (s, sent)
    | some received ↦ elim (handle_client ops r.now r.earliest r.latest s received) [
      | none ↦ none
      | some (after, response) ↦ accept_loop rounds (after, sent ++ response ∷ [])
    ]
  ]

  -- A request that posts one metric, and the value that its text is read as.
  pub record Post : Type 0 where
    pub time : I
    pub headers : List Bytes
    pub name : Bytes
    pub number : Bytes
    pub value : D

  pub record IsRead (post : Post) : Type 0 where
    pub lines : All IsLine post.headers
    pub form : IsPosted post.name post.number
    pub fits : length (print_post post.headers post.name post.number) ≤ 4095
    pub reads : ops.stod post.number ≡ some post.value

  abbrev pub round : I → I → Post → Round
  round earliest latest post = record {
    now = post.time;
    earliest = earliest;
    latest = latest;
    received = some (print_post post.headers post.name post.number);
  }

  abbrev pub metric_of : Post → Metric D I
  metric_of post = record { name = post.name; value = post.value; timestamp = post.time }

  abbrev pub accepted : Post → Bytes
  accepted post = response (codes "202 Accepted") (codes "21") (codes "{\"status\":\"accepted\"}")

  accept_loop-append :
      (earliest latest : I) (posts : List Post) (rest : List Round) (s : StorageConsumer ops)
      (sent : List Bytes)
      → All IsRead posts
      → accept_loop (map (round earliest latest) posts ++ rest) (s, sent)
        ≡ accept_loop rest
            (record s { queue = s.queue ++ map metric_of posts }, sent ++ map accepted posts)
  unfolding accept_loop push
  accept_loop-append earliest latest [] rest s sent h =
      rw (append-nil s.queue, append-nil sent) refl
  accept_loop-append earliest latest (p ∷ posts) rest s sent h =
      rw
        (
          accept_loop,
          handle_client-posted ops p.time earliest latest s p.headers p.name p.number h.0.lines
              h.0.form h.0.fits,
          h.0.reads,
          accept_loop-append earliest latest posts rest (push ops (metric_of p) s)
              (sent ++ accepted p ∷ []) h.1,
          append_assoc s.queue (metric_of p ∷ []) (map metric_of posts),
          append_assoc sent (accepted p ∷ []) (map accepted posts),
        )
        refl

  -- The server answers each of the posted metrics with 202 and queues them in their order, each
  -- under its time. A post behind them whose value does not read as a number ends the program,
  -- whatever comes later. The requests fit into the buffer, with any header lines that are not
  -- empty and have no carriage return; their bodies are `{"name":"…","value":…}` without spaces,
  -- where the names have no quotation mark, the texts of the values no comma and no closing brace;
  -- none of these has a byte 0.
  pub accept_loop-posted :
      (earliest latest time : I) (posts : List Post) (headers : List Bytes) (name number : Bytes)
      (later : List Round) (s : StorageConsumer ops)
      → All IsRead posts
      → All IsLine headers
      → IsPosted name number
      → length (print_post headers name number) ≤ 4095
      → ops.stod number ≡ none
      → (accept_loop (map (round earliest latest) posts) (s, [])
          ≡ some (record s { queue = s.queue ++ map metric_of posts }, map accepted posts))
        × (accept_loop
              (map (round earliest latest) posts
                ++ record {
                  now = time;
                  earliest = earliest;
                  latest = latest;
                  received = some (print_post headers name number);
                }
                  ∷ later)
              (s, [])
            ≡ none)
  unfolding accept_loop
  accept_loop-posted earliest latest time posts headers name number later s h lines form fits bad =
      (
        ap (λ l. accept_loop l (s, [])) (sym (append-nil (map (round earliest latest) posts)))
            ∙ accept_loop-append earliest latest posts [] s [] h,
        accept_loop-append earliest latest posts _ s [] h
            ∙ rw
                (
                  accept_loop,
                  handle_client-posted ops time earliest latest
                      (record s { queue = s.queue ++ map metric_of posts }) headers name number
                      lines form fits,
                  bad,
                )
                refl,
      )
