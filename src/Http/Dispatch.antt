-- ===== src/Http/Dispatch.antt =====
-- The table of handlers: add_handler and handle_request.
use systems_craft.Prelude.{
  ◌≡◌, none, some, [], arith, Bytes, codes, beq, beq_iff, lookup, insert, lookup-insert,
  if◌then◌else◌,
}
use systems_craft.Http.{
  HttpRequest, HttpResponse, Handlers, methods_of, add_handler, Routed, answers, calls,
  handle_request,
}

abbrev pub method_not_allowed : HttpResponse
method_not_allowed = record { status_code = 405; body = codes "Method Not Allowed"; headers = [] }

module _ {ℓ} {H : Type ℓ} where
  -- What a request on a path is answered once the path has some handler, but no new one for it.
  abbrev pub known_path : Bytes → Handlers H → HttpRequest → Routed H
  known_path path handlers request = elim (lookup path handlers) [
    | none ↦ answers method_not_allowed
    | some methods ↦ handle_request handlers request
  ]

  -- After `add_handler` a request for that path and method calls the new handler. Another method
  -- on the path is routed as before, or answered with 405 if the path had no handler at all;
  -- requests for other paths are routed as before.
  pub handle_request-add_handler :
      (path method : Bytes) (handler : H) (handlers : Handlers H) (request : HttpRequest)
      → handle_request (add_handler path method handler handlers) request ≡ (
          if beq path request.path
          then (if beq method request.method
              then calls handler
              else known_path path handlers request)
          else handle_request handlers request)
  unfolding handle_request add_handler lookup
  handle_request-add_handler path method handler handlers request = ground (
    arith,
    beq_iff path request.path,
    lookup-insert path request.path (insert method handler (methods_of path handlers)) handlers,
    lookup-insert method request.method handler (methods_of path handlers),
  )
