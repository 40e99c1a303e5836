-- ===== src/Http.antt =====
-- internal/server/log.go and http.go: the log in memory, and the two HTTP handlers over it. Decoding
-- a request body and writing to the client are calls of encoding/json: the handlers take the decoded
-- request, `none` where Decode fails, and whether Encode reaches the client.
pub mod Serving
use dislog.Prelude.{
  ℕ, List, [], ◌∷◌, ◌++◌, Bool, Option, none, some, String, leb, if◌then◌else◌, length, get_elem?,
  Result, ok, err, panic, offset_not_found, Exec, pure, gets, modify, ◌>>=◌, ◌>>◌,
}

pub record Record : Type 0 where
  pub value : List ℕ
  pub offset : ℕ

pub record Log : Type 0 where
  pub records : List Record

-- NewLog
abbrev pub new_log : Log
new_log = record { records = [] }

-- Log.Append
unfoldable pub append : Record → Exec Log ℕ
append r = do
  n ← gets (λ l. length l.records)
  modify (λ l. record l { records = l.records ++ (record r { offset = n } ∷ []) })
  pure n

-- `c.records[offset]`
elem : Option Record → Result Record
elem none = panic
elem (some r) = ok r

-- Log.Read
unfoldable pub read : ℕ → Exec Log Record
unfolding elem
read offset l =
    if leb (length l.records) offset
    then (err offset_not_found, l)
    else (elem (get_elem? l.records offset), l)

-- What the client gets: a body, or http.Error with a status.
pub data Response : Type 0 where
  produced : ℕ → Response
  consumed : Record → Response
  bad_request : Response
  not_found : Response
  internal_error : Response
  -- the handler panics, and net/http drops the connection
  dropped : Response

-- json.NewEncoder(w).Encode: http.Error follows if the client is not reached.
abbrev sent : Bool → Response → Response
sent reached body = if reached then body else internal_error

answer_produce : Bool → Result ℕ → Response
answer_produce reached (ok off) = sent reached (produced off)
answer_produce reached (err e) = internal_error
answer_produce reached panic = dropped

-- httpServer.handleProduce
unfoldable pub handle_produce : Option Record → Bool → Log → Response × Log
unfolding answer_produce
handle_produce none reached l = (bad_request, l)
handle_produce (some r) reached l = let (a, l') = append r l in (answer_produce reached a, l')

answer_consume : Bool → Result Record → Response
answer_consume reached (ok r) = sent reached (consumed r)
answer_consume reached (err offset_not_found) = not_found
answer_consume reached (err _) = internal_error
answer_consume reached panic = dropped

-- httpServer.handleConsume
unfoldable pub handle_consume : Option ℕ → Bool → Log → Response × Log
unfolding answer_consume
handle_consume none reached l = (bad_request, l)
handle_consume (some off) reached l = let (a, l') = read off l in (answer_consume reached a, l')

-- A request, and whether the answer reaches its client
pub record Request : Type 0 where
  pub method : String
  pub path : String
  pub body : List ℕ
  pub reached : Bool

-- encoding/json on the bodies: Decode into a ProduceRequest and into a ConsumeRequest, whose one field
-- is a record or an offset.
pub record Json : Type 0 where
  pub decode_record : List ℕ → Option Record
  pub decode_offset : List ℕ → Option ℕ

-- What HandleFunc and Methods of github.com/gorilla/mux register
pub record Route : Type 0 where
  pub route_path : String
  pub route_method : String
  pub handler : Request → Log → Response × Log

abbrev pub produce_route : Json → Route
produce_route json = record {
  route_path = "/";
  route_method = "POST";
  handler = λ req. handle_produce (json.decode_record req.body) req.reached;
}

abbrev pub consume_route : Json → Route
consume_route json = record {
  route_path = "/";
  route_method = "GET";
  handler = λ req. handle_consume (json.decode_offset req.body) req.reached;
}

-- NewHTTPServer, as the routes of its handler
unfoldable pub new_http_server : Json → List Route
new_http_server json = produce_route json ∷ consume_route json ∷ []

-- The router of gorilla/mux: the first route with the path and the method of a request handles it.
abbrev pub Router : Type 0
Router = List Route → Request → Log → Response × Log

-- The server on the requests that come, one after another
unfoldable pub serve_all : Router → Json → List Request → Log → List Response × Log
serve_all router json [] l = ([], l)
serve_all router json (req ∷ reqs) l =
    let (a, l') = router (new_http_server json) req l in
    let (answers, l'') = serve_all router json reqs l' in (a ∷ answers, l'')
