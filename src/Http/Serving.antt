-- ===== src/Http/Serving.antt =====
-- The HTTP server as a whole: on any requests it answers as a list of values does.
use text.Mathlib.Text.{◌==◌ as same_string}
use mathlib.Core.Bool.{true≢false}
use dislog.Prelude.{
  ℕ, suc, zero, ◌+◌, List, [], ◌∷◌, ◌++◌, Bool, String, Option, none, some, ◌≡◌, ◌≢◌, inl, inr,
  refl, ap, ◌∙◌, arith, length, get_elem?, if◌then◌else◌, Bool-cases, leb, sym, get_elem?-lt,
  get_elem?-past,
}
use dislog.Http.{
  Record, Log, Request, Json, Route, Router, Response, new_log, append, read, produced, consumed,
  not_found, bad_request, internal_error, handle_produce, handle_consume, produce_route,
  consume_route, new_http_server, serve_all,
}

-- What gorilla/mux promises of two routes: the first one serves a request with its path and method, and
-- the second one such a request that has another method than the first.
pub record Routes (router : Router) : Type 0 where
  pub first :
      (a b : Route) (req : Request) (l : Log)
      → req.path ≡ a.route_path
      → req.method ≡ a.route_method
      → router (a ∷ b ∷ []) req l ≡ a.handler req l
  pub second :
      (a b : Route) (req : Request) (l : Log)
      → req.path ≡ b.route_path
      → req.method ≡ b.route_method
      → req.method ≢ a.route_method
      → router (a ∷ b ∷ []) req l ≡ b.handler req l

-- The answer to the client, if it is reached.
abbrev told : Bool → Response → Response
told reached body = if reached then body else internal_error

-- The server as a list of values: what it answers, and the values after it.
unfoldable pub post : List (List ℕ) → Option Record → Bool → Response × List (List ℕ)
post vs none reached = (bad_request, vs)
post vs (some r) reached = (told reached (produced (length vs)), vs ++ (r.value ∷ []))

unfoldable pub found : ℕ → Bool → Option (List ℕ) → Response
found off reached none = not_found
found off reached (some v) = told reached (consumed (record { value = v; offset = off }))

unfoldable pub get : List (List ℕ) → Option ℕ → Bool → Response
unfolding found
get vs none reached = bad_request
get vs (some off) reached = found off reached (get_elem? vs off)

module _ (json : Json) where
  -- Posts and gets at "/", with what the list of values answers.
  pub data Talk : List (List ℕ) → List Request → List Response → Type 0 where
    silence : {vs : List (List ℕ)} → Talk vs [] []
    posts :
        {vs : List (List ℕ)} (req : Request) {reqs : List Request} {answers : List Response}
        → req.path ≡ "/"
        → req.method ≡ "POST"
        → Talk (post vs (json.decode_record req.body) req.reached).1 reqs answers
        → Talk vs (req ∷ reqs) ((post vs (json.decode_record req.body) req.reached).0 ∷ answers)
    gets :
        {vs : List (List ℕ)} (req : Request) {reqs : List Request} {answers : List Response}
        → req.path ≡ "/"
        → req.method ≡ "GET"
        → Talk vs reqs answers
        → Talk vs (req ∷ reqs) (get vs (json.decode_offset req.body) req.reached ∷ answers)

-- The records that hold the values, numbered from `n` on.
unfoldable pub numbered : ℕ → List (List ℕ) → List Record
numbered n [] = []
numbered n (v ∷ vs) = record { value = v; offset = n } ∷ numbered (n + 1) vs

length-numbered : (n : ℕ) (vs : List (List ℕ)) → length (numbered n vs) ≡ length vs
unfolding numbered
length-numbered n [] = refl
length-numbered n (v ∷ vs) = ap suc (length-numbered (n + 1) vs)

numbered-snoc :
    (n m : ℕ) (vs : List (List ℕ)) (v : List ℕ)
    → m ≡ n + length vs
    → numbered n (vs ++ (v ∷ [])) ≡ numbered n vs ++ (record { value = v; offset = m } ∷ [])
unfolding numbered
numbered-snoc n m [] v at =
    ap (λ (k : ℕ). record { value = v; offset = k } ∷ []) (omega (arith, at))
numbered-snoc n m (x ∷ vs) v at =
    ap (λ t. record { value = x; offset = n } ∷ t)
      (numbered-snoc (n + 1) m vs v (omega (arith, at)))

get_elem?-numbered :
    (n i : ℕ) (vs : List (List ℕ)) (v : List ℕ)
    → get_elem? vs i ≡ some v
    → get_elem? (numbered n vs) i ≡ some (record { value = v; offset = n + i })
unfolding numbered
get_elem?-numbered n i [] v h = cc
get_elem?-numbered n zero (x ∷ vs) v h =
    let same : x ≡ v = cc in
    ap (λ y. some (record { value = y; offset = n })) same
    ∙ ap (λ (k : ℕ). some (record { value = v; offset = k })) (omega arith)
get_elem?-numbered n (suc i) (x ∷ vs) v h =
    get_elem?-numbered (n + 1) i vs v h
    ∙ ap (λ (k : ℕ). some (record { value = v; offset = k })) (omega arith)

handle_post :
    (l : Log) (vs : List (List ℕ)) (req : Option Record) (reached : Bool)
    → l.records ≡ numbered 0 vs
    → ((handle_produce req reached l).0 ≡ (post vs req reached).0)
      × ((handle_produce req reached l).1.records ≡ numbered 0 (post vs req reached).1)
unfolding handle_produce append post
handle_post l vs none reached h = (refl, h)
handle_post l vs (some r) reached h =
    let count : length l.records ≡ length vs = ap length h ∙ length-numbered 0 vs in
    (
      ap (λ (n : ℕ). told reached (produced n)) count,
      rw (count, h) (rw (numbered-snoc 0 (length vs) vs r.value (omega arith)) refl),
    )

handle_get :
    (l : Log) (vs : List (List ℕ)) (req : Option ℕ) (reached : Bool)
    → l.records ≡ numbered 0 vs
    → handle_consume req reached l ≡ (get vs req reached, l)
unfolding handle_consume read get found
handle_get l vs none reached h = refl
handle_get l vs (some off) reached h =
    let count : length l.records ≡ length vs = ap length h ∙ length-numbered 0 vs in
    elim (Bool-cases (leb (length vs) off)) [
      | inl past ↦ rw (get_elem?-past vs off (ground (arith, past)), count, past) refl
      | inr past ↦
          let (v, e) = get_elem?-lt vs off (ground (arith, past)) in
          let there : get_elem? l.records off ≡ some (record { value = v; offset = off }) =
            ap (λ rs. get_elem? rs off) h
            ∙ get_elem?-numbered 0 off vs v e
            ∙ ap (λ (k : ℕ). some (record { value = v; offset = k })) (omega arith) in
          rw (e, count, past, there) refl
    ]

get-ne-post : ◌≢◌ {A = String} "GET" "POST"
get-ne-post q = true≢false (ap (same_string "GET") q)

module _ (router : Router) (routes : Routes router) (json : Json) where
  serves :
      (l : Log) {vs : List (List ℕ)} {reqs : List Request} {answers : List Response}
      → Talk json vs reqs answers
      → l.records ≡ numbered 0 vs
      → (serve_all router json reqs l).0 ≡ answers
  unfolding serve_all new_http_server
  serves l silence h = refl
  serves l (posts {vs} req at is rest) h =
      let (e, h') = handle_post l vs (json.decode_record req.body) req.reached h in
      rw (routes.first (produce_route json) (consume_route json) req l at is)
        (rw (e, serves (handle_produce (json.decode_record req.body) req.reached l).1 rest h') refl)
  serves l (gets {vs} req at is rest) h =
      rw
        (routes.second (produce_route json) (consume_route json) req l at is
          (λ q. get-ne-post (sym is ∙ q)))
        (rw (handle_get l vs (json.decode_offset req.body) req.reached h)
          (rw (serves l rest h) refl))

  -- From an empty log on, the server answers any sequence of POSTs and GETs at "/" as a list of values
  -- does, to which each POST of a record adds the record's value under the number of values before it, and of
  -- which each GET of an offset shows the value there or finds none; a body that cannot be decoded is a
  -- bad request. The router serves a request by the first route with its path and method, and where the
  -- client is not reached an internal error stands for the answer.
  pub serve_all_lem :
      (reqs : List Request) (answers : List Response)
      → Talk json [] reqs answers
      → (serve_all router json reqs new_log).0 ≡ answers
  unfolding numbered
  serve_all_lem reqs answers talk = serves new_log talk refl
