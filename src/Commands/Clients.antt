-- ===== src/Commands/Clients.antt =====
-- cmd/server and cmd/getservers: a server of the HTTP log, and a client that lists the servers of a
-- cluster. log.Fatal ends the process with the error.
use dislog.Prelude.{List, ◌∷◌, String, Exec, pure, ◌>>=◌, ◌>>◌, map}
use dislog.Api.{Server}
use dislog.Http.{Json, Route, new_http_server}

-- main of cmd/server: `listen` is ListenAndServe of net/http on an address, with the routes.
unfoldable pub serve_http :
    {S : Type 0} → (String → List Route → Exec S (Unit {0})) → Json → Exec S (Unit {0})
serve_http listen json = listen ":8080" (new_http_server json)

-- The client of getservers, over the state `S` of its connection: grpc.Dial, GetServers, and fmt's "%v"
-- of a server
pub record Client (S : Type 0) : Type 0 where
  pub dial : String → Exec S (Unit {0})
  pub servers : Exec S (List Server)
  pub line : Server → String

-- main of cmd/getservers, with the value of its flag: the lines that it prints
unfoldable pub list_servers : {S : Type 0} → Client S → String → Exec S (List String)
list_servers client addr = do
  client.dial addr
  servers ← client.servers
  pure ("servers:" ∷ map client.line servers)
