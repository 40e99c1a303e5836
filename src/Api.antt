-- ===== src/Api.antt =====
-- api/v1: the messages of log.proto that the program handles, and what it uses of protobuf.
pub mod Errors
use dislog.Prelude.{ℕ, List, Bool, String, ◌≡◌, Option, some, Result, ok}

-- api.Record
pub record Record : Type 0 where
  pub value : List ℕ
  pub offset : ℕ
  pub term : ℕ
  pub kind : ℕ

-- api.Server
pub record Server : Type 0 where
  pub id : String
  pub rpc_addr : String
  pub is_leader : Bool

-- google.golang.org/protobuf/proto on records, which the program imports: a message that Marshal
-- encodes is what Unmarshal makes of the bytes.
pub record Proto : Type 0 where
  pub marshal : Record → Result (List ℕ)
  pub unmarshal : List ℕ → Result Record
  pub unmarshal-marshal : (r : Record) (b : List ℕ) → marshal r ≡ ok b → unmarshal b ≡ ok r

-- The same on api.ProduceRequest, which carries a record; bytes from elsewhere may carry none.
pub record ProtoRequest : Type 0 where
  pub marshal : Record → Result (List ℕ)
  pub unmarshal : List ℕ → Result (Option Record)
  pub unmarshal-marshal : (r : Record) (b : List ℕ) → marshal r ≡ ok b → unmarshal b ≡ ok (some r)
