-- ===== src/Tests.antt =====
-- Instances of what the program imports, and small stores, segments and logs, for the tests.
pub mod Storage
pub mod Logs
pub mod Servers
pub mod Replicas
pub mod Lives
pub mod Nodes
pub mod Processes
pub mod Agents
use dislog.Prelude.{
  ℕ, List, [], ◌∷◌, false, true, cons-ne-nil, ◌≡◌, refl, arith, replicate, length, Result, ok, err,
  malformed, panic, Option, some, ap, sym, append-nil,
}
use dislog.Api.{Record, Proto, ProtoRequest}
use dislog.Store.{Store, opened, new_store}
use dislog.Store.Append.{IsSound, new_store-IsSound, store_append, frame}
use dislog.Index.{Index, Gommap}
use dislog.Index.Entries.{Lists, encode-nil}
use dislog.Dir.{Text, bytes_of, store_name, index_name}
use dislog.Segment
use dislog.Segment.{Segment, Config}
use dislog.Segment.Layout.{IsSegment, frames-nil, layout-nil}
use dislog.Segment.Append.{HasRoom, segment_append}
use dislog.Log
use dislog.Log.{Log}
use dislog.Log.Chain.{IsLog, IsUsable, Payloads}
use dislog.Log.Growing.{Small}
use dislog.Log.Append.{Appended, log_append}

-- A codec: the fields one after another.
abbrev pub encoded : Record → Result (List ℕ)
encoded r = ok (r.offset ∷ r.term ∷ r.kind ∷ r.value)

abbrev pub decoded : List ℕ → Result Record
decoded (off ∷ term ∷ kind ∷ value) =
    ok (record { value = value; offset = off; term = term; kind = kind })
decoded bs = err malformed

pub decoded-encoded : (r : Record) (b : List ℕ) → encoded r ≡ ok b → decoded b ≡ ok r
decoded-encoded r b h = let e : r.offset ∷ r.term ∷ r.kind ∷ r.value ≡ b = cc in rw (← e)

instance abbrev pub codec : Proto
codec = record { marshal = encoded; unmarshal = decoded; unmarshal-marshal = decoded-encoded }

-- A request that carries the record
abbrev carried : Result Record → Result (Option Record)
carried (ok r) = ok (some r)
carried (err e) = err e
carried panic = panic

instance abbrev pub request_codec : ProtoRequest
request_codec = record {
  marshal = encoded;
  unmarshal = λ bs. carried (decoded bs);
  unmarshal-marshal = λ r b h. ap carried (decoded-encoded r b h);
}

-- A map that shows every file.
instance abbrev pub plain_map : Gommap
plain_map = record { map = ok; sync = ok; map_lem = λ bs ne. refl; sync_lem = λ bs. refl }

abbrev pub hello : Record
hello = record { value = 104 ∷ 105 ∷ []; offset = 0; term = 1; kind = 0 }

-- Three entries to an index, offsets from 5 on
abbrev pub config : Config
config = record { max_store_bytes = 1024; max_index_bytes = 36; initial_offset = 5 }

abbrev pub blank : Index
blank = record { file = opened (replicate 36 0); mmap = replicate 36 0; size = 0 }

pub blank-Lists : Lists blank []
blank-Lists = record {
  image = replicate 36 0;
  is_open = refl;
  rest = replicate 36 0;
  unused = refl;
  mapped = rw encode-nil;
  sized = refl;
  fits = omega arith;
}

abbrev pub fresh : Segment
fresh = record {
  store = new_store (opened []);
  index = blank;
  base_offset = 5;
  next_offset = 5;
  config = config;
}

pub fresh-IsSegment : IsSegment fresh []
fresh-IsSegment = record {
  stored = rw frames-nil (new_store-IsSound [] (omega arith));
  indexed = rw (layout-nil 0 0) blank-Lists;
  counted = refl;
  in_range = omega arith;
  sparse = omega arith;
  capacity = refl;
}

abbrev pub hello_bytes : List ℕ
hello_bytes = 5 ∷ 1 ∷ 0 ∷ 104 ∷ 105 ∷ []

pub fresh-HasRoom : HasRoom fresh [] hello_bytes
fresh-HasRoom = record {
  entry_room = omega arith;
  store_room = rw frames-nil (omega arith);
  offset_room = omega arith;
  number_room = omega arith;
}

-- A segment with one record
abbrev pub single : Segment
single = (Segment.append hello fresh).1

pub single-IsSegment : IsSegment single (hello_bytes ∷ [])
single-IsSegment =
    let (s, e, h, _, _, _) = segment_append hello hello_bytes fresh-IsSegment fresh-HasRoom refl in
    rw (ap (λ x. x.1) e) h

pub single_base : single.base_offset ≡ 5
single_base =
    let (s, e, _, base, _, _) =
      segment_append hello hello_bytes fresh-IsSegment fresh-HasRoom refl in
    rw (ap (λ x. x.1) e) base

pub single_config : single.config ≡ config
single_config =
    let (s, e, _, _, _, conf) =
      segment_append hello hello_bytes fresh-IsSegment fresh-HasRoom refl in
    rw (ap (λ x. x.1) e) conf

pub config-IsUsable : IsUsable config
config-IsUsable = record {
  one_entry = omega arith;
  index_small = omega arith;
  some_store = omega arith;
  store_small = omega arith;
}

-- A log that starts at offset 5
abbrev pub start : Log
start = record {
  dir = record { present = true; files = [] };
  config = config;
  segments = fresh ∷ [];
}

pub nothing : (name : Text) → bytes_of name (record { present = true; files = [] }) ≡ []
unfolding bytes_of
nothing name = refl

pub start-IsLog : IsLog start 5 ([] ∷ [])
start-IsLog = record {
  usable = config-IsUsable;
  chain = (refl, refl, fresh-IsSegment, tt);
  some_segment = λ e. cons-ne-nil fresh [] e;
  present = refl;
  free = λ b h h'. (nothing (store_name b), nothing (index_name b));
}

pub hello-Small : Small config 5 hello_bytes
hello-Small = record { bytes_fit = omega arith; offset_fits = omega arith }
