-- ===== src/Log/Bounds.antt =====
-- The sizes that the segments of a log keep to, whatever it has seen.
use dislog.Prelude.{ℕ, ◌+◌, ◌-◌, ◌*◌, ◌^◌, ◌≤◌, ◌<◌, List, [], ◌∷◌, ◌≡◌, ap, arith, length, ok}
use dislog.Api.{Record, Proto}
use dislog.Index.{Gommap}
use dislog.Index.Entries.{length-mmap}
use dislog.Segment.{Segment, Config}
use dislog.Segment.Layout.{IsSegment, length-layout}
use dislog.Log.{Log}
use dislog.Log.Chain.{Payloads, concat, Chain, IsUsable}
use dislog.Log.Limits.{AtMost, Tight}
use dislog.Log.Records.{Encodes}
use dislog.Log.History.{History, History-Keeps}

-- Protobuf makes at most `w` bytes of each of the records.
abbrev pub Narrow : ⦃p : Proto⦄ → ℕ → List Record → Type 0
Narrow w [] = Unit {0}
Narrow ⦃p⦄ w (r ∷ rs) = ((b : List ℕ) → p.marshal r ≡ ok b → length b ≤ w) × Narrow w rs

Narrow-AtMost :
    ⦃p : Proto⦄
    → (w : ℕ) (rs : List Record) (bs : Payloads) → Narrow w rs
    → Encodes rs bs
    → AtMost w bs
Narrow-AtMost w [] [] h e = tt
Narrow-AtMost w [] (b ∷ bs) h e = absurd e
Narrow-AtMost w (r ∷ rs) [] h e = absurd e
Narrow-AtMost w (r ∷ rs) (b ∷ bs) h e = (h.0 b e.0, Narrow-AtMost w rs bs h.1 e.1)

-- The sizes of a segment: those of its index and of the map, its store, its offsets.
pub record Within (c : Config) (w : ℕ) (s : Segment) : Type 0 where
  pub store_below : s.store.size < c.max_store_bytes + w + 8
  pub index_below : s.index.size ≤ c.max_index_bytes
  pub mapped : length s.index.mmap ≡ c.max_index_bytes
  pub one_entry_each : s.index.size ≡ 12 * (s.next_offset - s.base_offset)
  pub in_order : s.base_offset ≤ s.next_offset
  pub no_overflow : s.next_offset < 2 ^ 63

abbrev pub AllWithin : Config → ℕ → List Segment → Type 0
AllWithin c w [] = Unit {0}
AllWithin c w (s ∷ ss) = Within c w s × AllWithin c w ss

IsSegment-Within :
    (c : Config) (w : ℕ) (s : Segment) (ps : Payloads)
    → s.config ≡ c
    → IsSegment s ps
    → Tight c w (ps ∷ [])
    → Within c w s
IsSegment-Within c w s ps conf h t =
    let entries = length-layout 0 0 ps in
    let whole = length-mmap h.indexed in
    let room = ap (λ (c : Config). c.max_index_bytes) conf in
    record {
      store_below = omega (arith, h.stored.sized, t.0);
      index_below = omega (arith, h.indexed.sized, whole, h.capacity, room);
      mapped = omega (arith, h.capacity, room);
      one_entry_each = omega (arith, h.indexed.sized, entries, h.counted);
      in_order = omega (arith, h.counted);
      no_overflow = h.in_range;
    }

Chain-AllWithin :
    (c : Config) (w k : ℕ) (ss : List Segment) (pss : List Payloads)
    → Chain c k ss pss
    → Tight c w pss
    → AllWithin c w ss
Chain-AllWithin c w k [] pss h t = tt
Chain-AllWithin c w k (s ∷ ss) [] h t = absurd h
Chain-AllWithin c w k (s ∷ ss) (ps ∷ pss) (_, conf, hs, h) t =
    (IsSegment-Within c w s ps conf hs (t.0, tt), Chain-AllWithin c w (k + length ps) ss pss h t.1)

-- Whatever appends, refused appends, reads, closings and reopenings a log has seen since NewLog made it
-- on an empty directory, of records of which protobuf makes at most `w` bytes each: the store of each
-- segment is smaller than MaxStoreBytes with the frame of one record more, its index has one entry of 12
-- bytes for each offset and is not larger than MaxIndexBytes, which is the width of its map, and its next
-- offset stays below 2 ^ 63. The configuration is usable, with an initial offset below 2 ^ 63 - 1.
pub History-AllWithin :
    ⦃p : Proto⦄ ⦃g : Gommap⦄
    → (c : Config) (w : ℕ) {l : Log} {rs : List Record} → IsUsable c
    → c.initial_offset + 1 < 2 ^ 63
    → History c l rs
    → Narrow w rs
    → AllWithin c w l.segments
History-AllWithin c w {l} {rs} u small h narrow =
    let k = History-Keeps c u small h in
    Chain-AllWithin c w c.initial_offset l.segments k.payloads
      (rw k.same_config at k.durable.holds.chain)
      (k.tight w (Narrow-AtMost w rs (concat k.payloads) narrow k.all))
