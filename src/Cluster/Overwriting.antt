-- ===== src/Cluster/Overwriting.antt =====
-- DeleteRange up to the last entry of Raft's log, which Raft calls before it overwrites entries that
-- another leader had.
use dislog.Prelude.{
  ℕ, ◌+◌, ◌^◌, ◌<◌, List, [], ◌≡◌, refl, arith, length, ok, err, panic, offset_out_of_range,
}
use dislog.Api.{Proto}
use dislog.Index.{Gommap}
use dislog.Dir.{Dir}
use dislog.Segment.{Config}
use dislog.Log
use dislog.Log.{Log, truncate, read_in}
use dislog.Log.Chain.{Payloads, concat, IsLog}
use dislog.Log.Emptied.{drops_all}
use dislog.Log.Truncate.{append_empty}
use dislog.Cluster.{Entry, get_log, record_of, store_log, store_logs, delete_range}

module _ ⦃g : Gommap⦄ where
  module _ ⦃p : Proto⦄ where
    abbrev emptied : Dir → Config → Log
    emptied d c = record { dir = d; config = c; segments = [] }

    gone :
        (i : ℕ) (d : Dir) (c : Config)
        → get_log i (emptied d c) ≡ (err (offset_out_of_range i), emptied d c)
    unfolding get_log Log.read read_in
    gone i d c = refl

    stuck : (e : Entry) (l : Log) → l.segments ≡ [] → store_log e l ≡ (panic, l)
    unfolding store_log store_logs
    stuck e l h = rw (append_empty l h (record_of e)) refl

    -- DeleteRange up to the last index of Raft's log, from whatever index on, succeeds and leaves no
    -- entry: GetLog of any index, those before the range too, then answers that it is out of range,
    -- and storing an entry panics. The last index is below 2 ^ 64 - 1.
    pub delete_range-loses :
        (min max k i : ℕ) (e : Entry) (l : Log) (pss : List Payloads)
        → IsLog l k pss
        → max + 1 ≡ k + length (concat pss)
        → max + 1 < 2 ^ 64
        → (l' : Log) × (delete_range min max l ≡ (ok tt, l'))
          × (get_log i l' ≡ (err (offset_out_of_range i), l'))
          × (store_log e l' ≡ (panic, l'))
    unfolding delete_range truncate
    delete_range-loses min max k i e l pss h at small =
        let (seen, d, runs) =
          drops_all l.config max k l.segments pss l.dir h.chain (omega (arith, at)) small in
        let left = emptied d l.config in (left, rw runs refl, gone i d l.config, stuck e left refl)
