-- ===== src/Tests/Logs.antt =====
-- Runs of the log.
use dislog.Prelude.{
  ℕ, [], ◌∷◌, ◌++◌, map, ◌≡◌, ◌≢◌, List, refl, ap, ◌∙◌, cons-ne-nil, arith, ok, err, panic,
  offset_out_of_range,
}
use dislog.Dir.{put_file, store_name, index_name}
use dislog.Segment
use dislog.Segment.{Segment, Config}
use dislog.Segment.Layout.{IsSegment, frames}
use dislog.Segment.Append.{HasRoom, segment_append}
use dislog.Segment.Reopen.{touched, bytes_of-touched}
use dislog.Log.Abandoned.{abandon}
use dislog.Log.Abandoned.Losing.{abandon-loses}
use dislog.Log.Surviving.{truncate-reopens}
use dislog.Log.Reopening.{IsDurable}
use dislog.Log.Filed.{IsFiled-touched_new}
use dislog.Log.Creating.{empty_dir, empty_dir-IsFiled}
use dislog.Log
use dislog.Log.{Log}
use dislog.Log.Readers.{append_among}
use dislog.Log.Readers.Between.{append_among_lem}
use dislog.Log.Chain.{Chain, IsLog, Payloads, concat}
use dislog.Log.Growing.{Small}
use dislog.Log.Roundtrip.{append_read}
use dislog.Log.Truncate.{truncate-read}
use dislog.Log.Reset.{reset-ne-ok}
use dislog.Tests.{
  codec, plain_map, hello, hello_bytes, config, config-IsUsable, fresh, fresh-IsSegment,
  fresh-HasRoom, single, single-IsSegment, single_base, single_config, nothing, start,
}

reset-ne-ok_example : Log.reset start ≢ (ok tt, start)
reset-ne-ok_example = reset-ne-ok start start

-- A second segment, behind the first one
abbrev pub fresh_6 : Segment
fresh_6 = record fresh { base_offset = 6; next_offset = 6 }

fresh_6-IsSegment : IsSegment fresh_6 []
fresh_6-IsSegment = record {
  stored = fresh-IsSegment.stored;
  indexed = fresh-IsSegment.indexed;
  counted = refl;
  in_range = omega arith;
  sparse = omega arith;
  capacity = refl;
}

abbrev pub bytes_6 : List ℕ
bytes_6 = 6 ∷ 1 ∷ 0 ∷ 104 ∷ 105 ∷ []

fresh_6-HasRoom : HasRoom fresh_6 [] bytes_6
fresh_6-HasRoom = record {
  entry_room = omega arith;
  store_room = fresh-HasRoom.store_room;
  offset_room = omega arith;
  number_room = omega arith;
}

abbrev pub single_6 : Segment
single_6 = (Segment.append hello fresh_6).1

single_6-Chain : Chain config 6 (single_6 ∷ []) ((bytes_6 ∷ []) ∷ [])
single_6-Chain =
    let (s, e, h, base, _, conf) =
      segment_append hello bytes_6 fresh_6-IsSegment fresh_6-HasRoom refl in
    rw (ap (λ x. x.1) e) (base, conf, h, tt)

-- A log of two segments
abbrev pub two : Log
two = record start { segments = single ∷ single_6 ∷ [] }

pub two-IsLog : IsLog two 5 ((hello_bytes ∷ []) ∷ (bytes_6 ∷ []) ∷ [])
two-IsLog = record {
  usable = config-IsUsable;
  chain = (single_base, single_config, single-IsSegment, single_6-Chain);
  some_segment = λ e. cons-ne-nil single (single_6 ∷ []) e;
  present = refl;
  free = λ b h h'. (nothing (store_name b), nothing (index_name b));
}

-- The same log, with the files of its segments
abbrev filed : Log
filed = record two { dir = touched 6 (touched 5 empty_dir) }

filed-IsDurable : IsDurable filed 5 ((hello_bytes ∷ []) ∷ (bytes_6 ∷ []) ∷ [])
unfolding put_file
filed-IsDurable = record {
  holds = record {
    usable = config-IsUsable;
    chain = two-IsLog.chain;
    some_segment = two-IsLog.some_segment;
    present = refl;
    free = λ b h h'. (
      bytes_of-touched 6 (store_name b) (touched 5 empty_dir)
          ∙ bytes_of-touched 5 (store_name b) empty_dir
          ∙ nothing (store_name b),
      bytes_of-touched 6 (index_name b) (touched 5 empty_dir)
          ∙ bytes_of-touched 5 (index_name b) empty_dir
          ∙ nothing (index_name b),
    );
  };
  filed =
      IsFiled-touched_new 6 (touched 5 empty_dir) (5 ∷ []) (omega arith)
        (IsFiled-touched_new 5 empty_dir [] (omega arith) empty_dir-IsFiled tt) (omega arith, tt);
  filled = (omega arith, tt);
}

truncate-reopens_example :
    (l1 l2 l3 : Log) × (Log.truncate 5 filed ≡ (ok tt, l1))
    × (Log.close l1 ≡ (ok tt, l2))
    × (Log.new_log l2.dir config ≡ (ok tt, l3))
    × IsDurable l3 6 ((bytes_6 ∷ []) ∷ [])
truncate-reopens_example =
    truncate-reopens 5 5 filed ((hello_bytes ∷ []) ∷ []) [] (bytes_6 ∷ []) filed-IsDurable
      (omega arith) (omega arith)

truncate-read_example :
    (l' : Log) × (Log.truncate 5 two ≡ (ok tt, l'))
    × ((Log.read 6 l').0 ≡ codec.unmarshal bytes_6)
    × (Log.read 5 l' ≡ (err (offset_out_of_range 5), l'))
truncate-read_example =
    truncate-read 5 5 two ((hello_bytes ∷ []) ∷ []) [] (bytes_6 ∷ []) two-IsLog (omega arith)
      (omega arith) 6 5 [] [] bytes_6 (omega arith) refl refl

abbrev bytes_7 : List ℕ
bytes_7 = 7 ∷ 1 ∷ 0 ∷ 104 ∷ 105 ∷ []

two-Small : Small config 7 bytes_7
two-Small = record { bytes_fit = omega arith; offset_fits = omega arith }

append_read_example :
    (l' : Log) × (Log.append hello two ≡ (ok 7, l'))
    × ((Log.read 7 l').0 ≡ ok (record hello { offset = 7 }))
    × ((Log.read 5 l').0 ≡ (Log.read 5 two).0)
append_read_example =
    append_read hello bytes_7 7 5 two ((hello_bytes ∷ []) ∷ (bytes_6 ∷ []) ∷ []) 5 two-IsLog refl
      two-Small refl (λ e. omega (arith, e))

-- A segment of two records, and the log that it makes
abbrev pair : Segment
pair = (Segment.append hello single).1

single_next : single.next_offset ≡ 6
single_next =
    let (s, e, _, _, next, _) =
      segment_append hello hello_bytes fresh-IsSegment fresh-HasRoom refl in
    rw (ap (λ x. x.1) e) next

single-HasRoom : HasRoom single (hello_bytes ∷ []) bytes_6
unfolding frames dislog.Prelude.Bytes.put_uint
single-HasRoom = record {
  entry_room = omega (arith, ap (λ (c : Config). c.max_index_bytes) single_config);
  store_room = omega arith;
  offset_room = omega (arith, single_next);
  number_room = omega arith;
}

pair-Chain : Chain config 5 (pair ∷ []) ((hello_bytes ∷ bytes_6 ∷ []) ∷ [])
pair-Chain =
    let (s, e, h, base, _, conf) =
      segment_append hello bytes_6 single-IsSegment single-HasRoom (rw single_next refl) in
    rw (ap (λ x. x.1) e) (base ∙ single_base, conf ∙ single_config, h, tt)

abbrev pair_log : Log
pair_log = record start { dir = touched 5 empty_dir; segments = pair ∷ [] }

pair-IsDurable : IsDurable pair_log 5 ((hello_bytes ∷ bytes_6 ∷ []) ∷ [])
unfolding put_file
pair-IsDurable = record {
  holds = record {
    usable = config-IsUsable;
    chain = pair-Chain;
    some_segment = λ e. cons-ne-nil pair [] e;
    present = refl;
    free = λ b h h'. (
      bytes_of-touched 5 (store_name b) empty_dir ∙ nothing (store_name b),
      bytes_of-touched 5 (index_name b) empty_dir ∙ nothing (index_name b),
    );
  };
  filed = IsFiled-touched_new 5 empty_dir [] (omega arith) empty_dir-IsFiled tt;
  filled = tt;
}

abandon-loses_example :
    ((Log.read 6 pair_log).0 ≡ codec.unmarshal bytes_6)
    × (l' : Log) × (l'' : Log) × (Log.new_log (abandon (pair ∷ []) pair_log.dir) config
        ≡ (ok tt, l'))
    × (Log.read 6 l' ≡ (err (offset_out_of_range 6), l'))
    × (Log.append hello l' ≡ (ok 6, l''))
abandon-loses_example =
    abandon-loses pair_log 5 6 hello_bytes bytes_6 [] hello bytes_6 pair-IsDurable (omega arith)
      (omega arith) (record { bytes_fit = omega arith; offset_fits = omega arith }) refl

-- A configuration under which one record fills a segment, and a log whose segment is full
abbrev tiny : Config
tiny = record config { max_store_bytes = 1 }

abbrev crammed : Segment
crammed = record single { config = tiny }

abbrev full_log : Log
full_log = record start { config = tiny; segments = crammed ∷ [] }

full_log-IsLog : IsLog full_log 5 ((hello_bytes ∷ []) ∷ [])
full_log-IsLog = record {
  usable = record {
    one_entry = omega arith;
    index_small = omega arith;
    some_store = omega arith;
    store_small = omega arith;
  };
  chain = (
    single_base,
    refl,
    record {
      stored = single-IsSegment.stored;
      indexed = single-IsSegment.indexed;
      counted = single-IsSegment.counted;
      in_range = single-IsSegment.in_range;
      sparse = single-IsSegment.sparse;
      capacity = single-IsSegment.capacity ∙ ap (λ (c : Config). c.max_index_bytes) single_config;
    },
    tt,
  );
  some_segment = λ e. cons-ne-nil crammed [] e;
  present = refl;
  free = λ b h h'. (nothing (store_name b), nothing (index_name b));
}

append_among_lem_example :
    (l' : Log) × (qss : List Payloads) × (append_among hello (5 ∷ []) (5 ∷ 6 ∷ []) full_log ≡ (
      ok 6,
      map (λ off. (Log.read off full_log).0) (5 ∷ [])
          ++ map (λ off. (Log.read off full_log).0) (5 ∷ 6 ∷ []),
      l',
    ))
    × IsLog l' 5 qss
    × (concat qss ≡ concat ((hello_bytes ∷ []) ∷ []) ++ (bytes_6 ∷ []))
    × ((Log.append hello full_log).0 ≡ ok 6)
append_among_lem_example =
    append_among_lem hello bytes_6 6 5 (5 ∷ []) (5 ∷ 6 ∷ []) full_log ((hello_bytes ∷ []) ∷ [])
      full_log-IsLog refl (record { bytes_fit = omega arith; offset_fits = omega arith }) refl
