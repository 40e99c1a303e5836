-- ===== src/Log/Creating.antt =====
-- NewLog on an empty directory.
use dislog.Prelude.{ℕ, ◌+◌, ◌^◌, ◌<◌, [], ◌∷◌, true, ◌≡◌, refl, ◌∙◌, arith, ok, cons-ne-nil}
use dislog.Index.{Gommap}
use dislog.Dir.{Dir, Text, bytes_of, store_name, index_name, read_dir}
use dislog.Segment.{Config}
use dislog.Segment.Reopen.{new_segment_lem}
use dislog.Log.{Log, new_segment, open_all, setup, new_log, sort}
use dislog.Log.Chain.{IsUsable, IsFree}
use dislog.Log.Listing.{Distinct}
use dislog.Log.Filed.{IsFiled, IsFiled-touched_new}
use dislog.Log.Rollover.{empty-OnDisk, empty-Fits}
use dislog.Log.Reopening.{IsDurable, with_defaults-usable}

abbrev pub empty_dir : Dir
empty_dir = record { present = true; files = [] }

blank : (name : Text) → bytes_of name empty_dir ≡ []
unfolding bytes_of
blank name = refl

pub empty_dir-IsFree : (n : ℕ) → IsFree empty_dir n
empty_dir-IsFree n b lo hi = (blank (store_name b), blank (index_name b))

pub empty_dir-IsFiled : IsFiled empty_dir []
unfolding Distinct sort
empty_dir-IsFiled = record { distinct = tt; listed = refl; has = tt }

-- NewLog on an empty directory gives a log that has no records, and starts at the initial offset.
pub new_log_empty :
    ⦃g : Gommap⦄
    → (c : Config) → IsUsable c
    → c.initial_offset + 1 < 2 ^ 63
    → (l : Log) × (new_log empty_dir c ≡ (ok tt, l))
      × IsDurable l c.initial_offset ([] ∷ [])
      × (l.config ≡ c)
unfolding new_log setup read_dir open_all sort new_segment
new_log_empty c u small =
    let n = c.initial_offset in
    let (s, d, e, hs, base, conf, there, same, path) =
      new_segment_lem n c [] empty_dir
        (empty-OnDisk empty_dir n refl (empty_dir-IsFree n) (omega (arith, small)))
        (empty-Fits c n u small) in
    (
      record { dir = d; config = c; segments = s ∷ [] },
      rw (with_defaults-usable c u, e),
      record {
        holds = record {
          usable = u;
          chain = (base, conf, hs, tt);
          some_segment = cons-ne-nil s [];
          present = there;
          free = λ b lo hi. (
            same (store_name b) ∙ blank (store_name b),
            same (index_name b) ∙ blank (index_name b),
          );
        };
        filed =
            rw path
              (IsFiled-touched_new n empty_dir [] (omega (arith, small)) empty_dir-IsFiled tt);
        filled = tt;
      },
      refl,
    )
