-- ===== src/Log/Reset.antt =====
-- Log.Reset removes the log directory, and setup then cannot list it.
use dislog.Prelude.{
  [], ◌≡◌, ◌≢◌, refl, arith, Error, ok, err, panic, refused, Run, Run-cases, done, failed, panicked,
  false,
}
use dislog.Index.{Gommap}
use dislog.Dir.{read_dir, remove_all}
use dislog.Log.{Log, close, remove, setup, reset}

module _ ⦃g : Gommap⦄ where
  -- Setting up a log whose directory is gone is refused.
  pub setup_absent : (l : Log) → l.dir.present ≡ false → setup l ≡ (err refused, l)
  unfolding setup read_dir
  setup_absent l h = ground (arith, h)

  -- Where the segments close, Reset empties the directory and answers an error.
  reset_closed :
      (l l' : Log)
      → close l ≡ (ok tt, l')
      → reset l ≡ (err refused, record l' { dir = record { present = false; files = [] } })
  unfolding reset remove remove_all
  reset_closed l l' h = rw h (setup_absent _ refl)

  reset_failed : (l l' : Log) (x : Error) → close l ≡ (err x, l') → reset l ≡ (err x, l')
  unfolding reset remove
  reset_failed l l' x h = rw h

  reset_panicked : (l l' : Log) → close l ≡ (panic, l') → reset l ≡ (panic, l')
  unfolding reset remove
  reset_panicked l l' h = rw h

  -- Reset never succeeds, whatever the log: where its segments close, the directory is removed, and
  -- setup then cannot list it.
  pub reset-ne-ok : (l l' : Log) → reset l ≢ (ok tt, l')
  reset-ne-ok l l' e = go (Run-cases (close l))
    where
      go : Run (close l) → ⊥
      go (done _ m r) = cc (reset_closed l m r)
      go (failed x m r) = cc (reset_failed l m x r)
      go (panicked m r) = cc (reset_panicked l m r)
