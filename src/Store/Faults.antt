-- ===== src/Store/Faults.antt =====
-- Errors of the store: a write that the file refuses, and what every later call then answers.
use dislog.Prelude.{
  ℕ, List, true, ◌≡◌, arith, ok, Run, Run-cases, done, failed, panicked, ◌≢◌, err, panic, Error,
  refused, length,
}
use dislog.Prelude.Bytes.{put_uint}
use dislog.Store.{len_width, Writer, Store, flush, write_rest, write, append, read}

-- A writer that failed once refuses every call, and the store does not change.
module _ (s : Store) (failed : s.writer.failed ≡ true) where
  pub append-failed : (p : List ℕ) → append p s ≡ (err refused, s)
  unfolding append write
  append-failed p = ground (arith, failed)

  pub read-failed : (pos : ℕ) → read pos s ≡ (err refused, s)
  unfolding read flush
  read-failed pos = ground (arith, failed)

flush-err : (w w' : Writer) (e : Error) → flush w ≡ (err e, w') → (e ≡ refused) × (w'.failed ≡ true)
unfolding flush
flush-err w w' e h = ground arith

write_rest-err :
    (p : List ℕ) (w w' : Writer) (e : Error)
    → write_rest p w ≡ (err e, w')
    → (e ≡ refused) × (w'.failed ≡ true)
unfolding write_rest
write_rest-err p w w' e h = ground arith

write-err :
    (p : List ℕ) (w w' : Writer) (e : Error)
    → write p w ≡ (err e, w')
    → (e ≡ refused) × (w'.failed ≡ true)
unfolding write
write-err p w w' e h = ground arith

write-ne-panic : (p : List ℕ) (w w' : Writer) → write p w ≢ (panic, w')
unfolding write
write-ne-panic p w w' h = ground arith

-- An Append that fails answers the file's refusal; the size is as it was, and from then on every
-- Append and every Read of that store is refused.
pub append-err :
    (p : List ℕ) (s s' : Store) (e : Error)
    → append p s ≡ (err e, s')
    → (e ≡ refused)
      × (s'.size ≡ s.size)
      × ((q : List ℕ) → append q s' ≡ (err refused, s'))
      × ((pos : ℕ) → read pos s' ≡ (err refused, s'))
append-err p s s' e h =
    let (bad, same, stuck) = refusal (Run-cases (write (put_uint len_width (length p)) s.writer)) in
    (bad, same, append-failed s' stuck, read-failed s' stuck)
  where
    second :
        (w : Writer)
        → write (put_uint len_width (length p)) s.writer ≡ (ok tt, w)
        → Run (write p w)
        → (e ≡ refused) × (s'.size ≡ s.size) × (s'.writer.failed ≡ true)
    second w first (done a v r) = unfold append in cc (rw (first, r) at h)
    second w first (failed x v r) =
        unfold append in ground (arith, first, r, h, write-err p w v x r)
    second w first (panicked v r) = absurd (write-ne-panic p w v r)

    refusal :
        Run (write (put_uint len_width (length p)) s.writer)
        → (e ≡ refused) × (s'.size ≡ s.size) × (s'.writer.failed ≡ true)
    refusal (done a w r) = second w r (Run-cases (write p w))
    refusal (failed x w r) =
        unfold append in
        ground (arith, r, h, write-err (put_uint len_width (length p)) s.writer w x r)
    refusal (panicked w r) = absurd (write-ne-panic _ _ w r)
