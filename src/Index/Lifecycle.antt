-- ===== src/Index/Lifecycle.antt =====
-- newIndex and index.Close: the file is stretched while it is mapped, and cut back to its entries.
use dislog.Prelude.{
  true, ℕ, zero, ◌-◌, ◌*◌, ◌^◌, ◌≤◌, ◌<◌, List, [], ◌++◌, ◌≡◌, ◌≢◌, refl, sym, ap, ◌∙◌, arith, ok,
  length, replicate, length-append, length-replicate, take_all, take-length-append, append-nil,
  lt→leb,
}
use dislog.Store.{opened}
use dislog.Index.{Index, Gommap, new_index, close, resize}
use dislog.Index.Entries.{encode, Lists, length-encode, length-mmap}

resize_up : (n : ℕ) (bs : List ℕ) → length bs ≤ n → resize n bs ≡ bs ++ replicate (n - length bs) 0
resize_up n bs h = ap (λ t. t ++ replicate (n - length bs) 0) (take_all n bs h)

length-resize_up : (n : ℕ) (bs : List ℕ) → length bs ≤ n → length (resize n bs) ≡ n
length-resize_up n bs h = rw (resize_up n bs h) (
    omega (
      arith,
      length-append bs (replicate (n - length bs) 0),
      length-replicate (n - length bs) zero,
    ))

resize_down : (bs rest : List ℕ) (n : ℕ) → n ≡ length bs → resize n (bs ++ rest) ≡ bs
resize_down bs rest n h =
    let e : n - length (bs ++ rest) ≡ 0 = omega (arith, length-append bs rest) in
    rw (e, h, take-length-append bs rest) (append-nil bs)

not_empty : (bs : List ℕ) → 0 < length bs → bs ≢ []
not_empty bs h e = omega (arith, ap length e)

module _ ⦃g : Gommap⦄ where
  -- Opening the file of the entries `es` lists them, in a map of MaxIndexBytes bytes.
  pub new_index_lem :
      (es : List (ℕ × ℕ)) (max : ℕ)
      → 0 < max
      → max < 2 ^ 63
      → 12 * length es ≤ max
      → (i : Index) × (new_index max (opened (encode es)) ≡ (ok i, i.file))
        × Lists i es
        × (length i.mmap ≡ max)
  unfolding new_index
  new_index_lem es max some_room small fits =
      let room : length (encode es) ≤ max = omega (arith, length-encode es) in
      let m : List ℕ = resize max (encode es) in
      let full : length m ≡ max = length-resize_up max (encode es) room in
      (
        record { file = opened m; mmap = m; size = length (encode es) },
        rw (lt→leb (2 ^ 63) max small) (rw (g.map_lem m (not_empty m (omega (arith, full))))),
        record {
          image = m;
          is_open = refl;
          rest = replicate (max - length (encode es)) 0;
          unused =
              ap (λ (n : ℕ). replicate n 0) (sym (length-replicate (max - length (encode es)) 0));
          mapped = resize_up max (encode es) room;
          sized = length-encode es;
          fits = omega (arith, full);
        },
        full,
      )

  close-opened :
      (image m : List ℕ) (size : ℕ)
      → size < 2 ^ 63
      → close (record { file = opened image; mmap = m; size = size }) ≡ (
        ok tt,
        record { file = record (opened (resize size m)) { closed = true }; mmap = m; size = size },
      )
  unfolding close
  close-opened image m size small = rw (g.sync_lem m) (rw (lt→leb (2 ^ 63) size small))

  -- Closing an index leaves exactly its entries in the file.
  pub index_close :
      {i : Index} {es : List (ℕ × ℕ)}
      → Lists i es
      → (i' : Index) × (close i ≡ (ok tt, i')) × (i'.file.bytes ≡ encode es)
  index_close {i} {es} h = (
    record {
      file = record (opened (resize i.size i.mmap)) { closed = true };
      mmap = i.mmap;
      size = i.size;
    },
    ap close (ap (λ f. record i { file = f }) h.is_open)
        ∙ close-opened h.image i.mmap i.size (omega (arith, h.sized, h.fits, length-mmap h)),
    ap (resize i.size) h.mapped
        ∙ resize_down (encode es) h.rest i.size (omega (arith, h.sized, length-encode es)),
  )
