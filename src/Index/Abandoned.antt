-- ===== src/Index/Abandoned.antt =====
-- An index that was not closed: its file keeps the width of the map, and what newIndex makes of it.
use dislog.Prelude.{
  ℕ, zero, ◌+◌, ◌-◌, ◌*◌, ◌/◌, ◌^◌, ◌≤◌, ◌<◌, List, [], ◌++◌, true, ◌≡◌, ◌≢◌, refl, sym, ap, ◌∙◌,
  arith, ok, length, replicate, length-append, length-replicate, replicate-append, take_all,
  append-nil, append_assoc, lt→leb, lt→ltb, le→ltb, ne→==, add64,
}
use dislog.Prelude.Bytes.{put_uint}
use dislog.Store.{opened}
use dislog.Index.{
  Index, Gommap, new_index, read, is_maxed, minus_one, entry_number, ent_width, resize,
}
use dislog.Index.Entries.{encode, entry, Lists, length-encode, length-mmap}
use dislog.Index.Reading.{read_entry_lem}

entry_zeros : entry (0, 0) ≡ replicate 12 0
unfolding put_uint
entry_zeros = refl

-- The index that newIndex makes of the file: it takes every byte of the map for an entry.
abbrev pub stretched : List ℕ → Index
stretched m = record { file = opened m; mmap = m; size = length m }

pub new_index_abandoned :
    ⦃g : Gommap⦄
    → (max : ℕ) (m : List ℕ) → length m ≡ max
    → 0 < max
    → max < 2 ^ 63
    → new_index max (opened m) ≡ (ok (stretched m), opened m)
unfolding new_index
new_index_abandoned ⦃g⦄ max m len some_room small =
    let none_left : max - length m ≡ 0 = omega (arith, len) in
    let same : resize max m ≡ m =
      ap (λ t. t ++ replicate (max - length m) 0) (take_all max m (omega (arith, len)))
      ∙ ap (λ (k : ℕ). m ++ replicate k 0) none_left
      ∙ append-nil m in
    let filled : m ≢ [] = λ e. omega (arith, ap length e, len, some_room) in
    rw (lt→leb (2 ^ 63) max small) (rw same (rw (g.map_lem m filled) refl))

pub stretched_maxed : (m : List ℕ) → length m < 2 ^ 63 → is_maxed (stretched m) ≡ true
unfolding is_maxed
stretched_maxed m small = lt→ltb (length m) (add64 (length m) ent_width) (omega (arith, small))

-- Where the last slot of the map is unused, newSegment reads the entry of number and position zero off
-- it.
pub stretched_read :
    {i : Index} {es : List (ℕ × ℕ)} (h : Lists i es)
    → 12 * length es + 12 ≤ length i.mmap / 12 * 12
    → length i.mmap < 2 ^ 34
    → read minus_one (stretched i.mmap) ≡ (ok (0, 0), stretched i.mmap)
unfolding read
stretched_read {i} {es} h room small =
    let m = i.mmap in
    let pos : ℕ = length m / 12 * 12 - 12 in
    let gap : ℕ = pos - 12 * length es in
    let back : ℕ = length m - pos - 12 in
    let whole = length-mmap h in
    let count : length h.rest ≡ gap + (12 + back) = omega (arith, whole, room) in
    let split : h.rest ≡ replicate gap 0 ++ (entry (0, 0) ++ replicate back 0) =
      h.unused
      ∙ ap (λ (k : ℕ). replicate k 0) count
      ∙ replicate-append gap (12 + back) 0
      ∙ ap (λ t. replicate gap 0 ++ t)
          (replicate-append 12 back 0 ∙ ap (λ t. t ++ replicate back 0) (sym entry_zeros)) in
    let stands : m ≡ (encode es ++ replicate gap 0) ++ (entry (0, 0) ++ replicate back 0) =
      h.mapped
      ∙ ap (λ t. encode es ++ t) split
      ∙ sym (append_assoc (encode es) (replicate gap 0) (entry (0, 0) ++ replicate back 0)) in
    let from : entry_number minus_one (stretched m) * ent_width ≡ pos =
      omega (arith, room, small) in
    let front = length-append (encode es) (replicate gap 0) in
    let width = length-replicate gap zero in
    rw (ne→== (length m) 0 (λ e. omega (arith, e, room))) (
      rw from (
        rw (le→ltb (length m) (add64 pos ent_width) (omega (arith, room, small))) (
          read_entry_lem (encode es ++ replicate gap 0) (replicate back 0) 0 0 pos (stretched m)
            stands (omega (arith, front, width, length-encode es, room)) (omega arith)
            (omega arith))))
