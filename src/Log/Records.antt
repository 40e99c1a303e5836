-- ===== src/Log/Records.antt =====
-- A list of records and the list of their encodings.
use dislog.Prelude.{ℕ, zero, suc, some, get_elem?, List, [], ◌∷◌, ◌++◌, ◌≡◌, refl, ap, length, ok}
use dislog.Api.{Record, Proto}
use dislog.Log.Chain.{Payloads}

module _ ⦃p : Proto⦄ where
  -- The bytes `bs` are those of the records `rs`, one by one.
  abbrev pub Encodes : List Record → Payloads → Type 0
  Encodes [] [] = Unit {0}
  Encodes [] (b ∷ bs) = ⊥
  Encodes (r ∷ rs) [] = ⊥
  Encodes (r ∷ rs) (b ∷ bs) = (p.marshal r ≡ ok b) × Encodes rs bs

  pub Encodes-length : (rs : List Record) (bs : Payloads) → Encodes rs bs → length rs ≡ length bs
  Encodes-length [] [] h = refl
  Encodes-length [] (b ∷ bs) h = absurd h
  Encodes-length (r ∷ rs) [] h = absurd h
  Encodes-length (r ∷ rs) (b ∷ bs) h = ap suc (Encodes-length rs bs h.1)

  pub Encodes-snoc :
      (rs : List Record) (bs : Payloads) (r : Record) (b : List ℕ)
      → Encodes rs bs
      → p.marshal r ≡ ok b
      → Encodes (rs ++ (r ∷ [])) (bs ++ (b ∷ []))
  Encodes-snoc [] [] r b h e = (e, tt)
  Encodes-snoc [] (x ∷ bs) r b h e = absurd h
  Encodes-snoc (x ∷ rs) [] r b h e = absurd h
  Encodes-snoc (x ∷ rs) (y ∷ bs) r b h e = (h.0, Encodes-snoc rs bs r b h.1 e)

  -- Where the bytes of a record stand.
  pub record Placed (r : Record) (i : ℕ) (bs : Payloads) : Type 0 where
    pub front : Payloads
    pub bytes : List ℕ
    pub back : Payloads
    pub whole : bs ≡ front ++ (bytes ∷ back)
    pub count : length front ≡ i
    pub encoded : p.marshal r ≡ ok bytes

  pub placed :
      (rs : List Record) (bs : Payloads) (i : ℕ) (r : Record)
      → Encodes rs bs
      → get_elem? rs i ≡ some r
      → Placed r i bs
  placed [] bs i r h e = cc
  placed (x ∷ rs) [] i r h e = absurd h
  placed (x ∷ rs) (b ∷ bs) zero r h e =
      let same : x ≡ r = cc in
      record {
        front = [];
        bytes = b;
        back = bs;
        whole = refl;
        count = refl;
        encoded = rw (← same) h.0;
      }
  placed (x ∷ rs) (b ∷ bs) (suc i) r h e =
      let q = placed rs bs i r h.1 e in
      record {
        front = b ∷ q.front;
        bytes = q.bytes;
        back = q.back;
        whole = ap (λ t. b ∷ t) q.whole;
        count = ap suc q.count;
        encoded = q.encoded;
      }
