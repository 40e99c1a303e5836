-- ===== src/Balance/Picking.antt =====
-- The picker: what a build leaves, and how reads go round the followers.
use native.Mathlib.Nat.{mod-lt}
use dislog.Prelude.{
  ℕ, zero, suc, ◌+◌, ◌%◌, ◌^◌, ◌<◌, List, [], ◌∷◌, ◌++◌, Bool, true, false, Option, some, ◌≡◌, refl,
  arith, length, get_elem?, get_elem?-lt, is_empty, String, ok, append_assoc, append-nil, map,
  if◌then◌else◌,
}
use dislog.Balance.{Ready, Picker, build, collect, rebuilt, pick, picked, next_follower, contains}

-- A connection whose address has the attribute.
abbrev pub marked : ℕ × Bool → Ready
marked (conn, is_leader) = record { conn = conn; is_leader = some is_leader }

abbrev pub followers_of : List (ℕ × Bool) → List ℕ
followers_of [] = []
followers_of ((conn, is_leader) ∷ cs) =
    if is_leader then followers_of cs else conn ∷ followers_of cs

-- The last leader of a list, or the one that was known before.
abbrev pub last_leader : Option ℕ → List (ℕ × Bool) → Option ℕ
last_leader known [] = known
last_leader known ((conn, is_leader) ∷ cs) = last_leader (if is_leader then some conn else known) cs

collect-marked :
    (cs : List (ℕ × Bool)) (fs : List ℕ) (known : Option ℕ)
    → collect (map marked cs) fs known ≡ ok (last_leader known cs, fs ++ followers_of cs)
unfolding collect
collect-marked [] fs known = rw (append-nil fs)
collect-marked ((conn, true) ∷ cs) fs known = collect-marked cs fs (some conn)
collect-marked ((conn, false) ∷ cs) fs known =
    rw (collect-marked cs (fs ++ (conn ∷ [])) known, append_assoc fs (conn ∷ []) (followers_of cs))

-- A build over connections that all have the attribute takes the followers in the order they come,
-- and the last leader among them. Where none of them is a leader, the leader of the build before
-- stays, ready or not.
pub build-marked :
    (cs : List (ℕ × Bool)) (p : Picker)
    → build (map marked cs) p ≡ (
      ok tt,
      record { leader = last_leader p.leader cs; followers = followers_of cs; current = p.current },
    )
unfolding build rebuilt
build-marked cs p = rw (collect-marked cs [] p.leader)

-- The picker after `k` picks.
abbrev pub after : ℕ → String → Picker → Picker
after zero method p = p
after (suc k) method p = after k method (pick method p).1

module _ (method : String) (reads : contains method "Produce" ≡ false)
    (is_read : contains method "Consume" ≡ true) where
  pick_follower :
      (p : Picker)
      → 0 < length p.followers
      → p.current + 1 < 2 ^ 64
      → (f : ℕ) × (get_elem? p.followers ((p.current + 1) % length p.followers) ≡ some f)
        × (pick method p ≡ (ok f, record p { current = p.current + 1 }))
  unfolding pick picked next_follower
  pick_follower p some' small =
      let (f, e) =
        get_elem?-lt p.followers ((p.current + 1) % length p.followers)
          (mod-lt (p.current + 1) some') in
      let wrap : (p.current + 1) % 2 ^ 64 ≡ p.current + 1 = omega (arith, small) in
      let filled : is_empty p.followers ≡ false = not_empty p.followers some' in
      (f, e, rw (reads, is_read, filled, wrap, e))
    where
      not_empty : (fs : List ℕ) → 0 < length fs → is_empty fs ≡ false
      not_empty [] h = elim h [ ]
      not_empty (x ∷ fs) h = refl

  -- Reads go round the followers: as long as the counter does not wrap, the read after `k` others goes
  -- to the follower `current + k + 1`, counted round the list of followers.
  pub pick_round :
      (k : ℕ) (p : Picker)
      → 0 < length p.followers
      → p.current + k + 1 < 2 ^ 64
      → (f : ℕ) × (get_elem? p.followers ((p.current + k + 1) % length p.followers) ≡ some f)
        × (pick method (after k method p) ≡ (ok f, record p { current = p.current + k + 1 }))
  pick_round zero p some' small =
      let here : p.current + 0 + 1 ≡ p.current + 1 = omega arith in
      rw here (pick_follower p some' (omega (arith, small)))
  pick_round (suc k) p some' small =
      let (f, _, e) = pick_follower p some' (omega (arith, small)) in
      let next : p.current + 1 + k + 1 ≡ p.current + suc k + 1 = omega arith in
      let (f', e', e'') =
        pick_round k (record p { current = p.current + 1 }) some' (omega (arith, small)) in
      (f', rw (← next) e', rw (e, ← next) e'')
