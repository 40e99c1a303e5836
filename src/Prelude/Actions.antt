-- ===== src/Prelude/Actions.antt =====
-- Go's methods that mutate their receiver and return an error, as actions: what was written before
-- an error stays written, so the state comes back beside the error too. A panic is no error value:
-- no `if err != nil` sees it.
use Prim.Native.Nat.{ℕ}
use Prim.Native.String.{String}
use mathlib.Core.Bool.{true, false}
use mathlib.Core.Option.{none, some}
use mathlib.Core.Path.{◌≡◌, refl, ap}

pub data Error : Type 0 where
  -- io.EOF and io.ErrUnexpectedEOF
  eof unexpected_eof : Error
  -- a system call that the operating system refuses
  refused : Error
  -- a message that protobuf cannot encode or decode
  malformed : Error
  -- api.ErrOffsetOutOfRange
  offset_out_of_range : ℕ → Error
  -- status.New(codes.PermissionDenied, …) with the subject, the action and the object of its message
  permission_denied : String → String → String → Error
  -- status.New(codes.Unknown, "couldn't find peer info")
  unknown_peer : Error
  -- ErrOffsetNotFound of internal/server/log.go
  offset_not_found : Error
  -- balancer.ErrNoSubConnAvailable
  no_sub_conn : Error
  -- raft.ErrNotLeader, and any other failure of a call of a library or a peer
  not_leader unavailable : Error

pub data Result {ℓ} (A : Type ℓ) : Type ℓ where
  ok : A → Result A
  err : Error → Result A
  panic : Result A

pub err-ne-ok {ℓ} : {A : Type ℓ} {e : Error} {a : A} → err e ≡ ok a → ⊥
err-ne-ok h = cc

pub panic-ne-ok {ℓ} : {A : Type ℓ} {a : A} → panic ≡ ok a → ⊥
panic-ne-ok h = cc

pub none-ne-some {ℓ} : {A : Type ℓ} {x : A} → none ≡ some x → ⊥
none-ne-some h = cc

pub false-ne-true : false ≡ true → ⊥
false-ne-true h = cc

abbrev pub Exec : Type 0 → Type 0 → Type 0
Exec S A = S → Result A × S

module _ {S A : Type 0} where
  abbrev pub pure : A → Exec S A
  pure a s = (ok a, s)

  abbrev pub fail : Error → Exec S A
  fail e s = (err e, s)

  abbrev pub lift : Result A → Exec S A
  lift r s = (r, s)

  abbrev pub gets : (S → A) → Exec S A
  gets f s = (ok (f s), s)

abbrev pub modify : {S : Type 0} → (S → S) → Exec S (Unit {0})
modify f s = (ok tt, f s)

module _ {S A B : Type 0} where
  abbrev pub continue : Result A × S → (A → Exec S B) → Result B × S
  continue (ok a, s) f = f a s
  continue (err e, s) f = (err e, s)
  continue (panic, s) f = (panic, s)

  infixl 5 ◌>>=◌
  abbrev pub ◌>>=◌ : Exec S A → (A → Exec S B) → Exec S B
  ◌>>=◌ m f s = continue (m s) f

infixl 5 ◌>>◌
abbrev pub ◌>>◌ : {S B : Type 0} → Exec S (Unit {0}) → Exec S B → Exec S B
m >> n = m >>= λ _. n

-- An action on a part of the state.
abbrev pub put_part : {S T A : Type 0} → (S → T → T) → T → Result A × S → Result A × T
put_part set t (r, s) = (r, set s t)

abbrev pub within : {S T A : Type 0} → (T → S) → (S → T → T) → Exec S A → Exec T A
within get set m t = put_part set t (m (get t))

-- How a run ended.
pub data Run {S A : Type 0} (x : Result A × S) : Type 0 where
  done : (a : A) (s : S) → x ≡ (ok a, s) → Run x
  failed : (e : Error) (s : S) → x ≡ (err e, s) → Run x
  panicked : (s : S) → x ≡ (panic, s) → Run x

pub Run-cases : {S A : Type 0} (x : Result A × S) → Run x
Run-cases (ok a, s) = done a s refl
Run-cases (err e, s) = failed e s refl
Run-cases (panic, s) = panicked s refl

-- What ran before the end of a sequence that succeeded.
module _ {S B : Type 0} where
  pub then-ok :
      (m : Exec S (Unit {0})) (n : Exec S B) (s s' : S) (b : B)
      → (m >> n) s ≡ (ok b, s')
      → (t : S) × (m s ≡ (ok tt, t)) × (n t ≡ (ok b, s'))
  then-ok m n s s' b h = go (m s) h
    where
      go :
          (x : Result (Unit {0}) × S)
          → continue x (λ _. n) ≡ (ok b, s')
          → (t : S) × (x ≡ (ok tt, t)) × (n t ≡ (ok b, s'))
      go (ok tt, t) h = (t, refl, h)
      go (err e, t) h = absurd (err-ne-ok (ap (λ y. y.0) h))
      go (panic, t) h = absurd (panic-ne-ok (ap (λ y. y.0) h))
