-- ===== src/Grpc/Calls.antt =====
-- Calls of Produce and Consume, from the credentials of the peer to the log.
use dislog.Prelude.{
  ℕ, List, [], ◌∷◌, true, false, Option, none, some, String, ◌≡◌, refl, ◌⊎◌, inl, inr, ok, err,
  panic, permission_denied, unknown_peer, Exec, Bool-cases,
}
use dislog.Api.{Record}
use dislog.Grpc.{
  CommitLog, Enforcer, AuthInfo, no_auth, tls, other_auth, authenticate, intercepted, produce,
  consume,
}

-- Whom the transport names: the first name of the first verified chain, or the empty name for a peer
-- without credentials.
pub data Names : Option AuthInfo → String → Type 0 where
  anonymous : Names (some no_auth) ""
  certified :
      (name : String) (chain : List String) (chains : List (List String))
      → Names (some (tls ((name ∷ chain) ∷ chains))) name

-- Credentials without a name: a peer without a certificate in its chain, or credentials of another kind
pub data IsNameless : Option AuthInfo → Type 0 where
  no_chain : IsNameless (some (tls []))
  no_certificate : (chains : List (List String)) → IsNameless (some (tls ([] ∷ chains)))
  other_kind : IsNameless (some other_auth)

-- What `call` does for a peer, where `op` is the call of the log. The four cases exclude each other.
abbrev pub Gated :
    {S A : Type 0} → Enforcer → Option AuthInfo → String → Exec S A → Exec S A → S → Type 0
Gated enforce info action call op s =
    ((subject : String) × Names info subject
      × (((enforce subject "*" action ≡ true) × (call s ≡ op s))
          ⊎ ((enforce subject "*" action ≡ false)
              × (call s ≡ (err (permission_denied subject action "*"), s)))))
    ⊎ (((info ≡ none) × (call s ≡ (err unknown_peer, s)))
        ⊎ (IsNameless info × (call s ≡ (panic, s))))

module _ {S A : Type 0} (enforce : Enforcer) (action : String) (op : Exec S A) (s : S)
    (call : String → Exec S A)
    (allowed : (subject : String) → enforce subject "*" action ≡ true → call subject s ≡ op s)
    (denied : (subject : String)
      → enforce subject "*" action ≡ false
      → call subject s ≡ (err (permission_denied subject action "*"), s)) where
  named-Gated :
      (info : Option AuthInfo) (subject : String)
      → Names info subject
      → authenticate info ≡ ok subject
      → Gated enforce info action (intercepted info call) op s
  unfolding intercepted
  named-Gated info subject n e = elim (Bool-cases (enforce subject "*" action)) [
    | inl may ↦ inl (subject, n, inl (may, rw e (allowed subject may)))
    | inr may_not ↦ inl (subject, n, inr (may_not, rw e (denied subject may_not)))
  ]

  -- A call behind authenticate that asks the policy is gated.
  intercepted-Gated :
      (info : Option AuthInfo) → Gated enforce info action (intercepted info call) op s
  unfolding authenticate intercepted
  intercepted-Gated none = inr (inl (refl, refl))
  intercepted-Gated (some no_auth) = named-Gated (some no_auth) "" anonymous refl
  intercepted-Gated (some (tls [])) = inr (inr (no_chain, refl))
  intercepted-Gated (some (tls ([] ∷ chains))) = inr (inr (no_certificate chains, refl))
  intercepted-Gated (some (tls ((name ∷ chain) ∷ chains))) =
      named-Gated (some (tls ((name ∷ chain) ∷ chains))) name (certified name chain chains) refl
  intercepted-Gated (some other_auth) = inr (inr (other_kind, refl))

module _ {S : Type 0} (log : CommitLog S) (enforce : Enforcer) (info : Option AuthInfo)
    (s : S) where
  -- A Produce of a peer that the transport names does what Append of the log does, if the policy allows
  -- that name to produce on "*"; if not, it ends with PermissionDenied and leaves the log as it was. The
  -- same holds of Consume, with Read of the log and the right to consume. The name is the first of the
  -- first verified chain, and empty for a peer without credentials. When the transport knows no peer
  -- the call ends with an error, and when the credentials have no name with a panic; the log stays as it
  -- was.
  pub call_gate :
      (r : Record) (off : ℕ)
      → Gated enforce info "produce"
          (intercepted info (λ subject. produce log enforce subject r))
          (log.append r)
          s
        × Gated enforce info "consume"
            (intercepted info (λ subject. consume log enforce subject off))
            (log.read off)
            s
  unfolding produce consume
  call_gate r off = (
    intercepted-Gated enforce "produce" (log.append r) s (λ subject. produce log enforce subject r)
        (λ subject may. rw may refl) (λ subject may_not. rw may_not refl) info,
    intercepted-Gated enforce "consume" (log.read off) s
        (λ subject. consume log enforce subject off) (λ subject may. rw may refl)
        (λ subject may_not. rw may_not refl) info,
  )
