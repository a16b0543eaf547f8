-- ===== src/Broker/Dispatch/Signals.antt =====
-- What a slice of a dispatched call shows, told without its loops: `poll_signal` and `match_result` of
-- crates/aos-mcp-broker/src/execute.rs.
use unicity_aos.Base.{
  ◌≡◌, ◌≢◌, ◌⊎◌, refl, ap, inl, inr, Bool, true, false, List, [], ◌∷◌, ◌++◌, Option, none, some,
  All, arith, codes, Bool-cases, Option-cases, subst, if◌then◌else◌,
}
use unicity_aos.Base.Text.{Text, text_eq_iff, is_empty, is_empty_iff}
use unicity_aos.Base.Json.{Json}
use unicity_aos.Broker.Messages.{ApprovalRequired, GrantRequired}
use unicity_aos.Broker.Dispatch.{
  Envelopes, DispatchOutcome, approval_required, grant_required, get_str, is_str, is_some_nonempty,
  has_tag, read_grant, read_approval, poll_batch, poll_signal,
}

pub is_str-some : (o : Option Text) (t : Text) → is_str o t ≡ true → o ≡ some t
is_str-some none t e = absurd (cc e)
is_str-some (some s) t e = ap some ((text_eq_iff s t).0 e)

pub some-is_str : (o : Option Text) (t : Text) → o ≡ some t → is_str o t ≡ true
some-is_str o t e = rw e ((text_eq_iff t t).1 refl)

module _ {Value : Type 0} (json : Json Value) (envelopes : Envelopes Value) where
  -- The value has the type, and an id that is not empty.
  abbrev HasTag : Text → Value → Type 0
  HasTag tag v =
      (get_str json v (codes "type") ≡ some tag)
      × ((id : Text) × (get_str json v (codes "request_id") ≡ some id) × (id ≢ []))

  -- The payload asks for a grant, or for an approval.
  abbrev pub IsGrant : Text → GrantRequired → Type 0
  IsGrant p g =
      (v : Value) × (json.from_str p ≡ some v)
      × HasTag (codes "grant_required") v
      × (envelopes.to_grant v ≡ some g)

  abbrev pub IsApproval : Text → ApprovalRequired → Type 0
  IsApproval p a =
      (v : Value) × (json.from_str p ≡ some v)
      × HasTag (codes "approval_required") v
      × (envelopes.to_approval v ≡ some a)

  abbrev pub NoGrant : Text → Type 0
  NoGrant p = (g : GrantRequired) → ¬ IsGrant p g

  abbrev pub NoApproval : Text → Type 0
  NoApproval p = (a : ApprovalRequired) → ¬ IsApproval p a

  -- The first payload that asks for a grant, or for an approval.
  abbrev pub FirstGrant : List Text → GrantRequired → Type 0
  FirstGrant ps g =
      (before : List Text) × (p : Text) × (after : List Text) × (ps ≡ before ++ (p ∷ after))
      × All NoGrant before
      × IsGrant p g

  abbrev pub FirstApproval : List Text → ApprovalRequired → Type 0
  FirstApproval ps a =
      (before : List Text) × (p : Text) × (after : List Text) × (ps ≡ before ++ (p ∷ after))
      × All NoApproval before
      × IsApproval p a

  -- What a batch of the approval topic shows: its first grant; where it has none, its first approval.
  pub data Signal (ps : List Text) (o : Option (DispatchOutcome Value)) : Type 0 where
    grants : (g : GrantRequired) → FirstGrant ps g → o ≡ some (grant_required g) → Signal ps o
    approves :
        All NoGrant ps
        → (a : ApprovalRequired) → FirstApproval ps a
        → o ≡ some (approval_required a)
        → Signal ps o
    no_signal : All NoGrant ps → All NoApproval ps → o ≡ none → Signal ps o

  nonempty-some :
      (o : Option Text) → is_some_nonempty o ≡ true → (id : Text) × (o ≡ some id) × (id ≢ [])
  nonempty-some none e = absurd (cc e)
  nonempty-some (some s) e = (s, refl, λ q. ground (arith, e, (is_empty_iff s).1 q))

  some-nonempty : (o : Option Text) (id : Text) → o ≡ some id → id ≢ [] → is_some_nonempty o ≡ true
  some-nonempty o id e n = rw e (go (Bool-cases (is_empty id)))
    where
      go : ((is_empty id ≡ true) ⊎ (is_empty id ≡ false)) → is_some_nonempty (some id) ≡ true
      go (inl q) = absurd (n ((is_empty_iff id).0 q))
      go (inr q) = rw q refl

  has_tag-HasTag : (tag : Text) (v : Value) → has_tag json envelopes tag v ≡ true → HasTag tag v
  unfolding has_tag
  has_tag-HasTag tag v h =
      (is_str-some _ tag (ground (arith, h)), nonempty-some _ (ground (arith, h)))

  HasTag-has_tag : (tag : Text) (v : Value) → HasTag tag v → has_tag json envelopes tag v ≡ true
  unfolding has_tag
  HasTag-has_tag tag v (t, (id, e, n)) = ground (arith, some-is_str _ tag t, some-nonempty _ id e n)

  if_some :
      {A : Type 0} (b : Bool) (o : Option A) (a : A)
      → (if b then o else none) ≡ some a
      → (b ≡ true) × (o ≡ some a)
  if_some true o a e = (refl, e)
  if_some false o a e = absurd (cc e)

  -- A payload that parses, by what is read of it.
  IsGrant-found :
      (p : Text) (v : Value) (g : GrantRequired)
      → json.from_str p ≡ some v
      → read_grant json envelopes v ≡ some g
      → IsGrant p g
  unfolding read_grant
  IsGrant-found p v g e r = let (t, q) = if_some _ _ g r in (v, e, has_tag-HasTag _ v t, q)

  IsApproval-found :
      (p : Text) (v : Value) (a : ApprovalRequired)
      → json.from_str p ≡ some v
      → read_approval json envelopes v ≡ some a
      → IsApproval p a
  unfolding read_approval
  IsApproval-found p v a e r = let (t, q) = if_some _ _ a r in (v, e, has_tag-HasTag _ v t, q)

  unparsed_grant : (p : Text) → json.from_str p ≡ none → NoGrant p
  unparsed_grant p e g (v, q, _, _) = cc (e, q)

  unparsed_approval : (p : Text) → json.from_str p ≡ none → NoApproval p
  unparsed_approval p e a (v, q, _, _) = cc (e, q)

  NoGrant-read :
      (p : Text) (v : Value)
      → json.from_str p ≡ some v
      → read_grant json envelopes v ≡ none
      → NoGrant p
  unfolding read_grant
  NoGrant-read p v e r g (w, q, t, to) =
      let same : w ≡ v = cc (e, q) in
      let tagged = HasTag-has_tag _ v (subst (HasTag (codes "grant_required")) same t) in
      let to' : envelopes.to_grant v ≡ some g =
        subst (λ x. envelopes.to_grant x ≡ some g) same to in
      ground (arith, r, tagged, to')

  NoApproval-read :
      (p : Text) (v : Value)
      → json.from_str p ≡ some v
      → read_approval json envelopes v ≡ none
      → NoApproval p
  unfolding read_approval
  NoApproval-read p v e r a (w, q, t, to) =
      let same : w ≡ v = cc (e, q) in
      let tagged = HasTag-has_tag _ v (subst (HasTag (codes "approval_required")) same t) in
      let to' : envelopes.to_approval v ≡ some a =
        subst (λ x. envelopes.to_approval x ≡ some a) same to in
      ground (arith, r, tagged, to')

  FirstGrant-cons :
      (p : Text) (ps : List Text) (g : GrantRequired)
      → NoGrant p
      → FirstGrant ps g
      → FirstGrant (p ∷ ps) g
  FirstGrant-cons p ps g n (before, q, after, e, a, i) =
      (p ∷ before, q, after, ap (◌∷◌ p) e, (n, a), i)

  Signal-cons :
      (p : Text) (ps : List Text) {o : Option (DispatchOutcome Value)}
      → NoGrant p
      → NoApproval p
      → Signal ps o
      → Signal (p ∷ ps) o
  Signal-cons p ps n m (grants g f e) = grants g (FirstGrant-cons p ps g n f) e
  Signal-cons p ps n m (approves ng a (before, q, after, s, b, i) e) =
      approves (n, ng) a (p ∷ before, q, after, ap (◌∷◌ p) s, (m, b), i) e
  Signal-cons p ps n m (no_signal ng na e) = no_signal (n, ng) (m, na) e

  -- From an approval on, only a grant changes the outcome.
  poll_batch_kept :
      (a : ApprovalRequired) (ps : List Text)
      → ((g : GrantRequired) × FirstGrant ps g
          × (poll_batch json envelopes (some a) ps ≡ some (grant_required g)))
        ⊎ (All NoGrant ps × (poll_batch json envelopes (some a) ps ≡ some (approval_required a)))
  unfolding poll_batch
  poll_batch_kept a [] = inr (tt, refl)
  poll_batch_kept a (p ∷ ps) = elim (Option-cases (json.from_str p)) [
    | inl e ↦ elim (poll_batch_kept a ps) [
      | inl (g, f, q) ↦ inl (g, FirstGrant-cons p ps g (unparsed_grant p e) f, rw (poll_batch, e) q)
      | inr (n, q) ↦ inr ((unparsed_grant p e, n), rw (poll_batch, e) q)
    ]
    | inr (v, e) ↦ elim (Option-cases (read_grant json envelopes v)) [
      | inr (g, r) ↦
          inl (g, ([], p, ps, refl, tt, IsGrant-found p v g e r), rw (poll_batch, e, r) refl)
      | inl r ↦ elim (poll_batch_kept a ps) [
        | inl (g, f, q) ↦
            inl (g, FirstGrant-cons p ps g (NoGrant-read p v e r) f, rw (poll_batch, e, r) q)
        | inr (n, q) ↦ inr ((NoGrant-read p v e r, n), rw (poll_batch, e, r) q)
      ]
    ]
  ]

  poll_batch-Signal : (ps : List Text) → Signal ps (poll_batch json envelopes none ps)
  unfolding poll_batch
  poll_batch-Signal [] = no_signal tt tt refl
  poll_batch-Signal (p ∷ ps) = elim (Option-cases (json.from_str p)) [
    | inl e ↦
        rw (poll_batch, e)
          (Signal-cons p ps (unparsed_grant p e) (unparsed_approval p e) (poll_batch-Signal ps))
    | inr (v, e) ↦ elim (Option-cases (read_grant json envelopes v)) [
      | inr (g, r) ↦
          rw (poll_batch, e, r) (grants g ([], p, ps, refl, tt, IsGrant-found p v g e r) refl)
      | inl r ↦ elim (Option-cases (read_approval json envelopes v)) [
        | inl s ↦
            rw (poll_batch, e, r, s)
              (Signal-cons p ps (NoGrant-read p v e r) (NoApproval-read p v e s)
                (poll_batch-Signal ps))
        | inr (a, s) ↦ elim (poll_batch_kept a ps) [
          | inl (g, f, q) ↦
              rw (poll_batch, e, r, s)
                (grants g (FirstGrant-cons p ps g (NoGrant-read p v e r) f) q)
          | inr (n, q) ↦
              rw (poll_batch, e, r, s)
                (approves (NoGrant-read p v e r, n) a
                  ([], p, ps, refl, tt, IsApproval-found p v a e s) q)
        ]
      ]
    ]
  ]

  -- What a poll of the approval topic shows. A poll that fails shows nothing.
  pub data Seen : Option (List Text) → Option (DispatchOutcome Value) → Type 0 where
    failed_poll : Seen none none
    polled : (ps : List Text) (o : Option (DispatchOutcome Value)) → Signal ps o → Seen (some ps) o

  pub poll_signal-Seen : (poll : Option (List Text)) → Seen poll (poll_signal json envelopes poll)
  unfolding poll_signal
  poll_signal-Seen none = failed_poll
  poll_signal-Seen (some ps) = polled ps _ (poll_batch-Signal ps)
