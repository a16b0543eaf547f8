-- ===== src/Hooks/Collect/Window.antt =====
-- About the loops that collect replies (capsules/capsule-hook-bridge/src/lib.rs).
use unicity_aos.Base.{
  ℕ, zero, suc, ◌+◌, ◌≤◌, ◌<◌, ◌≡◌, ◌≢◌, refl, ap, subst, Bool, false, Option, none, some, List, [],
  ◌∷◌, ◌++◌, codes, arith, leb, Bool-cases, inl, inr, if◌then◌else◌, if-cases, ◌==◌, ==_iff,
}
use unicity_aos.Base.Text.{Text, byte_len, utf8_width, is_empty, trim}
use unicity_aos.Base.Result.{Result, ok, err}
use unicity_aos.Hooks.Bus.{SysError, Received, Host}
use unicity_aos.Hooks.Collect.{
  as_elapsed, is_timeout, add_all, after_recv, collect, is_nil, Contexts, grown, push_context, join,
  join_collected, max_host_context_bytes, add_context, additional_context, push_non_blank,
  collect_additional_context, no_contexts, host_hook_collect_deadline_ms,
}

module _ {Value S : Type 0} (host : Host Value) (deadline : ℕ) (none_yet : S → Bool)
    (add : S → Text → S) where
  add_all_lem :
      (P : S → Type 0)
      → ((s : S) (m : Text) → P s → P (add s m))
      → (s : S) (ms : List Text) → P s
      → P (add_all host deadline none_yet add s ms)
  unfolding add_all
  add_all_lem P k s [] p = p
  add_all_lem P k s (m ∷ ms) p = add_all_lem P k (add s m) ms (k s m p)

  -- What the loop returns, where it returns a value.
  abbrev Holds : (S → Type 0) → Option (Result SysError S) → Type 0
  Holds P none = Unit
  Holds P (some (ok s)) = P s
  Holds P (some (err e)) = Unit

  after_recv-Holds :
      (P : S → Type 0)
      → ((s : S) (m : Text) → P s → P (add s m))
      → (more : S → Option (Result SysError S)) → (s : S) (r : Received) → P s
      → ((t : S) → P t → Holds P (more t))
      → Holds P (after_recv host deadline none_yet add s more r)
  unfolding after_recv
  after_recv-Holds P k more s (ok []) p later = p
  after_recv-Holds P k more s (ok (m ∷ ms)) p later = later _ (add_all_lem P k s (m ∷ ms) p)
  after_recv-Holds P k more s (err e) p later = if-cases (Holds P) (is_timeout e) (λ _. p) (λ _. tt)

  collect-Holds :
      (P : S → Type 0)
      → ((s : S) (m : Text) → P s → P (add s m))
      → (fuel i : ℕ) (s : S) → P s
      → Holds P (collect host deadline none_yet add fuel i s)
  unfolding collect
  collect-Holds P k zero i s p = tt
  collect-Holds P k (suc fuel) i s p =
      if-cases (Holds P) (leb deadline (as_elapsed deadline (host.elapsed_ms i))) (λ _. p)
        (λ _. after_recv-Holds P k _ s _ p (λ t q. collect-Holds P k fuel (suc i) t q))

  after_recv_ends :
      (more : S → Option (Result SysError S)) (s : S) (r : Received)
      → ((t : S) → more t ≢ none)
      → after_recv host deadline none_yet add s more r ≢ none
  unfolding after_recv
  after_recv_ends more s (ok []) later e = cc e
  after_recv_ends more s (ok (m ∷ ms)) later e = later _ e
  after_recv_ends more s (err x) later e = ground (arith, e)

  before :
      (n : ℕ)
      → deadline ≤ host.elapsed_ms n
      → (i : ℕ) → i ≤ n
      → leb deadline (as_elapsed deadline (host.elapsed_ms i)) ≡ false
      → i < n
  unfolding as_elapsed
  before n d i l q = elim (Bool-cases (i == n)) [
    | inl same ↦ let e = ap host.elapsed_ms ((==_iff i n).0 same) in absurd (ground (arith, q, e))
    | inr other ↦ ground (arith, other)
  ]

  -- Once the clock has reached the deadline, the loop has ended.
  pub collect_ends :
      (n : ℕ)
      → deadline ≤ host.elapsed_ms n
      → (fuel i : ℕ) (s : S) → i ≤ n
      → n < i + fuel
      → collect host deadline none_yet add fuel i s ≢ none
  unfolding collect
  collect_ends n d zero i s l m = absurd (omega arith)
  collect_ends n d (suc fuel) i s l m =
      if-cases (λ o. o ≢ none) (leb deadline (as_elapsed deadline (host.elapsed_ms i)))
        (λ _ e. cc e)
        (λ q. after_recv_ends _ s _ (λ t.
          let below = before n d i l q in
          collect_ends n d fuel (suc i) t (omega arith) (omega arith)))

-- The bytes of texts one after the other.
byte_len-append : (s t : Text) → byte_len (s ++ t) ≡ byte_len s + byte_len t
unfolding byte_len
byte_len-append [] t = omega arith
byte_len-append (c ∷ s) t = omega (arith, byte_len-append s t)

byte_len-join-append :
    (xs : List Text) (c : Text)
    → byte_len (join (xs ++ (c ∷ [])))
      ≡ byte_len (join xs) + (if is_nil xs then 0 else 2) + byte_len c
unfolding join byte_len utf8_width
byte_len-join-append [] c = omega arith
byte_len-join-append (x ∷ []) c =
    omega (arith, byte_len-append x (codes "\n\n" ++ c), byte_len-append (codes "\n\n") c)
byte_len-join-append (x ∷ y ∷ ys) c = omega (
  arith,
  byte_len-join-append (y ∷ ys) c,
  byte_len-append x (codes "\n\n" ++ join (y ∷ (ys ++ (c ∷ [])))),
  byte_len-append x (codes "\n\n" ++ join (y ∷ ys)),
)

-- The running total is the length of the joined contexts, within the limit.
record IsCounted (s : Contexts) : Type 0 where
  pub counted : s.total ≡ byte_len (join s.contexts)
  pub within : s.total ≤ max_host_context_bytes

push_context-IsCounted : (s : Contexts) (c : Text) → IsCounted s → IsCounted (push_context s c)
unfolding push_context
push_context-IsCounted s c h =
    if-cases IsCounted _ {x = s} {y = grown s c} (λ _. h)
      (λ q. record {
        counted = omega (arith, byte_len-join-append s.contexts c, h.counted);
        within = ground (arith, q);
      })

module _ {Value : Type 0} (host : Host Value) where
  add_context-IsCounted : (s : Contexts) (m : Text) → IsCounted s → IsCounted (add_context host s m)
  unfolding add_context
  add_context-IsCounted s m h = go (additional_context host (host.json.from_str m))
    where
      go : (o : Option Text) → IsCounted (push_non_blank host s o)
      go none = h
      go (some c) =
          if-cases IsCounted (is_empty (trim c)) (λ _. h) (λ _. push_context-IsCounted s c h)

  within_of :
      (o : Option (Result SysError Contexts)) (t : Text)
      → Holds host host_hook_collect_deadline_ms
          (λ s. is_nil s.contexts)
          (add_context host)
          IsCounted
          o
      → join_collected host o ≡ some (ok (some t))
      → byte_len t ≤ max_host_context_bytes
  within_of none t h e = absurd (cc e)
  within_of (some (err x)) t h e = absurd (cc e)
  within_of (some (ok s)) t h e = elim (Bool-cases (is_nil s.contexts)) [
    | inl q ↦ absurd (ground (arith, q, e))
    | inr q ↦
        let same : join s.contexts ≡ t = ground (arith, q, e) in
        subst (λ x. byte_len x ≤ max_host_context_bytes) same (omega (arith, h.counted, h.within))
  ]

  -- The context of a host's hook is at most 64 KiB of text, whatever the replies are.
  pub collect_additional_context-le :
      (fuel : ℕ) (t : Text)
      → collect_additional_context host fuel ≡ some (ok (some t))
      → byte_len t ≤ max_host_context_bytes
  unfolding collect_additional_context
  collect_additional_context-le fuel t e =
      within_of _ t
        (collect-Holds host host_hook_collect_deadline_ms (λ s. is_nil s.contexts)
          (add_context host) IsCounted (λ s m h. add_context-IsCounted s m h) fuel 0
          (no_contexts host)
          (record { counted = unfold join byte_len in refl; within = omega arith }))
        e
