-- ===== src/Broker/Topics/Segments.antt =====
-- About the gates on ids (crates/aos-mcp-broker/src/broker.rs and approval.rs).
use unicity_aos.Base.{
  ℕ, suc, ◌+◌, ◌≤◌, ◌≡◌, ◌≢◌, refl, sym, ap, ◌∙◌, true, [], ◌∷◌, ◌++◌, all, All, some, arith, ◌==◌,
  if◌then◌else◌, Bool-cases, inl, inr,
}
use unicity_aos.Base.Text.{Text, byte_len, is_empty_iff, append_cancel_left}
use unicity_aos.Broker.Topics.{
  max_id_len, id_char, id_topic, reply_topic, response_topic, response_prefix,
  approval_response_prefix,
}

-- The dots of a topic: one less than its segments.
pub dots : Text → ℕ
dots [] = 0
dots (c ∷ s) = if c == b'.' then suc (dots s) else dots s

-- Letters, digits, `_` and `-` only: no dot, no wildcard, no space and no control character.
abbrev pub IsClean : Text → Type 0
IsClean = All (λ c. id_char c ≡ true)

all-All : (s : Text) → all id_char s ≡ true → IsClean s
all-All [] h = tt
all-All (c ∷ s) h = (ground arith, all-All s (ground arith))

dots-append : (s t : Text) → dots (s ++ t) ≡ dots s + dots t
unfolding dots
dots-append [] t = omega arith
dots-append (c ∷ s) t = ground (arith, dots-append s t)

id_char_dot : (c : ℕ) → id_char c ≡ true → c ≢ b'.'
unfolding id_char
id_char_dot c h = ground arith

dots_of_clean : (s : Text) → IsClean s → dots s ≡ 0
unfolding dots
dots_of_clean [] h = refl
dots_of_clean (c ∷ s) (k, h) = ground (arith, id_char_dot c k, dots_of_clean s h)

id_topic-eq-some :
    (prefix id t : Text)
    → id_topic prefix id ≡ some t
    → (t ≡ prefix ++ id) × (id ≢ []) × (byte_len id ≤ max_id_len) × IsClean id
unfolding id_topic
id_topic-eq-some prefix id t h = elim (Bool-cases (all id_char id)) [
  | inl k ↦ (ground arith, ground (arith, is_empty_iff id), ground arith, all-All id k)
  | inr k ↦ absurd (ground arith)
]

-- A topic that the gate makes from an id has the dots of its prefix and no more, its id is clean, not
-- empty and within the cap of 128 bytes, and no other id makes that topic.
pub id_topic_lem :
    (prefix id other t : Text)
    → id_topic prefix id ≡ some t
    → (dots t ≡ dots prefix)
      × IsClean id
      × (id ≢ [])
      × (byte_len id ≤ max_id_len)
      × (id_topic prefix other ≡ some t → other ≡ id)
id_topic_lem prefix id other t h =
    let (e, some_char, cap, clean) = id_topic-eq-some prefix id t h in
    (
      ap dots e ∙ (dots-append prefix id ∙ omega (arith, dots_of_clean id clean)),
      clean,
      some_char,
      cap,
      λ k. append_cancel_left prefix other id (sym (id_topic-eq-some prefix other t k).0 ∙ e),
    )

prefix_dots : (dots response_prefix ≡ 3) × (dots approval_response_prefix ≡ 4)
unfolding dots
prefix_dots = (refl, refl)

-- No id makes a reply of the broker land on a topic on which the host waits for a decision.
pub reply_topic-ne-response_topic :
    (a b t : Text) → reply_topic a ≡ some t → response_topic b ≢ some t
unfolding reply_topic response_topic
reply_topic-ne-response_topic a b t h k = omega (
  arith,
  (id_topic_lem response_prefix a a t h).0,
  (id_topic_lem approval_response_prefix b b t k).0,
  prefix_dots,
)
