-- ===== src/Hooks/Merge/Laws.antt =====
-- About the merge of responses (capsules/capsule-hook-bridge/src/lib.rs).
use unicity_aos.Base.{
  ◌≡◌, ◌≢◌, ◌↔◌, ◌⊎◌, subst, if◌then◌else◌, inl, inr, refl, sym, ap, ◌∙◌, Bool, true, false, Option,
  none, some, List, [], ◌∷◌, ◌++◌, codes, arith, All, Bool-cases, Option-cases,
}
use unicity_aos.Base.Text.{Text}
use unicity_aos.Base.Json.{Json, Shape}
use unicity_aos.Hooks.Mapping.{MergeSemantics}
use unicity_aos.Hooks.Merge.{
  is_true, is_non_null, HookResult, skips, value_at, or_last, last_value, any_skip, apply_merge,
}

module _ {Value : Type 0} (json : Json Value) where
  -- The member `skip` of the response is true.
  abbrev pub Skips : Value → Type 0
  Skips r = (v : Value) × (json.get r (codes "skip") ≡ some v) × (json.shape v ≡ Shape.bool true)

  -- The response has the value in the field, and it is not null.
  abbrev pub HasValue : Text → Value → Value → Type 0
  HasValue field r v = (json.get r field ≡ some v) × (json.shape v ≢ Shape.null)

  abbrev pub Lacks : Text → Value → Type 0
  Lacks field r = (v : Value) → ¬ HasValue field r v

  -- A response that asks to skip.
  abbrev pub AsksToSkip : List Value → Type 0
  AsksToSkip responses =
      (before : List Value) × (resp : Value) × (after : List Value) × (responses
        ≡ before ++ (resp ∷ after))
      × Skips resp

  -- The last response that has a value in the field, or none has one.
  abbrev pub IsLast : Text → List Value → Option Value → Type 0
  IsLast field responses none = All (Lacks field) responses
  IsLast field responses (some v) =
      (before : List Value) × (resp : Value) × (after : List Value) × (responses
        ≡ before ++ (resp ∷ after))
      × HasValue field resp v
      × All (Lacks field) after

  true_shape : (shape : Shape) → is_true shape ≡ true → shape ≡ Shape.bool true
  true_shape (Shape.bool true) e = refl
  true_shape (Shape.bool false) e = absurd (cc e)
  true_shape (Shape.number s) e = absurd (cc e)
  true_shape (Shape.string s) e = absurd (cc e)
  true_shape Shape.null e = absurd (cc e)
  true_shape Shape.array e = absurd (cc e)
  true_shape Shape.object e = absurd (cc e)

  skips-Skips : (r : Value) → skips json r ≡ true → Skips r
  skips-Skips r e = elim (Option-cases (json.get r (codes "skip"))) [
    | inl q ↦ absurd (ground (arith, q, e))
    | inr (v, q) ↦ (v, q, true_shape (json.shape v) (ground (arith, q, e)))
  ]

  Skips-skips : (r : Value) → Skips r → skips json r ≡ true
  Skips-skips r (v, q, t) = rw (q, t) refl

  non_null_shape : (shape : Shape) → is_non_null shape ≡ true → shape ≢ Shape.null
  non_null_shape shape e q = cc (ap (λ s. is_non_null s) q, e)

  shape_non_null : (shape : Shape) → is_non_null shape ≡ false → shape ≡ Shape.null
  shape_non_null Shape.null e = refl
  shape_non_null Shape.array e = absurd (cc e)
  shape_non_null Shape.object e = absurd (cc e)
  shape_non_null (Shape.bool b) e = absurd (cc e)
  shape_non_null (Shape.number s) e = absurd (cc e)
  shape_non_null (Shape.string s) e = absurd (cc e)

  value_at-HasValue :
      (field : Text) (r v : Value) → value_at json field r ≡ some v → HasValue field r v
  value_at-HasValue field r v e = elim (Option-cases (json.get r field)) [
    | inl q ↦ absurd (ground (arith, q, e))
    | inr (w, q) ↦ elim (Bool-cases (is_non_null (json.shape w))) [
      | inr n ↦ absurd (ground (arith, q, n, e))
      | inl n ↦
          let same : w ≡ v = ground (arith, q, n, e) in
          (q ∙ ap some same, subst (λ x. json.shape x ≢ Shape.null) same (non_null_shape _ n))
    ]
  ]

  value_at-Lacks : (field : Text) (r : Value) → value_at json field r ≡ none → Lacks field r
  value_at-Lacks field r e v (q, n) = elim (Bool-cases (is_non_null (json.shape v))) [
    | inr z ↦ n (shape_non_null (json.shape v) z)
    | inl z ↦ ground (arith, q, z, e)
  ]

  any_skip-true : (responses : List Value) → any_skip json responses true ≡ true
  unfolding any_skip
  any_skip-true [] = refl
  any_skip-true (r ∷ rs) = ground (arith, any_skip-true rs)

  any_skip_there :
      (responses : List Value) → any_skip json responses false ≡ true → AsksToSkip responses
  unfolding any_skip
  any_skip_there [] e = absurd (cc e)
  any_skip_there (r ∷ rs) e = elim (Bool-cases (skips json r)) [
    | inl q ↦ ([], r, rs, refl, skips-Skips r q)
    | inr q ↦
        let (before, resp, after, s, t) =
          any_skip_there rs
            (subst (λ b. any_skip json rs (if b then true else false) ≡ true) q e) in
        (r ∷ before, resp, after, ap (λ (xs : List Value). r ∷ xs) s, t)
  ]

  any_skip_back :
      (before : List Value) (resp : Value) (after : List Value) (skip : Bool)
      → skips json resp ≡ true
      → any_skip json (before ++ (resp ∷ after)) skip ≡ true
  unfolding any_skip
  any_skip_back [] resp after skip t = rw (any_skip, t) (any_skip-true after)
  any_skip_back (r ∷ before) resp after skip t = any_skip_back before resp after _ t

  last_value_kept :
      (field : Text) (responses : List Value) (last : Option Value)
      → All (λ r. value_at json field r ≡ none) responses
      → last_value json field responses last ≡ last
  unfolding last_value
  last_value_kept field [] last a = refl
  last_value_kept field (r ∷ rs) last (n, a) = rw n (last_value_kept field rs last a)

  IsLast-cons :
      (field : Text) (r : Value) (rs : List Value) (v : Value)
      → IsLast field rs (some v)
      → IsLast field (r ∷ rs) (some v)
  IsLast-cons field r rs v (before, resp, after, s, t, a) =
      (r ∷ before, resp, after, ap (λ (xs : List Value). r ∷ xs) s, t, a)

  last_value-cases :
      (field : Text) (rs : List Value) (last : Option Value)
      → ((last_value json field rs last ≡ last) × All (Lacks field) rs)
        ⊎ ((v : Value) × (last_value json field rs last ≡ some v) × IsLast field rs (some v))
  unfolding last_value
  last_value-cases field [] last = inl (refl, tt)
  last_value-cases field (r ∷ rs) last =
      elim (last_value-cases field rs (or_last json (value_at json field r) last)) [
        | inr (v, e, h) ↦ inr (v, e, IsLast-cons field r rs v h)
        | inl (e, a) ↦ elim (Option-cases (value_at json field r)) [
          | inl q ↦ inl (e ∙ ap (λ o. or_last json o last) q, (value_at-Lacks field r q, a))
          | inr (v, q) ↦ inr (
            v,
            e ∙ ap (λ o. or_last json o last) q,
            ([], r, rs, refl, value_at-HasValue field r v q, a),
          )
        ]
      ]

  last_value-IsLast :
      (field : Text) (rs : List Value) → IsLast field rs (last_value json field rs none)
  last_value-IsLast field rs = elim (last_value-cases field rs none) [
    | inl (e, a) ↦ subst (IsLast field rs) (sym e) a
    | inr (v, e, h) ↦ subst (IsLast field rs) (sym e) h
  ]

  -- What the merge of a hook promises, without its loops.
  abbrev pub IsMerged : MergeSemantics → List Value → HookResult Value → Type 0
  IsMerged MergeSemantics.discard rs result = (result.skip ≡ none) × (result.data_value ≡ none)
  IsMerged MergeSemantics.tool_call_before rs result =
      ((result.skip ≡ some true) ↔ AsksToSkip rs)
      × (result.skip ≢ some false)
      × IsLast (codes "modified_params") rs result.data_value
  IsMerged (MergeSemantics.last_non_null field) rs result =
      (result.skip ≡ none) × IsLast field rs result.data_value

  skip_iff :
      (rs : List Value)
      → ((if any_skip json rs false then some true else none) ≡ some true) ↔ AsksToSkip rs
  skip_iff rs = (there, back)
    where
      there : (if any_skip json rs false then some true else none) ≡ some true → AsksToSkip rs
      there e = any_skip_there rs (ground (arith, e))

      back : AsksToSkip rs → (if any_skip json rs false then some true else none) ≡ some true
      back (before, resp, after, s, t) =
          rw (s, any_skip_back before resp after false (Skips-skips resp t)) refl

  -- A before_tool_call hook skips exactly if some response has skip true, and carries the last
  -- modified_params that is not null; the hooks that change a value carry the last one in their
  -- field that is not null; any other hook carries nothing.
  pub apply_merge-IsMerged :
      (merge : MergeSemantics) (rs : List Value) → IsMerged merge rs (apply_merge json merge rs)
  unfolding apply_merge
  apply_merge-IsMerged MergeSemantics.discard rs = (refl, refl)
  apply_merge-IsMerged MergeSemantics.tool_call_before rs =
      (skip_iff rs, ground arith, last_value-IsLast (codes "modified_params") rs)
  apply_merge-IsMerged (MergeSemantics.last_non_null field) rs = (refl, last_value-IsLast field rs)
