-- ===== src/Policy/Engine/Evaluate/Caps.antt =====
-- The per-transaction cap bounds the sum of what a rule's actions move.
use signbox.Prelude.{
  ℕ, ◌+◌, ◌≤◌, ◌≡◌, refl, sym, ap, ◌∙◌, subst, ◌≢◌, inl, inr, true, Option, none, some, List, [],
  ◌∷◌, map, arith, if◌then◌else◌, Option-cases, All,
}
use signbox.Prelude.Text.{Text, text_eq, lookup}
use signbox.Prelude.Outcome.{ok, err, Outcome-cases}
use signbox.Asset.{AssetAmount}
use signbox.Policy.Types.{
  Member, HasUniqueIds, DecodedAction, DecodedTransaction, allow, PolicyRule, Policy,
  EvaluationContext,
}
use signbox.Policy.Engine.Limits.{Pending, RuleTotal}
use signbox.Policy.Engine.Limits.Totals.{
  units_at, add_units-units_at, add_units-cap, add_units-present, cap_text, Charges,
  apply_limits-Charges,
}
use signbox.Policy.Engine.Evaluate.{
  within_caps, no_actions_yet, evaluate_policy, precheck, decide_actions, refuse, caught,
}
use signbox.Policy.Engine.Evaluate.Loop.{
  Governs, first, later, Step, Loop, done, round, allow_actions-Loop, Loop-rule_ids, Loop-Governs,
}
use signbox.Policy.Engine.Evaluate.Sound.{decide_actions-allow}

module _ (ctx : EvaluationContext) where
  Governs-Member :
      {a : DecodedAction} {r : PolicyRule} {rules : List PolicyRule}
      → Governs ctx a r rules
      → Member r rules
  Governs-Member (first eff hit) = inl refl
  Governs-Member (later missed g) = inr (Governs-Member g)

  -- What an action moves, in minimal units.
  pub moved : DecodedAction → ℕ
  moved a = elim (ctx.dialect.asset_of a) [ ok x ↦ x.units | err _ ↦ 0 ]

  -- What counts against a cap, if there is one.
  pub charged : Option Text → DecodedAction → ℕ
  charged none a = 0
  charged (some text) a = moved a

  -- The sum over all actions that the rules with an id govern.
  pub spent : Text → List (Step ctx) → ℕ
  spent id [] = 0
  spent id ((a, r) ∷ steps) =
      (if text_eq r.id id then charged (cap_text r.limits) a else 0) + spent id steps

  Charges-units_at :
      (id j : Text) (a : DecodedAction) (text : Option Text)
      (before after : List (Text × RuleTotal))
      → Charges ctx id a text before after
      → units_at j after ≡ units_at j before + (if text_eq id j then charged text a else 0)
  unfolding charged moved
  Charges-units_at id j a none before after h = ground arith
  Charges-units_at id j a (some text) before after h =
      ground (arith, h.asset_read, h.added, add_units-units_at id j h.cap h.asset.units before)

  Loop-units_at :
      (j : Text) {rules : List PolicyRule} {p q : Pending} {steps : List (Step ctx)}
      → Loop ctx rules p steps q
      → units_at j q.totals ≡ units_at j p.totals + spent j steps
  unfolding spent
  Loop-units_at j done = omega arith
  Loop-units_at j (round {p} {p'} {q} {a} {r} {steps} g limited loop) = omega (
    arith,
    Charges-units_at r.id j a (cap_text r.limits) p.totals p'.totals
        (apply_limits-Charges ctx r.id a r p p' r.limits refl limited),
    Loop-units_at j loop,
  )

  -- The cap of a total is the one that some rule of the list with that id states.
  record HasCap (rules : List PolicyRule) (id : Text) (cap : AssetAmount) : Type 0 where
    pub rule : PolicyRule
    pub text : Text
    pub listed : Member rule rules
    pub same_id : rule.id ≡ id
    pub stated : cap_text rule.limits ≡ some text
    pub read : ctx.dialect.parse_asset_limit text ≡ ok cap

  abbrev IsBacked : List PolicyRule → List (Text × RuleTotal) → Type 0
  IsBacked rules totals =
      (id : Text) (e : RuleTotal) → lookup id totals ≡ some e → HasCap rules id e.cap

  Charges-IsBacked :
      (rules : List PolicyRule) (r : PolicyRule) (a : DecodedAction) (text : Option Text)
      (before after : List (Text × RuleTotal))
      → Member r rules
      → cap_text r.limits ≡ text
      → Charges ctx r.id a text before after
      → IsBacked rules before
      → IsBacked rules after
  Charges-IsBacked rules r a none before after m c h backed = subst (IsBacked rules) (sym h) backed
  Charges-IsBacked rules r a (some text) before after m c h backed = λ id e found.
      elim (add_units-cap r.id id h.cap h.asset.units before e (rw h.added at found)) [
        | inl (e', found', same) ↦ rw (sym same) (backed id e' found')
        | inr (same_id, same_cap) ↦ record {
          rule = r;
          text = text;
          listed = m;
          same_id = same_id;
          stated = c;
          read = rw (← same_cap) h.cap_read;
        }
      ]

  Loop-IsBacked :
      {rules : List PolicyRule} {p q : Pending} {steps : List (Step ctx)}
      → Loop ctx rules p steps q
      → IsBacked rules p.totals
      → IsBacked rules q.totals
  Loop-IsBacked done backed = backed
  Loop-IsBacked {rules} (round {p} {p'} {q} {a} {r} {steps} g limited loop) backed =
      Loop-IsBacked loop (
        Charges-IsBacked rules r a (cap_text r.limits) p.totals p'.totals (Governs-Member g) refl
          (apply_limits-Charges ctx r.id a r p p' r.limits refl limited) backed)

  Charges-present :
      (id j : Text) (a : DecodedAction) (text : Option Text)
      (before after : List (Text × RuleTotal))
      → Charges ctx id a text before after
      → lookup j before ≢ none
      → lookup j after ≢ none
  Charges-present id j a none before after h old = rw h old
  Charges-present id j a (some text) before after h old =
      rw h.added (add_units-present id j h.cap h.asset.units before (inr old))

  Charges-opened :
      (id : Text) (a : DecodedAction) (text : Option Text) (before after : List (Text × RuleTotal))
      → Charges ctx id a text before after
      → text ≢ none
      → lookup id after ≢ none
  Charges-opened id a none before after h c = absurd (c refl)
  Charges-opened id a (some text) before after h c =
      rw h.added (add_units-present id id h.cap h.asset.units before (inl refl))

  Loop-present :
      {rules : List PolicyRule} {p q : Pending} {steps : List (Step ctx)}
      → Loop ctx rules p steps q
      → (j : Text) → lookup j p.totals ≢ none
      → lookup j q.totals ≢ none
  Loop-present done j old = old
  Loop-present (round {p} {p'} {q} {a} {r} {steps} g limited loop) j old = Loop-present loop j (
      Charges-present r.id j a (cap_text r.limits) p.totals p'.totals
        (apply_limits-Charges ctx r.id a r p p' r.limits refl limited) old)

  -- Every rule with a cap that governs an action has a total at the end.
  Loop-opened :
      {rules : List PolicyRule} {p q : Pending} {steps : List (Step ctx)}
      → Loop ctx rules p steps q
      → All (λ s. cap_text s.1.limits ≢ none → lookup s.1.id q.totals ≢ none) steps
  Loop-opened done = tt
  Loop-opened (round {p} {p'} {q} {a} {r} {steps} g limited loop) = (
    λ c. Loop-present loop r.id (
        Charges-opened r.id a (cap_text r.limits) p.totals p'.totals
          (apply_limits-Charges ctx r.id a r p p' r.limits refl limited) c),
    Loop-opened loop,
  )

  within_caps-le :
      (totals : List (Text × RuleTotal)) (id : Text) (e : RuleTotal)
      → within_caps totals ≡ true
      → lookup id totals ≡ some e
      → e.units ≤ e.cap.units
  unfolding within_caps lookup
  within_caps-le [] id e h found = absurd (cc)
  within_caps-le ((j, total) ∷ totals) id e h found = ground (arith, within_caps-le totals id e)

  -- A rule's cap holds for the sum of what its actions move.
  pub record IsCapped (steps : List (Step ctx)) (rule : PolicyRule) (text : Text) : Type 0 where
    pub cap : AssetAmount
    pub read : ctx.dialect.parse_asset_limit text ≡ ok cap
    pub bounded : spent rule.id steps ≤ cap.units

  total-IsCapped :
      (rules : List PolicyRule) (q : Pending) (steps : List (Step ctx)) (rule : PolicyRule)
      (text : Text)
      → HasUniqueIds rules
      → Loop ctx rules no_actions_yet steps q
      → within_caps q.totals ≡ true
      → Member rule rules
      → cap_text rule.limits ≡ some text
      → lookup rule.id q.totals ≢ none
      → IsCapped steps rule text
  unfolding units_at lookup
  total-IsCapped rules q steps rule text unique loop fits m c opened =
      elim (Option-cases (lookup rule.id q.totals)) [
        | inl missing ↦ absurd (opened missing)
        | inr (e, found) ↦
            let backed =
              Loop-IsBacked loop (λ id x none_yet. absurd (unfold lookup in cc)) rule.id e found in
            let same = unique backed.rule rule backed.listed m backed.same_id in
            let text_eq' : some backed.text ≡ some text =
              sym backed.stated ∙ (ap (λ (r : PolicyRule). cap_text r.limits) same) ∙ c in
            record {
              cap = e.cap;
              read = ground (arith, backed.read);
              bounded =
                  ground (
                    arith,
                    Loop-units_at rule.id loop,
                    within_caps-le q.totals rule.id e fits found,
                  );
            }
      ]

  All-IsCapped :
      (rules : List PolicyRule) (q : Pending) (all part : List (Step ctx))
      → HasUniqueIds rules
      → Loop ctx rules no_actions_yet all q
      → within_caps q.totals ≡ true
      → All (λ s. Governs ctx s.0 s.1 rules) part
      → All (λ s. cap_text s.1.limits ≢ none → lookup s.1.id q.totals ≢ none) part
      → All (λ s. (text : Text) → cap_text s.1.limits ≡ some text → IsCapped all s.1 text) part
  All-IsCapped rules q all [] unique loop fits g o = tt
  All-IsCapped rules q all ((a, r) ∷ part) unique loop fits (g, gs) (o, os) = (
    λ text c. total-IsCapped rules q all r text unique loop fits (Governs-Member g) c (o (λ n. cc)),
    All-IsCapped rules q all part unique loop fits gs os,
  )

  -- The rules that govern the actions of an allowed transaction, with their caps.
  pub record IsWithinCaps (tx : DecodedTransaction) (policy : Policy) (ids : List Text)
      : Type 0 where
    pub steps : List (Step ctx)
    pub steps_actions : map (λ s. s.0) steps ≡ tx.actions
    pub steps_ids : map (λ (s : Step ctx). s.1.id) steps ≡ ids
    pub governed : All (λ s. Governs ctx s.0 s.1 policy.rules) steps
    pub capped :
        All (λ s. (text : Text) → cap_text s.1.limits ≡ some text → IsCapped steps s.1 text) steps

-- Under a policy whose rule ids are distinct, an allowed transaction keeps every per-transaction cap:
-- the caps of the governing rules parse, and the sum of the units that all actions governed by
-- one rule move is at most that rule's cap.
pub evaluate_policy-IsWithinCaps :
    (ctx : EvaluationContext) (tx : DecodedTransaction) (policy : Policy) (ids : List Text) (v : ℕ)
    → HasUniqueIds policy.rules
    → (evaluate_policy tx policy ctx).decision ≡ allow ids v
    → IsWithinCaps ctx tx policy ids
unfolding evaluate_policy refuse caught
evaluate_policy-IsWithinCaps ctx tx policy ids v unique h =
    elim (Option-cases (precheck tx policy ctx)) [
      | inr (code, checked) ↦ absurd (ground arith)
      | inl passed ↦ elim (Outcome-cases (decide_actions tx policy ctx)) [
        | inl (t, failed) ↦ absurd (ground arith)
        | inr (r, decided) ↦
            let (undenied, few, p, looped, fits, ids_eq, v_eq, demands) =
              decide_actions-allow ctx tx policy r ids v decided (ground arith) in
            let (steps, steps_eq, loop) =
              allow_actions-Loop ctx policy.rules no_actions_yet p tx.actions looped in
            record {
              steps = steps;
              steps_actions = steps_eq;
              steps_ids = sym (Loop-rule_ids ctx loop) ∙ ids_eq;
              governed = Loop-Governs ctx loop;
              capped =
                  All-IsCapped ctx policy.rules p steps steps unique loop fits
                    (Loop-Governs ctx loop) (Loop-opened ctx loop);
            }
      ]
    ]
