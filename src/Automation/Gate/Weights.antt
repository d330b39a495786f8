-- ===== src/Automation/Gate/Weights.antt =====
-- The risk of a workflow is that of its most dangerous registered action.
use infra_inventory.Prelude.{
  ◌≤◌, ◌≡◌, refl, sym, ◌∙◌, Bool-cases, subst, ◌⊎◌, inl, inr, true, Option, none, some, List, [],
  ◌∷◌, arith, ltb,
}
use infra_inventory.Automation.Risk.{RiskLevel, ActionDefinition, Registry, get_action}
use infra_inventory.Automation.Worker.Effects.{Step}
use infra_inventory.Automation.Gate.{risk_weight, raise_risk, max_risk, is_high}

-- Some step's action is registered with the risk.
abbrev pub Occurs : Registry → RiskLevel → List Step → Type 0
Occurs registry risk [] = ⊥
Occurs registry risk (step ∷ steps) =
    ((def : ActionDefinition) × (get_action step.action_name registry ≡ some def)
      × (def.risk_level ≡ risk))
    ⊎ Occurs registry risk steps

raise_risk-le :
    (o : Option ActionDefinition) (risk : RiskLevel)
    → risk_weight risk ≤ risk_weight (raise_risk o risk)
unfolding raise_risk
raise_risk-le none risk = omega arith
raise_risk-le (some def) risk = ground arith

max_risk-grows :
    (registry : Registry) (steps : List Step) (risk : RiskLevel)
    → risk_weight risk ≤ risk_weight (max_risk registry steps risk)
unfolding max_risk
max_risk-grows registry [] risk = omega arith
max_risk-grows registry (step ∷ steps) risk = omega (
  arith,
  raise_risk-le (get_action step.action_name registry) risk,
  max_risk-grows registry steps (raise_risk (get_action step.action_name registry) risk),
)

raise_risk-def :
    (o : Option ActionDefinition) (def : ActionDefinition) (risk : RiskLevel)
    → o ≡ some def
    → risk_weight def.risk_level ≤ risk_weight (raise_risk o risk)
unfolding raise_risk
raise_risk-def o def risk h = ground arith

max_risk-bound :
    (registry : Registry) (steps : List Step) (risk least : RiskLevel)
    → Occurs registry risk steps
    → risk_weight risk ≤ risk_weight (max_risk registry steps least)
unfolding max_risk
max_risk-bound registry [] risk least h = absurd h
max_risk-bound registry (step ∷ steps) risk least (inl (def, found, e)) =
    subst (λ r. risk_weight r ≤ risk_weight (max_risk registry (step ∷ steps) least)) e
      (omega (
        arith,
        raise_risk-def (get_action step.action_name registry) def least found,
        max_risk-grows registry steps (raise_risk (get_action step.action_name registry) least),
      ))
max_risk-bound registry (step ∷ steps) risk least (inr h) =
    max_risk-bound registry steps risk (raise_risk (get_action step.action_name registry) least) h

raise_risk-attained :
    (o : Option ActionDefinition) (risk : RiskLevel)
    → (raise_risk o risk ≡ risk)
      ⊎ ((def : ActionDefinition) × (o ≡ some def) × (def.risk_level ≡ raise_risk o risk))
unfolding raise_risk
raise_risk-attained none risk = inl refl
raise_risk-attained (some def) risk =
    elim (Bool-cases (ltb (risk_weight risk) (risk_weight def.risk_level))) [
      | inl e ↦ inr (def, refl, ground arith)
      | inr e ↦ inl (ground arith)
    ]

max_risk-attained :
    (registry : Registry) (steps : List Step) (least : RiskLevel)
    → (max_risk registry steps least ≡ least)
      ⊎ Occurs registry (max_risk registry steps least) steps
unfolding max_risk
max_risk-attained registry [] least = inl refl
max_risk-attained registry (step ∷ steps) least =
    let o = get_action step.action_name registry in
    elim (max_risk-attained registry steps (raise_risk o least)) [
      | inr later ↦ inr (inr later)
      | inl same ↦ elim (raise_risk-attained o least) [
        | inl kept ↦ inl (same ∙ kept)
        | inr (def, found, e) ↦ inr (inl (def, found, e ∙ sym same))
      ]
    ]

-- The risk that the gate computes for a workflow is the greatest among its registered actions: it
-- bounds the risk of each, and it is READ_ONLY or the risk of one of them.
pub max_risk-greatest :
    (registry : Registry) (steps : List Step) (risk : RiskLevel)
    → Occurs registry risk steps
    → let top = max_risk registry steps RiskLevel.read_only in
      (risk_weight risk ≤ risk_weight top)
      × ((top ≡ RiskLevel.read_only) ⊎ Occurs registry top steps)
max_risk-greatest registry steps risk h = (
  max_risk-bound registry steps risk RiskLevel.read_only h,
  max_risk-attained registry steps RiskLevel.read_only,
)

is_high-weight : (risk : RiskLevel) → 4 ≤ risk_weight risk → is_high risk ≡ true
unfolding risk_weight is_high
is_high-weight risk h = ground arith

-- One high action makes the whole workflow high.
pub max_risk-high :
    (registry : Registry) (steps : List Step) (risk : RiskLevel)
    → Occurs registry risk steps
    → 4 ≤ risk_weight risk
    → is_high (max_risk registry steps RiskLevel.read_only) ≡ true
max_risk-high registry steps risk h k =
    is_high-weight (max_risk registry steps RiskLevel.read_only)
      (omega (arith, max_risk-bound registry steps risk RiskLevel.read_only h))
