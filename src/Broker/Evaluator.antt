-- ===== src/Broker/Evaluator.antt =====
-- packages/mcp-broker/src/_evaluator.ts: the policy kernel. `events` is the array that
-- `evaluatePolicyWithTrace` pushes to, threaded through its loops.
pub mod Decision
pub mod Order
pub mod Strictness
pub mod Trace
use agent_valet.Common.{
  ℕ, suc, Bool, true, false, not, ◌&&◌, Option, none, some, List, [], ◌∷◌, ◌++◌, Text, codes, ◌===◌,
  includes, truthy, if◌then◌else◌,
}

pub data TargetType : Type 0 where
  platform tag scope : TargetType

pub data Effect : Type 0 where
  allow deny : Effect

pub data Role : Type 0 where
  admin member : Role

pub data Enforcement : Type 0 where
  deny require_approval : Enforcement

pub record PolicyRule : Type 0 where
  pub effect : Effect
  pub target_type : TargetType
  pub target_value : Text

pub record ApprovalRule : Type 0 where
  pub target_type : TargetType
  pub target_value : Text

pub record PolicySnapshot : Type 0 where
  pub id : Text
  pub version : ℕ
  pub rules : List PolicyRule
  pub approval_rules : List ApprovalRule

pub record Guardrail : Type 0 where
  pub id : Text
  pub enforcement : Enforcement
  pub target_type : TargetType
  pub target_value : Text
  pub applies_to_role : Option Role

pub record Requested : Type 0 where
  pub platform_id : Text
  pub scope_id : Text

pub record EvaluationInput : Type 0 where
  pub policy : Option PolicySnapshot
  pub guardrails : List Guardrail
  pub caller_role : Role
  pub requested_scope_tags : List Text
  pub requested : Requested

pub data EvaluationResult : Type 0 where
  allow : Text → ℕ → EvaluationResult
  approval_required_by_guardrail : Text → EvaluationResult
  approval_required_by_policy : Text → ℕ → EvaluationResult
  no_policy_assigned : EvaluationResult
  denied_by_guardrail : Text → EvaluationResult
  denied_by_policy : Text → ℕ → EvaluationResult

pub record TraceTargetRef : Type 0 where
  pub target_type : TargetType
  pub target_value : Text

pub data DecisionTraceEvent : Type 0 where
  guardrail_skipped_role : Text → Role → DecisionTraceEvent
  guardrail_deny_matched : Text → TraceTargetRef → DecisionTraceEvent
  guardrail_approval_matched : Text → TraceTargetRef → DecisionTraceEvent
  no_policy_assigned : DecisionTraceEvent
  policy_allow_matched : Text → TraceTargetRef → DecisionTraceEvent
  policy_no_allow_matched : Text → ℕ → DecisionTraceEvent
  policy_deny_matched : Text → TraceTargetRef → DecisionTraceEvent
  policy_approval_matched : Text → TraceTargetRef → DecisionTraceEvent

pub record DecisionTrace : Type 0 where
  pub version : ℕ
  pub input : record {
    platform_id : Text;
    scope_id : Text;
    caller_role : Role;
    requested_scope_tags : List Text;
  }
  pub events : List DecisionTraceEvent

pub record TracedEvaluation : Type 0 where
  pub result : EvaluationResult
  pub trace : DecisionTrace

abbrev pub trace_version : ℕ
trace_version = 1

unfoldable pub target_matches : TargetType → Text → Requested → List Text → Bool
target_matches platform value req tags = value === req.platform_id
target_matches tag value req tags = includes tags value
target_matches scope value req tags = value === (req.platform_id ++ (codes ":" ++ req.scope_id))

abbrev pub same_role : Role → Role → Bool
same_role admin admin = true
same_role member member = true
same_role _ _ = false

-- `g.appliesToRole && g.appliesToRole !== callerRole`, with the role when it holds
abbrev pub skipped_role : Option Role → Role → Option Role
skipped_role none caller = none
skipped_role (some r) caller = if same_role r caller then none else some r

abbrev pub is_deny : Enforcement → Bool
is_deny deny = true
is_deny require_approval = false

abbrev pub is_allow : Effect → Bool
is_allow allow = true
is_allow deny = false

abbrev pub Events : Type 0
Events = List DecisionTraceEvent

module _ (input : EvaluationInput) where
  -- the calls of `targetMatches` in the loops
  abbrev pub matches : TargetType → Text → Bool
  matches type value = target_matches type value input.requested input.requested_scope_tags

  -- the first loop over the guardrails; with the guardrail that denies
  unfoldable pub deny_pass : List Guardrail → Events → Events × Option Guardrail
  deny_pass [] events = (events, none)
  deny_pass (g ∷ gs) events = elim (skipped_role g.applies_to_role input.caller_role) [
    | some role ↦ deny_pass gs (events ++ guardrail_skipped_role g.id role ∷ [])
    | none ↦ elim (matches g.target_type g.target_value && is_deny g.enforcement) [
      | false ↦ deny_pass gs events
      | true ↦ (
        events
            ++ guardrail_deny_matched g.id
                (record { target_type = g.target_type; target_value = g.target_value })
              ∷ [],
        some g,
      )
    ]
  ]

  -- the second loop over the guardrails; with `guardrailApprovalId`
  unfoldable pub approval_pass : List Guardrail → Events → Events × Option Text
  approval_pass [] events = (events, none)
  approval_pass (g ∷ gs) events = elim (skipped_role g.applies_to_role input.caller_role) [
    | some role ↦ approval_pass gs events
    | none ↦ elim (matches g.target_type g.target_value && not (is_deny g.enforcement)) [
      | false ↦ approval_pass gs events
      | true ↦ (
        events
            ++ guardrail_approval_matched g.id
                (record { target_type = g.target_type; target_value = g.target_value })
              ∷ [],
        some g.id,
      )
    ]
  ]

  -- the loop for `hasAllow`; with the flag and `allowRulesConsidered`
  unfoldable pub allow_pass : Text → List PolicyRule → ℕ → Events → Events × Bool × ℕ
  allow_pass id [] considered events = (events, false, considered)
  allow_pass id (r ∷ rs) considered events = elim (is_allow r.effect) [
    | false ↦ allow_pass id rs considered events
    | true ↦ elim (matches r.target_type r.target_value) [
      | false ↦ allow_pass id rs (suc considered) events
      | true ↦ (
        events
            ++ policy_allow_matched id
                (record { target_type = r.target_type; target_value = r.target_value })
              ∷ [],
        true,
        suc considered,
      )
    ]
  ]

  -- the loop over the rules with effect "deny"
  unfoldable pub rule_deny_pass : Text → List PolicyRule → Events → Events × Bool
  rule_deny_pass id [] events = (events, false)
  rule_deny_pass id (r ∷ rs) events = elim (is_allow r.effect) [
    | true ↦ rule_deny_pass id rs events
    | false ↦ elim (matches r.target_type r.target_value) [
      | false ↦ rule_deny_pass id rs events
      | true ↦ (
        events
            ++ policy_deny_matched id
                (record { target_type = r.target_type; target_value = r.target_value })
              ∷ [],
        true,
      )
    ]
  ]

  -- the loop for `policyApproval`
  unfoldable pub rule_approval_pass : Text → List ApprovalRule → Events → Events × Bool
  rule_approval_pass id [] events = (events, false)
  rule_approval_pass id (r ∷ rs) events = elim (matches r.target_type r.target_value) [
    | false ↦ rule_approval_pass id rs events
    | true ↦ (
      events
          ++ policy_approval_matched id
              (record { target_type = r.target_type; target_value = r.target_value })
            ∷ [],
      true,
    )
  ]

  abbrev pub finish : EvaluationResult → Events → TracedEvaluation
  finish result events = record {
    result = result;
    trace = record {
      version = trace_version;
      input = record {
        platform_id = input.requested.platform_id;
        scope_id = input.requested.scope_id;
        caller_role = input.caller_role;
        requested_scope_tags = input.requested_scope_tags;
      };
      events = events;
    };
  }

  -- step 6: `guardrailApprovalId` is a string in a test, so an empty id counts as none
  abbrev pub combine : Option Text → Bool → PolicySnapshot → EvaluationResult
  combine none policy_approval policy =
      if policy_approval
      then approval_required_by_policy policy.id policy.version
      else allow policy.id policy.version
  combine (some gid) policy_approval policy =
      if truthy gid
      then approval_required_by_guardrail gid
      else if policy_approval
      then approval_required_by_policy policy.id policy.version
      else allow policy.id policy.version

  -- steps 4 to 6, for the policy that is assigned
  unfoldable pub evaluate_rules : PolicySnapshot → Option Text → Events → TracedEvaluation
  unfolding allow_pass rule_deny_pass rule_approval_pass
  evaluate_rules policy approval_id events =
      let (events₁, has_allow, considered) = allow_pass policy.id policy.rules 0 events in
      let (events₂, denied) = rule_deny_pass policy.id policy.rules events₁ in
      let (events₃, policy_approval) = rule_approval_pass policy.id policy.approval_rules events₂ in
      if not has_allow
      then finish (denied_by_policy policy.id policy.version)
          (events₁ ++ policy_no_allow_matched policy.id considered ∷ [])
      else if denied
      then finish (denied_by_policy policy.id policy.version) events₂
      else finish (combine approval_id policy_approval policy) events₃

  unfoldable pub evaluate_policy_with_trace : TracedEvaluation
  unfolding deny_pass approval_pass evaluate_rules
  evaluate_policy_with_trace =
      let (events₁, denied) = deny_pass input.guardrails [] in
      let (events₂, approval_id) = approval_pass input.guardrails events₁ in
      elim denied [
        | some g ↦ finish (denied_by_guardrail g.id) events₁
        | none ↦ elim input.policy [
          | none ↦ finish no_policy_assigned (events₂ ++ no_policy_assigned ∷ [])
          | some policy ↦ evaluate_rules policy approval_id events₂
        ]
      ]

  unfoldable pub evaluate_policy : EvaluationResult
  unfolding evaluate_policy_with_trace
  evaluate_policy = evaluate_policy_with_trace.result
