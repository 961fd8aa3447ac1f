-- ===== src/Broker/Wiring/Prompt.antt =====
-- packages/mcp-broker/src/approval/cli-provider.ts: the prompt on the command line. The timer and
-- the answers come as events, in the order in which they happen.
use agent_valet.Common.{
  Bool, true, false, ◌&&◌, ◌||◌, Option, none, some, List, [], ◌∷◌, ◌++◌, Text, codes, ◌==◌, ◌≡◌,
  refl, sym, ap, ◌∙◌, Bool-cases, inl, inr, if◌then◌else◌,
}
use agent_valet.Common.Js.{trim}
use agent_valet.Broker.Types.{AccessRequest, Decision, ApprovalResult}

pub data PromptEvent : Type 0 where
  timer_fired : PromptEvent
  answered : Text → PromptEvent

-- `/^\s*y(es)?\s*$/i`
abbrev is_y_or_yes : Text → Bool
is_y_or_yes (a ∷ []) = a == b'y' || a == b'Y'
is_y_or_yes (a ∷ b ∷ c ∷ []) =
    (a == b'y' || a == b'Y') && (b == b'e' || b == b'E') && (c == b's' || c == b'S')
is_y_or_yes _ = false

abbrev pub is_yes : Text → Bool
is_yes answer = is_y_or_yes (trim answer)

abbrev prompt : AccessRequest → Decision → Text
prompt req decision =
    10
    ∷ (codes "Approval required: "
        ++ (req.resource.server
            ++ (codes "/"
                ++ (req.resource.tool
                    ++ (10
                        ∷ (codes "  subject:  "
                            ++ (req.subject.id
                                ++ (codes " (session "
                                    ++ (req.subject.session_id
                                        ++ (codes ")"
                                            ++ (10
                                                ∷ (codes "  args:     "
                                                    ++ (req.args_fingerprint
                                                        ++ (10
                                                            ∷ (codes "  policy:   "
                                                            ++ (decision.policy_id
                                                            ++ (codes " v"
                                                            ++ (decision.version
                                                            ++ (10
                                                            ∷ codes
                                                            "Approve this call? [y/N] ")))))))))))))))))))

abbrev pub outcome : PromptEvent → ApprovalResult
outcome timer_fired = record { approved = false; reason = some (codes "timeout") }
outcome (answered text) =
    if is_yes text
    then record { approved = true; reason = none }
    else record { approved = false; reason = some (codes "declined") }

-- `finish`, where `settled` holds the result that the promise was resolved with
abbrev finish : Option ApprovalResult → ApprovalResult → Option ApprovalResult
finish (some r) later = some r
finish none r = some r

-- the result after these events
unfoldable pub request : Option ApprovalResult → List PromptEvent → Option ApprovalResult
request settled [] = settled
request settled (e ∷ es) = request (finish settled (outcome e)) es

request-settled : (r : ApprovalResult) (es : List PromptEvent) → request (some r) es ≡ some r
unfolding request
request-settled r [] = refl
request-settled r (e ∷ es) = request-settled r es

approves : Option ApprovalResult → Bool
approves none = false
approves (some r) = r.approved

-- The prompt approves what its first event approves.
first_decides :
    (e : PromptEvent) (es : List PromptEvent) (r : ApprovalResult)
    → request none (e ∷ es) ≡ some r
    → (outcome e).approved ≡ r.approved
unfolding approves request
first_decides e es r h = ap approves (sym (request-settled (outcome e) es) ∙ h)

outcome-approved : (text : Text) → (outcome (answered text)).approved ≡ is_yes text
outcome-approved text = elim (Bool-cases (is_yes text)) [ inl e ↦ rw e refl | inr e ↦ rw e refl ]

-- Whatever happens later, the prompt approves only where the first event is an answer that says
-- yes, so never where the time is up first.
pub request-approved :
    (es : List PromptEvent) (r : ApprovalResult)
    → request none es ≡ some r
    → r.approved ≡ true
    → (text : Text) × (rest : List PromptEvent) × (es ≡ answered text ∷ rest) × (is_yes text ≡ true)
unfolding request
request-approved [] r h granted = cc
request-approved (timer_fired ∷ es) r h granted = let late = first_decides timer_fired es r h in cc
request-approved (answered text ∷ es) r h granted =
    (text, es, refl, sym (outcome-approved text) ∙ first_decides (answered text) es r h ∙ granted)
