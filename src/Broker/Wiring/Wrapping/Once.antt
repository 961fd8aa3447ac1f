-- ===== src/Broker/Wiring/Wrapping/Once.antt =====
-- A wrapped handler of packages/mcp-broker/src/broker.ts is called once or not at all, with the
-- caller's arguments.
use agent_valet.Common.{
  Bool, true, false, Option, none, some, List, [], ◌∷◌, ◌++◌, map, Text, ◌≡◌, refl, ap, ◌⊎◌, inl,
  inr, ◌∙◌,
}
use agent_valet.Common.Effects.{Try, ok, threw, Stateful}
use agent_valet.Broker.Types.{Subject, Decision, Credential}
use agent_valet.Broker.Pass.{PipelineDeps, PipelineResult, completed, blocked, Run}
use agent_valet.Broker.Pipeline.Journal.{world₁, begun, begun_run}
use agent_valet.Broker.Pipeline.Authorization.{
  refused, ran, is_blocked, Carries, Granted, run_pipeline-Handled,
}
use agent_valet.Broker.Pipeline.Faithful.{Unseen, run_pipeline-Tracked}
use agent_valet.Broker.Wiring.Wrapping.{
  CallArgs, nothing, context, with_context, extra_of, inject, params_of, Reply, tool_error,
  reply_of, wrap,
}

abbrev pub is_tool_error : {V : Type 0} → Try (Reply V) → Bool
is_tool_error (ok (tool_error m)) = true
is_tool_error _ = false

is_tool_error-reply_of :
    {V : Type 0} (r : Try (PipelineResult V)) → is_tool_error (reply_of r) ≡ is_blocked r
is_tool_error-reply_of (threw m) = refl
is_tool_error-reply_of (ok (blocked effect reason)) = refl
is_tool_error-reply_of (ok (completed v)) = refl

-- What the handler has to be called with: the caller's own arguments and context, with the
-- credential on the context where there is one.
abbrev pub IsGiven : {A : Type 0} → Option Credential → CallArgs A → CallArgs A → Type 0
IsGiven c nothing given = given ≡ nothing
IsGiven none (context ctx) given = given ≡ context ctx
IsGiven (some c) (context ctx) given = given ≡ context (record ctx { credential = some c })
IsGiven none (with_context a ctx) given = given ≡ with_context a ctx
IsGiven (some c) (with_context a ctx) given =
    given ≡ with_context a (record ctx { credential = some c })

inject-IsGiven :
    {A : Type 0} (c : Option Credential) (call : CallArgs A) → IsGiven c call (inject c call)
inject-IsGiven c nothing = refl
inject-IsGiven none (context ctx) = refl
inject-IsGiven (some c) (context ctx) = refl
inject-IsGiven none (with_context a ctx) = refl
inject-IsGiven (some c) (with_context a ctx) = refl

module _ {W V A : Type 0} (deps : PipelineDeps W V) (fingerprint_of : Option A → Text)
    (tool_name : Text) (handler : CallArgs A → Stateful W (Try V)) where
  -- Let `calls` be what the handler has been called with in a world, newest first: each call of it
  -- adds to them, and no collaborator of the pipeline changes them. Then a wrapped handler whose
  -- caller is identified is not called, and the reply is the error of a blocked call; or it is called
  -- exactly once, under a granted decision, with the caller's own arguments and context, which
  -- holds the credential that the decision carries, and the reply is no such error.
  pub wrap-once :
      (calls : W → List (CallArgs A))
      → ((given : CallArgs A) (w : W) → calls (handler given w).1 ≡ given ∷ calls w)
      → ((seen : List (CallArgs A)) → Unseen deps (λ w. calls w ≡ seen))
      → (call : CallArgs A) (w : W) (subject : Subject)
      → let params = params_of deps fingerprint_of tool_name handler call in
        let start : Run W = record { world = w; journal = [] } in
        (deps.identity (extra_of call) (world₁ deps params start)).0 ≡ ok subject
        → let params = params_of deps fingerprint_of tool_name handler call in
          let start : Run W = record { world = w; journal = [] } in
          let p = begun deps params start subject in
          let (reply, after) = wrap deps fingerprint_of tool_name handler call start in
          ((is_tool_error reply ≡ true) × (calls after.world ≡ calls w))
          ⊎ ((is_tool_error reply ≡ false)
              × (d : Decision) × (c : Option Credential) × (given : CallArgs A) × Granted p
                  (begun_run deps params start).world
                  d
              × Carries p d c
              × IsGiven c call given
              × (calls after.world ≡ given ∷ calls w))
  unfolding wrap
  wrap-once calls recorded unseen call w subject known =
      let start : Run W = record { world = w; journal = [] } in
      let params = params_of deps fingerprint_of tool_name handler call in
      let invoke : Option Credential → Stateful W (Try V) =
        λ credential. handler (inject credential call) in
      let tracked =
        run_pipeline-Tracked (λ cs w'. calls w' ≡ map (λ c. inject c call) cs ++ calls w) deps
          params (λ cs. unseen (map (λ c. inject c call) cs ++ calls w)) invoke
          (λ c cs w' h. recorded (inject c call) w' ∙ ap (λ s. inject c call ∷ s) h) start refl in
      elim (run_pipeline-Handled deps params invoke start subject known) [
        | refused blocks kept ↦ inl (is_tool_error-reply_of _ ∙ blocks, rw kept at tracked)
        | ran d c grants carries runs called ↦ inr (
          is_tool_error-reply_of _ ∙ runs,
          d,
          c,
          inject c call,
          grants,
          carries,
          inject-IsGiven c call,
          rw called at tracked,
        )
      ]
