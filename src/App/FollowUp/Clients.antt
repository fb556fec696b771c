-- ===== src/App/FollowUp/Clients.antt =====
-- crates/application/src/follow_up.rs: SystemFollowUpExecutor, which hands a message to the client
-- of the session's provider, in crates/adapter-claude/src/follow_up.rs or
-- crates/adapter-codex/src/app_server.rs. The clients run processes, and stand as parameters.
use agent_workboard.Prelude.{
  Bool, Option, none, some, Text, Result, ok, err, ◌≡◌, ◌≢◌, refl, ap, ◌∙◌,
}
use agent_workboard.Core.Conversation.{Tool, claude, codex}
use agent_workboard.App.FollowUp.Lease.{ProviderFollowUp}
use agent_workboard.App.FollowUp.Delivery.{
  FollowUpDeliveryFailureKind, deferred, rejected, uncertain, FollowUpDeliveryFailure,
  FollowUpExecutor,
}

pub record ClaudeFollowUpRequest : Type 0 where
  pub executable : Text
  pub native_id : Text
  pub working_directory : Text
  pub capability_bundle_root : Text
  pub workflow_token : Text
  pub text : Text
  pub client_message_id : Text
  pub active_turn : Bool

pub data ClaudeFollowUpFailureKind : Type 0 where
  claude_deferred claude_rejected claude_uncertain : ClaudeFollowUpFailureKind

pub record ClaudeFollowUpFailure : Type 0 where
  pub kind : ClaudeFollowUpFailureKind
  pub message : Text

pub record CodexFollowUpRequest : Type 0 where
  pub native_id : Text
  pub working_directory : Text
  pub capability_bundle_root : Text
  pub workflow_token : Text
  pub text : Text
  pub client_message_id : Text

pub record CodexFollowUpReceipt : Type 0 where
  pub turn_id : Text
  pub steered : Bool

pub data CodexAppServerFailureKind : Type 0 where
  io timeout process_exited protocol message_too_large : CodexAppServerFailureKind
  stderr_too_large message_limit_exceeded page_limit_exceeded : CodexAppServerFailureKind
  thread_limit_exceeded unsupported_schema : CodexAppServerFailureKind

pub record CodexAppServerFailure : Type 0 where
  pub kind : CodexAppServerFailureKind
  pub message : Text

-- The clients' calls; the one of Codex starts an executable.
pub record ClaudeClient : Type 0 where
  pub reconcile : ClaudeFollowUpRequest → Result (Option Text) ClaudeFollowUpFailure
  pub deliver : ClaudeFollowUpRequest → Result Text ClaudeFollowUpFailure

pub record CodexClient : Type 0 where
  pub reconcile_follow_up :
      Text → CodexFollowUpRequest → Result (Option CodexFollowUpReceipt) CodexAppServerFailure
  pub send_follow_up :
      Text → CodexFollowUpRequest → Result CodexFollowUpReceipt CodexAppServerFailure

unfoldable pub claude_request : ProviderFollowUp → ClaudeFollowUpRequest
claude_request r = record {
  executable = r.executable;
  native_id = r.native_id;
  working_directory = r.working_directory;
  capability_bundle_root = r.capability_bundle_root;
  workflow_token = r.workflow_token;
  text = r.text;
  client_message_id = r.client_message_id;
  active_turn = r.active_turn;
}

unfoldable pub codex_request : ProviderFollowUp → CodexFollowUpRequest
codex_request r = record {
  native_id = r.native_id;
  working_directory = r.working_directory;
  capability_bundle_root = r.capability_bundle_root;
  workflow_token = r.workflow_token;
  text = r.text;
  client_message_id = r.client_message_id;
}

unfoldable pub claude_kind : ClaudeFollowUpFailureKind → FollowUpDeliveryFailureKind
claude_kind claude_deferred = deferred
claude_kind claude_rejected = rejected
claude_kind claude_uncertain = uncertain

unfoldable pub map_claude_failure : ClaudeFollowUpFailure → FollowUpDeliveryFailure
unfolding claude_kind
map_claude_failure failure = record { kind = claude_kind failure.kind; message = failure.message }

unfoldable pub codex_kind : CodexAppServerFailureKind → FollowUpDeliveryFailureKind
codex_kind timeout = uncertain
codex_kind process_exited = uncertain
codex_kind _ = rejected

unfoldable pub map_codex_failure : CodexAppServerFailure → FollowUpDeliveryFailure
unfolding codex_kind
map_codex_failure failure = record { kind = codex_kind failure.kind; message = failure.message }

unfoldable pub map_result {ℓ κ ρ σ} :
    {A : Type ℓ} {B : Type κ} {E : Type ρ} {F : Type σ}
    → (A → B)
    → (E → F)
    → Result A E
    → Result B F
map_result f g (ok a) = ok (f a)
map_result f g (err e) = err (g e)

unfoldable pub map_option {ℓ κ} : {A : Type ℓ} {B : Type κ} → (A → B) → Option A → Option B
map_option f none = none
map_option f (some a) = some (f a)

-- The digest, and the encoder of the receipt's JSON object.
module _ (digest : Text → Text) (encode : Text → Bool → Text) (claude_client : ClaudeClient)
    (codex_client : CodexClient) where
  unfoldable pub codex_receipt : CodexFollowUpReceipt → Text
  codex_receipt receipt = encode (digest receipt.turn_id) receipt.steered

  unfoldable pub system_reconcile :
      Tool → ProviderFollowUp → Result (Option Text) FollowUpDeliveryFailure
  unfolding claude_request codex_request map_claude_failure map_codex_failure map_result map_option
      codex_receipt
  system_reconcile claude r =
      map_result (λ x. x) map_claude_failure (claude_client.reconcile (claude_request r))
  system_reconcile codex r =
      map_result (map_option codex_receipt) map_codex_failure
        (codex_client.reconcile_follow_up r.executable (codex_request r))

  unfoldable pub system_deliver : Tool → ProviderFollowUp → Result Text FollowUpDeliveryFailure
  unfolding claude_request codex_request map_claude_failure map_codex_failure map_result
      codex_receipt
  system_deliver claude r =
      map_result (λ x. x) map_claude_failure (claude_client.deliver (claude_request r))
  system_deliver codex r =
      map_result codex_receipt map_codex_failure
        (codex_client.send_follow_up r.executable (codex_request r))

  unfoldable pub system_executor : FollowUpExecutor
  unfolding system_reconcile system_deliver
  system_executor = record {
    reconcile = λ r. system_reconcile r.tool r;
    deliver = λ r. system_deliver r.tool r;
  }

codex_kind-undeferred : (kind : CodexAppServerFailureKind) → codex_kind kind ≢ deferred
unfolding codex_kind
codex_kind-undeferred timeout h = cc
codex_kind-undeferred process_exited h = cc
codex_kind-undeferred io h = cc
codex_kind-undeferred protocol h = cc
codex_kind-undeferred message_too_large h = cc
codex_kind-undeferred stderr_too_large h = cc
codex_kind-undeferred message_limit_exceeded h = cc
codex_kind-undeferred page_limit_exceeded h = cc
codex_kind-undeferred thread_limit_exceeded h = cc
codex_kind-undeferred unsupported_schema h = cc

map_result-err :
    {A B E F : Type 0} (f : A → B) (g : E → F) (r : Result A E) {failure : F}
    → map_result f g r ≡ err failure
    → (e : E) × (r ≡ err e) × (g e ≡ failure)
unfolding map_result
map_result-err f g (ok a) h = cc
map_result-err f g (err e) h = (e, refl, cc)

claude_kind-deferred :
    (kind : ClaudeFollowUpFailureKind) → claude_kind kind ≡ deferred → kind ≡ claude_deferred
unfolding claude_kind
claude_kind-deferred claude_deferred h = refl
claude_kind-deferred claude_rejected h = cc
claude_kind-deferred claude_uncertain h = cc

module _ (digest : Text → Text) (encode : Text → Bool → Text) (claude_client : ClaudeClient)
    (codex_client : CodexClient) (r : ProviderFollowUp) (failure : FollowUpDeliveryFailure) where
  by_claude :
      ((r : ClaudeFollowUpRequest) (e : ClaudeFollowUpFailure)
        → claude_client.reconcile r ≡ err e
        → e.kind ≢ claude_deferred)
      → system_reconcile digest encode claude_client codex_client claude r ≡ err failure
      → failure.kind ≢ deferred
  unfolding system_reconcile map_claude_failure
  by_claude never h is_deferred =
      let (e, from, same) =
        map_result-err (λ x. x) map_claude_failure (claude_client.reconcile (claude_request r)) h in
      never (claude_request r) e from
        (claude_kind-deferred e.kind (ap (λ x. x.kind) same ∙ is_deferred))

  by_codex :
      system_reconcile digest encode claude_client codex_client codex r ≡ err failure
      → failure.kind ≢ deferred
  unfolding system_reconcile map_codex_failure
  by_codex h is_deferred =
      let (e, _, same) =
        map_result-err (map_option (codex_receipt digest encode claude_client codex_client))
          map_codex_failure (codex_client.reconcile_follow_up r.executable (codex_request r)) h in
      codex_kind-undeferred e.kind (ap (λ x. x.kind) same ∙ is_deferred)

-- If the client of Claude never defers the reconciling of a message, then no provider's does: a
-- failure to reconcile leaves the message uncertain, or ends it.
pub system_executor-undeferred :
    (digest : Text → Text) (encode : Text → Bool → Text) (claude_client : ClaudeClient)
    (codex_client : CodexClient)
    → ((r : ClaudeFollowUpRequest) (e : ClaudeFollowUpFailure)
        → claude_client.reconcile r ≡ err e
        → e.kind ≢ claude_deferred)
    → (r : ProviderFollowUp) (failure : FollowUpDeliveryFailure)
    → (system_executor digest encode claude_client codex_client).reconcile r ≡ err failure
    → failure.kind ≢ deferred
unfolding system_executor
system_executor-undeferred digest encode claude_client codex_client never r failure h =
    by_tool r.tool h
  where
    by_tool :
        (tool : Tool)
        → system_reconcile digest encode claude_client codex_client tool r ≡ err failure
        → failure.kind ≢ deferred
    by_tool claude h = by_claude digest encode claude_client codex_client r failure never h
    by_tool codex h = by_codex digest encode claude_client codex_client r failure h
