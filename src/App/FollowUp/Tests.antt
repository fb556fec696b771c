-- ===== src/App/FollowUp/Tests.antt =====
-- Runs of the follow-ups of one session, and instances of their theorems.
use mathlib.Core.List.Memᴰ
use agent_workboard.Prelude.{
  ap, any, ◌==◌, is_blank, is_whitespace, len, ℕ, zero, suc, ◌≡◌, refl, true, false, [], ◌∷◌,
  Option, none, some, Text, text, length, Result, ok, err, Memᴰ, arith, text_eq, ◌≢◌,
}
use agent_workboard.Core.Hierarchy.{work_item}
use agent_workboard.Core.Conversation.{Tool}
use agent_workboard.App.Error.{idempotency_conflict}
use agent_workboard.App.FollowUp.{
  Tables, FollowUp, SendSessionFollowUp, pending, leased, delivered, ManagedStatus, outcome_of,
  owner_columns, read_outcome, parse_owner, is_in,
}
use agent_workboard.App.FollowUp.Queue.{queue, is_invalid, validate_request}
use agent_workboard.App.FollowUp.Lease.{Generated, update, LeasedFollowUp, lease_next}
use agent_workboard.App.FollowUp.Query.{joined, next_row}
use agent_workboard.App.FollowUp.Delivery.{
  FollowUpExecutor, FollowUpDeliveryFailure, deferred, finish_delivery, is_uncertain, deliver_next,
}
use agent_workboard.App.FollowUp.Rows.{is_settled}
use agent_workboard.App.FollowUp.Stored.{IsStored}
use agent_workboard.App.FollowUp.Histories.{
  History, start, further, queued, leases, finishes, History-IsStored, History-is_settled,
}
use agent_workboard.App.FollowUp.Exclusive.{IsForeign, IsHeld, Step-IsHeld}
use agent_workboard.App.FollowUp.Replays.{queue_replays, queue_conflicts}
use agent_workboard.App.FollowUp.Redelivery.{deliver_next-uncertain}

abbrev copies : ℕ → ℕ → Text
copies zero c = []
copies (suc n) c = c ∷ copies n c

-- A stand-in for the digest.
abbrev digest : Text → Text
digest [] = copies 64 0
digest (c ∷ s) = copies 64 c

digest_hex : (s : Text) → length (digest s) ≡ 64
digest_hex [] = refl
digest_hex (c ∷ s) = refl

abbrev tables : Tables
tables = record {
  session_follow_ups = [];
  workflow_credentials = [];
  native_sessions = record { id = 7; provider = Tool.claude; native_id = text "n" } ∷ [];
  managed_sessions =
      record {
        id = 8;
        launch_intent_id = some 9;
        session_id = 7;
        checkout_id = 10;
        status = ManagedStatus.bound;
        managed_until = none;
        binding_generation = 1;
      }
      ∷ [];
  associations =
      record {
        id = 11;
        session_id = 7;
        feature_id = none;
        work_item_id = some 12;
        role = text "review";
        associated_until = none;
      }
      ∷ [];
  checkout_paths = record { checkout_id = 10; path = text "/w"; observed_until = none } ∷ [];
  checkout_readiness = record { checkout_id = 10; reconciliation_generation = 3 } ∷ [];
  launch_intents = record { id = 9; capability_bundle_root = some (text "/b") } ∷ [];
  live_observations =
      record {
        id = 13;
        session_id = 7;
        status = text "idle";
        observed_at = 50;
        executable = some (text "/e");
      }
      ∷ [];
}

abbrev request : SendSessionFollowUp
request = record {
  owner = work_item 12;
  session_id = some 7;
  expected_binding_generation = 1;
  text = text "go on";
  idempotency_key = text "key";
  requested_at = 100;
}

abbrev row : FollowUp
row = record {
  id = 1;
  workspace_id = 2;
  feature_id = none;
  work_item_id = some 12;
  session_id = 7;
  association_id = 11;
  managed_session_id = 8;
  binding_generation = 1;
  checkout_id = 10;
  checkout_generation = 3;
  sequence = 1;
  idempotency_key = text "key";
  instruction = text "go on";
  instruction_hash = digest (text "go on");
  status = pending;
  lease_token = none;
  leased_until = none;
  attempt_count = 0;
  receipt = none;
  failure = none;
  created_at = 100;
  delivered_at = none;
}

abbrev held_row : FollowUp
held_row = record row {
  status = leased;
  lease_token = some (text "l1");
  leased_until = some 120000000200;
  attempt_count = 1;
}

abbrev delivered_row : FollowUp
delivered_row = record held_row {
  status = delivered;
  lease_token = none;
  leased_until = none;
  receipt = some (text "receipt");
  delivered_at = some 200;
}

abbrev uncertain_row : FollowUp
uncertain_row = record held_row {
  status = pending;
  lease_token = none;
  leased_until = none;
  failure = some (text "uncertain: gone");
}

abbrev drawn : Generated
drawn = record { lease_token = text "l1"; workflow_token = text "w1"; credential_id = 20 }

abbrev queued_tables : Tables
queued_tables = record tables { session_follow_ups = row ∷ [] }

abbrev leased_tables : Tables
leased_tables = record tables {
  session_follow_ups = held_row ∷ [];
  workflow_credentials =
      record {
        id = 20;
        managed_session_id = 8;
        binding_generation = 1;
        token_hash = digest (text "w1");
        created_at = 200;
        expires_at = 2592000000000200;
      }
      ∷ [];
}

abbrev delivered_tables : Tables
delivered_tables = record leased_tables { session_follow_ups = delivered_row ∷ [] }

queues : queue digest 1 tables 2 request ≡ ok (queued_tables, outcome_of row (work_item 12))
unfolding queue is_invalid is_blank is_whitespace len owner_columns text_eq read_outcome parse_owner
    outcome_of
queues = refl

leases_it :
    (l : Option LeasedFollowUp) × (lease_next digest drawn queued_tables (some 7) 200
      ≡ ok (leased_tables, l))
unfolding lease_next text_eq
leases_it = (_, refl)

delivers :
    finish_delivery leased_tables 1 (text "l1") (ok (text "receipt")) 200
    ≡ ok (delivered_tables, outcome_of delivered_row (work_item 12))
unfolding finish_delivery is_blank is_whitespace len read_outcome update is_in text_eq parse_owner
    outcome_of
delivers = refl

nothing-IsStored : IsStored []
nothing-IsStored = record {
  rows_sound = λ f m. absurd (Memᴰ.not-nil m);
  ids = λ f g m. absurd (Memᴰ.not-nil m);
  keys = λ f g m. absurd (Memᴰ.not-nil m);
  numbers = λ f g m. absurd (Memᴰ.not-nil m);
}

lease_history : History digest tables leased_tables
lease_history =
    further (further start (queued 1 2 request queues)) (leases drawn (some 7) 200 leases_it.1)

delivery_history : History digest queued_tables delivered_tables
delivery_history =
    further (further start (leases drawn (some 7) 200 leases_it.1))
      (finishes 1 (text "l1") (ok (text "receipt")) 200 delivers)

leased-IsStored : IsStored (held_row ∷ [])
leased-IsStored = History-IsStored digest digest_hex lease_history nothing-IsStored

-- A lease of the row after the end of the lease that nobody has finished.
leased_again :
    (l : LeasedFollowUp) × (t : Tables) × (lease_next digest
        (record drawn { lease_token = text "l2"; workflow_token = text "v2"; credential_id = 21 })
        leased_tables
        (some 7)
        120000000200
      ≡ ok (t, some l))
    × (l.attempt_count ≡ 2)
    × (l.previous_failure ≡ none)
unfolding lease_next text_eq
leased_again = (_, _, refl, refl, refl)

History-IsStored_example : IsStored (delivered_row ∷ [])
History-IsStored_example =
    History-IsStored digest digest_hex
      (further lease_history (finishes 1 (text "l1") (ok (text "receipt")) 200 delivers))
      nothing-IsStored

delivered-IsStored : IsStored (delivered_row ∷ [])
delivered-IsStored =
    History-IsStored digest digest_hex
      (further lease_history (finishes 1 (text "l1") (ok (text "receipt")) 200 delivers))
      nothing-IsStored

-- A second worker, which finds nothing to lease.
idle :
    (l : Option LeasedFollowUp) × (lease_next digest drawn delivered_tables none 300
      ≡ ok (delivered_tables, l))
unfolding lease_next text_eq
idle = (_, refl)

History-is_settled_example : Memᴰ delivered_row (delivered_row ∷ [])
unfolding is_settled is_in
History-is_settled_example =
    History-is_settled digest digest_hex (further start (leases drawn none 300 idle.1))
      delivered-IsStored delivered_row (Memᴰ.head refl) refl

-- A second worker, while the lease runs.
excluded :
    (l : Option LeasedFollowUp) × (lease_next digest drawn leased_tables none 300
      ≡ ok (leased_tables, l))
unfolding lease_next text_eq
excluded = (_, refl)

held : IsHeld held_row (text "l1") 120000000200
held = record { status = refl; lease_token = refl; leased_until = refl }

Step-IsHeld_example : Memᴰ held_row (held_row ∷ [])
unfolding IsForeign
Step-IsHeld_example =
    Step-IsHeld digest digest_hex (leases drawn none 300 excluded.1) held_row (text "l1")
      120000000200 leased-IsStored (Memᴰ.head refl) held (omega arith)

queue_replays_example :
    (g : FollowUp) × Memᴰ g (delivered_row ∷ [])
    × (g.id ≡ 1)
    × (queue digest 5 delivered_tables 2 request
        ≡ ok (delivered_tables, outcome_of g (work_item 12)))
unfolding outcome_of
queue_replays_example =
    queue_replays digest digest_hex 1 tables 2 request nothing-IsStored queues delivery_history 5 2

abbrev other_request : SendSessionFollowUp
other_request = record request { text = text "stop" }

queue_conflicts_example : queue digest 5 delivered_tables 2 other_request ≡ err idempotency_conflict
unfolding validate_request is_invalid is_blank is_whitespace len owner_columns
queue_conflicts_example =
    queue_conflicts digest digest_hex 1 tables 2 request nothing-IsStored queues delivery_history 5
      2 other_request refl refl differ
  where
    differ : digest (text "stop") ≢ digest (text "go on")
    differ h = let e : true ≡ false = ap (λ s. any (λ c. c == 115) s) h in cc

abbrev uncertain_tables : Tables
uncertain_tables = record tables { session_follow_ups = uncertain_row ∷ [] }

abbrev no_client : Result Text FollowUpDeliveryFailure → FollowUpExecutor
no_client answer = record { reconcile = λ _. ok none; deliver = λ _. answer }

abbrev delivered_answer : Result Text FollowUpDeliveryFailure
delivered_answer = ok (text "receipt")

abbrev lost_answer : Result Text FollowUpDeliveryFailure
lost_answer = err (record { kind = deferred; message = text "busy" })

deliver_next-uncertain_example :
    deliver_next digest drawn uncertain_tables none 300 (no_client delivered_answer)
    ≡ deliver_next digest drawn uncertain_tables none 300 (no_client lost_answer)
unfolding next_row is_uncertain joined
deliver_next-uncertain_example =
    deliver_next-uncertain (no_client delivered_answer) (no_client lost_answer) (λ _. refl) digest
      drawn uncertain_tables none 300 uncertain_row refl refl (omega arith)
