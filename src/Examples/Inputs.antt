-- ===== src/Examples/Inputs.antt =====
-- A host whose codecs are the identity and whose digest is constant, a running create request of a
-- human, and the states around it.
use vaultwarden_cli.Base.{
  ℕ, true, false, none, some, List, [], ◌∷◌, ◌++◌, Text, codes, Result, ok, err,
}
use vaultwarden_cli.Host.{Host}
use vaultwarden_cli.Policy.Types.{CreateEffect, CredentialUse}
use vaultwarden_cli.Policy.Review.{one_time_text, create_effect_text, human_requester}
use vaultwarden_cli.Request.Types.{
  DirectRecord, DirectReview, DirectStatus, HistoryOutcome, DecisionOutcome, DirectFailure,
}
use vaultwarden_cli.Request.History.{snapshot}
use vaultwarden_cli.Request.Record.{seal}
use vaultwarden_cli.State.Types.{ProviderState, RequestLifecycleStatus, initial}
use vaultwarden_cli.State.Transition.{advance}
use vaultwarden_cli.Storage.{WriteReceipt, WriteStatus}
use vaultwarden_cli.Protocol.{SignedSubmission, SignedStatusQuery}
use vaultwarden_cli.Provider.Writes.{uncertain_receipt, reconciled_record}
use vaultwarden_cli.Store.{Io, WriteRun, ProviderStore}

abbrev zeros : List ℕ
zeros = 0 ∷ 0 ∷ 0 ∷ 0 ∷ 0 ∷ 0 ∷ 0 ∷ 0 ∷ []

abbrev pub zero_digest : List ℕ
zero_digest = zeros ++ zeros ++ zeros ++ zeros

instance abbrev pub toy_host : Host
toy_host = record {
  url_decode = λ v. some v;
  url_encode = λ v. v;
  std_decode = λ v. some v;
  std_encode = λ v. v;
  pad_decode = λ v. none;
  sha256 = λ v. zero_digest;
  policy_bytes = λ p. [];
  record_bytes = λ p. [];
  arguments_bytes = λ vs. [];
  key_accepts = λ k. true;
  key_is_weak = λ k. false;
  key_recompressed = λ k. k;
  verify_strict = λ k m s. true;
  canonical_ip = λ v. none;
  image_matches = λ p d. true;
}

abbrev pub digest_text : Text
digest_text = codes "0000000000000000000000000000000000000000000000000000000000000000"

abbrev pub request_id : Text
request_id = codes "0123456789abcdef0123456789abcdef"

abbrev pub item : Text
item = codes "11111111-1111-1111-1111-111111111111"

abbrev pub effect : CreateEffect
effect = record {
  server = codes "https://vault.example";
  destination = record {
    account_id = item;
    folder = codes "team";
    folder_id = item;
    reference = codes "team/db";
  };
  fields = codes "password" ∷ [];
  eligibility_marker = codes "marker";
}

unfoldable pub review : DirectReview
unfolding one_time_text create_effect_text human_requester
review = record {
  id = request_id;
  requester = human_requester;
  operation = codes "create-db";
  effect = create_effect_text;
  create = some effect;
  target = codes "team/db";
  ssh = none;
  arguments = [];
  credentials = record { label = codes "team/db"; use_type = CredentialUse.login } ∷ [];
  executable_digest = digest_text;
  policy_digest = digest_text;
  arguments_digest = digest_text;
  expires_at_unix_seconds = 200;
  one_time = one_time_text;
  status = DirectStatus.pending;
}

unfoldable bare : DirectRecord
bare = seal (record {
  owner_uid = 1000;
  agent_owner = none;
  replay_digest = none;
  created_at_unix_seconds = 100;
  lifecycle_epoch = 0;
  review = review;
  binding_digest = [];
  approval = none;
  execution_claimed = false;
  audit = [];
  history_version = 1;
  write_receipt = none;
})

-- Submitted, then approved.
unfoldable pub pending_record : DirectRecord
unfolding bare
pending_record = record bare {
  audit = snapshot bare 0 100 HistoryOutcome.submitted (some DirectStatus.pending) ∷ [];
}

unfoldable pub approved_record : DirectRecord
unfolding pending_record
approved_record = advance pending_record DirectStatus.approved DecisionOutcome.approved 110

unfoldable pub claimed_record : DirectRecord
unfolding approved_record
claimed_record = record approved_record { execution_claimed = true }

unfoldable pub running_record : DirectRecord
unfolding claimed_record
running_record = advance claimed_record DirectStatus.running DecisionOutcome.approved 150

unfoldable pub state_of : RequestLifecycleStatus → DirectRecord → ProviderState
unfolding initial
state_of status d = record initial {
  requests = record { id = request_id; status = status; direct = some d } ∷ [];
}

abbrev pub good_write : WriteRun
good_write = record {
  staging = none;
  before = true;
  removed = true;
  renamed = true;
  synced = true;
  after = true;
}

abbrev pub good_io : Io
good_io = record { reads = λ n. none; write = good_write; clock = λ n. some 150; fresh = some [] }

abbrev pub submission : SignedSubmission
submission = record {
  protocol_version = 1;
  purpose = codes "submit";
  binding_id = request_id;
  nonce = request_id;
  operation_id = codes "create-db";
  expected_policy_revision = digest_text;
  args = codes "x" ∷ [];
  signature = digest_text;
}

abbrev pub status_query : SignedStatusQuery
status_query = record {
  protocol_version = 1;
  purpose = codes "status";
  binding_id = request_id;
  nonce = request_id;
  request_id = request_id;
  signature = digest_text;
}

abbrev pub value_of : {E : Type 0} → Result E Text → Text
value_of (ok v) = v
value_of (err e) = []

-- The running request once it has begun its write, and the pending one after a recovery.
unfoldable pub begun_record : DirectRecord
unfolding running_record
begun_record = record running_record { write_receipt = some (uncertain_receipt request_id) }

unfoldable pub expired_record : DirectRecord
unfolding pending_record
expired_record = advance pending_record DirectStatus.expired DecisionOutcome.recovered 150

unfoldable pub recovered_state : ProviderState
unfolding expired_record state_of
recovered_state = record (state_of RequestLifecycleStatus.invalidated expired_record) {
  lifecycle_epoch = 1;
}

unfoldable pub toy_store : ProviderState → ProviderStore
toy_store s = record { owner_uid = 500; poisoned = false; durable = s }

-- The same request after its process was lost, and after its item was named.
unfoldable pub lost_record : DirectRecord
unfolding begun_record
lost_record =
    advance begun_record (DirectStatus.failed DirectFailure.observation_lost)
      DecisionOutcome.execution_unavailable 160

abbrev pub item_receipt : WriteReceipt
item_receipt = record {
  attempt_id = request_id;
  item_id = some item;
  status = WriteStatus.created_unverified;
}

unfoldable pub named_record : DirectRecord
unfolding lost_record
named_record = reconciled_record lost_record item_receipt 150
