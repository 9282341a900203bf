-- ===== src/Storage/Tokens/Tests.antt =====
-- A token that is issued, used, and revoked. The digest is a simple function here.
use Prim.Native.Nat.{suc, ◌/◌, ◌%◌}
use Prim.Native.String
use gpu_rental_platform.Common.{
  str_eq, Unique, ◌≡◌, ◌<◌, ◌≤◌, ◌+◌, ◌*◌, refl, String, some, none, [], ◌∷◌, ok, err, not_found,
  true, false, Row, if◌then◌else◌, ltb, ℕ,
}
use gpu_rental_platform.Common.Int.{pos}
use gpu_rental_platform.Common.Text.{to_lower, trim_space, is_blank, ◌+++◌}
use gpu_rental_platform.Identity.{Bytes, Entropy, is_uuid, new_uuid}
use gpu_rental_platform.Tenancy.{Acceptance, MutationContext}
use gpu_rental_platform.Workspace.{
  Workspace, AccessToken, AccessType, AccessTokenInfo, CreateAccessTokenParams,
  RevokeAccessTokenParams, ObservedState, ProvisioningState, second,
}
use gpu_rental_platform.Storage.Db.{Db, empty_db, TokenRow}
use gpu_rental_platform.Storage.Mutation.{
  accept_mutation, accept_new, create_in_tx, insert_operation, insert_event, insert_domain_event,
  insert_audit_event, record_idempotency, idempotency_scope, set_fields, complete_operation,
  load_idempotency, validate_mutation_context, tables_after,
}
use gpu_rental_platform.Storage.Tokens.{
  insert_token, record_token, load_token, issue_token, create_access_token, inspect_access_token,
  apply_revoke, revoke_access_token,
}
use gpu_rental_platform.Storage.Tokens.Laws.{hash_of}
use gpu_rental_platform.Storage.Tokens.Steps.{Reach, start, next, issues, leaves, revoked_forever}
use gpu_rental_platform.Storage.Tokens.Valid.{
  issued_is_valid, create_access_token_retry, inspect_sound,
}

code : Unit {0}
unfolding tables_after is_uuid new_uuid is_blank trim_space to_lower accept_mutation accept_new
    create_in_tx insert_operation insert_event insert_domain_event insert_audit_event
    record_idempotency idempotency_scope set_fields complete_operation load_idempotency
    validate_mutation_context insert_token record_token load_token issue_token create_access_token
    inspect_access_token apply_revoke revoke_access_token
code = tt

-- Thirty-two equal bytes for the first read, that of the token, and sixteen for each other one.
abbrev secret : Bytes
secret =
    17 ∷ 17 ∷ 17 ∷ 17 ∷ 17 ∷ 17 ∷ 17 ∷ 17 ∷ 17 ∷ 17 ∷ 17 ∷ 17 ∷ 17 ∷ 17 ∷ 17 ∷ 17 ∷ 17 ∷ 17 ∷ 17
    ∷ 17 ∷ 17 ∷ 17 ∷ 17 ∷ 17 ∷ 17 ∷ 17 ∷ 17 ∷ 17 ∷ 17 ∷ 17 ∷ 17 ∷ 17 ∷ []

abbrev random : Entropy
random (suc ℕ.zero) = some secret
random k =
    let b = 16 * k + k in some (b ∷ b ∷ b ∷ b ∷ b ∷ b ∷ b ∷ b ∷ b ∷ b ∷ b ∷ b ∷ b ∷ b ∷ b ∷ b ∷ [])

abbrev sextet : ℕ → String
sextet n =
    let i = n % 64 in
    String.slice "ABCDEFGHIJKLMNOPQRSTUVWXYZabcdefghijklmnopqrstuvwxyz0123456789-_" i (i + 1)

-- `base64.RawURLEncoding`
abbrev encode : Bytes → String
encode [] = ""
encode (a ∷ []) = sextet (a / 4) +++ sextet (a * 16)
encode (a ∷ b ∷ []) = sextet (a / 4) +++ (sextet (a * 16 + b / 16) +++ sextet (b * 4))
encode (a ∷ b ∷ c ∷ rest) =
    sextet (a / 4)
    +++ (sextet (a * 16 + b / 16) +++ (sextet (b * 4 + c / 64) +++ (sextet c +++ encode rest)))

abbrev digest : String → String
digest s = "#" +++ s

abbrev workspace_id : String
workspace_id = "eeeeeeee-5555-4555-9555-555555555555"

abbrev workspace : Workspace
workspace = record {
  id = workspace_id;
  project_id = workspace_id;
  cluster_id = workspace_id;
  accelerator_profile_id = workspace_id;
  name = "train-1";
  gpu_count = 2;
  storage_gib = 20;
  namespace_name = "gpu-p-aaaaaaaa0000";
  desired_state = "running";
  observed_state = ObservedState.running;
  provisioning_state = ProvisioningState.succeeded;
  conditions = [];
  generation = 1;
  observed_generation = 1;
  manifest_work_name = "gpu-workspace-eeeeeeee5555";
  created_at = 20;
  updated_at = 40;
}

abbrev furnished : Db
furnished = record empty_db { workspaces = workspace ∷ [] }

abbrev mutation : MutationContext
mutation = record {
  principal_id = "u1";
  request_id = "r1";
  idempotency_key = "key-0001";
  request_hash = "h1";
}

abbrev params : CreateAccessTokenParams
params = record {
  mutation = mutation;
  workspace_id = workspace_id;
  access_type = AccessType.ssh;
  ttl = pos 100;
}

abbrev token : AccessToken
token = record {
  id = "22222222-2222-4222-a222-222222222222";
  workspace_id = workspace_id;
  access_type = AccessType.ssh;
  token = "ERERERERERERERERERERERERERERERERERERERERERE";
  expires_at = 110;
}

abbrev issued : Db
issued = tables_after furnished (create_access_token encode digest random 1 10 params furnished)

is_issued : create_access_token encode digest random 1 10 params furnished ≡ ok (token, issued)
unfolding code
is_issued = refl

abbrev revocation : RevokeAccessTokenParams
revocation = record {
  mutation = mutation;
  workspace_id = workspace_id;
  token_id = "22222222-2222-4222-a222-222222222222";
}

abbrev withdrawn : Db
withdrawn = tables_after issued (revoke_access_token random 6 50 revocation issued)

abbrev acceptance : Acceptance
acceptance = record {
  resource_id = "22222222-2222-4222-a222-222222222222";
  operation_id = "66666666-6666-4666-a666-666666666666";
  replayed = false;
}

is_revoked : revoke_access_token random 6 50 revocation issued ≡ ok (acceptance, withdrawn)
unfolding code
is_revoked = refl

abbrev info : AccessTokenInfo
info = record {
  id = "22222222-2222-4222-a222-222222222222";
  workspace_id = workspace_id;
  access_type = AccessType.ssh;
  expires_at = 110;
}

is_inspected :
    inspect_access_token encode digest 20 " ERERERERERERERERERERERERERERERERERERERERERE " issued
    ≡ ok info
unfolding code
is_inspected = refl

late_refused :
    inspect_access_token encode digest 110 "ERERERERERERERERERERERERERERERERERERERERERE" issued
    ≡ err not_found
unfolding code
late_refused = refl

secret_trimmed : trim_space (encode secret) ≡ encode secret
unfolding trim_space
secret_trimmed = refl

trims : (raw : Bytes) → random 1 ≡ some raw → trim_space (encode raw) ≡ encode raw
trims raw e = let same : secret ≡ raw = cc in rw (← same) secret_trimmed

secret_filled : str_eq (encode secret) "" ≡ false
secret_filled = refl

filled : (raw : Bytes) → random 1 ≡ some raw → str_eq (encode raw) "" ≡ false
filled raw e = let same : secret ≡ raw = cc in rw (← same) secret_filled

issued_is_valid_example :
    inspect_access_token encode digest 20 "ERERERERERERERERERERERERERERERERERERERERERE" issued ≡ (
      if ltb 20 110
      then ok (record {
        id = "22222222-2222-4222-a222-222222222222";
        workspace_id = to_lower workspace_id;
        access_type = AccessType.ssh;
        expires_at = 110;
      })
      else err not_found)
issued_is_valid_example =
    issued_is_valid encode digest random 1 10 params furnished token issued trims filled refl
      is_issued 20

valid_context : validate_mutation_context mutation ≡ ok tt
unfolding code
valid_context = refl

is_uuid_workspace : is_uuid workspace_id ≡ true
unfolding code
is_uuid_workspace = refl

abbrev web : CreateAccessTokenParams
web = record params { access_type = AccessType.web_terminal }

kept_entry :
    withdrawn.idempotency "workspace.access-token:u1" "key-0001"
    ≡ issued.idempotency "workspace.access-token:u1" "key-0001"
unfolding code
kept_entry = refl

create_access_token_retry_example :
    create_access_token encode digest random 9 90 web withdrawn ≡ ok (token, withdrawn)
create_access_token_retry_example =
    create_access_token_retry encode digest random 1 10 params furnished token issued is_issued
      random 9 90 web withdrawn refl is_uuid_workspace refl refl valid_context kept_entry

up_to_issue : Reach encode digest empty_db issued
up_to_issue =
    next furnished issued (next empty_db furnished start (leaves refl))
      (issues random 1 10 params token is_issued)

inspect_sound_example :
    (t : TokenRow) × Row t issued.access_tokens
    × (t.token_hash ≡ digest (trim_space " ERERERERERERERERERERERERERERERERERERERERERE "))
    × (t.revoked_at ≡ none)
    × (20 < t.expires_at)
    × (t.expires_at ≤ t.created_at + 3600 * second)
    × (info.id ≡ t.id)
    × (info.workspace_id ≡ t.workspace_id)
inspect_sound_example =
    inspect_sound encode digest issued 20 " ERERERERERERERERERERERERERERERERERERERERERE " info
      up_to_issue is_inspected

Unique-hashes : Unique hash_of issued.access_tokens
unfolding code
Unique-hashes = (tt, tt)

revoked_forever_example :
    (t : TokenRow) × Row t issued.access_tokens
    × (t.id ≡ to_lower "22222222-2222-4222-a222-222222222222")
    × (t.workspace_id ≡ to_lower workspace_id)
    × ((after : Db) (now : ℕ) (text : String)
        → Reach encode digest withdrawn after
        → digest (trim_space text) ≡ t.token_hash
        → inspect_access_token encode digest now text after ≡ err not_found)
revoked_forever_example =
    revoked_forever encode digest random 6 50 revocation issued acceptance withdrawn Unique-hashes
      is_revoked refl
