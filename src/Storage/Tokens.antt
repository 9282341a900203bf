-- ===== src/Storage/Tokens.antt =====
-- Access tokens of workspaces: `CreateAccessToken`, `RevokeAccessToken` and `InspectAccessToken` of
-- internal/storage/postgres/workspace.go, with migrations/000006_phase1_access_tokens.up.sql. The
-- functions that the code takes from Go's library are arguments: `encode` is the unpadded URL encoding
-- of bytes, and `digest` the lower-case hexadecimal SHA-256 sum of a text.
pub mod Laws
pub mod Steps
pub mod Valid
mod Tests
use gpu_rental_platform.Common.{
  ℕ, ◌+◌, ◌*◌, String, Bool, true, false, not, ◌&&◌, ◌||◌, Option, none, some, List, [], ◌∷◌, ◌++◌,
  ltb, if◌then◌else◌, str_eq, is_some, any, find, update, Outcome, ok, err, Error, invalid,
  not_found, conflict, idempotency_conflict, failure, fail_if, or_fail, ◌>>=◌, ◌>>◌,
}
use gpu_rental_platform.Common.Int.{ℤ, pos, pos_part, ltb_ℤ, leb_ℤ}
use gpu_rental_platform.Common.Text.{trim_space, to_lower, ◌+++◌}
use gpu_rental_platform.Identity.{Bytes, Entropy, new_uuid, is_uuid}
use gpu_rental_platform.Tenancy.{Acceptance, MutationContext}
use gpu_rental_platform.Workspace.{
  AccessType, AccessToken, AccessTokenInfo, CreateAccessTokenParams, RevokeAccessTokenParams,
  Workspace, access_text, second,
}
use gpu_rental_platform.Storage.Db.{Db, IdempotencyRecord, TokenRow, text, instant}
use gpu_rental_platform.Storage.Mutation.{
  Spec, accept_mutation, validate_mutation_context, insert_domain_event, insert_audit_event, day,
}

abbrev pub is_known_access : AccessType → Bool
is_known_access (AccessType.other _) = false
is_known_access _ = true

-- INSERT INTO workspace_access_tokens, with its PRIMARY KEY, UNIQUE (token_hash) and reference
unfoldable pub insert_token : TokenRow → Db → Outcome Db
insert_token t db = do
  fail_if (any (λ x. str_eq x.id t.id || str_eq x.token_hash t.token_hash) db.access_tokens)
      conflict
  fail_if (not (any (λ (w : Workspace). str_eq w.id t.workspace_id) db.workspaces)) not_found
  ok (record db { access_tokens = db.access_tokens ++ t ∷ [] })

-- INSERT INTO idempotency_records, with its PRIMARY KEY
unfoldable pub record_token : String → MutationContext → AccessToken → ℕ → Db → Outcome Db
record_token scope m issued now db = do
  fail_if (is_some (db.idempotency scope m.idempotency_key))
      (failure "record access token idempotency")
  ok (record db {
    idempotency = λ s k.
        if str_eq s scope && str_eq k m.idempotency_key
        then some (record {
          request_hash = m.request_hash;
          resource_type = "workspace-access-token";
          resource_id = some issued.id;
          operation_id = none;
          expires_at = now + day;
          created_at = now;
          response_body = some issued;
        })
        else db.idempotency s k;
  })

-- The look-up of the key: `none` if there is no record
unfoldable pub load_token : Option IdempotencyRecord → String → Outcome (Option AccessToken)
load_token none hash = ok none
load_token (some r) hash = do
  fail_if (not (str_eq r.request_hash hash)) idempotency_conflict
  replay ← or_fail r.response_body (failure "decode access token replay")
  ok (some replay)

-- The audit row of a token: only the fields that `insertAuditEventInTx` reads are set.
abbrev pub token_audit : String → String → Spec
token_audit id project = record {
  kind = "workspace.access-token.issue";
  resource_type = "workspace-access-token";
  resource_id = id;
  event_type = "";
  scope_type = "project";
  scope_id = project;
  event_fields = [];
  complete_immediately = false;
  apply = λ now db. ok db;
}

abbrev pub token_scope : MutationContext → String
token_scope m = "workspace.access-token:" +++ m.principal_id

module _ (encode : Bytes → String) (digest : String → String) where
  -- The part behind the look-up of the key.
  unfoldable pub issue_token :
      Entropy → ℕ → ℕ → CreateAccessTokenParams → ℕ → Db → Outcome (AccessToken × Db)
  unfolding insert_token record_token
  issue_token entropy k now params ttl db = do
    w ←
        or_fail (find (λ (x : Workspace). str_eq x.id (to_lower params.workspace_id)) db.workspaces)
          not_found
    raw ← or_fail (entropy k) (failure "generate access token")
    let token = encode raw
    id ← new_uuid entropy (k + 1)
    let issued : AccessToken = record {
      id = id;
      workspace_id = params.workspace_id;
      access_type = params.access_type;
      token = token;
      expires_at = now + ttl;
    }
    inserted ←
        insert_token
          (record {
            id = id;
            workspace_id = to_lower params.workspace_id;
            access_type = params.access_type;
            token_hash = digest token;
            expires_at = now + ttl;
            revoked_at = none;
            created_by = params.mutation.principal_id;
            created_at = now;
          })
          db
    published ←
        insert_domain_event entropy (k + 2) "workspace" params.workspace_id
          "workspace.access-token.issued"
          (("resourceId", text id)
            ∷ ("workspaceId", text params.workspace_id)
            ∷ ("accessType", text (access_text params.access_type))
            ∷ ("expiresAt", instant (now + ttl))
            ∷ [])
          now inserted
    audited ←
        insert_audit_event entropy (k + 3) params.mutation (token_audit id w.project_id) now
          published
    recorded ← record_token (token_scope params.mutation) params.mutation issued now audited
    ok (issued, recorded)

  -- `CreateAccessToken`
  unfoldable pub create_access_token :
      Entropy → ℕ → ℕ → CreateAccessTokenParams → Db → Outcome (AccessToken × Db)
  unfolding load_token
  create_access_token entropy k now params db = do
    fail_if (not (is_uuid params.workspace_id)) not_found
    fail_if (not (is_known_access params.access_type)) invalid
    let ttl = if leb_ℤ params.ttl (pos 0) then pos (600 * second) else params.ttl
    fail_if (ltb_ℤ (pos (3600 * second)) ttl) invalid
    validate_mutation_context params.mutation
    found ←
        load_token (db.idempotency (token_scope params.mutation) params.mutation.idempotency_key)
          params.mutation.request_hash
    elim found [
      | some replay ↦ ok (replay, db)
      | none ↦ issue_token entropy k now params (pos_part ttl) db
    ]

  -- `InspectAccessToken`
  unfoldable pub inspect_access_token : ℕ → String → Db → Outcome AccessTokenInfo
  inspect_access_token now token db = do
    let trimmed = trim_space token
    fail_if (str_eq trimmed "") not_found
    t ←
        or_fail
          (find
            (λ x.
              str_eq x.token_hash (digest trimmed)
              && not (is_some x.revoked_at)
              && ltb now x.expires_at)
            db.access_tokens)
          not_found
    ok (record {
      id = t.id;
      workspace_id = t.workspace_id;
      access_type = t.access_type;
      expires_at = t.expires_at;
    })

-- The row that a revocation changes
abbrev pub is_revocable : String → String → TokenRow → Bool
is_revocable id workspace t =
    str_eq t.id id && str_eq t.workspace_id workspace && not (is_some t.revoked_at)

abbrev pub revoked : ℕ → TokenRow → TokenRow
revoked now t = record t { revoked_at = some now }

-- `apply` of `RevokeAccessToken`
unfoldable pub apply_revoke : String → String → ℕ → Db → Outcome Db
apply_revoke id workspace now db = do
  fail_if (not (any (is_revocable id workspace) db.access_tokens)) not_found
  ok (record db {
    access_tokens = update (is_revocable id workspace) (revoked now) db.access_tokens;
  })

abbrev pub revoke_spec : RevokeAccessTokenParams → String → Spec
revoke_spec params project = record {
  kind = "workspace.access-token.revoke";
  resource_type = "workspace-access-token";
  resource_id = params.token_id;
  event_type = "workspace.access-token.revoked";
  scope_type = "project";
  scope_id = project;
  event_fields = ("workspaceId", text params.workspace_id) ∷ [];
  complete_immediately = false;
  apply = apply_revoke (to_lower params.token_id) (to_lower params.workspace_id);
}

-- `RevokeAccessToken`
unfoldable pub revoke_access_token :
    Entropy → ℕ → ℕ → RevokeAccessTokenParams → Db → Outcome (Acceptance × Db)
revoke_access_token entropy k now params db = do
  fail_if (not (is_uuid params.workspace_id) || not (is_uuid params.token_id)) not_found
  w ←
      or_fail (find (λ (x : Workspace). str_eq x.id (to_lower params.workspace_id)) db.workspaces)
        not_found
  accept_mutation entropy k now params.mutation (revoke_spec params w.project_id) db
