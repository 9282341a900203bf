-- ===== src/Storage/Tokens/Laws.antt =====
-- An issued token is valid until it expires or is revoked, and never again.
use mathlib.Core.Path.{subst}
use gpu_rental_platform.Storage.Mutation.Replay.{accept_mutation_once}
use gpu_rental_platform.Common.{
  Option-cases, inr, inl, invalid, if◌then◌else◌, update, false, ◌*◌, true, ◌≤◌, ◌<◌, ◌⊎◌, conflict,
  failure, fail_if, or_fail, ap, ◌≡◌, ◌≢◌, ◌∙◌, sym, refl, ℕ, ◌+◌, String, none, some, [], ◌∷◌,
  ◌++◌, ok, All, any, find, arith, not_found, str_eq, not, ◌||◌, eq_iff, eq_refl, >>=-eq-ok,
  fail_if-ok, fail_if-eq-ok, or_fail-eq-ok, ok-injective, is_some,
}
use gpu_rental_platform.Common.Text.{to_lower}
use gpu_rental_platform.Identity.{is_uuid, Bytes, Entropy, new_uuid}
use gpu_rental_platform.Tenancy.{Acceptance, MutationContext}
use gpu_rental_platform.Workspace.{AccessToken, CreateAccessTokenParams, Workspace}
use gpu_rental_platform.Storage.Db.{Db, TokenRow}
use gpu_rental_platform.Storage.Mutation.Laws.{insert_domain_event-ok, insert_audit_event-ok}
use gpu_rental_platform.Storage.Creation.Rows.{fresh_key}
use gpu_rental_platform.Storage.Tokens.{
  pos_part, validate_mutation_context, revoke_spec, ltb_ℤ, pos, leb_ℤ, revoked, is_known_access,
  is_revocable, second, RevokeAccessTokenParams, apply_revoke, revoke_access_token,
  create_access_token, insert_audit_event, insert_domain_event, insert_token, record_token,
  load_token, issue_token, token_scope, token_audit,
}

abbrev pub hash_of : TokenRow → String
hash_of t = t.token_hash

-- A successful insertion adds one row, with a new hash and for a workspace that exists.
insert_token-ok :
    (t : TokenRow) (db after : Db)
    → insert_token t db ≡ ok after
    → All (λ x. hash_of x ≢ t.token_hash) db.access_tokens
      × (after ≡ record db { access_tokens = db.access_tokens ++ t ∷ [] })
unfolding insert_token
insert_token-ok t db after h =
    let clash =
      any (λ (x : TokenRow). str_eq x.id t.id || str_eq x.token_hash t.token_hash)
        db.access_tokens in
    let (_, c, h₁) = >>=-eq-ok (fail_if clash conflict) _ h in
    let h₂ =
      fail_if-ok (not (any (λ (w : Workspace). str_eq w.id t.workspace_id) db.workspaces)) _ _ h₁ in
    (
      fresh_key hash_of t.token_hash (λ x. str_eq x.id t.id || str_eq x.token_hash t.token_hash)
          db.access_tokens (λ x e. ground (arith, eq_iff x.token_hash t.token_hash))
          (fail_if-eq-ok clash _ c),
      sym (ok-injective h₂),
    )

record_token-ok :
    (scope : String) (m : MutationContext) (issued : AccessToken) (now : ℕ) (db after : Db)
    → record_token scope m issued now db ≡ ok after
    → (after.access_tokens ≡ db.access_tokens)
      × (load_token (after.idempotency scope m.idempotency_key) m.request_hash ≡ ok (some issued))
unfolding record_token load_token
record_token-ok scope m issued now db after h =
    let made = ok-injective (fail_if-ok (is_some (db.idempotency scope m.idempotency_key)) _ _ h) in
    rw (← made, eq_refl scope, eq_refl m.idempotency_key, eq_refl m.request_hash) (refl, refl)

-- What a new token of a request is, and the row that is kept of it.
pub record Issued (digest : String → String) (now : ℕ) (params : CreateAccessTokenParams) (ttl : ℕ)
    (db : Db) (issued : AccessToken) (after : Db) : Type 0 where
  pub row : TokenRow
  pub same_id : row.id ≡ issued.id
  pub hashed : row.token_hash ≡ digest issued.token
  pub unrevoked : row.revoked_at ≡ none
  pub expires : row.expires_at ≡ now + ttl
  pub created : row.created_at ≡ now
  pub of_workspace : row.workspace_id ≡ to_lower params.workspace_id
  pub of_type : row.access_type ≡ params.access_type
  pub announced : issued.expires_at ≡ now + ttl
  pub fresh : All (λ x. hash_of x ≢ row.token_hash) db.access_tokens
  pub rows : after.access_tokens ≡ db.access_tokens ++ row ∷ []
  pub loads :
      load_token
        (after.idempotency (token_scope params.mutation) params.mutation.idempotency_key)
        params.mutation.request_hash
      ≡ ok (some issued)

module _ (encode : Bytes → String) (digest : String → String) where
  issue_token-ok :
      (entropy : Entropy) (k now : ℕ) (params : CreateAccessTokenParams) (ttl : ℕ) (db : Db)
      (issued : AccessToken) (after : Db)
      → issue_token encode digest entropy k now params ttl db ≡ ok (issued, after)
      → (raw : Bytes) × (entropy k ≡ some raw)
        × (issued.token ≡ encode raw)
        × Issued digest now params ttl db issued after
  unfolding issue_token
  issue_token-ok entropy k now params ttl db issued after h =
      let (w, _, h₁) =
        >>=-eq-ok
          (or_fail
            (find (λ (x : Workspace). str_eq x.id (to_lower params.workspace_id)) db.workspaces)
            not_found)
          _ h in
      let (raw, e, h₂) = >>=-eq-ok (or_fail (entropy k) (failure "generate access token")) _ h₁ in
      let (id, _, h₃) = >>=-eq-ok (new_uuid entropy (k + 1)) _ h₂ in
      let (inserted, e₁, h₄) = >>=-eq-ok (insert_token _ db) _ h₃ in
      let (fresh, added) = insert_token-ok _ db inserted e₁ in
      let (published, e₂, h₅) =
        >>=-eq-ok (insert_domain_event entropy (k + 2) _ _ _ _ now inserted) _ h₄ in
      let said = insert_domain_event-ok entropy (k + 2) _ _ _ _ now inserted published e₂ in
      let (audited, e₃, h₆) =
        >>=-eq-ok
          (insert_audit_event entropy (k + 3) params.mutation (token_audit id w.project_id) now
            published)
          _ h₅ in
      let logged =
        insert_audit_event-ok entropy (k + 3) params.mutation (token_audit id w.project_id) now
          published audited e₃ in
      let (recorded, e₄, h₇) =
        >>=-eq-ok (record_token (token_scope params.mutation) params.mutation _ now audited) _ h₆ in
      let (kept, loads) =
        record_token-ok (token_scope params.mutation) params.mutation _ now audited recorded e₄ in
      let rows =
        kept
        ∙ logged.same.access_tokens
        ∙ said.same.access_tokens
        ∙ ap (λ d. d.access_tokens) added in
      let same = ok-injective h₇ in
      subst
        (λ x.
          (raw : Bytes) × (entropy k ≡ some raw)
          × (x.0.token ≡ encode raw)
          × Issued digest now params ttl db x.0 x.1)
        same
        (
          raw,
          or_fail-eq-ok (entropy k) _ e,
          refl,
          record {
            row = _;
            same_id = refl;
            hashed = refl;
            unrevoked = refl;
            expires = refl;
            created = refl;
            of_workspace = refl;
            of_type = refl;
            announced = refl;
            fresh = fresh;
            rows = rows;
            loads = loads;
          },
        )

  -- A request that succeeded read a stored response, or issued a token for at most an hour.
  pub create_access_token-ok :
      (entropy : Entropy) (k now : ℕ) (params : CreateAccessTokenParams) (db : Db)
      (issued : AccessToken) (after : Db)
      → create_access_token encode digest entropy k now params db ≡ ok (issued, after)
      → (load_token
            (after.idempotency (token_scope params.mutation) params.mutation.idempotency_key)
            params.mutation.request_hash
          ≡ ok (some issued))
        × ((after ≡ db)
            ⊎ ((ttl : ℕ) × (0 < ttl)
                × (ttl ≤ 3600 * second)
                × (raw : Bytes) × (entropy k ≡ some raw)
                × (issued.token ≡ encode raw)
                × Issued digest now params ttl db issued after))
  unfolding create_access_token
  create_access_token-ok entropy k now params db issued after h =
      let h₁ = fail_if-ok (not (is_uuid params.workspace_id)) _ _ h in
      let h₂ = fail_if-ok (not (is_known_access params.access_type)) _ _ h₁ in
      let ttl = if leb_ℤ params.ttl (pos 0) then pos (600 * second) else params.ttl in
      let (_, c, h₃) = >>=-eq-ok (fail_if (ltb_ℤ (pos (3600 * second)) ttl) invalid) _ h₂ in
      let short = fail_if-eq-ok (ltb_ℤ (pos (3600 * second)) ttl) _ c in
      let (_, _, h₄) = >>=-eq-ok (validate_mutation_context params.mutation) _ h₃ in
      let entry = db.idempotency (token_scope params.mutation) params.mutation.idempotency_key in
      let (found, e, h₅) = >>=-eq-ok (load_token entry params.mutation.request_hash) _ h₄ in
      elim (Option-cases found) [
        | inr (replay, same) ↦
            let out = ok-injective (rw same at h₅) in
            rw (← ap (λ x. x.0) out, ← ap (λ x. x.1) out) (e ∙ ap ok same, inl refl)
        | inl same ↦
            let (raw, read, coded, issue) =
              issue_token-ok entropy k now params (pos_part ttl) db issued after (rw same at h₅) in
            (issue.loads, inr (pos_part ttl, ground arith, ground arith, raw, read, coded, issue))
      ]

-- A revocation that was no replay found a valid row and made it invalid.
pub revoke_access_token-ok :
    (entropy : Entropy) (k now : ℕ) (params : RevokeAccessTokenParams) (db : Db) (a : Acceptance)
    (after : Db)
    → revoke_access_token entropy k now params db ≡ ok (a, after)
    → ((a.replayed ≡ true) × (after ≡ db))
      ⊎ ((a.replayed ≡ false)
          × (any
                (is_revocable (to_lower params.token_id) (to_lower params.workspace_id))
                db.access_tokens
              ≡ true)
          × (after.access_tokens
              ≡ update
                  (is_revocable (to_lower params.token_id) (to_lower params.workspace_id))
                  (revoked now)
                  db.access_tokens))
unfolding revoke_access_token apply_revoke
revoke_access_token-ok entropy k now params db a after h =
    let h₁ =
      fail_if-ok (not (is_uuid params.workspace_id) || not (is_uuid params.token_id)) _ _ h in
    let (w, _, h₂) =
      >>=-eq-ok
        (or_fail
          (find (λ (x : Workspace). str_eq x.id (to_lower params.workspace_id)) db.workspaces)
          not_found)
        _ h₁ in
    elim (accept_mutation_once entropy k now params.mutation (revoke_spec params w.project_id) db a
      after h₂) [
        | inl r ↦ inl r
        | inr (fresh, applied, did, adds) ↦
            let p = is_revocable (to_lower params.token_id) (to_lower params.workspace_id) in
            let (_, c, made) = >>=-eq-ok (fail_if (not (any p db.access_tokens)) not_found) _ did in
            let hit = fail_if-eq-ok (not (any p db.access_tokens)) _ c in
            inr (
              fresh,
              ground arith,
              adds.same.access_tokens ∙ sym (ap (λ d. d.access_tokens) (ok-injective made)),
            )
      ]
