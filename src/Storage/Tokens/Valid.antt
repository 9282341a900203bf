-- ===== src/Storage/Tokens/Valid.antt =====
-- How long a token is valid, and a request for a token that is sent again.
use gpu_rental_platform.Common.{
  ok-injective, or_fail-eq-ok, Row-find, or_fail, >>=-eq-ok, not_found, fail_if-ok, if◌then◌else◌,
  ap, inl, inr, ◌≡◌, ◌≤◌, ◌<◌, sym, refl, ℕ, ◌+◌, ◌*◌, String, true, false, none, some, [], ◌∷◌, ok,
  err, Option, All, Row, find, arith, str_eq, ltb, eq_iff, eq_refl, Bool-cases, is_some,
  find-append, All-update, All-append, All-Row,
}
use gpu_rental_platform.Common.Text.{trim_space, to_lower}
use gpu_rental_platform.Common.Int.{pos, ltb_ℤ, leb_ℤ}
use gpu_rental_platform.Identity.{Bytes, Entropy, is_uuid}
use gpu_rental_platform.Workspace.{AccessToken, AccessTokenInfo, CreateAccessTokenParams, second}
use gpu_rental_platform.Storage.Db.{Db, TokenRow, empty_db}
use gpu_rental_platform.Storage.Mutation.{validate_mutation_context}
use gpu_rental_platform.Storage.Tokens.{
  create_access_token, inspect_access_token, is_revocable, revoked, is_known_access, token_scope,
  load_token,
}
use gpu_rental_platform.Storage.Tokens.Laws.{create_access_token-ok, revoke_access_token-ok}
use gpu_rental_platform.Storage.Tokens.Steps.{
  Step, issues, revokes, leaves, Reach, start, next, is_valid, find_absent,
}

module _ (encode : Bytes → String) (digest : String → String) where
  -- Where the random bytes that the call reads are encoded as a text without white space at its ends
  -- that is not empty: a token that a request issues, being no replay, is accepted until it expires, for its workspace and with its type
  -- and end of life, and refused from then on.
  pub issued_is_valid :
      (entropy : Entropy) (k now : ℕ) (params : CreateAccessTokenParams) (db : Db)
      (issued : AccessToken) (after : Db)
      → ((raw : Bytes) → entropy k ≡ some raw → trim_space (encode raw) ≡ encode raw)
      → ((raw : Bytes) → entropy k ≡ some raw → str_eq (encode raw) "" ≡ false)
      → db.idempotency (token_scope params.mutation) params.mutation.idempotency_key ≡ none
      → create_access_token encode digest entropy k now params db ≡ ok (issued, after)
      → (later : ℕ)
      → inspect_access_token encode digest later issued.token after ≡ (
          if ltb later issued.expires_at
          then ok (record {
            id = issued.id;
            workspace_id = to_lower params.workspace_id;
            access_type = params.access_type;
            expires_at = issued.expires_at;
          })
          else err not_found)
  unfolding inspect_access_token load_token
  issued_is_valid entropy k now params db issued after trims filled unused h later =
      let (loads, cases) =
        create_access_token-ok encode digest entropy k now params db issued after h in
      elim cases [
        | inl same ↦ absurd (let kept = rw (same, unused) at loads in cc)
        | inr (ttl, _, _, raw, read, coded, i) ↦
            let trimmed : trim_space issued.token ≡ issued.token = rw coded (trims raw read) in
            let shown : str_eq issued.token "" ≡ false = rw coded (filled raw read) in
            let before = find_absent i.row.token_hash later db.access_tokens i.fresh in
            let behind =
              find-append (is_valid i.row.token_hash later) db.access_tokens (i.row ∷ []) before in
            elim (Bool-cases (ltb later (now + ttl))) [
              | inl t ↦
                  rw
                    (
                      trimmed,
                      shown,
                      ← i.hashed,
                      i.rows,
                      behind,
                      i.announced,
                      i.expires,
                      i.unrevoked,
                      eq_refl i.row.token_hash,
                      t,
                      i.same_id,
                      i.of_workspace,
                      i.of_type,
                    )
                    refl
              | inr t ↦
                  rw
                    (
                      trimmed,
                      shown,
                      ← i.hashed,
                      i.rows,
                      behind,
                      i.announced,
                      i.expires,
                      i.unrevoked,
                      eq_refl i.row.token_hash,
                      t,
                    )
                    refl
            ]
      ]

  -- Whenever a request for a token succeeds, every valid later request of the same context, at any
  -- time, for any workspace and with any type and any lifetime of at most an hour, on any tables that
  -- still have the entry of the key, gives the same token and changes nothing.
  pub create_access_token_retry :
      (entropy : Entropy) (k now : ℕ) (params : CreateAccessTokenParams) (db : Db)
      (issued : AccessToken) (after : Db)
      → create_access_token encode digest entropy k now params db ≡ ok (issued, after)
      → (entropy' : Entropy) (k' now' : ℕ) (again : CreateAccessTokenParams) (later : Db)
      → again.mutation ≡ params.mutation
      → is_uuid again.workspace_id ≡ true
      → is_known_access again.access_type ≡ true
      → ltb_ℤ (pos (3600 * second)) again.ttl ≡ false
      → validate_mutation_context params.mutation ≡ ok tt
      → later.idempotency (token_scope params.mutation) params.mutation.idempotency_key
        ≡ after.idempotency (token_scope params.mutation) params.mutation.idempotency_key
      → create_access_token encode digest entropy' k' now' again later ≡ ok (issued, later)
  unfolding create_access_token
  create_access_token_retry entropy k now params db issued after h entropy' k' now' again later same
        uuid known short valid entry =
      let (loads, _) =
        create_access_token-ok encode digest entropy k now params db issued after h in
      let within : ltb_ℤ (pos (3600 * second))
            (if leb_ℤ again.ttl (pos 0) then pos (600 * second) else again.ttl)
          ≡ false =
        ground arith in
      rw (uuid, known, within, same, valid, entry, loads) refl

  -- Alive for at most an hour.
  abbrev IsShort : TokenRow → Type 0
  IsShort t = (t.created_at < t.expires_at) × (t.expires_at ≤ t.created_at + 3600 * second)

  Step-IsShort :
      (db after : Db)
      → All IsShort db.access_tokens
      → Step encode digest db after
      → All IsShort after.access_tokens
  Step-IsShort db after good (issues entropy k now params issued h) =
      let (_, cases) =
        create_access_token-ok encode digest entropy k now params db issued after h in
      elim cases [
        | inl same ↦ rw same good
        | inr (ttl, positive, bounded, _, _, _, i) ↦
            let lives = i.expires in
            let born = i.created in
            rw (i.rows) (
              All-append IsShort db.access_tokens (i.row ∷ []) good
                ((ground arith, ground arith), tt))
      ]
  Step-IsShort db after good (revokes entropy k now params a h) =
      elim (revoke_access_token-ok entropy k now params db a after h) [
        | inl (_, same) ↦ rw same good
        | inr (_, _, rows) ↦ rw rows (
            All-update IsShort
              (is_revocable (to_lower params.token_id) (to_lower params.workspace_id)) (revoked now)
              db.access_tokens good (λ x p. p))
      ]
  Step-IsShort db after good (leaves same) = rw same good

  -- In every run from empty tables, a text is accepted as a token only for a row that is not revoked,
  -- has its hash, was created at most an hour before its end, and has not reached that end.
  pub inspect_sound :
      (db : Db) (now : ℕ) (token : String) (info : AccessTokenInfo)
      → Reach encode digest empty_db db
      → inspect_access_token encode digest now token db ≡ ok info
      → (t : TokenRow) × Row t db.access_tokens
        × (t.token_hash ≡ digest (trim_space token))
        × (t.revoked_at ≡ none)
        × (now < t.expires_at)
        × (t.expires_at ≤ t.created_at + 3600 * second)
        × (info.id ≡ t.id)
        × (info.workspace_id ≡ t.workspace_id)
  unfolding inspect_access_token
  inspect_sound db now token info run h =
      let h₁ = fail_if-ok (str_eq (trim_space token) "") _ _ h in
      let hash = digest (trim_space token) in
      let (t, e, h₂) =
        >>=-eq-ok (or_fail (find (is_valid hash now) db.access_tokens) not_found) _ h₁ in
      let (m, valid) =
        Row-find (is_valid hash now) t db.access_tokens
          (or_fail-eq-ok (find (is_valid hash now) db.access_tokens) _ e) in
      let (_, short) = All-Row IsShort db.access_tokens (all_short db run) m in
      let out = ok-injective h₂ in
      (
        t,
        m,
        ground (arith, eq_iff t.token_hash hash),
        unrevoked t.revoked_at (ground arith),
        ground arith,
        short,
        sym (ap (λ x. x.id) out),
        sym (ap (λ x. x.workspace_id) out),
      )
    where
      all_short :
          (after : Db) → Reach encode digest empty_db after → All IsShort after.access_tokens
      all_short _ start = tt
      all_short after (next mid _ path step) = Step-IsShort mid after (all_short mid path) step

      unrevoked : (o : Option ℕ) → is_some o ≡ false → o ≡ none
      unrevoked none e = refl
      unrevoked (some r) e = cc
