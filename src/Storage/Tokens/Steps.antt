-- ===== src/Storage/Tokens/Steps.antt =====
-- Runs of the operations on access tokens.
use gpu_rental_platform.Common.{
  inl, inr, ◌≡◌, ◌≢◌, refl, ℕ, String, Bool, false, none, some, List, [], ◌∷◌, ok, err, All, Row,
  Unique, find, arith, not_found, str_eq, not, ◌&&◌, ltb, eq_iff, Bool-cases, is_some, Row-any,
  update-Row, append-Row, Unique-update, Unique-append, All-Row,
}
use gpu_rental_platform.Common.Text.{trim_space, to_lower}
use gpu_rental_platform.Identity.{Bytes, Entropy}
use gpu_rental_platform.Tenancy.{Acceptance}
use gpu_rental_platform.Workspace.{AccessToken, CreateAccessTokenParams, RevokeAccessTokenParams}
use gpu_rental_platform.Storage.Db.{Db, TokenRow}
use gpu_rental_platform.Storage.Tokens.{
  create_access_token, inspect_access_token, is_revocable, revoked, revoke_access_token,
}
use gpu_rental_platform.Storage.Tokens.Laws.{
  hash_of, create_access_token-ok, revoke_access_token-ok,
}

-- The rows that an inspection takes.
abbrev pub is_valid : String → ℕ → TokenRow → Bool
is_valid hash now t = str_eq t.token_hash hash && not (is_some t.revoked_at) && ltb now t.expires_at

pub find_absent :
    (k : String) (now : ℕ) (ts : List TokenRow)
    → All (λ y. hash_of y ≢ k) ts
    → find (is_valid k now) ts ≡ none
find_absent k now [] h = refl
find_absent k now (y ∷ ys) h = ground (arith, eq_iff y.token_hash k, find_absent k now ys h.1)

-- A hash of which the one row is revoked is not found.
find_revoked :
    (t : TokenRow) (r now : ℕ) (ts : List TokenRow)
    → Unique hash_of ts
    → Row t ts
    → t.revoked_at ≡ some r
    → find (is_valid t.token_hash now) ts ≡ none
find_revoked t r now [] u m e = absurd m
find_revoked t r now (x ∷ xs) u (inl same) e =
    let absent = find_absent t.token_hash now xs (rw same at u.0) in ground arith
find_revoked t r now (x ∷ xs) u (inr m) e =
    let apart = All-Row (λ y. hash_of y ≢ hash_of x) xs u.0 m in
    let rest = find_revoked t r now xs u.1 m e in ground (arith, eq_iff x.token_hash t.token_hash)

module _ (encode : Bytes → String) (digest : String → String) where
  -- One committed transaction: a token is issued or revoked, or none is touched.
  pub data Step (db after : Db) : Type 0 where
    issues :
        (entropy : Entropy) (k now : ℕ) (params : CreateAccessTokenParams) (t : AccessToken)
        → create_access_token encode digest entropy k now params db ≡ ok (t, after)
        → Step db after
    revokes :
        (entropy : Entropy) (k now : ℕ) (params : RevokeAccessTokenParams) (a : Acceptance)
        → revoke_access_token entropy k now params db ≡ ok (a, after)
        → Step db after
    leaves : after.access_tokens ≡ db.access_tokens → Step db after

  pub data Reach (db : Db) : Db → Type 0 where
    start : Reach db db
    next : (mid after : Db) → Reach db mid → Step mid after → Reach db after

  Step-Unique :
      (db after : Db)
      → Unique hash_of db.access_tokens
      → Step db after
      → Unique hash_of after.access_tokens
  Step-Unique db after u (issues entropy k now params issued h) =
      let (_, cases) =
        create_access_token-ok encode digest entropy k now params db issued after h in
      elim cases [
        | inl same ↦ rw same u
        | inr (_, _, _, _, _, _, i) ↦
            rw (i.rows) (Unique-append hash_of db.access_tokens i.row u i.fresh)
      ]
  Step-Unique db after u (revokes entropy k now params a h) =
      elim (revoke_access_token-ok entropy k now params db a after h) [
        | inl (_, same) ↦ rw same u
        | inr (_, _, rows) ↦ rw rows (
            Unique-update hash_of
              (is_revocable (to_lower params.token_id) (to_lower params.workspace_id)) (revoked now)
              (λ x. refl) db.access_tokens u)
      ]
  Step-Unique db after u (leaves same) = rw same u

  Reach-Unique :
      (db after : Db)
      → Unique hash_of db.access_tokens
      → Reach db after
      → Unique hash_of after.access_tokens
  Reach-Unique db _ u start = u
  Reach-Unique db after u (next mid _ run step) =
      Step-Unique mid after (Reach-Unique db mid u run) step

  Step-revoked :
      (db after : Db) (t : TokenRow) (r : ℕ)
      → Row t db.access_tokens
      → t.revoked_at ≡ some r
      → Step db after
      → Row t after.access_tokens
  Step-revoked db after t r m e (issues entropy k now params issued h) =
      let (_, cases) =
        create_access_token-ok encode digest entropy k now params db issued after h in
      elim cases [
        | inl same ↦ rw same m
        | inr (_, _, _, _, _, _, i) ↦ rw (i.rows) (append-Row t db.access_tokens (i.row ∷ []) m)
      ]
  Step-revoked db after t r m e (revokes entropy k now params a h) =
      elim (revoke_access_token-ok entropy k now params db a after h) [
        | inl (_, same) ↦ rw same m
        | inr (_, _, rows) ↦
            let p = is_revocable (to_lower params.token_id) (to_lower params.workspace_id) in
            let row = update-Row p (revoked now) t db.access_tokens m in
            let no : p t ≡ false = ground arith in rw rows (rw no at row)
      ]
  Step-revoked db after t r m e (leaves same) = rw same m

  Reach-revoked :
      (db after : Db) (t : TokenRow) (r : ℕ)
      → Row t db.access_tokens
      → t.revoked_at ≡ some r
      → Reach db after
      → Row t after.access_tokens
  Reach-revoked db _ t r m e start = m
  Reach-revoked db after t r m e (next mid _ run step) =
      Step-revoked mid after t r (Reach-revoked db mid t r m e run) e step

  -- Where no two rows have one hash: a revocation that succeeds and is no replay is one of a row with
  -- that id and workspace, and after it, in every run of issues, revocations and of what leaves the
  -- tokens alone, and at any time, every text with the hash of that row is refused.
  pub revoked_forever :
      (entropy : Entropy) (k at : ℕ) (params : RevokeAccessTokenParams) (db : Db) (a : Acceptance)
      (mid : Db)
      → Unique hash_of db.access_tokens
      → revoke_access_token entropy k at params db ≡ ok (a, mid)
      → a.replayed ≡ false
      → (t : TokenRow) × Row t db.access_tokens
        × (t.id ≡ to_lower params.token_id)
        × (t.workspace_id ≡ to_lower params.workspace_id)
        × ((after : Db) (now : ℕ) (token : String)
            → Reach mid after
            → digest (trim_space token) ≡ t.token_hash
            → inspect_access_token encode digest now token after ≡ err not_found)
  unfolding inspect_access_token
  revoked_forever entropy k at params db a mid u h fresh =
      elim (revoke_access_token-ok entropy k at params db a mid h) [
        | inl (replayed, _) ↦ absurd (ground arith)
        | inr (_, hit, rows) ↦
            let p = is_revocable (to_lower params.token_id) (to_lower params.workspace_id) in
            let (t, m, held) = Row-any p db.access_tokens hit in
            let row = update-Row p (revoked at) t db.access_tokens m in
            let row' : Row (revoked at t) mid.access_tokens = rw rows (rw held at row) in
            (
              t,
              m,
              ground (arith, eq_iff t.id (to_lower params.token_id)),
              ground (arith, eq_iff t.workspace_id (to_lower params.workspace_id)),
              λ after now token run e.
                  let kept = Reach-revoked mid after (revoked at t) at row' refl run in
                  let once =
                    Reach-Unique mid after (Step-Unique db mid u (revokes entropy k at params a h))
                      run in
                  let gone =
                    find_revoked (revoked at t) at now after.access_tokens once kept refl in
                  elim (Bool-cases (str_eq (trim_space token) "")) [
                    | inl blank ↦ rw blank refl
                    | inr filled ↦ rw (filled, e, gone) refl
                  ],
            )
      ]
