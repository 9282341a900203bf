-- ===== src/Storage/Outbox/Held.antt =====
-- What a claim holds against the calls that follow it, until its lease ends.
use gpu_rental_platform.Common.{
  Option, [], ◌∷◌, Bool, append-Row, append-Row, Bool, [], ◌∷◌, ℕ, ◌<◌, String, ◌≡◌, ◌≢◌, ◌⊎◌, sym,
  ap, ◌∙◌, true, false, none, some, Option, arith, eq_iff, ok, Row, update-Row, Unique, Unique-Row,
  >>=-eq-ok, fail_if-ok,
}
use gpu_rental_platform.Common.Int.{ℤ, pos, pos_part, ltb_ℤ}
use gpu_rental_platform.Common.Text.{to_lower}
use gpu_rental_platform.Storage.Db.{Event}
use gpu_rental_platform.Storage.Outbox.{
  locked_for, Events, ClaimParams, is_claimable, lease, claim, validate_lease, holds_lease, finish,
  mark_delivered, mark_failed, mark_dead_lettered, millisecond,
}
use gpu_rental_platform.Storage.Outbox.Laws.{lease_end, claim-Unique, Row-claim, Row-claim_after}
use gpu_rental_platform.Storage.Outbox.Steps.{
  Step, claims, delivers, fails, gives_up, inserts, finish-ok, claim-Row, Step-Keeps,
}

-- A mark that names another event, another worker or another attempt than a claimed row.
abbrev pub IsAnother : Event → String → String → ℤ → Type 0
IsAnother b id worker generation =
    (to_lower id ≢ b.id) ⊎ (b.locked_by ≢ some worker) ⊎ (pos_part generation ≢ b.attempts)

-- A call that comes before the lease ends, if it is a claim, and is not the mark of the claimer.
abbrev pub IsForeign : (b : Event) (until : ℕ) {es after : Events} → Step es after → Type 0
IsForeign b until (claims p now got h) = now < until
IsForeign b until (delivers id worker generation now h) = IsAnother b id worker generation
IsForeign b until (fails id worker generation message backoff now h) =
    IsAnother b id worker generation
IsForeign b until (gives_up id worker generation message now h) = IsAnother b id worker generation
IsForeign b until (inserts e fresh) = Unit

-- A sequence of such calls, by any workers.
pub data Meanwhile (b : Event) (until : ℕ) (es : Events) : Events → Type 0 where
  at_once : Meanwhile b until es es
  behind :
      {mid after : Events}
      → Meanwhile b until es mid
      → (s : Step mid after) → IsForeign b until s
      → Meanwhile b until es after

leased_not_claimable :
    (b : Event) (until now : ℕ) (event_type : String)
    → b.locked_until ≡ some until
    → now < until
    → is_claimable event_type now b ≡ false
unfolding is_claimable
leased_not_claimable b until now event_type l h = ground arith

locked_for-some :
    (l : Option String) (worker : String) → locked_for l worker ≡ true → l ≡ some worker
locked_for-some none worker h = cc
locked_for-some (some w) worker h = ap some ((eq_iff w worker).0 h)

another_not_held :
    (b : Event) (id worker : String) (generation : ℤ) (now : ℕ)
    → IsAnother b id worker generation
    → holds_lease id worker generation now b ≡ false
unfolding holds_lease
another_not_held b id worker generation now f =
    ground (arith, eq_iff b.id (to_lower id), locked_for-some b.locked_by worker)

finish-Row :
    (held : Event → Bool) (f : Event → Event) (es after : Events) (b : Event)
    → finish held f es ≡ ok after
    → held b ≡ false
    → Row b es
    → Row b after
finish-Row held f es after b h free m =
    rw (← (finish-ok held f es after h).1) (rw free at (update-Row held f b es m))

Step-Row :
    {es after : Events} (b : Event) (until : ℕ)
    → Unique (λ e. e.id) es
    → b.locked_until ≡ some until
    → (s : Step es after) → IsForeign b until s
    → Row b es
    → Row b after
unfolding mark_delivered mark_failed mark_dead_lettered
Step-Row {es} {after} b until u l (claims p now got h) f m =
    claim-Row p now es after got b u h (leased_not_claimable b until now p.event_type l f) m
Step-Row {es} {after} b until u l (delivers id worker generation now h) f m =
    let (_, _, k) = >>=-eq-ok (validate_lease id worker generation) _ h in
    finish-Row _ _ es after b k (another_not_held b id worker generation now f) m
Step-Row {es} {after} b until u l (fails id worker generation message backoff now h) f m =
    let (_, _, k) = >>=-eq-ok (validate_lease id worker generation) _ h in
    let k' = fail_if-ok (ltb_ℤ backoff (pos millisecond)) _ _ k in
    finish-Row _ _ es after b k' (another_not_held b id worker generation now f) m
Step-Row {es} {after} b until u l (gives_up id worker generation message now h) f m =
    let (_, _, k) = >>=-eq-ok (validate_lease id worker generation) _ h in
    finish-Row _ _ es after b k (another_not_held b id worker generation now f) m
Step-Row {es} b until u l (inserts e fresh) f m = append-Row b es (e ∷ []) m

Meanwhile-Row :
    (b : Event) (until : ℕ) {es after : Events}
    → Unique (λ e. e.id) es
    → b.locked_until ≡ some until
    → Row b es
    → Meanwhile b until es after
    → Unique (λ e. e.id) after × Row b after
Meanwhile-Row b until u l m at_once = (u, m)
Meanwhile-Row b until u l m (behind r s f) =
    let (u', m') = Meanwhile-Row b until u l m r in
    ((Step-Keeps u' s).0, Step-Row b until u' l s f m')

-- A claimed row stands as it was claimed behind any such sequence.
pub claimed_stands :
    (p : ClaimParams) (now : ℕ) (es after got later : Events) (b : Event)
    → Unique (λ e. e.id) es
    → claim p now es ≡ ok (after, got)
    → Row b got
    → Meanwhile b (lease_end p now) after later
    → Unique (λ e. e.id) later
      × Row b later
      × (b.locked_by ≡ some p.worker_id)
      × (b.locked_until ≡ some (lease_end p now))
unfolding lease
claimed_stands p now es after got later b u h m r =
    let (a, _, _, leased) = Row-claim p now es after got b u h m in
    let by : b.locked_by ≡ some p.worker_id = sym (ap (λ (x : Event). x.locked_by) leased) in
    let until : b.locked_until ≡ some (lease_end p now) =
      sym (ap (λ (x : Event). x.locked_until) leased) in
    let (u', m') =
      Meanwhile-Row b (lease_end p now) (claim-Unique p now es after got u h) until
        (Row-claim_after p now es after got b h m) r in
    (u', m', by, until)

-- Where ids are unique, and behind a claim come calls of any workers, of which the claims come before
-- the lease ends and no mark is that of the claiming worker and attempt for the event: the claimed row
-- stands unchanged, and no claim before the end of the lease hands the event out again.
pub claim_exclusive :
    (p : ClaimParams) (now : ℕ) (es after got later : Events) (b : Event)
    → Unique (λ e. e.id) es
    → claim p now es ≡ ok (after, got)
    → Row b got
    → Meanwhile b (lease_end p now) after later
    → Row b later
      × ((q : ClaimParams) (time : ℕ) (after' got' : Events) (b' : Event)
          → time < lease_end p now
          → claim q time later ≡ ok (after', got')
          → Row b' got'
          → b.id ≢ b'.id)
unfolding lease
claim_exclusive p now es after got later b u h m r =
    let (u', m', _, until) = claimed_stands p now es after got later b u h m r in
    (
      m',
      λ q time after' got' b' before h' n same.
          let (a, row, due, leased) = Row-claim q time later after' got' b' u' h' n in
          let key : a.id ≡ b.id = ap (λ (e : Event). e.id) leased ∙ sym same in
          let one : a ≡ b = Unique-Row (λ x. x.id) a b later u' row m' key in
          let never = leased_not_claimable b (lease_end p now) time q.event_type until before in
          let due' : is_claimable q.event_type time b ≡ true = rw one at due in cc,
    )
