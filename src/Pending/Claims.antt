-- ===== src/Pending/Claims.antt =====
-- src/connection.rs, `claim_submit_attempts`: which frames of a batch the writer may write.
use cmppprotocol.Prelude.{
  true-≢false, ℕ, ◌≡◌, ◌≢◌, ◌⊎◌, inl, inr, refl, sym, ap, ◌∙◌, List, [], ◌∷◌, All, All-map, Option,
  none, some, Bool, true, false, not, if◌then◌else◌, ◌==◌, Bool-cases, Option-cases, ==_iff,
}
use cmppprotocol.Pending.{
  ConnectionPhase, SubmitAttemptState, queued, writing, awaiting_response, responded_while_writing,
  PendingSubmit, SubmitAttemptKey, Outbound, Pending, put, Change, unchanged, change_entry,
  claim_state, claim_one, claim_outbound, claim_batch, allowed_in, claim_submit_attempts,
}
use cmppprotocol.Pending.Once.{on_entry-some, on_entry-none}

-- The attempt waits in the queue, under this submission.
abbrev pub Claimable : Pending → SubmitAttemptKey → Type 0
Claimable p key =
    (e : PendingSubmit) × (p key.sequence_id ≡ some e)
    × (e.submission_id ≡ key.submission_id)
    × (e.state ≡ queued key.attempt)

data Claim (allowed : Bool) (p : Pending) (key : SubmitAttemptKey) : Type 0 where
  refused : claim_one allowed p key ≡ (false, p) → Claim allowed p key
  claimed :
      (e : PendingSubmit)
      → allowed ≡ true
      → p key.sequence_id ≡ some e
      → e.submission_id ≡ key.submission_id
      → e.state ≡ queued key.attempt
      → claim_one allowed p key
        ≡ (true, put p key.sequence_id (some (record e { state = writing key.attempt })))
      → Claim allowed p key

abbrev test : SubmitAttemptKey → PendingSubmit → Change
test key e =
    if not (e.submission_id == key.submission_id)
    then unchanged
    else claim_state e.state key.attempt

claim : (allowed : Bool) (p : Pending) (key : SubmitAttemptKey) → Claim allowed p key
unfolding claim_one claim_state
claim false p key = refused refl
claim true p key = elim (Option-cases (p key.sequence_id)) [
  | inl n ↦ refused (on_entry-none p key.sequence_id (test key) n)
  | inr (e, s) ↦ elim (Bool-cases (e.submission_id == key.submission_id)) [
    | inr other ↦ refused (on_entry-some p key.sequence_id e (test key) s ∙ rw other)
    | inl same ↦ by_state e e.state s ((==_iff e.submission_id key.submission_id).0 same) same refl
  ]
]
  where
    told :
        (e : PendingSubmit) (st : SubmitAttemptState)
        → p key.sequence_id ≡ some e
        → (e.submission_id == key.submission_id) ≡ true
        → e.state ≡ st
        → claim_one true p key ≡ change_entry p key.sequence_id e (claim_state st key.attempt)
    told e st s t h = on_entry-some p key.sequence_id e (test key) s ∙ rw (t, h)

    by_state :
        (e : PendingSubmit) (st : SubmitAttemptState)
        → p key.sequence_id ≡ some e
        → e.submission_id ≡ key.submission_id
        → (e.submission_id == key.submission_id) ≡ true
        → e.state ≡ st
        → Claim true p key
    by_state e (queued a) s i t h = elim (Bool-cases (a == key.attempt)) [
      | inl y ↦
          claimed e refl s i (h ∙ ap queued ((==_iff a key.attempt).0 y))
            (told e (queued a) s t h ∙ rw y)
      | inr n ↦ refused (told e (queued a) s t h ∙ rw n)
    ]
    by_state e (writing a) s i t h = refused (told e (writing a) s t h)
    by_state e (awaiting_response a w) s i t h = refused (told e (awaiting_response a w) s t h)
    by_state e (responded_while_writing a) s i t h =
        refused (told e (responded_while_writing a) s t h)

-- What a claim leaves claimable was so before, under another number.
Claimable-before :
    (p : Pending) (e : PendingSubmit) (id k : ℕ) (key : SubmitAttemptKey)
    → Claimable (put p id (some (record e { state = writing k }))) key
    → Claimable p key × (key.sequence_id ≢ id)
Claimable-before p e id k key (d, s, i, q) = elim (Bool-cases (key.sequence_id == id)) [
  | inl y ↦ let m : writing k ≡ queued key.attempt = ap state_of (rw y at s) ∙ q in absurd (apart m)
  | inr n ↦ (
    (d, (rw n at s), i, q),
    λ h. absurd (true-≢false (sym ((==_iff key.sequence_id id).1 h) ∙ n)),
  )
]
  where
    state_of : Option PendingSubmit → SubmitAttemptState
    state_of none = queued 0
    state_of (some f) = f.state

    apart : writing k ≢ queued key.attempt
    apart h = cc

-- A frame that the writer may write: no SUBMIT, or an attempt that waits in the queue while SUBMITs are let out.
abbrev pub Cleared : Bool → Pending → Option SubmitAttemptKey → Type 0
Cleared allowed p none = Unit
Cleared allowed p (some key) = (allowed ≡ true) × Claimable p key

-- The frame is no attempt at this number.
abbrev pub Elsewhere : ℕ → Option SubmitAttemptKey → Type 0
Elsewhere id none = Unit
Elsewhere id (some key) = key.sequence_id ≢ id

abbrev pub ApartFrom : Option SubmitAttemptKey → Outbound → Type 0
ApartFrom none o = Unit
ApartFrom (some key) o = Elsewhere key.sequence_id o.submit_attempt

-- No two frames are attempts at the same number.
unfoldable pub Apart : List Outbound → Type 0
Apart [] = Unit
Apart (o ∷ os) = All (ApartFrom o.submit_attempt) os × Apart os

Cleared-before :
    (allowed : Bool) (p : Pending) (e : PendingSubmit) (id k : ℕ) (o : Option SubmitAttemptKey)
    → Cleared allowed (put p id (some (record e { state = writing k }))) o
    → Cleared allowed p o × Elsewhere id o
Cleared-before allowed p e id k none h = (tt, tt)
Cleared-before allowed p e id k (some key) (a, c) =
    let (d, n) = Claimable-before p e id k key c in ((a, d), n)

-- A frame let through: it is cleared, and what is cleared behind it was so before, and is apart from it.
record LetThrough (allowed : Bool) (p : Pending) (a : Option SubmitAttemptKey) (p' : Pending)
    : Type 0 where
  clear : Cleared allowed p a
  back :
      (q : Outbound)
      → Cleared allowed p' q.submit_attempt
      → Cleared allowed p q.submit_attempt × ApartFrom a q

let_through :
    (allowed : Bool) (p : Pending) (a : Option SubmitAttemptKey)
    → (claim_outbound allowed p a ≡ (false, p))
      ⊎ ((p' : Pending) × (claim_outbound allowed p a ≡ (true, p')) × LetThrough allowed p a p')
unfolding claim_outbound
let_through allowed p none = inr (p, refl, record { clear = tt; back = λ q h. (h, tt) })
let_through allowed p (some key) = elim (claim allowed p key) [
  | refused e ↦ inl e
  | claimed e a s i q r ↦ inr (
    put p key.sequence_id (some (record e { state = writing key.attempt })),
    r,
    record {
      clear = (a, (e, s, i, q));
      back = λ o h. Cleared-before allowed p e key.sequence_id key.attempt o.submit_attempt h;
    },
  )
]

claim_batch-Apart :
    (allowed : Bool) (p : Pending) (os : List Outbound)
    → All (λ (o : Outbound). Cleared allowed p o.submit_attempt) (claim_batch allowed p os).0
      × Apart (claim_batch allowed p os).0
unfolding claim_batch Apart
claim_batch-Apart allowed p [] = (tt, tt)
claim_batch-Apart allowed p (o ∷ os) = elim (let_through allowed p o.submit_attempt) [
  | inl e ↦ rw e (claim_batch-Apart allowed p os)
  | inr (p', e, c) ↦
      let (clear, apart) = claim_batch-Apart allowed p' os in
      let kept = (claim_batch allowed p' os).0 in
      let After = λ (q : Outbound). Cleared allowed p' q.submit_attempt in
      rw e (
        (
          c.clear,
          All-map After (λ q. Cleared allowed p q.submit_attempt) kept (λ q h. (c.back q h).0)
              clear,
        ),
        (All-map After (ApartFrom o.submit_attempt) kept (λ q h. (c.back q h).1) clear, apart),
      )
]

-- Of a batch the writer keeps frames that are no SUBMITs, and attempts that wait in the queue under
-- their submission, these only while the phase lets SUBMITs out, and at most one for each number.
pub claim_submit_attempts-Apart :
    (phase : ConnectionPhase) (drain : Bool) (p : Pending) (batch : List Outbound)
    → All
        (λ (o : Outbound). Cleared (allowed_in phase drain) p o.submit_attempt)
        (claim_submit_attempts phase drain p batch).0
      × Apart (claim_submit_attempts phase drain p batch).0
unfolding claim_submit_attempts
claim_submit_attempts-Apart phase drain p batch = claim_batch-Apart (allowed_in phase drain) p batch
