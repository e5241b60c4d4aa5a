-- ===== src/Lifecycle/Balance.antt =====
-- src/connection.rs: every step of a connection keeps the events that end SUBMITs in balance with the admissions.
use mathlib.Core.Path.{subst}
use cmppprotocol.Prelude.{
  ℕ, ◌+◌, ◌≤◌, ◌≡◌, inl, inr, refl, sym, ap, ◌∙◌, List, [], ◌∷◌, ◌++◌, Option, none, some, Bool,
  true, false, if◌then◌else◌, ◌==◌, arith, Bool-cases, ==_iff,
}
use cmppprotocol.Sequence.Registry.{contains}
use cmppprotocol.Pending.{
  ConnectionPhase, phase_open, phase_closing, phase_closed, queued, PendingSubmit, SubmitAttemptKey,
  SubmitResponse, Pending, put, respond_one,
}
use cmppprotocol.Timeouts.{time_out_one}
use cmppprotocol.Spool.{Event, submit_resp, submit_timeout}
use cmppprotocol.Lifecycle.{
  Conclusion, Submits, commit_submit, undecided, dropped_ids, dropped_events, fail_all_pending,
  respond, time_out, with_pending, count, present, Yields, Step, admitting, claiming, completing,
  responding, timing_out, requeueing, calling, failing, Steps, done, next, new_submits,
}
use cmppprotocol.Lifecycle.Ledger.{
  claim_one-open, complete_one-open, requeue_one-open, respond_one-open, time_out_one-open,
}
use cmppprotocol.Lifecycle.Counts.{ends, endings, open_at, open_at-none, Balanced}

-- Entries that are open as before.
same-Balanced :
    (s : Submits) (p : Pending)
    → Balanced s
    → ((x : ℕ) → open_at (p x) ≡ open_at (s.pending x))
    → Balanced (with_pending s p)
same-Balanced s p v same = record {
  balance = λ x. ap (λ (n : ℕ). endings x s.concluded + n) (same x) ∙ v.balance x;
  once = v.once;
}

-- One ending more, if an operation says so, and an entry less that is open.
ended-Balanced :
    (s : Submits) (p : Pending) (id : ℕ) (e : Event) (sent b : Bool)
    → ((x : ℕ) → ends x e ≡ (if x == id then 1 else 0))
    → Balanced s
    → ((x : ℕ)
        → open_at (p x) + (if x == id then (if b then 1 else 0) else 0) ≡ open_at (s.pending x))
    → Balanced
        (record s { pending = p; concluded = if b then (e, sent) ∷ s.concluded else s.concluded })
unfolding endings
ended-Balanced s p id e sent b one v moved = record {
  balance = λ x. by_answer x b (moved x);
  once = v.once;
}
  where
    by_answer :
        (x : ℕ) (b : Bool)
        → open_at (p x) + (if x == id then (if b then 1 else 0) else 0) ≡ open_at (s.pending x)
        → endings x (if b then (e, sent) ∷ s.concluded else s.concluded) + open_at (p x)
          ≡ count x s.admitted
    by_answer x true h = ground (arith, v.balance x, h, one x)
    by_answer x false h = ground (arith, v.balance x, h)

contains-count : (l : List ℕ) (x : ℕ) → contains l x ≡ false → count x l ≡ 0
unfolding contains count
contains-count [] x h = refl
contains-count (y ∷ ys) x h = ground (arith, h, contains-count ys x)

commit-Balanced :
    (lost : Bool) (s : Submits) (id submission_id : ℕ) (packet : List ℕ)
    → contains s.admitted id ≡ false
    → Balanced s
    → Balanced (commit_submit lost s id submission_id packet)
unfolding commit_submit count open_at undecided
commit-Balanced true s id submission_id packet new v = v
commit-Balanced false s id submission_id packet new v =
    elim s.admission.phase
      as (λ (c : ConnectionPhase). Balanced (elim c as (λ _. Submits) [
        | phase_open ↦ record s {
          pending = put s.pending id (some entry);
          admitted = id ∷ s.admitted;
        }
        | _ ↦ s
      ])) [
        | phase_open ↦ record { balance = balance; once = once }
        | phase_closing ↦ v
        | phase_closed ↦ v
      ]
  where
    entry : PendingSubmit
    entry = record { submission_id = submission_id; packet = packet; state = queued 1 }

    fresh : count id s.admitted ≡ 0
    fresh = contains-count s.admitted id new

    balance :
        (x : ℕ)
        → endings x s.concluded + open_at (put s.pending id (some entry) x)
          ≡ count x (id ∷ s.admitted)
    balance x = elim (Bool-cases (x == id)) [
      | inl y ↦
          let same : x ≡ id = (==_iff x id).0 y in
          rw (y, count, open_at, undecided)
            (omega (arith, v.balance x, ap (λ (k : ℕ). count k s.admitted) same, fresh))
      | inr n ↦ rw (n, count) (omega (arith, v.balance x))
    ]

    once : (x : ℕ) → count x (id ∷ s.admitted) ≤ 1
    once x = elim (Bool-cases (x == id)) [
      | inl y ↦
          let same : x ≡ id = (==_iff x id).0 y in
          rw (y, count) (omega (arith, ap (λ (k : ℕ). count k s.admitted) same, fresh))
      | inr n ↦ rw (n, count) (omega (arith, v.once x))
    ]

endings-dropped_events :
    (ids : List ℕ) (sent : ℕ → Bool) (l : List Conclusion) (x : ℕ)
    → endings x (dropped_events ids sent ++ l) ≡ count x ids + endings x l
unfolding endings dropped_events count ends
endings-dropped_events [] sent l x = omega arith
endings-dropped_events (id ∷ ids) sent l x = omega (arith, endings-dropped_events ids sent l x)

dropped_next :
    (p : Pending) (id x : ℕ) (ids : List ℕ)
    → count x (dropped_ids p ids) ≡ (if undecided (p x) then count x ids else 0)
    → count x (dropped_ids p (id ∷ ids)) ≡ (if undecided (p x) then count x (id ∷ ids) else 0)
unfolding dropped_ids count
dropped_next p id x ids rest = elim (Bool-cases (undecided (p id))) [
  | inl y ↦ elim (Bool-cases (x == id)) [
    | inl e ↦ rw (y, here e y) (rest_open (here e y))
    | inr e ↦ rw (y, e) (ground (arith, rest, e))
  ]
  | inr n ↦ elim (Bool-cases (x == id)) [
    | inl e ↦ rw (n, here e n) (rest_closed (here e n))
    | inr e ↦ rw (n, e) (ground (arith, rest, e))
  ]
]
  where
    here : {b : Bool} → (x == id) ≡ true → undecided (p id) ≡ b → undecided (p x) ≡ b
    here e h = ap (λ (k : ℕ). undecided (p k)) ((==_iff x id).0 e) ∙ h

    rest_open : undecided (p x) ≡ true → count x (id ∷ dropped_ids p ids) ≡ count x (id ∷ ids)
    rest_open h =
        ap (λ (n : ℕ). (if x == id then 1 else 0) + n)
          (rest ∙ ap (λ (b : Bool). if b then count x ids else 0) h)

    rest_closed : undecided (p x) ≡ false → count x (dropped_ids p ids) ≡ 0
    rest_closed h = rest ∙ ap (λ (b : Bool). if b then count x ids else 0) h

count-dropped_ids :
    (p : Pending) (ids : List ℕ) (x : ℕ)
    → count x (dropped_ids p ids) ≡ (if undecided (p x) then count x ids else 0)
unfolding dropped_ids count
count-dropped_ids p [] x = ground arith
count-dropped_ids p (id ∷ ids) x = dropped_next p id x ids (count-dropped_ids p ids x)

undecided-present : (o : Option PendingSubmit) → (if undecided o then present o else 0) ≡ open_at o
unfolding undecided present open_at
undecided-present none = refl
undecided-present (some e) = ground arith

-- A drain ends what is open.
fail-Balanced :
    (s : Submits) (ids : List ℕ) (sent : ℕ → Bool)
    → Yields s.pending ids
    → Balanced s
    → Balanced (fail_all_pending s ids sent)
unfolding fail_all_pending
fail-Balanced s ids sent yields v = record {
  balance = λ x. omega (
    arith,
    endings-dropped_events (dropped_ids s.pending ids) sent s.concluded x,
    drained x,
    open_at-none,
    v.balance x,
  );
  once = v.once;
}
  where
    drained : (x : ℕ) → count x (dropped_ids s.pending ids) ≡ open_at (s.pending x)
    drained x =
        count-dropped_ids s.pending ids x
        ∙ ap (λ (n : ℕ). if undecided (s.pending x) then n else 0) (yields x)
        ∙ undecided-present (s.pending x)

respond-Balanced :
    (s : Submits) (r : SubmitResponse) (sent : Bool) → Balanced s → Balanced (respond s r sent)
unfolding respond ends
respond-Balanced s r sent v =
    ended-Balanced s (respond_one s.pending r.sequence_id).1 r.sequence_id
      (submit_resp r.sequence_id r.msg_id r.result) sent (respond_one s.pending r.sequence_id).0
      (λ x. refl) v (respond_one-open s.pending r.sequence_id)

time_out-Balanced :
    (s : Submits) (key : SubmitAttemptKey) (sent : Bool)
    → Balanced s
    → Balanced (time_out s key sent)
unfolding time_out ends
time_out-Balanced s key sent v =
    ended-Balanced s (time_out_one sent s.pending key).1 key.sequence_id
      (submit_timeout key.sequence_id key.attempt) sent (time_out_one sent s.pending key).0
      (λ x. refl) v (time_out_one-open sent s.pending key)

pub Step-Balanced :
    (retry_count : ℕ) (s t : Submits) → Step retry_count s t → Balanced s → Balanced t
Step-Balanced retry_count s t (admitting lost id submission_id packet new e) v =
    subst Balanced (sym e) (commit-Balanced lost s id submission_id packet new v)
Step-Balanced retry_count s t (claiming key e) v =
    subst Balanced (sym e) (same-Balanced s _ v (claim_one-open _ s.pending key))
Step-Balanced retry_count s t (completing key written_at e) v =
    subst Balanced (sym e) (same-Balanced s _ v (complete_one-open s.pending key written_at))
Step-Balanced retry_count s t (responding r sent e) v =
    subst Balanced (sym e) (respond-Balanced s r sent v)
Step-Balanced retry_count s t (timing_out key sent over e) v =
    subst Balanced (sym e) (time_out-Balanced s key sent v)
Step-Balanced retry_count s t (requeueing key below e) v =
    subst Balanced (sym e) (same-Balanced s _ v (requeue_one-open _ s.pending key))
Step-Balanced retry_count s t (calling c e) v =
    subst Balanced (sym e) (record { balance = v.balance; once = v.once })
Step-Balanced retry_count s t (failing ids sent closed yields e) v =
    subst Balanced (sym e) (fail-Balanced s ids sent yields v)

new_submits-Balanced : Balanced new_submits
unfolding endings count open_at undecided
new_submits-Balanced = record { balance = λ x. refl; once = λ x. omega arith }

pub Steps-Balanced : (retry_count : ℕ) (s : Submits) → Steps retry_count new_submits s → Balanced s
Steps-Balanced retry_count _ done = new_submits-Balanced
Steps-Balanced retry_count u (next {t} steps step) =
    Step-Balanced retry_count t u step (Steps-Balanced retry_count t steps)
