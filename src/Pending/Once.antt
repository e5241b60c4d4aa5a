-- ===== src/Pending/Once.antt =====
-- src/connection.rs, `flush_submit_resps`: every SUBMIT is answered once.
use cmppprotocol.Prelude.{
  true-≢false, ℕ, ◌≡◌, ◌≢◌, inl, inr, refl, sym, ap, ◌∙◌, List, [], ◌∷◌, All, All-map, Option, none,
  some, Bool, true, false, ◌==◌, Bool-cases, Option-cases, ==_iff, ==_refl,
}
use cmppprotocol.Pending.{
  SubmitAttemptState, queued, writing, awaiting_response, responded_while_writing, PendingSubmit,
  SubmitResponse, Pending, Change, unchanged, becomes, removed, change_entry, on_entry,
  respond_state, respond_one, flush_submit_resps,
}

-- An entry that is there, and one that is not.
pub on_entry-some :
    (p : Pending) (id : ℕ) (e : PendingSubmit) (f : PendingSubmit → Change)
    → p id ≡ some e
    → on_entry p id f ≡ change_entry p id e (f e)
unfolding on_entry
on_entry-some p id e f h =
    ap
      (λ (o : Option PendingSubmit). elim o as (λ _. Bool × Pending) [
        | none ↦ (false, p)
        | some d ↦ change_entry p id d (f d)
      ])
      h

pub on_entry-none :
    (p : Pending) (id : ℕ) (f : PendingSubmit → Change) → p id ≡ none → on_entry p id f ≡ (false, p)
unfolding on_entry
on_entry-none p id f h =
    ap
      (λ (o : Option PendingSubmit). elim o as (λ _. Bool × Pending) [
        | none ↦ (false, p)
        | some d ↦ change_entry p id d (f d)
      ])
      h

-- Other numbers keep their entries.
on_entry-other :
    (p : Pending) (id x : ℕ) (f : PendingSubmit → Change)
    → (x == id) ≡ false
    → (on_entry p id f).1 x ≡ p x
on_entry-other p id x f h = elim (Option-cases (p id)) [
  | inl n ↦ rw (on_entry-none p id f n)
  | inr (e, s) ↦ rw (on_entry-some p id e f s) (kept (f e) e)
]
  where
    kept : (c : Change) (e : PendingSubmit) → (change_entry p id e c).1 x ≡ p x
    kept unchanged e = refl
    kept (becomes b st) e = rw h
    kept (removed b) e = rw h

-- A response would be handled.
unfoldable pub answers : Option PendingSubmit → Bool
answers none = false
answers (some e) = elim e.state [ responded_while_writing a ↦ false | _ ↦ true ]

respond_one-answers : (p : Pending) (id : ℕ) → (respond_one p id).0 ≡ answers (p id)
unfolding respond_one answers respond_state
respond_one-answers p id = elim (Option-cases (p id)) [
  | inl n ↦ rw (on_entry-none p id (λ e. respond_state e.state) n, n)
  | inr (e, s) ↦ rw (on_entry-some p id e (λ e. respond_state e.state) s, s) (by_state e e.state)
]
  where
    by_state :
        (e : PendingSubmit) (st : SubmitAttemptState)
        → (change_entry p id e (respond_state st)).0
          ≡ elim st as (λ _. Bool) [ responded_while_writing a ↦ false | _ ↦ true ]
    by_state e (queued a) = refl
    by_state e (writing a) = refl
    by_state e (awaiting_response a t) = refl
    by_state e (responded_while_writing a) = refl

-- After a response none is due for its number; the others keep their entries.
answered_now : (p : Pending) (id : ℕ) → answers ((respond_one p id).1 id) ≡ false
unfolding respond_one answers respond_state
answered_now p id = elim (Option-cases (p id)) [
  | inl n ↦ rw (on_entry-none p id (λ e. respond_state e.state) n, n)
  | inr (e, s) ↦
      rw (on_entry-some p id e (λ e. respond_state e.state) s) (by_state e e.state refl s)
]
  where
    by_state :
        (e : PendingSubmit) (st : SubmitAttemptState)
        → e.state ≡ st
        → p id ≡ some e
        → answers ((change_entry p id e (respond_state st)).1 id) ≡ false
    by_state e (queued a) h s = rw (==_refl id)
    by_state e (writing a) h s = rw (==_refl id)
    by_state e (awaiting_response a t) h s = rw (==_refl id)
    by_state e (responded_while_writing a) h s = rw (s, h)

answered_before :
    (p : Pending) (id x : ℕ)
    → answers ((respond_one p id).1 x) ≡ true
    → (answers (p x) ≡ true) × (x ≢ id)
unfolding respond_one
answered_before p id x h = elim (Bool-cases (x == id)) [
  | inl e ↦
      let same : x ≡ id = (==_iff x id).0 e in
      let clash : true ≡ false = sym h ∙ rw same (answered_now p id) in absurd (true-≢false clash)
  | inr n ↦ (
    sym (ap answers (on_entry-other p id x (λ e. respond_state e.state) n)) ∙ h,
    λ e. absurd (true-≢false (sym ((==_iff x id).1 e) ∙ n)),
  )
]

-- No two responses of the list have the same sequence number.
unfoldable pub Distinct : List SubmitResponse → Type 0
Distinct [] = Unit
Distinct (r ∷ rs) = All (λ (s : SubmitResponse). s.sequence_id ≢ r.sequence_id) rs × Distinct rs

-- Among any responses, those that are handled are for numbers that wait for one, and each number is
-- handled once.
pub flush_submit_resps-Distinct :
    (p : Pending) (rs : List SubmitResponse)
    → All (λ (r : SubmitResponse). answers (p r.sequence_id) ≡ true) (flush_submit_resps p rs).0
      × Distinct (flush_submit_resps p rs).0
unfolding flush_submit_resps Distinct
flush_submit_resps-Distinct p [] = (tt, tt)
flush_submit_resps-Distinct p (r ∷ rs) =
    let p' : Pending = (respond_one p r.sequence_id).1 in
    let (due, once) = flush_submit_resps-Distinct p' rs in
    let kept = (flush_submit_resps p' rs).0 in
    let Due = λ (s : SubmitResponse). answers (p' s.sequence_id) ≡ true in
    let due' : All (λ (s : SubmitResponse). answers (p s.sequence_id) ≡ true) kept =
      All-map Due (λ s. answers (p s.sequence_id) ≡ true) kept
        (λ s h. (answered_before p r.sequence_id s.sequence_id h).0) due in
    let other : All (λ (s : SubmitResponse). s.sequence_id ≢ r.sequence_id) kept =
      All-map Due (λ s. s.sequence_id ≢ r.sequence_id) kept
        (λ s h. (answered_before p r.sequence_id s.sequence_id h).1) due in
    elim (Bool-cases (respond_one p r.sequence_id).0) [
      | inl y ↦ rw y ((sym (respond_one-answers p r.sequence_id) ∙ y, due'), (other, once))
      | inr n ↦ rw n (due', once)
    ]
