-- ===== src/Lifecycle/Counts.antt =====
-- src/connection.rs: how the events that end SUBMITs and the open entries are counted, and an operation on one entry.
use cmppprotocol.Prelude.{
  ℕ, ◌+◌, ◌≤◌, ◌≡◌, inl, inr, refl, sym, ap, ◌∙◌, List, [], ◌∷◌, Option, none, some, Bool, true,
  false, if◌then◌else◌, ◌==◌, arith, Bool-cases, Option-cases, ==_iff,
}
use cmppprotocol.Pending.{
  SubmitAttemptState, queued, writing, awaiting_response, responded_while_writing, PendingSubmit,
  Pending, Change, unchanged, becomes, removed, change_entry, on_entry,
}
use cmppprotocol.Pending.Once.{on_entry-some, on_entry-none}
use cmppprotocol.Spool.{Event, submit_resp, submit_timeout, submit_dropped, deliver, disconnected}
use cmppprotocol.Lifecycle.{Conclusion, Submits, undecided, count}

-- 1 if the event ends the SUBMIT of this number.
unfoldable pub ends : ℕ → Event → ℕ
ends x (submit_resp id msg_id result) = if x == id then 1 else 0
ends x (submit_timeout id attempts) = if x == id then 1 else 0
ends x (submit_dropped id) = if x == id then 1 else 0
ends x (deliver d) = 0
ends x (disconnected e) = 0

-- How many events ended the SUBMIT of this number.
unfoldable pub endings : ℕ → List Conclusion → ℕ
endings x [] = 0
endings x ((e, sent) ∷ l) = ends x e + endings x l

-- 1 if the entry has no end yet.
unfoldable pub open_at : Option PendingSubmit → ℕ
open_at o = if undecided o then 1 else 0

-- The admissions of a number are its endings and its entry.
pub record Balanced (s : Submits) : Type 0 where
  pub balance : (x : ℕ) → endings x s.concluded + open_at (s.pending x) ≡ count x s.admitted
  pub once : (x : ℕ) → count x s.admitted ≤ 1

unfoldable pub open_state : SubmitAttemptState → ℕ
open_state (responded_while_writing a) = 0
open_state _ = 1

open_at-some :
    (e : PendingSubmit) (st : SubmitAttemptState) → e.state ≡ st → open_at (some e) ≡ open_state st
unfolding open_at undecided open_state
open_at-some e (queued a) h = rw h
open_at-some e (writing a) h = rw h
open_at-some e (awaiting_response a w) h = rw h
open_at-some e (responded_while_writing a) h = rw h

pub open_at-none : open_at none ≡ 0
unfolding open_at undecided
open_at-none = refl

-- What is open of an entry behind a change.
unfoldable pub open_after : SubmitAttemptState → Change → ℕ
open_after st unchanged = open_state st
open_after st (becomes b st') = open_state st'
open_after st (removed b) = 0

unfoldable pub says : Change → Bool
says unchanged = false
says (becomes b st) = b
says (removed b) = b

-- An operation on one entry: what is open of it behind the change, and what the change ended, is what was open.
pub moved :
    (p : Pending) (id : ℕ) (f : PendingSubmit → Change) (ended : ℕ)
    → (p id ≡ none → ended ≡ 0)
    → ((e : PendingSubmit) → p id ≡ some e → open_after e.state (f e) + ended ≡ open_state e.state)
    → (x : ℕ) → open_at ((on_entry p id f).1 x) + (if x == id then ended else 0) ≡ open_at (p x)
unfolding open_after
moved p id f ended gone there x = elim (Option-cases (p id)) [
  | inl n ↦ rw (on_entry-none p id f n) (ground (arith, gone n))
  | inr (e, s) ↦ rw (on_entry-some p id e f s) (by_change e s (f e) (there e s))
]
  where
    same : (x == id) ≡ true → id ≡ x
    same y = sym ((==_iff x id).0 y)

    nothing : open_at none ≡ 0
    nothing = open_at-none

    was : (e : PendingSubmit) → p id ≡ some e → open_at (p id) ≡ open_state e.state
    was e s = ap open_at s ∙ open_at-some e e.state refl

    by_change :
        (e : PendingSubmit)
        → p id ≡ some e
        → (c : Change) → open_after e.state c + ended ≡ open_state e.state
        → open_at ((change_entry p id e c).1 x) + (if x == id then ended else 0) ≡ open_at (p x)
    by_change e s unchanged h = ground (arith, h)
    by_change e s (becomes b st) h = elim (Bool-cases (x == id)) [
      | inl y ↦
          let now = open_at-some (record e { state = st }) st refl in
          rw y (
            ap (λ (n : ℕ). n + ended) now
            ∙ h
            ∙ sym (was e s)
            ∙ ap (λ (k : ℕ). open_at (p k)) (same y))
      | inr n ↦ rw n (omega arith)
    ]
    by_change e s (removed b) h = elim (Bool-cases (x == id)) [
      | inl y ↦ rw y (
          ap (λ (n : ℕ). n + ended) nothing
          ∙ h
          ∙ sym (was e s)
          ∙ ap (λ (k : ℕ). open_at (p k)) (same y))
      | inr n ↦ rw n (omega arith)
    ]

-- An operation that ends nothing.
pub kept :
    (p : Pending) (id : ℕ) (f : PendingSubmit → Change)
    → ((e : PendingSubmit) → open_after e.state (f e) ≡ open_state e.state)
    → (x : ℕ) → open_at ((on_entry p id f).1 x) ≡ open_at (p x)
kept p id f same x =
    let all = moved p id f 0 (λ n. refl) (λ e s. omega (arith, same e)) x in ground (arith, all)
