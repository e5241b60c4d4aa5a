-- ===== src/Pending/Order.antt =====
-- src/connection.rs: the response to an attempt and the end of its writing, in either order.
use cmppprotocol.Prelude.{
  ℕ, ◌≡◌, inl, inr, refl, ap, ◌∙◌, Option, none, some, Bool, true, false, not, if◌then◌else◌, ◌==◌,
  Bool-cases, ==_refl,
}
use cmppprotocol.Pending.{
  writing, awaiting_response, responded_while_writing, PendingSubmit, SubmitAttemptKey, Pending,
  put, Change, unchanged, becomes, removed, change_entry, complete_state, complete_one,
  respond_state, respond_one,
}
use cmppprotocol.Pending.Once.{on_entry-some}

respond_to :
    (p : Pending) (id : ℕ) (e : PendingSubmit) (c : Change)
    → p id ≡ some e
    → respond_state e.state ≡ c
    → respond_one p id ≡ change_entry p id e c
unfolding respond_one
respond_to p id e c h k =
    on_entry-some p id e (λ d. respond_state d.state) h ∙ ap (change_entry p id e) k

abbrev pub key_of : ℕ → ℕ → ℕ → SubmitAttemptKey
key_of id submission attempt = record {
  sequence_id = id;
  submission_id = submission;
  attempt = attempt;
}

complete_to :
    (p : Pending) (id attempt written_at : ℕ) (e : PendingSubmit) (c : Change)
    → p id ≡ some e
    → complete_state e.state attempt written_at ≡ c
    → complete_one p (key_of id e.submission_id attempt) written_at ≡ (change_entry p id e c).1
unfolding complete_one
complete_to p id attempt written_at e c h k =
    ap (λ (r : Bool × Pending). r.1)
      (on_entry-some p id e
        (λ d.
          if not (d.submission_id == e.submission_id)
          then unchanged
          else complete_state d.state attempt written_at)
        h)
    ∙ rw (==_refl e.submission_id, k)

put_here : (p : Pending) (id : ℕ) (o : Option PendingSubmit) → put p id o id ≡ o
put_here p id o = rw (==_refl id)

put-put :
    (p : Pending) (id x : ℕ) (a b : Option PendingSubmit) → put (put p id a) id b x ≡ put p id b x
put-put p id x a b = elim (Bool-cases (x == id)) [ inl e ↦ rw e | inr n ↦ rw n ]

-- For an attempt that is being written, its response and the end of its writing may come in either
-- order: the response is handled both ways, the entry is removed both ways, and no other entry
-- changes.
pub respond_complete :
    (p : Pending) (e : PendingSubmit) (id attempt written_at : ℕ)
    → p id ≡ some e
    → e.state ≡ writing attempt
    → ((respond_one p id).0 ≡ true)
      × ((respond_one (complete_one p (key_of id e.submission_id attempt) written_at) id).0 ≡ true)
      × ((x : ℕ)
          → (complete_one (respond_one p id).1 (key_of id e.submission_id attempt) written_at x
              ≡ put p id none x)
            × ((respond_one (complete_one p (key_of id e.submission_id attempt) written_at) id).1 x
                ≡ put p id none x))
unfolding respond_state complete_state
respond_complete p e id attempt written_at h st = (
  rw first,
  rw (second, then_respond),
  λ x. (
    rw (first, then_complete) (put-put p id x _ _),
    rw (second, then_respond) (put-put p id x _ _),
  ),
)
  where
    responded : PendingSubmit
    responded = record e { state = responded_while_writing attempt }

    awaiting : PendingSubmit
    awaiting = record e { state = awaiting_response attempt written_at }

    first : respond_one p id ≡ (true, put p id (some responded))
    first = respond_to p id e (becomes true (responded_while_writing attempt)) h (rw st)

    second :
        complete_one p (key_of id e.submission_id attempt) written_at ≡ put p id (some awaiting)
    second =
        complete_to p id attempt written_at e (becomes false (awaiting_response attempt written_at))
          h (rw (st, ==_refl attempt))

    then_complete :
        complete_one (put p id (some responded)) (key_of id e.submission_id attempt) written_at
        ≡ put (put p id (some responded)) id none
    then_complete =
        complete_to (put p id (some responded)) id attempt written_at responded (removed true)
          (put_here p id (some responded)) (rw (==_refl attempt))

    then_respond :
        respond_one (put p id (some awaiting)) id ≡ (true, put (put p id (some awaiting)) id none)
    then_respond =
        respond_to (put p id (some awaiting)) id awaiting (removed true)
          (put_here p id (some awaiting)) refl
