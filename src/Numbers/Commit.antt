-- ===== src/Numbers/Commit.antt =====
-- src/connection.rs: the commit of `send_submit`, with the registry and the leases.
use mathlib.Core.Path.{subst}
use cmppprotocol.Prelude.{
  true-≢false, ℕ, ◌^◌, ◌<◌, ◌≡◌, ◌≢◌, inl, inr, refl, sym, ap, ◌∙◌, List, ◌∷◌, none, some, Bool,
  true, false, if◌then◌else◌, ◌==◌, Bool-cases, ==_iff,
}
use cmppprotocol.Sequence.Registry.{contains}
use cmppprotocol.Sequence.Window.{Spent, Taken}
use cmppprotocol.Numbers.{set_held, Numbers, retire_if_manual, commit_lease}
use cmppprotocol.Pending.{ConnectionPhase, phase_open, queued, put}
use cmppprotocol.Lifecycle.{Submits, commit_submit}
use cmppprotocol.Numbers.Lists.{front_absent, behind}
use cmppprotocol.Numbers.Serving.{Retired, retire_if_manual-Retired}
use cmppprotocol.Numbers.Joined.{Joined}

none-≢some : {b : Bool} → none ≢ some b
none-≢some h = cc

-- A commit admits its number, if the lease is not lost, and no other.
commit_submit-admitted :
    (lost : Bool) (p : Submits) (id submission_id : ℕ) (packet : List ℕ)
    → p.admission.phase ≡ phase_open
    → (commit_submit lost p id submission_id packet).admitted
      ≡ (if lost then p.admitted else id ∷ p.admitted)
unfolding commit_submit
commit_submit-admitted true p id submission_id packet h = refl
commit_submit-admitted false p id submission_id packet h =
    ap
      (λ (c : ConnectionPhase).
        (elim c as (λ _. Submits) [
          | phase_open ↦ record p {
            pending = put p.pending id (
                some (record { submission_id = submission_id; packet = packet; state = queued 1 }));
            admitted = id ∷ p.admitted;
          }
          | _ ↦ p
        ]).admitted)
      h

pub committing-Joined :
    (s : Numbers) (id submission_id : ℕ) (packet : List ℕ) (manual : Bool)
    → s.leases id ≡ some manual
    → s.submits.admission.phase ≡ phase_open
    → Joined s
    → Joined (commit_lease s manual id submission_id packet)
unfolding commit_lease
committing-Joined s id submission_id packet manual h open_now v = record {
  inv = k.serves.inv;
  admitted = λ x a. admitted x lost refl (ap (λ (l : List ℕ). contains l x) (sym now) ∙ a);
  held = λ x m g.
      let (n, there) = elsewhere x m g in
      let (t, a, b) = v.held x m there in
      (k.serves.taken x n t, ap (λ (l : List ℕ). contains l x) now ∙ absent x n lost a, b);
  automatic = λ x g. let (n, there) = elsewhere x false g in k.serves.spent x (v.automatic x there);
}
  where
    lost : Bool
    lost = (retire_if_manual s.registry manual id).1

    here : Taken s.registry id × (contains s.submits.admitted id ≡ false) × (id < 2 ^ 32)
    here = v.held id manual h

    k : Retired s.registry (retire_if_manual s.registry manual id).0 id lost
    k =
        retire_if_manual-Retired s.registry manual id v.inv here.2
          (λ e. v.automatic id (h ∙ ap some e))

    now :
        (commit_submit lost s.submits id submission_id packet).admitted
        ≡ (if lost then s.submits.admitted else id ∷ s.submits.admitted)
    now = commit_submit-admitted lost s.submits id submission_id packet open_now

    elsewhere :
        (x : ℕ) (m : Bool) → set_held s.leases id none x ≡ some m → (x ≢ id) × (s.leases x ≡ some m)
    elsewhere x m g = elim (Bool-cases (x == id)) [
      | inl y ↦ absurd (none-≢some (rw y at g))
      | inr n ↦ (λ e. true-≢false (sym ((==_iff x id).1 e) ∙ n), (rw n at g))
    ]

    absent :
        (x : ℕ)
        → x ≢ id
        → (b : Bool) → contains s.submits.admitted x ≡ false
        → contains (if b then s.submits.admitted else id ∷ s.submits.admitted) x ≡ false
    absent x n true a = a
    absent x n false a = front_absent id s.submits.admitted x n a

    admitted :
        (x : ℕ) (b : Bool)
        → lost ≡ b
        → contains (if b then s.submits.admitted else id ∷ s.submits.admitted) x ≡ true
        → Spent (retire_if_manual s.registry manual id).0 x
    admitted x true e a = k.serves.spent x (v.admitted x a)
    admitted x false e a = elim (Bool-cases (id == x)) [
      | inl y ↦
          subst (Spent (retire_if_manual s.registry manual id).0) ((==_iff id x).0 y) (k.spends e)
      | inr n ↦ k.serves.spent x (v.admitted x (behind id s.submits.admitted x n a))
    ]
