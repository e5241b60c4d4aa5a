-- ===== src/Numbers/Fresh.antt =====
-- src/connection.rs: a number is never admitted twice, since the registry does not lease it again.
use mathlib.Core.Path.{subst}
use cmppprotocol.Prelude.{ℕ, ◌^◌, ◌<◌, ◌≡◌, ◌≢◌, refl, sym, ap, ◌∙◌, List, none, some, Bool, false}
use cmppprotocol.Sequence.Registry.{contains, release, retire}
use cmppprotocol.Sequence.Spent.{new_registry-RegistryInv}
use cmppprotocol.Numbers.{
  set_held, Numbers, new_numbers, retire_if_manual, commit_lease, Turn, taking, taking_run,
  dropping, committing, ending, retiring, moving, Turns, start, turn,
}
use cmppprotocol.Lifecycle.{Submits, Steps, done, next, new_submits, admitting}
use cmppprotocol.Numbers.Serving.{release-Serves, retire-Serves}
use cmppprotocol.Numbers.Joined.{
  Joined, changed-Joined, admitted-unheld, set_held-same, set_held-here, taking-Joined,
  taking_run-Joined,
}
use cmppprotocol.Numbers.Commit.{committing-Joined}

none-≢some : {b : Bool} → none ≢ some b
none-≢some h = cc

Turn-Joined : (retry_count : ℕ) (s t : Numbers) → Turn retry_count s t → Joined s → Joined t
Turn-Joined n s t (taking id given e) v = subst Joined (sym e) (taking-Joined s id given v)
Turn-Joined n s t (taking_run base count ids r given e) v =
    subst Joined (sym e) (taking_run-Joined s base count ids r given v)
Turn-Joined n s t (dropping id manual h e) v = subst Joined (sym e) (
    changed-Joined s (release s.registry id) id (set_held s.leases id none) v
      (release-Serves s.registry id v.inv) (set_held-here s.leases id none)
      (λ x o. set_held-same s.leases id x none o))
Turn-Joined n s t (committing id submission_id packet manual h open_now e) v =
    subst Joined (sym e) (committing-Joined s id submission_id packet manual h open_now v)
Turn-Joined n s t (ending id a e) v = subst Joined (sym e) (
    changed-Joined s (release s.registry id) id s.leases v (release-Serves s.registry id v.inv)
      (admitted-unheld s id v a) (λ x o. refl))
Turn-Joined n s t (retiring id a small e) v = subst Joined (sym e) (
    changed-Joined s (retire s.registry id).0 id s.leases v
      (retire-Serves s.registry id v.inv small) (admitted-unheld s id v a) (λ x o. refl))
Turn-Joined n s t (moving u step same e) v = subst Joined (sym e) (record {
  inv = v.inv;
  admitted = λ x a. v.admitted x (ap (λ (l : List ℕ). contains l x) (sym same) ∙ a);
  held =
      λ x m h. let (k, a, b) = v.held x m h in (k, ap (λ (l : List ℕ). contains l x) same ∙ a, b);
  automatic = v.automatic;
})

along :
    {retry_count : ℕ} {p q : Submits}
    → q ≡ p
    → Steps retry_count new_submits p
    → Steps retry_count new_submits q
along {retry_count} e r = subst (Steps retry_count new_submits) (sym e) r

Turn-Steps :
    (retry_count : ℕ) (s t : Numbers)
    → Turn retry_count s t
    → Joined s
    → Steps retry_count new_submits s.submits
    → Steps retry_count new_submits t.submits
unfolding commit_lease
Turn-Steps n s t (taking id given e) v r = along (ap (λ (u : Numbers). u.submits) e) r
Turn-Steps n s t (taking_run base count ids q given e) v r =
    along (ap (λ (u : Numbers). u.submits) e) r
Turn-Steps n s t (dropping id manual h e) v r = along (ap (λ (u : Numbers). u.submits) e) r
Turn-Steps n s t (committing id submission_id packet manual h open_now e) v r = next r (
    admitting (retire_if_manual s.registry manual id).1 id submission_id packet
      (v.held id manual h).1 (ap (λ (u : Numbers). u.submits) e))
Turn-Steps n s t (ending id a e) v r = along (ap (λ (u : Numbers). u.submits) e) r
Turn-Steps n s t (retiring id a small e) v r = along (ap (λ (u : Numbers). u.submits) e) r
Turn-Steps n s t (moving u step same e) v r =
    subst (λ (u : Numbers). Steps n new_submits u.submits) (sym e) (next r step)

new_numbers-Joined : (first : ℕ) → first < 2 ^ 32 → Joined (new_numbers first)
unfolding contains
new_numbers-Joined first h = record {
  inv = new_registry-RegistryInv first h;
  admitted = λ x a. cc;
  held = λ x m g. absurd (none-≢some g);
  automatic = λ x g. absurd (none-≢some g);
}

course :
    (retry_count first : ℕ) (s : Numbers)
    → first < 2 ^ 32
    → Turns retry_count (new_numbers first) s
    → Joined s × Steps retry_count new_submits s.submits
course n first _ h start = (new_numbers-Joined first h, done)
course n first s h (turn {t} ts last) =
    let (v, r) = course n first t h ts in (Turn-Joined n t s last v, Turn-Steps n t s last v r)

-- In any course of a connection, of its registry with its leases and its SUBMITs, from a first
-- 32-bit number on: the SUBMITs follow a course in which no number is admitted twice, and a lease
-- that is held is of a number that was not admitted.
pub Turns-Steps :
    (retry_count first : ℕ) (s : Numbers)
    → first < 2 ^ 32
    → Turns retry_count (new_numbers first) s
    → Steps retry_count new_submits s.submits
      × ((id : ℕ) (manual : Bool)
          → s.leases id ≡ some manual
          → contains s.submits.admitted id ≡ false)
Turns-Steps n first s h turns =
    let (v, r) = course n first s h turns in (r, λ id m l. (v.held id m l).1)
