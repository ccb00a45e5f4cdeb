-- ===== src/Spot/Schedule/Ends.antt =====
-- How a job of pkg/dc2/dispatcher_spot.go ends once it is not kept waiting.
use dc.Prelude.{
  ℕ, zero, suc, String, true, none, some, ◌≡◌, ◌∙◌, sym, ap, refl, ◌≤◌, arith, inl, inr, Bool-cases,
  eq_refl, leb,
}
use mathlib.Core.Path.{subst}
use dc.Storage.{lookup}
use dc.Storage.Maps.{lookup-delete}
use dc.Imds.{Imds, spot_action, clear_spot_instance_action}
use dc.Spot.Schedule.{
  Phase, noticing, reclaiming, clearing, deregistering, over, Job, Jobs, cancel_spot_reclaim,
  in_phase, go_on, has_notice,
}
use dc.Spot.Schedule.Cancels.{write_job-same}
use dc.Spot.Schedule.Moves.{warned, unwarned, reclaimed}
use dc.Spot.Schedule.Registry.{cancel_spot_reclaim-lookup}
use dc.Spot.Schedule.Notices.{same_actions}

-- The first moves of a job, as many as are asked for and as it can make.
pub moves : ℕ → ℕ → Jobs → Jobs
moves zero n s = s
moves (suc k) n s = elim (go_on n s) [ none ↦ s | some t ↦ moves k n t ]

-- The job of the instance is over, with no cancel function and no notice left.
pub record HasEnded (n : ℕ) (id r : String) (s : Jobs) : Type 0 where
  pub is_over : (s.jobs n).phase ≡ over
  pub no_entry : lookup id s.cancels ≡ none
  pub no_notice : spot_action s.imds r ≡ none

at_phase :
    (p : Phase) (n : ℕ) (s : Jobs) → (in_phase p n s).jobs n ≡ record (s.jobs n) { phase = p }
at_phase p n s = write_job-same n (record (s.jobs n) { phase = p }) s.jobs

move-HasEnded :
    (k n : ℕ) (id r : String) (s t : Jobs)
    → go_on n s ≡ some t
    → HasEnded n id r (moves k n t)
    → HasEnded n id r (moves (suc k) n s)
unfolding moves
move-HasEnded k n id r s t e h = rw (e, moves) h

deregistering-HasEnded :
    (n : ℕ) (r : String) (s : Jobs)
    → (s.jobs n).phase ≡ deregistering
    → spot_action s.imds r ≡ none
    → HasEnded n (s.jobs n).instance_id r (moves 1 n s)
unfolding go_on moves
deregistering-HasEnded n r s e h =
    let id = (s.jobs n).instance_id in
    let t = in_phase over n (cancel_spot_reclaim id s) in
    move-HasEnded 0 n id r s t (rw (e, go_on) refl) (record {
      is_over = ap (λ (j : Job). j.phase) (at_phase over n (cancel_spot_reclaim id s));
      no_entry = cancel_spot_reclaim-lookup id s;
      no_notice = ap (λ (m : Imds). spot_action m r) (same_actions id s) ∙ h;
    })

clearing-HasEnded :
    (n : ℕ) (s : Jobs)
    → (s.jobs n).phase ≡ clearing
    → HasEnded n (s.jobs n).instance_id (s.jobs n).runtime_id (moves 2 n s)
unfolding go_on clear_spot_instance_action spot_action
clearing-HasEnded n s e =
    let r = (s.jobs n).runtime_id in
    let t = in_phase deregistering n (unwarned n s) in
    let j = at_phase deregistering n (unwarned n s) in
    move-HasEnded 1 n (s.jobs n).instance_id r s t (rw (e, go_on) refl) (
      subst (λ (x : String). HasEnded n x r (moves 1 n t)) (ap (λ (x : Job). x.instance_id) j)
        (deregistering-HasEnded n r t (ap (λ (x : Job). x.phase) j)
          (lookup-delete r r s.imds.spot_actions ∙ ground (arith, eq_refl r))))

reclaiming-HasEnded :
    (n : ℕ) (s : Jobs)
    → (s.jobs n).phase ≡ reclaiming
    → (s.jobs n).reclaim_at ≤ s.now
    → HasEnded n (s.jobs n).instance_id (s.jobs n).runtime_id (moves 3 n s)
unfolding go_on
reclaiming-HasEnded n s e l =
    let t = in_phase clearing n (reclaimed n s) in
    let j = at_phase clearing n (reclaimed n s) in
    let due : leb (s.jobs n).reclaim_at s.now ≡ true = ground (arith, l) in
    move-HasEnded 2 n (s.jobs n).instance_id (s.jobs n).runtime_id s t (rw (e, due, go_on) refl) (
      subst (λ (x : Job). HasEnded n x.instance_id x.runtime_id (moves 2 n t)) j
        (clearing-HasEnded n t (ap (λ (x : Job). x.phase) j)))

-- The state in which a job waits for its reclaim.
noticed-HasEnded :
    (n : ℕ) (s u : Jobs)
    → u.jobs ≡ s.jobs
    → u.now ≡ s.now
    → go_on n s ≡ some (in_phase reclaiming n u)
    → (s.jobs n).reclaim_at ≤ s.now
    → HasEnded n (s.jobs n).instance_id (s.jobs n).runtime_id (moves 4 n s)
noticed-HasEnded n s u a b h l =
    let t = in_phase reclaiming n u in
    let j = at_phase reclaiming n u ∙ ap (λ (f : ℕ → Job). record (f n) { phase = reclaiming }) a in
    let due =
      subst (λ (x : ℕ). (t.jobs n).reclaim_at ≤ x) (sym b)
        (subst (λ (x : ℕ). x ≤ s.now) (sym (ap (λ (x : Job). x.reclaim_at) j)) l) in
    move-HasEnded 3 n (s.jobs n).instance_id (s.jobs n).runtime_id s t h (
      subst (λ (x : Job). HasEnded n x.instance_id x.runtime_id (moves 3 n t)) j
        (reclaiming-HasEnded n t (ap (λ (x : Job). x.phase) j) due))

-- A job that waits for its notice and whose two times have come ends within four moves of its own: it
-- is over then, and its instance has no cancel function and no notice left.
pub go_on-HasEnded :
    (n : ℕ) (s : Jobs)
    → (s.jobs n).phase ≡ noticing
    → (s.jobs n).warn_at ≤ s.now
    → (s.jobs n).reclaim_at ≤ s.now
    → HasEnded n (s.jobs n).instance_id (s.jobs n).runtime_id (moves 4 n s)
unfolding go_on
go_on-HasEnded n s e w l = elim (Bool-cases (has_notice (s.jobs n))) [
  | inr f ↦ noticed-HasEnded n s s refl refl (rw (e, f, go_on) refl) l
  | inl f ↦
      let due : leb (s.jobs n).warn_at s.now ≡ true = ground (arith, w) in
      noticed-HasEnded n s (warned n s) refl refl (rw (e, f, due, go_on) refl) l
]
