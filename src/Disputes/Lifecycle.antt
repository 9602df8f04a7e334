-- ===== src/Disputes/Lifecycle.antt =====
-- The life of one dispute.
use clean.Base.{
  ℕ, ◌≡◌, ◌≢◌, ◌⊎◌, inl, inr, refl, sym, ap, ◌∙◌, true, List, [], ◌∷◌, none, some, Result, ok, err,
  arith, is_some, put-keeps, put-follows, put-untaken,
}
use clean.Disputes.{
  Store, State, opened, facts_collected, decided, closed, Dispute, Snapshot, Error, adjust, settle,
  Call, open_call, attach_call, decide_call, close_call, perform, committed, run, new_dispute,
}
use clean.Disputes.Settled.{
  decide_dispute-Settled, open_dispute-Opened, attach_facts-Attached, close_dispute-Closed,
}

-- What holds of every dispute of the database.
pub record IsConsistent (d : Dispute) : Type 0 where
  pub evidence_kept : d.state ≢ opened → is_some d.facts_snapshot ≡ true
  pub undecided : (d.state ≡ opened) ⊎ (d.state ≡ facts_collected) → d.decision_snapshot ≡ none
  pub recorded :
      (d.state ≡ decided) ⊎ (d.state ≡ closed)
      → (x : Snapshot) × (d.decision_snapshot ≡ some x)
        × (d.decision ≡ some x.decision)
        × (d.decision_cents ≡ some x.decision_cents)
        × (d.decided_at ≡ some x.recorded_at)
        × (d.facts_snapshot ≡ some x.facts)
        × (x.after_totals ≡ adjust x.decision x.decision_cents x.before_totals)

abbrev pub AllConsistent : Store → Type 0
AllConsistent s = (k : ℕ) (d : Dispute) → s.disputes k ≡ some d → IsConsistent d

perform-AllConsistent :
    (c : Call) (s s' : Store) → perform c s ≡ ok s' → AllConsistent s → AllConsistent s'
unfolding perform settle new_dispute
perform-AllConsistent (open_call fresh booking reason by) s s' e w k d h =
    let t = open_dispute-Opened fresh booking reason by s s' e in
    put-keeps (λ _ d. IsConsistent d) fresh (new_dispute booking reason by) s.disputes w
      (ground arith) k d (ap (λ (x : Store). x.disputes k) (sym t.written) ∙ h)
perform-AllConsistent (attach_call id f) s s' e w k d h =
    let t = attach_facts-Attached id f s s' e in
    put-keeps (λ _ d. IsConsistent d) id
      (record t.dispute { facts_snapshot = some f; state = facts_collected }) s.disputes w
      (record {
        evidence_kept = λ _. refl;
        undecided = λ _. t.unrecorded;
        recorded = λ r. absurd (ground arith);
      })
      k d (ap (λ (x : Store). x.disputes k) (sym t.written) ∙ h)
perform-AllConsistent (decide_call id now x amount notes) s s' e w k d h =
    let t = decide_dispute-Settled id now x amount notes s s' e in
    put-keeps (λ _ d. IsConsistent d) id _ s.disputes w
      (record {
        evidence_kept = λ _. ap is_some t.evidence;
        undecided = λ r. absurd (ground arith);
        recorded = λ r. (_, refl, refl, refl, refl, t.evidence, refl);
      })
      k d (ap (λ (x : Store). x.disputes k) (sym t.written) ∙ h)
perform-AllConsistent (close_call id now note) s s' e w k d h =
    let t = close_dispute-Closed id now note s s' e in
    let old = w id t.dispute t.found in
    put-keeps (λ _ d. IsConsistent d) id
      (record t.dispute { state = closed; closed_at = some now; resolution_note = note }) s.disputes
      w
      (record {
        evidence_kept = λ _. old.evidence_kept (λ r. ground arith);
        undecided = λ r. absurd (ground arith);
        recorded = λ r. old.recorded (inl t.ready);
      })
      k d (ap (λ (x : Store). x.disputes k) (sym t.written) ∙ h)

-- Every call runs in a transaction, so what holds after each that goes through holds after all.
module _ {κ} (P : Store → Type κ)
    (keep : (c : Call) (s s' : Store) → perform c s ≡ ok s' → P s → P s') where
  committed-keeps :
      (c : Call) (s : Store) (r : Result Error Store) → perform c s ≡ r → P s → P (committed s r)
  committed-keeps c s (ok s') e p = keep c s s' e p
  committed-keeps c s (err _) e p = p

  pub run-keeps : (cs : List Call) (s : Store) → P s → P (run cs s)
  unfolding run
  run-keeps [] s p = p
  run-keeps (c ∷ cs) s p =
      run-keeps cs (committed s (perform c s)) (committed-keeps c s (perform c s) refl p)

-- After any calls the disputes of a database that began without any are consistent: evidence from
-- the second state on, no snapshot before the decision, and after it a snapshot that agrees with
-- the columns and whose totals differ by the adjustment for the decided amount.
pub run-AllConsistent :
    (cs : List Call) (s : Store) → ((k : ℕ) → s.disputes k ≡ none) → AllConsistent (run cs s)
run-AllConsistent cs s none_yet =
    run-keeps AllConsistent perform-AllConsistent cs s
      (λ k d h. absurd (ground (arith, none_yet k)))

-- The steps between the states of a dispute.
pub data Next : State → State → Type 0 where
  collect : Next opened facts_collected
  recollect : Next facts_collected facts_collected
  decide : Next facts_collected decided
  settle_up : Next decided closed

-- One call on a dispute: nothing, or a step; the booking stays, and so does a decision once made.
pub record Follows (d d' : Dispute) : Type 0 where
  pub stepped : (d'.state ≡ d.state) ⊎ Next d.state d'.state
  pub same_booking : d'.booking_id ≡ d.booking_id
  pub final :
      is_some d.decision_snapshot ≡ true
      → (d'.decision_snapshot ≡ d.decision_snapshot)
        × (d'.decision ≡ d.decision)
        × (d'.decision_cents ≡ d.decision_cents)
        × (d'.facts_snapshot ≡ d.facts_snapshot)

Follows-refl : (d : Dispute) → Follows d d
Follows-refl d = record {
  stepped = inl refl;
  same_booking = refl;
  final = λ _. (refl, refl, refl, refl);
}

step_of : {a b : State} (x y : State) → a ≡ x → b ≡ y → Next x y → Next a b
step_of x y p q n = rw (p, q) n

collected : {a : State} → (a ≡ opened) ⊎ (a ≡ facts_collected) → Next a facts_collected
collected (inl e) = step_of opened facts_collected e refl collect
collected (inr e) = step_of facts_collected facts_collected e refl recollect

-- From a database whose disputes are consistent, every dispute is still there after a call that
-- goes through, and has stayed or made one step of the state machine; its booking is the same, and
-- once a decision is recorded the snapshot, the decision, its amount and the facts never change.
pub perform-Follows :
    (c : Call) (s s' : Store) (k : ℕ) (d : Dispute)
    → AllConsistent s
    → perform c s ≡ ok s'
    → s.disputes k ≡ some d
    → (d' : Dispute) × (s'.disputes k ≡ some d') × Follows d d'
unfolding perform settle
perform-Follows (open_call fresh booking reason by) s s' k d w e h =
    let t = open_dispute-Opened fresh booking reason by s s' e in
    (
      d,
      ap (λ (x : Store). x.disputes k) t.written
          ∙ put-untaken fresh (new_dispute booking reason by) s.disputes t.untaken k d h,
      Follows-refl d,
    )
perform-Follows (attach_call id f) s s' k d w e h =
    let t = attach_facts-Attached id f s s' e in
    let (d', at', f) =
      put-follows Follows id t.dispute
        (record t.dispute { facts_snapshot = some f; state = facts_collected }) s.disputes
        Follows-refl t.found
        (record {
          stepped = inr (collected t.collecting);
          same_booking = refl;
          final = λ r. absurd (ground (arith, t.unrecorded));
        })
        k d h in
    (d', ap (λ (x : Store). x.disputes k) t.written ∙ at', f)
perform-Follows (decide_call id now x amount notes) s s' k d w e h =
    let t = decide_dispute-Settled id now x amount notes s s' e in
    let none_yet = (w id t.dispute t.found).undecided (inr t.ready) in
    let (d', at', f) =
      put-follows Follows id t.dispute _ s.disputes Follows-refl t.found
        (record {
          stepped = inr (step_of facts_collected decided t.ready refl decide);
          same_booking = refl;
          final = λ r. absurd (ground (arith, none_yet));
        })
        k d h in
    (d', ap (λ (x : Store). x.disputes k) t.written ∙ at', f)
perform-Follows (close_call id now note) s s' k d w e h =
    let t = close_dispute-Closed id now note s s' e in
    let (d', at', f) =
      put-follows Follows id t.dispute
        (record t.dispute { state = closed; closed_at = some now; resolution_note = note })
        s.disputes Follows-refl t.found
        (record {
          stepped = inr (step_of decided closed t.ready refl settle_up);
          same_booking = refl;
          final = λ _. (refl, refl, refl, refl);
        })
        k d h in
    (d', ap (λ (x : Store). x.disputes k) t.written ∙ at', f)
