-- ===== src/Mission/View/History.antt =====
-- Missions over many passes, each in an outside world and with a planner of its own.
use roundtable.Prelude.{ℕ, suc, ◌≡◌, ◌≢◌, ◌⊎◌, inl, inr, ◌≤◌, some, arith}
use roundtable.Api.Meta.{StatusConditions}
use roundtable.Api.Phase.{MissionPhase, planning, expired, cleaning_up}
use roundtable.Api.Mission.{Mission}
use roundtable.Mission.World.{MissionWorld, Money}
use roundtable.Mission.Reconcile.{Planner, reconcile_mission}
use roundtable.Mission.View.{View, agrees, IsConsistent, rank, view}
use roundtable.Mission.View.Laws.{Moves-IsConsistent, Moves-rank, rank_bound, Moves-verdict}
use roundtable.Mission.View.Refine.Passes.{reconcile_mission-Moves}

module _ (m : StatusConditions) (money : Money) where
  -- `edited` is any change from outside that leaves the phase, the recorded outcome and the mark of
  -- the cleanup as they are.
  pub data Passes (a : Mission m.Conditions) : Mission m.Conditions → Type 0 where
    here : Passes a a
    pass :
        {b : Mission m.Conditions}
        → Passes a b
        → (w : MissionWorld m.Conditions) (p : Planner m)
        → Passes a (reconcile_mission m money w p b).mission
    edited :
        {b : Mission m.Conditions}
        → Passes a b
        → (c : Mission m.Conditions) → view m c ≡ view m b
        → Passes a c

  -- No pass starts in Planning.
  unfoldable pub IsUnplanned : {a b : Mission m.Conditions} → Passes a b → Type 0
  IsUnplanned here = Unit
  IsUnplanned (pass {b} before w p) = IsUnplanned before × (b.status.phase ≢ planning)
  IsUnplanned (edited before c e) = IsUnplanned before

  -- The phase of a mission and the outcome in its condition Complete agree after any passes of which
  -- none starts in Planning, if they did before, and nothing is marked as cleaned up before an outcome
  -- is recorded.
  pub Passes-IsConsistent :
      (a : Mission m.Conditions) {b : Mission m.Conditions}
      → IsConsistent (view m a)
      → (before : Passes a b) → IsUnplanned before
      → IsConsistent (view m b)
  unfolding IsUnplanned
  Passes-IsConsistent a h here free = h
  Passes-IsConsistent a h (pass before w p) free =
      Moves-IsConsistent _ _ (reconcile_mission-Moves m money w p _)
        (Passes-IsConsistent a h before free.0) (unfold view in free.1)
  Passes-IsConsistent a h (edited before c e) free = rw e (Passes-IsConsistent a h before free)

  -- A mission that is consistent and has its outcome recorded.
  abbrev IsDecided : View → MissionPhase → Type 0
  IsDecided v q = IsConsistent v × ((v.verdict ≡ some q) ⊎ (v.verdict ≡ some expired))

  decided_not_planning : (v : View) (q : MissionPhase) → IsDecided v q → v.phase ≢ planning
  unfolding agrees
  decided_not_planning v q (h, k) e = ground (arith, h.agreeing)

  Passes-IsDecided :
      (a : Mission m.Conditions) {b : Mission m.Conditions} (q : MissionPhase)
      → IsDecided (view m a) q
      → Passes a b
      → IsDecided (view m b) q
  Passes-IsDecided a q h here = h
  Passes-IsDecided a q h (pass {b} before w p) =
      let known = Passes-IsDecided a q h before in
      let move = reconcile_mission-Moves m money w p b in
      (
        Moves-IsConsistent _ _ move known.0 (decided_not_planning (view m b) q known),
        Moves-verdict _ _ q move known.1 known.0,
      )
  Passes-IsDecided a q h (edited before c e) = rw e (Passes-IsDecided a q h before)

  agrees-ended :
      (v : View) (q : MissionPhase)
      → IsDecided v q
      → (v.phase ≡ q) ⊎ (v.phase ≡ cleaning_up) ⊎ (v.phase ≡ expired)
  unfolding agrees
  agrees-ended v q (h, k) = ground (arith, h.agreeing)

  -- Once the outcome of a mission is recorded, the mission has that outcome as its phase after any
  -- passes, or is being cleaned up, or has expired.
  pub Passes-outcome :
      (a : Mission m.Conditions) {b : Mission m.Conditions} (q : MissionPhase)
      → IsConsistent (view m a)
      → (view m a).verdict ≡ some q
      → Passes a b
      → (b.status.phase ≡ q) ⊎ (b.status.phase ≡ cleaning_up) ⊎ (b.status.phase ≡ expired)
  unfolding view
  Passes-outcome a {b} q h k before =
      agrees-ended (view m b) q (Passes-IsDecided a q (h, inl k) before)

  -- A history whose passes start neither in Planning nor in Expired, and in which this many passes
  -- changed the view.
  pub data Changes (a : Mission m.Conditions) : ℕ → Mission m.Conditions → Type 0 where
    here : Changes a 0 a
    change :
        {n : ℕ} {b : Mission m.Conditions}
        → Changes a n b
        → (w : MissionWorld m.Conditions) (p : Planner m) → b.status.phase ≢ planning
        → b.status.phase ≢ expired
        → view m (reconcile_mission m money w p b).mission ≢ view m b
        → Changes a (suc n) (reconcile_mission m money w p b).mission
    same :
        {n : ℕ} {b : Mission m.Conditions}
        → Changes a n b
        → (c : Mission m.Conditions) → view m c ≡ view m b
        → Changes a n c

  Changes-rank :
      (a : Mission m.Conditions) {n : ℕ} {b : Mission m.Conditions}
      → IsConsistent (view m a)
      → Changes a n b
      → IsConsistent (view m b) × (n ≤ rank (view m b))
  Changes-rank a h here = (h, omega arith)
  Changes-rank a h (same before c e) = rw e (Changes-rank a h before)
  Changes-rank a h (change {n} {b} before w p np ne new) =
      let (ok, far) = Changes-rank a h before in
      let move = reconcile_mission-Moves m money w p b in
      (
        Moves-IsConsistent _ _ move ok (unfold view in np),
        elim (Moves-rank _ _ move ok (unfold view in np) (unfold view in ne)) [
          | inl e ↦ absurd (new e)
          | inr more ↦ omega arith
        ],
      )

  -- In a history in which every pass starts in a phase other than Planning and Expired, at most eleven
  -- passes change the mission's phase, its recorded outcome or its mark of cleanup: the passes come to
  -- rest, unless they reach one of these two phases.
  pub Changes-bound :
      (a : Mission m.Conditions) {n : ℕ} {b : Mission m.Conditions}
      → IsConsistent (view m a)
      → Changes a n b
      → n ≤ 11
  Changes-bound a {n} {b} h before =
      let far = (Changes-rank a h before).1 in omega (arith, far, rank_bound (view m b))
