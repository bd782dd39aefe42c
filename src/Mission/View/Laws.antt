-- ===== src/Mission/View/Laws.antt =====
-- What the moves keep, and how far they can go.
use roundtable.Prelude.{◌≡◌, ◌≢◌, ◌⊎◌, inl, inr, ◌≤◌, ◌<◌, arith, some}
use roundtable.Api.Phase.{expired, planning, MissionPhase}
use roundtable.Mission.View.{
  View, Moves, stay, begin, accept, reject, provide, plan, assemble, give_up, activate, end,
  clean_end, expire, restore, infer, revisit, agrees, IsConsistent, rank,
}

-- A pass that does not start in Planning keeps the phase and the outcome consistent.
pub Moves-IsConsistent :
    (v u : View) → Moves v u → IsConsistent v → v.phase ≢ planning → IsConsistent u
unfolding agrees
Moves-IsConsistent v u (stay e) h np = ground arith
Moves-IsConsistent v u (begin h' e) h np = ground arith
Moves-IsConsistent v u (accept h' e) h np = ground arith
Moves-IsConsistent v u (reject h' e) h np = ground arith
Moves-IsConsistent v u (provide h' p q e) h np = ground arith
Moves-IsConsistent v u (plan h') h np = absurd (np h')
Moves-IsConsistent v u (assemble h' e) h np = ground arith
Moves-IsConsistent v u (give_up h' e) h np = ground arith
Moves-IsConsistent v u (activate h' e) h np = ground arith
Moves-IsConsistent v u (end h' p q e) h np = ground arith
Moves-IsConsistent v u (clean_end p q h' c e) h np = ground arith
Moves-IsConsistent v u (expire h' e) h np = ground arith
Moves-IsConsistent v u (restore h' p q e) h np = ground arith
Moves-IsConsistent v u (infer h' p q n e) h np = ground arith
Moves-IsConsistent v u (revisit h' e) h np = ground arith

-- A pass that starts neither in Planning nor in Expired keeps the view or brings the mission on.
pub Moves-rank :
    (v u : View)
    → Moves v u
    → IsConsistent v
    → v.phase ≢ planning
    → v.phase ≢ expired
    → (u ≡ v) ⊎ (rank v < rank u)
unfolding agrees rank
Moves-rank v u (stay e) h np ne = inl e
Moves-rank v u (begin h' e) h np ne = inr (ground arith)
Moves-rank v u (accept h' e) h np ne = inr (ground arith)
Moves-rank v u (reject h' e) h np ne = inr (ground arith)
Moves-rank v u (provide h' p q e) h np ne = inr (ground arith)
Moves-rank v u (plan h') h np ne = absurd (np h')
Moves-rank v u (assemble h' e) h np ne = inr (ground arith)
Moves-rank v u (give_up h' e) h np ne = inr (ground arith)
Moves-rank v u (activate h' e) h np ne = inr (ground arith)
Moves-rank v u (end h' p q e) h np ne = inr (ground arith)
Moves-rank v u (clean_end p q h' c e) h np ne = inr (ground arith)
Moves-rank v u (expire h' e) h np ne = inr (ground arith)
Moves-rank v u (restore h' p q e) h np ne = inr (ground arith)
Moves-rank v u (infer h' p q n e) h np ne = inr (ground arith)
Moves-rank v u (revisit h' e) h np ne = absurd (ne h')

pub rank_bound : (v : View) → rank v ≤ 11
unfolding rank
rank_bound v = ground arith

-- An outcome is kept, or the TTL is over.
pub Moves-verdict :
    (v u : View) (q : MissionPhase)
    → Moves v u
    → (v.verdict ≡ some q) ⊎ (v.verdict ≡ some expired)
    → IsConsistent v
    → (u.verdict ≡ some q) ⊎ (u.verdict ≡ some expired)
unfolding agrees
Moves-verdict v u q (stay e) k h = ground arith
Moves-verdict v u q (begin h' e) k h = ground arith
Moves-verdict v u q (accept h' e) k h = ground arith
Moves-verdict v u q (reject h' e) k h = ground arith
Moves-verdict v u q (provide h' p x e) k h = ground arith
Moves-verdict v u q (plan h') k h = ground (arith, h.agreeing)
Moves-verdict v u q (assemble h' e) k h = ground arith
Moves-verdict v u q (give_up h' e) k h = ground arith
Moves-verdict v u q (activate h' e) k h = ground arith
Moves-verdict v u q (end h' p x e) k h = ground arith
Moves-verdict v u q (clean_end p x h' c e) k h = ground arith
Moves-verdict v u q (expire h' e) k h = ground arith
Moves-verdict v u q (restore h' p x e) k h = ground arith
Moves-verdict v u q (infer h' p x n e) k h = ground arith
Moves-verdict v u q (revisit h' e) k h = ground arith
