-- ===== src/Sasku/Hand/Audit.antt =====
-- packages/rules-sasku/src/hand.ts: `auditSaskuHand`, with the snapshot that it reports.
use tablefolk.Base.{
  ℕ, ◌+◌, List, [], ◌∷◌, Option, none, some, ok, err, ◌>>=◌, ◌>>◌, ensure, leb, length,
  if◌then◌else◌,
}
use tablefolk.Sasku.Errors.{SaskuError, AuditRule, Checked, hand_error, bad_history}
use tablefolk.Sasku.Scoring.{Contract, HandScore}
use tablefolk.Sasku.Tricks.{Play}
use tablefolk.Sasku.Hand.State.{
  HandState, Action, RawAction, Phase, Bid, CompletedTrick, refused, max_actions, raw, next_seat,
}
use tablefolk.Sasku.Hand.Next.{is_complete, next_state, HandSetup, new_hand, new_public_hand, run}

-- `SaskuHandSnapshot`.
pub record HandSnapshot : Type 0 where
  pub phase : Phase
  pub dealer : ℕ
  pub turn : Option ℕ
  pub highest_bid : Option Bid
  pub consecutive_passes : ℕ
  pub contract : Option Contract
  pub trick : List Play
  pub completed_tricks : List CompletedTrick
  pub card_points : ℕ × ℕ
  pub tricks_won : ℕ × ℕ
  pub hand_sizes : List ℕ
  pub score : Option HandScore
  pub next_dealer : Option ℕ

unfoldable pub snapshot : HandState → HandSnapshot
snapshot s = record {
  phase = s.phase;
  dealer = s.dealer;
  turn = s.turn;
  highest_bid = s.highest_bid;
  consecutive_passes = s.consecutive_passes;
  contract = s.contract;
  trick = s.trick;
  completed_tricks = s.completed_tricks;
  card_points = s.card_points;
  tricks_won = s.tricks_won;
  hand_sizes = s.hand_sizes;
  score = s.score;
  next_dealer = if is_complete s.phase then some (next_seat s.dealer) else none;
}

-- `SaskuHandAuditResult`.
pub data AuditResult : Type 0 where
  valid incomplete : HandSnapshot → AuditResult
  violation : (seat at : ℕ) → AuditRule → AuditResult

-- The handler of the loop: an error with an audit rule is a violation, any other is thrown on.
abbrev pub blame : ℕ → ℕ → SaskuError → Checked AuditResult
blame seat at (hand_error fault (some rule)) = ok (violation seat at rule)
blame seat at e = err e

unfoldable pub verdict : HandState → AuditResult
verdict s = if is_complete s.phase then valid (snapshot s) else incomplete (snapshot s)

-- The loop over the history of the public hand.
unfoldable pub audit_from : ℕ → HandState → List Action → Checked AuditResult
audit_from at reference [] = ok (verdict reference)
audit_from at reference (action ∷ history) = elim (next_state reference (raw action)) [
  | ok next ↦ audit_from (at + 1) next history
  | err e ↦ blame action.seat at e
]

-- `auditSaskuHand`.
unfoldable pub audit_sasku_hand : HandSetup → List RawAction → Checked AuditResult
audit_sasku_hand setup actions = do
  ensure (leb (length actions) max_actions) (refused bad_history)
  reference ← new_hand setup
  start ← new_public_hand reference.dealer
  public ← run start actions
  audit_from 0 reference public.history
