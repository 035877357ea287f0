-- ===== src/Sasku/Errors.antt =====
-- The errors that packages/rules-sasku throws, by class: `SaskuPlayError`, `SaskuScoringError`,
-- `SaskuHandError` with its audit rule, and the `TypeError` of a read through `null`.
use tablefolk.Base.{Option, Result}

pub data PlayFault : Type 0 where
  unknown_card trick_complete hand_too_long duplicate_card trick_too_long bad_seat repeated_play
        incomplete_trick :
      PlayFault

pub data ScoringFault : Type 0 where
  bad_number points_total tricks_total infeasible : ScoringFault

pub data HandFault : Type 0 where
  bad_deal bad_seat bad_fields hand_complete wrong_turn too_many_actions bid_too_strong bid_too_low
        bid_again not_bidding_move must_choose must_play not_held must_follow played_before
        no_cards_left bad_history bad_action :
      HandFault

pub data AuditRule : Type 0 where
  bid_strength card_ownership follow_suit : AuditRule

pub data SaskuError : Type 0 where
  play_error : PlayFault → SaskuError
  scoring_error : ScoringFault → SaskuError
  hand_error : HandFault → Option AuditRule → SaskuError
  type_error : SaskuError

abbrev pub Checked : Type 0 → Type 0
Checked A = Result SaskuError A
