-- ===== src/Examples/Rules.antt =====
-- Runs of packages/rules-sasku/src/cards.ts, scoring.ts and action.ts.
use tablefolk.Sasku.Action.{ActionInput, number, decode_sasku_action, decode_move, decode_call}
use tablefolk.Sasku.Hand.State.{Action, bid}
use tablefolk.Base.{
  ◌≡◌, refl, List, [], ◌∷◌, none, some, ok, err, flat_map, ◌≢◌, ◌↔◌, inl, In, arith, true,
}
use tablefolk.Sasku.Errors.{Checked}
use tablefolk.Sasku.Deck.{
  parse_sasku_card, sasku_cards, deck, describe, card_eq, card_text, court_order, court_strength,
  is_court, rank_points, strength, Suit, Rank, CardId, clubs, spades, hearts, diamonds, six, ten,
  jack, ace,
}
use tablefolk.Sasku.Scoring.{
  add_card, empty_table, feasible_points, integer, inventory, mark_row, mark_rows, pair,
  partnership_for_seat, score_result, score_contract, score_named, score_sasku_hand, HandScore,
  HandTotals, pokk, named, cell,
}
use tablefolk.Sasku.Tricks.{best_play, effective_suit, priority, winner_of, Play, legal_sasku_cards}
use tablefolk.Sasku.Scoring.Laws.{IsPossible, score_iff}
use tablefolk.Sasku.Scoring.Table.{Select, feasible_iff}
use tablefolk.Sasku.Tricks.Winner.{Beats, winner-Beats_all}
use tablefolk.Sasku.Tricks.Following.{IsTrick, IsHand, MayPlay, legal_iff}

abbrev score_of : Checked HandScore → HandScore
score_of (ok r) = r
score_of (err e) = record {
  kind = pokk;
  winner = none;
  game_points = (0, 0);
  base_points = 0;
  bonus_points = 0;
}

abbrev ninety : HandTotals
ninety = record { card_points = (90, 30); tricks = (6, 3); contract = named hearts 1 }

ninety_accepted : score_sasku_hand ninety ≡ ok (score_of (score_sasku_hand ninety))
unfolding score_sasku_hand pair integer feasible_points add_card mark_rows mark_row empty_table
    inventory flat_map score_contract score_named partnership_for_seat score_result
ninety_accepted = refl

score_iff_example : ((r : HandScore) × (score_sasku_hand ninety ≡ ok r)) ↔ IsPossible ninety
score_iff_example = score_iff ninety

feasible_iff_example : (cell feasible_points 8 30 ≡ true) ↔ Select inventory 8 30
feasible_iff_example = feasible_iff 8 30 (omega arith) (omega arith)

-- A trick that the jack of diamonds takes from a plain ace.
abbrev card : Rank → Suit → CardId
card r s = record { rank = r; suit = s }

abbrev led_ace : Play
led_ace = record { seat = 0; card = card ace clubs }

abbrev jack_play : Play
jack_play = record { seat = 2; card = card jack diamonds }

abbrev after_ace : List Play
after_ace =
    record { seat = 1; card = card six clubs }
    ∷ jack_play
    ∷ record { seat = 3; card = card ten clubs }
    ∷ []

jack_wins : winner_of (led_ace ∷ after_ace) spades ≡ some jack_play
unfolding winner_of best_play priority effective_suit describe is_court card_text rank_points
    strength court_strength court_order flat_map card_eq
jack_wins = refl

jack_differs : card ace clubs ≢ card jack diamonds
jack_differs e = cc

winner-Beats_all_example :
    In jack_play (led_ace ∷ after_ace)
    × Beats spades (effective_suit (card ace clubs) spades) (card jack diamonds) (card ace clubs)
winner-Beats_all_example =
    winner-Beats_all led_ace after_ace spades jack_play led_ace jack_wins (inl refl) jack_differs

ace-IsTrick : IsTrick (led_ace ∷ after_ace)
unfolding card_eq
ace-IsTrick = (
  omega arith,
  (
    omega arith,
    refl,
    refl,
    (omega arith, refl, refl, (omega arith, refl, refl, (omega arith, refl, refl, tt))),
  ),
)

ace_lead : IsTrick (led_ace ∷ [])
unfolding card_eq
ace_lead = (omega arith, (omega arith, refl, refl, tt))

abbrev two_cards : List CardId
two_cards = card six clubs ∷ card ace hearts ∷ []

two_cards-IsHand : IsHand two_cards (led_ace ∷ [])
unfolding card_eq
two_cards-IsHand = (omega arith, (refl, (refl, tt)))

legal_iff_example :
    (cards : List CardId) × (legal_sasku_cards two_cards (led_ace ∷ []) spades ≡ ok cards)
    × (In (card ace hearts) cards ↔ (
        In (card ace hearts) two_cards × MayPlay two_cards (led_ace ∷ []) spades (card ace hearts)))
legal_iff_example =
    legal_iff two_cards (led_ace ∷ []) spades (card ace hearts) ace_lead (omega arith)
      two_cards-IsHand

ten_read : parse_sasku_card "10H" ≡ ok (describe (card ten hearts))
unfolding parse_sasku_card sasku_cards deck describe card_text rank_points is_court flat_map
ten_read = refl

abbrev bid_input : ActionInput
bid_input = record { kind = "bid"; data_fields = ("value", number 5) ∷ []; reveal = [] }

abbrev bid_action : Action
bid_action = record { seat = 2; move = bid 5 }

bid_decoded : decode_sasku_action 2 bid_input [] ≡ ok bid_action
unfolding decode_sasku_action decode_move decode_call
bid_decoded = refl
