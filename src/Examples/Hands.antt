-- ===== src/Examples/Hands.antt =====
-- Runs of packages/rules-sasku/src/hand.ts on a pass-round and on an opening.
use tablefolk.Base.{ℕ, ◌≡◌, refl, List, [], ◌∷◌, none, some, ok, err, flat_map, ◌+◌, length, map}
use tablefolk.Sasku.Errors.{Checked}
use tablefolk.Sasku.Hand.State.{RawMove, pass, call_diamonds, play, RawAction, HandState, complete}
use tablefolk.Sasku.Deck.{
  parse_sasku_card, sasku_cards, deck, describe, card_eq, card_text, court_order, court_strength,
  is_court, rank_points, strength, Suit, CardId, ranks, suits,
}
use tablefolk.Sasku.Hand.Auction.{declare, declare, bidding_step, count_pass}
use tablefolk.Sasku.Hand.Next.{run, next_state, advance, phase_step}
use tablefolk.Sasku.Hand.Playing.{
  playing_step, play_card, check_hand, after_card, put_card, after_trick, collect_trick,
  finish_hand, finish_trick,
}
use tablefolk.Sasku.Hand.State.{
  normalize_action, normalize_move, initial_state, next_seat, trump_suit,
}
use tablefolk.Sasku.Scoring.{
  add_card, empty_table, feasible_points, integer, inventory, mark_row, mark_rows, pair,
  partnership_for_seat, score_result, score_contract, score_pass_round, score_sasku_hand,
}
use tablefolk.Sasku.Tricks.{
  best_play, effective_suit, normalize_plays, normalize_trick, priority, resolve_sasku_trick,
  winner_of, legal_sasku_cards, unseen_cards, following_cards,
}
use tablefolk.Sasku.Hand.Whole.{NoRepeat}
use tablefolk.Sasku.Hand.Sound.{played}
use tablefolk.Sasku.Hand.Outcome.{Sounds}
use tablefolk.Sasku.Hand.Hidden.{hide, run-hide}
use tablefolk.Sasku.Hand.Public.{public_run-Sounds, public_complete}

abbrev by : ℕ → RawMove → RawAction
by seat move = record { seat = seat; move = move }

-- A pass-round in which each trick takes the four cards of a rank.
abbrev pass_round_actions : List RawAction
pass_round_actions =
    by 0 pass
    ∷ by 1 pass
    ∷ by 2 pass
    ∷ by 3 pass
    ∷ by 0 (play "6C")
    ∷ by 1 (play "6S")
    ∷ by 2 (play "6H")
    ∷ by 3 (play "6D")
    ∷ by 3 (play "7C")
    ∷ by 0 (play "7S")
    ∷ by 1 (play "7H")
    ∷ by 2 (play "7D")
    ∷ by 2 (play "8C")
    ∷ by 3 (play "8S")
    ∷ by 0 (play "8H")
    ∷ by 1 (play "8D")
    ∷ by 1 (play "9C")
    ∷ by 2 (play "9S")
    ∷ by 3 (play "9H")
    ∷ by 0 (play "9D")
    ∷ by 0 (play "10C")
    ∷ by 1 (play "10S")
    ∷ by 2 (play "10H")
    ∷ by 3 (play "10D")
    ∷ by 3 (play "JC")
    ∷ by 0 (play "JS")
    ∷ by 1 (play "JH")
    ∷ by 2 (play "JD")
    ∷ by 3 (play "QC")
    ∷ by 0 (play "QS")
    ∷ by 1 (play "QH")
    ∷ by 2 (play "QD")
    ∷ by 3 (play "KC")
    ∷ by 0 (play "KS")
    ∷ by 1 (play "KH")
    ∷ by 2 (play "KD")
    ∷ by 3 (play "AC")
    ∷ by 0 (play "AS")
    ∷ by 1 (play "AH")
    ∷ by 2 (play "AD")
    ∷ []

abbrev reached : Checked HandState → HandState
reached (ok s) = s
reached (err e) = initial_state 0 none

abbrev final_state : HandState
final_state = reached (run (initial_state 3 none) pass_round_actions)

public_run-Sounds_example : Sounds (run (initial_state 3 none) pass_round_actions)
public_run-Sounds_example = public_run-Sounds 3 pass_round_actions

pass_round_completes :
    (run (initial_state 3 none) pass_round_actions ≡ ok final_state)
    × (final_state.phase ≡ complete)
    × (final_state.card_points ≡ (44, 76))
unfolding run next_state normalize_action normalize_move advance initial_state phase_step
    bidding_step count_pass parse_sasku_card sasku_cards deck describe card_text is_court
    rank_points flat_map card_eq playing_step play_card check_hand put_card after_card finish_trick
    collect_trick after_trick finish_hand trump_suit next_seat resolve_sasku_trick normalize_trick
    normalize_plays winner_of best_play priority effective_suit strength court_strength court_order
    score_sasku_hand pair integer feasible_points add_card mark_rows mark_row empty_table inventory
    score_contract score_pass_round partnership_for_seat score_result
pass_round_completes = (refl, refl, refl)

public_complete_example :
    (final_state.card_points.0 + final_state.card_points.1 ≡ 120)
    × (final_state.tricks_won.0 + final_state.tricks_won.1 ≡ 9)
    × (length (played final_state.history) ≡ 36)
    × NoRepeat (played final_state.history)
public_complete_example =
    public_complete 3 pass_round_actions final_state pass_round_completes.0 pass_round_completes.1

-- Hands by suit; seat 0 calls diamonds and leads a card.
abbrev suit_hand : Suit → List CardId
suit_hand s = map (λ r. record { rank = r; suit = s }) ranks

abbrev dealt : HandState
unfolding initial_state
dealt = initial_state 3 (some (map suit_hand suits))

abbrev opening : List RawAction
opening = by 0 call_diamonds ∷ by 0 (play "KC") ∷ []

opening_accepted : run dealt opening ≡ ok (reached (run dealt opening))
unfolding run next_state normalize_action normalize_move advance initial_state next_seat phase_step
    bidding_step declare playing_step parse_sasku_card sasku_cards deck describe card_text is_court
    flat_map card_eq play_card check_hand trump_suit legal_sasku_cards unseen_cards following_cards
    normalize_trick normalize_plays put_card after_card
opening_accepted = refl

run-hide_example : run (hide dealt) opening ≡ ok (hide (reached (run dealt opening)))
run-hide_example = run-hide opening dealt (reached (run dealt opening)) opening_accepted
