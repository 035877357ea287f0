-- ===== src/Sasku/Hand/Playing.antt =====
-- packages/rules-sasku/src/hand.ts: the branch of `nextState` for trick play.
use tablefolk.Base.{
  ℕ, ◌+◌, ◌-◌, Bool, false, not, List, [], ◌∷◌, ◌++◌, Option, none, some, ok, err, ◌>>=◌, ◌>>◌,
  ensure, expect, ◌==◌, if◌then◌else◌, any, length, get_or, get_elem?, set,
}
use tablefolk.Sasku.Errors.{
  Checked, hand_error, type_error, not_held, must_follow, played_before, no_cards_left, must_play,
  card_ownership, follow_suit,
}
use tablefolk.Sasku.Deck.{CardId, card_eq}
use tablefolk.Sasku.Scoring.{score_sasku_hand}
use tablefolk.Sasku.Tricks.{TrickResult, includes, legal_sasku_cards, resolve_sasku_trick}
use tablefolk.Sasku.Hand.State.{
  HandState, Action, Move, play, complete, next_seat, refused, trump_suit,
}

-- `past.type === "play" && past.card === action.card`.
abbrev pub is_play_of : CardId → Action → Bool
is_play_of card past = elim past.move [ play c ↦ card_eq card c | _ ↦ false ]

-- `state.hands?.[action.seat]`.
abbrev pub hand_of : Option (List (List CardId)) → ℕ → Option (List CardId)
hand_of none seat = none
hand_of (some hands) seat = get_elem? hands seat

-- The checks that a known hand allows.
unfoldable pub check_hand : HandState → CardId → Option (List CardId) → Checked (Unit {0})
check_hand state card none = ok tt
check_hand state card (some hand) = do
  ensure (includes card hand) (hand_error not_held (some card_ownership))
  trump ← trump_suit state.contract
  legal ← legal_sasku_cards hand state.trick trump
  ensure (includes card legal) (hand_error must_follow (some follow_suit))

-- `hand.splice(hand.indexOf(card), 1)` of a card that is there.
abbrev pub remove_card : CardId → List CardId → List CardId
remove_card card [] = []
remove_card card (c ∷ hand) = if card_eq card c then hand else c ∷ remove_card card hand

abbrev pub drop_card : ℕ → CardId → Option (List (List CardId)) → Option (List (List CardId))
drop_card seat card none = none
drop_card seat card (some hands) = some (set hands seat (remove_card card (get_or hands seat [])))

-- `pair[partnership] += amount`.
abbrev pub add_to : ℕ → ℕ → ℕ × ℕ → ℕ × ℕ
add_to partnership amount (a, b) = if partnership == 0 then (a + amount, b) else (a, b + amount)

unfoldable pub finish_hand : HandState → Checked HandState
finish_hand state = do
  contract ← expect state.contract type_error
  score ←
      score_sasku_hand
        (record { card_points = state.card_points; tricks = state.tricks_won; contract = contract })
  ok (record state { phase = complete; turn = none; score = some score })

-- The state after a trick went to its winner.
unfoldable pub collect_trick : HandState → TrickResult → HandState
collect_trick state result = record state {
  trick = [];
  completed_tricks = state.completed_tricks ++ record { result = result; plays = state.trick } ∷ [];
  card_points = add_to result.partnership result.card_points state.card_points;
  tricks_won = add_to result.partnership 1 state.tricks_won;
}

-- The last trick ends the hand; the winner of any other leads the next one.
unfoldable pub after_trick : HandState → ℕ → Checked HandState
after_trick state winner =
    if length state.completed_tricks == 9
    then finish_hand state
    else ok (record state { turn = some winner })

unfoldable pub finish_trick : HandState → Checked HandState
finish_trick state = do
  trump ← trump_suit state.contract
  result ← resolve_sasku_trick state.trick trump
  after_trick (collect_trick state result) result.winner.seat

-- The card goes from the hand to the trick.
unfoldable pub put_card : HandState → ℕ → CardId → HandState
put_card state seat card = record state {
  hands = drop_card seat card state.hands;
  hand_sizes = set state.hand_sizes seat (get_or state.hand_sizes seat 0 - 1);
  trick = state.trick ++ record { seat = seat; card = card } ∷ [];
}

unfoldable pub after_card : HandState → ℕ → Checked HandState
after_card state seat =
    if length state.trick == 4
    then finish_trick state
    else ok (record state { turn = some (next_seat seat) })

unfoldable pub play_card : List Action → HandState → ℕ → CardId → Checked HandState
play_card past state seat card = do
  check_hand state card (hand_of state.hands seat)
  ensure (not (any (is_play_of card) past)) (refused played_before)
  ensure (not (get_or state.hand_sizes seat 1 == 0)) (refused no_cards_left)
  after_card (put_card state seat card) seat

unfoldable pub playing_step : List Action → HandState → ℕ → Move → Checked HandState
playing_step past state seat (play card) = play_card past state seat card
playing_step past state seat _ = err (refused must_play)
