-- ===== src/Sasku/Hand/State.antt =====
-- packages/rules-sasku/src/hand.ts: the state of a hand, its actions and their normal form.
use text.Mathlib.Text.{◌==◌ as str_eq}
use tablefolk.Base.{
  ℕ, ◌+◌, ◌%◌, String, ◌&&◌, List, [], ◌∷◌, Option, none, some, ok, err, ◌>>=◌, ◌>>◌, ensure,
  expect, leb, find,
}
use tablefolk.Sasku.Errors.{
  SaskuError, HandFault, Checked, play_error, hand_error, type_error, bad_seat, bad_action,
}
use tablefolk.Sasku.Deck.{
  Suit, clubs, spades, hearts, diamonds, CardId, card_text, parse_sasku_card, suits,
}
use tablefolk.Sasku.Scoring.{Contract, named, pass_round, HandScore}
use tablefolk.Sasku.Tricks.{Play, TrickResult}

pub data Phase : Type 0 where
  bidding choosing_trump playing complete : Phase

pub record Bid : Type 0 where
  pub seat : ℕ
  pub value : ℕ

pub data Move : Type 0 where
  pass call_diamonds : Move
  bid : ℕ → Move
  choose_trump : Suit → Move
  play : CardId → Move

-- `SaskuHandAction`, as `normalizeAction` returns it.
pub record Action : Type 0 where
  pub seat : ℕ
  pub move : Move

-- An action as it is given: texts are not yet read, and `other` stands for all else, such as a
-- wrong set of keys or a bid that is no whole number.
pub data RawMove : Type 0 where
  pass call_diamonds other : RawMove
  bid : ℕ → RawMove
  choose_trump play : String → RawMove

pub record RawAction : Type 0 where
  pub seat : ℕ
  pub move : RawMove

pub record CompletedTrick : Type 0 where
  pub result : TrickResult
  pub plays : List Play

-- `HandState`. `hands` is absent in a public hand.
pub record HandState : Type 0 where
  pub phase : Phase
  pub dealer : ℕ
  pub turn : Option ℕ
  pub highest_bid : Option Bid
  pub consecutive_passes : ℕ
  pub contract : Option Contract
  pub hands : Option (List (List CardId))
  pub hand_sizes : List ℕ
  pub trick : List Play
  pub completed_tricks : List CompletedTrick
  pub card_points : ℕ × ℕ
  pub tricks_won : ℕ × ℕ
  pub score : Option HandScore
  pub history : List Action

-- A `SaskuHandError` with no audit rule.
abbrev pub refused : HandFault → SaskuError
refused fault = hand_error fault none

-- `MAX_SASKU_HAND_ACTIONS`.
abbrev pub max_actions : ℕ
max_actions = 64

unfoldable pub next_seat : ℕ → ℕ
next_seat seat = (seat + 1) % 4

-- `trumpSuit(state.contract!)`.
unfoldable pub trump_suit : Option Contract → Checked Suit
trump_suit none = err type_error
trump_suit (some pass_round) = ok diamonds
trump_suit (some (named suit seat)) = ok suit

abbrev pub suit_text : Suit → String
suit_text clubs = "clubs"
suit_text spades = "spades"
suit_text hearts = "hearts"
suit_text diamonds = "diamonds"

-- A move of a `play` action: `SaskuPlayError` is caught, and any other error is thrown on.
abbrev pub played_card : Checked CardId → Checked Move
played_card (ok c) = ok (play c)
played_card (err (play_error fault)) = err (refused bad_action)
played_card (err e) = err e

abbrev pub card_id_of : String → Checked CardId
card_id_of text = do card ← parse_sasku_card text; ok card.id

unfoldable pub normalize_move : RawMove → Checked Move
normalize_move pass = ok pass
normalize_move call_diamonds = ok call_diamonds
normalize_move (bid value) = do
  ensure (leb 3 value && leb value 9) (refused bad_action)
  ok (bid value)
normalize_move (choose_trump text) = do
  suit ← expect (find (λ s. str_eq (suit_text s) text) suits) (refused bad_action)
  ok (choose_trump suit)
normalize_move (play text) = played_card (card_id_of text)
normalize_move other = err (refused bad_action)

-- `normalizeAction`.
unfoldable pub normalize_action : RawAction → Checked Action
normalize_action a = do
  ensure (leb a.seat 3) (refused bad_seat)
  move ← normalize_move a.move
  ok (record { seat = a.seat; move = move })

-- A normal action, given again.
abbrev pub raw_move : Move → RawMove
raw_move pass = pass
raw_move call_diamonds = call_diamonds
raw_move (bid value) = bid value
raw_move (choose_trump suit) = choose_trump (suit_text suit)
raw_move (play card) = play (card_text card)

abbrev pub raw : Action → RawAction
raw a = record { seat = a.seat; move = raw_move a.move }

-- `initialState`.
unfoldable pub initial_state : ℕ → Option (List (List CardId)) → HandState
unfolding next_seat
initial_state dealer hands = record {
  phase = bidding;
  dealer = dealer;
  turn = some (next_seat dealer);
  highest_bid = none;
  consecutive_passes = 0;
  contract = none;
  hands = hands;
  hand_sizes = 9 ∷ 9 ∷ 9 ∷ 9 ∷ [];
  trick = [];
  completed_tricks = [];
  card_points = (0, 0);
  tricks_won = (0, 0);
  score = none;
  history = [];
}
