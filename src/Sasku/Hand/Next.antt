-- ===== src/Sasku/Hand/Next.antt =====
-- packages/rules-sasku/src/hand.ts: `nextState`, the two controllers and the replay of a history.
use tablefolk.Base.{
  ℕ, String, Bool, true, false, not, List, [], ◌∷◌, ◌++◌, Option, none, some, ok, ◌>>=◌, ◌>>◌,
  ensure, ltb, leb, ◌==◌, length,
}
use tablefolk.Sasku.Errors.{
  Checked, bad_deal, bad_seat, hand_complete, wrong_turn, too_many_actions, bad_history,
}
use tablefolk.Sasku.Deck.{CardId, parse_sasku_card}
use tablefolk.Sasku.Tricks.{includes}
use tablefolk.Sasku.Hand.State.{
  HandState, Action, RawAction, Phase, bidding, choosing_trump, complete, refused, max_actions,
  normalize_action, initial_state,
}
use tablefolk.Sasku.Hand.Auction.{bidding_step, choosing_step}
use tablefolk.Sasku.Hand.Playing.{playing_step}

abbrev pub is_complete : Phase → Bool
is_complete complete = true
is_complete _ = false

-- `action.seat === current.turn`.
abbrev pub is_turn : Option ℕ → ℕ → Bool
is_turn none seat = false
is_turn (some turn) seat = seat == turn

-- The branches of `nextState` on the phase; a complete hand was refused before.
unfoldable pub phase_step : Phase → List Action → HandState → Action → Checked HandState
phase_step bidding past state action = bidding_step past state action.seat action.move
phase_step choosing_trump past state action = choosing_step state action.seat action.move
phase_step _ past state action = playing_step past state action.seat action.move

-- `nextState`, from a normal action on.
unfoldable pub advance : HandState → Action → Checked HandState
advance current action = do
  ensure (not (is_complete current.phase)) (refused hand_complete)
  ensure (is_turn current.turn action.seat) (refused wrong_turn)
  ensure (ltb (length current.history) max_actions) (refused too_many_actions)
  phase_step current.phase current.history
      (record current { history = current.history ++ action ∷ [] }) action

-- `nextState`. `apply` of either controller replaces its state by the result.
unfoldable pub next_state : HandState → RawAction → Checked HandState
next_state current candidate = do action ← normalize_action candidate; advance current action

-- `SaskuHandSetup`: the dealer and the texts of the hands.
pub record HandSetup : Type 0 where
  pub dealer : ℕ
  pub hands : List (List String)

-- The loop over a hand's cards, with the set of cards seen in the deal so far.
unfoldable pub read_hand : List CardId → List String → Checked (List CardId × List CardId)
read_hand seen [] = ok (seen, [])
read_hand seen (text ∷ texts) = do
  card ← parse_sasku_card text
  ensure (not (includes card.id seen)) (refused bad_deal)
  rest ← read_hand (card.id ∷ seen) texts
  ok (rest.0, card.id ∷ rest.1)

unfoldable pub read_hands : List CardId → List (List String) → Checked (List (List CardId))
read_hands seen [] = ok []
read_hands seen (texts ∷ hands) = do
  ensure (length texts == 9) (refused bad_deal)
  hand ← read_hand seen texts
  rest ← read_hands hand.0 hands
  ok (hand.1 ∷ rest)

-- The constructor of `SaskuHandController`.
unfoldable pub new_hand : HandSetup → Checked HandState
new_hand setup = do
  ensure (length setup.hands == 4) (refused bad_deal)
  ensure (leb setup.dealer 3) (refused bad_seat)
  hands ← read_hands [] setup.hands
  ok (initial_state setup.dealer (some hands))

-- The constructor of `SaskuPublicHandController`.
unfoldable pub new_public_hand : ℕ → Checked HandState
new_public_hand dealer = do ensure (leb dealer 3) (refused bad_seat); ok (initial_state dealer none)

-- One `apply` after another.
unfoldable pub run : HandState → List RawAction → Checked HandState
run state [] = ok state
run state (a ∷ actions) = do next ← next_state state a; run next actions

-- `replaySaskuHand`.
unfoldable pub replay_sasku_hand : HandSetup → List RawAction → Checked HandState
replay_sasku_hand setup actions = do
  ensure (leb (length actions) max_actions) (refused bad_history)
  start ← new_hand setup
  run start actions
