-- ===== src/Sasku/Hand/Hidden.antt =====
-- The public hand beside the reference hand.
use tablefolk.Base.{ℕ, ◌≡◌, inl, inr, List, [], ◌∷◌, ◌++◌, none, ok, arith, Result-cases}
use tablefolk.Sasku.Errors.{Checked}
use tablefolk.Sasku.Deck.{CardId}
use tablefolk.Sasku.Tricks.{resolve_sasku_trick}
use tablefolk.Sasku.Hand.State.{
  HandState, Action, Move, bid, choose_trump, play, Phase, bidding, choosing_trump, RawAction,
  trump_suit, normalize_action,
}
use tablefolk.Sasku.Hand.Auction.{
  bidding_step, choosing_step, place_bid, check_strength, declare, count_pass,
}
use tablefolk.Sasku.Hand.Playing.{
  playing_step, play_card, check_hand, put_card, after_card, finish_trick, after_trick, finish_hand,
  collect_trick,
}
use tablefolk.Sasku.Hand.Next.{phase_step, advance, next_state, run}

-- A state without its cards, as the public hand keeps it.
abbrev pub hide : HandState → HandState
hide s = record s { hands = none }

abbrev Follows : (HandState → Checked HandState) → Type 0
Follows f = (s s' : HandState) → f s ≡ ok s' → f (hide s) ≡ ok (hide s')

finish_hand-Follows : Follows finish_hand
unfolding finish_hand
finish_hand-Follows s s' h = ground arith

after_trick-Follows : (winner : ℕ) → Follows (λ s. after_trick s winner)
unfolding after_trick
after_trick-Follows winner s s' h = ground (arith, finish_hand-Follows s s')

finish_trick-Follows : Follows finish_trick
unfolding finish_trick collect_trick
finish_trick-Follows s s' h = elim (Result-cases (trump_suit s.contract)) [
  | inr (x, e) ↦ ground arith
  | inl (t, e) ↦ elim (Result-cases (resolve_sasku_trick s.trick t)) [
    | inr (x, f) ↦ ground arith
    | inl (r, f) ↦
        rw (e, f) (after_trick-Follows r.winner.seat (collect_trick s r) s' (ground arith))
  ]
]

after_card-Follows : (seat : ℕ) → Follows (λ s. after_card s seat)
unfolding after_card
after_card-Follows seat s s' h = ground (arith, finish_trick-Follows s s')

play_card-Follows :
    (past : List Action) (seat : ℕ) (card : CardId) → Follows (λ s. play_card past s seat card)
unfolding play_card put_card check_hand
play_card-Follows past seat card s s' h =
    ground (arith, after_card-Follows seat (put_card s seat card) s')

place_bid-Follows :
    (past : List Action) (seat value : ℕ) → Follows (λ s. place_bid past s seat value)
unfolding place_bid check_strength
place_bid-Follows past seat value s s' h = ground arith

bidding_step-Follows :
    (past : List Action) (seat : ℕ) (m : Move) → Follows (λ s. bidding_step past s seat m)
unfolding bidding_step declare count_pass
bidding_step-Follows past seat (bid value) s s' h = place_bid-Follows past seat value s s' h
bidding_step-Follows past seat _ s s' h = ground arith

choosing_step-Follows : (seat : ℕ) (m : Move) → Follows (λ s. choosing_step s seat m)
unfolding choosing_step declare
choosing_step-Follows seat (choose_trump suit) s s' h = ground arith
choosing_step-Follows seat _ s s' h = ground arith

playing_step-Follows :
    (past : List Action) (seat : ℕ) (m : Move) → Follows (λ s. playing_step past s seat m)
unfolding playing_step
playing_step-Follows past seat (play card) s s' h = play_card-Follows past seat card s s' h
playing_step-Follows past seat _ s s' h = ground arith

phase_step-Follows :
    (past : List Action) (a : Action) (p : Phase) → Follows (λ s. phase_step p past s a)
unfolding phase_step
phase_step-Follows past a bidding s s' h = bidding_step-Follows past a.seat a.move s s' h
phase_step-Follows past a choosing_trump s s' h = choosing_step-Follows a.seat a.move s s' h
phase_step-Follows past a _ s s' h = playing_step-Follows past a.seat a.move s s' h

advance-Follows : (a : Action) → Follows (λ s. advance s a)
unfolding advance
advance-Follows a s s' h =
    ground (
      arith,
      phase_step-Follows s.history a s.phase (record s { history = s.history ++ a ∷ [] }) s',
    )

-- Whatever action the hand with all cards accepts, the public hand in the same state accepts, and
-- the new states agree but for the cards.
pub next_state-hide :
    (a : RawAction) (s s' : HandState)
    → next_state s a ≡ ok s'
    → next_state (hide s) a ≡ ok (hide s')
unfolding next_state
next_state-hide a s s' h = elim (Result-cases (normalize_action a)) [
  | inl (n, e) ↦ rw e (advance-Follows n s s' (ground arith))
  | inr (x, e) ↦ ground arith
]

-- The public hand accepts every history that the hand with all cards accepts from the same state,
-- and ends in the same state but for the cards.
pub run-hide :
    (actions : List RawAction) (s s' : HandState)
    → run s actions ≡ ok s'
    → run (hide s) actions ≡ ok (hide s')
unfolding run
run-hide [] s s' h = ground arith
run-hide (a ∷ actions) s s' h = elim (Result-cases (next_state s a)) [
  | inl (t, e) ↦ rw (next_state-hide a s t e) (run-hide actions t s' (ground arith))
  | inr (x, e) ↦ ground arith
]
