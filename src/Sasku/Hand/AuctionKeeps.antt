-- ===== src/Sasku/Hand/AuctionKeeps.antt =====
-- The invariant of a hand through bids, passes and choices of trump.
use mathlib.Core.List.{append-nil}
use tablefolk.Base.{
  get_or, leb, ℕ, ◌+◌, ◌%◌, ◌≤◌, ◌≡◌, refl, sym, ◌∙◌, ap, subst, List, [], ◌∷◌, ◌++◌, Option, none,
  some, arith, length, any, ◌==◌, if◌then◌else◌, Bool-cases, inl, inr, ◌>>=◌, ensure,
}
use tablefolk.Sasku.Errors.{bid_too_strong, bid_strength, hand_error}
use tablefolk.Sasku.Deck.{describe, CardId, Suit}
use tablefolk.Sasku.Scoring.{Contract, named, pass_round}
use tablefolk.Sasku.Tricks.{includes}
use tablefolk.Sasku.Hand.State.{
  HandState, Action, Phase, bidding, choosing_trump, playing, Bid, next_seat,
}
use tablefolk.Sasku.Hand.Auction.{
  SuitCounts, longest, count_suit, bid_tally, sasku_bid_strength, outbids, is_bid_by, place_bid,
  check_strength, declare, count_pass, after_pass,
}
use tablefolk.Sasku.Hand.Whole.{NoRepeat}
use tablefolk.Sasku.Hand.Sound.{
  IsSound, IsSeat, IsBid, Agreed, Idle, Unfinished, NextTurn, played, played-append,
}
use tablefolk.Sasku.Hand.Outcome.{Sounds, logged, Refuses, Refuses-then}

bid_tally-Refuses :
    (seen : List CardId) (courts : ℕ) (counts : SuitCounts) (hand : List CardId) (value : ℕ)
    → Refuses (
        bid_tally seen courts counts hand >>= λ strength.
        ensure (leb value strength) (hand_error bid_too_strong (some bid_strength)))
unfolding bid_tally
bid_tally-Refuses seen courts counts [] value =
    elim (Bool-cases (leb value (courts + longest counts))) [ inl e ↦ rw e tt | inr e ↦ rw e tt ]
bid_tally-Refuses seen courts counts (c ∷ hand) value = elim (Bool-cases (includes c seen)) [
  | inl e ↦ rw e tt
  | inr e ↦ rw e (
      bid_tally-Refuses (c ∷ seen) (if (describe c).is_court then courts + 1 else courts)
        (if (describe c).is_court then counts else count_suit c.suit counts) hand value)
]

check_strength-Refuses :
    (hands : Option (List (List CardId))) (seat value : ℕ)
    → Refuses (check_strength hands seat value)
unfolding check_strength sasku_bid_strength
check_strength-Refuses none seat value = tt
check_strength-Refuses (some hands) seat value =
    elim (Bool-cases (length (get_or hands seat []) == 9)) [
      | inl e ↦ rw e (bid_tally-Refuses [] 0 _ (get_or hands seat []) value)
      | inr e ↦ rw e tt
    ]

-- An action of the auction.
module _ (s : HandState) (a : Action) (h : IsSound s) (quiet : played (a ∷ []) ≡ [])
    (clear : s.trick ≡ []) where
  same_cards : played (s.history ++ a ∷ []) ≡ played s.history
  same_cards =
      played-append s.history a ∙ ap (◌++◌ (played s.history)) quiet ∙ append-nil (played s.history)

  arranged :
      (phase : Phase) (turn : Option ℕ) (highest : Option Bid) (passes : ℕ)
      (contract : Option Contract)
      → IsSeat turn
      → IsBid highest
      → Agreed phase contract
      → Idle phase s.trick
      → Unfinished phase (length s.completed_tricks)
      → IsSound (record (logged s a) {
        phase = phase;
        turn = turn;
        highest_bid = highest;
        consecutive_passes = passes;
        contract = contract;
      })
  arranged phase turn highest passes contract seated bidder agreed idle unfinished = record {
    seated = seated;
    bidder = bidder;
    cards = same_cards ∙ h.cards;
    distinct = subst NoRepeat (sym same_cards) h.distinct;
    in_turn = h.in_turn;
    next = subst (λ l. NextTurn l turn) (sym clear) tt;
    short = h.short;
    idle = idle;
    agreed = agreed;
    full = h.full;
    points_won = h.points_won;
    tricks_won = h.tricks_won;
    unfinished = unfinished;
  }

  pub declare-IsSound :
      (suit : Suit)
      → a.seat ≤ 3
      → length s.completed_tricks ≡ 0
      → IsSound (declare (logged s a) a.seat suit)
  unfolding declare
  declare-IsSound suit low none_yet =
      arranged playing (some a.seat) s.highest_bid s.consecutive_passes (some (named suit a.seat))
        low h.bidder low tt (omega arith)

  module _ (here : s.phase ≡ bidding) (low : a.seat ≤ 3) where
    bids_on :
        (turn : Option ℕ) (highest : Option Bid) (passes : ℕ)
        → IsSeat turn
        → IsBid highest
        → IsSound (record (logged s a) {
          turn = turn;
          highest_bid = highest;
          consecutive_passes = passes;
        })
    bids_on turn highest passes seated bidder =
        arranged s.phase turn highest passes s.contract seated bidder h.agreed h.idle h.unfinished

    pub none_yet : length s.completed_tricks ≡ 0
    none_yet = subst (λ p. Unfinished p (length s.completed_tricks)) here h.unfinished

    unagreed : s.contract ≡ none
    unagreed = subst (λ p. Agreed p s.contract) here h.agreed

    after_pass-IsSound :
        (b : Option Bid)
        → s.highest_bid ≡ b
        → IsBid b
        → IsSound (
            after_pass
              (record (logged s a) { consecutive_passes = s.consecutive_passes + 1 })
              a.seat
              b)
    unfolding next_seat
    after_pass-IsSound none e l = elim (Bool-cases (s.consecutive_passes + 1 == 4)) [
      | inl four ↦ rw four (
          arranged playing (some ((s.dealer + 1) % 4)) s.highest_bid (s.consecutive_passes + 1)
            (some pass_round) (omega arith) h.bidder tt tt (omega (arith, none_yet)))
      | inr other ↦ rw other (
          bids_on (some ((a.seat + 1) % 4)) s.highest_bid (s.consecutive_passes + 1) (omega arith)
            h.bidder)
    ]
    after_pass-IsSound (some b) e l = elim (Bool-cases (s.consecutive_passes + 1 == 3)) [
      | inl three ↦ rw three (
          arranged choosing_trump (some b.seat) s.highest_bid (s.consecutive_passes + 1) s.contract
            l h.bidder unagreed clear none_yet)
      | inr other ↦ rw other (
          bids_on (some ((a.seat + 1) % 4)) s.highest_bid (s.consecutive_passes + 1) (omega arith)
            h.bidder)
    ]

    pub count_pass-IsSound : IsSound (count_pass (logged s a) a.seat)
    unfolding count_pass
    count_pass-IsSound = after_pass-IsSound s.highest_bid refl h.bidder

    pub place_bid-Sounds :
        (past : List Action) (value : ℕ) → Sounds (place_bid past (logged s a) a.seat value)
    unfolding place_bid next_seat
    place_bid-Sounds past value =
        Refuses-then _ _ (check_strength-Refuses s.hands a.seat value) λ _.
          elim (Bool-cases (outbids value s.highest_bid)) [
            | inr low_bid ↦ rw low_bid tt
            | inl higher ↦ rw higher (elim (Bool-cases (any (is_bid_by a.seat) past)) [
              | inl again ↦ rw again tt
              | inr first ↦ rw first (
                  bids_on (some ((a.seat + 1) % 4)) (some (record { seat = a.seat; value = value }))
                    0 (omega arith) low)
            ])
          ]
