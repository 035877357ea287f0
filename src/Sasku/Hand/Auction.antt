-- ===== src/Sasku/Hand/Auction.antt =====
-- packages/rules-sasku/src/hand.ts: the bidding and choosing branches of `nextState`.
use tablefolk.Base.{
  ℕ, ◌+◌, Bool, true, false, not, List, [], ◌∷◌, Option, none, some, ok, err, ◌>>=◌, ◌>>◌, ensure,
  ltb, leb, ◌==◌, if◌then◌else◌, any, length, get_or,
}
use Prim.Native.Nat.{max}
use tablefolk.Sasku.Errors.{
  Checked, hand_error, bad_deal, bid_too_strong, bid_too_low, bid_again, not_bidding_move,
  must_choose, bid_strength,
}
use tablefolk.Sasku.Deck.{Suit, clubs, spades, hearts, diamonds, CardId, describe}
use tablefolk.Sasku.Scoring.{named, pass_round}
use tablefolk.Sasku.Tricks.{includes}
use tablefolk.Sasku.Hand.State.{
  HandState, Action, Bid, Move, pass, call_diamonds, bid, choose_trump, choosing_trump, playing,
  next_seat, refused,
}

-- The record `suits` of `saskuBidStrength`.
pub record SuitCounts : Type 0 where
  pub clubs : ℕ
  pub spades : ℕ
  pub hearts : ℕ
  pub diamonds : ℕ

abbrev pub count_suit : Suit → SuitCounts → SuitCounts
count_suit clubs n = record n { clubs = n.clubs + 1 }
count_suit spades n = record n { spades = n.spades + 1 }
count_suit hearts n = record n { hearts = n.hearts + 1 }
count_suit diamonds n = record n { diamonds = n.diamonds + 1 }

abbrev pub longest : SuitCounts → ℕ
longest n = max (max n.clubs n.spades) (max n.hearts n.diamonds)

-- The loop over the nine cards.
unfoldable pub bid_tally : List CardId → ℕ → SuitCounts → List CardId → Checked ℕ
bid_tally seen courts counts [] = ok (courts + longest counts)
bid_tally seen courts counts (c ∷ hand) = do
  ensure (not (includes c seen)) (refused bad_deal)
  let court = (describe c).is_court
  bid_tally (c ∷ seen) (if court then courts + 1 else courts)
      (if court then counts else count_suit c.suit counts) hand

-- `saskuBidStrength`.
unfoldable pub sasku_bid_strength : List CardId → Checked ℕ
sasku_bid_strength hand = do
  ensure (length hand == 9) (refused bad_deal)
  bid_tally [] 0 (record { clubs = 0; spades = 0; hearts = 0; diamonds = 0 }) hand

-- `past.type === "bid" && past.seat === action.seat`.
abbrev pub is_bid_by : ℕ → Action → Bool
is_bid_by seat past = elim past.move [ bid v ↦ past.seat == seat | _ ↦ false ]

abbrev pub outbids : ℕ → Option Bid → Bool
outbids value none = true
outbids value (some highest) = ltb highest.value value

unfoldable pub check_strength : Option (List (List CardId)) → ℕ → ℕ → Checked (Unit {0})
check_strength none seat value = ok tt
check_strength (some hands) seat value = do
  strength ← sasku_bid_strength (get_or hands seat [])
  ensure (leb value strength) (hand_error bid_too_strong (some bid_strength))

unfoldable pub place_bid : List Action → HandState → ℕ → ℕ → Checked HandState
place_bid past state seat value = do
  check_strength state.hands seat value
  ensure (outbids value state.highest_bid) (refused bid_too_low)
  ensure (not (any (is_bid_by seat) past)) (refused bid_again)
  ok (record state {
    highest_bid = some (record { seat = seat; value = value });
    consecutive_passes = 0;
    turn = some (next_seat seat);
  })

unfoldable pub declare : HandState → ℕ → Suit → HandState
declare state seat suit = record state {
  phase = playing;
  turn = some seat;
  contract = some (named suit seat);
}

-- A pass, once it is counted. Four passes with no bid make a pass-round, three after a bid end the
-- auction.
abbrev pub after_pass : HandState → ℕ → Option Bid → HandState
after_pass state seat none =
    if state.consecutive_passes == 4
    then record state {
      phase = playing;
      turn = some (next_seat state.dealer);
      contract = some pass_round;
    }
    else record state { turn = some (next_seat seat) }
after_pass state seat (some highest) =
    if state.consecutive_passes == 3
    then record state { phase = choosing_trump; turn = some highest.seat }
    else record state { turn = some (next_seat seat) }

unfoldable pub count_pass : HandState → ℕ → HandState
count_pass state seat =
    after_pass (record state { consecutive_passes = state.consecutive_passes + 1 }) seat
      state.highest_bid

unfoldable pub bidding_step : List Action → HandState → ℕ → Move → Checked HandState
bidding_step past state seat (bid value) = place_bid past state seat value
bidding_step past state seat call_diamonds = ok (declare state seat diamonds)
bidding_step past state seat pass = ok (count_pass state seat)
bidding_step past state seat _ = err (refused not_bidding_move)

unfoldable pub choosing_step : HandState → ℕ → Move → Checked HandState
choosing_step state seat (choose_trump suit) = ok (declare state seat suit)
choosing_step state seat _ = err (refused must_choose)
