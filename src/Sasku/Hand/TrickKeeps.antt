-- ===== src/Sasku/Hand/TrickKeeps.antt =====
-- The invariant of a hand through a play, the end of a trick and the end of the hand.
use mathlib.Core.List.{append_assoc, append-nil}
use tablefolk.Base.{
  get_or, ℕ, ◌+◌, ◌%◌, ◌≤◌, ◌<◌, ◌≡◌, refl, sym, ◌∙◌, ap, subst, false, List, [], ◌∷◌, ◌++◌, Option,
  none, some, ok, arith, length, length-append, All, All-append, any, sum_by-append, ◌==◌,
  if◌then◌else◌, Bool-cases, inl, inr,
}
use tablefolk.Sasku.Deck.{CardId, Suit, diamonds}
use tablefolk.Sasku.Scoring.{Contract, named, pass_round}
use tablefolk.Sasku.Tricks.{TrickResult, play_cards, includes}
use tablefolk.Sasku.Tricks.Resolve.{resolve_lem}
use tablefolk.Sasku.Hand.State.{
  HandState, Action, play, playing, CompletedTrick, next_seat, trump_suit,
}
use tablefolk.Sasku.Hand.Playing.{
  is_play_of, play_card, check_hand, hand_of, put_card, after_card, finish_trick, after_trick,
  finish_hand, collect_trick, add_to,
}
use tablefolk.Sasku.Hand.Whole.{NoRepeat}
use tablefolk.Sasku.Hand.Won.{
  cards_of, cards_of-append, first_side, other_side, points, one, IsFull, play_cards-append,
  tricks_scored,
}
use tablefolk.Sasku.Hand.Sound.{
  IsSound, IsSeat, IsBid, Agreed, Idle, Unfinished, InTurn, NextTurn, played, played-append,
  any-is_play_of, NoRepeat-concat, NoRepeat-append_right, InTurn-concat, NextTurn-concat,
  InTurn-IsTrick,
}
use tablefolk.Sasku.Hand.Outcome.{Sounds, logged, Refuses, Refuses-then}

-- The state in the middle of a play, when the card of `seat` lies on the trick.
record IsMid (m : HandState) (seat : ℕ) : Type 0 where
  playing_on : m.phase ≡ playing
  low : seat ≤ 3
  bidder : IsBid m.highest_bid
  cards : played m.history ≡ cards_of m.completed_tricks ++ play_cards m.trick
  distinct : NoRepeat (played m.history)
  in_turn : InTurn m.trick
  next : NextTurn m.trick (some ((seat + 1) % 4))
  at_most : length m.trick ≤ 4
  agreed : Agreed playing m.contract
  full : All IsFull m.completed_tricks
  points_won :
      m.card_points ≡ (first_side points m.completed_tricks, other_side points m.completed_tricks)
  tricks_won : m.tricks_won ≡ (first_side one m.completed_tricks, other_side one m.completed_tricks)
  unfinished : length m.completed_tricks < 9

trump-Agreed : (c : Option Contract) → Agreed playing c → (t : Suit) × (trump_suit c ≡ ok t)
unfolding trump_suit
trump-Agreed (some (named suit seat)) h = (suit, refl)
trump-Agreed (some pass_round) h = (diamonds, refl)
trump-Agreed none h = absurd h

add_side :
    (f : CompletedTrick → ℕ) (cs : List CompletedTrick) (t : CompletedTrick)
    → add_to t.result.partnership (f t) (first_side f cs, other_side f cs)
      ≡ (first_side f (cs ++ t ∷ []), other_side f (cs ++ t ∷ []))
add_side f cs t = ground (
  arith,
  sum_by-append (λ t. if t.result.partnership == 0 then f t else 0) cs (t ∷ []),
  sum_by-append (λ t. if t.result.partnership == 0 then 0 else f t) cs (t ∷ []),
)

module _ (m : HandState) (seat : ℕ) (h : IsMid m seat) (r : TrickResult)
    (worth : IsFull (record { result = r; plays = m.trick })) (led : r.winner.seat ≤ 3) where
  abbrev gathered : List CompletedTrick
  gathered = m.completed_tricks ++ record { result = r; plays = m.trick } ∷ []

  gathered_cards : played m.history ≡ cards_of gathered
  gathered_cards =
      h.cards
      ∙ ap (◌++◌ (cards_of m.completed_tricks)) (sym (append-nil (play_cards m.trick)))
      ∙ sym (cards_of-append m.completed_tricks _)

  gathered_points :
      add_to r.partnership r.card_points m.card_points
      ≡ (first_side points gathered, other_side points gathered)
  gathered_points =
      ap (add_to r.partnership r.card_points) h.points_won ∙ add_side points m.completed_tricks _

  gathered_tricks :
      add_to r.partnership 1 m.tricks_won ≡ (first_side one gathered, other_side one gathered)
  gathered_tricks = ap (add_to r.partnership 1) h.tricks_won ∙ add_side one m.completed_tricks _

  gathered-IsFull : All IsFull gathered
  gathered-IsFull = All-append IsFull m.completed_tricks _ h.full (worth, tt)

  gathered-length : length gathered ≡ length m.completed_tricks + 1
  gathered-length = length-append m.completed_tricks _

  next_trick :
      length gathered < 9 → IsSound (record (collect_trick m r) { turn = some r.winner.seat })
  unfolding collect_trick
  next_trick few = record {
    seated = led;
    bidder = h.bidder;
    cards = gathered_cards ∙ sym (append-nil (cards_of gathered));
    distinct = h.distinct;
    in_turn = tt;
    next = tt;
    short = omega arith;
    idle = subst (λ p. Idle p []) (sym h.playing_on) tt;
    agreed = subst (λ p. Agreed p m.contract) (sym h.playing_on) h.agreed;
    full = gathered-IsFull;
    points_won = gathered_points;
    tricks_won = gathered_tricks;
    unfinished = subst (λ p. Unfinished p (length gathered)) (sym h.playing_on) few;
  }

  last_trick : length gathered ≡ 9 → Sounds (finish_hand (collect_trick m r))
  unfolding finish_hand collect_trick
  last_trick nine = scored m.contract refl h.agreed
    where
      scored :
          (c : Option Contract)
          → m.contract ≡ c
          → Agreed playing c
          → Sounds (finish_hand (collect_trick m r))
      scored none e g = absurd g
      scored (some c) e g =
          let (score, s) =
            tricks_scored gathered c gathered-IsFull nine (rw gathered_cards at h.distinct) g in
          rw (e, gathered_points, gathered_tricks, s)
            (record {
              seated = tt;
              bidder = h.bidder;
              cards = gathered_cards ∙ sym (append-nil (cards_of gathered));
              distinct = h.distinct;
              in_turn = tt;
              next = tt;
              short = omega arith;
              idle = refl;
              agreed = g;
              full = gathered-IsFull;
              points_won = refl;
              tricks_won = refl;
              unfinished = nine;
            })

  after_trick-Sounds : Sounds (after_trick (collect_trick m r) r.winner.seat)
  unfolding after_trick collect_trick
  after_trick-Sounds = elim (Bool-cases (length gathered == 9)) [
    | inl e ↦ rw e (last_trick (ground arith))
    | inr e ↦ rw e (next_trick (ground (arith, h.unfinished, gathered-length)))
  ]

module _ (m : HandState) (seat : ℕ) (h : IsMid m seat) where
  finish_trick-Sounds : length m.trick ≡ 4 → Sounds (finish_trick m)
  unfolding finish_trick
  finish_trick-Sounds four =
      let (t, trump) = trump-Agreed m.contract h.agreed in
      let different =
        NoRepeat-append_right (cards_of m.completed_tricks) _ (rw h.cards at h.distinct) in
      let (r, resolved, won, led, partner, worth) =
        resolve_lem m.trick t (InTurn-IsTrick m.trick h.in_turn different four) four in
      rw (trump, resolved) (after_trick-Sounds m seat h r (four, worth) led)

  after_card-Sounds : Sounds (after_card m seat)
  unfolding after_card next_seat
  after_card-Sounds = elim (Bool-cases (length m.trick == 4)) [
    | inl e ↦ rw e (finish_trick-Sounds (ground arith))
    | inr e ↦ rw e (record {
      seated = omega arith;
      bidder = h.bidder;
      cards = h.cards;
      distinct = h.distinct;
      in_turn = h.in_turn;
      next = h.next;
      short = ground (arith, h.at_most);
      idle = subst (λ p. Idle p m.trick) (sym h.playing_on) tt;
      agreed = subst (λ p. Agreed p m.contract) (sym h.playing_on) h.agreed;
      full = h.full;
      points_won = h.points_won;
      tricks_won = h.tricks_won;
      unfinished =
          subst (λ p. Unfinished p (length m.completed_tricks)) (sym h.playing_on) h.unfinished;
    })
  ]

module _ (s : HandState) (seat : ℕ) (card : CardId) (h : IsSound s) (here : s.phase ≡ playing)
    (turn : s.turn ≡ some seat) where
  abbrev a : Action
  a = record { seat = seat; move = play card }

  seat_low : seat ≤ 3
  seat_low = subst IsSeat turn h.seated

  put_card-IsMid :
      includes card (played s.history) ≡ false → IsMid (put_card (logged s a) seat card) seat
  unfolding put_card
  put_card-IsMid new = record {
    playing_on = here;
    low = seat_low;
    bidder = h.bidder;
    cards =
        played-append s.history a
        ∙ ap (λ l. l ++ card ∷ []) h.cards
        ∙ append_assoc (cards_of s.completed_tricks) (play_cards s.trick) (card ∷ [])
        ∙ ap (◌++◌ (cards_of s.completed_tricks)) (sym (play_cards-append s.trick _));
    distinct =
        subst NoRepeat (sym (played-append s.history a))
          (NoRepeat-concat (played s.history) card h.distinct new);
    in_turn = InTurn-concat s.trick _ h.in_turn (subst (NextTurn s.trick) turn h.next) seat_low;
    next = NextTurn-concat s.trick _;
    at_most =
        omega (arith, length-append s.trick (record { seat = seat; card = card } ∷ []), h.short);
    agreed = subst (λ p. Agreed p s.contract) here h.agreed;
    full = h.full;
    points_won = h.points_won;
    tricks_won = h.tricks_won;
    unfinished = subst (λ p. Unfinished p (length s.completed_tricks)) here h.unfinished;
  }

  pub play_card-Sounds :
      Refuses (check_hand (logged s a) card (hand_of s.hands seat))
      → Sounds (play_card s.history (logged s a) seat card)
  unfolding play_card
  play_card-Sounds c = Refuses-then _ _ c λ _. elim (Bool-cases (any (is_play_of card) s.history)) [
    | inl old ↦ rw old tt
    | inr new ↦ rw new (elim (Bool-cases (get_or s.hand_sizes seat 1 == 0)) [
      | inl empty ↦ rw empty tt
      | inr some_left ↦ rw some_left (
          after_card-Sounds (put_card (logged s a) seat card) seat
            (put_card-IsMid (sym (any-is_play_of card s.history) ∙ new)))
    ])
  ]
