-- ===== src/Sasku/Hand/Sound.antt =====
-- What holds of a hand between two actions, with or without the players' cards.
use tablefolk.Base.{
  ℕ, ◌+◌, ◌%◌, ◌≤◌, ◌<◌, ◌≡◌, refl, ◌∙◌, Bool, false, ◌||◌, List, [], ◌∷◌, ◌++◌, Option, none, some,
  arith, length, All, any, ◌==◌,
}
use tablefolk.Sasku.Deck.{CardId, card_eq}
use tablefolk.Sasku.Deck.Laws.{card_eq_comm}
use tablefolk.Sasku.Scoring.{Contract}
use tablefolk.Sasku.Scoring.Laws.{HasSeat}
use tablefolk.Sasku.Tricks.{Play, play_cards, includes}
use tablefolk.Sasku.Tricks.Following.{IsTrick}
use tablefolk.Sasku.Hand.State.{
  HandState, Action, play, Phase, bidding, choosing_trump, playing, complete, Bid, next_seat,
  initial_state,
}
use tablefolk.Sasku.Hand.Playing.{is_play_of}
use tablefolk.Sasku.Hand.Whole.{NoRepeat}
use tablefolk.Sasku.Hand.Won.{cards_of, first_side, other_side, points, one, IsFull}

-- The cards that a history has played, in order.
abbrev pub played : List Action → List CardId
played [] = []
played (a ∷ history) = let rest = played history in elim a.move [ play c ↦ c ∷ rest | _ ↦ rest ]

abbrev pub IsSeat : Option ℕ → Type 0
IsSeat none = Unit
IsSeat (some seat) = seat ≤ 3

abbrev pub IsBid : Option Bid → Type 0
IsBid none = Unit
IsBid (some b) = b.seat ≤ 3

-- A contract stands exactly from the moment that cards are played.
abbrev pub Agreed : Phase → Option Contract → Type 0
Agreed bidding c = c ≡ none
Agreed choosing_trump c = c ≡ none
Agreed _ none = ⊥
Agreed _ (some c) = HasSeat c

abbrev pub Idle : Phase → List Play → Type 0
Idle playing trick = Unit
Idle _ trick = trick ≡ []

-- Eight tricks at most are complete before the end, and nine then.
abbrev pub Unfinished : Phase → ℕ → Type 0
Unfinished bidding n = n ≡ 0
Unfinished choosing_trump n = n ≡ 0
Unfinished playing n = n < 9
Unfinished complete n = n ≡ 9

-- Plays by seats that follow one another round the table.
abbrev pub InTurn : List Play → Type 0
InTurn [] = Unit
InTurn (p ∷ []) = p.seat ≤ 3
InTurn (p ∷ q ∷ plays) = (p.seat ≤ 3) × (q.seat ≡ (p.seat + 1) % 4) × InTurn (q ∷ plays)

-- The seat that follows the last play.
abbrev pub NextTurn : List Play → Option ℕ → Type 0
NextTurn [] turn = Unit
NextTurn (p ∷ []) turn = turn ≡ some ((p.seat + 1) % 4)
NextTurn (p ∷ q ∷ plays) turn = NextTurn (q ∷ plays) turn

pub record IsSound (s : HandState) : Type 0 where
  pub seated : IsSeat s.turn
  pub bidder : IsBid s.highest_bid
  pub cards : played s.history ≡ cards_of s.completed_tricks ++ play_cards s.trick
  pub distinct : NoRepeat (played s.history)
  pub in_turn : InTurn s.trick
  pub next : NextTurn s.trick s.turn
  pub short : length s.trick < 4
  pub idle : Idle s.phase s.trick
  pub agreed : Agreed s.phase s.contract
  pub full : All IsFull s.completed_tricks
  pub points_won :
      s.card_points ≡ (first_side points s.completed_tricks, other_side points s.completed_tricks)
  pub tricks_won :
      s.tricks_won ≡ (first_side one s.completed_tricks, other_side one s.completed_tricks)
  pub unfinished : Unfinished s.phase (length s.completed_tricks)

pub initial_state-IsSound :
    (dealer : ℕ) (hands : Option (List (List CardId))) → IsSound (initial_state dealer hands)
unfolding initial_state
initial_state-IsSound dealer hands = record {
  seated = omega arith;
  bidder = tt;
  cards = refl;
  distinct = tt;
  in_turn = tt;
  next = tt;
  short = omega arith;
  idle = refl;
  agreed = refl;
  full = tt;
  points_won = refl;
  tricks_won = refl;
  unfinished = refl;
}

pub played-append :
    (history : List Action) (a : Action)
    → played (history ++ a ∷ []) ≡ played history ++ played (a ∷ [])
played-append [] a = refl
played-append (b ∷ history) a = ground (arith, played-append history a)

pub any-is_play_of :
    (card : CardId) (history : List Action)
    → any (is_play_of card) history ≡ includes card (played history)
any-is_play_of card [] = refl
any-is_play_of card (a ∷ history) = ground (arith, any-is_play_of card history)

includes-concat :
    (cards : List CardId) (x c : CardId)
    → includes x (cards ++ c ∷ []) ≡ (includes x cards || card_eq x c)
includes-concat [] x c = ground arith
includes-concat (y ∷ cards) x c = ground (arith, includes-concat cards x c)

pub NoRepeat-concat :
    (cards : List CardId) (c : CardId)
    → NoRepeat cards
    → includes c cards ≡ false
    → NoRepeat (cards ++ c ∷ [])
NoRepeat-concat [] c h n = (refl, tt)
NoRepeat-concat (x ∷ cards) c h n = (
  ground (arith, includes-concat cards x c, card_eq_comm c x),
  NoRepeat-concat cards c h.1 (ground arith),
)

pub NoRepeat-append_right : (xs ys : List CardId) → NoRepeat (xs ++ ys) → NoRepeat ys
NoRepeat-append_right [] ys h = h
NoRepeat-append_right (x ∷ xs) ys h = NoRepeat-append_right xs ys h.1

pub InTurn-concat :
    (plays : List Play) (p : Play)
    → InTurn plays
    → NextTurn plays (some p.seat)
    → p.seat ≤ 3
    → InTurn (plays ++ p ∷ [])
InTurn-concat [] p h n l = l
InTurn-concat (q ∷ []) p h n l = (h, ground arith, l)
InTurn-concat (q ∷ r ∷ plays) p h n l = (h.0, h.1, InTurn-concat (r ∷ plays) p h.2 n l)

pub NextTurn-concat :
    (plays : List Play) (p : Play) → NextTurn (plays ++ p ∷ []) (some ((p.seat + 1) % 4))
NextTurn-concat [] p = refl
NextTurn-concat (q ∷ []) p = refl
NextTurn-concat (q ∷ r ∷ plays) p = NextTurn-concat (r ∷ plays) p

or_false : (a b : Bool) → a ≡ false → b ≡ false → (a || b) ≡ false
or_false a b h k = rw (h, k)

flipped : (a b : CardId) → card_eq a b ≡ false → card_eq b a ≡ false
flipped a b h = card_eq_comm b a ∙ h

module _ (a b c d : ℕ) (low : a ≤ 3) (ab : b ≡ (a + 1) % 4) (bc : c ≡ (b + 1) % 4) where
  after_one : (a == b) ≡ false
  after_one = ground arith

  after_two : (a == c) ≡ false
  after_two = ground arith

  after_three : d ≡ (c + 1) % 4 → (a == d) ≡ false
  after_three cd = ground arith

-- Four plays in turn with different cards are a trick.
pub InTurn-IsTrick :
    (plays : List Play)
    → InTurn plays
    → NoRepeat (play_cards plays)
    → length plays ≡ 4
    → IsTrick plays
InTurn-IsTrick (p ∷ q ∷ r ∷ s ∷ []) (lp, pq, (lq, qr, (lr, rs, ls))) (np, (nq, (nr, _))) l =
    let qp : card_eq q.card p.card ≡ false = flipped p.card q.card (ground arith) in
    let rp : card_eq r.card p.card ≡ false = flipped p.card r.card (ground arith) in
    let sp : card_eq s.card p.card ≡ false = flipped p.card s.card (ground arith) in
    let rq : card_eq r.card q.card ≡ false = flipped q.card r.card (ground arith) in
    let sq : card_eq s.card q.card ≡ false = flipped q.card s.card (ground arith) in
    let sr : card_eq s.card r.card ≡ false = flipped r.card s.card (ground arith) in
    let p_q = after_one p.seat q.seat r.seat s.seat lp pq qr in
    let p_r = after_two p.seat q.seat r.seat s.seat lp pq qr in
    let p_s = after_three p.seat q.seat r.seat s.seat lp pq qr rs in
    let q_r = after_one q.seat r.seat s.seat p.seat lq qr rs in
    let q_s = after_two q.seat r.seat s.seat p.seat lq qr rs in
    let r_s = after_one r.seat s.seat (next_seat s.seat) p.seat lr rs (unfold next_seat in refl) in
    (
      omega arith,
      (
        lp,
        refl,
        refl,
        (
          lq,
          or_false _ _ p_q refl,
          or_false _ _ qp refl,
          (
            lr,
            or_false _ _ q_r (or_false _ _ p_r refl),
            or_false _ _ rq (or_false _ _ rp refl),
            (
              ls,
              or_false _ _ r_s (or_false _ _ q_s (or_false _ _ p_s refl)),
              or_false _ _ sr (or_false _ _ sq (or_false _ _ sp refl)),
              tt,
            ),
          ),
        ),
      ),
    )
InTurn-IsTrick _ h d l = absurd (omega arith)
