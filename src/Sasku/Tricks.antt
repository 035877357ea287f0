-- ===== src/Sasku/Tricks.antt =====
-- packages/rules-sasku/src/cards.ts: following suit and winning tricks.
pub mod Winner
pub mod Following
pub mod Resolve
use tablefolk.Base.{
  ℕ, zero, suc, ◌+◌, Bool, true, false, ◌&&◌, ◌||◌, not, List, [], ◌∷◌, Option, none, some, ok, err,
  ◌>>=◌, ◌>>◌, ensure, expect, ltb, leb, ◌==◌, if◌then◌else◌, any, keep, length, sum_by,
}
use tablefolk.Sasku.Errors.{
  Checked, play_error, type_error, trick_complete, hand_too_long, duplicate_card, trick_too_long,
  bad_seat, repeated_play, incomplete_trick, PlayFault,
}
use tablefolk.Sasku.Deck.{Suit, CardId, describe, suit_index, suit_eq, card_eq, strength}
use tablefolk.Sasku.Scoring.{partnership_for_seat}

-- `SaskuEffectiveSuit`.
pub data Effective : Type 0 where
  trump : Effective
  plain : Suit → Effective

-- `SaskuPlay`.
pub record Play : Type 0 where
  pub seat : ℕ
  pub card : CardId

-- `SaskuTrickResult`.
pub record TrickResult : Type 0 where
  pub winner : Play
  pub partnership : ℕ
  pub card_points : ℕ

abbrev pub effective_index : Effective → ℕ
effective_index trump = 0
effective_index (plain s) = suc (suit_index s)

abbrev pub effective_eq : Effective → Effective → Bool
effective_eq a b = effective_index a == effective_index b

-- `saskuEffectiveSuit`.
unfoldable pub effective_suit : CardId → Suit → Effective
effective_suit c trump_suit =
    if (describe c).is_court || suit_eq c.suit trump_suit then trump else plain c.suit

abbrev pub includes : CardId → List CardId → Bool
includes c cards = any (card_eq c) cards

-- The loop of `normalizeTrick`, with the sets of seats and cards seen so far.
unfoldable pub normalize_plays : List ℕ → List CardId → List Play → Checked (List Play)
normalize_plays seats cards [] = ok []
normalize_plays seats cards (p ∷ plays) = do
  ensure (leb p.seat 3) (play_error bad_seat)
  ensure (not (any (λ s. s == p.seat) seats || includes p.card cards)) (play_error repeated_play)
  rest ← normalize_plays (p.seat ∷ seats) (p.card ∷ cards) plays
  ok (p ∷ rest)

unfoldable pub normalize_trick : List Play → Checked (List Play)
normalize_trick plays = do
  ensure (leb (length plays) 4) (play_error trick_too_long)
  normalize_plays [] [] plays

abbrev pub play_cards : List Play → List CardId
play_cards [] = []
play_cards (p ∷ plays) = p.card ∷ play_cards plays

-- The loop over a hand in `legalSaskuCards`, with the set of cards seen so far.
unfoldable pub unseen_cards : List CardId → List CardId → Checked (List CardId)
unseen_cards seen [] = ok []
unseen_cards seen (c ∷ hand) = do
  ensure (not (includes c seen)) (play_error duplicate_card)
  rest ← unseen_cards (c ∷ seen) hand
  ok (c ∷ rest)

-- The cards of a hand that follow the led suit, or the whole hand where none does.
abbrev pub or_all : List CardId → List CardId → List CardId
or_all cards [] = cards
or_all cards (c ∷ following) = c ∷ following

unfoldable pub following_cards : List CardId → List Play → Suit → List CardId
following_cards cards [] t = cards
following_cards cards (p ∷ plays) t =
    or_all cards (keep (λ c. effective_eq (effective_suit c t) (effective_suit p.card t)) cards)

-- `legalSaskuCards`.
unfoldable pub legal_sasku_cards : List CardId → List Play → Suit → Checked (List CardId)
legal_sasku_cards hand trick t = do
  plays ← normalize_trick trick
  ensure (not (length plays == 4)) (play_error trick_complete)
  ensure (leb (length hand) 9) (play_error hand_too_long)
  cards ← unseen_cards (play_cards plays) hand
  ok (following_cards cards plays t)

-- `priority`.
unfoldable pub priority : CardId → Effective → Suit → ℕ
priority c led t = elim (effective_suit c t) [
  | trump ↦ 100 + strength c
  | plain s ↦ if effective_eq (plain s) led then strength c else 0
]

-- The loop of `winnerOf` over the plays after the first.
unfoldable pub best_play : Effective → Suit → Play → ℕ → List Play → Play
best_play led t winner best [] = winner
best_play led t winner best (p ∷ plays) =
    let s = priority p.card led t in
    let stronger = ltb best s in
    best_play led t (if stronger then p else winner) (if stronger then s else best) plays

unfoldable pub winner_of : List Play → Suit → Option Play
winner_of [] t = none
winner_of (p ∷ plays) t =
    let led = effective_suit p.card t in some (best_play led t p (priority p.card led t) plays)

-- `winningSaskuPlay`.
unfoldable pub winning_sasku_play : List Play → Suit → Checked (Option Play)
winning_sasku_play trick t = do plays ← normalize_trick trick; ok (winner_of plays t)

abbrev pub trick_points : List Play → ℕ
trick_points = sum_by (λ p. (describe p.card).points)

-- `resolveSaskuTrick`. The winner of four plays is read with `!`.
unfoldable pub resolve_sasku_trick : List Play → Suit → Checked TrickResult
resolve_sasku_trick trick t = do
  plays ← normalize_trick trick
  ensure (length plays == 4) (play_error incomplete_trick)
  winner ← expect (winner_of plays t) type_error
  partnership ← partnership_for_seat winner.seat
  ok (record { winner = winner; partnership = partnership; card_points = trick_points plays })
