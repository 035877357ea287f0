-- ===== src/Sasku/Deck.antt =====
-- packages/rules-sasku/src/cards.ts and scoring.ts: suits, ranks, the 36 cards and their points.
pub mod Laws
use mathlib.Core.Option
use text.Mathlib.Text.{◌==◌ as str_eq}
use Prim.Native.String.{◌++◌ as concat}
use tablefolk.Base.{
  ℕ, ◌+◌, ◌-◌, String, Bool, true, false, ◌&&◌, ◌||◌, List, [], ◌∷◌, map, flat_map, Option, none,
  some, Result, ok, expect, ◌==◌, if◌then◌else◌, find,
}
use tablefolk.Sasku.Errors.{Checked, play_error, PlayFault, unknown_card}

pub data Suit : Type 0 where
  clubs spades hearts diamonds : Suit

pub data Rank : Type 0 where
  six seven eight nine ten jack queen king ace : Rank

-- `SaskuCardId`, the texts made of a rank and a suit letter, as the pair that it spells.
pub record CardId : Type 0 where
  pub rank : Rank
  pub suit : Suit

-- `SaskuCard`.
pub record Card : Type 0 where
  pub text : String
  pub id : CardId
  pub points : ℕ
  pub is_court : Bool

abbrev pub suits : List Suit
suits = clubs ∷ spades ∷ hearts ∷ diamonds ∷ []

abbrev pub ranks : List Rank
ranks = six ∷ seven ∷ eight ∷ nine ∷ ten ∷ jack ∷ queen ∷ king ∷ ace ∷ []

abbrev pub suit_index : Suit → ℕ
suit_index clubs = 0
suit_index spades = 1
suit_index hearts = 2
suit_index diamonds = 3

abbrev pub rank_index : Rank → ℕ
rank_index six = 0
rank_index seven = 1
rank_index eight = 2
rank_index nine = 3
rank_index ten = 4
rank_index jack = 5
rank_index queen = 6
rank_index king = 7
rank_index ace = 8

-- `===` on the texts of suits, ranks and cards.
abbrev pub suit_eq : Suit → Suit → Bool
suit_eq s t = suit_index s == suit_index t

abbrev pub rank_eq : Rank → Rank → Bool
rank_eq r s = rank_index r == rank_index s

unfoldable pub card_eq : CardId → CardId → Bool
card_eq a b = suit_eq a.suit b.suit && rank_eq a.rank b.rank

abbrev pub rank_text : Rank → String
rank_text six = "6"
rank_text seven = "7"
rank_text eight = "8"
rank_text nine = "9"
rank_text ten = "10"
rank_text jack = "J"
rank_text queen = "Q"
rank_text king = "K"
rank_text ace = "A"

abbrev pub suit_code : Suit → String
suit_code clubs = "C"
suit_code spades = "S"
suit_code hearts = "H"
suit_code diamonds = "D"

-- `SASKU_CARD_POINTS` and `rankPoints`.
unfoldable pub rank_points : Rank → ℕ
rank_points ten = 10
rank_points jack = 2
rank_points queen = 3
rank_points king = 4
rank_points ace = 11
rank_points _ = 0

unfoldable pub is_court : Rank → Bool
is_court r = rank_eq r king || rank_eq r queen || rank_eq r jack

-- The template `${rank}${suitCodes[suit]}`.
unfoldable pub card_text : CardId → String
card_text c = concat (rank_text c.rank) (suit_code c.suit)

-- The descriptor that `SASKU_CARDS` holds for a card.
unfoldable pub describe : CardId → Card
unfolding rank_points is_court card_text
describe c = record {
  text = card_text c;
  id = c;
  points = rank_points c.rank;
  is_court = is_court c.rank;
}

-- `SASKU_DECK_SPEC.cards`: suit by suit, six to ace.
unfoldable pub deck : List CardId
unfolding flat_map
deck = flat_map (λ s. map (λ r. record { rank = r; suit = s }) ranks) suits

-- `SASKU_CARDS`.
unfoldable pub sasku_cards : List Card
sasku_cards = map describe deck

-- `parseSaskuCard` of an untyped text: the entry of `cardsById`.
unfoldable pub parse_sasku_card : String → Checked Card
parse_sasku_card value =
    expect (find (λ c. str_eq c.text value) sasku_cards) (play_error unknown_card)

-- `SASKU_COURT_ORDER`, strongest first.
unfoldable pub court_order : List CardId
unfolding flat_map
court_order =
    flat_map (λ r. map (λ s. record { rank = r; suit = s }) suits) (king ∷ queen ∷ jack ∷ [])

-- The position of an entry, as the index that `map` and `indexOf` count.
abbrev pub index_from {ℓ} : {A : Type ℓ} → ℕ → (A → Bool) → List A → Option ℕ
index_from i p [] = none
index_from i p (x ∷ xs) = if p x then some i else index_from (i + 1) p xs

-- `courtStrength`: 18 for the king of clubs, down to 7 for the jack of diamonds.
unfoldable pub court_strength : CardId → Option ℕ
unfolding court_order card_eq
court_strength c = Option.map (λ i. 18 - i) (index_from 0 (card_eq c) court_order)

abbrev pub plain_ranks : List Rank
plain_ranks = six ∷ seven ∷ eight ∷ nine ∷ ten ∷ ace ∷ []

-- `courtStrength.get(id) ?? plainRanks.indexOf(card.rank) + 1`. `indexOf` is -1 for a rank that is
-- not there, which makes 0.
unfoldable pub strength : CardId → ℕ
unfolding court_strength
strength c = elim (court_strength c) [
  | some s ↦ s
  | none ↦ elim (index_from 0 (rank_eq c.rank) plain_ranks) [ some i ↦ i + 1 | none ↦ 0 ]
]
