-- ===== src/Sasku/Deck/Laws.antt =====
-- The deck as a whole, and the texts of its cards.
use text.Mathlib.Text.{◌==◌ as str_eq}
use mathlib.Core.Path.{ap₂}
use tablefolk.Base.{
  ℕ, ◌==◌, ◌≤◌, ◌≡◌, refl, Bool, true, arith, List, [], ◌∷◌, String, map, some, ok, sum_by, ◌&&◌,
  any, every, find, leb, eq_iff, expect-eq-ok,
}
use tablefolk.Sasku.Deck.{
  Suit, clubs, Rank, six, seven, eight, nine, ten, jack, queen, king, ace, CardId, Card,
  sasku_cards, describe, deck, card_text, parse_sasku_card, strength, card_eq, suit_index,
  rank_index,
}

pub suit_index_inj : (s t : Suit) → suit_index s ≡ suit_index t → s ≡ t
suit_index_inj clubs t h = ground arith
suit_index_inj _ t h = ground arith

pub rank_index_inj : (s t : Rank) → rank_index s ≡ rank_index t → s ≡ t
rank_index_inj six t h = ground arith
rank_index_inj _ t h = ground arith

pub card_eq→eq : (a b : CardId) → card_eq a b ≡ true → a ≡ b
unfolding card_eq
card_eq→eq a b h = ground (arith, suit_index_inj a.suit b.suit, rank_index_inj a.rank b.rank)

pub card_eq_self : (a : CardId) → card_eq a a ≡ true
unfolding card_eq
card_eq_self a = ground arith

pub card_eq_comm : (a b : CardId) → card_eq a b ≡ card_eq b a
unfolding card_eq
card_eq_comm a b =
    ap₂ ◌&&◌ (==_comm (suit_index a.suit) (suit_index b.suit))
      (==_comm (rank_index a.rank) (rank_index b.rank))
  where
    ==_comm : (m n : ℕ) → (m == n) ≡ (n == m)
    ==_comm m n = ground arith

-- Every card is in the deck.
includes_deck : (r : Rank) (s : Suit) → any (card_eq (record { rank = r; suit = s })) deck ≡ true
unfolding deck card_eq
includes_deck six clubs = refl
includes_deck seven clubs = refl
includes_deck eight clubs = refl
includes_deck nine clubs = refl
includes_deck ten clubs = refl
includes_deck jack clubs = refl
includes_deck queen clubs = refl
includes_deck king clubs = refl
includes_deck ace clubs = refl
includes_deck _ _ = refl

every_sound :
    (p : CardId → Bool) (xs : List CardId) (c : CardId)
    → every p xs ≡ true
    → any (card_eq c) xs ≡ true
    → p c ≡ true
every_sound p [] c h m = cc
every_sound p (x ∷ xs) c h m = ground (arith, card_eq→eq c x, every_sound p xs c)

-- What a run over the deck finds of every card holds of every card.
pub deck_sound : (p : CardId → Bool) (c : CardId) → every p deck ≡ true → p c ≡ true
deck_sound p c h = every_sound p deck c h (includes_deck c.rank c.suit)

-- The points of the deck add up to 120.
pub deck_points : sum_by (λ (c : CardId). (describe c).points) deck ≡ 120
unfolding deck describe
deck_points = refl

strength_range_checked : every (λ c. leb 1 (strength c) && leb (strength c) 18) deck ≡ true
unfolding deck strength
strength_range_checked = refl

pub strength_range : (c : CardId) → (1 ≤ strength c) × (strength c ≤ 18)
strength_range c =
    let h = deck_sound (λ c. leb 1 (strength c) && leb (strength c) 18) c strength_range_checked in
    (ground arith, ground arith)

parsed_back :
    (r : Rank) (s : Suit)
    → let c : CardId = record { rank = r; suit = s } in
      parse_sasku_card (card_text c) ≡ ok (describe c)
unfolding parse_sasku_card sasku_cards deck describe
parsed_back six clubs = refl
parsed_back seven clubs = refl
parsed_back eight clubs = refl
parsed_back nine clubs = refl
parsed_back ten clubs = refl
parsed_back jack clubs = refl
parsed_back queen clubs = refl
parsed_back king clubs = refl
parsed_back ace clubs = refl
parsed_back _ _ = refl

-- The text of a card is read back as that card's descriptor.
pub parse-card_text : (c : CardId) → parse_sasku_card (card_text c) ≡ ok (describe c)
parse-card_text c = parsed_back c.rank c.suit

find-described :
    (value : String) (cards : List CardId) (c : Card)
    → find (λ d. str_eq d.text value) (map describe cards) ≡ some c
    → (c ≡ describe c.id) × (card_text c.id ≡ value)
unfolding describe
find-described value [] c h = cc
find-described value (x ∷ cards) c h =
    ground (arith, eq_iff (describe x).text value, find-described value cards c)

-- Only the text of a card is read, and as that card's descriptor.
parse_inverse :
    (value : String) (c : Card)
    → parse_sasku_card value ≡ ok c
    → (c ≡ describe c.id) × (card_text c.id ≡ value)
unfolding parse_sasku_card sasku_cards
parse_inverse value c h = find-described value deck c (expect-eq-ok _ _ h)
