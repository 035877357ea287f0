-- ===== src/Sasku/Action.antt =====
-- packages/rules-sasku/src/action.ts: reading an action of the engine as one of the rules.
pub mod Normal
use text.Mathlib.Text.{◌==◌ as str_eq}
use tablefolk.Base.{
  ℕ, Bool, true, false, ◌&&◌, ◌||◌, String, List, [], ◌∷◌, Option, none, some, Result, ok, err,
  ◌>>=◌, ◌>>◌, ensure, expect, leb, ◌==◌, if◌then◌else◌, length, find,
}
use tablefolk.Sasku.Errors.{Checked, hand_error, bad_seat, bad_fields, bad_action}
use tablefolk.Sasku.Deck.{Suit, suits, parse_sasku_card}
use tablefolk.Sasku.Hand.State.{
  Action, Move, pass, call_diamonds, bid, choose_trump, play, refused, suit_text,
}

-- A value in an action's data. `other` stands for all that is neither an unsigned whole number nor a
-- text.
pub data Datum : Type 0 where
  number : ℕ → Datum
  string : String → Datum
  other : Datum

-- `SaskuActionInput`, a map with these three keys.
pub record ActionInput : Type 0 where
  pub kind : String
  pub data_fields : List (String × Datum)
  pub reveal : List ℕ

-- `dataKeys`, the keys sorted and joined by commas, of at most one key. The keys of more have a
-- comma between them, as none of the texts has that they are compared with.
abbrev pub keys_are : String → List (String × Datum) → Bool
keys_are keys [] = str_eq "" keys
keys_are keys ((key, value) ∷ []) = str_eq key keys
keys_are keys fields = false

abbrev pub card_at : ℕ → List (ℕ × String) → Option String
card_at pos [] = none
card_at pos ((p, card) ∷ revealed) = if p == pos then some card else card_at pos revealed

unfoldable pub decode_play : ActionInput → List (ℕ × String) → List ℕ → Checked Move
decode_play input revealed (pos ∷ []) = do
  ensure (keys_are "" input.data_fields) (refused bad_fields)
  ensure (leb pos 35) (refused bad_fields)
  ensure (length revealed == 1) (refused bad_fields)
  name ← expect (card_at pos revealed) (refused bad_fields)
  card ← parse_sasku_card name
  ok (play card.id)
decode_play input revealed _ = err (refused bad_fields)

-- The value of the one field of some data.
abbrev pub only_field : String → List (String × Datum) → Option Datum
only_field name [] = none
only_field name ((key, value) ∷ fields) =
    if length fields == 0 && str_eq key name then some value else none

abbrev pub bid_of : Option Datum → Checked Move
bid_of (some (number value)) = do
  ensure (leb 3 value && leb value 9) (refused bad_action)
  ok (bid value)
bid_of _ = err (refused bad_action)

abbrev pub trump_of : Option Datum → Checked Move
trump_of (some (string name)) = do
  suit ← expect (find (λ s. str_eq (suit_text s) name) suits) (refused bad_action)
  ok (choose_trump suit)
trump_of _ = err (refused bad_action)

-- The actions of the auction.
unfoldable pub decode_call : ActionInput → Checked Move
decode_call input =
    if str_eq input.kind "pass" && keys_are "" input.data_fields
    then ok pass
    else if str_eq input.kind "diamonds" && keys_are "" input.data_fields
    then ok call_diamonds
    else if str_eq input.kind "bid"
    then bid_of (only_field "value" input.data_fields)
    else if str_eq input.kind "choose_trump"
    then trump_of (only_field "suit" input.data_fields)
    else err (refused bad_action)

unfoldable pub decode_move : ActionInput → List (ℕ × String) → Checked Move
unfolding decode_play decode_call
decode_move input revealed =
    if str_eq input.kind "play" then decode_play input revealed input.reveal else do
      ensure (length input.reveal == 0 && length revealed == 0) (refused bad_fields)
      decode_call input

-- `decodeSaskuAction`.
unfoldable pub decode_sasku_action : ℕ → ActionInput → List (ℕ × String) → Checked Action
decode_sasku_action actor input revealed = do
  ensure (leb actor 3) (refused bad_seat)
  move ← decode_move input revealed
  ok (record { seat = actor; move = move })
