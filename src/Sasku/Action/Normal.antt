-- ===== src/Sasku/Action/Normal.antt =====
-- Decoded actions and the normal form of the rules.
use tablefolk.Base.{
  ℕ, ◌≡◌, ◌≤◌, refl, true, ◌&&◌, String, List, [], ◌∷◌, Option, none, some, ok, err, arith, ◌>>=◌,
  leb, Bool-cases, Result-cases, Option-cases, inl, inr, find, length, subst, ◌==◌,
}
use text.Mathlib.Text.{◌==◌ as str_eq}
use tablefolk.Sasku.Errors.{Checked}
use tablefolk.Sasku.Deck.{clubs, spades, hearts, diamonds, suits, describe, parse_sasku_card}
use tablefolk.Sasku.Deck.Laws.{parse-card_text}
use tablefolk.Sasku.Hand.State.{
  Action, Move, pass, call_diamonds, bid, choose_trump, play, raw, raw_move, suit_text,
  normalize_move, normalize_action,
}
use tablefolk.Sasku.Action.{
  Datum, number, string, other, ActionInput, keys_are, card_at, decode_play, bid_of, trump_of,
  only_field, decode_call, decode_move, decode_sasku_action,
}

-- A bid is between three and nine.
abbrev pub InRange : Move → Type 0
InRange (bid value) = (3 ≤ value) × (value ≤ 9)
InRange _ = Unit

normalize_move-InRange : (m : Move) → InRange m → normalize_move (raw_move m) ≡ ok m
unfolding normalize_move describe
normalize_move-InRange pass h = refl
normalize_move-InRange call_diamonds h = refl
normalize_move-InRange (bid value) h = ground arith
normalize_move-InRange (choose_trump clubs) h = refl
normalize_move-InRange (choose_trump spades) h = refl
normalize_move-InRange (choose_trump hearts) h = refl
normalize_move-InRange (choose_trump diamonds) h = refl
normalize_move-InRange (play c) h = rw (parse-card_text c) refl

abbrev Ranged : Checked Move → Type 0
Ranged (ok m) = InRange m
Ranged (err e) = Unit

Ranged-then :
    {A : Type 0} (m : Checked A) (f : A → Checked Move)
    → ((a : A) → Ranged (f a))
    → Ranged (m >>= f)
Ranged-then (ok a) f h = h a
Ranged-then (err e) f h = tt

bid_of-Ranged : (d : Option Datum) → Ranged (bid_of d)
bid_of-Ranged none = tt
bid_of-Ranged (some (number value)) = elim (Bool-cases (leb 3 value && leb value 9)) [
  | inl within ↦ rw within (ground arith)
  | inr outside ↦ rw outside tt
]
bid_of-Ranged (some (string name)) = tt
bid_of-Ranged (some other) = tt

trump_of-Ranged : (d : Option Datum) → Ranged (trump_of d)
trump_of-Ranged none = tt
trump_of-Ranged (some (number value)) = tt
trump_of-Ranged (some (string name)) =
    elim (Option-cases (find (λ s. str_eq (suit_text s) name) suits)) [
      | inl unknown ↦ rw unknown tt
      | inr (suit, found) ↦ rw found tt
    ]
trump_of-Ranged (some other) = tt

decode_play-Ranged :
    (input : ActionInput) (revealed : List (ℕ × String)) (reveal : List ℕ)
    → Ranged (decode_play input revealed reveal)
unfolding decode_play
decode_play-Ranged input revealed [] = tt
decode_play-Ranged input revealed (pos ∷ []) = elim (Bool-cases (keys_are "" input.data_fields)) [
  | inr fields ↦ rw fields tt
  | inl empty ↦ elim (Bool-cases (leb pos 35)) [
    | inr beyond ↦ rw (empty, beyond) tt
    | inl placed ↦ elim (Bool-cases (length revealed == 1)) [
      | inr several ↦ rw (empty, placed, several) tt
      | inl one ↦ elim (Option-cases (card_at pos revealed)) [
        | inl hidden ↦ rw (empty, placed, one, hidden) tt
        | inr (name, shown) ↦
            rw (empty, placed, one, shown)
              (Ranged-then (parse_sasku_card name) (λ card. ok (play card.id)) (λ card. tt))
      ]
    ]
  ]
]
decode_play-Ranged input revealed (pos ∷ next ∷ reveal) = tt

decode_call-Ranged : (input : ActionInput) → Ranged (decode_call input)
unfolding decode_call
decode_call-Ranged input =
    elim (Bool-cases (str_eq input.kind "pass" && keys_are "" input.data_fields)) [
      | inl passes ↦ rw passes tt
      | inr a ↦ elim (Bool-cases (str_eq input.kind "diamonds" && keys_are "" input.data_fields)) [
        | inl calls ↦ rw (a, calls) tt
        | inr b ↦ elim (Bool-cases (str_eq input.kind "bid")) [
          | inl bids ↦ rw (a, b, bids) (bid_of-Ranged (only_field "value" input.data_fields))
          | inr c ↦ elim (Bool-cases (str_eq input.kind "choose_trump")) [
            | inl chooses ↦
                rw (a, b, c, chooses) (trump_of-Ranged (only_field "suit" input.data_fields))
            | inr d ↦ rw (a, b, c, d) tt
          ]
        ]
      ]
    ]

decode_move-Ranged :
    (input : ActionInput) (revealed : List (ℕ × String)) → Ranged (decode_move input revealed)
unfolding decode_move
decode_move-Ranged input revealed = elim (Bool-cases (str_eq input.kind "play")) [
  | inl plays ↦ rw plays (decode_play-Ranged input revealed input.reveal)
  | inr calls ↦ elim (Bool-cases (length input.reveal == 0 && length revealed == 0)) [
    | inl hidden ↦ rw (calls, hidden) (decode_call-Ranged input)
    | inr shown ↦ rw (calls, shown) tt
  ]
]

-- An action that is decoded is one that the rules take as it stands: given to them again, it is its
-- own normal form.
pub decode-normalize_action :
    (actor : ℕ) (input : ActionInput) (revealed : List (ℕ × String)) (a : Action)
    → decode_sasku_action actor input revealed ≡ ok a
    → normalize_action (raw a) ≡ ok a
unfolding decode_sasku_action normalize_action
decode-normalize_action actor input revealed a h =
    elim (Result-cases (decode_move input revealed)) [
      | inr (x, e) ↦ ground arith
      | inl (m, e) ↦
          let within : InRange m = subst Ranged e (decode_move-Ranged input revealed) in
          let same : record { seat = actor; move = m } ≡ a = ground arith in
          let seated : leb actor 3 ≡ true = ground arith in
          subst (λ b. normalize_action (raw b) ≡ ok b) same
            (rw (seated, normalize_move-InRange m within) refl)
    ]
