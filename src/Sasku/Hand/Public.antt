-- ===== src/Sasku/Hand/Public.antt =====
-- The public hand: its runs, and its end.
use tablefolk.Base.{
  ℕ, ◌+◌, ◌≡◌, refl, sym, ◌∙◌, ap, subst, ◌&&◌, List, [], ◌∷◌, ◌++◌, none, ok, err, length, ◌>>=◌,
  leb, Bool-cases, inl, inr, Option-cases, find,
}
use text.Mathlib.Text.{◌==◌ as str_eq}
use mathlib.Core.List.{append-nil}
use tablefolk.Sasku.Errors.{Checked, hand_error, play_error, scoring_error, type_error}
use tablefolk.Sasku.Deck.{Card, suits, sasku_cards, parse_sasku_card}
use tablefolk.Sasku.Tricks.{play_cards}
use tablefolk.Sasku.Hand.State.{
  HandState, Action, Move, RawAction, RawMove, pass, play, complete, normalize_action,
  normalize_move, suit_text, initial_state,
}
use tablefolk.Sasku.Hand.Playing.{check_hand}
use tablefolk.Sasku.Hand.Next
use tablefolk.Sasku.Hand.Next.{next_state, run}
use tablefolk.Sasku.Hand.Hidden.{hide, next_state-hide}
use tablefolk.Sasku.Hand.Whole.{NoRepeat}
use tablefolk.Sasku.Hand.Won.{cards_of, tricks_total}
use tablefolk.Sasku.Hand.Sound.{IsSound, Idle, Unfinished, initial_state-IsSound, played}
use tablefolk.Sasku.Hand.Outcome.{Sounds}
use tablefolk.Sasku.Hand.Keeps.{MayCheck, advance-Sounds}

-- A normal action, or a refusal with a `SaskuHandError`.
abbrev RefusesMove : {A : Type 0} → Checked A → Type 0
RefusesMove (ok a) = Unit
RefusesMove (err (hand_error fault rule)) = Unit
RefusesMove (err _) = ⊥

normalize_move-Refuses : (m : RawMove) → RefusesMove (normalize_move m)
unfolding normalize_move
normalize_move-Refuses (RawMove.bid v) = elim (Bool-cases (leb 3 v && leb v 9)) [
  | inl e ↦ rw e tt
  | inr e ↦ rw e tt
]
normalize_move-Refuses (RawMove.choose_trump text) =
    elim (Option-cases (find (λ s. str_eq (suit_text s) text) suits)) [
      | inl e ↦ rw e tt
      | inr (s, e) ↦ rw e tt
    ]
normalize_move-Refuses (RawMove.play text) =
    elim (Option-cases (find (λ (c : Card). str_eq c.text text) sasku_cards)) [
      | inl e ↦ unfold parse_sasku_card in (rw e tt)
      | inr (s, e) ↦ unfold parse_sasku_card in (rw e tt)
    ]
normalize_move-Refuses _ = tt

hide_self : (s : HandState) → s.hands ≡ none → hide s ≡ s
hide_self s e = λ i. record s { hands = sym e i }

next_state-hands :
    (s s' : HandState) (a : RawAction) → s.hands ≡ none → next_state s a ≡ ok s' → s'.hands ≡ none
next_state-hands s s' a e h =
    let hidden = next_state-hide a s s' h in
    let same : next_state (hide s) a ≡ next_state s a = ap (λ t. next_state t a) (hide_self s e) in
    let again : hide s' ≡ s' = cc in ap (λ (t : HandState). t.hands) (sym again)

MayCheck-public : (s : HandState) (a : Action) (m : Move) → s.hands ≡ none → MayCheck s a m
unfolding check_hand
MayCheck-public s a (play card) e = rw e tt
MayCheck-public s a pass e = tt
MayCheck-public s a _ e = tt

next_state-Sounds :
    (s : HandState) (a : RawAction) → IsSound s → s.hands ≡ none → Sounds (next_state s a)
unfolding next_state normalize_action
next_state-Sounds s a h e = elim (Bool-cases (leb a.seat 3)) [
  | inr f ↦ rw f tt
  | inl f ↦ rw f (moved (normalize_move a.move) (normalize_move-Refuses a.move))
]
  where
    moved :
        (m : Checked Move)
        → RefusesMove m
        → Sounds ((m >>= λ m. ok (record { seat = a.seat; move = m })) >>= λ a. Next.advance s a)
    moved (ok m) r =
        advance-Sounds s (record { seat = a.seat; move = m }) h (MayCheck-public s _ m e)
    moved (err (hand_error fault rule)) r = tt
    moved (err (play_error x)) r = absurd r
    moved (err (scoring_error x)) r = absurd r
    moved (err type_error) r = absurd r

Sounds-then :
    (r : Checked HandState) (f : HandState → Checked HandState)
    → Sounds r
    → ((t : HandState) → r ≡ ok t → IsSound t → Sounds (f t))
    → Sounds (r >>= f)
Sounds-then (ok t) f k g = g t refl k
Sounds-then (err (hand_error fault rule)) f k g = tt
Sounds-then (err (play_error x)) f k g = absurd k
Sounds-then (err (scoring_error x)) f k g = absurd k
Sounds-then (err type_error) f k g = absurd k

run-Sounds :
    (actions : List RawAction) (s : HandState) → IsSound s → s.hands ≡ none → Sounds (run s actions)
unfolding run
run-Sounds [] s h e = h
run-Sounds (a ∷ actions) s h e =
    Sounds-then (next_state s a) _ (next_state-Sounds s a h e)
      λ t f k. run-Sounds actions t k (next_state-hands s t a e f)

-- From the deal on, every run of actions on a public hand ends in a sound state or in an error of
-- the class `SaskuHandError`: neither a trick nor the score nor a missing contract ever throws.
pub public_run-Sounds :
    (dealer : ℕ) (actions : List RawAction) → Sounds (run (initial_state dealer none) actions)
public_run-Sounds dealer actions =
    run-Sounds actions (initial_state dealer none) (initial_state-IsSound dealer none)
      (unfold initial_state in refl)

-- When a public hand is complete, its nine tricks took thirty-six different cards and shared out
-- 120 card points and nine tricks between the sides.
pub public_complete :
    (dealer : ℕ) (actions : List RawAction) (s : HandState)
    → run (initial_state dealer none) actions ≡ ok s
    → s.phase ≡ complete
    → (s.card_points.0 + s.card_points.1 ≡ 120)
      × (s.tricks_won.0 + s.tricks_won.1 ≡ 9)
      × (length (played s.history) ≡ 36)
      × NoRepeat (played s.history)
public_complete dealer actions s e c =
    let h : IsSound s = subst Sounds e (public_run-Sounds dealer actions) in
    let clear : s.trick ≡ [] = subst (λ p. Idle p s.trick) c h.idle in
    let nine : length s.completed_tricks ≡ 9 =
      subst (λ p. Unfinished p (length s.completed_tricks)) c h.unfinished in
    let all : played s.history ≡ cards_of s.completed_tricks =
      h.cards
      ∙ ap (λ l. cards_of s.completed_tricks ++ play_cards l) clear
      ∙ append-nil (cards_of s.completed_tricks) in
    let (points_sum, tricks_sum, count) =
      tricks_total s.completed_tricks h.full nine (subst NoRepeat all h.distinct) in
    (
      subst (λ (p : ℕ × ℕ). p.0 + p.1 ≡ 120) (sym h.points_won) points_sum,
      subst (λ (p : ℕ × ℕ). p.0 + p.1 ≡ 9) (sym h.tricks_won) tricks_sum,
      ap length all ∙ count,
      h.distinct,
    )
