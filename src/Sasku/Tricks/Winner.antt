-- ===== src/Sasku/Tricks/Winner.antt =====
-- The winner of a trick, and what it means to beat a card.
use mathlib.Core.Option.{some-injective}
use tablefolk.Base.{
  ℕ, ◌≤◌, ◌<◌, ◌≡◌, refl, sym, ◌∙◌, ◌≢◌, inl, inr, true, false, ◌&&◌, ◌||◌, not, List, [], ◌∷◌,
  some, arith, every, subst, All, All-In, In, ltb, ◌==◌, Bool-cases,
}
use tablefolk.Sasku.Deck.{
  describe, Suit, clubs, spades, hearts, diamonds, CardId, deck, strength, card_eq,
}
use tablefolk.Sasku.Deck.Laws.{card_eq→eq, suit_index_inj, deck_sound, strength_range}
use tablefolk.Sasku.Tricks.{
  Effective, trump, plain, effective_eq, effective_suit, Play, priority, best_play, winner_of,
}

no_ties_checked :
    (t : Suit)
    → every
        (λ a.
          every
            (λ b.
              card_eq a b
              || not (
                  strength a == strength b
                  && effective_eq (effective_suit a t) (effective_suit b t)))
            deck)
        deck
      ≡ true
unfolding deck strength effective_suit describe card_eq
no_ties_checked clubs = refl
no_ties_checked spades = refl
no_ties_checked hearts = refl
no_ties_checked diamonds = refl

pub effective_index_inj : (a b : Effective) → effective_eq a b ≡ true → a ≡ b
effective_index_inj trump trump h = refl
effective_index_inj trump (plain s) h = ground arith
effective_index_inj (plain s) trump h = ground arith
effective_index_inj (plain s) (plain u) h = ground (arith, suit_index_inj s u)

pub effective_eq_self : (a : Effective) → effective_eq a a ≡ true
effective_eq_self a = ground arith

-- Two cards of one effective suit differ in strength.
pub strength_injective :
    (t : Suit) (a b : CardId)
    → effective_suit a t ≡ effective_suit b t
    → strength a ≡ strength b
    → a ≡ b
strength_injective t a b e s =
    let row =
      deck_sound
        (λ a.
          every
            (λ b.
              card_eq a b
              || not (
                  strength a == strength b
                  && effective_eq (effective_suit a t) (effective_suit b t)))
            deck)
        a (no_ties_checked t) in
    let entry =
      deck_sound
        (λ b.
          card_eq a b
          || not
              (strength a == strength b && effective_eq (effective_suit a t) (effective_suit b t)))
        b row in
    card_eq→eq a b (ground (arith, effective_eq_self (effective_suit b t)))

-- The rule of the game: a trump beats what is no trump, a card of the led suit what is neither of
-- that suit nor a trump, and within the trumps or the led suit the stronger card beats the weaker.
pub data Beats (t : Suit) (led : Effective) (a b : CardId) : Type 0 where
  by_trump : effective_suit a t ≡ trump → effective_suit b t ≢ trump → Beats t led a b
  by_strength : effective_suit a t ≡ effective_suit b t → strength b < strength a → Beats t led a b
  by_suit :
      effective_suit a t ≡ led
      → effective_suit b t ≢ led
      → effective_suit b t ≢ trump
      → Beats t led a b

module _ (t : Suit) (led : Effective) (a b : CardId)
    (stronger : priority b led t < priority a led t) where
  Beats-split :
      (x y : Effective) → effective_suit a t ≡ x → effective_suit b t ≡ y → Beats t led a b
  unfolding priority
  Beats-split trump trump ea eb = by_strength (ea ∙ sym eb) (ground arith)
  Beats-split trump (plain s) ea eb = by_trump ea (λ e. cc)
  Beats-split (plain s) trump ea eb = absurd (ground (arith, strength_range a))
  Beats-split (plain s) (plain u) ea eb =
      let follows : effective_eq (plain s) led ≡ true = ground arith in
      let led_suit : plain s ≡ led = effective_index_inj (plain s) led follows in
      elim (Bool-cases (effective_eq (plain u) led)) [
        | inl also ↦
            by_strength (ea ∙ led_suit ∙ sym (effective_index_inj (plain u) led also) ∙ sym eb)
              (ground arith)
        | inr other ↦ by_suit (ea ∙ led_suit) (λ e. ground (arith, effective_eq_self led)) (λ e. cc)
      ]

  priority-Beats : Beats t led a b
  priority-Beats = Beats-split (effective_suit a t) (effective_suit b t) refl refl

-- One of the plays, with at least the priority of each.
abbrev IsBest : Effective → Suit → List Play → Play → Type 0
IsBest led t plays r = In r plays × All (λ q. priority q.card led t ≤ priority r.card led t) plays

module _ (led : Effective) (t : Suit) (w p : Play) (best : ℕ) (plays : List Play) where
  best_play-stronger :
      ltb best (priority p.card led t) ≡ true
      → best_play led t w best (p ∷ plays) ≡ best_play led t p (priority p.card led t) plays
  unfolding best_play
  best_play-stronger h = rw h

  best_play-weaker :
      ltb best (priority p.card led t) ≡ false
      → best_play led t w best (p ∷ plays) ≡ best_play led t w best plays
  unfolding best_play
  best_play-weaker h = rw h

best_play-IsBest :
    (led : Effective) (t : Suit) (w : Play) (best : ℕ) (plays : List Play)
    → best ≡ priority w.card led t
    → IsBest led t (w ∷ plays) (best_play led t w best plays)
best_play-IsBest led t w best [] e = unfold best_play in (inl refl, (omega arith, tt))
best_play-IsBest led t w best (p ∷ plays) e =
    let s = priority p.card led t in
    elim (Bool-cases (ltb best s)) [
      | inl more ↦
          let h = best_play-IsBest led t p s plays refl in
          subst (IsBest led t (w ∷ p ∷ plays)) (sym (best_play-stronger led t w p best plays more))
            (inr h.0, (ground arith, h.1))
      | inr less ↦
          let h = best_play-IsBest led t w best plays e in
          subst (IsBest led t (w ∷ p ∷ plays)) (sym (best_play-weaker led t w p best plays less))
            (ground arith, (h.1.0, (ground arith, h.1.1)))
    ]

winner_of-IsBest :
    (p : Play) (plays : List Play) (t : Suit) (w : Play)
    → winner_of (p ∷ plays) t ≡ some w
    → IsBest (effective_suit p.card t) t (p ∷ plays) w
unfolding winner_of
winner_of-IsBest p plays t w h =
    let led = effective_suit p.card t in
    subst (IsBest led t (p ∷ plays)) (some-injective _ _ h)
      (best_play-IsBest led t p (priority p.card led t) plays refl)

module _ (t : Suit) (led : Effective) (a b : CardId) (scores : 0 < priority a led t)
    (ties : priority a led t ≡ priority b led t) where
  ties-split : (x y : Effective) → effective_suit a t ≡ x → effective_suit b t ≡ y → a ≡ b
  unfolding priority
  ties-split trump trump ea eb = strength_injective t a b (ea ∙ sym eb) (ground arith)
  ties-split trump (plain s) ea eb = absurd (ground (arith, strength_range b))
  ties-split (plain s) trump ea eb = absurd (ground (arith, strength_range a))
  ties-split (plain s) (plain u) ea eb =
      let a_follows : effective_eq (plain s) led ≡ true = ground arith in
      let b_follows : effective_eq (plain u) led ≡ true = ground arith in
      strength_injective t a b
        (ea
          ∙ effective_index_inj (plain s) led a_follows
          ∙ sym (effective_index_inj (plain u) led b_follows)
          ∙ sym eb)
        (ground arith)

  priority_ties : a ≡ b
  priority_ties = ties-split (effective_suit a t) (effective_suit b t) refl refl

priority_led : (c : CardId) (t : Suit) → 0 < priority c (effective_suit c t) t
unfolding priority
priority_led c t = ground (arith, strength_range c, effective_eq_self (effective_suit c t))

-- The winner of a trick is one of its plays, and its card beats the card of every other play.
pub winner-Beats_all :
    (p : Play) (plays : List Play) (t : Suit) (w q : Play)
    → winner_of (p ∷ plays) t ≡ some w
    → In q (p ∷ plays)
    → q.card ≢ w.card
    → In w (p ∷ plays) × Beats t (effective_suit p.card t) w.card q.card
winner-Beats_all p plays t w q h i differs =
    let led = effective_suit p.card t in
    let (place, best) = winner_of-IsBest p plays t w h in
    let most = All-In (λ q. priority q.card led t ≤ priority w.card led t) (p ∷ plays) q best i in
    let tie = λ (e : priority w.card led t ≡ priority q.card led t).
      differs (
        sym (priority_ties t led w.card q.card (omega (arith, priority_led p.card t, best.0)) e)) in
    (place, priority-Beats t led w.card q.card (ground (arith, tie)))

-- Every trick with a card in it has a winner.
pub winner_exists :
    (p : Play) (plays : List Play) (t : Suit) → (w : Play) × (winner_of (p ∷ plays) t ≡ some w)
unfolding winner_of
winner_exists p plays t = (
  best_play (effective_suit p.card t) t p (priority p.card (effective_suit p.card t) t) plays,
  refl,
)

pub winner_of-In :
    (p : Play) (plays : List Play) (t : Suit) (w : Play)
    → winner_of (p ∷ plays) t ≡ some w
    → In w (p ∷ plays)
winner_of-In p plays t w h = (winner_of-IsBest p plays t w h).0
