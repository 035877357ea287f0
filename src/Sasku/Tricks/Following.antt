-- ===== src/Sasku/Tricks/Following.antt =====
-- The cards that may be played: `normalizeTrick` and `legalSaskuCards`.
use tablefolk.Base.{
  ℕ, ◌≤◌, ◌<◌, ◌≡◌, refl, sym, subst, ◌≢◌, ◌↔◌, ◌⊎◌, inl, inr, Bool, true, false, List, [], ◌∷◌, ok,
  arith, any, keep, length, ◌==◌, In, In-keep, keep-In, keep_none, Result-cases,
}
use tablefolk.Sasku.Deck.{Suit, CardId}
use tablefolk.Sasku.Tricks.{
  effective_eq, effective_suit, Play, includes, normalize_plays, normalize_trick, play_cards,
  unseen_cards, or_all, following_cards, legal_sasku_cards,
}
use tablefolk.Sasku.Tricks.Winner.{effective_index_inj, effective_eq_self}

-- Plays by distinct seats of the table with distinct cards, none of them among those given.
abbrev pub Fresh : List ℕ → List CardId → List Play → Type 0
Fresh seats cards [] = Unit
Fresh seats cards (p ∷ plays) =
    (p.seat ≤ 3)
    × (any (λ s. s == p.seat) seats ≡ false)
    × (includes p.card cards ≡ false)
    × Fresh (p.seat ∷ seats) (p.card ∷ cards) plays

-- Cards without repetition, none of them among those given.
abbrev pub Unseen : List CardId → List CardId → Type 0
Unseen seen [] = Unit
Unseen seen (c ∷ cards) = (includes c seen ≡ false) × Unseen (c ∷ seen) cards

normalize_plays_ok :
    (seats : List ℕ) (cards : List CardId) (plays : List Play)
    → Fresh seats cards plays
    → normalize_plays seats cards plays ≡ ok plays
unfolding normalize_plays
normalize_plays_ok seats cards [] h = refl
normalize_plays_ok seats cards (p ∷ plays) h =
    ground (arith, h.0, h.1, h.2, normalize_plays_ok (p.seat ∷ seats) (p.card ∷ cards) plays h.3)

normalize_plays-eq :
    (seats : List ℕ) (cards : List CardId) (plays r : List Play)
    → normalize_plays seats cards plays ≡ ok r
    → (r ≡ plays) × Fresh seats cards plays
unfolding normalize_plays
normalize_plays-eq seats cards [] r h = (ground arith, tt)
normalize_plays-eq seats cards (p ∷ plays) r h =
    elim (Result-cases (normalize_plays (p.seat ∷ seats) (p.card ∷ cards) plays)) [
      | inl (rest, e) ↦
          let (same, fresh) = normalize_plays-eq (p.seat ∷ seats) (p.card ∷ cards) plays rest e in
          (ground arith, (ground arith, ground arith, ground arith, fresh))
      | inr (x, e) ↦ ground arith
    ]

-- A trick, at most four plays by distinct seats with distinct cards.
abbrev pub IsTrick : List Play → Type 0
IsTrick plays = (length plays ≤ 4) × Fresh [] [] plays

pub normalize_trick_ok : (plays : List Play) → IsTrick plays → normalize_trick plays ≡ ok plays
unfolding normalize_trick
normalize_trick_ok plays h = ground (arith, normalize_plays_ok [] [] plays h.1)

pub normalize_trick-eq :
    (plays r : List Play) → normalize_trick plays ≡ ok r → (r ≡ plays) × IsTrick plays
unfolding normalize_trick
normalize_trick-eq plays r h =
    let e : normalize_plays [] [] plays ≡ ok r = ground arith in
    let (same, fresh) = normalize_plays-eq [] [] plays r e in (same, (ground arith, fresh))

unseen_cards_ok : (seen hand : List CardId) → Unseen seen hand → unseen_cards seen hand ≡ ok hand
unfolding unseen_cards
unseen_cards_ok seen [] h = refl
unseen_cards_ok seen (c ∷ hand) h = ground (arith, unseen_cards_ok (c ∷ seen) hand h.1)

unseen_cards-eq :
    (seen hand r : List CardId) → unseen_cards seen hand ≡ ok r → (r ≡ hand) × Unseen seen hand
unfolding unseen_cards
unseen_cards-eq seen [] r h = (ground arith, tt)
unseen_cards-eq seen (c ∷ hand) r h = elim (Result-cases (unseen_cards (c ∷ seen) hand)) [
  | inl (rest, e) ↦
      let (same, fresh) = unseen_cards-eq (c ∷ seen) hand rest e in
      (ground arith, (ground arith, fresh))
  | inr (x, e) ↦ ground arith
]

-- The rule of the game: anything to an empty trick; else a card of the led suit, or any card where
-- the hand has none of that suit.
abbrev pub MayPlay : List CardId → List Play → Suit → CardId → Type 0
MayPlay hand [] t c = Unit
MayPlay hand (p ∷ plays) t c =
    (effective_suit c t ≡ effective_suit p.card t)
    ⊎ ((d : CardId) → In d hand → effective_suit d t ≢ effective_suit p.card t)

module _ (hand : List CardId) (p : Play) (plays : List Play) (t : Suit) where
  abbrev follows : CardId → Bool
  follows c = effective_eq (effective_suit c t) (effective_suit p.card t)

  none_follows :
      keep follows hand ≡ []
      → (d : CardId) → In d hand
      → effective_suit d t ≢ effective_suit p.card t
  none_follows e d i same =
      let not_kept = keep_none follows hand d e i in
      ground (arith, effective_eq_self (effective_suit p.card t))

  or_all-MayPlay :
      (l : List CardId)
      → keep follows hand ≡ l
      → (c : CardId) → In c (or_all hand l) ↔ (In c hand × MayPlay hand (p ∷ plays) t c)
  or_all-MayPlay [] e c = (λ i. (i, inr (none_follows e)), λ h. h.0)
  or_all-MayPlay (x ∷ l) e c = (
    λ i.
        let (held, same) = In-keep follows hand c (subst (In c) (sym e) i) in
        (held, inl (effective_index_inj _ _ same)),
    λ h. subst (In c) e (keep-In follows hand c h.0 (follow h.1)),
  )
    where
      first : In x hand × (follows x ≡ true)
      first = In-keep follows hand x (subst (In x) (sym e) (inl refl))

      follow : MayPlay hand (p ∷ plays) t c → follows c ≡ true
      follow (inl same) = rw same (effective_eq_self (effective_suit p.card t))
      follow (inr none_held) = absurd (none_held x first.0 (effective_index_inj _ _ first.1))

following_cards_iff :
    (hand : List CardId) (plays : List Play) (t : Suit) (c : CardId)
    → In c (following_cards hand plays t) ↔ (In c hand × MayPlay hand plays t c)
unfolding following_cards
following_cards_iff hand [] t c = (λ i. (i, tt), λ h. h.0)
following_cards_iff hand (p ∷ plays) t c = or_all-MayPlay hand p plays t _ refl c

-- A hand of at most nine cards, none of them twice or on the trick.
abbrev pub IsHand : List CardId → List Play → Type 0
IsHand hand plays = (length hand ≤ 9) × Unseen (play_cards plays) hand

pub legal_sasku_cards_ok :
    (hand : List CardId) (plays : List Play) (t : Suit)
    → IsTrick plays
    → length plays < 4
    → IsHand hand plays
    → legal_sasku_cards hand plays t ≡ ok (following_cards hand plays t)
unfolding legal_sasku_cards
legal_sasku_cards_ok hand plays t h l k =
    ground (arith, normalize_trick_ok plays h, unseen_cards_ok (play_cards plays) hand k.1)

-- What a call that gives cards has checked, and what it gives.
legal_sasku_cards-eq :
    (hand : List CardId) (plays : List Play) (t : Suit) (cards : List CardId)
    → legal_sasku_cards hand plays t ≡ ok cards
    → IsTrick plays
      × (length plays < 4)
      × IsHand hand plays
      × (cards ≡ following_cards hand plays t)
unfolding legal_sasku_cards
legal_sasku_cards-eq hand plays t cards h = elim (Result-cases (normalize_trick plays)) [
  | inr (x, e) ↦ ground arith
  | inl (r, e) ↦ elim (Result-cases (unseen_cards (play_cards r) hand)) [
    | inr (x, f) ↦ ground arith
    | inl (s, f) ↦
        let (same, trick) = normalize_trick-eq plays r e in
        let g : unseen_cards (play_cards plays) hand ≡ ok s = rw (← same) f in
        let (same_hand, unseen) = unseen_cards-eq (play_cards plays) hand s g in
        (trick, ground arith, (ground arith, unseen), ground arith)
  ]
]

-- The legal cards are exactly the cards of the hand that the rule lets a player play, for a trick
-- of fewer than four plays by distinct seats with distinct cards and a hand of at most nine cards,
-- none of them twice or on the trick.
pub legal_iff :
    (hand : List CardId) (plays : List Play) (t : Suit) (c : CardId)
    → IsTrick plays
    → length plays < 4
    → IsHand hand plays
    → (cards : List CardId) × (legal_sasku_cards hand plays t ≡ ok cards)
      × (In c cards ↔ (In c hand × MayPlay hand plays t c))
legal_iff hand plays t c h l k = (
  following_cards hand plays t,
  legal_sasku_cards_ok hand plays t h l k,
  following_cards_iff hand plays t c,
)

-- A player with a card has a legal one.
pub following_some :
    (hand : List CardId) (plays : List Play) (t : Suit)
    → following_cards hand plays t ≡ []
    → hand ≡ []
unfolding following_cards
following_some hand [] t h = h
following_some hand (p ∷ plays) t h =
    or_none (keep (λ c. effective_eq (effective_suit c t) (effective_suit p.card t)) hand) h
  where
    or_none : (l : List CardId) → or_all hand l ≡ [] → hand ≡ []
    or_none [] e = e
    or_none (x ∷ l) e = cc
