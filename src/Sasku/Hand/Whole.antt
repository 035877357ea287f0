-- ===== src/Sasku/Hand/Whole.antt =====
-- Thirty-six different cards against the whole deck and the inventory of points.
use mathlib.Core.List.Permᴰ
use mathlib.Core.List.{Permᴰ}
use tablefolk.Base.{
  ℕ, suc, ◌+◌, ◌≡◌, refl, sym, ◌∙◌, ap, subst, true, false, List, [], ◌∷◌, map, arith, length,
  sum_by, flat_map, Bool-cases, inl, inr,
}
use tablefolk.Sasku.Deck.{
  Suit, Rank, clubs, six, seven, eight, nine, ten, jack, queen, king, ace, CardId, describe,
  card_eq, suits,
}
use tablefolk.Sasku.Deck.Laws.{card_eq→eq, card_eq_self}
use tablefolk.Sasku.Scoring.{inventory}
use tablefolk.Sasku.Scoring.Table.{Select, skip, pick}
use tablefolk.Sasku.Tricks.{includes}
use tablefolk.Sasku.Hand.Playing.{remove_card}

abbrev pub points_of : CardId → ℕ
points_of c = (describe c).points

-- No card stands twice in the list.
abbrev pub NoRepeat : List CardId → Type 0
NoRepeat [] = Unit
NoRepeat (c ∷ cards) = (includes c cards ≡ false) × NoRepeat cards

remove_card-perm :
    (x : CardId) (ys : List CardId) → includes x ys ≡ true → Permᴰ ys (x ∷ remove_card x ys)
remove_card-perm x [] h = cc
remove_card-perm x (y ∷ ys) h = elim (Bool-cases (card_eq x y)) [
  | inl same ↦ rw same (Permᴰ.cons (sym (card_eq→eq x y same)) (Permᴰ.refl ys))
  | inr other ↦
      rw other (
        Permᴰ.trans (Permᴰ.cons refl (remove_card-perm x ys (ground arith))) (Permᴰ.swap refl refl))
]

includes-remove_card :
    (c x : CardId) (ys : List CardId)
    → includes c ys ≡ true
    → card_eq c x ≡ false
    → includes c (remove_card x ys) ≡ true
includes-remove_card c x [] h n = cc
includes-remove_card c x (y ∷ ys) h n = elim (Bool-cases (card_eq x y)) [
  | inl same ↦
      let other : card_eq c y ≡ false = subst (λ z. card_eq c z ≡ false) (card_eq→eq x y same) n in
      rw same (rw other at h)
  | inr kept ↦ elim (Bool-cases (card_eq c y)) [
    | inl here ↦ rw (kept, here)
    | inr later ↦ rw (kept, later) (includes-remove_card c x ys (rw later at h) n)
  ]
]

length-perm : {xs ys : List CardId} → Permᴰ xs ys → length xs ≡ length ys
length-perm Permᴰ.nil = refl
length-perm (Permᴰ.cons e d) = ap suc (length-perm d)
length-perm (Permᴰ.swap e f) = refl
length-perm (Permᴰ.trans d e) = length-perm d ∙ length-perm e

abbrev Within : List CardId → List CardId → Type 0
Within xs ys = (c : CardId) → includes c xs ≡ true → includes c ys ≡ true

-- As many different cards of a list as it has are all of it.
perm_of_NoRepeat :
    (xs ys : List CardId) → NoRepeat xs → Within xs ys → length xs ≡ length ys → Permᴰ xs ys
perm_of_NoRepeat [] [] h w e = Permᴰ.nil
perm_of_NoRepeat [] (y ∷ ys) h w e = absurd (omega arith)
perm_of_NoRepeat (x ∷ xs) ys h w e =
    let found : includes x ys ≡ true = w x (ground (arith, card_eq_self x)) in
    let split = remove_card-perm x ys found in
    Permᴰ.trans
      (Permᴰ.cons refl
        (perm_of_NoRepeat xs (remove_card x ys) h.1 rest (omega (arith, length-perm split))))
      (Permᴰ.symm split)
  where
    rest : Within xs (remove_card x ys)
    rest c i = includes-remove_card c x ys (w c (ground arith)) (ground (arith, card_eq→eq c x))

-- The deck, in the order of the inventory: four aces, four tens, and so on.
pub by_rank : List CardId
unfolding flat_map
by_rank =
    flat_map (λ r. map (λ s. record { rank = r; suit = s }) suits)
      (ace ∷ ten ∷ king ∷ queen ∷ jack ∷ six ∷ seven ∷ eight ∷ nine ∷ [])

by_rank-inventory : map points_of by_rank ≡ inventory
unfolding by_rank inventory describe
by_rank-inventory = refl

includes-by_rank : (r : Rank) (s : Suit) → includes (record { rank = r; suit = s }) by_rank ≡ true
unfolding by_rank card_eq
includes-by_rank six clubs = refl
includes-by_rank seven clubs = refl
includes-by_rank eight clubs = refl
includes-by_rank nine clubs = refl
includes-by_rank ten clubs = refl
includes-by_rank jack clubs = refl
includes-by_rank queen clubs = refl
includes-by_rank king clubs = refl
includes-by_rank ace clubs = refl
includes-by_rank _ _ = refl

length-by_rank : length by_rank ≡ 36
unfolding by_rank
length-by_rank = refl

pub whole_deck : (xs : List CardId) → NoRepeat xs → length xs ≡ 36 → Permᴰ xs by_rank
whole_deck xs h e =
    perm_of_NoRepeat xs by_rank h (λ c i. includes-by_rank c.rank c.suit) (e ∙ sym length-by_rank)

Select-swap : {x y : ℕ} {l : List ℕ} {k s : ℕ} → Select (x ∷ y ∷ l) k s → Select (y ∷ x ∷ l) k s
Select-swap (skip (skip r)) = skip (skip r)
Select-swap (skip (pick k s r e f)) = pick k s (skip r) e f
Select-swap (pick k s (skip r) e f) = skip (pick k s r e f)
Select-swap {x} {y} (pick k s (pick {s = u} k' s' r e' f') e f) =
    pick k s (pick k' (x + u) r e' refl) e (omega arith)

Select-swapped :
    {x y x' y' : ℕ} (l : List ℕ) (k s : ℕ)
    → x ≡ y'
    → y ≡ x'
    → Select (x ∷ y ∷ l) k s
    → Select (x' ∷ y' ∷ l) k s
Select-swapped {x} {y} {x'} {y'} l k s e f c =
    subst (λ u. Select (u ∷ y' ∷ l) k s) f (subst (λ v. Select (y ∷ v ∷ l) k s) e (Select-swap c))

-- A choice from a list is one from any permutation of it.
pub Select-perm :
    {xs ys : List CardId}
    → Permᴰ xs ys
    → (k s : ℕ) → Select (map points_of xs) k s
    → Select (map points_of ys) k s
Select-perm Permᴰ.nil k s c = c
Select-perm (Permᴰ.cons e d) k s c =
    Select-cons (map points_of _) (ap points_of e) (Select-perm d) c
  where
    Select-cons :
        {x y : ℕ} {ys : List ℕ} (xs : List ℕ)
        → x ≡ y
        → ((k s : ℕ) → Select xs k s → Select ys k s)
        → Select (x ∷ xs) k s
        → Select (y ∷ ys) k s
    Select-cons xs e f (skip r) = skip (f _ _ r)
    Select-cons xs e f (pick k s r p q) = pick k s (f _ _ r) p (omega arith)
Select-perm (Permᴰ.swap {l} e f) k s c =
    Select-swapped (map points_of l) k s (ap points_of e) (ap points_of f) c
Select-perm (Permᴰ.trans d e) k s c = Select-perm e k s (Select-perm d k s c)

sum-perm : {xs ys : List CardId} → Permᴰ xs ys → sum_by points_of xs ≡ sum_by points_of ys
sum-perm Permᴰ.nil = refl
sum-perm (Permᴰ.cons e d) = omega (arith, ap points_of e, sum-perm d)
sum-perm (Permᴰ.swap e f) = omega (arith, ap points_of e, ap points_of f)
sum-perm (Permᴰ.trans d e) = sum-perm d ∙ sum-perm e

sum-by_rank : sum_by points_of by_rank ≡ 120
unfolding by_rank describe
sum-by_rank = refl

-- Thirty-six different cards have 120 points.
pub whole_points : (xs : List CardId) → NoRepeat xs → length xs ≡ 36 → sum_by points_of xs ≡ 120
whole_points xs h e = sum-perm (whole_deck xs h e) ∙ sum-by_rank

-- Of thirty-six different cards, so many with so many points are such a choice from the inventory.
pub whole_choice :
    (xs : List CardId) (k s : ℕ)
    → NoRepeat xs
    → length xs ≡ 36
    → Select (map points_of xs) k s
    → Select inventory k s
whole_choice xs k s h e c =
    subst (λ l. Select l k s) by_rank-inventory (Select-perm (whole_deck xs h e) k s c)
