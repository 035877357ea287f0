-- ===== src/Sasku/Hand/Won.antt =====
-- What the completed tricks of a hand hold: their cards, and the points and tricks of each side.
use mathlib.Core.List.{append_assoc}
use tablefolk.Base.{
  ℕ, ◌+◌, ◌*◌, ◌≡◌, refl, sym, List, [], ◌∷◌, ◌++◌, map, arith, length, length-append, sum_by,
  sum_by-append, All, ◌==◌, if◌then◌else◌, Bool-cases, inl, inr, ok,
}
use tablefolk.Sasku.Deck.{CardId}
use tablefolk.Sasku.Scoring.{Contract, HandScore, score_sasku_hand}
use tablefolk.Sasku.Scoring.Table.{Select, done, skip, pick}
use tablefolk.Sasku.Scoring.Laws.{HasSeat, score_iff}
use tablefolk.Sasku.Tricks.{Play, play_cards, trick_points}
use tablefolk.Sasku.Hand.State.{CompletedTrick}
use tablefolk.Sasku.Hand.Whole.{NoRepeat, points_of, whole_points, whole_choice}

abbrev pub cards_of : List CompletedTrick → List CardId
cards_of [] = []
cards_of (t ∷ ts) = play_cards t.plays ++ cards_of ts

-- An amount of the tricks that the first side won, or that the other did.
abbrev pub first_side : (CompletedTrick → ℕ) → List CompletedTrick → ℕ
first_side f = sum_by (λ t. if t.result.partnership == 0 then f t else 0)

abbrev pub other_side : (CompletedTrick → ℕ) → List CompletedTrick → ℕ
other_side f = sum_by (λ t. if t.result.partnership == 0 then 0 else f t)

abbrev pub points : CompletedTrick → ℕ
points t = t.result.card_points

abbrev pub one : CompletedTrick → ℕ
one t = 1

-- Four plays, with their points.
abbrev pub IsFull : CompletedTrick → Type 0
IsFull t = (length t.plays ≡ 4) × (t.result.card_points ≡ trick_points t.plays)

pub cards_of-append :
    (ts us : List CompletedTrick) → cards_of (ts ++ us) ≡ cards_of ts ++ cards_of us
cards_of-append [] us = refl
cards_of-append (t ∷ ts) us =
    rw (cards_of-append ts us) (sym (append_assoc (play_cards t.plays) (cards_of ts) (cards_of us)))

pub length-play_cards : (plays : List Play) → length (play_cards plays) ≡ length plays
length-play_cards [] = refl
length-play_cards (p ∷ plays) = omega (arith, length-play_cards plays)

pub play_cards-append : (xs ys : List Play) → play_cards (xs ++ ys) ≡ play_cards xs ++ play_cards ys
play_cards-append [] ys = refl
play_cards-append (x ∷ xs) ys = rw (play_cards-append xs ys)

sum-play_cards : (plays : List Play) → sum_by points_of (play_cards plays) ≡ trick_points plays
sum-play_cards [] = refl
sum-play_cards (p ∷ plays) = omega (arith, sum-play_cards plays)

skip_all :
    (plays : List Play) (xs : List CardId) (k s k' s' : ℕ)
    → Select (map points_of xs) k s
    → k' ≡ k
    → s' ≡ s
    → Select (map points_of (play_cards plays ++ xs)) k' s'
skip_all [] xs k s k' s' c e f = rw (e, f) c
skip_all (p ∷ plays) xs k s k' s' c e f = skip (skip_all plays xs k s k' s' c e f)

pick_all :
    (plays : List Play) (xs : List CardId) (k s k' s' : ℕ)
    → Select (map points_of xs) k s
    → k' ≡ length plays + k
    → s' ≡ trick_points plays + s
    → Select (map points_of (play_cards plays ++ xs)) k' s'
pick_all [] xs k s k' s' c e f =
    let a : k' ≡ k = omega arith in let b : s' ≡ s = omega arith in rw (a, b) c
pick_all (p ∷ plays) xs k s k' s' c e f =
    pick k' s' (pick_all plays xs k s (length plays + k) (trick_points plays + s) c refl refl)
      (omega arith) (omega arith)

-- The cards that the first side won are a choice from the cards of all tricks.
first_side-Select :
    (ts : List CompletedTrick)
    → All IsFull ts
    → Select (map points_of (cards_of ts)) (first_side one ts * 4) (first_side points ts)
first_side-Select [] h = done
first_side-Select (t ∷ ts) h = elim (Bool-cases (t.result.partnership == 0)) [
  | inl mine ↦ rw mine (
      pick_all t.plays (cards_of ts) (first_side one ts * 4) (first_side points ts) _ _
        (first_side-Select ts h.1) (omega arith) (omega arith))
  | inr theirs ↦ rw theirs (
      skip_all t.plays (cards_of ts) (first_side one ts * 4) (first_side points ts) _ _
        (first_side-Select ts h.1) (omega arith) (omega arith))
]

length-cards_of : (ts : List CompletedTrick) → All IsFull ts → length (cards_of ts) ≡ 4 * length ts
length-cards_of [] h = refl
length-cards_of (t ∷ ts) h = omega (
  arith,
  length-append (play_cards t.plays) (cards_of ts),
  length-play_cards t.plays,
  length-cards_of ts h.1,
)

sides_total :
    (f : CompletedTrick → ℕ) (ts : List CompletedTrick)
    → first_side f ts + other_side f ts ≡ sum_by f ts
sides_total f [] = refl
sides_total f (t ∷ ts) = ground (arith, sides_total f ts)

sum-points :
    (ts : List CompletedTrick) → All IsFull ts → sum_by points ts ≡ sum_by points_of (cards_of ts)
sum-points [] h = refl
sum-points (t ∷ ts) h = omega (
  arith,
  sum_by-append points_of (play_cards t.plays) (cards_of ts),
  sum-play_cards t.plays,
  sum-points ts h.1,
)

sum-one : (ts : List CompletedTrick) → sum_by one ts ≡ length ts
sum-one [] = refl
sum-one (t ∷ ts) = omega (arith, sum-one ts)

-- Nine full tricks of different cards have a score, whatever the contract.
pub tricks_scored :
    (ts : List CompletedTrick) (c : Contract)
    → All IsFull ts
    → length ts ≡ 9
    → NoRepeat (cards_of ts)
    → HasSeat c
    → (r : HandScore) × (score_sasku_hand (record {
      card_points = (first_side points ts, other_side points ts);
      tricks = (first_side one ts, other_side one ts);
      contract = c;
    })
        ≡ ok r)
tricks_scored ts c full nine distinct seated =
    let count : length (cards_of ts) ≡ 36 = omega (arith, length-cards_of ts full) in
    (score_iff _).1 (record {
      points = omega (
        arith,
        sides_total points ts,
        sum-points ts full,
        whole_points (cards_of ts) distinct count,
      );
      tricks = omega (arith, sides_total one ts, sum-one ts);
      cards =
          whole_choice (cards_of ts) (first_side one ts * 4) (first_side points ts) distinct count
            (first_side-Select ts full);
      seated = seated;
    })

-- Full tricks of different cards hand out their cards' points, one trick each.
pub tricks_total :
    (ts : List CompletedTrick)
    → All IsFull ts
    → length ts ≡ 9
    → NoRepeat (cards_of ts)
    → (first_side points ts + other_side points ts ≡ 120)
      × (first_side one ts + other_side one ts ≡ 9)
      × (length (cards_of ts) ≡ 36)
tricks_total ts full nine distinct =
    let count : length (cards_of ts) ≡ 36 = omega (arith, length-cards_of ts full) in
    (
      omega (
        arith,
        sides_total points ts,
        sum-points ts full,
        whole_points (cards_of ts) distinct count,
      ),
      omega (arith, sides_total one ts, sum-one ts),
      count,
    )
