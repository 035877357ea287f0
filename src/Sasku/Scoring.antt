-- ===== src/Sasku/Scoring.antt =====
-- packages/rules-sasku/src/scoring.ts: the score of a completed hand from its totals.
pub mod Table
pub mod Laws
pub mod Symmetry
use tablefolk.Base.{
  ℕ, zero, suc, ◌+◌, ◌*◌, ◌%◌, Bool, true, false, ◌||◌, List, [], ◌∷◌, ◌++◌, Option, none, some, ok,
  ◌>>=◌, ◌>>◌, ensure, ltb, leb, ◌==◌, if◌then◌else◌, get_or, keep, replicate, flat_map, foldl,
}
use tablefolk.Sasku.Errors.{
  Checked, scoring_error, bad_number, points_total, tricks_total, infeasible,
}
use tablefolk.Sasku.Deck.{Suit, clubs, spades, hearts, diamonds, suit_eq}

-- `SaskuContract`.
pub data Contract : Type 0 where
  named : (suit : Suit) (declarer_seat : ℕ) → Contract
  pass_round : Contract

pub record HandTotals : Type 0 where
  pub card_points : ℕ × ℕ
  pub tricks : ℕ × ℕ
  pub contract : Contract

pub data ScoreKind : Type 0 where
  simple_win seajann jann karvane pokk pass_round_win pass_round_tie : ScoreKind

pub record HandScore : Type 0 where
  pub kind : ScoreKind
  pub winner : Option ℕ
  pub game_points : ℕ × ℕ
  pub base_points : ℕ
  pub bonus_points : ℕ

-- `integer`: a number that is a whole one by its type is held to the maximum.
unfoldable pub integer : ℕ → ℕ → Checked ℕ
integer value maximum = do ensure (leb value maximum) (scoring_error bad_number); ok value

unfoldable pub pair : ℕ × ℕ → ℕ → Checked (ℕ × ℕ)
unfolding integer
pair (a, b) maximum = do x ← integer a maximum; y ← integer b maximum; ok (x, y)

unfoldable pub partnership_for_seat : ℕ → Checked ℕ
unfolding integer
partnership_for_seat seat = do s ← integer seat 3; ok (s % 2)

-- The inner loop over sums: each mark of `source` marks `target` that many points further on.
unfoldable pub mark_row : ℕ → List Bool → List Bool → List Bool
mark_row p source [] = []
mark_row (suc p) source (t ∷ target) = t ∷ mark_row p source target
mark_row zero [] (t ∷ target) = t ∷ target
mark_row zero (s ∷ source) (t ∷ target) = (t || s) ∷ mark_row zero source target

-- The loop over counts runs downwards, so each row is marked from the row before it as it was.
unfoldable pub mark_rows : ℕ → List Bool → List (List Bool) → List (List Bool)
unfolding mark_row
mark_rows p before [] = []
mark_rows p before (row ∷ rows) = mark_row p before row ∷ mark_rows p row rows

unfoldable pub add_card : List (List Bool) → ℕ → List (List Bool)
unfolding mark_rows
add_card [] p = []
add_card (row ∷ rows) p = row ∷ mark_rows p row rows

-- `Object.values(SASKU_CARD_POINTS)`.
abbrev pub card_point_values : List ℕ
card_point_values = 11 ∷ 10 ∷ 4 ∷ 3 ∷ 2 ∷ 0 ∷ []

unfoldable pub inventory : List ℕ
unfolding flat_map
inventory = flat_map (λ p. p ∷ p ∷ p ∷ p ∷ []) (keep (ltb 0) card_point_values) ++ replicate 16 0

-- 37 rows of 121 cells, with the first cell of the first row marked.
unfoldable pub empty_table : List (List Bool)
empty_table = (true ∷ replicate 120 false) ∷ replicate 36 (replicate 121 false)

unfoldable pub feasible_points : List (List Bool)
unfolding add_card inventory empty_table
feasible_points = foldl add_card empty_table inventory

abbrev pub cell : List (List Bool) → ℕ → ℕ → Bool
cell table count sum = get_or (get_or table count []) sum false

-- The function `result`.
unfoldable pub score_result : ScoreKind → Option ℕ → ℕ → ℕ → HandScore
score_result kind winner base bonus = record {
  kind = kind;
  winner = winner;
  game_points = elim winner [
    | none ↦ (0, 0)
    | some w ↦ if w == 0 then (base + bonus, 0) else (0, base + bonus)
  ];
  base_points = base;
  bonus_points = bonus;
}

-- The side with more points, once they differ.
abbrev pub leader : ℕ × ℕ → ℕ
leader (a, b) = if ltb b a then 0 else 1

abbrev pub side : ℕ × ℕ → ℕ → ℕ
side (a, b) w = if w == 0 then a else b

abbrev pub opponent : ℕ → ℕ
opponent w = if w == 0 then 1 else 0

unfoldable pub score_pass_round : ℕ × ℕ → HandScore
unfolding score_result
score_pass_round (a, b) =
    if a == b
    then score_result pass_round_tie none 0 0
    else score_result pass_round_win (some (leader (a, b))) 2 0

abbrev pub bonus_for : ℕ → ℕ
bonus_for points = if points == 90 then 1 else if leb 91 points then 2 else 0

abbrev pub kind_for : ℕ → ScoreKind
kind_for bonus = if bonus == 1 then seajann else if bonus == 2 then jann else simple_win

abbrev pub base_for : Suit → Bool → ℕ
base_for suit declared = (if declared then 2 else 4) + (if suit_eq suit diamonds then 2 else 0)

unfoldable pub score_named : ℕ × ℕ → ℕ × ℕ → Suit → ℕ → HandScore
unfolding score_result
score_named points tricks suit declaring =
    let winner = leader points in
    let bonus = bonus_for (side points winner) in
    if points.0 == points.1
    then score_result pokk (some (opponent declaring)) 2 0
    else if side tricks (opponent winner) == 0
    then score_result karvane (some winner) 12 0
    else score_result (kind_for bonus) (some winner) (base_for suit (winner == declaring)) bonus

unfoldable pub score_contract : ℕ × ℕ → ℕ × ℕ → Contract → Checked HandScore
unfolding score_pass_round score_named partnership_for_seat
score_contract points tricks pass_round = ok (score_pass_round points)
score_contract points tricks (named suit declarer_seat) = do
  declaring ← partnership_for_seat declarer_seat
  ok (score_named points tricks suit declaring)

unfoldable pub score_sasku_hand : HandTotals → Checked HandScore
unfolding pair score_contract
score_sasku_hand input = do
  points ← pair input.card_points 120
  tricks ← pair input.tricks 9
  ensure (points.0 + points.1 == 120) (scoring_error points_total)
  ensure (tricks.0 + tricks.1 == 9) (scoring_error tricks_total)
  ensure (cell feasible_points (tricks.0 * 4) points.0) (scoring_error infeasible)
  score_contract points tricks input.contract
