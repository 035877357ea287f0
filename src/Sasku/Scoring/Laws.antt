-- ===== src/Sasku/Scoring/Laws.antt =====
-- When `scoreSaskuHand` gives a score, and to which side.
use tablefolk.Base.{
  ℕ, ◌+◌, ◌*◌, ◌%◌, ◌≤◌, ◌<◌, ◌≡◌, refl, subst, ◌∙◌, ◌↔◌, inl, inr, Bool, true, false, some, ok,
  arith, ◌==◌, Bool-cases,
}
use tablefolk.Sasku.Scoring.{
  Contract, named, pass_round, HandTotals, HandScore, score_sasku_hand, score_contract, score_named,
  score_pass_round, kind_for, bonus_for, base_for, karvane, pass_round_win, ScoreKind, opponent,
  cell, feasible_points, inventory, side, score_result, leader,
}
use tablefolk.Sasku.Deck.{Suit}
use tablefolk.Sasku.Scoring.Table.{Select, feasible_iff}

abbrev pub HasSeat : Contract → Type 0
HasSeat (named suit seat) = seat ≤ 3
HasSeat pass_round = Unit

-- Totals that 36 cards can give in nine tricks, with a declarer at the table.
pub record IsPossible (t : HandTotals) : Type 0 where
  pub points : t.card_points.0 + t.card_points.1 ≡ 120
  pub tricks : t.tricks.0 + t.tricks.1 ≡ 9
  pub cards : Select inventory (t.tricks.0 * 4) t.card_points.0
  pub seated : HasSeat t.contract

score_contract_total :
    (p q : ℕ × ℕ) (c : Contract) → HasSeat c → (r : HandScore) × (score_contract p q c ≡ ok r)
unfolding score_contract
score_contract_total p q (named suit seat) h = (score_named p q suit (seat % 2), ground arith)
score_contract_total p q pass_round h = (score_pass_round p, refl)

score_contract-HasSeat :
    (p q : ℕ × ℕ) (c : Contract) (r : HandScore) → score_contract p q c ≡ ok r → HasSeat c
unfolding score_contract
score_contract-HasSeat p q (named suit seat) r h = ground arith
score_contract-HasSeat p q pass_round r h = tt

-- A call with totals in range, up to its last step.
pub score_checked :
    (t : HandTotals)
    → IsPossible t
    → score_sasku_hand t ≡ score_contract t.card_points t.tricks t.contract
unfolding score_sasku_hand
score_checked t h =
    ground
      (arith, (feasible_iff (t.tricks.0 * 4) t.card_points.0 (omega arith) (omega arith)).1 h.cards)

-- What the guards of a call that gave a score have seen.
pub score_guards :
    (t : HandTotals) (r : HandScore)
    → score_sasku_hand t ≡ ok r
    → (t.card_points.0 + t.card_points.1 ≡ 120)
      × (t.tricks.0 + t.tricks.1 ≡ 9)
      × (cell feasible_points (t.tricks.0 * 4) t.card_points.0 ≡ true)
      × (score_contract t.card_points t.tricks t.contract ≡ ok r)
unfolding score_sasku_hand
score_guards t r h = (ground arith, ground arith, ground arith, ground arith)

pub score-IsPossible : (t : HandTotals) (r : HandScore) → score_sasku_hand t ≡ ok r → IsPossible t
score-IsPossible t r h =
    let (points, tricks, marked, scored) = score_guards t r h in
    record {
      points = points;
      tricks = tricks;
      cards = (feasible_iff (t.tricks.0 * 4) t.card_points.0 (omega arith) (omega arith)).0 marked;
      seated = score_contract-HasSeat t.card_points t.tricks t.contract r scored;
    }

-- A hand is scored exactly when its points add up to 120 and its tricks to nine, some cards of the
-- deck, four for each trick of the first side, have that side's points, and the declarer's seat is
-- one of the four.
pub score_iff : (t : HandTotals) → ((r : HandScore) × (score_sasku_hand t ≡ ok r)) ↔ IsPossible t
score_iff t = (
  λ scored. score-IsPossible t scored.0 scored.1,
  λ possible.
      let (r, e) = score_contract_total t.card_points t.tricks t.contract possible.seated in
      (r, score_checked t possible ∙ e),
)

-- A side that wins the base and the bonus, within 12 points, against none.
abbrev Wins : HandScore → ℕ → Type 0
Wins r w =
    (r.winner ≡ some w)
    × (side r.game_points w ≡ r.base_points + r.bonus_points)
    × (2 ≤ side r.game_points w)
    × (side r.game_points w ≤ 12)
    × (side r.game_points (opponent w) ≡ 0)

score_result-Wins :
    (kind : ScoreKind) (w base bonus : ℕ)
    → w ≤ 1
    → 2 ≤ base
    → base + bonus ≤ 12
    → Wins (score_result kind (some w) base bonus) w
unfolding score_result
score_result-Wins kind w base bonus h l m =
    (refl, ground arith, ground arith, ground arith, ground arith)

bonus_for-le : (points : ℕ) → bonus_for points ≤ 2
bonus_for-le points = ground arith

base_for_bounds :
    (suit : Suit) (declared : Bool) → (2 ≤ base_for suit declared) × (base_for suit declared ≤ 6)
base_for_bounds suit declared = (ground arith, ground arith)

leader_lem : (p : ℕ × ℕ) (w : ℕ) → p.0 + p.1 ≡ 120 → w ≤ 1 → 60 < side p w → leader p ≡ w
leader_lem p w h l m = ground arith

no_tie : (p : ℕ × ℕ) (w : ℕ) → p.0 + p.1 ≡ 120 → 60 < side p w → (p.0 == p.1) ≡ false
no_tie p w h m = ground arith

score_named-Wins :
    (p q : ℕ × ℕ) (suit : Suit) (d w : ℕ)
    → p.0 + p.1 ≡ 120
    → w ≤ 1
    → 60 < side p w
    → Wins (score_named p q suit d) w
unfolding score_named
score_named-Wins p q suit d w h l m =
    rw (no_tie p w h m, leader_lem p w h l m)
      (elim (Bool-cases (side q (opponent w) == 0)) [
        | inl e ↦ rw e (score_result-Wins karvane w 12 0 l (omega arith) (omega arith))
        | inr e ↦
            let (least, most) = base_for_bounds suit (w == d) in
            let b = bonus_for-le (side p w) in
            rw e (
              score_result-Wins (kind_for (bonus_for (side p w))) w (base_for suit (w == d))
                (bonus_for (side p w)) l least (omega arith))
      ])

score_pass_round-Wins :
    (p : ℕ × ℕ) (w : ℕ) → p.0 + p.1 ≡ 120 → w ≤ 1 → 60 < side p w → Wins (score_pass_round p) w
unfolding score_pass_round
score_pass_round-Wins p w h l m =
    rw (no_tie p w h m, leader_lem p w h l m)
      (score_result-Wins pass_round_win w 2 0 l (omega arith) (omega arith))

score_contract-Wins :
    (p q : ℕ × ℕ) (c : Contract) (r : HandScore) (w : ℕ)
    → p.0 + p.1 ≡ 120
    → w ≤ 1
    → 60 < side p w
    → score_contract p q c ≡ ok r
    → Wins r w
unfolding score_contract
score_contract-Wins p q pass_round r w h l m e =
    let same : score_pass_round p ≡ r = ground arith in
    subst (λ x. Wins x w) same (score_pass_round-Wins p w h l m)
score_contract-Wins p q (named suit seat) r w h l m e =
    let same : score_named p q suit (seat % 2) ≡ r = ground arith in
    subst (λ x. Wins x w) same (score_named-Wins p q suit (seat % 2) w h l m)

-- Whatever the contract, a side with more than sixty points of a scored hand wins it and gets the
-- base and the bonus, between 2 and 12 game points, and the other side gets none.
score_majority :
    (t : HandTotals) (r : HandScore) (w : ℕ)
    → score_sasku_hand t ≡ ok r
    → w ≤ 1
    → 60 < side t.card_points w
    → Wins r w
score_majority t r w e l m =
    let g = score_guards t r e in
    score_contract-Wins t.card_points t.tricks t.contract r w g.0 l m g.3

score_contract_tie :
    (p q : ℕ × ℕ) (suit : Suit) (seat : ℕ) (r : HandScore)
    → p.0 ≡ p.1
    → score_contract p q (named suit seat) ≡ ok r
    → (side r.game_points (seat % 2) ≡ 0) × (side r.game_points (opponent (seat % 2)) ≡ 2)
unfolding score_contract
score_contract_tie p q suit seat r h e = (ground arith, ground arith)

-- A scored hand with a declarer that is tied at sixty points gives the declarer's side nothing and
-- the other side two game points.
score_tie :
    (t : HandTotals) (r : HandScore) (suit : Suit) (seat : ℕ)
    → score_sasku_hand t ≡ ok r
    → t.contract ≡ named suit seat
    → t.card_points.0 ≡ 60
    → (side r.game_points (seat % 2) ≡ 0) × (side r.game_points (opponent (seat % 2)) ≡ 2)
score_tie t r suit seat e c h =
    let g = score_guards t r e in
    score_contract_tie t.card_points t.tricks suit seat r (omega arith) (rw c at g.3)
