-- ===== src/Sasku/Scoring/Symmetry.antt =====
-- `scoreSaskuHand` with the two sides exchanged.
use mathlib.Core.Option
use tablefolk.Base.{ℕ, ◌+◌, ◌-◌, ◌*◌, ◌%◌, ◌≤◌, ◌≡◌, ◌∙◌, List, ok, arith, length, sum_by}
use tablefolk.Sasku.Scoring.{
  Contract, named, pass_round, HandTotals, HandScore, score_sasku_hand, score_contract, inventory,
  opponent,
}
use tablefolk.Sasku.Scoring.Table.{Select, done, skip, pick}
use tablefolk.Sasku.Scoring.Laws.{
  HasSeat, IsPossible, score-IsPossible, score_checked, score_guards,
}

abbrev total : List ℕ → ℕ
total = sum_by (λ x. x)

Select-bounds : {xs : List ℕ} {k s : ℕ} → Select xs k s → (k ≤ length xs) × (s ≤ total xs)
Select-bounds done = omega arith
Select-bounds (skip rest) = omega (arith, Select-bounds rest)
Select-bounds (pick k s rest e f) = omega (arith, Select-bounds rest)

-- What the first side did not take, the second did.
Select-rest :
    {xs : List ℕ} {k s : ℕ} (k' s' : ℕ)
    → Select xs k s
    → k + k' ≡ length xs
    → s + s' ≡ total xs
    → Select xs k' s'
Select-rest k' s' done ek es =
    let a : k' ≡ 0 = omega arith in let b : s' ≡ 0 = omega arith in rw (a, b) done
Select-rest k' s' (skip {x} rest) ek es =
    let (m, n) = Select-bounds rest in
    pick k' s' (Select-rest (k' - 1) (s' - x) rest (omega arith) (omega arith)) (omega arith)
      (omega arith)
Select-rest k' s' (pick k s rest e f) ek es =
    skip (Select-rest k' s' rest (omega arith) (omega arith))

abbrev exchange : ℕ × ℕ → ℕ × ℕ
exchange (a, b) = (b, a)

-- The declarer sits one place further on, with the other side.
abbrev exchange_contract : Contract → Contract
exchange_contract (named suit seat) = named suit ((seat + 1) % 4)
exchange_contract pass_round = pass_round

abbrev pub exchange_totals : HandTotals → HandTotals
exchange_totals t = record {
  card_points = exchange t.card_points;
  tricks = exchange t.tricks;
  contract = exchange_contract t.contract;
}

abbrev pub exchange_score : HandScore → HandScore
exchange_score r = record r {
  winner = Option.map opponent r.winner;
  game_points = exchange r.game_points;
}

HasSeat-exchange : (c : Contract) → HasSeat c → HasSeat (exchange_contract c)
HasSeat-exchange (named suit seat) h = omega arith
HasSeat-exchange pass_round h = tt

IsPossible-exchange : (t : HandTotals) → IsPossible t → IsPossible (exchange_totals t)
IsPossible-exchange t h = record {
  points = omega (arith, h.points);
  tricks = omega (arith, h.tricks);
  cards =
      Select-rest (t.tricks.1 * 4) t.card_points.1 h.cards
        (unfold inventory in omega (arith, h.tricks)) (unfold inventory in omega (arith, h.points));
  seated = HasSeat-exchange t.contract h.seated;
}

score_contract-exchange :
    (p q : ℕ × ℕ) (c : Contract) (r : HandScore)
    → HasSeat c
    → score_contract p q c ≡ ok r
    → score_contract (exchange p) (exchange q) (exchange_contract c) ≡ ok (exchange_score r)
unfolding score_contract
score_contract-exchange p q pass_round r h e = ground arith
score_contract-exchange p q (named suit seat) r h e = ground arith

-- Exchanging the sides of a hand that has a score, points, tricks and declarer, exchanges the
-- winner and the game points of the score and leaves its kind, base and bonus as they were.
pub score_symmetric :
    (t : HandTotals) (r : HandScore)
    → score_sasku_hand t ≡ ok r
    → score_sasku_hand (exchange_totals t) ≡ ok (exchange_score r)
score_symmetric t r e =
    let h = score-IsPossible t r e in
    score_checked (exchange_totals t) (IsPossible-exchange t h)
    ∙ score_contract-exchange t.card_points t.tricks t.contract r h.seated (score_guards t r e).3
