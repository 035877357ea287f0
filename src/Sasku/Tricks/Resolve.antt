-- ===== src/Sasku/Tricks/Resolve.antt =====
-- The result of a full trick.
use tablefolk.Base.{ℕ, ◌%◌, ◌≤◌, ◌≡◌, refl, inl, inr, List, [], ◌∷◌, some, ok, arith, length, In}
use tablefolk.Sasku.Deck.{Suit, CardId}
use tablefolk.Sasku.Scoring.{partnership_for_seat, integer}
use tablefolk.Sasku.Tricks.{Play, TrickResult, winner_of, resolve_sasku_trick, trick_points}
use tablefolk.Sasku.Tricks.Winner.{winner_exists, winner_of-In}
use tablefolk.Sasku.Tricks.Following.{IsTrick, Fresh, normalize_trick_ok}

seat_of_In :
    (seats : List ℕ) (cards : List CardId) (plays : List Play) (p : Play)
    → Fresh seats cards plays
    → In p plays
    → p.seat ≤ 3
seat_of_In seats cards [] p h i = absurd i
seat_of_In seats cards (q ∷ plays) p h (inl e) = rw e h.0
seat_of_In seats cards (q ∷ plays) p h (inr i) =
    seat_of_In (q.seat ∷ seats) (q.card ∷ cards) plays p h.3 i

-- Four plays by distinct seats with distinct cards are resolved: to the strongest play, the side of
-- its seat, and the points of the four cards.
pub resolve_lem :
    (plays : List Play) (t : Suit)
    → IsTrick plays
    → length plays ≡ 4
    → (r : TrickResult) × (resolve_sasku_trick plays t ≡ ok r)
      × (winner_of plays t ≡ some r.winner)
      × (r.winner.seat ≤ 3)
      × (r.partnership ≡ r.winner.seat % 2)
      × (r.card_points ≡ trick_points plays)
unfolding resolve_sasku_trick partnership_for_seat integer
resolve_lem [] t h l = absurd (omega arith)
resolve_lem (p ∷ plays) t h l =
    let (w, e) = winner_exists p plays t in
    let seated = seat_of_In [] [] (p ∷ plays) w h.1 (winner_of-In p plays t w e) in
    (
      record { winner = w; partnership = w.seat % 2; card_points = trick_points (p ∷ plays) },
      ground (arith, normalize_trick_ok (p ∷ plays) h),
      e,
      seated,
      refl,
      refl,
    )
