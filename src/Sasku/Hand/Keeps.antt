-- ===== src/Sasku/Hand/Keeps.antt =====
-- The invariant of a hand through any action.
use tablefolk.Base.{
  ltb, ℕ, ◌≤◌, ◌≡◌, refl, subst, true, false, Option, none, some, arith, length, Bool-cases, inl,
  inr,
}
use tablefolk.Sasku.Deck.{diamonds}
use tablefolk.Sasku.Hand.State.{
  max_actions, HandState, Action, Move, pass, call_diamonds, bid, choose_trump, play, Phase,
  bidding, choosing_trump, playing, complete,
}
use tablefolk.Sasku.Hand.Auction.{bidding_step, choosing_step}
use tablefolk.Sasku.Hand.Playing.{playing_step, check_hand, hand_of}
use tablefolk.Sasku.Hand.Sound.{IsSound, IsSeat, Idle, Unfinished}
use tablefolk.Sasku.Hand.Outcome.{Sounds, logged, Refuses}
use tablefolk.Sasku.Hand.Next.{phase_step, advance, is_complete, is_turn}
use tablefolk.Sasku.Hand.TrickKeeps.{play_card-Sounds}
use tablefolk.Sasku.Hand.AuctionKeeps.{
  declare-IsSound, count_pass-IsSound, place_bid-Sounds, none_yet,
}

-- The check of the acting player's cards, if the action is a play.
abbrev pub MayCheck : HandState → Action → Move → Type 0
MayCheck s a (play card) = Refuses (check_hand (logged s a) card (hand_of s.hands a.seat))
MayCheck s a _ = Unit

module _ (s : HandState) (seat : ℕ) (h : IsSound s) (low : seat ≤ 3) where
  bidding_step-Sounds :
      (m : Move)
      → s.phase ≡ bidding
      → Sounds (bidding_step s.history (logged s (record { seat = seat; move = m })) seat m)
  unfolding bidding_step
  bidding_step-Sounds (bid v) b =
      place_bid-Sounds s (record { seat = seat; move = bid v }) h refl
        (subst (λ p. Idle p s.trick) b h.idle) b low s.history v
  bidding_step-Sounds call_diamonds b =
      let a : Action = record { seat = seat; move = call_diamonds } in
      let clear = subst (λ p. Idle p s.trick) b h.idle in
      declare-IsSound s a h refl clear diamonds low (none_yet s a h refl clear b low)
  bidding_step-Sounds pass b =
      count_pass-IsSound s (record { seat = seat; move = pass }) h refl
        (subst (λ p. Idle p s.trick) b h.idle) b low
  bidding_step-Sounds (choose_trump suit) b = tt
  bidding_step-Sounds (play card) b = tt

  choosing_step-Sounds :
      (m : Move)
      → s.phase ≡ choosing_trump
      → Sounds (choosing_step (logged s (record { seat = seat; move = m })) seat m)
  unfolding choosing_step
  choosing_step-Sounds (choose_trump suit) b =
      declare-IsSound s (record { seat = seat; move = choose_trump suit }) h refl
        (subst (λ p. Idle p s.trick) b h.idle) suit low
        (subst (λ p. Unfinished p (length s.completed_tricks)) b h.unfinished)
  choosing_step-Sounds pass b = tt
  choosing_step-Sounds call_diamonds b = tt
  choosing_step-Sounds (bid v) b = tt
  choosing_step-Sounds (play card) b = tt

  playing_step-Sounds :
      (m : Move)
      → s.phase ≡ playing
      → s.turn ≡ some seat
      → MayCheck s (record { seat = seat; move = m }) m
      → Sounds (playing_step s.history (logged s (record { seat = seat; move = m })) seat m)
  unfolding playing_step
  playing_step-Sounds (play card) b t c = play_card-Sounds s seat card h b t c
  playing_step-Sounds pass b t c = tt
  playing_step-Sounds call_diamonds b t c = tt
  playing_step-Sounds (bid v) b t c = tt
  playing_step-Sounds (choose_trump suit) b t c = tt

  phase_step-Sounds :
      (m : Move) (p : Phase)
      → s.phase ≡ p
      → is_complete p ≡ false
      → s.turn ≡ some seat
      → MayCheck s (record { seat = seat; move = m }) m
      → Sounds (
          phase_step p s.history
            (logged s (record { seat = seat; move = m }))
            (record { seat = seat; move = m }))
  unfolding phase_step
  phase_step-Sounds m bidding b n t c = bidding_step-Sounds m b
  phase_step-Sounds m choosing_trump b n t c = choosing_step-Sounds m b
  phase_step-Sounds m playing b n t c = playing_step-Sounds m b t c
  phase_step-Sounds m complete b n t c = cc

is_turn-eq : (turn : Option ℕ) (seat : ℕ) → is_turn turn seat ≡ true → turn ≡ some seat
is_turn-eq none seat h = cc
is_turn-eq (some t) seat h = ground arith

pub advance-Sounds :
    (s : HandState) (a : Action) → IsSound s → MayCheck s a a.move → Sounds (advance s a)
unfolding advance
advance-Sounds s a h c = elim (Bool-cases (is_complete s.phase)) [
  | inl e ↦ rw e tt
  | inr e ↦ rw e (elim (Bool-cases (is_turn s.turn a.seat)) [
    | inr f ↦ rw f tt
    | inl f ↦ rw f (elim (Bool-cases (ltb (length s.history) max_actions)) [
      | inr g ↦ rw g tt
      | inl g ↦
          let t = is_turn-eq s.turn a.seat f in
          rw g (phase_step-Sounds s a.seat h (subst IsSeat t h.seated) a.move s.phase refl e t c)
    ])
  ])
]
