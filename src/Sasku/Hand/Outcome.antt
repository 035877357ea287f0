-- ===== src/Sasku/Hand/Outcome.antt =====
-- What a step of a hand may result in.
use tablefolk.Base.{◌≡◌, refl, [], ◌∷◌, ◌++◌, ok, err, ◌>>◌}
use tablefolk.Sasku.Errors.{Checked, hand_error, play_error, scoring_error, type_error}
use tablefolk.Sasku.Hand.State.{HandState, Action}
use tablefolk.Sasku.Hand.Sound.{IsSound}

-- A sound state, or a refusal with a `SaskuHandError`.
abbrev pub Sounds : Checked HandState → Type 0
Sounds (ok s) = IsSound s
Sounds (err (hand_error fault rule)) = Unit
Sounds (err _) = ⊥

abbrev pub logged : HandState → Action → HandState
logged s a = record s { history = s.history ++ a ∷ [] }

-- A check of a hand that passes, or that refuses with a `SaskuHandError`.
abbrev pub Refuses : Checked (Unit {0}) → Type 0
Refuses (ok _) = Unit
Refuses (err (hand_error fault rule)) = Unit
Refuses (err _) = ⊥

pub Refuses-then :
    (m : Checked (Unit {0})) (k : Checked HandState)
    → Refuses m
    → (m ≡ ok tt → Sounds k)
    → Sounds (m >> k)
Refuses-then (ok u) k h f = f refl
Refuses-then (err (hand_error fault rule)) k h f = tt
Refuses-then (err (play_error x)) k h f = absurd h
Refuses-then (err (scoring_error x)) k h f = absurd h
Refuses-then (err type_error) k h f = absurd h
