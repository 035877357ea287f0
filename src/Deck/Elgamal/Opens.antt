-- ===== src/Deck/Elgamal/Opens.antt =====
-- packages/deck/src/elgamal.ts: a card that was masked is opened by all players.
use tablefolk.Base.{
  ℕ, ◌+◌, ◌*◌, ◌<◌, ◌≡◌, refl, sym, ◌∙◌, ap, ap₂, List, [], ◌∷◌, map, not, false, ◌==◌, Result, ok,
  ◌>>=◌, ensure, arith, All, >>=-eq-ok, >>-eq-ok,
}
use native.Mathlib.Nat.{mul_comm}
use tablefolk.Deck.Curve.{Curve, IsCurve, multiply, multiple}
use tablefolk.Deck.Curve.Multiples.{
  multiple-add, multiple-of_sum, multiple-multiple, multiply-multiple, multiple-neutral,
}
use tablefolk.Deck.Elgamal.{
  MaskError, MaskedCard, initial_masked_card, mask_card, remask_card, add_keys,
  aggregate_public_keys, decryption_share, remove_shares, remove_decryption_shares, identity_key,
  some_keys, no_keys,
}

module _ (curve : Curve) where
  -- A card masked by one player after the other.
  unfoldable pub remask_all :
      curve.Point → MaskedCard curve → List ℕ → Result MaskError (MaskedCard curve)
  remask_all aggregate card [] = ok card
  remask_all aggregate card (r ∷ randomness) = do
    next ← remask_card curve card r aggregate
    remask_all aggregate next randomness

  -- The shares of all players.
  unfoldable pub all_shares : curve.Point → List ℕ → Result MaskError (List curve.Point)
  all_shares card_a [] = ok []
  all_shares card_a (x ∷ secrets) = do
    share ← decryption_share curve x card_a
    rest ← all_shares card_a secrets
    ok (share ∷ rest)

  abbrev pub public_keys : List ℕ → List curve.Point
  public_keys secrets = map (multiply curve curve.base) secrets

  -- Scalars that may mask or be a secret: zero is none.
  abbrev pub AreScalars : List ℕ → Type 0
  AreScalars = All (λ x. (0 < x) × (x < curve.order))

  -- The sum of points.
  abbrev sum : List curve.Point → curve.Point
  sum [] = curve.neutral
  sum (p ∷ points) = curve.add p (sum points)

  module _ (h : IsCurve curve) where
    -- A card under so many masks of a message.
    abbrev Masks : curve.Point → curve.Point → ℕ → MaskedCard curve → Type 0
    Masks aggregate message n card =
        (card.a ≡ multiple curve curve.base n)
        × (card.b ≡ curve.add message (multiple curve aggregate n))

    abbrev remasked : MaskedCard curve → ℕ → curve.Point → MaskedCard curve
    remasked card r aggregate = record {
      a = curve.add card.a (multiply curve curve.base r);
      b = curve.add card.b (multiply curve aggregate r);
    }

    remask_card_ok :
        (aggregate : curve.Point) (r : ℕ) (card : MaskedCard curve)
        → 0 < r
        → curve.is_zero aggregate ≡ false
        → remask_card curve card r aggregate ≡ ok (remasked card r aggregate)
    unfolding remask_card
    remask_card_ok aggregate r card low fine = ground arith

    remasked-Masks :
        (aggregate message : curve.Point) (n r : ℕ) (card : MaskedCard curve)
        → r < curve.order
        → Masks aggregate message n card
        → Masks aggregate message (n + r) (remasked card r aggregate)
    remasked-Masks aggregate message n r card low masks = (
      ap₂ curve.add masks.0 (multiply-multiple curve h curve.base r low)
          ∙ sym (multiple-add curve h curve.base n r),
      ap₂ curve.add masks.1 (multiply-multiple curve h aggregate r low)
          ∙ h.add_assoc message (multiple curve aggregate n) (multiple curve aggregate r)
          ∙ ap (curve.add message) (sym (multiple-add curve h aggregate n r)),
    )

    remask_all-Masks :
        (aggregate message : curve.Point) (n : ℕ) (rs : List ℕ) (card : MaskedCard curve)
        → AreScalars rs
        → curve.is_zero aggregate ≡ false
        → Masks aggregate message n card
        → (last : MaskedCard curve) × (m : ℕ) × (remask_all aggregate card rs ≡ ok last)
          × Masks aggregate message m last
    unfolding remask_all
    remask_all-Masks aggregate message n [] card low fine masks = (card, n, refl, masks)
    remask_all-Masks aggregate message n (r ∷ rs) card low fine masks =
        let (last, m, given, all) =
          remask_all-Masks aggregate message (n + r) rs (remasked card r aggregate) low.1 fine
            (remasked-Masks aggregate message n r card low.0.1 masks) in
        (last, m, rw (remask_card_ok aggregate r card low.0.0 fine) given, all)

    add_keys-sum :
        (aggregate total : curve.Point) (keys : List curve.Point)
        → add_keys curve aggregate keys ≡ ok total
        → total ≡ curve.add aggregate (sum keys)
    unfolding add_keys
    add_keys-sum aggregate total [] given =
        let is : aggregate ≡ total = cc given in
        sym is ∙ sym (h.add_comm aggregate curve.neutral ∙ h.neutral_add aggregate)
    add_keys-sum aggregate total (key ∷ keys) given =
        let (fine, rest) = >>-eq-ok (ensure (not (curve.is_zero key)) identity_key) _ given in
        add_keys-sum (curve.add aggregate key) total keys rest
        ∙ h.add_assoc aggregate key (sum keys)

    -- A share of a multiple of the base is that multiple of the key.
    share-multiple :
        (n x : ℕ) (card_a : curve.Point)
        → x < curve.order
        → card_a ≡ multiple curve curve.base n
        → multiply curve card_a x ≡ multiple curve (multiply curve curve.base x) n
    share-multiple n x card_a low is =
        let base = curve.base in
        let turned : n * x ≡ x * n = mul_comm n x in
        multiply-multiple curve h card_a x low
        ∙ ap (λ p. multiple curve p x) is
        ∙ multiple-multiple curve h base n x
        ∙ ap (multiple curve base) turned
        ∙ sym (multiple-multiple curve h base x n)
        ∙ ap (λ p. multiple curve p n) (sym (multiply-multiple curve h base x low))

    -- The shares of all add up to that multiple of the sum of the keys.
    shares-sum :
        (n : ℕ) (secrets : List ℕ) (card_a : curve.Point)
        → AreScalars secrets
        → card_a ≡ multiple curve curve.base n
        → (shares : List curve.Point) × (all_shares card_a secrets ≡ ok shares)
          × (sum shares ≡ multiple curve (sum (public_keys secrets)) n)
    unfolding all_shares decryption_share
    shares-sum n [] card_a low is = ([], refl, sym (multiple-neutral curve h n))
    shares-sum n (x ∷ secrets) card_a low is =
        let (shares, given, total) = shares-sum n secrets card_a low.1 is in
        let fine : (x == 0) ≡ false = ground (arith, low.0.0) in
        (
          multiply curve card_a x ∷ shares,
          rw (fine, given) refl,
          ap₂ curve.add (share-multiple n x card_a low.0.1 is) total
              ∙ sym (
                  multiple-of_sum curve h (multiply curve curve.base x) (sum (public_keys secrets))
                    n),
        )

    remove_shares-sum :
        (message : curve.Point) (shares : List curve.Point)
        → remove_shares curve (curve.add message (sum shares)) shares ≡ message
    unfolding remove_shares
    remove_shares-sum message [] = h.add_comm message curve.neutral ∙ h.neutral_add message
    remove_shares-sum message (share ∷ shares) =
        ap (λ p. remove_shares curve (curve.subtract p share) shares)
          (ap (curve.add message) (h.add_comm share (sum shares))
            ∙ sym (h.add_assoc message (sum shares) share))
        ∙ ap (λ p. remove_shares curve p shares)
            (h.subtract_add (curve.add message (sum shares)) share)
        ∙ remove_shares-sum message shares

    aggregate-sum :
        (aggregate : curve.Point) (keys : List curve.Point)
        → aggregate_public_keys curve keys ≡ ok aggregate
        → (aggregate ≡ sum keys) × (curve.is_zero aggregate ≡ false)
    unfolding aggregate_public_keys
    aggregate-sum aggregate keys given =
        let (some_key, g1) = >>-eq-ok (ensure (some_keys curve keys) no_keys) _ given in
        let (total, added, g2) = >>=-eq-ok (add_keys curve curve.neutral keys) _ g1 in
        let total_is : total ≡ aggregate = ground arith in
        (
          sym total_is ∙ add_keys-sum curve.neutral total keys added ∙ h.neutral_add (sum keys),
          ground arith,
        )

  -- A message that is masked by any players in turn, under the key that the keys of all add up to, is
  -- opened by the shares of all: masking and sharing succeed, as no scalar is zero, and removing the
  -- shares gives the message back.
  pub remove_decryption_shares-remask :
      (secrets randomness : List ℕ) (message aggregate : curve.Point)
      → IsCurve curve
      → AreScalars secrets
      → AreScalars randomness
      → aggregate_public_keys curve (public_keys secrets) ≡ ok aggregate
      → (card : MaskedCard curve) × (shares : List curve.Point) × (remask_all aggregate
            (initial_masked_card curve message)
            randomness
          ≡ ok card)
        × (all_shares card.a secrets ≡ ok shares)
        × (remove_decryption_shares curve card shares ≡ message)
  unfolding remove_decryption_shares initial_masked_card multiple
  remove_decryption_shares-remask secrets rs message aggregate h xs low given =
      let (total, fine) = aggregate-sum h aggregate (public_keys secrets) given in
      let start : message ≡ curve.add message curve.neutral =
        sym (h.add_comm message curve.neutral ∙ h.neutral_add message) in
      let (card, n, masked, masks) =
        remask_all-Masks h aggregate message 0 rs (initial_masked_card curve message) low fine
          (refl, start) in
      let (shares, shared, sums) = shares-sum h n secrets card.a xs masks.0 in
      (
        card,
        shares,
        masked,
        shared,
        ap (λ p. remove_shares curve p shares)
              (masks.1 ∙ ap (curve.add message) (ap (λ p. multiple curve p n) total ∙ sym sums))
            ∙ remove_shares-sum h message shares,
      )

  -- Masking a message is masking the card that shows it once more.
  mask-remask_card :
      (message : curve.Point) (randomness : ℕ) (aggregate : curve.Point)
      → IsCurve curve
      → mask_card curve message randomness aggregate
        ≡ remask_card curve (initial_masked_card curve message) randomness aggregate
  unfolding mask_card remask_card initial_masked_card
  mask-remask_card message randomness aggregate h =
      let same = h.neutral_add (multiply curve curve.base randomness) in rw same refl
