-- ===== src/Deck/Elgamal.antt =====
-- packages/deck/src/elgamal.ts: cards masked by the key that all players share.
pub mod Opens
use tablefolk.Base.{ℕ, Bool, not, List, [], ◌∷◌, Result, ok, err, ◌>>=◌, ◌>>◌, ensure, ◌==◌}
use tablefolk.Deck.Curve.{Curve, multiply}

pub data MaskError : Type 0 where
  zero_randomness identity_aggregate identity_key no_keys zero_secret : MaskError

module _ (curve : Curve) where
  pub record MaskedCard : Type 0 where
    pub a : curve.Point
    pub b : curve.Point

  unfoldable pub initial_masked_card : curve.Point → MaskedCard
  initial_masked_card message = record { a = curve.neutral; b = message }

  -- `requireMaskingInputs`.
  abbrev pub require_masking_inputs : ℕ → curve.Point → Result MaskError (Unit {0})
  require_masking_inputs randomness aggregate = do
    ensure (not (randomness == 0)) zero_randomness
    ensure (not (curve.is_zero aggregate)) identity_aggregate

  unfoldable pub mask_card : curve.Point → ℕ → curve.Point → Result MaskError MaskedCard
  mask_card message randomness aggregate = do
    require_masking_inputs randomness aggregate
    ok (record {
      a = multiply curve curve.base randomness;
      b = curve.add message (multiply curve aggregate randomness);
    })

  unfoldable pub remask_card : MaskedCard → ℕ → curve.Point → Result MaskError MaskedCard
  remask_card card randomness aggregate = do
    require_masking_inputs randomness aggregate
    ok (record {
      a = curve.add card.a (multiply curve curve.base randomness);
      b = curve.add card.b (multiply curve aggregate randomness);
    })

  -- The loop of `aggregatePublicKeys`.
  unfoldable pub add_keys : curve.Point → List curve.Point → Result MaskError curve.Point
  add_keys aggregate [] = ok aggregate
  add_keys aggregate (key ∷ keys) = do
    ensure (not (curve.is_zero key)) identity_key
    add_keys (curve.add aggregate key) keys

  abbrev pub some_keys : List curve.Point → Bool
  some_keys [] = Bool.false
  some_keys (key ∷ keys) = Bool.true

  unfoldable pub aggregate_public_keys : List curve.Point → Result MaskError curve.Point
  unfolding add_keys
  aggregate_public_keys keys = do
    ensure (some_keys keys) no_keys
    aggregate ← add_keys curve.neutral keys
    ensure (not (curve.is_zero aggregate)) identity_aggregate
    ok aggregate

  unfoldable pub decryption_share : ℕ → curve.Point → Result MaskError curve.Point
  decryption_share secret_key card_a = do
    ensure (not (secret_key == 0)) zero_secret
    ok (multiply curve card_a secret_key)

  -- The loop of `removeDecryptionShares`, from the card's second point on.
  unfoldable pub remove_shares : curve.Point → List curve.Point → curve.Point
  remove_shares message [] = message
  remove_shares message (share ∷ shares) = remove_shares (curve.subtract message share) shares

  unfoldable pub remove_decryption_shares : MaskedCard → List curve.Point → curve.Point
  unfolding remove_shares
  remove_decryption_shares card shares = remove_shares card.b shares
