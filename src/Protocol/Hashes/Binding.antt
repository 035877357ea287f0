-- ===== src/Protocol/Hashes/Binding.antt =====
-- packages/protocol/src/hash-inputs.ts: `beaconCommitment` with a hash that is one.
use tablefolk.Base.{
  ℕ, ◌≤◌, ◌≡◌, ◌≢◌, refl, [], ◌∷◌, ◌++◌, some, ok, arith, length, subst, >>=-eq-ok,
}
use tablefolk.Session.Bytes.{Bytes, IsBytes}
use tablefolk.Protocol.Value.{integer, max_safe_integer, validate_value}
use tablefolk.Protocol.Canonical.{encode_canonical}
use tablefolk.Protocol.Hashes.{
  domain_separator, beacon, Hashing, encode_number, beacon_prefix, beacon_commitment,
}

-- A digest is 32 bytes, and a safe number can be encoded.
pub record IsHashing (hashing : Hashing) : Type 0 where
  pub digest_size : (b : Bytes) → length (hashing.sha256 b) ≡ 32
  pub digest_bytes : (b : Bytes) → IsBytes (hashing.sha256 b)
  pub encodes :
      (n : ℕ) → n ≤ max_safe_integer → (e : Bytes) × (hashing.cbor.encode (integer n) ≡ some e)

module _ (hashing : Hashing) (h : IsHashing hashing) where
  encode_number_ok : (n : ℕ) → n ≤ max_safe_integer → (e : Bytes) × (encode_number hashing n ≡ ok e)
  unfolding encode_canonical validate_value
  encode_number_ok n safe = let (e, given) = h.encodes n safe in (e, ground arith)

  beacon_prefix_ok :
      (game_id : Bytes) (round seat : ℕ)
      → round ≤ max_safe_integer
      → seat ≤ 7
      → (p : Bytes) × (beacon_prefix hashing game_id round seat ≡ ok p)
  unfolding beacon_prefix max_safe_integer
  beacon_prefix_ok game_id round seat safe low =
      let (r, r_ok) = encode_number_ok round safe in
      let (s, s_ok) = encode_number_ok seat (omega arith) in
      (domain_separator beacon ++ (game_id ++ (r ++ s)), ground arith)

  -- A commitment is given for each seat and round.
  pub beacon_commitment_ok :
      (game_id : Bytes) (round seat : ℕ) (secret : Bytes)
      → round ≤ max_safe_integer
      → seat ≤ 7
      → (c : Bytes) × (beacon_commitment hashing game_id round seat secret ≡ ok c) × IsBytes c
  unfolding beacon_commitment
  beacon_commitment_ok game_id round seat secret safe low =
      let (p, p_ok) = beacon_prefix_ok game_id round seat safe low in
      (hashing.sha256 (p ++ secret), rw p_ok refl, h.digest_bytes (p ++ secret))

append_left_inj : (p s t : Bytes) → p ++ s ≡ p ++ t → s ≡ t
append_left_inj [] s t e = e
append_left_inj (b ∷ p) s t e = append_left_inj p s t (cc e)

-- Two inputs with one digest.
abbrev pub Collision : Hashing → Type 0
Collision hashing = (x : Bytes) × (y : Bytes) × (x ≢ y) × (hashing.sha256 x ≡ hashing.sha256 y)

-- A commitment that two secrets open is a collision of the hash.
pub beacon_commitment_binds :
    (hashing : Hashing) (game_id : Bytes) (round seat : ℕ) (s t c : Bytes)
    → beacon_commitment hashing game_id round seat s ≡ ok c
    → beacon_commitment hashing game_id round seat t ≡ ok c
    → s ≢ t
    → Collision hashing
unfolding beacon_commitment
beacon_commitment_binds hashing game_id round seat s t c hs ht differ =
    let (p, p_ok, ps) = >>=-eq-ok (beacon_prefix hashing game_id round seat) _ hs in
    let (q, q_ok, qt) = >>=-eq-ok (beacon_prefix hashing game_id round seat) _ ht in
    let one_prefix : q ≡ p = cc (p_ok, q_ok) in
    let same_digest : hashing.sha256 (p ++ s) ≡ hashing.sha256 (p ++ t) =
      subst (λ r. hashing.sha256 (p ++ s) ≡ hashing.sha256 (r ++ t)) one_prefix (cc (ps, qt)) in
    (p ++ s, p ++ t, λ e. differ (append_left_inj p s t e), same_digest)
