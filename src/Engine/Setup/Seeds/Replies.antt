-- ===== src/Engine/Setup/Seeds/Replies.antt =====
-- packages/engine/src/setup-coordinator.ts: a beacon that accepts a message classified it so.
use tablefolk.Base.{set, ℕ, ◌≡◌, refl, sym, ◌∙◌, ap, some, Result, ok, >>=-eq-ok}
use tablefolk.Session.Bytes.{Bytes}
use tablefolk.Protocol.Hashes.{Hashing}
use tablefolk.Engine.Beacon.{
  Beacon, BeaconResult, BeaconError, accepted, duplicate, rejected, classify_commitment,
  accept_commitment, record_commitment, record_reveal, with_seed, classify_reveal, accept_reveal,
}

recorded_result :
    (b : Beacon) (seat : ℕ) (c : Bytes) (r : BeaconResult) → (record_commitment b seat c r).1 ≡ r
recorded_result b seat c (accepted at s) = refl
recorded_result b seat c (duplicate at s) = refl
recorded_result b seat c (rejected at s reason) = refl

-- The classification that an accepted message had is its result.
pub accept-classify_commitment :
    (b next : Beacon) (seat : ℕ) (c : Bytes) (r : BeaconResult)
    → accept_commitment b seat c ≡ ok (next, r)
    → classify_commitment b seat c ≡ ok r
unfolding accept_commitment
accept-classify_commitment b next seat c r h =
    let (classified, q, recorded) = >>=-eq-ok (classify_commitment b seat c) _ h in
    let pair_is : record_commitment b seat c classified ≡ (next, r) = cc recorded in
    q ∙ ap ok (sym (recorded_result b seat c classified) ∙ ap (λ p. p.1) pair_is)

second :
    (p q : Beacon × BeaconResult)
    → ◌≡◌ {A = Result BeaconError (Beacon × BeaconResult)} (ok p) (ok q)
    → p.1 ≡ q.1
second p q h = let same : p ≡ q = cc h in ap (λ x. x.1) same

revealed_result :
    (hashing : Hashing) (b next : Beacon) (seat : ℕ) (s : Bytes) (classified r : BeaconResult)
    → record_reveal hashing b seat s classified ≡ ok (next, r)
    → classified ≡ r
revealed_result hashing b next seat s (accepted at t) r h =
    let (after, seeded, given) =
      >>=-eq-ok (with_seed hashing (record b { reveals = set b.reveals seat (some s); state = t }))
        (λ a. ok (a, accepted at t)) h in
    second (after, accepted at t) (next, r) given
revealed_result hashing b next seat s (duplicate at t) r h = second (b, duplicate at t) (next, r) h
revealed_result hashing b next seat s (rejected at t reason) r h =
    second (b, rejected at t reason) (next, r) h

pub accept-classify_reveal :
    (hashing : Hashing) (b next : Beacon) (seat : ℕ) (s : Bytes) (r : BeaconResult)
    → accept_reveal hashing b seat s ≡ ok (next, r)
    → classify_reveal hashing b seat s ≡ ok r
unfolding accept_reveal
accept-classify_reveal hashing b next seat s r h =
    let (classified, q, recorded) = >>=-eq-ok (classify_reveal hashing b seat s) _ h in
    q ∙ ap ok (revealed_result hashing b next seat s classified r recorded)
