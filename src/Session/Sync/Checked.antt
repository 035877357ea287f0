-- ===== src/Session/Sync/Checked.antt =====
-- packages/session/src/sync.ts: what a response that passes the checks is.
use tablefolk.Base.{
  ℕ, suc, ◌+◌, ◌-◌, ◌≤◌, ◌≡◌, refl, sym, ◌∙◌, subst, true, List, [], ◌∷◌, Option, none, some,
  Result, ok, err, ensure, expect, arith, length, leb, ltb, ◌==◌, >>=-eq-ok, >>-eq-ok, ensure-eq-ok,
  expect-eq-ok, Result-cases, inl, inr, sum_by, ◌&&◌,
}
use tablefolk.Session.Bytes.{Bytes, bytes_equal}
use tablefolk.Protocol.Value.{max_safe_integer}
use tablefolk.Session.Chain.{Artifact}
use tablefolk.Session.Registry.{Registry, SessionResult, seat_of}
use tablefolk.Session.Registry.Keeps.{IsRegistry, ingest_session-IsRegistry}
use tablefolk.Session.Sync.{
  SyncRequest, SyncRejection, valid, bad_limit, stranger, limit_exceeded, wrong_count,
  invalid_artifact, wrong_game, wrong_sender, wrong_sequence, broken_prev, follows_hash,
  normalize_request, check_sizes, check_envelopes, check_response, preflight_of,
  preflight_sync_response, ingest_all, apply_sync_response, max_range_envelopes, max_response_bytes,
  SyncApplied, applied, not_applied,
}

module _ (open_envelope : Bytes → Option Artifact) where
  -- The envelopes of the bytes, of one game and sender, numbered on from a number and each with the
  -- hash of the one before.
  abbrev pub Run : Bytes → Bytes → ℕ → Option Bytes → List Bytes → List Artifact → Type 0
  Run game sender n before [] [] = Unit
  Run game sender n before [] (a ∷ envelopes) = ⊥
  Run game sender n before (b ∷ encoded) [] = ⊥
  Run game sender n before (b ∷ encoded) (a ∷ envelopes) =
      (open_envelope b ≡ some a)
      × (bytes_equal a.envelope.game game ≡ true)
      × (bytes_equal a.envelope.from sender ≡ true)
      × (a.envelope.seq ≡ n)
      × (follows_hash open_envelope before a ≡ true)
      × Run game sender (suc n) (some a.hash) encoded envelopes

  check_envelopes-Run :
      (game : Bytes) (request : SyncRequest) (index n : ℕ) (before : Option Bytes)
      (encoded : List Bytes) (envelopes : List Artifact)
      → n ≡ request.from_seq + index
      → check_envelopes open_envelope game request index before encoded ≡ ok envelopes
      → Run game request.from n before encoded envelopes
  unfolding check_envelopes
  check_envelopes-Run game request index n before [] envelopes e h =
      let none_left : [] ≡ envelopes = cc h in
      subst (Run game request.from n before []) none_left tt
  check_envelopes-Run game request index n before (b ∷ encoded) envelopes e h =
      let (a, opens, h1) = >>=-eq-ok (expect (open_envelope b) (invalid_artifact index)) _ h in
      let (g, h2) = >>-eq-ok (ensure (bytes_equal a.envelope.game game) (wrong_game index)) _ h1 in
      let (f, h3) =
        >>-eq-ok (ensure (bytes_equal a.envelope.from request.from) (wrong_sender index)) _ h2 in
      let (s, h4) =
        >>-eq-ok (ensure (a.envelope.seq == request.from_seq + index) (wrong_sequence index)) _
          h3 in
      let (l, h5) =
        >>-eq-ok (ensure (follows_hash open_envelope before a) (broken_prev index)) _ h4 in
      let (rest, checked, h6) =
        >>=-eq-ok (check_envelopes open_envelope game request (suc index) (some a.hash) encoded) _
          h5 in
      let is : (a ∷ rest) ≡ envelopes = cc h6 in
      subst (Run game request.from n before (b ∷ encoded)) is (
        expect-eq-ok (open_envelope b) (invalid_artifact index) opens,
        ensure-eq-ok (bytes_equal a.envelope.game game) (wrong_game index) g,
        ensure-eq-ok (bytes_equal a.envelope.from request.from) (wrong_sender index) f,
        ground arith,
        ensure-eq-ok (follows_hash open_envelope before a) (broken_prev index) l,
        check_envelopes-Run game request (suc index) (suc n) (some a.hash) encoded rest
            (omega arith) checked,
      )

  check_sizes-le :
      (max_bytes total : ℕ) (encoded : List Bytes)
      → total ≤ max_bytes
      → check_sizes max_bytes total encoded ≡ ok tt
      → total + sum_by length encoded ≤ max_bytes
  unfolding check_sizes
  check_sizes-le max_bytes total [] l h = omega arith
  check_sizes-le max_bytes total (b ∷ encoded) l h =
      let (fits, rest) =
        >>-eq-ok (ensure (leb (length b) (max_bytes - total)) limit_exceeded) _ h in
      let small : length b ≤ max_bytes - total = ground arith in
      omega (arith, check_sizes-le max_bytes (total + length b) encoded (omega arith) rest)

  normalize_request_same :
      (request normalized : SyncRequest)
      → normalize_request request ≡ ok normalized
      → (normalized ≡ request) × (request.from_seq ≤ request.to_seq)
  unfolding normalize_request
  normalize_request_same request normalized h = (ground arith, ground arith)

  preflight_of_valid :
      (request normalized : SyncRequest) (r : Result SyncRejection (List Artifact))
      (envelopes : List Artifact)
      → preflight_of open_envelope request r ≡ valid normalized envelopes
      → (request ≡ normalized) × (r ≡ ok envelopes)
  preflight_of_valid request normalized (ok l) envelopes h = (cc, cc)
  preflight_of_valid request normalized (err e) envelopes h = cc

  check_response-Run :
      (registry : Registry) (request : SyncRequest) (encoded : List Bytes)
      (max_envelopes max_bytes : ℕ) (envelopes : List Artifact)
      → check_response open_envelope registry request encoded max_envelopes max_bytes ≡ ok envelopes
      → (length encoded ≡ request.to_seq - request.from_seq + 1)
        × (length encoded ≤ max_envelopes)
        × (sum_by length encoded ≤ max_bytes)
        × Run registry.game_id request.from request.from_seq none encoded envelopes
  unfolding check_response
  check_response-Run registry request encoded most max_bytes envelopes h =
      let count = request.to_seq - request.from_seq + 1 in
      let (seat, known, h1) = >>=-eq-ok (expect (seat_of registry request.from) stranger) _ h in
      let (r, h2) =
        >>-eq-ok (ensure (ltb (request.to_seq - request.from_seq) most) limit_exceeded) _ h1 in
      let (few, h3) = >>-eq-ok (ensure (leb (length encoded) most) limit_exceeded) _ h2 in
      let (counted, h4) =
        >>-eq-ok (ensure (length encoded == count) (wrong_count count (length encoded))) _ h3 in
      let (sized, checked) = >>-eq-ok (check_sizes max_bytes 0 encoded) _ h4 in
      (
        ground arith,
        ground arith,
        omega (arith, check_sizes-le max_bytes 0 encoded (omega arith) sized),
        check_envelopes-Run registry.game_id request 0 request.from_seq none encoded envelopes
            (omega arith) checked,
      )

  -- A response that passes the checks answers the request: as many envelopes as the range has
  -- numbers, within the limits, each opened from its bytes, of the session's game and the requested
  -- sender, numbered through the range, and from the second on each with the hash of the one before.
  pub preflight-Run :
      (registry : Registry) (request normalized : SyncRequest) (encoded : List Bytes)
      (max_envelopes max_bytes : ℕ) (envelopes : List Artifact)
      → preflight_sync_response open_envelope registry request encoded max_envelopes max_bytes
        ≡ ok (valid normalized envelopes)
      → (normalized ≡ request)
        × (length encoded ≡ request.to_seq + 1 - request.from_seq)
        × (length encoded ≤ max_envelopes)
        × (sum_by length encoded ≤ max_bytes)
        × Run registry.game_id request.from request.from_seq none encoded envelopes
  unfolding preflight_sync_response check_response
  preflight-Run registry request normalized encoded max_envelopes max_bytes envelopes h =
      let (a, h1) =
        >>-eq-ok (ensure (leb 1 max_envelopes && leb max_envelopes max_safe_integer) bad_limit) _
          h in
      let (b, h2) =
        >>-eq-ok (ensure (leb 1 max_bytes && leb max_bytes max_safe_integer) bad_limit) _ h1 in
      let (middle, n, h3) = >>=-eq-ok (normalize_request request) _ h2 in
      let (is, low) = normalize_request_same request middle n in
      let (same, checked) =
        preflight_of_valid middle normalized
          (check_response open_envelope registry middle encoded max_envelopes max_bytes) envelopes
          (cc h3) in
      let (count, few, bytes, runs) =
        check_response-Run registry request encoded max_envelopes max_bytes envelopes (
          subst
            (λ q.
              check_response open_envelope registry q encoded max_envelopes max_bytes
              ≡ ok envelopes)
            is checked) in
      (sym same ∙ is, omega arith, few, bytes, runs)

  -- A session that is sound takes any list of envelopes without a throw, and stays sound.
  ingest_all-IsRegistry :
      (registry : Registry) (envelopes : List Artifact)
      → IsRegistry registry
      → (next : Registry) × (results : List SessionResult) × (ingest_all open_envelope registry
            envelopes
          ≡ ok (next, results))
        × IsRegistry next
        × (length results ≡ length envelopes)
  unfolding ingest_all
  ingest_all-IsRegistry registry [] h = (registry, [], refl, h, refl)
  ingest_all-IsRegistry registry (a ∷ envelopes) h =
      let (first, s, taken, kept) = ingest_session-IsRegistry registry a h in
      let (last, results, took, kept_on, size) = ingest_all-IsRegistry first envelopes kept in
      (last, s ∷ results, rw (taken, took) refl, kept_on, omega arith)

  -- A sound session that applies a response throws only what the request's own checks throw: whatever
  -- the response holds, the session stays sound, and a response that is refused changes nothing.
  pub apply_sync_response-IsRegistry :
      (registry : Registry) (request : SyncRequest) (encoded : List Bytes)
      → IsRegistry registry
      → normalize_request request ≡ ok request
      → (next : Registry) × (r : SyncApplied) × (apply_sync_response open_envelope registry request
            encoded
          ≡ ok (next, r))
        × IsRegistry next
        × ((e : SyncRejection) → r ≡ not_applied e → next ≡ registry)
  unfolding apply_sync_response preflight_sync_response max_safe_integer
  apply_sync_response-IsRegistry registry request encoded h normal =
      elim (Result-cases (
        check_response open_envelope registry request encoded max_range_envelopes
          max_response_bytes)) [
            | inr (e, wrong) ↦ (registry, not_applied e, rw (normal, wrong) refl, h, λ f g. refl)
            | inl (envelopes, fine) ↦
                let (next, results, taken, kept, size) =
                  ingest_all-IsRegistry registry envelopes h in
                (next, applied results, rw (normal, fine, taken) refl, kept, λ f g. cc)
          ]
