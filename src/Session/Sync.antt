-- ===== src/Session/Sync.antt =====
-- packages/session/src/sync.ts: answering a request for a range of a chain, and taking the answer.
-- Opening an envelope (`decodeAndVerifyEnvelope`) is a parameter.
pub mod Checked
use tablefolk.Base.{
  ℕ, suc, ◌+◌, ◌-◌, ◌*◌, Bool, not, ◌&&◌, List, [], ◌∷◌, Option, none, some, map, Result, ok, err,
  ◌>>=◌, ◌>>◌, ensure, expect, leb, ltb, ◌==◌, length,
}
use tablefolk.Session.Bytes.{Bytes, bytes_equal}
use tablefolk.Protocol.Value.{max_safe_integer}
use tablefolk.Protocol.Schema.{SchemaError, parse_fixed_bytes, parse_identity_public_key}
pub use tablefolk.Protocol.Requests.{SyncRequest}
use tablefolk.Session.Chain.{Artifact}
use tablefolk.Session.Registry.{
  Registry, RegistryError, SessionResult, SyncRange, complete, missing, unknown_sender, seat_of,
  ingest_session, read_range,
}

-- `SyncResponseRejection`.
pub data SyncRejection : Type 0 where
  stranger limit_exceeded : SyncRejection
  wrong_count : (expected actual : ℕ) → SyncRejection
  wrong_game wrong_sender wrong_sequence invalid_artifact broken_prev : (index : ℕ) → SyncRejection

-- `SyncResponsePreflightResult`, `SyncApplyResult` and `SyncServeResult`.
pub data Preflight : Type 0 where
  valid : SyncRequest → List Artifact → Preflight
  refused : SyncRejection → Preflight

pub data SyncApplied : Type 0 where
  applied : List SessionResult → SyncApplied
  not_applied : SyncRejection → SyncApplied

pub data SyncServed : Type 0 where
  served : List Artifact → SyncServed
  missing_from_seq : ℕ → SyncServed
  not_in_roster : SyncServed

-- What is thrown.
pub data SyncError : Type 0 where
  bad_limit bad_range too_many source_too_long : SyncError
  bad_sender : SchemaError → SyncError
  bad_source : SyncRejection → SyncError
  bad_registry : RegistryError → SyncError

-- `DEFAULT_MAX_SYNC_RANGE_ENVELOPES` and `DEFAULT_MAX_SYNC_RESPONSE_BYTES`.
abbrev pub max_range_envelopes : ℕ
max_range_envelopes = 128

abbrev pub max_response_bytes : ℕ
max_response_bytes = 4 * 1024 * 1024

-- `normalizeRequest`.
unfoldable pub normalize_request : SyncRequest → Result SyncError SyncRequest
unfolding parse_fixed_bytes
normalize_request request = do
  ensure (leb request.from_seq max_safe_integer) bad_range
  ensure (leb request.to_seq max_safe_integer && leb request.from_seq request.to_seq) bad_range
  from ← elim (parse_identity_public_key request.from) [ ok b ↦ ok b | err e ↦ err (bad_sender e) ]
  ok (record { from = from; from_seq = request.from_seq; to_seq = request.to_seq })

-- The loop that bounds the bytes of the response.
unfoldable pub check_sizes : ℕ → ℕ → List Bytes → Result SyncRejection (Unit {0})
check_sizes max_bytes total [] = ok tt
check_sizes max_bytes total (b ∷ encoded) = do
  ensure (leb (length b) (max_bytes - total)) limit_exceeded
  check_sizes max_bytes (total + length b) encoded

module _ (open_envelope : Bytes → Option Artifact) where
  -- The envelope at an index names the hash of the one before it.
  abbrev pub follows_hash : Option Bytes → Artifact → Bool
  follows_hash none artifact = Bool.true
  follows_hash (some hash) artifact = bytes_equal artifact.envelope.prev hash

  -- The loop over the envelopes, with the hash of the one before.
  unfoldable pub check_envelopes :
      Bytes → SyncRequest → ℕ → Option Bytes → List Bytes → Result SyncRejection (List Artifact)
  check_envelopes game request index before [] = ok []
  check_envelopes game request index before (b ∷ encoded) = do
    artifact ← expect (open_envelope b) (invalid_artifact index)
    ensure (bytes_equal artifact.envelope.game game) (wrong_game index)
    ensure (bytes_equal artifact.envelope.from request.from) (wrong_sender index)
    ensure (artifact.envelope.seq == request.from_seq + index) (wrong_sequence index)
    ensure (follows_hash before artifact) (broken_prev index)
    rest ← check_envelopes game request (suc index) (some artifact.hash) encoded
    ok (artifact ∷ rest)

  -- The checks of `preflightSyncResponse` that reject.
  unfoldable pub check_response :
      Registry → SyncRequest → List Bytes → ℕ → ℕ → Result SyncRejection (List Artifact)
  unfolding check_sizes check_envelopes seat_of
  check_response registry request encoded max_envelopes max_bytes = do
    seat ← expect (seat_of registry request.from) stranger
    ensure (ltb (request.to_seq - request.from_seq) max_envelopes) limit_exceeded
    ensure (leb (length encoded) max_envelopes) limit_exceeded
    let count = request.to_seq - request.from_seq + 1
    ensure (length encoded == count) (wrong_count count (length encoded))
    check_sizes max_bytes 0 encoded
    check_envelopes registry.game_id request 0 none encoded

  abbrev pub preflight_of : SyncRequest → Result SyncRejection (List Artifact) → Preflight
  preflight_of request (ok envelopes) = valid request envelopes
  preflight_of request (err e) = refused e

  -- `preflightSyncResponse`, of the canonical bytes of the response's envelopes.
  unfoldable pub preflight_sync_response :
      Registry → SyncRequest → List Bytes → ℕ → ℕ → Result SyncError Preflight
  unfolding normalize_request check_response
  preflight_sync_response registry request encoded max_envelopes max_bytes = do
    ensure (leb 1 max_envelopes && leb max_envelopes max_safe_integer) bad_limit
    ensure (leb 1 max_bytes && leb max_bytes max_safe_integer) bad_limit
    normalized ← normalize_request request
    ok (
        preflight_of normalized
          (check_response registry normalized encoded max_envelopes max_bytes))

  abbrev pub registry_step {ℓ} : {A : Type ℓ} → Result RegistryError A → Result SyncError A
  registry_step (ok a) = ok a
  registry_step (err e) = err (bad_registry e)

  -- `envelopes.map((artifact) => registry.ingest(artifact))`.
  unfoldable pub ingest_all :
      Registry → List Artifact → Result SyncError (Registry × List SessionResult)
  ingest_all registry [] = ok (registry, [])
  ingest_all registry (artifact ∷ envelopes) = do
    first ← registry_step (ingest_session registry artifact)
    rest ← ingest_all first.0 envelopes
    ok (rest.0, first.1 ∷ rest.1)

  abbrev pub apply_preflight : Registry → Preflight → Result SyncError (Registry × SyncApplied)
  apply_preflight registry (refused e) = ok (registry, not_applied e)
  apply_preflight registry (valid request envelopes) = do
    outcome ← ingest_all registry envelopes
    ok (outcome.0, applied outcome.1)

  -- `applySyncResponse`.
  unfoldable pub apply_sync_response :
      Registry → SyncRequest → List Bytes → Result SyncError (Registry × SyncApplied)
  unfolding preflight_sync_response ingest_all
  apply_sync_response registry request encoded = do
    preflight ←
        preflight_sync_response registry request encoded max_range_envelopes max_response_bytes
    apply_preflight registry preflight

  abbrev pub serve_preflight : Preflight → Result SyncError SyncServed
  serve_preflight (valid request envelopes) = ok (served envelopes)
  serve_preflight (refused limit_exceeded) = err source_too_long
  serve_preflight (refused e) = err (bad_source e)

  abbrev pub serve_range : Registry → SyncRequest → SyncRange → Result SyncError SyncServed
  serve_range registry request (missing first) = ok (missing_from_seq first)
  serve_range registry request unknown_sender = ok not_in_roster
  serve_range registry request (complete envelopes) = do
    preflight ←
        preflight_sync_response registry request (map (λ a. a.canonical_bytes) envelopes)
          max_range_envelopes max_response_bytes
    serve_preflight preflight

  -- `serveSyncRequest`.
  unfoldable pub serve_sync_request : Registry → SyncRequest → Result SyncError SyncServed
  unfolding normalize_request preflight_sync_response read_range
  serve_sync_request registry request = do
    normalized ← normalize_request request
    ensure (ltb (normalized.to_seq - normalized.from_seq) max_range_envelopes) too_many
    range ←
        registry_step (read_range registry normalized.from normalized.from_seq normalized.to_seq)
    serve_range registry normalized range
