-- ===== src/Examples/Syncs.antt =====
-- Runs of packages/session/src/sync.ts, witness.ts and sync-plan.ts.
use tablefolk.Base.{
  ℕ, zero, suc, ◌⊎◌, subst, ◌≡◌, ◌≤◌, ◌<◌, refl, List, [], ◌∷◌, Option, none, some, ok, arith,
  replicate, length, All, sum_by,
}
use tablefolk.Session.Bytes.{Bytes, IsBytes, bytes_equal, difference, bytes_to_hex, text_equal}
use tablefolk.Protocol.Value.{max_safe_integer}
use tablefolk.Protocol.Schema.{parse_fixed_bytes}
use tablefolk.Protocol.Value.{null}
use tablefolk.Session.Chain.{
  Artifact, ChainHead, zero_hash, new_chain, get, SenderChain, ingest, classify, classify_free,
}
use tablefolk.Session.Chain.Links.{new_chain-IsChain, IsChain}
use tablefolk.Session.Chain.Ingest.{ingest-IsChain}
use tablefolk.Session.Registry.{RosterEntry, Registry, entry_for, seat_of, heads}
use tablefolk.Session.Registry.Keeps.{IsRegistry}
use tablefolk.Session.Sync.{
  SyncRequest, SyncRejection, SyncApplied, valid, not_applied, normalize_request,
  preflight_sync_response, check_response, apply_sync_response,
}
use tablefolk.Session.Sync.Checked.{Run, preflight-Run, apply_sync_response-IsRegistry}
use tablefolk.Session.Witness.{
  WitnessHead, WitnessBody, HeadOutcome, need_sync, assessed, assess_head, assess_heads,
  assess_witness, copy_witness_head, local_heads, plan_requests,
}
use tablefolk.Session.Witness.Heads.{Planned, Compared, assess_head_lem, assess_witness-Planned}

abbrev player_key : Bytes
player_key = replicate 32 7

abbrev first : Artifact
first = record {
  envelope = record {
    v = 1;
    game = 1 ∷ [];
    from = player_key;
    seq = 0;
    prev = zero_hash;
    round = 0;
    phase = "lobby";
    message_type = "JOIN";
    body = null;
    sig = [];
  };
  canonical_bytes = 1 ∷ [];
  hash = 1 ∷ [];
}

abbrev entry : RosterEntry
entry = record { seat = 0; sender = player_key; chain = new_chain player_key }

abbrev table : Registry
table = record { game_id = 1 ∷ []; entries = entry ∷ [] }

-- Every byte string opens as the first envelope.
abbrev opening : Bytes → Option Artifact
opening b = some first

abbrev asked : SyncRequest
asked = record { from = player_key; from_seq = 0; to_seq = 0 }

abbrev answer : List Bytes
answer = (1 ∷ []) ∷ []

answer_passes :
    preflight_sync_response opening table asked answer 128 4096 ≡ ok (valid asked (first ∷ []))
unfolding preflight_sync_response normalize_request check_response parse_fixed_bytes
    max_safe_integer seat_of text_equal bytes_to_hex bytes_equal difference
answer_passes = refl

preflight-Run_example :
    (asked ≡ asked)
    × (length answer ≡ 1)
    × (length answer ≤ 128)
    × (sum_by length answer ≤ 4096)
    × Run opening (1 ∷ []) player_key 0 none answer (first ∷ [])
preflight-Run_example =
    preflight-Run opening table asked asked answer 128 4096 (first ∷ []) answer_passes

table-IsRegistry : IsRegistry table
table-IsRegistry = (new_chain-IsChain player_key, tt)

asked_normal : normalize_request asked ≡ ok asked
unfolding normalize_request parse_fixed_bytes max_safe_integer
asked_normal = refl

apply_sync_response-IsRegistry_example :
    (next : Registry) × (r : SyncApplied) × (apply_sync_response opening table asked answer
      ≡ ok (next, r))
    × IsRegistry next
    × ((e : SyncRejection) → r ≡ not_applied e → next ≡ table)
apply_sync_response-IsRegistry_example =
    apply_sync_response-IsRegistry opening table asked answer table-IsRegistry asked_normal

abbrev claim : WitnessHead
claim = record { from = player_key; seq = 4; hash = replicate 32 1 }

-- The player's chain with the first envelope, and a claim of it.
abbrev grown : SenderChain
grown = record {
  sender = player_key;
  entries = (0, record { artifact = first; hash = first.hash }) ∷ [];
  head = some (record { from = player_key; seq = 0; hash = first.hash });
}

grown_by : (ingest (new_chain player_key) first).0 ≡ grown
unfolding ingest classify classify_free new_chain bytes_equal difference
grown_by = refl

grown-IsChain : IsChain grown
grown-IsChain =
    subst IsChain grown_by
      (ingest-IsChain (new_chain player_key) first (new_chain-IsChain player_key))

abbrev full : RosterEntry
full = record { seat = 0; sender = player_key; chain = grown }

abbrev played : Registry
played = record { game_id = 1 ∷ []; entries = full ∷ [] }

full_found : entry_for player_key played.entries ≡ some full
unfolding text_equal bytes_to_hex
full_found = refl

abbrev known : WitnessHead
known = record { from = player_key; seq = 0; hash = 1 ∷ [] }

stored-IsBytes : (n : ℕ) (a : Artifact) → get grown n ≡ some a → IsBytes a.hash
unfolding get
stored-IsBytes zero a e =
    let is : first ≡ a = cc e in subst (λ x. IsBytes x.hash) is (omega arith, tt)
stored-IsBytes (suc n) a e = absurd (ground arith)

assess_head_lem_example :
    ((1 ≤ 0) × (assess_head played 0 known grown.head ≡ ok (need_sync 0 known 1 0)))
    ⊎ ((0 < 1)
        × (head : ChainHead) × (a : Artifact) × (grown.head ≡ some head)
        × (get grown 0 ≡ some a)
        × Compared (assess_head played 0 known grown.head) 0 known 1 head a)
assess_head_lem_example =
    assess_head_lem played 0 known full full_found grown-IsChain (omega arith, tt) stored-IsBytes

abbrev told : WitnessBody
told = record { claimed_heads = claim ∷ []; state_hash = none }

abbrev wanted : List HeadOutcome
wanted = need_sync 0 claim 0 4 ∷ []

told_assessed : assess_witness table told ≡ ok (assessed wanted)
unfolding assess_witness assess_heads copy_witness_head local_heads heads new_chain
    parse_fixed_bytes max_safe_integer seat_of text_equal bytes_to_hex assess_head
told_assessed = refl

assess_witness-Planned_example :
    All (Planned 2) (plan_requests 2 wanted) × (length (plan_requests 2 wanted) ≤ 1)
assess_witness-Planned_example =
    assess_witness-Planned table told wanted 2 told_assessed (omega arith)
