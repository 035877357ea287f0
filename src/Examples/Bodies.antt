-- ===== src/Examples/Bodies.antt =====
-- Runs of packages/protocol/src/sync.ts, witness.ts and violation.ts, and of
-- packages/session/src/equivocation.ts.
use tablefolk.Base.{◌≡◌, refl, [], ◌∷◌, some, ok, arith}
use tablefolk.Session.Bytes.{bytes_to_hex, text_equal}
use tablefolk.Protocol.Value.{Value, dict, field, bytes, end, max_safe_integer}
use tablefolk.Protocol.Schema.{decode_identity, decode_hash, expect_unsigned_integer}
use tablefolk.Protocol.Envelope.{Artifact}
use tablefolk.Protocol.Requests.{encode_sync_response_body, decode_sync_response_body}
use tablefolk.Protocol.Requests.Answers.{decode-encode_sync_response_body}
use tablefolk.Protocol.Claims.{WitnessBody, encode_witness_body, heads_value}
use tablefolk.Protocol.Violation.{in_order}
use tablefolk.Protocol.Violation.Evidence.{
  IsConflict, Written, violation, decode-encode_violation_body,
}
use tablefolk.Session.Chain.{zero_hash, new_chain}
use tablefolk.Session.Registry.{Registry, seat_of}
use tablefolk.Session.Equivocation.{
  valid, create_equivocation_violation, assess_equivocation_violation,
}
use tablefolk.Session.Equivocation.Judged.{IsSeat, create_equivocation_violation-valid}
use tablefolk.Examples.Envelopes.{
  toy, toy-IsCbor, alice, game, artifact, first_genuine, second_genuine,
}
use tablefolk.Examples.Setups.{replicate-IsBytes}

abbrev first : Artifact
first = artifact "lobby" 2

abbrev second : Artifact
second = artifact "other" 4

decode-encode_sync_response_body_example :
    (v : Value) × (encode_sync_response_body toy (first ∷ second ∷ []) ≡ ok v)
    × (decode_sync_response_body toy v ≡ ok (first ∷ second ∷ []))
decode-encode_sync_response_body_example =
    decode-encode_sync_response_body toy (first ∷ second ∷ []) toy-IsCbor (λ e. cc)
      (first_genuine, (second_genuine, tt))

abbrev claim : WitnessBody
claim = record {
  claimed_heads = record { from = alice; seq = 4; hash = zero_hash } ∷ [];
  state_hash = some zero_hash;
}

abbrev claim_value : Value
claim_value =
    dict
      (field "heads" (heads_value claim.claimed_heads) (field "state_hash" (bytes zero_hash) end))

claim_written : encode_witness_body claim ≡ ok claim_value
unfolding encode_witness_body decode_identity decode_hash expect_unsigned_integer max_safe_integer
    bytes_to_hex text_equal
claim_written = refl

conflict : IsConflict toy first second
conflict = record {
  left_genuine = first_genuine;
  right_genuine = second_genuine;
  one_game = refl;
  one_sender = refl;
  one_seq = refl;
  different = λ e. cc;
  game_bytes = replicate-IsBytes 16 1 (omega arith);
  from_bytes = replicate-IsBytes 32 7 (omega arith);
  left_hash_bytes = replicate-IsBytes 32 2 (omega arith);
  right_hash_bytes = replicate-IsBytes 32 4 (omega arith);
}

decode-encode_violation_body_example : Written toy 0 first second (in_order first second)
decode-encode_violation_body_example =
    decode-encode_violation_body toy 0 first second toy-IsCbor refl conflict

abbrev session : Registry
session = record {
  game_id = game;
  entries = record { seat = 0; sender = alice; chain = new_chain alice } ∷ [];
}

seat_found : seat_of session alice ≡ some 0
unfolding seat_of bytes_to_hex text_equal
seat_found = refl

at_table : IsSeat toy session 0 first
at_table = record {
  seated = (refl, replicate-IsBytes 32 7 (omega arith), tt);
  small = refl;
  game_bytes = replicate-IsBytes 16 1 (omega arith);
  from_bytes = replicate-IsBytes 32 7 (omega arith);
  own_game = refl;
  own_seat = seat_found;
}

create_equivocation_violation-valid_example :
    let (left, right) = in_order first second in
    let body = violation toy 0 left right in
    (create_equivocation_violation toy session first second ≡ ok body)
    × (create_equivocation_violation toy session second first ≡ ok body)
    × (assess_equivocation_violation toy session body ≡ valid 0 alice body)
create_equivocation_violation-valid_example =
    create_equivocation_violation-valid toy session 0 first second toy-IsCbor conflict at_table
