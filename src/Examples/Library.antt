-- ===== src/Examples/Library.antt =====
-- A library of CBOR that knows the empty value and a table of maps, in any order of their keys. It
-- stands in for the library that packages/encoding/src/canonical.ts calls.
use tablefolk.Base.{
  ℕ, zero, suc, ◌<◌, ◌≡◌, refl, sym, ◌∙◌, ap, subst, Bool, true, false, ◌&&◌, List, [], ◌∷◌, String,
  Option, none, some, Result, ok, err, arith, length, get_elem?, ◌==◌, if◌then◌else◌, All,
  Bool-cases, inl, inr, eq_iff,
}
use mathlib.Core.Option
use text.Mathlib.Text.{◌==◌ as str_eq}
use tablefolk.Session.Bytes.{Bytes}
use tablefolk.Protocol.Value.{
  Value, Items, Fields, null, integer, string, bytes, dict, EncodingError, malformed, get_field,
  count_fields,
}
use tablefolk.Protocol.Canonical.{Cbor, same_bytes}
use tablefolk.Protocol.Canonical.Unique.{same_bytes_eq}
use tablefolk.Protocol.Canonical.Orders.{
  Same, SameItems, SameFields, self, through, arrays, dicts, no_items, one_more, same_fields,
  one_field, swapped, then_also, IsCbor,
}
use tablefolk.Protocol.Canonical.Lookups.{
  is_plain, count_fields-Same, fields_from, Holds, Distinct, pick_all, Holds-Same,
}

abbrev pub Entries : Type 0
Entries = List (String × Value)

mutual
  Same-sym : {v w : Value} → Same v w → Same w v
  Same-sym (self v) = self v
  Same-sym (through p q) = through (Same-sym q) (Same-sym p)
  Same-sym (arrays p) = arrays (SameItems-sym p)
  Same-sym (dicts p) = dicts (SameFields-sym p)

  SameItems-sym : {xs ys : Items} → SameItems xs ys → SameItems ys xs
  SameItems-sym no_items = no_items
  SameItems-sym (one_more p ps) = one_more (Same-sym p) (SameItems-sym ps)

  SameFields-sym : {fs gs : Fields} → SameFields fs gs → SameFields gs fs
  SameFields-sym (same_fields fs) = same_fields fs
  SameFields-sym (then_also p q) = then_also (SameFields-sym q) (SameFields-sym p)
  SameFields-sym (one_field k p ps) = one_field k (Same-sym p) (SameFields-sym ps)
  SameFields-sym (swapped n v w fs) = swapped (λ e. n (sym e)) w v fs

unfoldable pub plain_eq : Value → Value → Bool
plain_eq null null = true
plain_eq (integer a) (integer b) = a == b
plain_eq (string s) (string t) = str_eq s t
plain_eq (bytes b) (bytes c) = same_bytes b c
plain_eq _ _ = false

plain_eq_sound : (v w : Value) → plain_eq v w ≡ true → v ≡ w
unfolding plain_eq
plain_eq_sound null null h = refl
plain_eq_sound (integer a) (integer b) h = ground arith
plain_eq_sound (string s) (string t) h = ap string ((eq_iff s t).0 h)
plain_eq_sound (bytes b) (bytes c) h = ap bytes (same_bytes_eq b c h)
plain_eq_sound v w h = cc

found_as : Option Value → Value → Bool
found_as none v = false
found_as (some w) v = plain_eq w v

found_as_sound : (o : Option Value) (v : Value) → found_as o v ≡ true → o ≡ some v
unfolding found_as
found_as_sound none v h = cc
found_as_sound (some w) v h = ap some (plain_eq_sound w v h)

all_found : Entries → Fields → Bool
all_found [] fs = true
all_found ((k, v) ∷ given) fs = found_as (get_field k fs) v && all_found given fs

matches : Entries → Fields → Bool
matches given fs = count_fields fs == length given && all_found given fs

-- Entries that the library can know: plain ones under distinct keys.
abbrev pub IsKnown : Entries → Type 0
IsKnown given =
    Distinct given × All (λ e. is_plain e.1 ≡ true) given × All (λ e. plain_eq e.1 e.1 ≡ true) given

all_found_sound : (given : Entries) (fs : Fields) → all_found given fs ≡ true → Holds fs given
unfolding all_found
all_found_sound [] fs h = tt
all_found_sound ((k, v) ∷ given) fs h =
    (found_as_sound (get_field k fs) v (ground arith), all_found_sound given fs (ground arith))

all_found_complete :
    (given : Entries) (fs : Fields)
    → All (λ e. plain_eq e.1 e.1 ≡ true) given
    → Holds fs given
    → all_found given fs ≡ true
unfolding all_found found_as
all_found_complete [] fs p h = refl
all_found_complete ((k, v) ∷ given) fs p h = rw (h.0, p.0, all_found_complete given fs p.1 h.1) refl

matches-Same :
    (given : Entries) (fs gs : Fields)
    → IsKnown given
    → SameFields fs gs
    → matches given fs ≡ true
    → matches given gs ≡ true
unfolding matches
matches-Same given fs gs (d, plain, eq) p h =
    let found =
      all_found_complete given gs eq
        (Holds-Same fs gs given p plain (all_found_sound given fs (ground arith))) in
    ground (arith, found, count_fields-Same p)

matches_sound :
    (given : Entries) (fs : Fields)
    → IsKnown given
    → matches given fs ≡ true
    → SameFields fs (fields_from given)
unfolding matches
matches_sound given fs (d, plain, eq) h =
    pick_all given fs d (all_found_sound given fs (ground arith)) (ground arith)

-- The number of a map in the table.
number_of : List Entries → Fields → Option ℕ
number_of [] fs = none
number_of (given ∷ table) fs =
    if matches given fs then some 0 else Option.map suc (number_of table fs)

number_of-Same :
    (table : List Entries) (fs gs : Fields)
    → All IsKnown table
    → SameFields fs gs
    → number_of table fs ≡ number_of table gs
unfolding number_of
number_of-Same [] fs gs known p = refl
number_of-Same (given ∷ table) fs gs known p = elim (Bool-cases (matches given fs)) [
  | inl yes_fs ↦ rw (yes_fs, matches-Same given fs gs known.0 p yes_fs) refl
  | inr no_fs ↦ elim (Bool-cases (matches given gs)) [
    | inl yes_gs ↦ cc (matches-Same given gs fs known.0 (SameFields-sym p) yes_gs, no_fs)
    | inr no_gs ↦ rw (no_fs, no_gs) (ap (Option.map suc) (number_of-Same table fs gs known.1 p))
  ]
]

number_of_sound :
    (table : List Entries) (fs : Fields) (n : ℕ)
    → All IsKnown table
    → number_of table fs ≡ some n
    → (given : Entries) × (get_elem? table n ≡ some given) × SameFields fs (fields_from given)
unfolding number_of
number_of_sound [] fs n known h = cc
number_of_sound (given ∷ table) fs n known h = elim (Bool-cases (matches given fs)) [
  | inl here ↦
      let first : some 0 ≡ some n = rw here at h in
      let is : 0 ≡ n = cc first in
      subst
        (λ m.
          (g : Entries) × (get_elem? (given ∷ table) m ≡ some g) × SameFields fs (fields_from g))
        is (given, refl, matches_sound given fs known.0 here)
  | inr there ↦
      later (number_of table fs) (λ m e. number_of_sound table fs m known.1 e) refl (rw there at h)
]
  where
    later :
        (o : Option ℕ)
        → ((m : ℕ)
            → number_of table fs ≡ some m
            → (g : Entries) × (get_elem? table m ≡ some g) × SameFields fs (fields_from g))
        → number_of table fs ≡ o
        → Option.map suc o ≡ some n
        → (g : Entries) × (get_elem? (given ∷ table) n ≡ some g) × SameFields fs (fields_from g)
    later none ih e k = cc
    later (some m) ih e k =
        let (g, at, same) = ih m e in
        let is : suc m ≡ n = cc k in
        subst
          (λ i.
            (x : Entries) × (get_elem? (given ∷ table) i ≡ some x) × SameFields fs (fields_from x))
          is (g, at, same)

-- A map is written as its number, one higher than in the table, and no value as the byte 0.
encode_known : List Entries → Value → Option Bytes
encode_known table null = some (0 ∷ [])
encode_known table (dict fs) = Option.map (λ n. suc n ∷ []) (number_of table fs)
encode_known table _ = none

known_map : Option Entries → Result EncodingError Value
known_map none = err malformed
known_map (some given) = ok (dict (fields_from given))

decode_known : List Entries → Bytes → Result EncodingError Value
decode_known table (zero ∷ []) = ok null
decode_known table (suc n ∷ []) = known_map (get_elem? table n)
decode_known table _ = err malformed

unfoldable pub knowing : List Entries → Cbor
unfolding encode_known decode_known known_map number_of matches all_found found_as plain_eq
knowing table = record { encode = encode_known table; decode = decode_known table }

number_Same :
    (table : List Entries) {v w : Value}
    → All IsKnown table
    → Same v w
    → encode_known table v ≡ encode_known table w
unfolding encode_known
number_Same table known (self v) = refl
number_Same table known (through p q) = number_Same table known p ∙ number_Same table known q
number_Same table known (arrays p) = refl
number_Same table known (dicts {fs} {gs} p) = rw (number_of-Same table fs gs known p) refl

known_reads :
    (table : List Entries) (v : Value) (encoded : Bytes)
    → All IsKnown table
    → encode_known table v ≡ some encoded
    → (w : Value) × (decode_known table encoded ≡ ok w) × Same v w × (0 < length encoded)
unfolding encode_known decode_known known_map
known_reads table null encoded known h =
    let is : (0 ∷ []) ≡ encoded = cc h in
    subst (λ b. (w : Value) × (decode_known table b ≡ ok w) × Same null w × (0 < length b)) is
      (null, refl, self null, omega arith)
known_reads table (dict fs) encoded known h = numbered (number_of table fs) refl h
  where
    numbered :
        (o : Option ℕ)
        → number_of table fs ≡ o
        → Option.map (λ n. suc n ∷ []) o ≡ some encoded
        → (w : Value) × (decode_known table encoded ≡ ok w)
          × Same (dict fs) w
          × (0 < length encoded)
    numbered none e k = cc
    numbered (some n) e k =
        let (given, at, same) = number_of_sound table fs n known e in
        let is : (suc n ∷ []) ≡ encoded = cc k in
        subst (λ b. (w : Value) × (decode_known table b ≡ ok w) × Same (dict fs) w × (0 < length b))
          is (dict (fields_from given), ap known_map at, dicts same, omega arith)
known_reads table v encoded known h = cc

pub knowing-IsCbor : (table : List Entries) → All IsKnown table → IsCbor (knowing table)
unfolding knowing
knowing-IsCbor table known = record {
  reads = λ v encoded h. known_reads table v encoded known h;
  heedless = λ v w p. number_Same table known p;
}
