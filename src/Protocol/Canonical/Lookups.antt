-- ===== src/Protocol/Canonical/Lookups.antt =====
-- packages/encoding/src/value.ts: what is read of a map does not depend on the order of its keys.
use tablefolk.Base.{
  ◌+◌, ◌≡◌, ◌≢◌, refl, ap, sym, subst, ◌∙◌, Bool, true, false, Option, none, some, String, List, [],
  ◌∷◌, arith, Bool-cases, inl, inr, eq_iff, eq_refl, if◌then◌else◌, length, every, ◌++◌, All,
}
use text.Mathlib.Text.{◌==◌ as str_eq}
use tablefolk.Protocol.Value.{
  Value, Fields, array, dict, end, field, get_field, has_field, count_fields,
}
use tablefolk.Protocol.Canonical.Orders.{
  Same, SameFields, self, through, arrays, dicts, same_fields, one_field, swapped, then_also,
}

-- A value with no map in it.
abbrev pub is_plain : Value → Bool
is_plain (array items) = false
is_plain (dict fields) = false
is_plain v = true

Same-plain : {v w : Value} → Same v w → is_plain v ≡ true → v ≡ w
Same-plain (self v) h = refl
Same-plain (through {u} {v} {w} p q) h =
    let e = Same-plain p h in e ∙ Same-plain q (subst (λ x. is_plain x ≡ true) e h)
Same-plain (arrays p) h = cc
Same-plain (dicts p) h = cc

-- A map is the same value as a map only.
abbrev pub fields_of : Value → Option Fields
fields_of (dict fields) = some fields
fields_of v = none

pub Same-dict :
    {v w : Value} (fs : Fields)
    → Same v w
    → v ≡ dict fs
    → (gs : Fields) × (w ≡ dict gs) × SameFields fs gs
Same-dict fs (self v) e = (fs, e, same_fields fs)
Same-dict fs (through p q) e =
    let (gs, e1, p1) = Same-dict fs p e in
    let (hs, e2, p2) = Same-dict gs q e1 in (hs, e2, then_also p1 p2)
Same-dict fs (arrays p) e = cc
Same-dict fs (dicts {fs = hs} {gs} p) e =
    let same : some hs ≡ some fs = ap fields_of e in
    let there : hs ≡ fs = cc in (gs, refl, subst (λ x. SameFields x gs) there p)

abbrev SameOption : Option Value → Option Value → Type 0
SameOption none none = Unit {0}
SameOption none (some w) = ⊥
SameOption (some v) none = ⊥
SameOption (some v) (some w) = Same v w

SameOption-self : (o : Option Value) → SameOption o o
SameOption-self none = tt
SameOption-self (some v) = self v

SameOption-trans : (o p q : Option Value) → SameOption o p → SameOption p q → SameOption o q
SameOption-trans none none none h k = tt
SameOption-trans (some u) (some v) (some w) h k = through h k
SameOption-trans none none (some w) h k = k
SameOption-trans none (some v) q h k = absurd h
SameOption-trans (some u) none q h k = absurd h
SameOption-trans (some u) (some v) none h k = k

get_field-Same :
    {fs gs : Fields} (k : String) → SameFields fs gs → SameOption (get_field k fs) (get_field k gs)
get_field-Same k (same_fields fs) = SameOption-self (get_field k fs)
get_field-Same k (then_also {fs} {gs} {hs} p q) =
    SameOption-trans (get_field k fs) (get_field k gs) (get_field k hs) (get_field-Same k p)
      (get_field-Same k q)
get_field-Same k (one_field j p ps) = elim (Bool-cases (str_eq j k)) [
  | inl this ↦ rw this p
  | inr other ↦ rw other (get_field-Same k ps)
]
get_field-Same k (swapped {k = a} {j = b} n v w fs) = elim (Bool-cases (str_eq a k)) [
  | inl this ↦ elim (Bool-cases (str_eq b k)) [
    | inl that ↦ absurd (n (cc ((eq_iff a k).0 this, (eq_iff b k).0 that)))
    | inr other ↦ rw (this, other) (self v)
  ]
  | inr not_this ↦ elim (Bool-cases (str_eq b k)) [
    | inl that ↦ rw (not_this, that) (self w)
    | inr other ↦ rw (not_this, other) (SameOption-self (get_field k fs))
  ]
]

pub count_fields-Same : {fs gs : Fields} → SameFields fs gs → count_fields fs ≡ count_fields gs
count_fields-Same (same_fields fs) = refl
count_fields-Same (then_also p q) = count_fields-Same p ∙ count_fields-Same q
count_fields-Same (one_field j p ps) = ap (λ n. n + 1) (count_fields-Same ps)
count_fields-Same (swapped n v w fs) = refl

-- A map without the first field under a key.
abbrev without : String → Fields → Fields
without k end = end
without k (field j v fs) = if str_eq j k then fs else field j v (without k fs)

pick :
    (k : String) (v : Value) (fs : Fields)
    → get_field k fs ≡ some v
    → SameFields fs (field k v (without k fs))
pick k v end h = cc
pick k v (field j w fs) h = elim (Bool-cases (str_eq j k)) [
  | inl this ↦
      let key : j ≡ k = (eq_iff j k).0 this in
      let value : w ≡ v = let e : some w ≡ some v = rw this at h in cc e in
      rw this (rw (key, value) (same_fields (field k v fs)))
  | inr other ↦
      let apart : j ≢ k = λ e. cc (subst (λ x. str_eq j x ≡ true) e (eq_refl j), other) in
      let there : get_field k fs ≡ some v = rw other at h in
      rw other
        (then_also (one_field j (self w) (pick k v fs there)) (swapped apart w v (without k fs)))
]

count-without :
    (k : String) (v : Value) (fs : Fields)
    → get_field k fs ≡ some v
    → count_fields fs ≡ count_fields (without k fs) + 1
count-without k v fs h = count_fields-Same (pick k v fs h)

get-without :
    (k j : String) (fs : Fields) → str_eq k j ≡ false → get_field j (without k fs) ≡ get_field j fs
get-without k j end h = refl
get-without k j (field i v fs) h =
    ground (arith, eq_iff k j, eq_iff i k, eq_iff i j, get-without k j fs h)

count_none : (fs : Fields) → count_fields fs ≡ 0 → fs ≡ end
count_none end h = refl
count_none (field k v fs) h = absurd (omega arith)

abbrev pub fields_from : List (String × Value) → Fields
fields_from [] = end
fields_from ((k, v) ∷ entries) = field k v (fields_from entries)

abbrev pub Holds : Fields → List (String × Value) → Type 0
Holds fs [] = Unit {0}
Holds fs ((k, v) ∷ entries) = (get_field k fs ≡ some v) × Holds fs entries

abbrev pub Apart : String → List (String × Value) → Type 0
Apart k [] = Unit {0}
Apart k ((j, v) ∷ entries) = (str_eq k j ≡ false) × Apart k entries

abbrev pub Distinct : List (String × Value) → Type 0
Distinct [] = Unit {0}
Distinct ((k, v) ∷ entries) = Apart k entries × Distinct entries

Holds-without :
    (k : String) (fs : Fields) (entries : List (String × Value))
    → Apart k entries
    → Holds fs entries
    → Holds (without k fs) entries
Holds-without k fs [] a h = tt
Holds-without k fs ((j, v) ∷ entries) a h =
    (get-without k j fs a.0 ∙ h.0, Holds-without k fs entries a.1 h.1)

-- A map that has as many keys as a list of entries, and those entries, is that list but for the order.
pub pick_all :
    (entries : List (String × Value)) (fs : Fields)
    → Distinct entries
    → Holds fs entries
    → count_fields fs ≡ length entries
    → SameFields fs (fields_from entries)
pick_all [] fs d h n = subst (SameFields fs) (count_none fs n) (same_fields fs)
pick_all ((k, v) ∷ entries) fs d h n = then_also (pick k v fs h.0) (
    one_field k (self v) (
      pick_all entries (without k fs) d.1 (Holds-without k fs entries d.0 h.1)
        (omega (arith, count-without k v fs h.0))))

abbrev pub names_of : List (String × Value) → List String
names_of [] = []
names_of ((k, v) ∷ entries) = k ∷ names_of entries

pub every-has_field :
    (fs : Fields) (entries : List (String × Value))
    → Holds fs entries
    → every (has_field fs) (names_of entries) ≡ true
every-has_field fs [] h = refl
every-has_field fs ((k, v) ∷ entries) h = ground (arith, h.0, every-has_field fs entries h.1)

pub Holds-append :
    (fs : Fields) (entries more : List (String × Value))
    → Holds fs entries
    → Holds fs more
    → Holds fs (entries ++ more)
Holds-append fs [] more h k = k
Holds-append fs ((j, v) ∷ entries) more h k = (h.0, Holds-append fs entries more h.1 k)

pub Holds-left :
    (fs : Fields) (entries more : List (String × Value))
    → Holds fs (entries ++ more)
    → Holds fs entries
Holds-left fs [] more h = tt
Holds-left fs ((j, v) ∷ entries) more h = (h.0, Holds-left fs entries more h.1)

plain_lookup :
    (k : String) (v : Value) (fs gs : Fields)
    → SameFields fs gs
    → is_plain v ≡ true
    → get_field k fs ≡ some v
    → get_field k gs ≡ some v
plain_lookup k v fs gs p plain h =
    read_plain (get_field k gs) (subst (λ o. SameOption o (get_field k gs)) h (get_field-Same k p))
  where
    read_plain : (o : Option Value) → SameOption (some v) o → o ≡ some v
    read_plain none q = absurd q
    read_plain (some w) q = ap some (sym (Same-plain q plain))

-- Plain entries of a map are there in another order, too.
pub Holds-Same :
    (fs gs : Fields) (given : List (String × Value))
    → SameFields fs gs
    → All (λ e. is_plain e.1 ≡ true) given
    → Holds fs given
    → Holds gs given
Holds-Same fs gs [] p plain h = tt
Holds-Same fs gs ((k, v) ∷ given) p plain h =
    (plain_lookup k v fs gs p plain.0 h.0, Holds-Same fs gs given p plain.1 h.1)

-- A lookup finds the same value, up to the order of its keys.
pub lookup-Same :
    (k : String) (v : Value) (fs gs : Fields)
    → SameFields fs gs
    → get_field k fs ≡ some v
    → (w : Value) × (get_field k gs ≡ some w) × Same v w
lookup-Same k v fs gs p h =
    read (get_field k gs) (subst (λ o. SameOption o (get_field k gs)) h (get_field-Same k p))
  where
    read : (o : Option Value) → SameOption (some v) o → (w : Value) × (o ≡ some w) × Same v w
    read none q = absurd q
    read (some w) q = (w, refl, q)
