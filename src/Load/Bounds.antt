-- ===== src/Load/Bounds.antt =====
-- `validate_json_bounds` and `load_json` against a description of the documents that they accept.
use Prim.Native.String.{len}
use baseline_ops.Prelude.{
  ℕ, ◌+◌, ◌≤◌, ltb, String, List, length, Outcome, ok, err, map_err, reject_if, ◌≡◌, ◌↔◌, arith,
  >>=-eq-ok, >>-eq-ok,
}
use baseline_ops.Domain.Json.{
  Value, Items, Members, utf8, json, null, boolean, number, string, array, object, nil, cons, end,
  member,
}
use baseline_ops.Validate.Json.{count_items, count_members}
use baseline_ops.Validate.Json.Bounds.{size, size_items, size_members}
use baseline_ops.Load.{
  JsonLoadLimits, Decoder, validate_property_name, validate_json_bounds, validate_array,
  validate_object, load_json,
}

pub map_err-eq-ok :
    {E F T : Type 0} (f : E → F) (r : Outcome E T) {t : T} → map_err f r ≡ ok t → r ≡ ok t
map_err-eq-ok f (ok u) h = cc
map_err-eq-ok f (err e) h = cc

module _ (limits : JsonLoadLimits) where
  -- Every value stands at an allowed level, and every string, key, array and object fits.
  abbrev mutual
    pub IsWithin : ℕ → Value → Type 0
    IsWithin depth (string s) = (depth ≤ limits.max_depth) × (len s ≤ limits.max_string_bytes)
    IsWithin depth (array values) =
        (depth ≤ limits.max_depth)
        × (count_items values ≤ limits.max_array_entries)
        × AreWithin (depth + 1) values
    IsWithin depth (object values) =
        (depth ≤ limits.max_depth)
        × (count_members values ≤ limits.max_object_entries)
        × AreMembersWithin (depth + 1) values
    IsWithin depth null = depth ≤ limits.max_depth
    IsWithin depth (boolean b) = depth ≤ limits.max_depth
    IsWithin depth (number n) = depth ≤ limits.max_depth

    pub AreWithin : ℕ → Items → Type 0
    AreWithin depth nil = Unit
    AreWithin depth (cons v vs) = IsWithin depth v × AreWithin depth vs

    pub AreMembersWithin : ℕ → Members → Type 0
    AreMembersWithin depth end = Unit
    AreMembersWithin depth (member k v ms) =
        (len k ≤ limits.max_string_bytes) × IsWithin depth v × AreMembersWithin depth ms

  mutual
    unfolding validate_json_bounds size

    sound :
        (v : Value) (d n m : ℕ)
        → validate_json_bounds limits v d n ≡ ok m
        → IsWithin d v × (m ≡ n + size v) × (m ≤ limits.max_nodes)
    sound null d n m h = ground arith
    sound (boolean b) d n m h = ground arith
    sound (number t) d n m h = ground arith
    sound (string s) d n m h = ground arith
    sound (array vs) d n m h = ground (arith, sound_items vs (d + 1) (n + 1) m)
    sound (object ms) d n m h = ground (arith, sound_members ms (d + 1) (n + 1) m)

    sound_items :
        (vs : Items) (d n m : ℕ)
        → validate_array limits vs d n ≡ ok m
        → n ≤ limits.max_nodes
        → AreWithin d vs × (m ≡ n + size_items vs) × (m ≤ limits.max_nodes)
    sound_items nil d n m h fits = ground arith
    sound_items (cons v vs) d n m h fits =
        let (n', p, q) = >>=-eq-ok (validate_json_bounds limits v d n) _ h in
        ground (arith, sound v d n n' p, sound_items vs d n' m q)

    sound_members :
        (ms : Members) (d n m : ℕ)
        → validate_object limits ms d n ≡ ok m
        → n ≤ limits.max_nodes
        → AreMembersWithin d ms × (m ≡ n + size_members ms) × (m ≤ limits.max_nodes)
    sound_members end d n m h fits = ground arith
    sound_members (member k v ms) d n m h fits =
        let (p, q) = >>-eq-ok (validate_property_name limits k) _ h in
        let (n', r, t) = >>=-eq-ok (validate_json_bounds limits v d n) _ q in
        ground (arith, p, sound v d n n' r, sound_members ms d n' m t)

  mutual
    unfolding validate_json_bounds size

    accepted :
        (v : Value) (d n : ℕ)
        → IsWithin d v
        → n + size v ≤ limits.max_nodes
        → validate_json_bounds limits v d n ≡ ok (n + size v)
    accepted null d n h fits = ground arith
    accepted (boolean b) d n h fits = ground arith
    accepted (number t) d n h fits = ground arith
    accepted (string s) d n h fits = ground arith
    accepted (array vs) d n h fits = ground (arith, accepted_items vs (d + 1) (n + 1))
    accepted (object ms) d n h fits = ground (arith, accepted_members ms (d + 1) (n + 1))

    accepted_items :
        (vs : Items) (d n : ℕ)
        → AreWithin d vs
        → n + size_items vs ≤ limits.max_nodes
        → validate_array limits vs d n ≡ ok (n + size_items vs)
    accepted_items nil d n h fits = ground arith
    accepted_items (cons v vs) d n h fits =
        ground (arith, accepted v d n, accepted_items vs d (n + size v))

    accepted_members :
        (ms : Members) (d n : ℕ)
        → AreMembersWithin d ms
        → n + size_members ms ≤ limits.max_nodes
        → validate_object limits ms d n ≡ ok (n + size_members ms)
    accepted_members end d n h fits = ground arith
    accepted_members (member k v ms) d n h fits =
        ground (arith, accepted v d n, accepted_members ms d (n + size v))

  -- A document is loaded exactly when its bytes are within the limit, they decode to a value whose
  -- nesting, strings, arrays, objects and number of values are within the limits, and that value
  -- decodes to the result.
  pub load_json_iff :
      {T : Type 0} (decoder : Decoder T) (bytes : List ℕ) (document : T)
      → (load_json decoder bytes limits ≡ ok document) ↔ (
          (length bytes ≤ limits.max_bytes)
          × ((text : String) × (decoder.from_utf8 bytes ≡ ok text)
              × ((value : Value) × (decoder.from_str text ≡ ok value)
                  × IsWithin 0 value
                  × (size value ≤ limits.max_nodes)
                  × (decoder.from_value value ≡ ok document))))
  unfolding load_json
  load_json_iff decoder bytes document = (
    λ h.
        let (fits, h1) = >>-eq-ok (reject_if (ltb limits.max_bytes (length bytes)) _) _ h in
        let (text, decoded, h2) = >>=-eq-ok (map_err utf8 (decoder.from_utf8 bytes)) _ h1 in
        let (value, parsed, h3) = >>=-eq-ok (map_err json (decoder.from_str text)) _ h2 in
        let (visited, bounds, typed) = >>=-eq-ok (validate_json_bounds limits value 0 0) _ h3 in
        let (within, counted, few) = sound value 0 0 visited bounds in
        (
          ground (arith, fits),
          (
            text,
            map_err-eq-ok utf8 (decoder.from_utf8 bytes) decoded,
            (
              value,
              map_err-eq-ok json (decoder.from_str text) parsed,
              within,
              omega (arith, counted, few),
              map_err-eq-ok json (decoder.from_value value) typed,
            ),
          ),
        ),
    λ (fits, (text, decoded, (value, parsed, within, few, typed))).
        rw (decoded, parsed, accepted value 0 0 within (omega (arith, few)), typed)
          (ground (arith, fits)),
  )
