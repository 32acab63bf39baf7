-- ===== src/Graph/Positions.antt =====
-- The positions of identifiers, as both graph checks collect them into a `BTreeMap`.
use baseline_ops.Prelude.{
  ℕ, zero, suc, ◌+◌, ◌≤◌, ◌<◌, ◌≡◌, refl, true, false, some, List, [], ◌∷◌, length, has, lookup,
  insert, keys, keys-insert, lookup-insert, length-insert_key, insert_key-IsAscending,
  has-insert_key, insert_key, IsAscending, IsDistinct, arith, length-keys,
}
use baseline_ops.Graph.Discharge.{at}

-- `iter().enumerate().map(|(position, action)| (action.id, position)).collect()`, from a position
-- on and into a map.
unfoldable pub index_positions : ℕ → List ℕ → List (ℕ × ℕ) → List (ℕ × ℕ)
index_positions p [] m = m
index_positions p (id ∷ ids) m = index_positions (suc p) ids (insert id p m)

pub index_positions-lookup_other :
    (p : ℕ) (ids : List ℕ) (m : List (ℕ × ℕ)) (d : ℕ)
    → has d ids ≡ false
    → lookup d (index_positions p ids m) ≡ lookup d m
unfolding index_positions
index_positions-lookup_other p [] m d h = refl
index_positions-lookup_other p (id ∷ ids) m d h =
    ground
      (arith, index_positions-lookup_other (suc p) ids (insert id p m) d, lookup-insert d id p m)

-- Each of the distinct identifiers is found at its position.
pub index_positions-lookup-at :
    (p : ℕ) (ids : List ℕ) (m : List (ℕ × ℕ)) (q : ℕ)
    → IsDistinct ids
    → q < length ids
    → lookup (at ids q) (index_positions p ids m) ≡ some (p + q)
unfolding index_positions
index_positions-lookup-at p [] m q d h = absurd (omega arith)
index_positions-lookup-at p (id ∷ ids) m zero d h = ground (
  arith,
  index_positions-lookup_other (suc p) ids (insert id p m) id d.0,
  lookup-insert id id p m,
)
index_positions-lookup-at p (id ∷ ids) m (suc q) d h =
    ground (arith, index_positions-lookup-at (suc p) ids (insert id p m) q d.1 (omega arith))

-- No identifier of the list is in the set, and none stands twice.
abbrev pub IsNew : List ℕ → List ℕ → Type 0
IsNew [] s = Unit
IsNew (id ∷ ids) s = (has id s ≡ false) × IsNew ids (insert_key id s)

pub IsNew-IsDistinct :
    (ids s : List ℕ) → IsNew ids s → IsDistinct ids × ((z : ℕ) → has z ids ≡ true → has z s ≡ false)
IsNew-IsDistinct [] s h = (tt, λ z k. cc)
IsNew-IsDistinct (id ∷ ids) s h =
    let (d, apart) = IsNew-IsDistinct ids (insert_key id s) h.1 in
    (
      (ground (arith, apart id, has-insert_key id id s), d),
      λ z k. ground (arith, apart z, has-insert_key z id s),
    )

pub IsDistinct-IsNew :
    (ids s : List ℕ) → IsDistinct ids → ((z : ℕ) → has z ids ≡ true → has z s ≡ false) → IsNew ids s
IsDistinct-IsNew [] s d apart = tt
IsDistinct-IsNew (id ∷ ids) s d apart = (
  ground (arith, apart id),
  IsDistinct-IsNew ids (insert_key id s) d.1 λ z k. ground (arith, apart z, has-insert_key z id s),
)

length_le :
    (p : ℕ) (ids : List ℕ) (m : List (ℕ × ℕ))
    → IsAscending (keys m)
    → length (keys (index_positions p ids m)) ≤ length (keys m) + length ids
unfolding index_positions
length_le p [] m a = omega arith
length_le p (id ∷ ids) m a = ground (
  arith,
  length_le (suc p) ids (insert id p m) (rw keys-insert (insert_key-IsAscending id (keys m) a)),
  keys-insert id p m,
  length-insert_key id (keys m) a,
)

length_full :
    (p : ℕ) (ids : List ℕ) (m : List (ℕ × ℕ))
    → IsAscending (keys m)
    → length (keys (index_positions p ids m)) ≡ length (keys m) + length ids
    → IsNew ids (keys m)
unfolding index_positions
length_full p [] m a e = tt
length_full p (id ∷ ids) m a e =
    let asc = insert_key-IsAscending id (keys m) a in
    let asc' : IsAscending (keys (insert id p m)) = rw keys-insert asc in
    let le = length_le (suc p) ids (insert id p m) asc' in
    let fresh : has id (keys m) ≡ false =
      ground (arith, le, keys-insert id p m, length-insert_key id (keys m) a) in
    (
      fresh,
      rw (keys-insert id p m) at (
          length_full (suc p) ids (insert id p m) asc'
            (ground (arith, keys-insert id p m, length-insert_key id (keys m) a))),
    )

length_new :
    (p : ℕ) (ids : List ℕ) (m : List (ℕ × ℕ))
    → IsAscending (keys m)
    → IsNew ids (keys m)
    → length (keys (index_positions p ids m)) ≡ length (keys m) + length ids
unfolding index_positions
length_new p [] m a n = omega arith
length_new p (id ∷ ids) m a n = ground (
  arith,
  length_new (suc p) ids (insert id p m) (rw keys-insert (insert_key-IsAscending id (keys m) a))
      (rw (keys-insert id p m) n.1),
  keys-insert id p m,
  length-insert_key id (keys m) a,
)

-- The map holds as many entries as identifiers came exactly when no identifier came twice.
pub length-index_positions_iff :
    (ids : List ℕ)
    → (length (index_positions 0 ids []) ≡ length ids → IsDistinct ids)
      × (IsDistinct ids → length (index_positions 0 ids []) ≡ length ids)
length-index_positions_iff ids = (
  λ e.
      (IsNew-IsDistinct ids []
        (length_full 0 ids [] tt (omega (arith, e, length-keys {0} (index_positions 0 ids []))))).0,
  λ d. omega (
    arith,
    length-keys {0} (index_positions 0 ids []),
    length_new 0 ids [] tt (IsDistinct-IsNew ids [] d (λ z k. refl)),
  ),
)
