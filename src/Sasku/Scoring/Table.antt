-- ===== src/Sasku/Scoring/Table.antt =====
-- The table of feasible totals (`feasiblePoints`) against the choices of cards that it stands for.
use tablefolk.Base.{
  ℕ, zero, suc, ◌+◌, ◌-◌, ◌≤◌, ◌<◌, ◌≡◌, refl, ◌↔◌, inl, inr, Bool, true, false, ◌||◌, ◌&&◌, List,
  [], ◌∷◌, arith, leb, ltb, length, get_or, replicate, foldl, All, Bool-cases,
}
use tablefolk.Sasku.Scoring.{
  mark_row, mark_rows, add_card, inventory, empty_table, feasible_points, cell,
}

-- Some of the listed cards, so many of them and with that sum of points.
pub data Select : List ℕ → ℕ → ℕ → Type 0 where
  done : Select [] 0 0
  skip : {x : ℕ} {xs : List ℕ} {k s : ℕ} → Select xs k s → Select (x ∷ xs) k s
  pick :
      {x : ℕ} {xs : List ℕ} {k s : ℕ} (k' s' : ℕ)
      → Select xs k s
      → k' ≡ suc k
      → s' ≡ x + s
      → Select (x ∷ xs) k' s'

mark_row-cell :
    (p : ℕ) (source target : List Bool) (s : ℕ)
    → get_or (mark_row p source target) s false ≡ (
        get_or target s false
        || (leb p s && (ltb s (length target) && get_or source (s - p) false)))
unfolding mark_row
mark_row-cell p source [] s = ground arith
mark_row-cell (suc p) source (t ∷ target) zero = ground arith
mark_row-cell (suc p) source (t ∷ target) (suc s) = ground (arith, mark_row-cell p source target s)
mark_row-cell zero [] (t ∷ target) s = ground arith
mark_row-cell zero (b ∷ source) (t ∷ target) zero = ground arith
mark_row-cell zero (b ∷ source) (t ∷ target) (suc s) =
    ground (arith, mark_row-cell zero source target s)

length-mark_row :
    (p : ℕ) (source target : List Bool) → length (mark_row p source target) ≡ length target
unfolding mark_row
length-mark_row p source [] = refl
length-mark_row (suc p) source (t ∷ target) = ground (arith, length-mark_row p source target)
length-mark_row zero [] (t ∷ target) = refl
length-mark_row zero (b ∷ source) (t ∷ target) = ground (arith, length-mark_row zero source target)

mark_rows-row :
    (p : ℕ) (before : List Bool) (rows : List (List Bool)) (c : ℕ)
    → c < length rows
    → get_or (mark_rows p before rows) c []
      ≡ mark_row p (get_or (before ∷ rows) c []) (get_or rows c [])
unfolding mark_rows
mark_rows-row p before [] c h = elim h [ ]
mark_rows-row p before (row ∷ rows) zero h = refl
mark_rows-row p before (row ∷ rows) (suc c) h = mark_rows-row p row rows c (omega arith)

-- Every row has 121 cells.
abbrev IsSized : List (List Bool) → Type 0
IsSized rows = All (λ row. length row ≡ 121) rows

IsSized-get :
    (rows : List (List Bool)) (c : ℕ)
    → IsSized rows
    → c < length rows
    → length (get_or rows c []) ≡ 121
IsSized-get [] c h k = elim k [ ]
IsSized-get (row ∷ rows) zero h k = h.0
IsSized-get (row ∷ rows) (suc c) h k = IsSized-get rows c h.1 (omega arith)

mark_rows-IsSized :
    (p : ℕ) (before : List Bool) (rows : List (List Bool))
    → IsSized rows
    → IsSized (mark_rows p before rows) × (length (mark_rows p before rows) ≡ length rows)
unfolding mark_rows
mark_rows-IsSized p before [] h = (tt, refl)
mark_rows-IsSized p before (row ∷ rows) h =
    let (sized, same) = mark_rows-IsSized p row rows h.1 in
    ((omega (arith, length-mark_row p before row, h.0), sized), omega arith)

-- What the loops keep of the table: 37 rows of 121 cells.
abbrev IsTable : List (List Bool) → Type 0
IsTable rows = IsSized rows × (length rows ≡ 37)

add_card-IsTable : (table : List (List Bool)) (p : ℕ) → IsTable table → IsTable (add_card table p)
unfolding add_card
add_card-IsTable [] p h = h
add_card-IsTable (row ∷ rows) p h =
    let (sized, same) = mark_rows-IsSized p row rows h.0.1 in ((h.0.0, sized), omega arith)

add_card-cell :
    (table : List (List Bool)) (p c s : ℕ)
    → IsTable table
    → suc c < 37
    → s < 121
    → cell (add_card table p) (suc c) s
      ≡ (cell table (suc c) s || (leb p s && cell table c (s - p)))
unfolding add_card
add_card-cell [] p c s h k l = absurd (omega arith)
add_card-cell (row ∷ rows) p c s h k l = rw (mark_rows-row p row rows c (omega arith)) (
    ground (
      arith,
      mark_row-cell p (get_or (row ∷ rows) c []) (get_or rows c []) s,
      IsSized-get rows c h.0.1 (omega arith),
    ))

add_card-cell_zero :
    (table : List (List Bool)) (p s : ℕ) → cell (add_card table p) 0 s ≡ cell table 0 s
unfolding add_card
add_card-cell_zero [] p s = refl
add_card-cell_zero (row ∷ rows) p s = refl

add_card-keeps :
    (table : List (List Bool)) (p c s : ℕ)
    → IsTable table
    → c < 37
    → s < 121
    → cell table c s ≡ true
    → cell (add_card table p) c s ≡ true
add_card-keeps table p zero s h k l e = rw (add_card-cell_zero table p s) e
add_card-keeps table p (suc c) s h k l e = rw (add_card-cell table p c s h k l, e)

add_card-marks :
    (table : List (List Bool)) (p c s : ℕ)
    → IsTable table
    → suc c < 37
    → p + s < 121
    → cell table c s ≡ true
    → cell (add_card table p) (suc c) (p + s) ≡ true
add_card-marks table p c s h k l e =
    let back : p + s - p ≡ s = omega arith in
    let fits : leb p (p + s) ≡ true = ground arith in
    rw (add_card-cell table p c (p + s) h k l, fits, back, e) (ground arith)

-- Where a mark comes from.
data Origin (table : List (List Bool)) (p c s : ℕ) : Type 0 where
  kept : cell table c s ≡ true → Origin table p c s
  marked : (c' s' : ℕ) → c ≡ suc c' → s ≡ p + s' → cell table c' s' ≡ true → Origin table p c s

add_card-Origin :
    (table : List (List Bool)) (p c s : ℕ)
    → IsTable table
    → c < 37
    → s < 121
    → cell (add_card table p) c s ≡ true
    → Origin table p c s
add_card-Origin table p zero s h k l e = kept (rw (← add_card-cell_zero table p s) e)
add_card-Origin table p (suc c) s h k l e =
    let split = rw (add_card-cell table p c s h k l) at e in
    elim (Bool-cases (cell table (suc c) s)) [
      | inl old ↦ kept old
      | inr new ↦ marked c (s - p) refl (ground arith) (ground arith)
    ]

foldl_complete :
    {xs : List ℕ} {k' s' : ℕ} (table : List (List Bool)) (k s c d : ℕ)
    → IsTable table
    → Select xs k' s'
    → c ≡ k + k'
    → d ≡ s + s'
    → c < 37
    → d < 121
    → cell table k s ≡ true
    → cell (foldl add_card table xs) c d ≡ true
foldl_complete table k s c d t done ec ed h l e =
    let ck : c ≡ k = omega arith in let ds : d ≡ s = omega arith in rw (ck, ds) e
foldl_complete table k s c d t (skip {x} rest) ec ed h l e =
    foldl_complete (add_card table x) k s c d (add_card-IsTable table x t) rest ec ed h l
      (add_card-keeps table x k s t (omega arith) (omega arith) e)
foldl_complete table k s c d t (pick {x} k' s' rest ek es) ec ed h l e =
    foldl_complete (add_card table x) (suc k) (x + s) c d (add_card-IsTable table x t) rest
      (omega arith) (omega arith) h l (add_card-marks table x k s t (omega arith) (omega arith) e)

data Reached (table : List (List Bool)) (xs : List ℕ) (c d : ℕ) : Type 0 where
  reached :
      (k s k' s' : ℕ)
      → cell table k s ≡ true
      → Select xs k' s'
      → c ≡ k + k'
      → d ≡ s + s'
      → Reached table xs c d

reached-step :
    (table : List (List Bool)) (x : ℕ) (xs : List ℕ) (c d : ℕ)
    → IsTable table
    → c < 37
    → d < 121
    → Reached (add_card table x) xs c d
    → Reached table (x ∷ xs) c d
reached-step table x xs c d t h l (reached k s k' s' e sel ec ed) =
    from_origin (add_card-Origin table x k s t (omega arith) (omega arith) e)
  where
    from_origin : Origin table x k s → Reached table (x ∷ xs) c d
    from_origin (kept e') = reached k s k' s' e' (skip sel) ec ed
    from_origin (marked k0 s0 ek es e') =
        reached k0 s0 (suc k') (x + s') e' (pick (suc k') (x + s') sel refl refl) (omega arith)
          (omega arith)

foldl-sound :
    (table : List (List Bool)) (xs : List ℕ) (c d : ℕ)
    → IsTable table
    → c < 37
    → d < 121
    → cell (foldl add_card table xs) c d ≡ true
    → Reached table xs c d
foldl-sound table [] c d t h l e = reached c d 0 0 e done (omega arith) (omega arith)
foldl-sound table (x ∷ xs) c d t h l e =
    reached-step table x xs c d t h l
      (foldl-sound (add_card table x) xs c d (add_card-IsTable table x t) h l e)

get_or-replicate : {A : Type 0} (n i : ℕ) (d : A) → get_or (replicate n d) i d ≡ d
get_or-replicate zero i d = refl
get_or-replicate (suc n) zero d = refl
get_or-replicate (suc n) (suc i) d = get_or-replicate n i d

unmarked_row :
    (n c s : ℕ) → get_or (get_or (replicate n (replicate 121 false)) c []) s false ≡ false
unmarked_row zero c s = refl
unmarked_row (suc n) zero s = get_or-replicate 121 s false
unmarked_row (suc n) (suc c) s = unmarked_row n c s

empty_table-cell : (c s : ℕ) → cell empty_table c s ≡ true → (c ≡ 0) × (s ≡ 0)
unfolding empty_table
empty_table-cell zero zero e = (refl, refl)
empty_table-cell zero (suc s) e = cc (get_or-replicate 120 s false)
empty_table-cell (suc c) s e = cc (unmarked_row 36 c s)

replicate-IsSized : (n : ℕ) → IsSized (replicate n (replicate 121 false))
replicate-IsSized zero = tt
replicate-IsSized (suc n) = (refl, replicate-IsSized n)

empty_table-IsTable : IsTable empty_table
unfolding empty_table
empty_table-IsTable = ((refl, replicate-IsSized 36), refl)

feasible_sound :
    (c s : ℕ) → c < 37 → s < 121 → cell feasible_points c s ≡ true → Select inventory c s
unfolding feasible_points
feasible_sound c s h l e =
    from_reached (foldl-sound empty_table inventory c s empty_table-IsTable h l e)
  where
    from_reached : Reached empty_table inventory c s → Select inventory c s
    from_reached (reached k s0 k' s' e' sel ec ed) =
        let (k0, s00) = empty_table-cell k s0 e' in
        let ck : c ≡ k' = omega arith in let ss : s ≡ s' = omega arith in rw (ck, ss) sel

-- A cell of the table is marked exactly when some so many cards of the deck's inventory, each used
-- at most once, have that sum of points.
pub feasible_iff :
    (count sum : ℕ)
    → count ≤ 36
    → sum ≤ 120
    → (cell feasible_points count sum ≡ true) ↔ Select inventory count sum
unfolding feasible_points
feasible_iff count sum h l = (
  feasible_sound count sum (omega arith) (omega arith),
  λ sel.
      foldl_complete empty_table 0 0 count sum empty_table-IsTable sel (omega arith) (omega arith)
        (omega arith) (omega arith) (unfold empty_table in refl),
)
