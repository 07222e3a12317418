-- ===== src/Allocator/FixedSize/Blocks.antt =====
-- fixed_size_block.rs: the block that stands behind a layout, and the maps of blocks in use.
use molt_os.Prelude.{
  ℕ, zero, suc, ◌+◌, ◌≤◌, ◌<◌, ◌≡◌, ◌≢◌, ◌⊎◌, inl, inr, refl, ap, sym, ◌∙◌, max, ◌==◌, ==_iff, Bool,
  true, false, Bool-cases, leb, if◌then◌else◌, Option, none, some, List, [], ◌∷◌, get_elem?, set,
  get_elem?-lt-length, get_elem?-set_ne, get_elem?-set_self, index, or_panic, ok, arith,
}
use molt_os.Allocator.{Layout}
use molt_os.Allocator.FixedSize.{block_sizes, position_from, list_index, from_size_align}
use molt_os.Allocator.FixedSize.Classes.{count, total, block_layout}

-- Blocks at `p` and `q` of these layouts do not overlap.
abbrev pub Apart : ℕ → Layout → ℕ → Layout → Type 0
Apart p l q m = (p + l.size ≤ q) ⊎ (q + m.size ≤ p)

-- The blocks in use, with their layouts.
abbrev pub InUse : Type 0
InUse = ℕ → Option Layout

abbrev pub put : InUse → ℕ → Layout → InUse
put live p l x = if x == p then some l else live x

abbrev pub remove : InUse → ℕ → InUse
remove live p x = if x == p then none else live x

abbrev pub square : Option ℕ → Layout
square none = record { size = 0; align = 0 }
square (some s) = record { size = s; align = s }

-- The layout of a block of the class `i`.
abbrev pub class_layout : ℕ → Layout
class_layout i = square (get_elem? block_sizes i)

abbrev pub granted_at : Option ℕ → Layout → Layout
granted_at none l = l
granted_at (some i) l = class_layout i

-- The layout of the block that stands behind a layout.
abbrev pub granted : Layout → Layout
granted l = granted_at (list_index l) l

position_from-fits :
    (i required : ℕ) (ss : List ℕ) (k : ℕ)
    → position_from i required ss ≡ some k
    → (n : ℕ) × (s : ℕ) × (k ≡ i + n) × (get_elem? ss n ≡ some s) × (required ≤ s)
unfolding position_from
position_from-fits i required [] k e = cc
position_from-fits i required (s ∷ ss) k e = elim (Bool-cases (leb required s)) [
  | inl t ↦
      let first : some i ≡ some k = rw t at e in
      let same : i ≡ k = cc first in (0, s, omega (arith, same), refl, ground (arith, t))
  | inr f ↦
      let rest : position_from (suc i) required ss ≡ some k = rw f at e in
      let (n, z, at, got, enough) = position_from-fits (suc i) required ss k rest in
      (suc n, z, omega (arith, at), got, enough)
]

-- It is big enough.
pub granted-size : (l : Layout) (o : Option ℕ) → list_index l ≡ o → l.size ≤ (granted_at o l).size
unfolding list_index
granted-size l none e = omega arith
granted-size l (some k) e =
    let (n, s, at, got, enough) = position_from-fits 0 (max l.size l.align) block_sizes k e in
    let same : k ≡ n = omega (arith, at) in rw (same, got) (omega (arith, enough))

-- The layout that the code makes of a class's size is that of the class.
pub block_granted :
    (i : ℕ)
    → i < 9
    → (s : ℕ) × (l : Layout) × (index block_sizes i ≡ ok s)
      × (from_size_align s s ≡ some l)
      × (class_layout i ≡ l)
unfolding from_size_align
block_granted i h =
    let (s, l, sized, valid, _) = block_layout i h in
    let size : get_elem? block_sizes i ≡ some s = from_index (get_elem? block_sizes i) s sized in
    (s, l, sized, valid, ap square size ∙ from_valid _ valid)
  where
    from_valid : {x l : Layout} (b : Bool) → (if b then some x else none) ≡ some l → x ≡ l
    from_valid true e = cc
    from_valid false e = cc

    from_index : (o : Option ℕ) (s : ℕ) → or_panic o ≡ ok s → o ≡ some s
    from_index none s e = cc
    from_index (some a) s e = cc

pub total-in :
    (x : ℕ) (ls : List (List ℕ))
    → 0 < total x ls
    → (i : ℕ) × (nodes : List ℕ) × (get_elem? ls i ≡ some nodes) × (0 < count x nodes)
total-in x [] h = absurd (omega arith)
total-in x (l ∷ ls) h = elim (Bool-cases (leb 1 (count x l))) [
  | inl t ↦ (0, l, refl, ground (arith, t))
  | inr f ↦
      let empty : count x l ≡ 0 = ground (arith, f) in
      let (i, nodes, at, counted) = total-in x ls (omega (arith, h, empty)) in
      (suc i, nodes, at, counted)
]

pub count-total :
    (x i : ℕ) (nodes : List ℕ) (ls : List (List ℕ))
    → get_elem? ls i ≡ some nodes
    → count x nodes ≤ total x ls
count-total x i nodes [] e = cc
count-total x zero nodes (l ∷ ls) e =
    let same : l ≡ nodes = cc e in omega (arith, ap (count x) same)
count-total x (suc i) nodes (l ∷ ls) e = omega (arith, count-total x i nodes ls e)

put_self : (live : InUse) (p : ℕ) (l : Layout) → put live p l p ≡ some l
put_self live p l = let here : (p == p) ≡ true = ground arith in rw here

pub put-ne :
    (live : InUse) (p : ℕ) (l : Layout) (x : ℕ) → (x == p) ≡ false → put live p l x ≡ live x
put-ne live p l x h = rw h

pub put-eq : (live : InUse) (p : ℕ) (l : Layout) (x : ℕ) → x ≡ p → put live p l x ≡ some l
put-eq live p l x e = ap (put live p l) e ∙ put_self live p l

pub remove-ne : (live : InUse) (p x : ℕ) → (x == p) ≡ false → remove live p x ≡ live x
remove-ne live p x h = rw h

pub remove-eq : (live : InUse) (p x : ℕ) → (x == p) ≡ true → remove live p x ≡ none
remove-eq live p x h = rw h

-- Where an entry stands after a `put` or a `remove`.
pub put-cases :
    (live : InUse) (p : ℕ) (l : Layout) (x : ℕ) (m : Layout)
    → put live p l x ≡ some m
    → ((x ≡ p) × (m ≡ l)) ⊎ (((x == p) ≡ false) × (live x ≡ some m))
put-cases live p l x m e = elim (Bool-cases (x == p)) [
  | inl t ↦ let new : some l ≡ some m = rw t at e in inl ((==_iff x p).0 t, cc new)
  | inr f ↦ let old : live x ≡ some m = rw f at e in inr (f, old)
]

pub remove-cases :
    (live : InUse) (p x : ℕ) (m : Layout)
    → remove live p x ≡ some m
    → ((x == p) ≡ false) × (live x ≡ some m)
remove-cases live p x m e = elim (Bool-cases (x == p)) [
  | inl t ↦ let gone : none ≡ some m = rw t at e in absurd (cc gone)
  | inr f ↦ let old : live x ≡ some m = rw f at e in (f, old)
]

-- The lists after a write.
pub set-cases :
    (ls : List (List ℕ)) (i j : ℕ) (new old list : List ℕ)
    → get_elem? ls i ≡ some old
    → get_elem? (set ls i new) j ≡ some list
    → ((j ≡ i) × (list ≡ new)) ⊎ (get_elem? ls j ≡ some list)
set-cases ls i j new old list e f = elim (Bool-cases (i == j)) [
  | inl t ↦
      let same : i ≡ j = (==_iff i j).0 t in
      let there : get_elem? (set ls i new) i ≡ some list = ap (get_elem? (set ls i new)) same ∙ f in
      let written = get_elem?-set_self ls i new (get_elem?-lt-length ls i e) in
      inl (sym same, cc (written, there))
  | inr other ↦
      let ne : i ≢ j = ground (arith, other) in inr (sym (get_elem?-set_ne ls i j new ne) ∙ f)
]
