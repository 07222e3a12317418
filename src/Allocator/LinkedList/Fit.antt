-- ===== src/Allocator/LinkedList/Fit.antt =====
-- linked_list.rs: where `alloc_from_region` and `find_region` place a block.
use molt_os.Prelude.{
  ℕ, ◌+◌, ◌^◌, ◌≤◌, ◌<◌, ◌≡◌, ◌⊎◌, refl, ap, sym, ◌∙◌, subst, Option, none, some, List, [], ◌∷◌, ok,
  ◌>>=◌, add64, checked_add, word, arith, All, >>=-eq-ok, add64-eq-ok,
}
use molt_os.Allocator.{align_up}
use molt_os.Allocator.AlignUp.{IsAligned, align_up-IsAligned}
use molt_os.Allocator.LinkedList.{
  Region, Found, node_size, fits, fits_to, alloc_from_region, behind, find_region,
}

-- A block of `size` bytes at `s` in the region, with no rest behind it or one that holds a node.
pub record Placed (r : Region) (size align s : ℕ) : Type 0 where
  pub aligned : IsAligned r.start align s
  pub inside : s + size ≤ r.start + r.size
  pub rest_fits : (s + size ≡ r.start + r.size) ⊎ (s + size + node_size ≤ r.start + r.size)
  pub region_fits : r.start + r.size < word

fits-eq-some :
    (s e stop : ℕ) {s' : ℕ}
    → fits s e stop ≡ some s'
    → (s' ≡ s) × (e ≤ stop) × ((e ≡ stop) ⊎ (e + node_size ≤ stop))
fits-eq-some s e stop h = ground arith

alloc_from_region-Placed :
    (r : Region) (size exponent rest : ℕ) {s : ℕ}
    → rest + exponent ≡ 64
    → alloc_from_region r size (2 ^ exponent) ≡ ok (some s)
    → Placed r size (2 ^ exponent) s
unfolding alloc_from_region fits_to
alloc_from_region-Placed r size exponent rest {s} w e =
    let (a, ea, f) = >>=-eq-ok (align_up r.start (2 ^ exponent)) _ e in
    go a (align_up-IsAligned rest exponent r.start w ea).0 (checked_add a size) refl f
  where
    go :
        (a : ℕ)
        → IsAligned r.start (2 ^ exponent) a
        → (o : Option ℕ) → checked_add a size ≡ o
        → fits_to r a o ≡ ok (some s)
        → Placed r size (2 ^ exponent) s
    go a v none q f = cc
    go a v (some stop) q f =
        let same : stop ≡ a + size = ground arith in
        let (region_end, er, g) = >>=-eq-ok (add64 r.start r.size) _ f in
        let (value, small) = add64-eq-ok r.start r.size er in
        let g' : fits a stop region_end ≡ some s = cc g in
        let (here, within, split) = fits-eq-some a stop region_end g' in
        record {
          aligned = subst (IsAligned r.start (2 ^ exponent)) (sym here) v;
          inside = omega arith;
          rest_fits = ground arith;
          region_fits = small;
        }

-- The list with one region taken out.
pub data Removed (r : Region) : List Region → List Region → Type 0 where
  first : {rs : List Region} → Removed r (r ∷ rs) rs
  later : {x : Region} {rs rest : List Region} → Removed r rs rest → Removed r (x ∷ rs) (x ∷ rest)

pub Removed-All :
    (P : Region → Type 0) {r : Region} {rs rest : List Region}
    → Removed r rs rest
    → All P rs
    → P r × All P rest
Removed-All P first a = a
Removed-All P (later m) a = let (h, t) = Removed-All P m a.1 in (h, (a.0, t))

-- What the search is to find.
abbrev pub IsFound : List Region → ℕ → ℕ → Found → Type 0
IsFound rs size align f = Removed f.0 rs f.2 × Placed f.0 size align f.1

behind-IsFound :
    (r : Region) (rs : List Region) (size align : ℕ) (o : Option Found) (f : Found)
    → ((g : Found) → o ≡ some g → IsFound rs size align g)
    → behind r o ≡ some f
    → IsFound (r ∷ rs) size align f
behind-IsFound r rs size align none f below e = cc
behind-IsFound r rs size align (some g) f below e =
    let (m, p) = below g refl in
    let same : (g.0, g.1, r ∷ g.2) ≡ f = cc e in
    subst (IsFound (r ∷ rs) size align) same (later m, p)

-- What the search finds: a region of the list, with a place in it for the block.
pub find_region-Placed :
    (rs : List Region) (size exponent rest : ℕ) {f : Found}
    → rest + exponent ≡ 64
    → find_region rs size (2 ^ exponent) ≡ ok (some f)
    → IsFound rs size (2 ^ exponent) f
unfolding find_region
find_region-Placed [] size exponent rest w e = cc
find_region-Placed (r ∷ rs) size exponent rest {f} w e =
    let (o, eo, g) = >>=-eq-ok (alloc_from_region r size (2 ^ exponent)) _ e in
    go o eo (λ f' eq. find_region-Placed rs size exponent rest w eq) g
  where
    go :
        (o : Option ℕ)
        → alloc_from_region r size (2 ^ exponent) ≡ ok o
        → ((f' : Found)
            → find_region rs size (2 ^ exponent) ≡ ok (some f')
            → IsFound rs size (2 ^ exponent) f')
        → elim o [
          | some s ↦ ok (some (r, s, rs))
          | none ↦ find_region rs size (2 ^ exponent) >>= λ q. ok (behind r q)
        ]
          ≡ ok (some f)
        → IsFound (r ∷ rs) size (2 ^ exponent) f
    go (some s) eo below g =
        let same : (r, s, rs) ≡ f = cc g in
        subst (IsFound (r ∷ rs) size (2 ^ exponent)) same
          (first, alloc_from_region-Placed r size exponent rest w eo)
    go none eo below g =
        let (q, eq, h) = >>=-eq-ok (find_region rs size (2 ^ exponent)) _ g in
        behind-IsFound r rs size (2 ^ exponent) q f (λ g' same. below g' (eq ∙ ap ok same)) (cc h)
