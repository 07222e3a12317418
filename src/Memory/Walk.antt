-- ===== src/Memory/Walk.antt =====
-- memory.rs: `translate_addr` maps whole pages.
use molt_os.Prelude.{
  ℕ, ◌+◌, ◌*◌, ◌/◌, ◌%◌, ◌^◌, ◌<◌, ◌≡◌, refl, ap, sym, ◌∙◌, subst, none, some, ok, >>=-eq-ok, arith,
}
use molt_os.Memory.{Entry, page_size, table_indexes, page_offset, walk, translate_addr}

same_indexes :
    (page i j : ℕ)
    → i < page_size
    → j < page_size
    → table_indexes (page * page_size + i) ≡ table_indexes (page * page_size + j)
same_indexes page i j h k =
    let p1 : (page * page_size + i) / 2 ^ 12 % 512 ≡ (page * page_size + j) / 2 ^ 12 % 512 =
      omega arith in
    let p2 : (page * page_size + i) / 2 ^ 21 % 512 ≡ (page * page_size + j) / 2 ^ 21 % 512 =
      omega arith in
    let p3 : (page * page_size + i) / 2 ^ 30 % 512 ≡ (page * page_size + j) / 2 ^ 30 % 512 =
      omega arith in
    let p4 : (page * page_size + i) / 2 ^ 39 % 512 ≡ (page * page_size + j) / 2 ^ 39 % 512 =
      omega arith in
    cc (p1, p2, p3, p4)

-- Two addresses of a page: where the first is mapped, so is the second, at the same distance in the
-- same frame.
pub translate_addr-same_page :
    (tables : ℕ → ℕ → Entry) (level_4_frame page i j p : ℕ)
    → i < page_size
    → j < page_size
    → translate_addr tables level_4_frame (page * page_size + i) ≡ ok (some p)
    → (at : ℕ) × (p ≡ at + i)
      × (translate_addr tables level_4_frame (page * page_size + j) ≡ ok (some (at + j)))
unfolding translate_addr
translate_addr-same_page tables top page i j p h k e =
    let (found, ew, f) = >>=-eq-ok (walk tables (table_indexes (page * page_size + i)) top) _ e in
    let ew' : walk tables (table_indexes (page * page_size + j)) top ≡ ok found =
      subst (λ l. walk tables l top ≡ ok found) (same_indexes page i j h k) ew in
    let off : page_offset (page * page_size + i) ≡ i = omega arith in
    let off' : page_offset (page * page_size + j) ≡ j = omega arith in
    elim found
        as (λ o.
          walk tables (table_indexes (page * page_size + j)) top ≡ ok o
          → elim o [
            | none ↦ ok none
            | some at ↦ ok (some (at + page_offset (page * page_size + i)))
          ]
            ≡ ok (some p)
          → (at : ℕ) × (p ≡ at + i)
            × (translate_addr tables top (page * page_size + j) ≡ ok (some (at + j)))) [
              | none ↦ λ q g. cc g
              | some at ↦ λ q g.
                  let here : at + page_offset (page * page_size + i) ≡ p = cc g in
                  (at, sym here ∙ ap (λ x. at + x) off, rw (q, off') refl)
            ]
      ew' f
