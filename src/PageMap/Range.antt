-- ===== src/PageMap/Range.antt =====
-- `PageMap::MapRange`: a range of frames is mapped to a range of pages.
use panix.Prelude.{
  ℕ, zero, suc, ◌+◌, ◌-◌, ◌*◌, ◌%◌, ◌^◌, ◌≤◌, ◌<◌, ◌≡◌, ◌≢◌, refl, ap, ◌∙◌, Bool, true, false,
  length, arith, ◌==◌, Bool-cases, ltb→lt, ltb→le, inl, inr, if◌then◌else◌, ==_iff, ◌&&◌, ltb,
}
use panix.Prelude.Run.{Returns}
use panix.PageMap.{PageMap, vaddr_to_paddr, map_page, each, map_range}
use panix.PageMap.Entry.{IsFlags, page}
use panix.PageMap.Map.{IsPageMap, map_page-Maps}

-- The pages from the one of address `a` to that of `v`, around the 2 ^ 36 pages.
abbrev pub distance : ℕ → ℕ → ℕ
distance a v = (page v + 2 ^ 36 - page a) % 2 ^ 36

-- The frame for `v` in a range that starts with the page of `virt` and the frame `addr`.
abbrev pub in_range : ℕ → ℕ → ℕ → ℕ → ℕ → ℕ
in_range addr bound virt v before =
    if ltb (addr + 4096 * distance virt v) bound then addr + 4096 * distance virt v else before

page-wrap : (a : ℕ) → page (a % 2 ^ 64) ≡ page a
page-wrap a = omega arith

next_page : (a : ℕ) → page (a + 4096) ≡ (page a + 1) % 2 ^ 36
next_page a = omega arith

here_distance : (a v : ℕ) → page v ≡ page a → distance a v ≡ 0
here_distance a v e = omega arith

last_distance : (a v : ℕ) → page v ≡ page a → distance (a + 4096) v ≡ 2 ^ 36 - 1
last_distance a v e = omega (arith, next_page a)

next_distance : (a v : ℕ) → page v ≢ page a → distance a v ≡ distance (a + 4096) v + 1
next_distance a v ne = omega (arith, next_page a)

shift : (addr off : ℕ) → addr + 4096 + off ≡ addr + off + 4096
shift addr off = omega arith

in_range-step :
    (addr bound off v before : ℕ)
    → addr < bound
    → bound ≤ addr + 2 ^ 48
    → in_range
        (addr + 4096)
        bound
        (addr + 4096 + off)
        v
        (if page v == page ((addr + off) % 2 ^ 64) then addr else before)
      ≡ in_range addr bound (addr + off) v before
in_range-step addr bound off v before lt far =
    rw (shift addr off, page-wrap (addr + off))
      (elim (Bool-cases (page v == page (addr + off))) [
        | inl same ↦
            let e = (==_iff _ _).0 same in
            rw (same, here_distance (addr + off) v e, last_distance (addr + off) v e) (ground arith)
        | inr other ↦
            let ne : page v ≢ page (addr + off) = ground arith in
            rw (other, next_distance (addr + off) v ne) (ground arith)
      ])

above : (addr bound virt v before : ℕ) → bound ≤ addr → before ≡ in_range addr bound virt v before
above addr bound virt v before h =
    let out : ltb (addr + 4096 * distance virt v) bound ≡ false = ground arith in rw out refl

-- The loop keeps the tree, returns true, and maps the range.
each_map :
    (fuel addr bound off flags : ℕ) (m : PageMap)
    → IsPageMap m
    → IsFlags flags
    → addr % 4096 ≡ 0
    → bound < 2 ^ 64 - 4096
    → bound ≤ addr + 2 ^ 48
    → bound ≤ addr + 4096 * fuel
    → 3 * fuel ≤ length m.supply
    → Returns
        (each (suc fuel) (λ next a. map_page next a ((a + off) % 2 ^ 64) flags) addr bound m)
        λ r.
          (r.0 ≡ true)
          × IsPageMap (r.1)
          × ((v : ℕ)
              → vaddr_to_paddr (r.1) v ≡ in_range addr bound (addr + off) v (vaddr_to_paddr m v))
unfolding each
each_map zero addr bound off flags m valid good aligned wrap far rounds enough =
    let over : ltb addr bound ≡ false = ground arith in
    rw over (
      (true, m),
      refl,
      (refl, valid, λ v. above addr bound (addr + off) v (vaddr_to_paddr m v) (omega arith)),
    )
each_map (suc fuel) addr bound off flags m valid good aligned wrap far rounds enough =
    elim (Bool-cases (ltb addr bound)) [
      | inr over ↦
          let le = ltb→le addr bound over in
          rw over (
            (true, m),
            refl,
            (refl, valid, λ v. above addr bound (addr + off) v (vaddr_to_paddr m v) le),
          )
      | inl under ↦
          let lt = ltb→lt addr bound under in
          let made =
            map_page-Maps m addr ((addr + off) % 2 ^ 64) flags valid (omega arith) (omega arith)
              good in
          let done = made.enough (omega arith) in
          let no_wrap : (addr + 4096) % 2 ^ 64 ≡ addr + 4096 = omega arith in
          let (r, run, (all, valid', same)) =
            each_map fuel (addr + 4096) bound off flags
              (map_page m addr ((addr + off) % 2 ^ 64) flags).1 made.tree good (omega arith) wrap
              (omega arith) (omega arith) (omega (arith, made.spent)) in
          rw (under, done, no_wrap)
            (
              r,
              run,
              (
                all,
                valid',
                λ v.
                    same v
                    ∙ ap (in_range (addr + 4096) bound (addr + 4096 + off) v) (made.translates v)
                    ∙ ap
                        (λ (b : Bool). in_range (addr + 4096) bound (addr + 4096 + off) v (
                          if b && (page v == page ((addr + off) % 2 ^ 64))
                          then addr
                          else vaddr_to_paddr m v))
                        done
                    ∙ in_range-step addr bound off v (vaddr_to_paddr m v) lt far,
              ),
            )
    ]

-- A range of page frames that ends below the last page of the address space and is not larger than the
-- 2 ^ 48 bytes that translation tells apart: with flags that have the PRESENT bit and none above bit 8, three frames
-- left for each page and one round more than pages, `MapRange` ends, returns true and keeps the tree of tables. A page at some distance from
-- the first page of the target translates to the frame at this distance, if that is in the range, and
-- every other page as before.
pub map_range-translates :
    (fuel base bound virt_offset flags : ℕ) (m : PageMap)
    → IsPageMap m
    → IsFlags flags
    → base % 4096 ≡ 0
    → bound < 2 ^ 64 - 4096
    → bound ≤ base + 2 ^ 48
    → bound ≤ base + 4096 * fuel
    → 3 * fuel ≤ length m.supply
    → Returns (map_range (suc fuel) m base bound virt_offset flags) λ r.
      (r.0 ≡ true)
      × IsPageMap (r.1)
      × ((v : ℕ)
          → vaddr_to_paddr (r.1) v
            ≡ in_range base bound (base + virt_offset) v (vaddr_to_paddr m v))
unfolding map_range
map_range-translates fuel base bound virt_offset flags m valid good aligned wrap far rounds enough =
    each_map fuel base bound virt_offset flags m valid good aligned wrap far rounds enough
