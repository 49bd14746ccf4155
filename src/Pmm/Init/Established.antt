-- ===== src/Pmm/Init/Established.antt =====
-- What pmm_init of kernel/pmm.c establishes for a memory map without overlaps.
use ore_os.Pmm.Init.Storage.{all_reserved-IsCovered, all_reserved_marked, all_reserved_max}
use ore_os.Base.{
  Bool-cases, List, Memory, [], and-false, arith, false, if◌then◌else◌, inl, inr, leb, leb→le, ltb,
  refl, true, ℕ, ◌&&◌, ◌*◌, ◌+◌, ◌/◌, ◌<◌, ◌^◌, ◌∙◌, ◌∷◌, ◌≡◌, ◌≤◌, ◌⊎◌,
}
use ore_os.Boot.{MemoryDescriptor}
use ore_os.Pmm.{Pmm, page_size}
use ore_os.Pmm.Invariant.{IsValid}
use ore_os.Pmm.Init.{
  align_down, align_up, all_reserved, descriptor_end, max_end, release_all, release_loop,
  usable_descriptor, usable_end, usable_start,
}
use ore_os.Pmm.Init.Reserve.{IsCovered, Reserved}
use ore_os.Pmm.Init.Release.{AllMarked, RangeReleased, release_loop-RangeReleased}

-- A usable descriptor ends below 2^52.
abbrev pub Fits : MemoryDescriptor → Type 0
Fits d = usable_descriptor d ≡ true → d.physical_start + d.number_of_pages * page_size ≤ 2 ^ 52

-- The whole pages of two usable descriptors are apart.
abbrev pub Apart : MemoryDescriptor → MemoryDescriptor → Type 0
Apart d e =
    usable_descriptor d ≡ true
    → usable_descriptor e ≡ true
    → (usable_end d ≤ usable_start e) ⊎ (usable_end e ≤ usable_start d)

abbrev pub All {ℓ} : {A : Type ℓ} → (A → Type 0) → List A → Type 0
All P [] = Unit
All P (x ∷ xs) = P x × All P xs

abbrev pub MapFits : List MemoryDescriptor → Type 0
MapFits [] = Unit
MapFits (d ∷ ds) = Fits d × All (Apart d) ds × MapFits ds

-- What the release of the descriptors needs of the state.
abbrev pub Ready : Pmm → MemoryDescriptor → Type 0
Ready s d =
    usable_descriptor d ≡ true
    → (usable_end d ≤ s.max_phys) × AllMarked s (usable_start d) (usable_end d)

pub usable_bounds :
    (d : MemoryDescriptor)
    → Fits d
    → usable_descriptor d ≡ true
    → (usable_start d < 2 ^ 60)
      × (usable_end d ≤ descriptor_end d)
      × (descriptor_end d ≤ 2 ^ 52)
      × (usable_start d ≡ usable_start d / page_size * page_size)
unfolding usable_start usable_end
usable_bounds d fits u = let f = fits u in unfold align_up align_down descriptor_end in omega arith

release_step : MemoryDescriptor → Pmm → Pmm
release_step d s =
    if usable_descriptor d
    then release_loop (usable_end d / page_size + 1) (usable_start d) (usable_end d) s
    else s

release_step-RangeReleased :
    (d : MemoryDescriptor) (s : Pmm)
    → IsValid s
    → IsCovered s
    → s.used_page_count ≡ 0
    → Fits d
    → Ready s d
    → usable_descriptor d ≡ true
    → RangeReleased s (release_step d s) (usable_start d) (usable_end d)
unfolding release_step
release_step-RangeReleased d s v c unused fits ready u =
    let b = usable_bounds d fits u in
    rw u (
      release_loop-RangeReleased (usable_end d / page_size + 1) (usable_start d) (usable_end d) s v
        c unused b.3 (ready u).0 b.0 (omega arith) (ready u).1)

release_step_skip :
    (d : MemoryDescriptor) (s : Pmm) → usable_descriptor d ≡ false → release_step d s ≡ s
unfolding release_step
release_step_skip d s nu = rw nu refl

-- A descriptor that comes later stays ready.
Ready-release_step :
    (d e : MemoryDescriptor) (s : Pmm)
    → IsValid s
    → IsCovered s
    → s.used_page_count ≡ 0
    → Fits d
    → Ready s d
    → Apart d e
    → Ready s e
    → Ready (release_step d s) e
Ready-release_step d e s v c unused fits ready apart later ue =
    elim (Bool-cases (usable_descriptor d)) [
      | inr nu ↦ rw (release_step_skip d s nu) (later ue)
      | inl u ↦
          let r = release_step-RangeReleased d s v c unused fits ready u in
          let sides = apart u ue in
          (
            omega (arith, (later ue).0, r.same.max),
            λ q a b.
                rw
                  (
                    r.bits q,
                    and-false (leb (usable_start d) (q * page_size))
                        (leb (q * page_size + page_size) (usable_end d))
                        (λ x y. omega (arith, leb→le _ _ x, leb→le _ _ y, sides)),
                  )
                  ((later ue).1 q a b),
          )
    ]

release_step-Reserved :
    (d : MemoryDescriptor) (s : Pmm)
    → IsValid s
    → IsCovered s
    → s.used_page_count ≡ 0
    → Fits d
    → Ready s d
    → Reserved s (release_step d s) × IsValid (release_step d s)
release_step-Reserved d s v c unused fits ready = elim (Bool-cases (usable_descriptor d)) [
  | inl u ↦ let r = release_step-RangeReleased d s v c unused fits ready u in (r.same, r.valid)
  | inr nu ↦ rw (release_step_skip d s nu) (ground arith, v)
]

All-Ready :
    (d : MemoryDescriptor) (es : List MemoryDescriptor) (s : Pmm)
    → IsValid s
    → IsCovered s
    → s.used_page_count ≡ 0
    → Fits d
    → Ready s d
    → All (Apart d) es
    → All (Ready s) es
    → All (Ready (release_step d s)) es
All-Ready d [] s v c unused fits ready apart later = tt
All-Ready d (e ∷ es) s v c unused fits ready apart later = (
  Ready-release_step d e s v c unused fits ready apart.0 later.0,
  All-Ready d es s v c unused fits ready apart.1 later.1,
)

pub release_all-IsValid :
    (ds : List MemoryDescriptor) (s : Pmm)
    → IsValid s
    → IsCovered s
    → s.used_page_count ≡ 0
    → MapFits ds
    → All (Ready s) ds
    → Reserved s (release_all ds s) × IsValid (release_all ds s)
unfolding release_all release_step
release_all-IsValid [] s v c unused fits ready = (ground arith, v)
release_all-IsValid (d ∷ ds) s v c unused fits ready =
    let (same, valid) = release_step-Reserved d s v c unused fits.0 ready.0 in
    let (rest, valid') =
      release_all-IsValid ds (release_step d s) valid (omega (arith, same.total, same.max, c))
        (same.used ∙ unused) fits.2 (All-Ready d ds s v c unused fits.0 ready.0 fits.1 ready.1) in
    (
      record {
        total = rest.total ∙ same.total;
        max = rest.max ∙ same.max;
        used = rest.used ∙ same.used;
        memory = rest.memory ∙ same.memory;
        width = rest.width ∙ same.width;
      },
      valid',
    )

-- The highest end bounds every usable descriptor, and is below 2^52 if they are.
max_end_above : (ds : List MemoryDescriptor) (best : ℕ) → best ≤ max_end ds best
unfolding max_end
max_end_above [] best = omega arith
max_end_above (d ∷ ds) best = ground (
  arith,
  max_end_above ds
      (if usable_descriptor d && ltb best (descriptor_end d) then descriptor_end d else best),
)

abbrev pub Below : ℕ → MemoryDescriptor → Type 0
Below top d = usable_descriptor d ≡ true → descriptor_end d ≤ top

pub max_end-Below : (ds : List MemoryDescriptor) (best : ℕ) → All (Below (max_end ds best)) ds
unfolding max_end
max_end-Below [] best = tt
max_end-Below (d ∷ ds) best =
    let next =
      if usable_descriptor d && ltb best (descriptor_end d) then descriptor_end d else best in
    (λ u. ground (arith, max_end_above ds next), max_end-Below ds next)

pub max_end_small :
    (ds : List MemoryDescriptor) (best : ℕ) → MapFits ds → best ≤ 2 ^ 52 → max_end ds best ≤ 2 ^ 52
unfolding max_end
max_end_small [] best fits h = h
max_end_small (d ∷ ds) best fits h =
    max_end_small ds _ fits.2 (elim (Bool-cases (usable_descriptor d)) [
      | inl u ↦ let b = (usable_bounds d fits.0 u).2 in ground arith
      | inr nu ↦ rw nu h
    ])

pub All-Ready_start :
    (ds : List MemoryDescriptor) (top : ℕ) (old : ℕ → ℕ) (memory : Memory)
    → top ≤ 2 ^ 52
    → MapFits ds
    → All (Below top) ds
    → All (Ready (all_reserved top old memory)) ds
All-Ready_start [] top old memory small fits below = tt
All-Ready_start (d ∷ ds) top old memory small fits below = (
  (λ u.
      let b = usable_bounds d fits.0 u in
      let top_eq = all_reserved_max top old memory in
      let c = all_reserved-IsCovered top old memory small in
      (
        omega (arith, b.1, below.0 u, top_eq),
        λ q lo hi.
            all_reserved_marked top old memory small q (omega (arith, b.1, below.0 u, top_eq, c)),
      )),
  All-Ready_start ds top old memory small fits.2 below.1,
)
