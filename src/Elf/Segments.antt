-- ===== src/Elf/Segments.antt =====
-- Which segments elf_probe_user_image of kernel/elf.c reports.
use ore_os.Base.{
  Bool-cases, List, Memory, [], add64, append-nil, append_assoc, arith, if◌then◌else◌, inl, inr,
  leb, leb→gt, length, length-append, map, some, some_injective, suc, sym, true, zero, ℕ, ◌*◌, ◌++◌,
  ◌+◌, ◌∙◌, ◌∷◌, ◌≡◌, ◌≤◌,
}
use ore_os.Elf.{
  Phdr, UserElfSegmentInfo, e_phentsize, e_phoff, loadable, probe_loop, read_phdr, segment_of,
  segment_ok,
}

-- The program headers from `i` on, as the loop reads them.
unfoldable pub headers : Memory → (rounds i : ℕ) → List Phdr
headers m zero i = []
headers m (suc rounds) i =
    read_phdr m (add64 (e_phoff m) (i * e_phentsize m)) ∷ headers m rounds (i + 1)

-- The headers that ask for memory, in order.
unfoldable pub loads : List Phdr → List Phdr
loads [] = []
loads (ph ∷ phs) = if loadable ph then ph ∷ loads phs else loads phs

abbrev pub AllOk : ℕ → List Phdr → Type 0
AllOk size [] = Unit
AllOk size (ph ∷ phs) = (segment_ok size ph ≡ true) × AllOk size phs

pub probe_loop-some :
    (m : Memory) (size rounds i : ℕ) (found : List UserElfSegmentInfo)
    {out : List UserElfSegmentInfo}
    → length found ≤ 8
    → probe_loop m size rounds i found ≡ some out
    → (out ≡ found ++ map segment_of (loads (headers m rounds i)))
      × (length out ≤ 8)
      × AllOk size (loads (headers m rounds i))
unfolding probe_loop headers loads
probe_loop-some m size zero i found {out} le e =
    let here : found ≡ out = some_injective e in
    (sym here ∙ sym (append-nil found), rw (← here) le, tt)
probe_loop-some m size (suc rounds) i found {out} le e =
    let ph = read_phdr m (add64 (e_phoff m) (i * e_phentsize m)) in
    elim (Bool-cases (loadable ph)) [
      | inr skip ↦
          rw skip (
            probe_loop-some m size rounds (i + 1) found {out = out} le (rw (probe_loop, skip) at e))
      | inl load ↦ elim (Bool-cases (segment_ok size ph)) [
        | inr bad ↦ let e' = rw (probe_loop, load, bad) at e in cc
        | inl ok ↦ elim (Bool-cases (leb 8 (length found))) [
          | inl full ↦ let e' = rw (probe_loop, load, ok, full) at e in cc
          | inr room ↦
              let r =
                probe_loop-some m size rounds (i + 1) (found ++ segment_of ph ∷ []) {out = out}
                  (omega
                    (arith, length-append found (segment_of ph ∷ []), leb→gt 8 (length found) room))
                  (rw (probe_loop, load, ok, room) at e) in
              rw load (
                r.0
                    ∙ append_assoc found (segment_of ph ∷ [])
                        (map segment_of (loads (headers m rounds (i + 1)))),
                r.1,
                (ok, r.2),
              )
        ]
      ]
    ]
