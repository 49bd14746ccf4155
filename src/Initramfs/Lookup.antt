-- ===== src/Initramfs/Lookup.antt =====
-- What initramfs_lookup_raw of kernel/initramfs.c finds.
use ore_os.Base.{
  Bool-cases, List, Memory, [], ap, arith, false, get_elem?, get_or, inl, inr, length, none, refl,
  some, some_injective, suc, sym, true, true-false, zero, ℕ, ◌+◌, ◌<◌, ◌∙◌, ◌∷◌, ◌≡◌, ◌⊎◌,
}
use ore_os.Initramfs.{InitramfsFile, drop_slash, find_name, initramfs_lookup_raw, str_eq}

-- The string at the address `a`, with its NUL.
abbrev pub StringAt : Memory → ℕ → List ℕ → Type 0
StringAt m a cs = ((i : ℕ) → i < length cs → m (a + i) ≡ get_or cs i 0) × (m (a + length cs) ≡ 0)

str_eq-StringAt : (m : Memory) (a : ℕ) (cs : List ℕ) → str_eq m a cs ≡ true → StringAt m a cs
unfolding str_eq
str_eq-StringAt m a [] e =
    let end : a + 0 ≡ a = omega arith in
    let nul : m a ≡ 0 = ground arith in (λ i lt. absurd (omega arith), ap m end ∙ nul)
str_eq-StringAt m a (c ∷ cs) e =
    let here : m a ≡ c = ground arith in
    let ih = str_eq-StringAt m (a + 1) cs (ground arith) in
    (at here ih.0, ap m (omega arith) ∙ ih.1)
  where
    at :
        m a ≡ c
        → ((i : ℕ) → i < length cs → m (a + 1 + i) ≡ get_or cs i 0)
        → (i : ℕ) → i < length (c ∷ cs)
        → m (a + i) ≡ get_or (c ∷ cs) i 0
    at here later zero lt = ap m (omega arith) ∙ here
    at here later (suc i) lt = ap m (omega arith) ∙ later i (omega arith)

StringAt-str_eq : (m : Memory) (a : ℕ) (cs : List ℕ) → StringAt m a cs → str_eq m a cs ≡ true
unfolding str_eq
StringAt-str_eq m a [] h = let end : m a ≡ 0 = ap m (omega arith) ∙ h.1 in ground arith
StringAt-str_eq m a (c ∷ cs) h =
    let here : m a ≡ c = ap m (omega arith) ∙ h.0 0 (omega arith) in
    let rest =
      StringAt-str_eq m (a + 1) cs
        (λ i lt. ap m (omega arith) ∙ h.0 (suc i) (omega arith), ap m (omega arith) ∙ h.1) in
    ground arith

-- No file among the first `n` has the name.
abbrev pub NoneBefore : Memory → List InitramfsFile → (n : ℕ) → List ℕ → Type 0
NoneBefore m files n name =
    (i : ℕ) (f : InitramfsFile) → i < n → get_elem? files i ≡ some f → ¬ StringAt m f.name name

NoneBefore-cons :
    (m : Memory) (f : InitramfsFile) (fs : List InitramfsFile) (n : ℕ) (p : List ℕ)
    → str_eq m f.name p ≡ false
    → NoneBefore m fs n p
    → NoneBefore m (f ∷ fs) (suc n) p
NoneBefore-cons m f fs n p other h zero g lt e at = true-false (
    sym (StringAt-str_eq m g.name p at)
    ∙ ap (λ (x : InitramfsFile). str_eq m x.name p) (sym (some_injective e))
    ∙ other)
NoneBefore-cons m f fs n p other h (suc i) g lt e at = h i g (omega arith) e at

find_name_lem :
    (m : Memory) (p : List ℕ) (files : List InitramfsFile)
    → ((i : ℕ) × (f : InitramfsFile) × (find_name m p files ≡ some f)
        × (get_elem? files i ≡ some f)
        × StringAt m f.name p
        × NoneBefore m files i p)
      ⊎ (find_name m p files ≡ none) × NoneBefore m files (length files) p
unfolding find_name
find_name_lem m p [] = inr (refl, λ i f lt e at. absurd (omega arith))
find_name_lem m p (f ∷ fs) = elim (Bool-cases (str_eq m f.name p)) [
  | inl same ↦
      rw same (
        inl
          (0, f, refl, refl, str_eq-StringAt m f.name p same, λ i g lt e at. absurd (omega arith)))
  | inr other ↦ elim (find_name_lem m p fs) [
    | inl (i, g, found, at, is, before) ↦
        rw other (inl (suc i, g, found, at, is, NoneBefore-cons m f fs i p other before))
    | inr (nothing, before) ↦
        rw other (inr (nothing, NoneBefore-cons m f fs (length fs) p other before))
  ]
]

-- initramfs_lookup_raw gives the first file of the list whose name, as a string in the archive, is the
-- path without a slash in front, and none only if there is no such file.
pub initramfs_lookup_raw_lem :
    (m : Memory) (files : List InitramfsFile) (path : List ℕ)
    → let name = drop_slash path in
      ((i : ℕ) × (f : InitramfsFile) × (initramfs_lookup_raw m files path ≡ some f)
        × (get_elem? files i ≡ some f)
        × StringAt m f.name name
        × NoneBefore m files i name)
      ⊎ (initramfs_lookup_raw m files path ≡ none) × NoneBefore m files (length files) name
unfolding initramfs_lookup_raw
initramfs_lookup_raw_lem m files path = find_name_lem m (drop_slash path) files
