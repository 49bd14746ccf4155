-- ===== src/UserStrings/Copy.antt =====
-- The strings of a process that kernel/syscall.c copies: which it takes, and why it refuses others.
use ore_os.Base.{
  Bool, Bool-cases, List, add64, ap, arith, false, inl, inr, length, ltb, ltb→lt, refl, suc, sym,
  true, zero, ℕ, ◌+◌, ◌<◌, ◌==◌, ◌^◌, ◌∙◌, ◌≡◌, ◌≢◌, ◌⊎◌,
}
use ore_os.Vmm.{Vmm}
use ore_os.UserMemory.{SysResult, einval, failed, user_range_ok, value}
use ore_os.UserMemory.Bytes.{byte_ok, bytes_ok}
use ore_os.UserStrings.{
  c_string, copy_from_user, efault, load_bytes, refused, string, strlen_loop, strlen_user,
  user_byte, user_string,
}

module _ (root : ℕ) (s : Vmm) (ptr : ℕ) where
  abbrev ok : ℕ → Bool
  ok i = user_range_ok root s (ptr + i) 1

  -- The first `n` bytes are readable, and none is NUL.
  unfoldable pub HasText : (n : ℕ) → Type 0
  HasText n =
      (i : ℕ) → i < n → (user_range_ok root s (ptr + i) 1 ≡ true) × (user_byte root s (ptr + i) ≢ 0)

  one_more : (i : ℕ) → HasText i → ok i ≡ true → user_byte root s (ptr + i) ≢ 0 → HasText (i + 1)
  unfolding HasText
  one_more i text h n k b = elim (Bool-cases (ltb k i)) [
    | inl lt ↦ text k (ltb→lt k i lt)
    | inr ge ↦
        let same : i ≡ k = ground arith in
        (ap ok (sym same) ∙ h, λ z. n (ap (λ j. user_byte root s (ptr + j)) same ∙ z))
  ]

  -- What the loop finds up to the byte `end`.
  pub Length : (end : ℕ) → SysResult → Type 0
  Length end result =
      ((n : ℕ) × (n < end)
        × HasText n
        × ((user_range_ok root s (ptr + n) 1 ≡ true)
              × (user_byte root s (ptr + n) ≡ 0)
              × (result ≡ value n)
            ⊎ (user_range_ok root s (ptr + n) 1 ≡ false) × (result ≡ failed efault)))
      ⊎ HasText end × (result ≡ failed einval)

  no_wrap : ptr < 2 ^ 64 → (i : ℕ) → i < 2 ^ 32 → HasText i → add64 ptr i ≡ ptr + i
  unfolding HasText
  no_wrap small zero b text = omega arith
  no_wrap small (suc i) b text =
      let (from, below, there) = byte_ok root s (ptr + 0) ((text 0 (omega arith)).0) in omega arith

  strlen_loop_lem :
      ptr < 2 ^ 64
      → (rounds i end : ℕ) → i + rounds ≡ end
      → end < 2 ^ 32
      → HasText i
      → Length end (strlen_loop root s ptr rounds i)
  unfolding strlen_loop HasText Length
  strlen_loop_lem small zero i end e b text = inr ((λ k c. text k (omega arith)), refl)
  strlen_loop_lem small (suc m) i end e b text =
      let whole = no_wrap small i (omega arith) text in
      elim (Bool-cases (ok i)) [
        | inr bad ↦ inl (i, omega arith, text, inr (bad, ground (arith, whole, bad)))
        | inl fine ↦ elim (Bool-cases (user_byte root s (ptr + i) == 0)) [
          | inl z ↦
              inl (i, omega arith, text, inl (fine, ground arith, ground (arith, whole, fine, z)))
          | inr nz ↦
              let rest =
                strlen_loop_lem small m (i + 1) end (omega arith) b
                  (one_more i text fine (ground arith)) in
              let same : strlen_loop root s ptr (suc m) i ≡ strlen_loop root s ptr m (i + 1) =
                ground (arith, whole, fine, nz) in
              rw same rest
        ]
      ]

  c_string-load_bytes :
      (n v : ℕ)
      → ((i : ℕ) → i < n → user_byte root s (v + i) ≢ 0)
      → user_byte root s (v + n) ≡ 0
      → c_string (load_bytes root s v (n + 1)) ≡ load_bytes root s v n
  unfolding c_string load_bytes
  c_string-load_bytes zero v h z =
      let here : user_byte root s v ≡ 0 = ap (user_byte root s) (omega arith) ∙ z in
      ground (arith, here)
  c_string-load_bytes (suc n) v h z =
      let here : user_byte root s v ≢ 0 =
        λ e. h 0 (omega arith) (ap (user_byte root s) (omega arith) ∙ e) in
      let rest =
        c_string-load_bytes n (v + 1)
          (λ i b e. h (suc i) (omega arith) (ap (user_byte root s) (omega arith) ∙ e))
          (ap (user_byte root s) (omega arith) ∙ z) in
      ground (arith, here, rest)

  taken :
      (max n : ℕ)
      → HasText n
      → ok n ≡ true
      → user_byte root s (ptr + n) ≡ 0
      → strlen_user root s ptr max ≡ value n
      → user_string root s ptr max ≡ string (load_bytes root s ptr n)
  unfolding user_string copy_from_user HasText
  taken max n text fine z e =
      let all = bytes_ok root s ptr n (λ i b. elim (Bool-cases (ltb i n)) [
        | inl lt ↦ (text i (ltb→lt i n lt)).0
        | inr ge ↦ (let same : i ≡ n = ground arith in ap ok same ∙ fine)
      ]) in
      let copied = c_string-load_bytes n ptr (λ i b. (text i b).1) z in
      let more : n + 1 ≡ suc n = omega arith in ground (arith, all, copied, more, e)

  -- For a pointer of 64 bits and a limit below 2^32, the copy of a string of a process gives the bytes
  -- before its first NUL if there is one below the limit and all bytes up to it may be read; it refuses
  -- with EFAULT if a byte before any NUL and below the limit may not be read, and with EINVAL if the
  -- bytes below the limit may all be read and none is NUL. The copy after the measuring never fails.
  pub user_string_lem :
      (max : ℕ)
      → ptr < 2 ^ 64
      → max < 2 ^ 32
      → let result = user_string root s ptr max in
        ((n : ℕ) × (n < max)
          × HasText n
          × ((user_range_ok root s (ptr + n) 1 ≡ true)
                × (user_byte root s (ptr + n) ≡ 0)
                × (result ≡ string (load_bytes root s ptr n))
              ⊎ (user_range_ok root s (ptr + n) 1 ≡ false) × (result ≡ refused efault)))
        ⊎ HasText max × (result ≡ refused einval)
  unfolding user_string strlen_user Length HasText
  user_string_lem max small bound =
      elim (strlen_loop_lem small max 0 max (omega arith) bound (λ i b. absurd (omega arith))) [
        | inl (n, below, text, inl (fine, z, e)) ↦
            inl (n, below, text, inl (fine, z, taken max n text fine z e))
        | inl (n, below, text, inr (bad, e)) ↦ inl (n, below, text, inr (bad, ground (arith, e)))
        | inr (text, e) ↦ inr (text, ground (arith, e))
      ]

  length-load_bytes : (n v : ℕ) → length (load_bytes root s v n) ≡ n
  unfolding load_bytes
  length-load_bytes zero v = refl
  length-load_bytes (suc n) v = ap suc (length-load_bytes n (v + 1))

  -- The string that was copied is shorter than the limit.
  pub short_string :
      (max : ℕ) (chars : List ℕ)
      → ptr < 2 ^ 64
      → max < 2 ^ 32
      → user_string root s ptr max ≡ string chars
      → length chars < max
  short_string max chars small bound e = elim (user_string_lem max small bound) [
    | inl (n, below, text, inl (fine, z, f)) ↦
        let same : chars ≡ load_bytes root s ptr n = ground (arith, e, f) in
        rw (same, length-load_bytes n ptr) below
    | inl (n, below, text, inr (bad, f)) ↦ absurd (ground (arith, e, f))
    | inr (text, f) ↦ absurd (ground (arith, e, f))
  ]
